-- ===== src/Errors/Downcast.antt =====
-- crates/evm/src/block/error.rs: the boxed error of another type, and its downcasts.
-- Whether a boxed error is of a type, and its value at it, is a parameter.
use seismic_evm.Prelude.{
  Option-cases, Result, ok, err, ◌≡◌, refl, ◌⊎◌, inl, inr, Bool, true, false, Option, none, some,
}
use seismic_evm.Types.{Types}
use seismic_evm.Errors.{
  OtherError, InternalBlockExecutionError, evm_failed, failed_to_decrypt_seismic_tx, other,
}

module _ {t : Types} where
  -- `InternalBlockExecutionError::as_other`
  abbrev pub as_other : InternalBlockExecutionError t → Option (OtherError t)
  as_other (other e) = some e
  as_other (evm_failed hash e) = none
  as_other (failed_to_decrypt_seismic_tx e) = none

  module _ {T : Type 0} (cast : OtherError t → Option T) where
    -- `InternalBlockExecutionError::downcast`
    unfoldable pub downcast :
        InternalBlockExecutionError t → Result (InternalBlockExecutionError t) T
    downcast (other e) = elim (cast e) [ none ↦ err (other e) | some x ↦ ok x ]
    downcast (evm_failed hash e) = err (evm_failed hash e)
    downcast (failed_to_decrypt_seismic_tx e) = err (failed_to_decrypt_seismic_tx e)

    -- `InternalBlockExecutionError::downcast_other`
    unfoldable pub downcast_other : InternalBlockExecutionError t → Option T
    downcast_other e = elim (as_other e) [ none ↦ none | some o ↦ cast o ]

    -- `InternalBlockExecutionError::is_other`
    unfoldable pub is_other : InternalBlockExecutionError t → Bool
    is_other e = elim (as_other e) [
      | none ↦ false
      | some o ↦ elim (cast o) [ none ↦ false | some _ ↦ true ]
    ]

    -- The three downcasts agree: either each finds the same value, or none finds one, and then
    -- `downcast` gives the error back.
    downcast_agree :
        (e : InternalBlockExecutionError t)
        → ((x : T) × (downcast e ≡ ok x) × (downcast_other e ≡ some x) × (is_other e ≡ true))
          ⊎ ((downcast e ≡ err e) × (downcast_other e ≡ none) × (is_other e ≡ false))
    unfolding downcast downcast_other is_other
    downcast_agree (other e) = elim (Option-cases (cast e)) [
      | inl missing ↦ inr (rw (missing, downcast) refl, missing, rw (missing, is_other) refl)
      | inr (x, found) ↦ inl (x, rw (found, downcast) refl, found, rw (found, is_other) refl)
    ]
    downcast_agree (evm_failed hash e) = inr (refl, refl, refl)
    downcast_agree (failed_to_decrypt_seismic_tx e) = inr (refl, refl, refl)
