-- ===== src/StateHook.antt =====
-- crates/evm/src/block/state_hook.rs: the sources of state changes, and the hook that is told of
-- them. A hook returns nothing, so it is modelled by the calls that it has received, oldest first.
use seismic_evm.Prelude.{
  ℕ, ◌≡◌, refl, sym, ap, Option, none, some, List, [], ◌∷◌, ◌++◌, map, append_assoc, append-nil,
}
use seismic_evm.Types.{EvmState}

pub data StateChangePreBlockSource : Type 0 where
  block_hashes_contract beacon_root_contract pre_withdrawal_requests_contract :
      StateChangePreBlockSource

pub data StateChangePostBlockSource : Type 0 where
  balance_increments withdrawal_requests_contract consolidation_requests_contract :
      StateChangePostBlockSource

pub data StateChangeSource : Type 0 where
  transaction_source : (index : ℕ) → StateChangeSource
  pre_block : StateChangePreBlockSource → StateChangeSource
  post_block : StateChangePostBlockSource → StateChangeSource

abbrev pub StateHook : Type 0
StateHook = List (StateChangeSource × EvmState)

-- `OnStateHook::on_state`
abbrev pub on_state : StateChangeSource → EvmState → StateHook → StateHook
on_state source state hook = hook ++ (source, state) ∷ []

-- The hook's call if a hook is installed.
abbrev pub notify : StateChangeSource → EvmState → Option StateHook → Option StateHook
notify source state none = none
notify source state (some hook) = some (on_state source state hook)

-- The sources that a hook has been told of.
abbrev pub sources_of : StateHook → List StateChangeSource
sources_of hook = map (λ c. c.0) hook

-- The sources that the hook has been told of, if a hook is installed.
abbrev pub told : Option StateHook → Option (List StateChangeSource)
told none = none
told (some hook) = some (sources_of hook)

-- More sources, for an installed hook.
abbrev pub and_then_told :
    Option (List StateChangeSource) → List StateChangeSource → Option (List StateChangeSource)
and_then_told none more = none
and_then_told (some sources) more = some (sources ++ more)

sources-append :
    (xs : StateHook) (source : StateChangeSource) (state : EvmState)
    → sources_of (xs ++ (source, state) ∷ []) ≡ sources_of xs ++ source ∷ []
sources-append [] source state = refl
sources-append (x ∷ xs) source state = ap (λ l. x.0 ∷ l) (sources-append xs source state)

pub told-notify :
    (source : StateChangeSource) (state : EvmState) (hook : Option StateHook)
    → told (notify source state hook) ≡ and_then_told (told hook) (source ∷ [])
told-notify source state none = refl
told-notify source state (some hook) = ap some (sources-append hook source state)

pub and_then_told_nil : (o : Option (List StateChangeSource)) → o ≡ and_then_told o []
and_then_told_nil none = refl
and_then_told_nil (some l) = ap some (sym (append-nil l))

pub and_then_told_assoc :
    (o : Option (List StateChangeSource)) (xs ys : List StateChangeSource)
    → and_then_told (and_then_told o xs) ys ≡ and_then_told o (xs ++ ys)
and_then_told_assoc none xs ys = refl
and_then_told_assoc (some l) xs ys = ap some (append_assoc l xs ys)
