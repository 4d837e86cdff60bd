-- ===== src/SystemCalls/Guards.antt =====
-- When the system calls before the transactions do nothing, and their errors.
use seismic_evm.Prelude.{
  ◌==◌, if◌then◌else◌, Bool-cases, Result, ok, err, ℕ, ◌≡◌, refl, ap, ◌∙◌, inl, inr, Bool, true,
  false, not, ◌&&◌, Option, none, some,
}
use seismic_evm.Types.{B256, Types}
use seismic_evm.Errors.{
  missing_parent_beacon_block_root, cancun_genesis_parent_beacon_block_root_not_zero,
  BlockExecutionError, validation,
}
use seismic_evm.Platform.{Platform}
use seismic_evm.SystemCalls.{
  timestamp_seconds, transact_blockhashes_contract_call, transact_beacon_root_contract_call,
  Calling, apply_blockhashes_contract_call, apply_beacon_root_contract_call,
  caller_pre_execution_changes,
}
use mathlib.Core.Path.{subst}

module _ {t : Types} (p : Platform t) where
  -- Whether a fork is active at the block's timestamp, in seconds.
  abbrev pub active : (ℕ → Bool) → Calling t → Bool
  active fork s = fork (timestamp_seconds p.timestamp_in_seconds (p.block s.evm))

  abbrev pub is_genesis : Calling t → Bool
  is_genesis s = (p.block s.evm).number == 0

  -- No call for the parent's hash: Prague is not active, or the block is the genesis block.
  blockhashes-quiet :
      (hash : B256) (s : Calling t)
      → (active s.caller.spec.is_prague_active_at_timestamp s && not (is_genesis s)) ≡ false
      → apply_blockhashes_contract_call p hash s ≡ (ok tt, s)
  unfolding apply_blockhashes_contract_call transact_blockhashes_contract_call timestamp_seconds
  blockhashes-quiet hash s h =
      elim (Bool-cases (active s.caller.spec.is_prague_active_at_timestamp s)) [
        | inr off ↦ rw off refl
        | inl on ↦ elim (Bool-cases (is_genesis s)) [
          | inl genesis ↦ rw on (rw genesis refl)
          | inr later ↦ absurd (cc (h, on, later))
        ]
      ]

  -- What the call for the parent's beacon block root does without calling the EVM.
  abbrev pub beacon_root_quiet :
      (cancun genesis : Bool) → Option B256 → Option (Result (BlockExecutionError t) Unit)
  beacon_root_quiet false genesis root = some (ok tt)
  beacon_root_quiet true genesis none = some (err (validation missing_parent_beacon_block_root))
  beacon_root_quiet true true (some root) =
      if root == 0
      then some (ok tt)
      else some (err (validation (cancun_genesis_parent_beacon_block_root_not_zero root)))
  beacon_root_quiet true false (some root) = none

  some_result :
      (x r : Result (BlockExecutionError t) Unit) (s : Calling t)
      → some x ≡ some r
      → ◌≡◌ {A = Result (BlockExecutionError t) Unit × Calling t} (x, s) (r, s)
  some_result x r s h = ap (λ o. (elim o [ none ↦ x | some y ↦ y ], s)) h

  beacon_root-cases :
      (cancun genesis : Bool) (root : Option B256) (s : Calling t)
      (r : Result (BlockExecutionError t) Unit)
      → active s.caller.spec.is_cancun_active_at_timestamp s ≡ cancun
      → is_genesis s ≡ genesis
      → beacon_root_quiet cancun genesis root ≡ some r
      → apply_beacon_root_contract_call p root s ≡ (r, s)
  unfolding apply_beacon_root_contract_call transact_beacon_root_contract_call timestamp_seconds
  beacon_root-cases false genesis root s r off first h = rw off refl ∙ some_result _ r s h
  beacon_root-cases true true none s r on first h = rw on refl ∙ some_result _ r s h
  beacon_root-cases true false none s r on first h = rw on refl ∙ some_result _ r s h
  beacon_root-cases true true (some root) s r on first h = elim (Bool-cases (root == 0)) [
    | inl nothing ↦
        rw on (rw first (rw nothing refl))
        ∙ some_result _ r s (
            subst
              (λ b.
                (if b
                  then some (ok tt)
                  else some
                      (err (validation (cancun_genesis_parent_beacon_block_root_not_zero root))))
                ≡ some r)
              nothing h)
    | inr given ↦
        rw on (rw first (rw given refl))
        ∙ some_result _ r s (
            subst
              (λ b.
                (if b
                  then some (ok tt)
                  else some
                      (err (validation (cancun_genesis_parent_beacon_block_root_not_zero root))))
                ≡ some r)
              given h)
  ]
  beacon_root-cases true false (some root) s r on later h = absurd (cc h)

  -- The system calls before the transactions do nothing, and return as `beacon_root_quiet` says, if
  -- the block's hash is not stored (Prague is not active at the timestamp in seconds, or it is the
  -- genesis block) and no beacon root is: Cancun is not active, no root is given (an error), or it
  -- is the genesis block (an error if its root is not zero).
  pub caller_pre_execution_changes-quiet :
      (hash : B256) (root : Option B256) (s : Calling t) (r : Result (BlockExecutionError t) Unit)
      → (active s.caller.spec.is_prague_active_at_timestamp s && not (is_genesis s)) ≡ false
      → beacon_root_quiet (active s.caller.spec.is_cancun_active_at_timestamp s) (is_genesis s) root
        ≡ some r
      → caller_pre_execution_changes p hash root s ≡ (r, s)
  unfolding caller_pre_execution_changes
  caller_pre_execution_changes-quiet hash root s r h k =
      rw (blockhashes-quiet hash s h) (beacon_root-cases _ _ root s r refl refl k)
