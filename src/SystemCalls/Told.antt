-- ===== src/SystemCalls/Told.antt =====
-- What the hook is told of by the system calls of a block.
use seismic_evm.Prelude.{
  ◌==◌, Bool-cases, Option-cases, Result-cases, ◌≡◌, ap, ◌∙◌, inl, inr, Bool, true, false, not,
  ◌&&◌, Option, List, [], ◌∷◌, ◌++◌,
}
use seismic_evm.Types.{B256, Types, EvmState}
use seismic_evm.Platform.{Platform}
use seismic_evm.StateHook.{
  block_hashes_contract, beacon_root_contract, withdrawal_requests_contract,
  consolidation_requests_contract, StateChangeSource, pre_block, post_block, told, and_then_told,
  told-notify, and_then_told_nil, and_then_told_assoc,
}
use seismic_evm.Prelude.Keeps.{OnOk, OnOk-bind, OnOk-always}
use seismic_evm.SystemCalls.{
  timestamp_seconds, transact_blockhashes_contract_call, transact_beacon_root_contract_call,
  transact_withdrawal_requests_contract_call, transact_consolidation_requests_contract_call,
  post_commit_withdrawals, post_commit_consolidations, Calling, publish,
  apply_blockhashes_contract_call, apply_beacon_root_contract_call,
  apply_withdrawal_requests_contract_call, apply_consolidation_requests_contract_call,
  caller_post_execution_changes,
}
use seismic_evm.SystemCalls.Guards.{active, is_genesis}

-- One source, if there is a call.
abbrev pub if_called : Bool → StateChangeSource → List StateChangeSource
if_called true source = source ∷ []
if_called false source = []

module _ {t : Types} (p : Platform t) where
  -- The hook has been told of more sources since `s`.
  abbrev pub MoreTold : Calling t → List StateChangeSource → Calling t → Type 0
  MoreTold s more u = told u.caller.hook ≡ and_then_told (told s.caller.hook) more

  -- Whether the parent's hash and the parent's beacon block root are stored.
  abbrev pub stores_hash : Calling t → Bool
  stores_hash s = active p s.caller.spec.is_prague_active_at_timestamp s && not (is_genesis p s)

  abbrev pub stores_root : Calling t → Bool
  stores_root s = active p s.caller.spec.is_cancun_active_at_timestamp s && not (is_genesis p s)

  told-publish :
      (source : StateChangeSource) (state : EvmState) (s : Calling t)
      → told (publish p source state s).caller.hook
        ≡ and_then_told (told s.caller.hook) (source ∷ [])
  unfolding publish
  told-publish source state s = told-notify source state s.caller.hook

  pub told-blockhashes :
      (hash : B256) (s : Calling t)
      → OnOk
          (λ _ u. MoreTold s (if_called (stores_hash s) (pre_block block_hashes_contract)) u)
          (apply_blockhashes_contract_call p hash s)
  unfolding apply_blockhashes_contract_call transact_blockhashes_contract_call timestamp_seconds
  told-blockhashes hash s =
      elim (Bool-cases (active p s.caller.spec.is_prague_active_at_timestamp s)) [
        | inr off ↦ rw off (and_then_told_nil (told s.caller.hook))
        | inl on ↦ elim (Bool-cases (is_genesis p s)) [
          | inl genesis ↦ rw on (rw genesis (and_then_told_nil (told s.caller.hook)))
          | inr later ↦
              elim (Result-cases
                (p.transact_system_call p.constants.beacon_system_address
                  p.constants.history_storage_address (p.b256_bytes hash) s.evm).0) [
                    | inr (e, bad) ↦ rw on (rw later (rw bad tt))
                    | inl (res, good) ↦ rw on (rw later (rw good (told-publish _ _ _)))
                  ]
        ]
      ]

  pub told-beacon_root :
      (root : Option B256) (s : Calling t)
      → OnOk
          (λ _ u. MoreTold s (if_called (stores_root s) (pre_block beacon_root_contract)) u)
          (apply_beacon_root_contract_call p root s)
  unfolding apply_beacon_root_contract_call transact_beacon_root_contract_call timestamp_seconds
  told-beacon_root root s =
      elim (Bool-cases (active p s.caller.spec.is_cancun_active_at_timestamp s)) [
        | inr off ↦ rw off (and_then_told_nil (told s.caller.hook))
        | inl on ↦ elim (Option-cases root) [
          | inl missing ↦ rw on (rw missing tt)
          | inr (r, given) ↦ elim (Bool-cases (is_genesis p s)) [
            | inl genesis ↦ elim (Bool-cases (r == 0)) [
              | inl nothing ↦
                  rw on
                    (rw given (rw genesis (rw nothing (and_then_told_nil (told s.caller.hook)))))
              | inr other_root ↦ rw on (rw given (rw genesis (rw other_root tt)))
            ]
            | inr later ↦
                elim (Result-cases
                  (p.transact_system_call p.constants.beacon_system_address
                    p.constants.beacon_roots_address (p.b256_bytes r) s.evm).0) [
                      | inr (e, bad) ↦ rw on (rw given (rw later (rw bad tt)))
                      | inl (res, good) ↦ rw on (rw given (rw later (rw good (told-publish _ _ _))))
                    ]
          ]
        ]
      ]

  told-withdrawals :
      (s : Calling t)
      → OnOk
          (λ _ u. MoreTold s (post_block withdrawal_requests_contract ∷ []) u)
          (apply_withdrawal_requests_contract_call p s)
  unfolding apply_withdrawal_requests_contract_call transact_withdrawal_requests_contract_call
  told-withdrawals s =
      elim (Result-cases
        (p.transact_system_call p.constants.requests_system_address
          p.constants.withdrawal_request_predeploy_address [] s.evm).0) [
            | inr (e, bad) ↦ rw bad tt
            | inl (res, good) ↦ rw good (
                OnOk-always (λ u. MoreTold s (post_block withdrawal_requests_contract ∷ []) u)
                  (post_commit_withdrawals res.result, _) (told-publish _ res.state _))
          ]

  told-consolidations :
      (s : Calling t)
      → OnOk
          (λ _ u. MoreTold s (post_block consolidation_requests_contract ∷ []) u)
          (apply_consolidation_requests_contract_call p s)
  unfolding apply_consolidation_requests_contract_call transact_consolidation_requests_contract_call
  told-consolidations s =
      elim (Result-cases
        (p.transact_system_call p.constants.requests_system_address
          p.constants.consolidation_request_predeploy_address [] s.evm).0) [
            | inr (e, bad) ↦ rw bad tt
            | inl (res, good) ↦ rw good (
                OnOk-always (λ u. MoreTold s (post_block consolidation_requests_contract ∷ []) u)
                  (post_commit_consolidations res.result, _) (told-publish _ res.state _))
          ]

  -- The sources of the calls after the transactions.
  abbrev pub request_sources : List StateChangeSource
  request_sources =
      post_block withdrawal_requests_contract ∷ post_block consolidation_requests_contract ∷ []

  MoreTold-trans :
      (s u v : Calling t) (xs ys : List StateChangeSource)
      → MoreTold s xs u
      → MoreTold u ys v
      → MoreTold s (xs ++ ys) v
  MoreTold-trans s u v xs ys h k =
      k ∙ ap (λ o. and_then_told o ys) h ∙ and_then_told_assoc (told s.caller.hook) xs ys

  pub told-caller_post :
      (s : Calling t)
      → OnOk (λ _ u. MoreTold s request_sources u) (caller_post_execution_changes p s)
  unfolding caller_post_execution_changes
  told-caller_post s =
      OnOk-bind (λ _ u. MoreTold s (post_block withdrawal_requests_contract ∷ []) u) _
        (apply_withdrawal_requests_contract_call p s) _ (told-withdrawals s)
        (λ w u h.
          OnOk-bind (λ _ v. MoreTold u (post_block consolidation_requests_contract ∷ []) v) _
            (apply_consolidation_requests_contract_call p u) _ (told-consolidations u)
            (λ c v k. MoreTold-trans s u v _ _ h k))
