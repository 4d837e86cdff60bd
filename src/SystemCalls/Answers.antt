-- ===== src/SystemCalls/Answers.antt =====
-- The requests that the system calls after the transactions of a block make.
use seismic_evm.Prelude.{ok, Result-cases, pair_of_fst, ℕ, ◌≡◌, refl, inl, inr, List, [], ◌∷◌, ◌++◌}
use seismic_evm.Types.{
  Address, Bytes, Types, Log, ExecutionResult, success, revert, halt, ResultAndState,
}
use seismic_evm.Platform.{Platform}
use seismic_evm.Prelude.Keeps.{OnOk, OnOk-bind}
use seismic_evm.SystemCalls.{
  transact_withdrawal_requests_contract_call, transact_consolidation_requests_contract_call,
  post_commit_withdrawals, post_commit_consolidations, Requests, Calling, publish,
  apply_withdrawal_requests_contract_call, apply_consolidation_requests_contract_call, push_if_any,
  caller_post_execution_changes,
}

-- The request of some bytes: none for no bytes.
abbrev pub entry_of : ℕ → Bytes → Requests
entry_of ty [] = []
entry_of ty (b ∷ bs) = (ty, b ∷ bs) ∷ []

module _ {t : Types} (p : Platform t) where
  -- The system contract, called with no input, has succeeded with an output, and its changes are
  -- committed.
  abbrev pub Answered : Address → Bytes → (evm after : t.Evm) → Type 0
  Answered contract output evm after =
      (res : ResultAndState t.HaltReason) × (evm' : t.Evm) × (gas : ℕ) × (logs : List Log)
      × (p.transact_system_call p.constants.requests_system_address contract [] evm
          ≡ (ok res, evm'))
      × (res.result ≡ success gas logs output)
      × (after ≡ p.set_db evm' (p.commit res.state (p.db evm')))

  abbrev pub ContractRequests : (evm after : t.Evm) → Requests → Type 0
  ContractRequests evm after requests =
      (withdrawals : Bytes) × (consolidations : Bytes) × (between : t.Evm) × Answered
        p.constants.withdrawal_request_predeploy_address withdrawals evm between
      × Answered p.constants.consolidation_request_predeploy_address consolidations between after
      × (requests
          ≡ entry_of p.constants.withdrawal_request_type withdrawals
            ++ entry_of p.constants.consolidation_request_type consolidations)

  post_commit_withdrawals-Answered :
      (evm : t.Evm) (res : ResultAndState t.HaltReason) (evm' : t.Evm) (u : Calling t)
      → p.transact_system_call p.constants.requests_system_address
          p.constants.withdrawal_request_predeploy_address [] evm
        ≡ (ok res, evm')
      → u.evm ≡ p.set_db evm' (p.commit res.state (p.db evm'))
      → (r : ExecutionResult t.HaltReason) → res.result ≡ r
      → OnOk
          (λ output v. Answered p.constants.withdrawal_request_predeploy_address output evm v.evm)
          (post_commit_withdrawals {t = t} r, u)
  unfolding post_commit_withdrawals
  post_commit_withdrawals-Answered evm res evm' u called after (success gas logs output) is =
      (res, evm', gas, logs, called, is, after)
  post_commit_withdrawals-Answered evm res evm' u called after (revert gas output) is = tt
  post_commit_withdrawals-Answered evm res evm' u called after (halt gas reason) is = tt

  apply_withdrawals-Answered :
      (s : Calling t)
      → OnOk
          (λ output u. Answered p.constants.withdrawal_request_predeploy_address output s.evm u.evm)
          (apply_withdrawal_requests_contract_call p s)
  unfolding apply_withdrawal_requests_contract_call transact_withdrawal_requests_contract_call
      publish
  apply_withdrawals-Answered s =
      let called =
        p.transact_system_call p.constants.requests_system_address
          p.constants.withdrawal_request_predeploy_address [] s.evm in
      elim (Result-cases called.0) [
        | inr (e, bad) ↦ rw bad tt
        | inl (res, good) ↦ rw good (
            post_commit_withdrawals-Answered s.evm res called.1 _ (pair_of_fst _ good) refl
              res.result refl)
      ]

  post_commit_consolidations-Answered :
      (evm : t.Evm) (res : ResultAndState t.HaltReason) (evm' : t.Evm) (u : Calling t)
      → p.transact_system_call p.constants.requests_system_address
          p.constants.consolidation_request_predeploy_address [] evm
        ≡ (ok res, evm')
      → u.evm ≡ p.set_db evm' (p.commit res.state (p.db evm'))
      → (r : ExecutionResult t.HaltReason) → res.result ≡ r
      → OnOk
          (λ output v.
            Answered p.constants.consolidation_request_predeploy_address output evm v.evm)
          (post_commit_consolidations {t = t} r, u)
  unfolding post_commit_consolidations
  post_commit_consolidations-Answered evm res evm' u called after (success gas logs output) is =
      (res, evm', gas, logs, called, is, after)
  post_commit_consolidations-Answered evm res evm' u called after (revert gas output) is = tt
  post_commit_consolidations-Answered evm res evm' u called after (halt gas reason) is = tt

  apply_consolidations-Answered :
      (s : Calling t)
      → OnOk
          (λ output u.
            Answered p.constants.consolidation_request_predeploy_address output s.evm u.evm)
          (apply_consolidation_requests_contract_call p s)
  unfolding apply_consolidation_requests_contract_call transact_consolidation_requests_contract_call
      publish
  apply_consolidations-Answered s =
      let called =
        p.transact_system_call p.constants.requests_system_address
          p.constants.consolidation_request_predeploy_address [] s.evm in
      elim (Result-cases called.0) [
        | inr (e, bad) ↦ rw bad tt
        | inl (res, good) ↦ rw good (
            post_commit_consolidations-Answered s.evm res called.1 _ (pair_of_fst _ good) refl
              res.result refl)
      ]

  push_if_any-entry_of :
      (w c : ℕ) (withdrawals consolidations : Bytes)
      → push_if_any p c consolidations (push_if_any p w withdrawals [])
        ≡ entry_of w withdrawals ++ entry_of c consolidations
  push_if_any-entry_of w c [] [] = refl
  push_if_any-entry_of w c [] (b ∷ bs) = refl
  push_if_any-entry_of w c (b ∷ bs) [] = refl
  push_if_any-entry_of w c (b ∷ bs) (b' ∷ bs') = refl

  pub caller_post-ContractRequests :
      (s : Calling t)
      → OnOk
          (λ requests u. ContractRequests s.evm u.evm requests)
          (caller_post_execution_changes p s)
  unfolding caller_post_execution_changes
  caller_post-ContractRequests s =
      OnOk-bind
        (λ output u. Answered p.constants.withdrawal_request_predeploy_address output s.evm u.evm) _
        (apply_withdrawal_requests_contract_call p s) _ (apply_withdrawals-Answered s)
        (λ withdrawals u h.
          OnOk-bind
            (λ output v.
              Answered p.constants.consolidation_request_predeploy_address output u.evm v.evm)
            _ (apply_consolidation_requests_contract_call p u) _ (apply_consolidations-Answered u)
            (λ consolidations v k. (
              withdrawals,
              consolidations,
              u.evm,
              h,
              k,
              push_if_any-entry_of _ _ withdrawals consolidations,
            )))
