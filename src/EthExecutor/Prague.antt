-- ===== src/EthExecutor/Prague.antt =====
-- The requests of a block: crates/evm/src/eth/block.rs, the first part of `finish`.
use seismic_evm.Prelude.{
  Bool-cases, saturating_u64, Result, ok, err, Result-cases, ◌≡◌, refl, ap, ◌⊎◌, inl, inr, Bool,
  true, false, [], ◌∷◌, ◌++◌,
}
use seismic_evm.Types.{Bytes, Types}
use seismic_evm.Errors.{increment_balance_failed, BlockExecutionError, validation}
use seismic_evm.Platform.{Platform}
use seismic_evm.Prelude.Keeps.{OnOk, Returns-bind, OnOk-bind, OnOk-implies}
use seismic_evm.SystemCalls.{Requests, Calling, caller_post_execution_changes}
use seismic_evm.EthExecutor.{
  EthBlockExecutor, calling, calling_db, deposit_entry, prague_requests, collect_requests,
  notify_increments, block_increments, eth_finish,
}
use seismic_evm.Deposits.{parse_deposits_from_receipts}
use seismic_evm.SystemCalls.Answers.{entry_of, ContractRequests, caller_post-ContractRequests}

module _ {t : Types} (p : Platform t) where
  deposit_entry-entry_of :
      (deposits : Bytes)
      → deposit_entry p deposits ≡ entry_of p.constants.deposit_request_type deposits
  deposit_entry-entry_of [] = refl
  deposit_entry-entry_of (b ∷ bs) = refl

  -- The requests of a block after Prague: of its deposits, then of the two contracts.
  abbrev pub PragueRequests : EthBlockExecutor t → Requests → Type 0
  PragueRequests s requests =
      (deposits : Bytes) × (rest : Requests) × (after : t.Evm) × (parse_deposits_from_receipts p
          s.spec s.receipts
        ≡ ok deposits)
      × ContractRequests p s.evm after rest
      × (requests ≡ entry_of p.constants.deposit_request_type deposits ++ rest)

  OnOk-calling :
      {A : Type 0} (Q : A → t.Evm → Type 0) (s : EthBlockExecutor t)
      (r : Result (BlockExecutionError t) A × Calling t)
      → OnOk (λ a c. Q a c.evm) r
      → OnOk (λ a u. Q a u.evm) (r.0, record s { system_caller = r.1.caller; evm = r.1.evm })
  OnOk-calling Q s (ok a, c) h = h
  OnOk-calling Q s (err e, c) h = tt

  prague_requests-PragueRequests :
      (s : EthBlockExecutor t)
      → OnOk (λ requests _. PragueRequests s requests) (prague_requests p s)
  prague_requests-PragueRequests s =
      elim (Result-cases (parse_deposits_from_receipts p s.spec s.receipts)) [
        | inr (e, bad) ↦ rw bad tt
        | inl (deposits, good) ↦
            let calls : Calling t = record { caller = s.system_caller; evm = s.evm } in
            rw good (
              OnOk-bind (λ rest u. ContractRequests p s.evm u.evm rest) _
                (calling (caller_post_execution_changes p) s) _
                (OnOk-calling (λ rest after. ContractRequests p s.evm after rest) s
                  (caller_post_execution_changes p calls) (caller_post-ContractRequests p calls))
                (λ rest u h. (
                  deposits,
                  rest,
                  u.evm,
                  refl,
                  h,
                  ap (λ l. l ++ rest) (deposit_entry-entry_of deposits),
                )))
      ]

  -- Whether the executor takes the block for one after Prague: it asks for the timestamp as it is,
  -- in milliseconds unless the feature `timestamp-in-seconds` is on.
  abbrev pub prague_by_timestamp : EthBlockExecutor t → Bool
  prague_by_timestamp s =
      s.spec.is_prague_active_at_timestamp (saturating_u64 (p.block s.evm).timestamp)

  -- The requests of a block.
  abbrev pub BlockRequests : EthBlockExecutor t → Requests → Type 0
  BlockRequests s requests =
      ((prague_by_timestamp s ≡ true) × PragueRequests s requests)
      ⊎ ((prague_by_timestamp s ≡ false) × (requests ≡ []))

  collect_requests-BlockRequests :
      (s : EthBlockExecutor t)
      → OnOk (λ requests _. BlockRequests s requests) (collect_requests p s)
  unfolding collect_requests
  collect_requests-BlockRequests s = elim (Bool-cases (prague_by_timestamp s)) [
    | inr off ↦ rw off (inr (refl, refl))
    | inl on ↦ rw on (
        OnOk-implies (λ requests _. PragueRequests s requests) (prague_requests p s)
          (prague_requests-PragueRequests s) (λ requests u h. inl (refl, h)))
  ]

  -- If closing a block succeeds, its requests are these. If Prague is active at the block's
  -- timestamp as it is, without a conversion to seconds: the request of the deposits parsed from
  -- the receipts, then that of the withdrawal contract's output, then that of the output of the
  -- consolidation contract, called on the state that the first contract's changes were committed
  -- to; both contracts succeeded, and no request is made for empty bytes. Otherwise none.
  pub eth_finish-BlockRequests :
      (s : EthBlockExecutor t) → OnOk (λ res _. BlockRequests s res.requests) (eth_finish p s)
  unfolding eth_finish
  eth_finish-BlockRequests s =
      OnOk-bind (λ r _. BlockRequests s r) _ (collect_requests p s) _
        (collect_requests-BlockRequests s)
        (λ r u made.
          (Returns-bind {Q = λ res _. BlockRequests s res.requests} (block_increments p) _
              (λ increments.
                Returns-bind
                  (calling_db p (validation increment_balance_failed)
                    (p.increment_balances increments))
                  _
                  (λ _.
                    Returns-bind (notify_increments p increments) _
                      (λ _. record { on_ok = λ v. made })))).on_ok
            u)
