-- ===== src/EthExecutor/Closing.antt =====
-- What the hook is told of after the transactions of a block.
use seismic_evm.Prelude.{
  if◌then◌else◌, Bool-cases, saturating_u64, map_err, Result-cases, pure, ℕ, ◌≡◌, refl, sym, ap,
  ◌∙◌, inl, inr, Option, none, some, List, [], ◌∷◌, ◌++◌,
}
use seismic_evm.Prelude.Dict.{Dict}
use seismic_evm.Types.{Types, BlockEnv}
use seismic_evm.Errors.{increment_balance_failed, validation}
use seismic_evm.Platform.{Platform}
use seismic_evm.Spec.{EthExecutorSpec}
use seismic_evm.StateHook.{
  balance_increments, StateChangeSource, post_block, StateHook, told, and_then_told, told-notify,
  and_then_told_nil,
}
use seismic_evm.EthExecutor.Opening.{view_calling, ToldSince, ToldSince-then, told-calling}
use seismic_evm.Prelude.Keeps.{
  Keeps, Keeps-pure, Keeps-if, Keeps-bind, OnOk, OnOk-bind, OnOk-always,
}
use seismic_evm.SystemCalls.{caller_post_execution_changes}
use seismic_evm.SystemCalls.Told.{request_sources, told-caller_post}
use seismic_evm.Balances.{add_increment, balance_increment_state}
use seismic_evm.DaoFork.{dao_hardfork_beneficiary, dao_hardfork_accounts}
use seismic_evm.Deposits.{parse_deposits_from_receipts}
use seismic_evm.EthExecutor.{
  EthBlockExecutor, calling, sum_u128, on_database, calling_db, deposit_entry, prague_requests,
  collect_requests, drained_into, drain_dao, increments_told, notify_hook, notify_increments,
  block_increments, eth_finish,
}

module _ {t : Types} (p : Platform t) where
  -- What comes after the transactions, by the block's settings and the executor's specification.
  abbrev pub closing_sources : BlockEnv → EthExecutorSpec → List StateChangeSource
  closing_sources block spec =
      (if spec.is_prague_active_at_timestamp (saturating_u64 block.timestamp)
        then request_sources p
        else [])
      ++ post_block balance_increments ∷ []

  -- The hook of the executor.
  abbrev hook_view : EthBlockExecutor t → Option StateHook
  hook_view s = s.system_caller.hook

  Keeps-drained_hook : (increments : Dict ℕ) → Keeps hook_view (drained_into p increments)
  Keeps-drained_hook increments =
      Keeps-bind
        (calling_db p (validation increment_balance_failed)
          (p.drain_balances dao_hardfork_accounts))
        (λ drained. pure (add_increment dao_hardfork_beneficiary (sum_u128 drained) increments))
        (record { same = λ s. refl }) (λ d. Keeps-pure _)

  Keeps-increments_hook : Keeps hook_view (block_increments p)
  unfolding drain_dao
  Keeps-increments_hook = record {
    same = λ s.
        (Keeps-if (s.spec.dao_transitions_at_block (saturating_u64 (p.block s.evm).number))
            (drained_into p _) (pure _) (Keeps-drained_hook _) (Keeps-pure _)).same
          s;
  }

  told-collect_requests :
      (s : EthBlockExecutor t)
      → OnOk
          (λ _ u.
            ToldSince s
              (if s.spec.is_prague_active_at_timestamp (saturating_u64 (p.block s.evm).timestamp)
                then request_sources p
                else [])
              u)
          (collect_requests p s)
  unfolding collect_requests
  told-collect_requests s =
      elim (Bool-cases
        (s.spec.is_prague_active_at_timestamp (saturating_u64 (p.block s.evm).timestamp))) [
          | inr off ↦ rw off (and_then_told_nil (told s.system_caller.hook))
          | inl on ↦ rw on (prague s)
        ]
    where
      prague :
          (s : EthBlockExecutor t)
          → OnOk (λ _ u. ToldSince s (request_sources p) u) (prague_requests p s)
      prague s =
          elim (Result-cases
            (map_err validation (parse_deposits_from_receipts p s.spec s.receipts))) [
              | inr (e, bad) ↦ rw bad tt
              | inl (d, good) ↦ rw good (
                  OnOk-bind (λ _ u. ToldSince s (request_sources p) u)
                    (λ _ u. ToldSince s (request_sources p) u)
                    (calling (caller_post_execution_changes p) s)
                    (λ requests. pure (deposit_entry p d ++ requests))
                    (told-calling p (request_sources p) (caller_post_execution_changes p) s
                      (told-caller_post p (view_calling s)))
                    (λ r u h. h))
            ]

  told-notify_hook :
      (hook : Option StateHook) (increments : Dict ℕ) (s : EthBlockExecutor t)
      → s.system_caller.hook ≡ hook
      → OnOk
          (λ _ u. ToldSince s (post_block balance_increments ∷ []) u)
          (notify_hook p hook increments s)
  told-notify_hook none increments s same = rw same refl
  told-notify_hook (some hook) increments s same =
      OnOk-bind (λ _ u. Unit {0}) (λ _ u. ToldSince s (post_block balance_increments ∷ []) u)
        (on_database p (balance_increment_state p increments) s) (increments_told p hook)
        (OnOk-always (λ u. Unit {0}) (on_database p (balance_increment_state p increments) s) tt)
        (λ state u _.
          told-notify (post_block balance_increments) state (some hook)
          ∙ ap (λ o. and_then_told (told o) (post_block balance_increments ∷ [])) (sym same))

  pub told-eth_finish :
      (s : EthBlockExecutor t)
      → OnOk (λ _ u. ToldSince s (closing_sources (p.block s.evm) s.spec) u) (eth_finish p s)
  unfolding eth_finish notify_increments
  told-eth_finish s =
      let requested =
        if s.spec.is_prague_active_at_timestamp (saturating_u64 (p.block s.evm).timestamp)
        then request_sources p
        else [] in
      OnOk-bind (λ _ u. ToldSince s requested u) _ (collect_requests p s) _
        (told-collect_requests s)
        (λ requests u h.
          OnOk-bind (λ _ v. ToldSince s requested v) _ (block_increments p u) _
            (OnOk-always (λ v. ToldSince s requested v) (block_increments p u)
              (ap told (Keeps-increments_hook.same u) ∙ h))
            (λ increments v h'.
              OnOk-bind (λ _ w. ToldSince s requested w) _
                (calling_db p (validation increment_balance_failed)
                  (p.increment_balances increments) v)
                _
                (OnOk-always (λ w. ToldSince s requested w)
                  (calling_db p (validation increment_balance_failed)
                    (p.increment_balances increments) v)
                  h')
                (λ _ w h''.
                  OnOk-bind (λ _ x. ToldSince s (closing_sources (p.block s.evm) s.spec) x) _
                    (notify_increments p increments w) _
                    (ToldSince-then s w requested _ h'' (notify_increments p increments w)
                      (told-notify_hook w.system_caller.hook increments w refl))
                    (λ _ x k. k))))
