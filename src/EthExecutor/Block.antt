-- ===== src/EthExecutor/Block.antt =====
-- Opening and closing a block leave its settings, receipts and gas as they were.
use mathlib.Core.Path.{subst}
use seismic_evm.Prelude.{
  saturating_u64, map_err, Exec, pure, lift, ℕ, ◌≡◌, refl, sym, ap, ◌∙◌, Option, none, some, List,
  [],
}
use seismic_evm.Prelude.Dict.{Dict}
use seismic_evm.Types.{Types, BlockEnv}
use seismic_evm.Errors.{increment_balance_failed, BlockExecutionError, validation}
use seismic_evm.Platform.{Platform}
use seismic_evm.StateHook.{StateHook}
use seismic_evm.Prelude.Keeps.{
  Keeps, Keeps-lift, Keeps-pure, Keeps-if, Keeps-bind, Returns, Returns-bind,
}
use seismic_evm.Platform.Laws.{EvmLaws}
use seismic_evm.SystemCalls.{Requests, Calling}
use seismic_evm.SystemCalls.Block.{
  settings, Keeps-blockhashes, Keeps-beacon_root, Keeps-caller_post,
}
use seismic_evm.Balances.{add_increment, balance_increment_state}
use seismic_evm.DaoFork.{dao_hardfork_beneficiary, dao_hardfork_accounts}
use seismic_evm.Deposits.{parse_deposits_from_receipts}
use seismic_evm.Executor.{BlockExecutionResult}
use seismic_evm.EthExecutor.{
  EthBlockExecutionCtx, ReceiptBuilder, EthBlockExecutor, calling, sum_u128, on_database,
  calling_db, with_state_clear_flag, pre_block_calls, eth_pre_execution_changes, prague_requests,
  collect_requests, drained_into, drain_dao, notify_hook, notify_increments, block_result,
  block_increments, eth_finish,
}
use seismic_evm.EthExecutor.Gas.{Cumulates, ReportsGas, IsConsistent}

module _ {t : Types} (p : Platform t) (laws : EvmLaws p) where
  -- What only a kept transaction changes.
  abbrev pub kept_part : EthBlockExecutor t → BlockEnv × List t.Receipt × ℕ × ReceiptBuilder t
  kept_part s = (p.block s.evm, s.receipts, s.gas_used, s.receipt_builder)

  pub record IsReady (s : EthBlockExecutor t) : Type 0 where
    pub consistent : IsConsistent p s
    pub reports : ReportsGas p s.receipt_builder

  pub IsReady-same :
      {s s' : EthBlockExecutor t} → kept_part s' ≡ kept_part s → IsReady s → IsReady s'
  IsReady-same {s} {s'} e h = record {
    consistent = record {
      in_limit = rw (ap (λ k. k.0) e) (rw (ap (λ k. k.2) e) h.consistent.in_limit);
      limit_fits = rw (ap (λ k. k.0) e) h.consistent.limit_fits;
      cumulates = subst (λ k. Cumulates p 0 k.1 k.2) (sym e) h.consistent.cumulates;
    };
    reports = subst (λ k. ReportsGas p k.3) (sym e) h.reports;
  }

  Keeps-calling :
      {A : Type 0} (m : Exec (Calling t) (BlockExecutionError t) A)
      → Keeps (settings laws) m
      → Keeps kept_part (calling m)
  Keeps-calling m k = record {
    same = λ s i. (
      (k.same (record { caller = s.system_caller; evm = s.evm }) i).0,
      s.receipts,
      s.gas_used,
      s.receipt_builder,
    );
  }

  Keeps-on_database :
      {A : Type 0} (m : Exec t.Db (BlockExecutionError t) A) → Keeps kept_part (on_database p m)
  Keeps-on_database m = record {
    same = λ s i.
        (laws.block-set_db s.evm (m (p.db s.evm)).1 i, s.receipts, s.gas_used, s.receipt_builder);
  }

  Keeps-calling_db :
      {A : Type 0} (error : BlockExecutionError t) (m : Exec t.Db t.DbError A)
      → Keeps kept_part (calling_db p error m)
  Keeps-calling_db error m = record {
    same = λ s i.
        (laws.block-set_db s.evm (m (p.db s.evm)).1 i, s.receipts, s.gas_used, s.receipt_builder);
  }

  Keeps-pre_block_calls : (ctx : EthBlockExecutionCtx) → Keeps kept_part (pre_block_calls p ctx)
  Keeps-pre_block_calls ctx =
      Keeps-bind _ _ (Keeps-calling _ (Keeps-blockhashes laws ctx.parent_hash))
        (λ _. Keeps-calling _ (Keeps-beacon_root laws ctx.parent_beacon_block_root))

  kept_part-with_state_clear_flag :
      (s : EthBlockExecutor t) → kept_part (with_state_clear_flag p s) ≡ kept_part s
  kept_part-with_state_clear_flag s i = (
    laws.block-set_db s.evm
        (p.set_state_clear_flag
          (s.spec.is_spurious_dragon_active_at_block (saturating_u64 (p.block s.evm).number))
          (p.db s.evm))
        i,
    s.receipts,
    s.gas_used,
    s.receipt_builder,
  )

  pub Keeps-pre : Keeps kept_part (eth_pre_execution_changes p)
  unfolding eth_pre_execution_changes
  Keeps-pre = record {
    same = λ s.
        (Keeps-pre_block_calls s.ctx).same (with_state_clear_flag p s)
        ∙ kept_part-with_state_clear_flag s;
  }

  Keeps-prague_requests : Keeps kept_part (prague_requests p)
  Keeps-prague_requests = record {
    same = λ s.
        (Keeps-bind (lift (map_err validation (parse_deposits_from_receipts p s.spec s.receipts))) _
            (Keeps-lift _)
            (λ d.
              Keeps-bind _ _ (Keeps-calling _ (Keeps-caller_post laws)) (λ r. Keeps-pure _))).same
          s;
  }

  Keeps-collect_requests : Keeps kept_part (collect_requests p)
  unfolding collect_requests
  Keeps-collect_requests = record {
    same = λ s.
        (Keeps-if (s.spec.is_prague_active_at_timestamp (saturating_u64 (p.block s.evm).timestamp))
            (prague_requests p) (pure []) Keeps-prague_requests (Keeps-pure [])).same
          s;
  }

  Keeps-drained_into : (increments : Dict ℕ) → Keeps kept_part (drained_into p increments)
  Keeps-drained_into increments =
      Keeps-bind
        (calling_db p (validation increment_balance_failed)
          (p.drain_balances dao_hardfork_accounts))
        (λ drained. pure (add_increment dao_hardfork_beneficiary (sum_u128 drained) increments))
        (Keeps-calling_db (validation increment_balance_failed)
          (p.drain_balances dao_hardfork_accounts))
        (λ d. Keeps-pure _)

  Keeps-block_increments : Keeps kept_part (block_increments p)
  unfolding drain_dao
  Keeps-block_increments = record {
    same = λ s.
        (Keeps-if (s.spec.dao_transitions_at_block (saturating_u64 (p.block s.evm).number))
            (drained_into p _) (pure _) (Keeps-drained_into _) (Keeps-pure _)).same
          s;
  }

  Keeps-notify_hook :
      (hook : Option StateHook) (increments : Dict ℕ)
      → Keeps kept_part (notify_hook p hook increments)
  Keeps-notify_hook none increments = Keeps-pure tt
  Keeps-notify_hook (some hook) increments =
      Keeps-bind _ _ (Keeps-on_database (balance_increment_state p increments))
        (λ state. record { same = λ s. refl })

  Keeps-notify : (increments : Dict ℕ) → Keeps kept_part (notify_increments p increments)
  unfolding notify_increments
  Keeps-notify increments = record {
    same = λ s. (Keeps-notify_hook s.system_caller.hook increments).same s;
  }

  -- Closing the block changes neither receipts nor gas, and reports both.
  pub Keeps-finish : Keeps kept_part (eth_finish p)
  unfolding eth_finish
  Keeps-finish = Keeps-bind _ _ Keeps-collect_requests (λ r.
      Keeps-bind _ _ Keeps-block_increments (λ increments.
        Keeps-bind _ _
          (Keeps-calling_db (validation increment_balance_failed) (p.increment_balances increments))
          (λ _. Keeps-bind _ _ (Keeps-notify increments) (λ _. record { same = λ s. refl }))))

  abbrev pub Reports : BlockExecutionResult t → EthBlockExecutor t → Type 0
  Reports res s = (res.receipts ≡ s.receipts) × (res.gas_used ≡ s.gas_used)

  Returns-block_result : (r : Requests) → Returns Reports (block_result p r)
  Returns-block_result r = record { on_ok = λ s. (refl, refl) }

  pub Returns-finish : Returns Reports (eth_finish p)
  unfolding eth_finish
  Returns-finish = Returns-bind (collect_requests p) _ (λ r.
      Returns-bind (block_increments p) _ (λ increments.
        Returns-bind
          (calling_db p (validation increment_balance_failed) (p.increment_balances increments)) _
          (λ _. Returns-bind (notify_increments p increments) _ (λ _. Returns-block_result r))))
