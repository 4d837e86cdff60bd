-- ===== src/EthExecutor/Ordering.antt =====
-- What the hook is told of over a whole block, and in which order.
use seismic_evm.Prelude.{length, Exec, ◌>>◌, ℕ, ◌≡◌, refl, ap, List, [], ◌∷◌, ◌++◌}
use seismic_evm.Types.{Types, BlockEnv}
use seismic_evm.Errors.{BlockExecutionError}
use seismic_evm.Platform.{Platform, ExecutableTx}
use seismic_evm.Spec.{EthExecutorSpec}
use seismic_evm.Prelude.Keeps.{
  Keeps, Keeps-pure, Keeps-bind, OnOk, OnOk-bind, OnOk-always, OnOk-and,
}
use seismic_evm.Platform.Laws.{EvmLaws}
use seismic_evm.SystemCalls.{apply_blockhashes_contract_call, apply_beacon_root_contract_call}
use seismic_evm.Executor.{
  commit_yes, BlockExecutionResult, default_result_closure, execute_transactions,
  apply_post_execution_changes, execute_block,
}
use seismic_evm.EthExecutor.{
  EthBlockExecutionCtx, EthBlockExecutor, calling, with_state_clear_flag, pre_block_calls,
  eth_pre_execution_changes, keep_transaction, eth_execute_transaction, eth_finish,
  eth_block_executor,
}
use seismic_evm.EthExecutor.Outcome.{
  refused, failed, dropped, kept, eth_execute_transaction-Outcome,
}
use seismic_evm.EthExecutor.Block.{Keeps-pre}
use seismic_evm.EthExecutor.Transactions.{Keeps-execute_transactions}
use seismic_evm.EthExecutor.Hook.{transaction_sources, execute_transactions-told}
use seismic_evm.EthExecutor.Opening.{ToldSince, ToldSince-then, opening_sources, told-eth_pre}
use seismic_evm.EthExecutor.Closing.{closing_sources, told-eth_finish}
use mathlib.Core.Path.{subst}

module _ {t : Types} (p : Platform t) where
  -- The specification, which nothing changes.
  abbrev spec_view : EthBlockExecutor t → EthExecutorSpec
  spec_view s = s.spec

  Keeps-pre_block_spec : (ctx : EthBlockExecutionCtx) → Keeps spec_view (pre_block_calls p ctx)
  Keeps-pre_block_spec ctx =
      Keeps-bind (calling (apply_blockhashes_contract_call p ctx.parent_hash))
        (λ _. calling (apply_beacon_root_contract_call p ctx.parent_beacon_block_root))
        (record { same = λ s. refl }) (λ _. record { same = λ s. refl })

  Keeps-pre_spec : Keeps spec_view (eth_pre_execution_changes p)
  unfolding eth_pre_execution_changes
  Keeps-pre_spec = record {
    same = λ s. (Keeps-pre_block_spec s.ctx).same (with_state_clear_flag p s);
  }

  Keeps-transaction_spec :
      (tx : ExecutableTx t) → Keeps spec_view (eth_execute_transaction p tx (λ _. commit_yes))
  Keeps-transaction_spec tx = record {
    same = λ s. elim (eth_execute_transaction-Outcome p tx (λ _. commit_yes) s) [
      | refused over e ↦ rw e refl
      | failed fits x evm' ran e ↦ rw e refl
      | dropped fits x evm' ran keep e ↦ rw e refl
      | kept fits x evm' ran keep e ↦ rw e (unfold keep_transaction in refl)
    ];
  }

  Keeps-transactions_spec :
      (txs : List (ExecutableTx t))
      → Keeps spec_view (execute_transactions (eth_block_executor p) txs)
  unfolding execute_transactions
  Keeps-transactions_spec [] = Keeps-pure tt
  Keeps-transactions_spec (tx ∷ txs) =
      Keeps-bind (default_result_closure (eth_execute_transaction p) tx) _
        (Keeps-bind (eth_execute_transaction p tx (λ _. commit_yes)) _ (Keeps-transaction_spec tx)
          (λ gas. Keeps-pure _))
        (λ gas. Keeps-transactions_spec txs)

  module _ (laws : EvmLaws p) where
    -- The settings that decide what is told at the end of a block.
    abbrev end_view : EthBlockExecutor t → BlockEnv × EthExecutorSpec
    end_view s = (p.block s.evm, s.spec)

    -- What `execute_block` runs after the changes before the transactions.
    abbrev after_pre :
        List (ExecutableTx t)
        → Exec (EthBlockExecutor t) (BlockExecutionError t) (BlockExecutionResult t)
    after_pre txs = do
      execute_transactions (eth_block_executor p) txs
      apply_post_execution_changes (eth_block_executor p)

    told-rest :
        (txs : List (ExecutableTx t)) (s : EthBlockExecutor t)
        → OnOk
            (λ _ u.
              ToldSince s
                (transaction_sources (length s.receipts) txs
                  ++ closing_sources p (p.block s.evm) s.spec)
                u)
            (after_pre txs s)
    unfolding apply_post_execution_changes
    told-rest txs s =
        let ran = execute_transactions (eth_block_executor p) txs s in
        let sources = transaction_sources (length s.receipts) txs in
        OnOk-bind (λ _ u. ToldSince s sources u × (end_view u ≡ end_view s)) _ ran _
          (OnOk-and _ _ ran (execute_transactions-told p txs s) (
            OnOk-always (λ u. end_view u ≡ end_view s) ran
              (λ i. (
                (Keeps-execute_transactions p laws txs).same s i,
                (Keeps-transactions_spec txs).same s i,
              ))))
          (λ _ u h. ToldSince-then s u sources _ h.0 _ (
            subst (λ x. OnOk (λ _ w. ToldSince u (closing_sources p x.0 x.1) w) (eth_finish p u))
              h.1 (told-eth_finish p u)))

    -- If a block succeeds, the hook, if there is one, is told of these changes, each once and in this
    -- order: of the call that stores the parent's hash, if Prague is active, and of the call that
    -- stores the parent's beacon block root, if Cancun is active, both by the timestamp in seconds
    -- and in no genesis block; of each transaction under the index of its receipt; if Prague is
    -- active, by the timestamp without a conversion to seconds, of the calls for withdrawal
    -- and consolidation requests; and of the balance increments.
    pub execute_block-told :
        (txs : List (ExecutableTx t)) (s : EthBlockExecutor t)
        → OnOk
            (λ _ u.
              ToldSince s
                (opening_sources p (p.block s.evm) s.system_caller.spec
                  ++ (transaction_sources (length s.receipts) txs
                      ++ closing_sources p (p.block s.evm) s.spec))
                u)
            (execute_block (eth_block_executor p) txs s)
    unfolding execute_block apply_post_execution_changes
    execute_block-told txs s =
        let opening = opening_sources p (p.block s.evm) s.system_caller.spec in
        let pre = eth_pre_execution_changes p s in
        OnOk-bind
          (λ _ u.
            ToldSince s opening u
            × ((length u.receipts ≡ length s.receipts) × (end_view u ≡ end_view s)))
          _ pre _
          (OnOk-and _ _ pre (told-eth_pre p laws s) (
            OnOk-always (λ u. (length u.receipts ≡ length s.receipts) × (end_view u ≡ end_view s))
              pre
              (
                ap (λ k. length k.1) ((Keeps-pre p laws).same s),
                (λ i. (((Keeps-pre p laws).same s i).0, Keeps-pre_spec.same s i)),
              )))
          (λ _ u h. ToldSince-then s u opening _ h.0 _ (
            subst
              (λ (x : ℕ × (BlockEnv × EthExecutorSpec)).
                OnOk
                  (λ _ w.
                    ToldSince u (transaction_sources x.0 txs ++ closing_sources p x.1.0 x.1.1) w)
                  (after_pre txs u))
              (λ i. (h.1.0 i, h.1.1 i)) (told-rest txs u)))
