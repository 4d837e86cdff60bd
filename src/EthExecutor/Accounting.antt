-- ===== src/EthExecutor/Accounting.antt =====
-- A whole block: what `execute_block` reports of its transactions and its gas.
use mathlib.Core.Path.{subst}
use seismic_evm.Prelude.{
  length, All, u64_mod, Result, ok, err, ◌>>◌, ℕ, ◌+◌, ◌≤◌, ◌<◌, ◌≡◌, refl, sym, ap, ◌∙◌, List, [],
  arith,
}
use seismic_evm.Types.{Types}
use seismic_evm.Errors.{BlockExecutionError}
use seismic_evm.Platform.{Platform, ExecutableTx}
use seismic_evm.Spec.{EthExecutorSpec}
use seismic_evm.Prelude.Keeps.{OnOk, OnOk-bind, OnOk-always, OnOk-and}
use seismic_evm.Platform.Laws.{EvmLaws, RespectsGasLimit}
use seismic_evm.Executor.{
  BlockExecutionResult, execute_transactions, apply_post_execution_changes, execute_block,
}
use seismic_evm.EthExecutor.{
  EthBlockExecutionCtx, ReceiptBuilder, EthBlockExecutor, new_executor, eth_pre_execution_changes,
  eth_finish, eth_block_executor,
}
use seismic_evm.EthExecutor.Gas.{Cumulates, ReportsGas}
use seismic_evm.EthExecutor.Block.{
  kept_part, IsReady, IsReady-same, Keeps-pre, Keeps-finish, Reports, Returns-finish,
}
use seismic_evm.EthExecutor.Transactions.{execute_transactions-Ran, Keeps-execute_transactions}

module _ {t : Types} (p : Platform t) (laws : EvmLaws p) where
  -- What a block that succeeded reports: a receipt for each transaction, whose gas adds up to the
  -- block's, which is within the block's gas limit.
  abbrev pub Accounted : (n limit : ℕ) → BlockExecutionResult t → Type 0
  Accounted n limit res =
      (length res.receipts ≡ n) × Cumulates p 0 res.receipts res.gas_used × (res.gas_used ≤ limit)

  new_executor-IsReady :
      (evm : t.Evm) (ctx : EthBlockExecutionCtx) (spec : EthExecutorSpec) (b : ReceiptBuilder t)
      → ReportsGas p b
      → (p.block evm).gas_limit < u64_mod
      → IsReady p laws (new_executor evm ctx spec b)
  unfolding new_executor
  new_executor-IsReady evm ctx spec b reports fits = record {
    consistent = record { in_limit = omega arith; limit_fits = fits; cumulates = refl };
    reports = reports;
  }

  abbrev pub BlockResult : Type 0
  BlockResult = Result (BlockExecutionError t) (BlockExecutionResult t) × EthBlockExecutor t

  abbrev pub IsAccounted : (n limit : ℕ) → BlockResult → Type 0
  IsAccounted n limit = OnOk (λ res _. Accounted n limit res)

  finish-Accounted :
      (n limit : ℕ) (s : EthBlockExecutor t)
      → IsReady p laws s
      → length s.receipts ≡ n
      → (p.block s.evm).gas_limit ≡ limit
      → (r : BlockResult) → OnOk (Reports p laws) r
      → kept_part p laws r.1 ≡ kept_part p laws s
      → IsAccounted n limit r
  finish-Accounted n limit s h e l (ok res, u) reports same =
      let rs : res.receipts ≡ s.receipts = reports.0 ∙ ap (λ k. k.1) same in
      let gas : res.gas_used ≡ s.gas_used = reports.1 ∙ ap (λ k. k.2) same in
      (
        ap length rs ∙ e,
        rw gas (subst (λ x. Cumulates p 0 x s.gas_used) (sym rs) h.consistent.cumulates),
        rw gas (omega (arith, h.consistent.in_limit, l)),
      )
  finish-Accounted n limit s h e l (err x, u) reports same = tt

  -- The transactions and the end of the block, from a state without receipts.
  rest-Accounted :
      (txs : List (ExecutableTx t)) (limit : ℕ) (s : EthBlockExecutor t)
      → All (RespectsGasLimit p) txs
      → IsReady p laws s
      → s.receipts ≡ []
      → (p.block s.evm).gas_limit ≡ limit
      → IsAccounted (length txs) limit (
          (execute_transactions (eth_block_executor p) txs
              >> apply_post_execution_changes (eth_block_executor p))
            s)
  unfolding apply_post_execution_changes
  rest-Accounted txs limit s respects h none_yet l =
      let ran = execute_transactions-Ran p laws txs s respects h in
      let same = (Keeps-execute_transactions p laws txs).same s in
      let none_yet' : length s.receipts ≡ 0 = ap length none_yet in
      OnOk-bind
        (λ _ u.
          (IsReady p laws u × (p.block u.evm ≡ p.block s.evm))
          × (length u.receipts ≡ length s.receipts + length txs))
        _ (execute_transactions (eth_block_executor p) txs s) _
        (OnOk-and _ _ (execute_transactions (eth_block_executor p) txs s)
          (OnOk-always (λ u. IsReady p laws u × (p.block u.evm ≡ p.block s.evm))
            (execute_transactions (eth_block_executor p) txs s) (ran.0, same))
          ran.1)
        (λ _ u after.
          finish-Accounted (length txs) limit u after.0.0 (omega (arith, after.1, none_yet'))
            (ap (λ b. b.gas_limit) after.0.1 ∙ l) (eth_finish p u) ((Returns-finish p laws).on_ok u)
            ((Keeps-finish p laws).same u))

  -- If the executor is new and a block succeeds, its result has a receipt for each transaction,
  -- the receipts' cumulative gas rises to the gas that the result reports, and that is at most the
  -- block's gas limit. The receipt builder is taken to report the cumulative gas that it is given,
  -- each transaction to respect its gas limit, and the block's gas limit to be a `u64`.
  pub execute_block-Accounted :
      (evm : t.Evm) (ctx : EthBlockExecutionCtx) (spec : EthExecutorSpec) (b : ReceiptBuilder t)
      (txs : List (ExecutableTx t))
      → ReportsGas p b
      → (p.block evm).gas_limit < u64_mod
      → All (RespectsGasLimit p) txs
      → OnOk
          (λ res u. Accounted (length txs) (p.block evm).gas_limit res)
          (execute_block (eth_block_executor p) txs (new_executor evm ctx spec b))
  unfolding execute_block new_executor
  execute_block-Accounted evm ctx spec b txs reports fits respects =
      let s = new_executor evm ctx spec b in
      let same = (Keeps-pre p laws).same s in
      OnOk-bind (λ _ u. kept_part p laws u ≡ kept_part p laws s) _ (eth_pre_execution_changes p s) _
        (OnOk-always (λ u. kept_part p laws u ≡ kept_part p laws s) (eth_pre_execution_changes p s)
          same)
        (λ _ u e.
          rest-Accounted txs (p.block evm).gas_limit u respects
            (IsReady-same p laws e (new_executor-IsReady evm ctx spec b reports fits))
            (ap (λ k. k.1) e) (ap (λ k. k.0.gas_limit) e))
