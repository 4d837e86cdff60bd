-- ===== src/OpExecutor/Gas.antt =====
-- The gas that the receipts of an Optimism block report.
use mathlib.Core.Path.{subst}
use seismic_evm.Prelude.{
  length, length-append, add_u64, Result, ok, Result-cases, pure, ℕ, suc, ◌+◌, ◌≡◌, refl, ap, ◌∙◌,
  inl, inr, Option, List, [], ◌∷◌, ◌++◌, arith,
}
use seismic_evm.Types.{Types, AccountInfo, gas_used_of, ResultAndState}
use seismic_evm.Errors.{BlockExecutionError}
use seismic_evm.Platform.{ExecutableTx}
use seismic_evm.Prelude.Keeps.{OnOk, OnOk-bind}
use seismic_evm.Executor.{commit_yes, gas_or_zero, execute_transaction, execute_transactions}
use seismic_evm.EthExecutor.{ReceiptBuilderCtx}
use seismic_evm.Canyon.{OpPlatform}
use seismic_evm.OpExecutor.{
  OpDepositReceipt, OpReceiptBuilder, OpBlockExecutor, op_receipt, op_keep_transaction,
  op_execute_transaction, last_gas_used, op_block_executor,
}
use seismic_evm.OpExecutor.Outcome.{
  Run, failed, dropped, kept, Loaded, without_depositor, with_depositor, refused, unloaded, ran,
  op_execute_transaction-OpOutcome,
}

module _ {t : Types} (o : OpPlatform t) where
  -- A receipt builder that reports the cumulative gas that it is given.
  pub record OpReportsGas (builder : OpReceiptBuilder t) : Type 0 where
    pub built :
        (ctx : ReceiptBuilderCtx t) (r : t.Receipt)
        → builder.build_receipt ctx ≡ ok r
        → o.base.receipt_cumulative_gas_used r ≡ ctx.cumulative_gas_used
    pub deposited :
        (d : OpDepositReceipt)
        → o.base.receipt_cumulative_gas_used (builder.build_deposit_receipt d)
          ≡ d.inner.cumulative_gas_used

  -- There is a number of receipts, and the last one has the executor's gas.
  pub record IsReported (n : ℕ) (s : OpBlockExecutor t) : Type 0 where
    pub count : length s.receipts ≡ n
    pub last : last_gas_used o s.receipts ≡ s.gas_used
    pub reports : OpReportsGas s.receipt_builder

  last_gas_used-append :
      (rs : List t.Receipt) (r : t.Receipt)
      → last_gas_used o (rs ++ r ∷ []) ≡ o.base.receipt_cumulative_gas_used r
  last_gas_used-append [] r = refl
  last_gas_used-append (x ∷ []) r = refl
  last_gas_used-append (x ∷ y ∷ rs) r = last_gas_used-append (y ∷ rs) r

  gas-op_receipt :
      (tx : ExecutableTx t) (depositor : Option AccountInfo) (res : ResultAndState t.HaltReason)
      (s : OpBlockExecutor t)
      → OpReportsGas s.receipt_builder
      → o.base.receipt_cumulative_gas_used (op_receipt o tx depositor res s)
        ≡ add_u64 s.gas_used (gas_used_of res.result)
  unfolding op_receipt
  gas-op_receipt tx depositor res s reports =
      let ctx : ReceiptBuilderCtx t = record {
        tx = tx.tx;
        evm = s.evm;
        result = res.result;
        state = res.state;
        cumulative_gas_used = add_u64 s.gas_used (gas_used_of res.result);
      } in
      elim (Result-cases (s.receipt_builder.build_receipt ctx)) [
        | inl (r, good) ↦ rw good (reports.built ctx r good)
        | inr (c, deposit) ↦ rw deposit (reports.deposited _)
      ]

  op_keep_transaction-IsReported :
      {n : ℕ} (tx : ExecutableTx t) (depositor : Option AccountInfo)
      (res : ResultAndState t.HaltReason) (s : OpBlockExecutor t)
      → IsReported n s
      → IsReported (n + 1) (op_keep_transaction o tx depositor res s)
  unfolding op_keep_transaction
  op_keep_transaction-IsReported tx depositor res s h = record {
    count = length-append s.receipts _ ∙ ap (λ k. k + 1) h.count;
    last = last_gas_used-append s.receipts _ ∙ gas-op_receipt tx depositor res s h.reports;
    reports = h.reports;
  }

  Loaded-IsReported :
      {n : ℕ} {tx : ExecutableTx t} {s s' : OpBlockExecutor t} {depositor : Option AccountInfo}
      → Loaded o tx s depositor s'
      → IsReported n s
      → IsReported n s'
  Loaded-IsReported (without_depositor quiet nothing same) h = rw same h
  Loaded-IsReported (with_depositor regolith deposit found db' loaded account same) h =
      rw same (record { count = h.count; last = h.last; reports = h.reports })

  Run-IsReported :
      {n : ℕ} {tx : ExecutableTx t} {s : OpBlockExecutor t} {depositor : Option AccountInfo}
      {r : Result (BlockExecutionError t) (Option ℕ) × OpBlockExecutor t}
      → Run o tx (λ _. commit_yes) depositor s r
      → IsReported n s
      → OnOk (λ _ u. IsReported (n + 1) u) r
  Run-IsReported (failed e evm' bad same) h = rw same tt
  Run-IsReported (dropped res evm' good n same) h = absurd (cc n)
  Run-IsReported {tx} {s} {depositor} (kept res evm' good y same) h = rw same (
      op_keep_transaction-IsReported tx depositor res (record s { evm = evm' })
        (record { count = h.count; last = h.last; reports = h.reports }))

  execute_transaction-IsReported :
      {n : ℕ} (tx : ExecutableTx t) (s : OpBlockExecutor t)
      → IsReported n s
      → OnOk (λ _ u. IsReported (n + 1) u) (op_execute_transaction o tx (λ _. commit_yes) s)
  execute_transaction-IsReported tx s h =
      elim (op_execute_transaction-OpOutcome o tx (λ _. commit_yes) s) [
        | refused big asked same ↦ rw same tt
        | unloaded fits regolith deposit e db' loaded same ↦ rw same tt
        | ran fits depositor s' loaded run ↦ Run-IsReported run (Loaded-IsReported loaded h)
      ]

  pub execute_transactions-IsReported :
      (txs : List (ExecutableTx t)) (n : ℕ) (s : OpBlockExecutor t)
      → IsReported n s
      → OnOk
          (λ _ u. IsReported (n + length txs) u)
          (execute_transactions (op_block_executor o) txs s)
  unfolding execute_transactions execute_transaction
  execute_transactions-IsReported [] n s h = rw (nothing n) h
    where
      nothing : (k : ℕ) → k + 0 ≡ k
      nothing k = omega arith
  execute_transactions-IsReported (tx ∷ txs) n s h =
      OnOk-bind (λ _ u. IsReported (n + 1) u) _ (execute_transaction (op_block_executor o) tx s)
        (λ _. execute_transactions (op_block_executor o) txs)
        (OnOk-bind (λ _ u. IsReported (n + 1) u) _ (op_execute_transaction o tx (λ _. commit_yes) s)
          (λ gas. pure (gas_or_zero gas)) (execute_transaction-IsReported tx s h) (λ gas u k. k))
        (λ _ u k.
          subst
            (λ m. OnOk (λ _ v. IsReported m v) (execute_transactions (op_block_executor o) txs u))
            (one_more n (length txs)) (execute_transactions-IsReported txs (n + 1) u k))
    where
      one_more : (k m : ℕ) → (k + 1) + m ≡ k + suc m
      one_more k m = omega arith
