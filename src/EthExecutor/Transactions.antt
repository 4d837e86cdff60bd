-- ===== src/EthExecutor/Transactions.antt =====
-- The transactions of a block one after the other, and the whole block.
use seismic_evm.Prelude.{
  length, length-append, All, Result, ok, err, Exec, resume, ℕ, ◌+◌, ◌≡◌, refl, ◌∙◌, List, [], ◌∷◌,
  arith,
}
use seismic_evm.Types.{Types}
use seismic_evm.Errors.{BlockExecutionError}
use seismic_evm.Platform.{Platform, ExecutableTx}
use seismic_evm.Prelude.Keeps.{Keeps, Keeps-pure, Keeps-bind, OnOk}
use seismic_evm.Platform.Laws.{EvmLaws, RespectsGasLimit, block_of_transact}
use seismic_evm.Executor.{commit_yes, CommitCondition, default_result_closure, execute_transactions}
use seismic_evm.EthExecutor.{
  EthBlockExecutor, keep_transaction, eth_execute_transaction, eth_block_executor,
}
use seismic_evm.EthExecutor.Outcome.{
  refused, failed, dropped, kept, eth_execute_transaction-Outcome,
}
use seismic_evm.EthExecutor.Gas.{eth_execute_transaction-IsConsistent}
use seismic_evm.EthExecutor.Block.{IsReady}

module _ {t : Types} (p : Platform t) (laws : EvmLaws p) where
  -- What actions on the executor have done: it is ready for more, and if they succeeded then the
  -- given number of receipts has been added.
  abbrev pub Ran :
      {A : Type 0}
      → ℕ
      → EthBlockExecutor t
      → Result (BlockExecutionError t) A × EthBlockExecutor t
      → Type 0
  Ran n s r = IsReady p laws r.1 × OnOk (λ _ s'. length s'.receipts ≡ length s.receipts + n) r

  OnOk-map :
      {A : Type 0} {m : ℕ} (k n : ℕ) (s s' : EthBlockExecutor t)
      (r : Result (BlockExecutionError t) A × EthBlockExecutor t)
      → m ≡ k + n
      → length s'.receipts ≡ length s.receipts + k
      → OnOk (λ _ u. length u.receipts ≡ length s'.receipts + n) r
      → OnOk (λ _ u. length u.receipts ≡ length s.receipts + m) r
  OnOk-map k n s s' (ok a, u) total e h = omega arith
  OnOk-map k n s s' (err x, u) total e h = tt

  Ran-resume :
      {A B : Type 0} {m : ℕ} (k n : ℕ) (s : EthBlockExecutor t)
      (r : Result (BlockExecutionError t) A) (s' : EthBlockExecutor t)
      (f : A → Exec (EthBlockExecutor t) (BlockExecutionError t) B)
      → m ≡ k + n
      → Ran k s (r, s')
      → ((a : A) (u : EthBlockExecutor t) → IsReady p laws u → Ran n u (f a u))
      → Ran m s (resume r f s')
  Ran-resume k n s (ok a) s' f total h hf =
      let (ready, added) = hf a s' h.0 in (ready, OnOk-map k n s s' (f a s') total h.1 added)
  Ran-resume k n s (err x) s' f total h hf = (h.0, tt)

  keep_transaction-IsReady :
      (s : EthBlockExecutor t) (tx : ExecutableTx t) (f : CommitCondition t)
      → RespectsGasLimit p tx
      → IsReady p laws s
      → IsReady p laws (eth_execute_transaction p tx f s).1
  keep_transaction-IsReady s tx f respects h = record {
    consistent = eth_execute_transaction-IsConsistent p laws tx f s h.reports respects h.consistent;
    reports = elim (eth_execute_transaction-Outcome p tx f s) [
      | refused over e ↦ rw e h.reports
      | failed fits x evm' ran e ↦ rw e h.reports
      | dropped fits x evm' ran keep e ↦ rw e h.reports
      | kept fits x evm' ran keep e ↦ rw e (unfold keep_transaction in h.reports)
    ];
  }

  receipt_added :
      (s : EthBlockExecutor t) (tx : ExecutableTx t)
      → OnOk
          (λ _ u. length u.receipts ≡ length s.receipts + 1)
          (eth_execute_transaction p tx (λ _. commit_yes) s)
  receipt_added s tx = elim (eth_execute_transaction-Outcome p tx (λ _. commit_yes) s) [
    | refused over e ↦ rw e tt
    | failed fits x evm' ran e ↦ rw e tt
    | dropped fits x evm' ran keep e ↦ absurd (cc keep)
    | kept fits x evm' ran keep e ↦
        rw e (unfold keep_transaction in length-append s.receipts (_ ∷ []))
  ]

  execute_transaction-Ran :
      (tx : ExecutableTx t) (s : EthBlockExecutor t)
      → RespectsGasLimit p tx
      → IsReady p laws s
      → Ran 1 s (default_result_closure (eth_execute_transaction p) tx s)
  execute_transaction-Ran tx s respects h =
      Ran-resume 1 0 s (eth_execute_transaction p tx (λ _. commit_yes) s).0 _ _ (omega arith)
        (keep_transaction-IsReady s tx (λ _. commit_yes) respects h, receipt_added s tx)
        (λ gas u ready. (ready, omega arith))

  pub execute_transactions-Ran :
      (txs : List (ExecutableTx t)) (s : EthBlockExecutor t)
      → All (RespectsGasLimit p) txs
      → IsReady p laws s
      → Ran (length txs) s (execute_transactions (eth_block_executor p) txs s)
  unfolding execute_transactions
  execute_transactions-Ran [] s respects h = (h, omega arith)
  execute_transactions-Ran (tx ∷ txs) s respects h =
      Ran-resume 1 (length txs) s (default_result_closure (eth_execute_transaction p) tx s).0 _ _
        (omega arith) (execute_transaction-Ran tx s respects.0 h)
        (λ gas u ready. execute_transactions-Ran txs u respects.1 ready)

  Keeps-execute_transaction :
      (tx : ExecutableTx t) (f : CommitCondition t)
      → Keeps (λ s. p.block s.evm) (eth_execute_transaction p tx f)
  Keeps-execute_transaction tx f = record {
    same = λ s. elim (eth_execute_transaction-Outcome p tx f s) [
      | refused over e ↦ rw e refl
      | failed fits x evm' ran e ↦ rw e (block_of_transact laws ran)
      | dropped fits x evm' ran keep e ↦ rw e (block_of_transact laws ran)
      | kept fits x evm' ran keep e ↦
          rw e (unfold keep_transaction in laws.block-set_db _ _ ∙ block_of_transact laws ran)
    ];
  }

  pub Keeps-execute_transactions :
      (txs : List (ExecutableTx t))
      → Keeps (λ s. p.block s.evm) (execute_transactions (eth_block_executor p) txs)
  unfolding execute_transactions
  Keeps-execute_transactions [] = Keeps-pure tt
  Keeps-execute_transactions (tx ∷ txs) =
      Keeps-bind (default_result_closure (eth_execute_transaction p) tx) _
        (Keeps-bind (eth_execute_transaction p tx (λ _. commit_yes)) _
          (Keeps-execute_transaction tx (λ _. commit_yes)) (λ gas. Keeps-pure _))
        (λ gas. Keeps-execute_transactions txs)
