-- ===== src/OpExecutor/Refinement.antt =====
-- Without deposits, the Optimism executor runs transactions as the Ethereum executor does.
use mathlib.Core.Path.{subst}
use seismic_evm.Prelude.{
  ltb, Bool-cases, All, add_u64, Result, ok, err, Result-cases, Exec, pure, resume, ◌≡◌, refl, sym,
  ap, ◌∙◌, inl, inr, Bool, true, false, not, ◌&&◌, ◌||◌, none, some, List, [], ◌∷◌, arith,
}
use seismic_evm.Types.{Types, gas_used_of, ResultAndState}
use seismic_evm.Errors.{BlockExecutionError}
use seismic_evm.Platform.{ExecutableTx}
use seismic_evm.Executor.{
  commit_yes, CommitChanges-cases, CommitCondition, gas_or_zero, execute_transaction,
  execute_transactions,
}
use seismic_evm.EthExecutor.{
  ReceiptBuilderCtx, ReceiptBuilder, EthBlockExecutor, block_available_gas, keep_transaction,
  run_transaction, eth_execute_transaction, eth_block_executor,
}
use seismic_evm.Canyon.{OpPlatform}
use seismic_evm.OpExecutor.{
  OpReceiptBuilder, OpBlockExecutor, is_deposit, op_receipt, op_block_available_gas, load_depositor,
  op_keep_transaction, op_run_transaction, op_execute_transaction, op_block_executor,
}
use seismic_evm.OpExecutor.Outcome.{fixed_part-op_execute_transaction}

module _ {t : Types} (o : OpPlatform t) (b : ReceiptBuilder t) where
  -- The Ethereum executor with the same state and another receipt builder.
  abbrev pub to_eth : OpBlockExecutor t → EthBlockExecutor t
  to_eth s = record {
    spec = s.spec.ethereum;
    ctx = record {
      parent_hash = s.ctx.parent_hash;
      parent_beacon_block_root = s.ctx.parent_beacon_block_root;
      ommers = [];
      withdrawals = none;
    };
    evm = s.evm;
    system_caller = s.system_caller;
    receipt_builder = b;
    receipts = s.receipts;
    gas_used = s.gas_used;
  }

  abbrev pub ended_eth :
      {A : Type 0}
      → Result (BlockExecutionError t) A × OpBlockExecutor t
      → Result (BlockExecutionError t) A × EthBlockExecutor t
  ended_eth (r, s) = (r, to_eth s)

  -- Transactions that are no deposits get the receipts of the other builder.
  abbrev pub BuildsAs : OpReceiptBuilder t → Type 0
  BuildsAs builder =
      (ctx : ReceiptBuilderCtx t)
      → is_deposit o ctx.tx ≡ false
      → builder.build_receipt ctx ≡ ok (b.build_receipt ctx)

  asked : (big regolith deposit : Bool) → deposit ≡ false → (big && (regolith || not deposit)) ≡ big
  asked big true deposit h = ground arith
  asked big false deposit h = ground (arith, h)

  not_loaded : (regolith deposit : Bool) → deposit ≡ false → (regolith && deposit) ≡ false
  not_loaded regolith deposit h = ground (arith, h)

  op_keep_transaction-eth :
      (tx : ExecutableTx t) (res : ResultAndState t.HaltReason) (s : OpBlockExecutor t)
      → is_deposit o tx.tx ≡ false
      → BuildsAs s.receipt_builder
      → to_eth (op_keep_transaction o tx none res s) ≡ keep_transaction o.base tx res (to_eth s)
  unfolding op_keep_transaction op_receipt keep_transaction
  op_keep_transaction-eth tx res s plain builds =
      rw
        (builds
          (record {
            tx = tx.tx;
            evm = s.evm;
            result = res.result;
            state = res.state;
            cumulative_gas_used = add_u64 s.gas_used (gas_used_of res.result);
          })
          plain)
        refl

  op_run_transaction-eth :
      (tx : ExecutableTx t) (f : CommitCondition t) (s : OpBlockExecutor t)
      → is_deposit o tx.tx ≡ false
      → BuildsAs s.receipt_builder
      → ended_eth (op_run_transaction o tx f none s) ≡ run_transaction o.base tx f (to_eth s)
  unfolding op_run_transaction run_transaction
  op_run_transaction-eth tx f s plain builds =
      let evm' = (o.base.transact tx.to_tx_env s.evm).1 in
      elim (Result-cases (o.base.transact tx.to_tx_env s.evm).0) [
        | inr (e, bad) ↦ rw (bad, op_run_transaction, run_transaction) refl
        | inl (res, good) ↦ elim (CommitChanges-cases (f res.result)) [
          | inr n ↦ rw (good, op_run_transaction, run_transaction) (rw n refl)
          | inl y ↦
              rw (good, op_run_transaction, run_transaction)
                (rw y (
                  ap (λ u. (ok (some (gas_used_of res.result)), u))
                    (op_keep_transaction-eth tx res (record s { evm = evm' }) plain builds)))
        ]
      ]

  pub op_execute_transaction-eth :
      (tx : ExecutableTx t) (f : CommitCondition t) (s : OpBlockExecutor t)
      → is_deposit o tx.tx ≡ false
      → BuildsAs s.receipt_builder
      → ended_eth (op_execute_transaction o tx f s) ≡ eth_execute_transaction o.base tx f (to_eth s)
  unfolding op_execute_transaction op_block_available_gas load_depositor eth_execute_transaction
      block_available_gas
  op_execute_transaction-eth tx f s plain builds =
      let guard =
        asked (ltb (op_block_available_gas o s) (o.base.tx_gas_limit tx.tx)) s.is_regolith _
          plain in
      let quiet = not_loaded s.is_regolith _ plain in
      elim (Bool-cases (ltb (op_block_available_gas o s) (o.base.tx_gas_limit tx.tx))) [
        | inl over ↦ rw (guard ∙ over) (rw over refl)
        | inr fits ↦
            rw (guard ∙ fits) (rw fits (rw quiet (op_run_transaction-eth tx f s plain builds)))
      ]

  -- What comes after a call, if the call ends in the same way.
  ended-resume :
      {A B : Type 0} (r : Result (BlockExecutionError t) A × OpBlockExecutor t)
      (r' : Result (BlockExecutionError t) A × EthBlockExecutor t)
      (f : A → Exec (OpBlockExecutor t) (BlockExecutionError t) B)
      (f' : A → Exec (EthBlockExecutor t) (BlockExecutionError t) B)
      → ended_eth r ≡ r'
      → ((a : A) → ended_eth (f a r.1) ≡ f' a (to_eth r.1))
      → ended_eth (resume r.0 f r.1) ≡ resume r'.0 f' r'.1
  ended-resume (ok a, u) r' f f' e h = h a ∙ ap (λ x. resume x.0 f' x.1) e
  ended-resume (err x, u) r' f f' e h = ap (λ x. resume x.0 f' x.1) e

  builder-resume :
      {A B : Type 0} (r : Result (BlockExecutionError t) A × OpBlockExecutor t) (f : A → B)
      → (resume r.0 (λ a. pure {Err = BlockExecutionError t} (f a)) r.1).1 ≡ r.1
  builder-resume (ok a, u) f = refl
  builder-resume (err e, u) f = refl

  builder-execute_transaction :
      (tx : ExecutableTx t) (s : OpBlockExecutor t)
      → (execute_transaction (op_block_executor o) tx s).1.receipt_builder ≡ s.receipt_builder
  unfolding execute_transaction
  builder-execute_transaction tx s =
      let r = op_execute_transaction o tx (λ _. commit_yes) s in
      ap (λ u. u.receipt_builder) (builder-resume r gas_or_zero)
      ∙ ap (λ x. x.1) (fixed_part-op_execute_transaction o tx (λ _. commit_yes) s)

  -- On transactions that are no deposits, the Optimism executor returns, fails and changes its
  -- state as the Ethereum executor with the same state does, if the receipt builder gives them the
  -- receipts of the Ethereum executor's builder.
  pub execute_transactions-op_to_eth :
      (txs : List (ExecutableTx t)) (s : OpBlockExecutor t)
      → All (λ tx. is_deposit o tx.tx ≡ false) txs
      → BuildsAs s.receipt_builder
      → ended_eth (execute_transactions (op_block_executor o) txs s)
        ≡ execute_transactions (eth_block_executor o.base) txs (to_eth s)
  unfolding execute_transactions execute_transaction
  execute_transactions-op_to_eth [] s plain builds = refl
  execute_transactions-op_to_eth (tx ∷ txs) s plain builds =
      let s' = (op_execute_transaction o tx (λ _. commit_yes) s).1 in
      let one =
        ended-resume (op_execute_transaction o tx (λ _. commit_yes) s) _
          (λ gas. pure (gas_or_zero gas)) (λ gas. pure (gas_or_zero gas))
          (op_execute_transaction-eth tx (λ _. commit_yes) s plain.0 builds) (λ gas. refl) in
      ended-resume (execute_transaction (op_block_executor o) tx s) _
        (λ _. execute_transactions (op_block_executor o) txs)
        (λ _. execute_transactions (eth_block_executor o.base) txs) one
        (λ _.
          execute_transactions-op_to_eth txs _ plain.1
            (subst BuildsAs (sym (builder-execute_transaction tx s)) builds))
