-- ===== src/OpExecutor/Outcome.antt =====
-- What executing one Optimism transaction does, on each way in which it can end.
use seismic_evm.Prelude.{
  ◌==◌, ltb→lt, ltb→le, Bool-cases, sub_u64, Result, ok, err, Result-cases, pair_of_fst, ℕ, ◌≤◌,
  ◌<◌, ◌≡◌, refl, ap, ◌∙◌, ◌⊎◌, inl, inr, Bool, true, false, not, ◌&&◌, ◌||◌, Option, none, some,
}
use seismic_evm.Types.{Types, AccountInfo, gas_used_of, ResultAndState}
use seismic_evm.Errors.{
  EvmError, transaction_gas_limit_more_than_available_block_gas, BlockExecutionError, validation,
  evm_error,
}
use seismic_evm.Platform.{ExecutableTx}
use seismic_evm.Executor.{commit_yes, commit_no, CommitChanges-cases, CommitCondition}
use seismic_evm.Canyon.{OpSpec, OpPlatform, info_or_default}
use seismic_evm.OpExecutor.{
  OpBlockExecutionCtx, OpReceiptBuilder, OpBlockExecutor, is_deposit, other_error,
  op_block_available_gas, op_over_limit, load_depositor, op_keep_transaction, op_run_transaction,
  op_execute_transaction,
}

module _ {t : Types} (o : OpPlatform t) where
  -- The gas that is left in the block.
  abbrev pub gas_left : OpBlockExecutor t → ℕ
  gas_left s = sub_u64 (o.base.block s.evm).gas_limit s.gas_used

  -- The transaction is a deposit, or it is none.
  abbrev pub OfDepositType : Bool → ExecutableTx t → Type 0
  OfDepositType b tx = (o.tx_ty tx.tx == o.deposit_transaction_type) ≡ b

  -- The error of a transaction that does not fit into the block.
  abbrev pub op_limit_error : ExecutableTx t → OpBlockExecutor t → BlockExecutionError t
  op_limit_error tx s =
      validation (
        transaction_gas_limit_more_than_available_block_gas (o.base.tx_gas_limit tx.tx)
          (gas_left s))

  -- The gas limit fits, or it is not asked about: of a deposit before Regolith.
  abbrev pub MayRun : ExecutableTx t → OpBlockExecutor t → Type 0
  MayRun tx s =
      (o.base.tx_gas_limit tx.tx ≤ gas_left s) ⊎ ((s.is_regolith ≡ false) × OfDepositType true tx)

  -- How the EVM's run ends, after the depositor was loaded.
  pub data Run (tx : ExecutableTx t) (f : CommitCondition t) (depositor : Option AccountInfo)
      (s : OpBlockExecutor t) (r : Result (BlockExecutionError t) (Option ℕ) × OpBlockExecutor t)
      : Type 0 where
    failed :
        (e : EvmError t) (evm' : t.Evm)
        → o.base.transact tx.to_tx_env s.evm ≡ (err e, evm')
        → r ≡ (err (evm_error e (o.base.trie_hash tx.tx)), record s { evm = evm' })
        → Run tx f depositor s r
    dropped :
        (res : ResultAndState t.HaltReason) (evm' : t.Evm)
        → o.base.transact tx.to_tx_env s.evm ≡ (ok res, evm')
        → f res.result ≡ commit_no
        → r ≡ (ok none, record s { evm = evm' })
        → Run tx f depositor s r
    kept :
        (res : ResultAndState t.HaltReason) (evm' : t.Evm)
        → o.base.transact tx.to_tx_env s.evm ≡ (ok res, evm')
        → f res.result ≡ commit_yes
        → r ≡ (
          ok (some (gas_used_of res.result)),
          op_keep_transaction o tx depositor res (record s { evm = evm' }),
        )
        → Run tx f depositor s r

  -- The account that a deposit's nonce is taken from is in the database as it is before the run.
  pub data Loaded (tx : ExecutableTx t) (s : OpBlockExecutor t) (depositor : Option AccountInfo)
      (s' : OpBlockExecutor t) : Type 0 where
    without_depositor :
        (s.is_regolith ≡ false) ⊎ OfDepositType false tx
        → depositor ≡ none
        → s' ≡ s
        → Loaded tx s depositor s'
    with_depositor :
        s.is_regolith ≡ true
        → OfDepositType true tx
        → (found : Option AccountInfo) (db' : t.Db)
        → o.base.load_cache_account tx.signer (o.base.db s.evm) ≡ (ok found, db')
        → depositor ≡ some (elim found [ none ↦ o.default_info | some info ↦ info ])
        → s' ≡ record s { evm = o.base.set_db s.evm db' }
        → Loaded tx s depositor s'

  -- The outcome by cases: refused, stopped by the database, or run.
  pub data OpOutcome (tx : ExecutableTx t) (f : CommitCondition t) (s : OpBlockExecutor t)
      (r : Result (BlockExecutionError t) (Option ℕ) × OpBlockExecutor t) : Type 0 where
    refused :
        gas_left s < o.base.tx_gas_limit tx.tx
        → (s.is_regolith ≡ true) ⊎ OfDepositType false tx
        → r ≡ (err (op_limit_error tx s), s)
        → OpOutcome tx f s r
    unloaded :
        MayRun tx s
        → s.is_regolith ≡ true
        → OfDepositType true tx
        → (e : t.DbError) (db' : t.Db)
        → o.base.load_cache_account tx.signer (o.base.db s.evm) ≡ (err e, db')
        → r ≡ (err (other_error o e), record s { evm = o.base.set_db s.evm db' })
        → OpOutcome tx f s r
    ran :
        MayRun tx s
        → (depositor : Option AccountInfo) (s' : OpBlockExecutor t) → Loaded tx s depositor s'
        → Run tx f depositor s' r
        → OpOutcome tx f s r

  both : (a b : Bool) → (a && b) ≡ true → (a ≡ true) × (b ≡ true)
  both true b h = (refl, h)
  both false b h = absurd (cc h)

  either : (a b : Bool) → (a || not b) ≡ true → (a ≡ true) ⊎ (b ≡ false)
  either true b h = inl refl
  either false true h = absurd (cc h)
  either false false h = inr refl

  neither : (a b : Bool) → (a || not b) ≡ false → (a ≡ false) × (b ≡ true)
  neither true b h = absurd (cc h)
  neither false true h = (refl, refl)
  neither false false h = absurd (cc h)

  not_both : (a b : Bool) → (a && b) ≡ false → (a ≡ false) ⊎ (b ≡ false)
  not_both false b h = inl refl
  not_both true b h = inr h

  info_or_default_lem :
      (found : Option AccountInfo)
      → info_or_default o found ≡ (elim found [ none ↦ o.default_info | some info ↦ info ])
  info_or_default_lem none = refl
  info_or_default_lem (some info) = refl

  -- What it means that the guard lets a transaction pass.
  op_over_limit-MayRun :
      (tx : ExecutableTx t) (s : OpBlockExecutor t) → op_over_limit o tx s ≡ false → MayRun tx s
  unfolding op_block_available_gas
  op_over_limit-MayRun tx s fits = elim (not_both _ _ fits) [
    | inl small ↦ inl (ltb→le _ _ small)
    | inr exempt ↦ inr (neither _ _ exempt)
  ]

  op_run_transaction-Run :
      (tx : ExecutableTx t) (f : CommitCondition t) (depositor : Option AccountInfo)
      (s : OpBlockExecutor t)
      → Run tx f depositor s (op_run_transaction o tx f depositor s)
  unfolding op_run_transaction
  op_run_transaction-Run tx f depositor s =
      elim (Result-cases (o.base.transact tx.to_tx_env s.evm).0) [
        | inr (e, bad) ↦
            failed e (o.base.transact tx.to_tx_env s.evm).1 (pair_of_fst _ bad)
              (rw (bad, op_run_transaction) refl)
        | inl (res, good) ↦ elim (CommitChanges-cases (f res.result)) [
          | inl y ↦
              kept res (o.base.transact tx.to_tx_env s.evm).1 (pair_of_fst _ good) y
                (rw (good, op_run_transaction) (rw y refl))
          | inr n ↦
              dropped res (o.base.transact tx.to_tx_env s.evm).1 (pair_of_fst _ good) n
                (rw (good, op_run_transaction) (rw n refl))
        ]
      ]

  -- Executing an Optimism transaction ends in one of these ways. It is refused with an error and
  -- nothing changes only if its gas limit is above the gas that is left, and Regolith is active or
  -- it is no deposit. It runs only if its gas limit is within the gas that is left, or it is a
  -- deposit before Regolith; and if it is a deposit and Regolith is active, the signer's account is
  -- loaded before, or the default if there is none; a failure of that is returned. If the EVM then
  -- fails, the error carries the transaction's hash; if the condition drops the result, nothing is
  -- returned; in both cases only the EVM has changed; and if the condition keeps the result, the
  -- gas is returned and the transaction is kept, with the account as it was before the run.
  pub op_execute_transaction-OpOutcome :
      (tx : ExecutableTx t) (f : CommitCondition t) (s : OpBlockExecutor t)
      → OpOutcome tx f s (op_execute_transaction o tx f s)
  unfolding op_execute_transaction load_depositor op_block_available_gas
  op_execute_transaction-OpOutcome tx f s = elim (Bool-cases (op_over_limit o tx s)) [
    | inl over ↦
        let (big, asked) = both _ _ over in
        refused (ltb→lt _ _ big) (either _ _ asked) (rw over refl)
    | inr fits ↦ elim (Bool-cases (s.is_regolith && is_deposit o tx.tx)) [
      | inr plain ↦
          ran (op_over_limit-MayRun tx s fits) none s
            (without_depositor (not_both _ _ plain) refl refl)
            (rw fits (rw plain (op_run_transaction-Run tx f none s)))
      | inl deposit ↦
          let (regolith, is) = both _ _ deposit in
          let found = o.base.load_cache_account tx.signer (o.base.db s.evm) in
          elim (Result-cases found.0) [
            | inr (e, bad) ↦
                unloaded (op_over_limit-MayRun tx s fits) regolith is e found.1 (pair_of_fst _ bad)
                  (rw fits (rw deposit (rw bad refl)))
            | inl (account, good) ↦
                ran (op_over_limit-MayRun tx s fits) (some (info_or_default o account))
                  (record s { evm = o.base.set_db s.evm found.1 })
                  (with_depositor regolith is account found.1 (pair_of_fst _ good)
                    (ap some (info_or_default_lem account)) refl)
                  (rw fits (rw deposit (rw good (op_run_transaction-Run tx f _ _))))
          ]
    ]
  ]

  -- What no transaction changes.
  abbrev pub fixed_part :
      OpBlockExecutor t → OpSpec × OpReceiptBuilder t × OpBlockExecutionCtx × Bool
  fixed_part s = (s.spec, s.receipt_builder, s.ctx, s.is_regolith)

  fixed_part-Loaded :
      {tx : ExecutableTx t} {s s' : OpBlockExecutor t} {depositor : Option AccountInfo}
      → Loaded tx s depositor s'
      → fixed_part s' ≡ fixed_part s
  fixed_part-Loaded (without_depositor quiet nothing same) = rw same refl
  fixed_part-Loaded (with_depositor regolith deposit found db' loaded account same) = rw same refl

  fixed_part-Run :
      {tx : ExecutableTx t} {f : CommitCondition t} {depositor : Option AccountInfo}
      {s : OpBlockExecutor t} {r : Result (BlockExecutionError t) (Option ℕ) × OpBlockExecutor t}
      → Run tx f depositor s r
      → fixed_part r.1 ≡ fixed_part s
  unfolding op_keep_transaction
  fixed_part-Run (failed e evm' bad same) = rw same refl
  fixed_part-Run (dropped res evm' good n same) = rw same refl
  fixed_part-Run (kept res evm' good y same) = rw same refl

  pub fixed_part-op_execute_transaction :
      (tx : ExecutableTx t) (f : CommitCondition t) (s : OpBlockExecutor t)
      → fixed_part (op_execute_transaction o tx f s).1 ≡ fixed_part s
  fixed_part-op_execute_transaction tx f s = elim (op_execute_transaction-OpOutcome tx f s) [
    | refused big asked same ↦ rw same refl
    | unloaded fits regolith deposit e db' loaded same ↦ rw same refl
    | ran fits depositor s' loaded run ↦ fixed_part-Run run ∙ fixed_part-Loaded loaded
  ]
