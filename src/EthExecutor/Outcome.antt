-- ===== src/EthExecutor/Outcome.antt =====
-- What executing one transaction does, on each way in which it can end.
use seismic_evm.Prelude.{
  ltb, ltb→lt, ltb→le, Bool-cases, Result, ok, err, Result-cases, pair_of_fst, ℕ, ◌≤◌, ◌<◌, ◌≡◌,
  inl, inr, Option, none, some,
}
use seismic_evm.Types.{Types, gas_used_of, ResultAndState}
use seismic_evm.Errors.{
  EvmError, transaction_gas_limit_more_than_available_block_gas, BlockExecutionError, validation,
  evm_error,
}
use seismic_evm.Platform.{Platform, ExecutableTx}
use seismic_evm.Executor.{commit_yes, commit_no, CommitChanges-cases, CommitCondition}
use seismic_evm.EthExecutor.{
  EthBlockExecutor, block_available_gas, keep_transaction, run_transaction, eth_execute_transaction,
}

module _ {t : Types} (p : Platform t) where
  -- The error of a transaction that does not fit into the block.
  abbrev pub over_limit : ExecutableTx t → EthBlockExecutor t → BlockExecutionError t
  over_limit tx s = validation (
      transaction_gas_limit_more_than_available_block_gas (p.tx_gas_limit tx.tx)
        (block_available_gas p s))

  -- The outcome by cases: refused, failed in the EVM, run and dropped, or run and kept.
  pub data Outcome (tx : ExecutableTx t) (f : CommitCondition t) (s : EthBlockExecutor t)
      (r : Result (BlockExecutionError t) (Option ℕ) × EthBlockExecutor t) : Type 0 where
    refused :
        block_available_gas p s < p.tx_gas_limit tx.tx
        → r ≡ (err (over_limit tx s), s)
        → Outcome tx f s r
    failed :
        p.tx_gas_limit tx.tx ≤ block_available_gas p s
        → (e : EvmError t) (evm' : t.Evm) → p.transact tx.to_tx_env s.evm ≡ (err e, evm')
        → r ≡ (err (evm_error e (p.trie_hash tx.tx)), record s { evm = evm' })
        → Outcome tx f s r
    dropped :
        p.tx_gas_limit tx.tx ≤ block_available_gas p s
        → (res : ResultAndState t.HaltReason) (evm' : t.Evm)
        → p.transact tx.to_tx_env s.evm ≡ (ok res, evm')
        → f res.result ≡ commit_no
        → r ≡ (ok none, record s { evm = evm' })
        → Outcome tx f s r
    kept :
        p.tx_gas_limit tx.tx ≤ block_available_gas p s
        → (res : ResultAndState t.HaltReason) (evm' : t.Evm)
        → p.transact tx.to_tx_env s.evm ≡ (ok res, evm')
        → f res.result ≡ commit_yes
        → r ≡ (
          ok (some (gas_used_of res.result)),
          keep_transaction p tx res (record s { evm = evm' }),
        )
        → Outcome tx f s r

  -- Executing a transaction ends in one of four ways. It is refused with an error and nothing
  -- changes, if its gas limit is above the gas that is left. Otherwise it runs: if the EVM fails,
  -- the error carries the transaction's hash and only the EVM has changed; if the condition drops
  -- the result, nothing is returned and only the EVM has changed; and if it keeps the result, the
  -- gas is returned and the transaction is kept.
  pub eth_execute_transaction-Outcome :
      (tx : ExecutableTx t) (f : CommitCondition t) (s : EthBlockExecutor t)
      → Outcome tx f s (eth_execute_transaction p tx f s)
  unfolding eth_execute_transaction
  eth_execute_transaction-Outcome tx f s =
      elim (Bool-cases (ltb (block_available_gas p s) (p.tx_gas_limit tx.tx))) [
        | inl over ↦ refused (ltb→lt _ _ over) (rw over)
        | inr fits ↦ elim (Result-cases (p.transact tx.to_tx_env s.evm).0) [
          | inr (e, bad) ↦
              failed (ltb→le _ _ fits) e (p.transact tx.to_tx_env s.evm).1 (pair_of_fst _ bad)
                (rw fits (rw (bad, run_transaction)))
          | inl (res, good) ↦ elim (CommitChanges-cases (f res.result)) [
            | inl y ↦
                kept (ltb→le _ _ fits) res (p.transact tx.to_tx_env s.evm).1 (pair_of_fst _ good) y
                  (rw fits (rw (good, run_transaction) (rw y)))
            | inr n ↦
                dropped (ltb→le _ _ fits) res (p.transact tx.to_tx_env s.evm).1 (pair_of_fst _ good)
                  n (rw fits (rw (good, run_transaction) (rw n)))
          ]
        ]
      ]
