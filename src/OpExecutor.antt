-- ===== src/OpExecutor.antt =====
-- crates/op-evm/src/block/mod.rs: the methods of `OpBlockExecutor`.
mod State
mod BuiltReceipt
pub mod Outcome
pub mod Refinement
pub mod Gas
pub mod Block
mod Tests
unfoldable pub use State.*
unfoldable pub use BuiltReceipt.*
use seismic_evm.Prelude.{
  ltb, if◌then◌else◌, length, add_u64, sub_u64, saturating_u64, ok, err, map_err, Exec, pure, ◌>>=◌,
  ◌>>◌, ℕ, ◌*◌, Bool, not, ◌&&◌, ◌||◌, Option, none, some, List, [], ◌∷◌, ◌++◌,
}
use seismic_evm.Prelude.Dict.{Dict}
use seismic_evm.Types.{Types, AccountInfo, gas_used_of, ResultAndState}
use seismic_evm.Errors.{
  increment_balance_failed, transaction_gas_limit_more_than_available_block_gas, database, other,
  BlockExecutionError, validation, internal, evm_error,
}
use seismic_evm.Platform.{on_db, ExecutableTx}
use seismic_evm.StateHook.{
  balance_increments, transaction_source, post_block, StateHook, on_state, notify,
}
use seismic_evm.Executor.{
  should_commit, BlockExecutionResult, CommitCondition, BlockExecutor, default_result_closure,
}
use seismic_evm.Balances.{post_block_balance_increments, balance_increment_state}
use seismic_evm.SystemCalls.{
  with_state_hook, apply_blockhashes_contract_call, apply_beacon_root_contract_call,
}
use seismic_evm.Canyon.{OpPlatform, info_or_default, ensure_create2_deployer}

module _ {t : Types} (o : OpPlatform t) where
  -- A call of a function that borrows the database.
  abbrev pub op_on_database :
      {A : Type 0}
      → Exec t.Db (BlockExecutionError t) A
      → Exec (OpBlockExecutor t) (BlockExecutionError t) A
  op_on_database m s =
      let (r, db') = m (o.base.db s.evm) in (r, record s { evm = o.base.set_db s.evm db' })

  -- A fallible call of the database, with its error converted.
  abbrev pub op_calling_db :
      {A : Type 0}
      → (t.DbError → BlockExecutionError t)
      → Exec t.Db t.DbError A
      → Exec (OpBlockExecutor t) (BlockExecutionError t) A
  op_calling_db error m = op_on_database (λ db. let (r, db') = m db in (map_err error r, db'))

  -- `BlockExecutionError::other` of a database error.
  abbrev pub other_error : t.DbError → BlockExecutionError t
  other_error e = internal (other (database e))

  abbrev pub op_with_state_clear_flag : OpBlockExecutor t → OpBlockExecutor t
  op_with_state_clear_flag s =
      let state_clear_flag =
        s.spec.ethereum.is_spurious_dragon_active_at_block
          (saturating_u64 (o.base.block s.evm).number) in
      record s { evm = on_db o.base (o.base.set_state_clear_flag state_clear_flag) s.evm }

  -- The forced deployment at the block's timestamp.
  abbrev pub deploy_at_canyon : Exec (OpBlockExecutor t) (BlockExecutionError t) Unit
  deploy_at_canyon s =
      op_calling_db other_error (ensure_create2_deployer o s.spec (block_timestamp o s.evm)) s

  -- What comes before the transactions, after the state clear flag.
  abbrev pub op_pre_block_calls :
      OpBlockExecutionCtx → Exec (OpBlockExecutor t) (BlockExecutionError t) Unit
  op_pre_block_calls ctx =
      op_calling (apply_blockhashes_contract_call o.base ctx.parent_hash)
      >> (op_calling (apply_beacon_root_contract_call o.base ctx.parent_beacon_block_root)
          >> deploy_at_canyon)

  -- `apply_pre_execution_changes`
  unfoldable pub op_pre_execution_changes : Exec (OpBlockExecutor t) (BlockExecutionError t) Unit
  op_pre_execution_changes s = op_pre_block_calls s.ctx (op_with_state_clear_flag s)

  unfoldable pub op_block_available_gas : OpBlockExecutor t → ℕ
  op_block_available_gas s = sub_u64 (o.base.block s.evm).gas_limit s.gas_used

  -- The guard on the gas limit, from which deposits are exempt before Regolith.
  abbrev pub op_over_limit : ExecutableTx t → OpBlockExecutor t → Bool
  op_over_limit tx s =
      ltb (op_block_available_gas s) (o.base.tx_gas_limit tx.tx)
      && (s.is_regolith || not (is_deposit o tx.tx))

  -- The depositor's account before the transaction, of a deposit after Regolith.
  unfoldable pub load_depositor :
      ExecutableTx t → Exec (OpBlockExecutor t) (BlockExecutionError t) (Option AccountInfo)
  load_depositor tx s =
      (if s.is_regolith && is_deposit o tx.tx
          then (do
            found ← op_calling_db other_error (o.base.load_cache_account tx.signer)
            pure (some (info_or_default o found)))
          else pure none)
        s

  -- The hook, the gas counter, the receipt and the commit of a transaction that is kept.
  unfoldable pub op_keep_transaction :
      ExecutableTx t
      → Option AccountInfo
      → ResultAndState t.HaltReason
      → OpBlockExecutor t
      → OpBlockExecutor t
  unfolding op_receipt
  op_keep_transaction tx depositor outcome s = record s {
    system_caller = record s.system_caller {
      hook = notify (transaction_source (length s.receipts)) outcome.state s.system_caller.hook;
    };
    gas_used = add_u64 s.gas_used (gas_used_of outcome.result);
    receipts = s.receipts ++ op_receipt o tx depositor outcome s ∷ [];
    evm = on_db o.base (o.base.commit outcome.state) s.evm;
  }

  -- The execution, behind the guard and after the depositor was loaded.
  unfoldable pub op_run_transaction :
      ExecutableTx t
      → CommitCondition t
      → Option AccountInfo
      → Exec (OpBlockExecutor t) (BlockExecutionError t) (Option ℕ)
  unfolding op_keep_transaction
  op_run_transaction tx f depositor s =
      let (r, evm') = o.base.transact tx.to_tx_env s.evm in
      let s' = record s { evm = evm' } in
      elim r [
        | err e ↦ (err (evm_error e (o.base.trie_hash tx.tx)), s')
        | ok outcome ↦
            if should_commit (f outcome.result)
            then (
              ok (some (gas_used_of outcome.result)),
              op_keep_transaction tx depositor outcome s',
            )
            else (ok none, s')
      ]

  -- `execute_transaction_with_commit_condition`
  unfoldable pub op_execute_transaction :
      ExecutableTx t
      → CommitCondition t
      → Exec (OpBlockExecutor t) (BlockExecutionError t) (Option ℕ)
  unfolding op_block_available_gas load_depositor op_run_transaction
  op_execute_transaction tx f s =
      if op_over_limit tx s
      then (
        err (
            validation (
              transaction_gas_limit_more_than_available_block_gas (o.base.tx_gas_limit tx.tx)
                (op_block_available_gas s))),
        s,
      )
      else (do depositor ← load_depositor tx; op_run_transaction tx f depositor) s

  -- The hook is told of the accounts with an increment, if there is a hook.
  abbrev pub op_notify_increments :
      Dict ℕ → Option StateHook → Exec (OpBlockExecutor t) (BlockExecutionError t) Unit
  op_notify_increments increments none = pure tt
  op_notify_increments increments (some hook) = do
    state ← op_on_database (balance_increment_state o.base increments)
    λ s. (
      ok tt,
      record s {
        system_caller = record s.system_caller {
          hook = some (on_state (post_block balance_increments) state hook);
        };
      },
    )

  -- The gas of the last receipt.
  abbrev pub last_gas_used : List t.Receipt → ℕ
  last_gas_used [] = 0
  last_gas_used (r ∷ []) = o.base.receipt_cumulative_gas_used r
  last_gas_used (r ∷ x ∷ rs) = last_gas_used (x ∷ rs)

  -- A block's result, with no requests.
  abbrev pub op_block_result :
      Exec (OpBlockExecutor t) (BlockExecutionError t) (BlockExecutionResult t)
  op_block_result s =
      (ok (record { receipts = s.receipts; requests = []; gas_used = last_gas_used s.receipts }), s)

  -- The increments are those of a block without ommers and withdrawals.
  abbrev pub op_increments : OpBlockExecutor t → Dict ℕ
  op_increments s =
      post_block_balance_increments o.base.constants s.spec.ethereum (o.base.block s.evm) [] none

  -- `finish`
  unfoldable pub op_finish :
      Exec (OpBlockExecutor t) (BlockExecutionError t) (BlockExecutionResult t)
  op_finish s =
      (do
        op_calling_db (λ _. validation increment_balance_failed)
            (o.base.increment_balances (op_increments s))
        op_notify_increments (op_increments s) s.system_caller.hook
        op_block_result)
        s

  -- `impl BlockExecutor for OpBlockExecutor`
  abbrev pub op_block_executor : BlockExecutor t (OpBlockExecutor t)
  op_block_executor = record {
    apply_pre_execution_changes = op_pre_execution_changes;
    execute_transaction_with_commit_condition = op_execute_transaction;
    execute_transaction_with_result_closure = default_result_closure op_execute_transaction;
    finish = op_finish;
    set_state_hook = λ hook s. record s { system_caller = with_state_hook hook s.system_caller };
  }
