-- ===== src/EthExecutor.antt =====
-- crates/evm/src/eth/block.rs: the methods of `EthBlockExecutor`.
use seismic_evm.Prelude.{
  ltb, if◌then◌else◌, length, add_u64, sub_u64, saturating_u64, ok, err, map_err, Exec, pure, lift,
  ◌>>=◌, ◌>>◌, ℕ, ◌*◌, Option, none, some, [], ◌∷◌, ◌++◌,
}
use seismic_evm.Prelude.Dict.{Dict}
use seismic_evm.Types.{Bytes, Types, EvmState, gas_used_of, ResultAndState}
use seismic_evm.Errors.{
  increment_balance_failed, transaction_gas_limit_more_than_available_block_gas,
  BlockExecutionError, validation, evm_error,
}
use seismic_evm.Platform.{Platform, on_db, ExecutableTx}
use seismic_evm.StateHook.{
  balance_increments, transaction_source, post_block, StateHook, on_state, notify,
}
use seismic_evm.SystemCalls.{
  Requests, push_request_with_type, is_empty, with_state_hook, apply_blockhashes_contract_call,
  apply_beacon_root_contract_call, caller_post_execution_changes,
}
use seismic_evm.Deposits.{parse_deposits_from_receipts}
use seismic_evm.Balances.{add_increment, post_block_balance_increments, balance_increment_state}
use seismic_evm.DaoFork.{dao_hardfork_beneficiary, dao_hardfork_accounts}
use seismic_evm.Executor.{
  should_commit, BlockExecutionResult, CommitCondition, BlockExecutor, default_result_closure,
}
mod State
pub mod Outcome
pub mod Gas
pub mod Block
pub mod Transactions
pub mod Accounting
pub mod Hook
pub mod Opening
pub mod Closing
pub mod Ordering
pub mod Prague
mod Tests
unfoldable pub use State.*

module _ {t : Types} (p : Platform t) where
  -- A call of a function that borrows the database.
  abbrev pub on_database :
      {A : Type 0}
      → Exec t.Db (BlockExecutionError t) A
      → Exec (EthBlockExecutor t) (BlockExecutionError t) A
  on_database m s = let (r, db') = m (p.db s.evm) in (r, record s { evm = p.set_db s.evm db' })

  -- A fallible call of the database, with its error replaced.
  abbrev pub calling_db :
      {A : Type 0}
      → BlockExecutionError t
      → Exec t.Db t.DbError A
      → Exec (EthBlockExecutor t) (BlockExecutionError t) A
  calling_db error m = on_database (λ db. let (r, db') = m db in (map_err (λ _. error) r, db'))

  -- The state clear flag, set if the block is after the Spurious Dragon hardfork.
  abbrev pub with_state_clear_flag : EthBlockExecutor t → EthBlockExecutor t
  with_state_clear_flag s =
      let state_clear_flag =
        s.spec.is_spurious_dragon_active_at_block (saturating_u64 (p.block s.evm).number) in
      record s { evm = on_db p (p.set_state_clear_flag state_clear_flag) s.evm }

  -- The two system calls before the transactions.
  abbrev pub pre_block_calls :
      EthBlockExecutionCtx → Exec (EthBlockExecutor t) (BlockExecutionError t) Unit
  pre_block_calls ctx =
      calling (apply_blockhashes_contract_call p ctx.parent_hash)
      >> calling (apply_beacon_root_contract_call p ctx.parent_beacon_block_root)

  -- `apply_pre_execution_changes`
  unfoldable pub eth_pre_execution_changes : Exec (EthBlockExecutor t) (BlockExecutionError t) Unit
  eth_pre_execution_changes s = pre_block_calls s.ctx (with_state_clear_flag s)

  -- What is left of the block's gas limit.
  unfoldable pub block_available_gas : EthBlockExecutor t → ℕ
  block_available_gas s = sub_u64 (p.block s.evm).gas_limit s.gas_used

  -- The hook, the gas counter, the receipt and the commit of a transaction that is kept.
  unfoldable pub keep_transaction :
      ExecutableTx t → ResultAndState t.HaltReason → EthBlockExecutor t → EthBlockExecutor t
  keep_transaction tx outcome s =
      let gas_used = add_u64 s.gas_used (gas_used_of outcome.result) in
      let receipt = s.receipt_builder.build_receipt (record {
        tx = tx.tx;
        evm = s.evm;
        result = outcome.result;
        state = outcome.state;
        cumulative_gas_used = gas_used;
      }) in
      record s {
        system_caller = record s.system_caller {
          hook = notify (transaction_source (length s.receipts)) outcome.state s.system_caller.hook;
        };
        gas_used = gas_used;
        receipts = s.receipts ++ receipt ∷ [];
        evm = on_db p (p.commit outcome.state) s.evm;
      }

  -- The execution itself, behind the check of the gas limit.
  unfoldable pub run_transaction :
      ExecutableTx t
      → CommitCondition t
      → Exec (EthBlockExecutor t) (BlockExecutionError t) (Option ℕ)
  unfolding keep_transaction
  run_transaction tx f s =
      let (r, evm') = p.transact tx.to_tx_env s.evm in
      let s' = record s { evm = evm' } in
      elim r [
        | err e ↦ (err (evm_error e (p.trie_hash tx.tx)), s')
        | ok outcome ↦
            if should_commit (f outcome.result)
            then (ok (some (gas_used_of outcome.result)), keep_transaction tx outcome s')
            else (ok none, s')
      ]

  -- `execute_transaction_with_commit_condition`
  unfoldable pub eth_execute_transaction :
      ExecutableTx t
      → CommitCondition t
      → Exec (EthBlockExecutor t) (BlockExecutionError t) (Option ℕ)
  unfolding block_available_gas run_transaction
  eth_execute_transaction tx f s =
      if ltb (block_available_gas s) (p.tx_gas_limit tx.tx)
      then (
        err (
            validation (
              transaction_gas_limit_more_than_available_block_gas (p.tx_gas_limit tx.tx)
                (block_available_gas s))),
        s,
      )
      else run_transaction tx f s

  -- No deposits make no request.
  abbrev pub deposit_entry : Bytes → Requests
  deposit_entry deposit_requests =
      if is_empty deposit_requests
      then []
      else push_request_with_type p.constants.deposit_request_type deposit_requests []

  -- The requests of a Prague block: its deposits, then those of the system contracts.
  abbrev pub prague_requests : Exec (EthBlockExecutor t) (BlockExecutionError t) Requests
  prague_requests s =
      (do
        deposit_requests ←
            lift (map_err validation (parse_deposits_from_receipts p s.spec s.receipts))
        requests ← calling (caller_post_execution_changes p)
        pure (deposit_entry deposit_requests ++ requests))
        s

  collect_requests : Exec (EthBlockExecutor t) (BlockExecutionError t) Requests
  collect_requests s =
      (if s.spec.is_prague_active_at_timestamp (saturating_u64 (p.block s.evm).timestamp)
          then prague_requests
          else pure [])
        s

  -- The irregular state change of the DAO fork, on the increments.
  abbrev drained_into : Dict ℕ → Exec (EthBlockExecutor t) (BlockExecutionError t) (Dict ℕ)
  drained_into increments = do
    drained ←
        calling_db (validation increment_balance_failed) (p.drain_balances dao_hardfork_accounts)
    pure (add_increment dao_hardfork_beneficiary (sum_u128 drained) increments)

  drain_dao : Dict ℕ → Exec (EthBlockExecutor t) (BlockExecutionError t) (Dict ℕ)
  drain_dao increments s =
      (if s.spec.dao_transitions_at_block (saturating_u64 (p.block s.evm).number)
          then drained_into increments
          else pure increments)
        s

  -- The hook is told of the accounts with an increment.
  abbrev pub increments_told :
      StateHook → EvmState → Exec (EthBlockExecutor t) (BlockExecutionError t) Unit
  increments_told hook state s = (
    ok tt,
    record s {
      system_caller = record s.system_caller {
        hook = some (on_state (post_block balance_increments) state hook);
      };
    },
  )

  -- `try_on_state_with`: the closure runs only if there is a hook.
  abbrev pub notify_hook :
      Option StateHook → Dict ℕ → Exec (EthBlockExecutor t) (BlockExecutionError t) Unit
  notify_hook none increments = pure tt
  notify_hook (some hook) increments = do
    state ← on_database (balance_increment_state p increments)
    increments_told hook state

  notify_increments : Dict ℕ → Exec (EthBlockExecutor t) (BlockExecutionError t) Unit
  notify_increments increments s = notify_hook s.system_caller.hook increments s

  -- The executor's receipts and gas, with the requests.
  abbrev pub block_result :
      Requests → Exec (EthBlockExecutor t) (BlockExecutionError t) (BlockExecutionResult t)
  block_result requests s =
      (ok (record { receipts = s.receipts; requests = requests; gas_used = s.gas_used }), s)

  -- The increments of the rewards and withdrawals, and of the DAO fork.
  abbrev block_increments : Exec (EthBlockExecutor t) (BlockExecutionError t) (Dict ℕ)
  block_increments s =
      drain_dao
        (post_block_balance_increments p.constants s.spec (p.block s.evm) s.ctx.ommers
          s.ctx.withdrawals)
        s

  -- `finish`
  unfoldable pub eth_finish :
      Exec (EthBlockExecutor t) (BlockExecutionError t) (BlockExecutionResult t)
  unfolding collect_requests drain_dao notify_increments
  eth_finish = do
    requests ← collect_requests
    increments ← block_increments
    calling_db (validation increment_balance_failed) (p.increment_balances increments)
    notify_increments increments
    block_result requests

  -- `impl BlockExecutor for EthBlockExecutor`
  abbrev pub eth_block_executor : BlockExecutor t (EthBlockExecutor t)
  eth_block_executor = record {
    apply_pre_execution_changes = eth_pre_execution_changes;
    execute_transaction_with_commit_condition = eth_execute_transaction;
    execute_transaction_with_result_closure = default_result_closure eth_execute_transaction;
    finish = eth_finish;
    set_state_hook = λ hook s. record s { system_caller = with_state_hook hook s.system_caller };
  }
