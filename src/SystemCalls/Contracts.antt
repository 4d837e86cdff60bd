-- ===== src/SystemCalls/Contracts.antt =====
-- The system contract calls of crates/evm/src/block/system_calls/eip2935.rs, eip4788.rs,
-- eip7002.rs and eip7251.rs. They do not commit the changes that they return.
use seismic_evm.Prelude.{
  ◌==◌, if◌then◌else◌, saturating_u64, Result, ok, err, Exec, ℕ, ◌/◌, Bool, not, Option, none, some,
  [],
}
use seismic_evm.Types.{
  Address, B256, Bytes, Types, BlockEnv, ExecutionResult, success, revert, halt, ResultAndState,
}
use seismic_evm.Errors.{
  EvmError, error_text, execution_failed, execution_reverted, execution_halted,
  BlockValidationError, missing_parent_beacon_block_root,
  cancun_genesis_parent_beacon_block_root_not_zero, beacon_root_contract_call,
  block_hash_contract_call, withdrawal_requests_contract_call, consolidation_requests_contract_call,
  BlockExecutionError, validation,
}
use seismic_evm.Platform.{Platform}
use seismic_evm.Spec.{EthExecutorSpec}

-- The block's timestamp for fork checks: in milliseconds unless the feature
-- `timestamp-in-seconds` is on.
unfoldable pub timestamp_seconds : Bool → BlockEnv → ℕ
timestamp_seconds in_seconds block =
    if in_seconds then saturating_u64 block.timestamp else saturating_u64 block.timestamp / 1000

module _ {t : Types} (p : Platform t) where
  abbrev Outcome : Type 0
  Outcome = Result (BlockExecutionError t) (Option (ResultAndState t.HaltReason))

  -- A system call whose error becomes a validation error.
  abbrev pub system_call :
      {A : Type 0}
      → Address
      → Address
      → Bytes
      → (ResultAndState t.HaltReason → A)
      → (EvmError t → BlockValidationError t)
      → Exec t.Evm (BlockExecutionError t) A
  system_call caller contract input done failed evm =
      let (r, evm') = p.transact_system_call caller contract input evm in
      (elim r [ ok res ↦ ok (done res) | err e ↦ err (validation (failed e)) ], evm')

  unfoldable pub transact_blockhashes_contract_call :
      EthExecutorSpec
      → B256
      → Exec t.Evm (BlockExecutionError t) (Option (ResultAndState t.HaltReason))
  unfolding timestamp_seconds
  transact_blockhashes_contract_call spec parent_block_hash evm =
      if not (
        spec.is_prague_active_at_timestamp (timestamp_seconds p.timestamp_in_seconds (p.block evm)))
      then (ok none, evm)
      else if (p.block evm).number == 0
      then (ok none, evm)
      else system_call p.constants.beacon_system_address p.constants.history_storage_address
          (p.b256_bytes parent_block_hash) some (λ e. block_hash_contract_call (error_text e)) evm

  -- The call itself, once a parent beacon block root is there.
  abbrev pub beacon_root_call :
      B256 → Exec t.Evm (BlockExecutionError t) (Option (ResultAndState t.HaltReason))
  beacon_root_call root evm =
      if (p.block evm).number == 0
      then (if root == 0
          then (ok none, evm)
          else (err (validation (cancun_genesis_parent_beacon_block_root_not_zero root)), evm))
      else system_call p.constants.beacon_system_address p.constants.beacon_roots_address
          (p.b256_bytes root) some (λ e. beacon_root_contract_call root (error_text e)) evm

  abbrev pub beacon_root_given :
      Option B256 → Exec t.Evm (BlockExecutionError t) (Option (ResultAndState t.HaltReason))
  beacon_root_given none evm = (err (validation missing_parent_beacon_block_root), evm)
  beacon_root_given (some root) evm = beacon_root_call root evm

  unfoldable pub transact_beacon_root_contract_call :
      EthExecutorSpec
      → Option B256
      → Exec t.Evm (BlockExecutionError t) (Option (ResultAndState t.HaltReason))
  unfolding timestamp_seconds
  transact_beacon_root_contract_call spec parent_beacon_block_root evm =
      if not (
        spec.is_cancun_active_at_timestamp (timestamp_seconds p.timestamp_in_seconds (p.block evm)))
      then (ok none, evm)
      else beacon_root_given parent_beacon_block_root evm

  unfoldable pub transact_withdrawal_requests_contract_call :
      Exec t.Evm (BlockExecutionError t) (ResultAndState t.HaltReason)
  transact_withdrawal_requests_contract_call =
      system_call p.constants.requests_system_address
        p.constants.withdrawal_request_predeploy_address [] (λ res. res)
        (λ e. withdrawal_requests_contract_call (execution_failed e))

  unfoldable pub transact_consolidation_requests_contract_call :
      Exec t.Evm (BlockExecutionError t) (ResultAndState t.HaltReason)
  transact_consolidation_requests_contract_call =
      system_call p.constants.requests_system_address
        p.constants.consolidation_request_predeploy_address [] (λ res. res)
        (λ e. consolidation_requests_contract_call (execution_failed e))

module _ {t : Types} where
  -- `eip7002::post_commit`
  unfoldable pub post_commit_withdrawals :
      ExecutionResult t.HaltReason → Result (BlockExecutionError t) Bytes
  post_commit_withdrawals (success g logs output) = ok output
  post_commit_withdrawals (revert g output) =
      err (validation (withdrawal_requests_contract_call (execution_reverted output)))
  post_commit_withdrawals (halt g reason) =
      err (validation (withdrawal_requests_contract_call (execution_halted reason)))

  -- `eip7251::post_commit`
  unfoldable pub post_commit_consolidations :
      ExecutionResult t.HaltReason → Result (BlockExecutionError t) Bytes
  post_commit_consolidations (success g logs output) = ok output
  post_commit_consolidations (revert g output) =
      err (validation (consolidation_requests_contract_call (execution_reverted output)))
  post_commit_consolidations (halt g reason) =
      err (validation (consolidation_requests_contract_call (execution_halted reason)))
