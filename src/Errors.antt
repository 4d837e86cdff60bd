-- ===== src/Errors.antt =====
-- crates/evm/src/block/error.rs and crates/evm/src/error.rs: the errors of block execution.
-- A boxed error keeps its value; a message keeps what it was formatted from.
use seismic_evm.Prelude.{Result, ok, err, ℕ, Bool, true, false, Option, none, some}
use seismic_evm.Types.{B256, Bytes, Types}
pub mod Downcast

-- revm's `EVMError`: an invalid transaction, or anything else.
pub data EvmError (t : Types) : Type 0 where
  transaction : t.InvalidTx → EvmError t
  fatal : t.Fatal → EvmError t

module _ {t : Types} where
  -- `EvmError::as_invalid_tx_err`
  unfoldable pub as_invalid_tx_err : EvmError t → Option t.InvalidTx
  as_invalid_tx_err (transaction e) = some e
  as_invalid_tx_err (fatal e) = none

  -- `EvmError::try_into_invalid_tx_err`
  abbrev pub try_into_invalid_tx_err : EvmError t → Result (EvmError t) t.InvalidTx
  try_into_invalid_tx_err (transaction e) = ok e
  try_into_invalid_tx_err (fatal e) = err (fatal e)

  -- `EvmError::is_invalid_tx_err`
  unfoldable pub is_invalid_tx_err : EvmError t → Bool
  unfolding as_invalid_tx_err
  is_invalid_tx_err e = elim (as_invalid_tx_err e) [ none ↦ false | some _ ↦ true ]

-- The messages of failed system calls: `e.to_string()`, `execution failed: {e}`,
-- `execution reverted: {output}` and `execution halted: {reason:?}`.
pub data Message (t : Types) : Type 0 where
  error_text : EvmError t → Message t
  execution_failed : EvmError t → Message t
  execution_reverted : Bytes → Message t
  execution_halted : t.HaltReason → Message t

pub data BlockValidationError (t : Types) : Type 0 where
  invalid_tx : (hash : B256) → t.InvalidTx → BlockValidationError t
  increment_balance_failed : BlockValidationError t
  transaction_gas_limit_more_than_available_block_gas :
      (transaction_gas_limit block_available_gas : ℕ) → BlockValidationError t
  missing_parent_beacon_block_root : BlockValidationError t
  cancun_genesis_parent_beacon_block_root_not_zero : B256 → BlockValidationError t
  beacon_root_contract_call : B256 → Message t → BlockValidationError t
  block_hash_contract_call : Message t → BlockValidationError t
  withdrawal_requests_contract_call : Message t → BlockValidationError t
  consolidation_requests_contract_call : Message t → BlockValidationError t
  deposit_request_decode : t.DecodeError → BlockValidationError t

-- What `InternalBlockExecutionError::other` and `msg` box.
pub data OtherError (t : Types) : Type 0 where
  database : t.DbError → OtherError t
  could_not_load_account : OtherError t

pub data InternalBlockExecutionError (t : Types) : Type 0 where
  evm_failed : (hash : B256) → EvmError t → InternalBlockExecutionError t
  failed_to_decrypt_seismic_tx : t.DecryptError → InternalBlockExecutionError t
  other : OtherError t → InternalBlockExecutionError t

pub data BlockExecutionError (t : Types) : Type 0 where
  validation : BlockValidationError t → BlockExecutionError t
  internal : InternalBlockExecutionError t → BlockExecutionError t

module _ {t : Types} where
  -- `BlockExecutionError::evm`
  abbrev pub evm_error : EvmError t → B256 → BlockExecutionError t
  evm_error e hash = elim (try_into_invalid_tx_err e) [
    | ok invalid ↦ validation (invalid_tx hash invalid)
    | err rest ↦ internal (evm_failed hash rest)
  ]

  -- `BlockExecutionError::as_validation`
  unfoldable pub as_validation : BlockExecutionError t → Option (BlockValidationError t)
  as_validation (validation e) = some e
  as_validation (internal e) = none
