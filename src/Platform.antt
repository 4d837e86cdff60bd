-- ===== src/Platform.antt =====
-- What the executors call: the trait `Evm` of crates/evm/src/evm.rs, revm's `State` database, the
-- alloy constants, and the traits of transactions and receipts, as one record of operations.
-- None of it is implemented in the sources but `transact_commit`, modelled here.
pub mod Laws
use seismic_evm.Prelude.{◌>>=◌, Result, ok, Exec, ℕ, Bool, Option, List}
use seismic_evm.Prelude.Dict.{Dict}
use seismic_evm.Types.{
  Address, B256, Bytes, Types, BlockEnv, AccountInfo, EvmState, Log, ExecutionResult,
  ResultAndState,
}
use seismic_evm.Errors.{EvmError}

-- Constants of alloy_eips and alloy_consensus.
pub record Constants : Type 0 where
  pub beacon_system_address : Address
  pub requests_system_address : Address
  pub history_storage_address : Address
  pub beacon_roots_address : Address
  pub withdrawal_request_predeploy_address : Address
  pub consolidation_request_predeploy_address : Address
  pub mainnet_deposit_contract_address : Address
  pub withdrawal_request_type : ℕ
  pub consolidation_request_type : ℕ
  pub deposit_request_type : ℕ
  pub deposit_event_signature_hash : B256
  pub eth_to_wei : ℕ
  -- `Withdrawal::amount_wei`, from the amount in Gwei.
  pub amount_wei : ℕ → ℕ

-- The fields of `DepositEvent`, byte strings in the order in which the event declares them.
pub record DepositEvent : Type 0 where
  pub pubkey : Bytes
  pub withdrawal_credentials : Bytes
  pub amount : Bytes
  pub signature : Bytes
  pub index : Bytes

pub record Platform (t : Types) : Type 0 where
  -- The feature `timestamp-in-seconds`.
  pub timestamp_in_seconds : Bool
  pub constants : Constants
  -- `Evm`; `set_db` is a write through `db_mut`.
  pub block : t.Evm → BlockEnv
  pub db : t.Evm → t.Db
  pub set_db : t.Evm → t.Db → t.Evm
  pub transact : t.TxEnv → Exec t.Evm (EvmError t) (ResultAndState t.HaltReason)
  pub transact_system_call :
      (caller contract : Address) → Bytes → Exec t.Evm (EvmError t) (ResultAndState t.HaltReason)
  -- revm's `State`
  pub set_state_clear_flag : Bool → t.Db → t.Db
  pub commit : EvmState → t.Db → t.Db
  pub increment_balances : Dict ℕ → Exec t.Db t.DbError Unit
  pub drain_balances : List Address → Exec t.Db t.DbError (List ℕ)
  pub load_cache_account : Address → Exec t.Db t.DbError (Option AccountInfo)
  -- `Transaction::gas_limit`, `Encodable2718::trie_hash`, `FromRecoveredTx::from_recovered_tx`
  pub tx_gas_limit : t.Transaction → ℕ
  pub trie_hash : t.Transaction → B256
  pub from_recovered_tx : t.Transaction → Address → t.TxEnv
  -- `TxReceipt`
  pub receipt_logs : t.Receipt → List Log
  pub receipt_cumulative_gas_used : t.Receipt → ℕ
  -- `DepositEvent::decode_log` and the bytes of a hash
  pub decode_log : Log → Result t.DecodeError DepositEvent
  pub b256_bytes : B256 → Bytes

module _ {t : Types} (p : Platform t) where
  -- A write through `db_mut`.
  abbrev pub on_db : (t.Db → t.Db) → t.Evm → t.Evm
  on_db f evm = p.set_db evm (f (p.db evm))

  -- A fallible call on `db_mut`.
  abbrev pub call_db : {A : Type 0} → Exec t.Db t.DbError A → Exec t.Evm t.DbError A
  call_db m evm = let (r, db) = m (p.db evm) in (r, p.set_db evm db)

  -- `Evm::transact_commit`
  unfoldable pub transact_commit : t.TxEnv → Exec t.Evm (EvmError t) (ExecutionResult t.HaltReason)
  transact_commit tx = do
    outcome ← p.transact tx
    λ evm. (ok outcome.result, on_db (p.commit outcome.state) evm)

-- An implementation of `ExecutableTx`: `RecoveredTx::tx`, `RecoveredTx::signer` and
-- `ToTxEnv::to_tx_env`.
pub record ExecutableTx (t : Types) : Type 0 where
  pub tx : t.Transaction
  pub signer : Address
  pub to_tx_env : t.TxEnv

-- `Recovered::new_unchecked`, whose environment is that of `FromRecoveredTx`.
abbrev pub recovered : {t : Types} → Platform t → t.Transaction → Address → ExecutableTx t
recovered p tx signer = record {
  tx = tx;
  signer = signer;
  to_tx_env = p.from_recovered_tx tx signer;
}
