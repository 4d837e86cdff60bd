-- ===== src/Types.antt =====
-- The data of the executors: environments (crates/evm/src/env.rs and the revm structs that the
-- sources fill in), account changes, execution results, logs and receipts' views.
-- Hashes, addresses and byte values are numbers, byte strings are lists of numbers.
use seismic_evm.Prelude.{ℕ, Bool, true, false, Option, List, []}
use seismic_evm.Prelude.Dict.{Dict}

abbrev pub Address : Type 0
Address = ℕ

abbrev pub B256 : Type 0
B256 = ℕ

abbrev pub Bytes : Type 0
Bytes = List ℕ

-- The types that the crates take from elsewhere or are generic over: the EVM, its database and
-- transaction environment, the reasons why it halts or fails, transactions and receipts, and the
-- error of a failed decryption.
pub record Types : Type 1 where
  pub Evm : Type 0
  pub Db : Type 0
  pub TxEnv : Type 0
  pub HaltReason : Type 0
  pub InvalidTx : Type 0
  pub Fatal : Type 0
  pub DbError : Type 0
  pub DecryptError : Type 0
  pub DecodeError : Type 0
  pub Transaction : Type 0
  pub Receipt : Type 0

-- revm's `BlockEnv`, the fields that the sources read or write.
pub record BlockEnv : Type 0 where
  pub number : ℕ
  pub beneficiary : Address
  pub timestamp : ℕ
  pub gas_limit : ℕ
  pub basefee : ℕ
  pub difficulty : ℕ
  pub prevrandao : Option B256

-- revm's `CfgEnv`, the fields that the sources read or write.
pub record CfgEnv (Spec : Type 0) : Type 0 where
  pub chain_id : ℕ
  pub spec : Spec
  pub disable_nonce_check : Bool

pub record AccountInfo : Type 0 where
  pub balance : ℕ
  pub nonce : ℕ
  pub code_hash : B256
  pub code : Option Bytes

-- The bits of revm's `AccountStatus` that the sources set.
pub record AccountStatus : Type 0 where
  pub created : Bool
  pub self_destructed : Bool
  pub touched : Bool

-- A stored word with its flag of privacy. The sources only pass it on, so it is a number that
-- stands for both.
abbrev pub FlaggedStorage : Type 0
FlaggedStorage = ℕ

pub record EvmStorageSlot : Type 0 where
  pub original_value : FlaggedStorage
  pub present_value : FlaggedStorage
  pub is_cold : Bool
  pub transaction_id : ℕ

pub record Account : Type 0 where
  pub info : AccountInfo
  pub storage : Dict EvmStorageSlot
  pub status : AccountStatus
  pub transaction_id : ℕ

-- A set of account changes, by address.
abbrev pub EvmState : Type 0
EvmState = Dict Account

pub record Log : Type 0 where
  pub address : Address
  pub topics : List B256
  pub log_data : Bytes

-- revm's `ExecutionResult`.
pub data ExecutionResult (HaltReason : Type 0) : Type 0 where
  success : (gas_used : ℕ) → (logs : List Log) → (output : Bytes) → ExecutionResult HaltReason
  revert : (gas_used : ℕ) → (output : Bytes) → ExecutionResult HaltReason
  halt : (gas_used : ℕ) → (reason : HaltReason) → ExecutionResult HaltReason

module _ {HaltReason : Type 0} where
  abbrev pub gas_used_of : ExecutionResult HaltReason → ℕ
  gas_used_of (success g logs output) = g
  gas_used_of (revert g output) = g
  gas_used_of (halt g reason) = g

  abbrev pub is_success : ExecutionResult HaltReason → Bool
  is_success (success g logs output) = true
  is_success (revert g output) = false
  is_success (halt g reason) = false

  abbrev pub into_logs : ExecutionResult HaltReason → List Log
  into_logs (success g logs output) = logs
  into_logs (revert g output) = []
  into_logs (halt g reason) = []

pub record ResultAndState (HaltReason : Type 0) : Type 0 where
  pub result : ExecutionResult HaltReason
  pub state : EvmState
