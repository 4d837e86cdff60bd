-- ===== src/OpTxEnvs.antt =====
-- crates/evm/src/tx.rs, the module `op`: the transaction environments of Optimism's transactions.
-- The default of `DepositTransactionParts` and the encoding of a transaction are parameters.
pub mod Bases
use seismic_evm.Prelude.{ℕ, Bool, Option, some, List, map}
use seismic_evm.Types.{Address, B256, Bytes}
use seismic_evm.SeismicEvm.{TxKind, TxEnv}
use seismic_evm.TxEnvs.{TxFields, DynamicFees, TxPlatform, with_fields, with_fees}

-- `TxDeposit`
pub record TxDeposit : Type 0 where
  pub source_hash : B256
  pub from : Address
  pub to : TxKind
  pub mint : ℕ
  pub value : ℕ
  pub gas_limit : ℕ
  pub is_system_transaction : Bool
  pub input : Bytes

-- `OpTxEnvelope`
pub data OpTxEnvelope (AccessItem SignedAuthorization : Type 0) : Type 0 where
  op_legacy_tx : TxFields → (gas_price : ℕ) → OpTxEnvelope AccessItem SignedAuthorization
  op_eip2930_tx :
      TxFields
      → (gas_price : ℕ) → (access_list : List AccessItem)
      → OpTxEnvelope AccessItem SignedAuthorization
  op_eip1559_tx : TxFields → DynamicFees AccessItem → OpTxEnvelope AccessItem SignedAuthorization
  op_eip7702_tx :
      TxFields
      → DynamicFees AccessItem
      → (authorization_list : List SignedAuthorization)
      → OpTxEnvelope AccessItem SignedAuthorization
  op_deposit_tx : TxDeposit → OpTxEnvelope AccessItem SignedAuthorization

-- op_revm's `DepositTransactionParts` and `OpTransaction`.
pub record DepositTransactionParts : Type 0 where
  pub parts_source_hash : B256
  pub parts_mint : Option ℕ
  pub parts_is_system_transaction : Bool

pub record OpTransaction (AccessItem Authorization : Type 0) : Type 0 where
  pub base : TxEnv AccessItem Authorization
  pub enveloped_tx : Option Bytes
  pub deposit : DepositTransactionParts

-- What is taken from op_alloy and op_revm: the type of a deposit, the default parts, the encoding.
pub record OpTxPlatform (AccessItem SignedAuthorization Authorization : Type 0) : Type 0 where
  pub txs : TxPlatform AccessItem SignedAuthorization Authorization
  pub deposit_tx_type_id : ℕ
  pub default_parts : DepositTransactionParts
  pub encoded_2718 : OpTxEnvelope AccessItem SignedAuthorization → Bytes

module _ {AccessItem SignedAuthorization Authorization : Type 0}
    (p : OpTxPlatform AccessItem SignedAuthorization Authorization) where
  -- `FromRecoveredTx<TxDeposit> for TxEnv`
  abbrev pub deposit_env : TxDeposit → Address → TxEnv AccessItem Authorization
  deposit_env tx caller = record p.txs.default_env {
    tx_type = p.deposit_tx_type_id;
    caller = caller;
    gas_limit = tx.gas_limit;
    kind = tx.to;
    value = tx.value;
    data_bytes = tx.input;
  }

  -- `FromRecoveredTx<OpTxEnvelope> for TxEnv`
  unfoldable pub op_base_of :
      OpTxEnvelope AccessItem SignedAuthorization → Address → TxEnv AccessItem Authorization
  op_base_of (op_legacy_tx tx gas_price) caller =
      with_fields p.txs p.txs.legacy_tx_type_id gas_price tx caller
  op_base_of (op_eip2930_tx tx gas_price access_list) caller =
      record (with_fields p.txs p.txs.eip2930_tx_type_id gas_price tx caller) {
        access_list = access_list;
      }
  op_base_of (op_eip1559_tx tx fees) caller =
      with_fees p.txs p.txs.eip1559_tx_type_id tx fees caller
  op_base_of (op_eip7702_tx tx fees authorization_list) caller =
      record (with_fees p.txs p.txs.eip7702_tx_type_id tx fees caller) {
        authorization_list = map p.txs.recover_authorization authorization_list;
      }
  op_base_of (op_deposit_tx tx) caller = deposit_env tx caller

  -- The parts of a deposit, and the default ones of another transaction.
  abbrev pub deposit_parts : OpTxEnvelope AccessItem SignedAuthorization → DepositTransactionParts
  deposit_parts (op_deposit_tx tx) = record {
    parts_source_hash = tx.source_hash;
    parts_mint = some tx.mint;
    parts_is_system_transaction = tx.is_system_transaction;
  }
  deposit_parts (op_legacy_tx tx gas_price) = p.default_parts
  deposit_parts (op_eip2930_tx tx gas_price access_list) = p.default_parts
  deposit_parts (op_eip1559_tx tx fees) = p.default_parts
  deposit_parts (op_eip7702_tx tx fees authorization_list) = p.default_parts

  -- `FromTxWithEncoded<OpTxEnvelope> for OpTransaction<TxEnv>`
  unfoldable pub op_from_encoded_tx :
      OpTxEnvelope AccessItem SignedAuthorization
      → Address
      → Bytes
      → OpTransaction AccessItem Authorization
  unfolding op_base_of
  op_from_encoded_tx tx caller encoded = record {
    base = op_base_of tx caller;
    enveloped_tx = some encoded;
    deposit = deposit_parts tx;
  }

  -- `FromRecoveredTx<OpTxEnvelope> for OpTransaction<TxEnv>`
  unfoldable pub op_from_recovered_tx :
      OpTxEnvelope AccessItem SignedAuthorization → Address → OpTransaction AccessItem Authorization
  unfolding op_from_encoded_tx
  op_from_recovered_tx tx sender = op_from_encoded_tx tx sender (p.encoded_2718 tx)
