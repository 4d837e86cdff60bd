-- ===== src/TxEnvs.antt =====
-- crates/evm/src/tx.rs: the transaction environments of recovered transactions.
-- The transactions' types, revm's default environment and the recovery of an authorization's
-- signer are parameters, and so is `Transaction::gas_price` of alloy.
use seismic_evm.Prelude.{ℕ, Option, none, some, List, [], map}
use seismic_evm.Types.{Address, B256, Bytes}
use seismic_evm.SeismicEvm.{TxKind, execution, TxEnv, SeismicTransaction}
pub mod Fields
mod Tests

-- The fields that every type of transaction has.
pub record TxFields : Type 0 where
  pub gas_limit : ℕ
  pub kind : TxKind
  pub value : ℕ
  pub input : Bytes
  pub nonce : ℕ
  pub chain_id : Option ℕ

pub record DynamicFees (AccessItem : Type 0) : Type 0 where
  pub max_fee_per_gas : ℕ
  pub max_priority_fee_per_gas : ℕ
  pub access_list : List AccessItem

-- The transactions of the envelopes. A transaction that is not legacy has a chain
-- identifier, and one of EIP-4844 or EIP-7702 a target: both are in the fields that all have.
pub data Envelope (AccessItem SignedAuthorization : Type 0) : Type 0 where
  legacy_tx : TxFields → (gas_price : ℕ) → Envelope AccessItem SignedAuthorization
  eip2930_tx :
      TxFields
      → (gas_price : ℕ) → (access_list : List AccessItem) → Envelope AccessItem SignedAuthorization
  eip1559_tx : TxFields → DynamicFees AccessItem → Envelope AccessItem SignedAuthorization
  eip4844_tx :
      TxFields
      → DynamicFees AccessItem
      → (blob_versioned_hashes : List B256) → (max_fee_per_blob_gas : ℕ)
      → Envelope AccessItem SignedAuthorization
  eip7702_tx :
      TxFields
      → DynamicFees AccessItem
      → (authorization_list : List SignedAuthorization) → Envelope AccessItem SignedAuthorization
  seismic_tx : TxFields → Envelope AccessItem SignedAuthorization

-- What `tx_type` and `ty` are of the transactions, `TxEnv::default`, `Transaction::gas_price`, and
-- the recovery of an authorization.
pub record TxPlatform (AccessItem SignedAuthorization Authorization : Type 0) : Type 0 where
  pub legacy_tx_type_id : ℕ
  pub eip2930_tx_type_id : ℕ
  pub eip1559_tx_type_id : ℕ
  pub eip4844_tx_type_id : ℕ
  pub eip7702_tx_type_id : ℕ
  pub seismic_tx_type_id : ℕ
  pub default_env : TxEnv AccessItem Authorization
  pub gas_price_of : Envelope AccessItem SignedAuthorization → Option ℕ
  pub tx_hash_of : Envelope AccessItem SignedAuthorization → B256
  pub recover_authorization : SignedAuthorization → Authorization

module _ {AccessItem SignedAuthorization Authorization : Type 0}
    (p : TxPlatform AccessItem SignedAuthorization Authorization) where
  -- The default environment with the fields that all transactions have.
  abbrev pub with_fields :
      (tx_type : ℕ) → (gas_price : ℕ) → TxFields → Address → TxEnv AccessItem Authorization
  with_fields tx_type gas_price tx sender = record p.default_env {
    tx_type = tx_type;
    caller = sender;
    gas_limit = tx.gas_limit;
    gas_price = gas_price;
    kind = tx.kind;
    value = tx.value;
    data_bytes = tx.input;
    nonce = tx.nonce;
    chain_id = tx.chain_id;
  }

  abbrev pub with_fees :
      (tx_type : ℕ) → TxFields → DynamicFees AccessItem → Address → TxEnv AccessItem Authorization
  with_fees tx_type tx fees sender = record (with_fields tx_type fees.max_fee_per_gas tx sender) {
    gas_priority_fee = some fees.max_priority_fee_per_gas;
    access_list = fees.access_list;
  }

  -- `FromRecoveredTx for TxEnv`, of the Ethereum transactions.
  unfoldable pub eth_from_recovered_tx :
      Envelope AccessItem SignedAuthorization → Address → Option (TxEnv AccessItem Authorization)
  eth_from_recovered_tx (legacy_tx tx gas_price) sender =
      some (with_fields p.legacy_tx_type_id gas_price tx sender)
  eth_from_recovered_tx (eip2930_tx tx gas_price access_list) sender =
      some (record (with_fields p.eip2930_tx_type_id gas_price tx sender) {
        access_list = access_list;
      })
  eth_from_recovered_tx (eip1559_tx tx fees) sender =
      some (with_fees p.eip1559_tx_type_id tx fees sender)
  eth_from_recovered_tx (eip4844_tx tx fees blob_versioned_hashes max_fee_per_blob_gas) sender =
      some (record (with_fees p.eip4844_tx_type_id tx fees sender) {
        blob_hashes = blob_versioned_hashes;
        max_fee_per_blob_gas = max_fee_per_blob_gas;
      })
  eth_from_recovered_tx (eip7702_tx tx fees authorization_list) sender =
      some (record (with_fees p.eip7702_tx_type_id tx fees sender) {
        authorization_list = map p.recover_authorization authorization_list;
      })
  eth_from_recovered_tx (seismic_tx tx) sender = none

  -- The environment that `from_recovered_tx` of `SeismicTransaction` writes out for each type.
  abbrev pub seismic_base :
      (tx_type : ℕ) → (gas_price : ℕ) → TxFields → Address → TxEnv AccessItem Authorization
  seismic_base tx_type gas_price tx sender = record {
    tx_type = tx_type;
    caller = sender;
    gas_limit = tx.gas_limit;
    gas_price = gas_price;
    kind = tx.kind;
    value = tx.value;
    data_bytes = tx.input;
    nonce = tx.nonce;
    chain_id = tx.chain_id;
    access_list = [];
    gas_priority_fee = none;
    blob_hashes = [];
    max_fee_per_blob_gas = 0;
    authorization_list = [];
  }

  abbrev pub unwrap_or_default : Option ℕ → ℕ
  unwrap_or_default none = 0
  unwrap_or_default (some n) = n

  abbrev pub seismic_base_of :
      Envelope AccessItem SignedAuthorization → Address → TxEnv AccessItem Authorization
  seismic_base_of (legacy_tx tx gas_price) sender =
      seismic_base p.legacy_tx_type_id gas_price tx sender
  seismic_base_of (eip2930_tx tx gas_price access_list) sender =
      seismic_base p.eip2930_tx_type_id gas_price tx sender
  seismic_base_of (eip1559_tx tx fees) sender =
      seismic_base p.eip1559_tx_type_id (unwrap_or_default (p.gas_price_of (eip1559_tx tx fees))) tx
        sender
  seismic_base_of (eip4844_tx tx fees hashes blob_fee) sender =
      seismic_base p.eip4844_tx_type_id
        (unwrap_or_default (p.gas_price_of (eip4844_tx tx fees hashes blob_fee))) tx sender
  seismic_base_of (eip7702_tx tx fees authorizations) sender =
      seismic_base p.eip7702_tx_type_id
        (unwrap_or_default (p.gas_price_of (eip7702_tx tx fees authorizations))) tx sender
  seismic_base_of (seismic_tx tx) sender =
      seismic_base p.seismic_tx_type_id (unwrap_or_default (p.gas_price_of (seismic_tx tx))) tx
        sender

  -- `FromRecoveredTx<SeismicTxEnvelope> for SeismicTransaction<TxEnv>`
  unfoldable pub seismic_from_recovered_tx :
      Envelope AccessItem SignedAuthorization
      → Address
      → SeismicTransaction AccessItem Authorization
  seismic_from_recovered_tx tx sender = record {
    base = seismic_base_of tx sender;
    tx_hash = p.tx_hash_of tx;
    rng_mode = execution;
  }

  -- `FromTxWithEncoded<SeismicTxEnvelope> for SeismicTransaction<TxEnv>`
  unfoldable pub seismic_from_encoded_tx :
      Envelope AccessItem SignedAuthorization
      → Address
      → Bytes
      → SeismicTransaction AccessItem Authorization
  unfolding seismic_from_recovered_tx
  seismic_from_encoded_tx tx sender encoded =
      let tx_env = seismic_from_recovered_tx tx sender in
      record { base = tx_env.base; tx_hash = tx_env.tx_hash; rng_mode = execution }
