-- ===== src/Toy.antt =====
-- A small platform on which the theorems are tried: an EVM of block settings and a counter of
-- commits, on which a transaction is its gas limit and uses 21000 gas.
pub mod Optimism
use seismic_evm.Prelude.{
  Result, ok, err, ℕ, zero, suc, ◌+◌, ◌*◌, ◌≡◌, refl, sym, ap, true, false, none, some, List, [],
  ◌∷◌, arith,
}
use seismic_evm.Types.{
  Bytes, Types, BlockEnv, AccountInfo, Log, success, gas_used_of, ResultAndState,
}
use seismic_evm.Errors.{EvmError}
use seismic_evm.Platform.{Constants, DepositEvent, Platform, ExecutableTx}
use seismic_evm.Spec.{EthExecutorSpec}
use seismic_evm.Platform.Laws.{EvmLaws, RespectsGasLimit}
use seismic_evm.EthExecutor.{EthBlockExecutionCtx, ReceiptBuilder, EthBlockExecutor}
use seismic_evm.EthExecutor.Gas.{IsConsistent}
use seismic_evm.Deposits.Parse.{HasFixedSizes}

pub record ToyEvm : Type 0 where
  pub settings : BlockEnv
  pub commits : ℕ

pub record ToyReceipt : Type 0 where
  pub gas : ℕ
  pub logs : List Log

abbrev pub toy_types : Types
toy_types = record {
  Evm = ToyEvm;
  Db = ℕ;
  TxEnv = ℕ;
  HaltReason = Unit {0};
  InvalidTx = Unit {0};
  Fatal = Unit {0};
  DbError = Unit {0};
  DecryptError = Unit {0};
  DecodeError = Unit {0};
  Transaction = ℕ;
  Receipt = ToyReceipt;
}

abbrev pub toy_constants : Constants
toy_constants = record {
  beacon_system_address = 1;
  requests_system_address = 2;
  history_storage_address = 3;
  beacon_roots_address = 4;
  withdrawal_request_predeploy_address = 5;
  consolidation_request_predeploy_address = 6;
  mainnet_deposit_contract_address = 7;
  withdrawal_request_type = 1;
  consolidation_request_type = 2;
  deposit_request_type = 0;
  deposit_event_signature_hash = 77;
  eth_to_wei = 1000000000000000000;
  amount_wei = λ gwei. gwei * 1000000000;
}

abbrev pub toy_outcome : ResultAndState (Unit {0})
toy_outcome = record { result = success 21000 [] []; state = [] }

abbrev pub zeros : ℕ → Bytes
zeros zero = []
zeros (suc n) = 0 ∷ zeros n

abbrev pub toy_event : DepositEvent
toy_event = record {
  pubkey = zeros 48;
  withdrawal_credentials = zeros 32;
  amount = zeros 8;
  signature = zeros 96;
  index = zeros 8;
}

abbrev pub toy_info : AccountInfo
toy_info = record { balance = 10; nonce = 0; code_hash = 0; code = none }

abbrev pub toy_platform : Platform toy_types
toy_platform = record {
  timestamp_in_seconds = false;
  constants = toy_constants;
  block = λ e. e.settings;
  db = λ e. e.commits;
  set_db = λ e d. record { settings = e.settings; commits = d };
  transact = λ tx e. (ok toy_outcome, e);
  transact_system_call = λ caller contract input e. (ok toy_outcome, e);
  set_state_clear_flag = λ flag d. d;
  commit = λ state d. 1 + d;
  increment_balances = λ increments d. (ok tt, d);
  drain_balances = λ accounts d. (ok [], d);
  load_cache_account = λ a d. (ok (some toy_info), d);
  tx_gas_limit = λ tx. 21000 + tx;
  trie_hash = λ tx. tx;
  from_recovered_tx = λ tx signer. tx;
  receipt_logs = λ r. r.logs;
  receipt_cumulative_gas_used = λ r. r.gas;
  decode_log = λ log. ok toy_event;
  b256_bytes = λ hash. hash ∷ [];
}

abbrev pub toy_laws : EvmLaws toy_platform
toy_laws = record {
  db-set_db = λ e d. refl;
  block-set_db = λ e d. refl;
  block-transact = λ x e. refl;
  block-system_call = λ caller contract input e. refl;
}

abbrev pub toy_spec : EthExecutorSpec
toy_spec = record {
  is_byzantium_active_at_block = λ n. true;
  is_constantinople_active_at_block = λ n. true;
  is_spurious_dragon_active_at_block = λ n. true;
  is_paris_active_at_block = λ n. false;
  is_shanghai_active_at_timestamp = λ n. true;
  is_cancun_active_at_timestamp = λ n. true;
  is_prague_active_at_timestamp = λ n. true;
  dao_transitions_at_block = λ n. false;
  deposit_contract_address = none;
}

abbrev pub toy_block : BlockEnv
toy_block = record {
  number = 5;
  beneficiary = 50;
  timestamp = 1000;
  gas_limit = 100000;
  basefee = 7;
  difficulty = 0;
  prevrandao = none;
}

abbrev pub toy_evm : ToyEvm
toy_evm = record { settings = toy_block; commits = 0 }

abbrev pub toy_ctx : EthBlockExecutionCtx
toy_ctx = record {
  parent_hash = 11;
  parent_beacon_block_root = some 12;
  ommers = [];
  withdrawals = some [];
}

abbrev pub toy_builder : ReceiptBuilder toy_types
toy_builder = record { build_receipt = λ ctx. record { gas = ctx.cumulative_gas_used; logs = [] } }

abbrev pub toy_executor : EthBlockExecutor toy_types
toy_executor = record {
  spec = toy_spec;
  ctx = toy_ctx;
  evm = toy_evm;
  system_caller = record { spec = toy_spec; hook = none };
  receipt_builder = toy_builder;
  receipts = [];
  gas_used = 0;
}

abbrev pub toy_tx : ExecutableTx toy_types
toy_tx = record { tx = 100; signer = 60; to_tx_env = 100 }

pub toy_tx-RespectsGasLimit : RespectsGasLimit toy_platform toy_tx
toy_tx-RespectsGasLimit e e' r ran =
    let gas : gas_used_of r.result ≡ 21000 = sym (ap gas_of (ap (λ o. o.0) ran)) in
    omega (arith, gas)
  where
    gas_of : Result (EvmError toy_types) (ResultAndState (Unit {0})) → ℕ
    gas_of (ok r) = gas_used_of r.result
    gas_of (err e) = 0

pub toy_executor-IsConsistent : IsConsistent toy_platform toy_executor
toy_executor-IsConsistent = record {
  in_limit = omega arith;
  limit_fits = omega arith;
  cumulates = refl;
}

pub toy_event-HasFixedSizes : HasFixedSizes toy_event
toy_event-HasFixedSizes = record {
  pubkey_size = refl;
  withdrawal_credentials_size = refl;
  amount_size = refl;
  signature_size = refl;
  index_size = refl;
}
