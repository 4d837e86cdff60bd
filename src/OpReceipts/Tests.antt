-- ===== src/OpReceipts/Tests.antt =====
-- The theorems on the receipts of Optimism at concrete inputs.
use seismic_evm.Prelude.{
  ◌==◌, if◌then◌else◌, Bool-cases, length, add_u64, saturating_u64, ok, err, ℕ, ◌≡◌, refl, inl, inr,
  true, false, none, some, List, [],
}
use seismic_evm.Types.{Types, Log}
use seismic_evm.Platform.{ExecutableTx}
use seismic_evm.OpExecutor.{OpReceiptBuilder, OpBlockExecutor, op_receipt}
use seismic_evm.OpReceipts.{OpTxType, op_legacy_type, op_deposit_type, op_deposit_receipt}
use seismic_evm.OpReceipts.Deposits.{
  receipt_in, deposit_fields, is_deposit_type, WithEnvelopes, IsReceipt, with_alloy,
  op_receipt-IsReceipt,
}
use seismic_evm.Canyon.{OpPlatform}
use seismic_evm.Toy.{
  toy_types, toy_constants, toy_outcome, toy_info, toy_platform, toy_spec, toy_evm,
}
use seismic_evm.Toy.Optimism.{toy_account_of_info, toy_op_platform, toy_op_spec, toy_op_ctx}

toy_bloom : List Log → ℕ
toy_bloom logs = length logs

abbrev toy_types_with_envelopes : Types
toy_types_with_envelopes = WithEnvelopes toy_types ℕ

abbrev toy_tx_type : ℕ → OpTxType
toy_tx_type tx = if tx == 126 then op_deposit_type else op_legacy_type

abbrev toy_envelope_platform : OpPlatform toy_types_with_envelopes
toy_envelope_platform = record {
  base = record {
    timestamp_in_seconds = false;
    constants = toy_constants;
    block = toy_platform.block;
    db = toy_platform.db;
    set_db = toy_platform.set_db;
    transact = λ tx e. (ok toy_outcome, e);
    transact_system_call = λ caller contract input e. (ok toy_outcome, e);
    set_state_clear_flag = toy_platform.set_state_clear_flag;
    commit = toy_platform.commit;
    increment_balances = toy_platform.increment_balances;
    drain_balances = toy_platform.drain_balances;
    load_cache_account = toy_platform.load_cache_account;
    tx_gas_limit = toy_platform.tx_gas_limit;
    trie_hash = toy_platform.trie_hash;
    from_recovered_tx = toy_platform.from_recovered_tx;
    receipt_logs = λ r. (receipt_in r).logs;
    receipt_cumulative_gas_used = λ r. (receipt_in r).cumulative_gas_used;
    decode_log = toy_platform.decode_log;
    b256_bytes = toy_platform.b256_bytes;
  };
  tx_ty = toy_op_platform.tx_ty;
  deposit_transaction_type = toy_op_platform.deposit_transaction_type;
  default_info = toy_info;
  new_raw = toy_op_platform.new_raw;
  account_of_info = toy_account_of_info;
}

abbrev toy_envelope_deposit : ExecutableTx toy_types_with_envelopes
toy_envelope_deposit = record { tx = 126; signer = 60; to_tx_env = 126 }

abbrev toy_envelope_builder : OpReceiptBuilder toy_types_with_envelopes
toy_envelope_builder = record {
  build_receipt = λ ctx. err ctx;
  build_deposit_receipt = λ d. op_deposit_receipt (record { receipt = d; logs_bloom = 0 });
}

abbrev toy_envelope_executor : OpBlockExecutor toy_types_with_envelopes
toy_envelope_executor = record {
  spec = toy_op_spec;
  receipt_builder = toy_envelope_builder;
  ctx = toy_op_ctx;
  evm = toy_evm;
  receipts = [];
  gas_used = 5;
  is_regolith = true;
  system_caller = record { spec = toy_spec; hook = none };
}

toy_types_agree : (tx : ℕ) → (tx == 126) ≡ is_deposit_type (toy_tx_type tx)
toy_types_agree tx = elim (Bool-cases (tx == 126)) [
  | inl deposit ↦ rw deposit refl
  | inr plain ↦ rw plain refl
]

-- The receipt of this deposit after Canyon: the account's nonce, and the version 1.
op_receipt-IsReceipt_example :
    IsReceipt toy_bloom toy_outcome 21005 (
      op_receipt toy_envelope_platform toy_envelope_deposit
        (some toy_info)
        toy_outcome
        (with_alloy toy_types toy_bloom toy_tx_type toy_envelope_platform toy_envelope_executor))
    × (deposit_fields (
          op_receipt toy_envelope_platform toy_envelope_deposit (some toy_info) toy_outcome (
            with_alloy toy_types toy_bloom toy_tx_type toy_envelope_platform toy_envelope_executor))
        ≡ some (some 0, some 1))
unfolding saturating_u64 add_u64
op_receipt-IsReceipt_example =
    op_receipt-IsReceipt toy_types toy_bloom toy_tx_type toy_envelope_platform toy_types_agree
      toy_envelope_deposit (some toy_info) toy_outcome toy_envelope_executor
