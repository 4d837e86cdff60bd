-- ===== src/Toy/Optimism.antt =====
-- The small platform with what the Optimism executor takes besides: a transaction is a deposit if
-- it is 126, Regolith is active, and Canyon from the timestamp 1000 on.
use seismic_evm.Prelude.{leb, ◌==◌, if◌then◌else◌, ok, err, true, false, none, some, []}
use seismic_evm.Types.{AccountInfo, Account}
use seismic_evm.Platform.{ExecutableTx}
use seismic_evm.Canyon.{OpSpec, OpPlatform}
use seismic_evm.OpExecutor.{OpBlockExecutionCtx, OpReceiptBuilder, OpBlockExecutor}
use seismic_evm.Toy.{ToyReceipt, toy_types, toy_info, toy_platform, toy_spec, toy_evm}
use seismic_evm.EthExecutor.{ReceiptBuilderCtx}

abbrev pub toy_account_of_info : AccountInfo → Account
toy_account_of_info info = record {
  info = info;
  storage = [];
  status = record { created = false; self_destructed = false; touched = false };
  transaction_id = 0;
}

abbrev pub toy_op_platform : OpPlatform toy_types
toy_op_platform = record {
  base = toy_platform;
  tx_ty = λ tx. tx;
  deposit_transaction_type = 126;
  default_info = toy_info;
  new_raw = λ code. code;
  account_of_info = toy_account_of_info;
}

abbrev pub toy_op_spec : OpSpec
toy_op_spec = record {
  ethereum = toy_spec;
  is_regolith_active_at_timestamp = λ n. true;
  is_canyon_active_at_timestamp = λ n. leb 1000 n;
}

abbrev pub toy_build_receipt : ReceiptBuilderCtx toy_types → ToyReceipt
toy_build_receipt ctx = record { gas = ctx.cumulative_gas_used; logs = [] }

abbrev pub toy_op_builder : OpReceiptBuilder toy_types
toy_op_builder = record {
  build_receipt = λ ctx. if ctx.tx == 126 then err ctx else ok (toy_build_receipt ctx);
  build_deposit_receipt = λ d. record { gas = d.inner.cumulative_gas_used; logs = d.inner.logs };
}

abbrev pub toy_op_ctx : OpBlockExecutionCtx
toy_op_ctx = record { parent_hash = 11; parent_beacon_block_root = some 12; extra_data = [] }

abbrev pub toy_deposit : ExecutableTx toy_types
toy_deposit = record { tx = 126; signer = 60; to_tx_env = 126 }

abbrev pub toy_op_executor : OpBlockExecutor toy_types
toy_op_executor = record {
  spec = toy_op_spec;
  receipt_builder = toy_op_builder;
  ctx = toy_op_ctx;
  evm = toy_evm;
  receipts = [];
  gas_used = 0;
  is_regolith = true;
  system_caller = record { spec = toy_spec; hook = none };
}
