-- ===== src/OpExecutor/State.antt =====
-- The state of the Optimism executor, of crates/op-evm/src/block/mod.rs, and the trait of its
-- receipt builder, of crates/op-evm/src/block/receipt_builder.rs.
use seismic_evm.Prelude.{saturating_u64, Result, Exec, ℕ, Bool, Option, List, []}
use seismic_evm.Types.{B256, Bytes, Types, Log}
use seismic_evm.Errors.{BlockExecutionError}
use seismic_evm.EthExecutor.{ReceiptBuilderCtx}
use seismic_evm.SystemCalls.{SystemCaller, new_system_caller, Calling}
use seismic_evm.Canyon.{OpSpec, OpPlatform}

pub record OpBlockExecutionCtx : Type 0 where
  pub parent_hash : B256
  pub parent_beacon_block_root : Option B256
  pub extra_data : Bytes

-- alloy_consensus's `Receipt`.
pub record Receipt : Type 0 where
  pub status : Bool
  pub cumulative_gas_used : ℕ
  pub logs : List Log

-- op_alloy_consensus's `OpDepositReceipt`.
pub record OpDepositReceipt : Type 0 where
  pub inner : Receipt
  pub deposit_nonce : Option ℕ
  pub deposit_receipt_version : Option ℕ

-- `build_receipt` gives the context of a deposit back.
pub record OpReceiptBuilder (t : Types) : Type 0 where
  pub build_receipt : ReceiptBuilderCtx t → Result (ReceiptBuilderCtx t) t.Receipt
  pub build_deposit_receipt : OpDepositReceipt → t.Receipt

pub record OpBlockExecutor (t : Types) : Type 0 where
  pub spec : OpSpec
  pub receipt_builder : OpReceiptBuilder t
  pub ctx : OpBlockExecutionCtx
  pub evm : t.Evm
  pub receipts : List t.Receipt
  pub gas_used : ℕ
  pub is_regolith : Bool
  pub system_caller : SystemCaller

module _ {t : Types} (o : OpPlatform t) where
  -- `OpBlockExecutor::new`
  unfoldable pub new_op_executor :
      t.Evm → OpBlockExecutionCtx → OpSpec → OpReceiptBuilder t → OpBlockExecutor t
  new_op_executor evm ctx spec receipt_builder = record {
    spec = spec;
    receipt_builder = receipt_builder;
    ctx = ctx;
    evm = evm;
    receipts = [];
    gas_used = 0;
    is_regolith =
        spec.is_regolith_active_at_timestamp (saturating_u64 (o.base.block evm).timestamp);
    system_caller = new_system_caller spec.ethereum;
  }

-- A call of the system caller on the executor's EVM.
abbrev pub op_calling :
    {t : Types} {A : Type 0}
    → Exec (Calling t) (BlockExecutionError t) A
    → Exec (OpBlockExecutor t) (BlockExecutionError t) A
op_calling m s =
    let (r, c) = m (record { caller = s.system_caller; evm = s.evm }) in
    (r, record s { system_caller = c.caller; evm = c.evm })

-- `OpBlockExecutorFactory`, without the factory of its EVMs.
pub record OpBlockExecutorFactory (t : Types) : Type 0 where
  pub factory_receipt_builder : OpReceiptBuilder t
  pub factory_spec : OpSpec

-- `OpBlockExecutorFactory::create_executor`
abbrev pub create_op_executor :
    {t : Types}
    → OpPlatform t
    → OpBlockExecutorFactory t
    → t.Evm
    → OpBlockExecutionCtx
    → OpBlockExecutor t
create_op_executor o factory evm ctx =
    new_op_executor o evm ctx factory.factory_spec factory.factory_receipt_builder
