-- ===== src/OpReceipts.antt =====
-- crates/op-evm/src/block/receipt_builder.rs: the receipt builder of op-alloy's transactions. The
-- bloom filter and the type of a transaction are parameters. An arm that is `unreachable!()` has no
-- envelope.
pub mod Deposits
mod Tests
use seismic_evm.Prelude.{Result, ok, err, List}
use seismic_evm.Types.{Types, Log, is_success, into_logs}
use seismic_evm.EthExecutor.{ReceiptBuilderCtx}
use seismic_evm.OpExecutor.{Receipt, OpDepositReceipt}

pub data OpTxType : Type 0 where
  op_legacy_type op_eip2930_type op_eip1559_type op_eip7702_type op_deposit_type : OpTxType

-- `with_bloom` of a receipt.
pub record WithBloom (Bloom R : Type 0) : Type 0 where
  pub receipt : R
  pub logs_bloom : Bloom

pub data OpReceiptEnvelope (Bloom : Type 0) : Type 0 where
  op_legacy_receipt op_eip2930_receipt op_eip1559_receipt op_eip7702_receipt :
      WithBloom Bloom Receipt → OpReceiptEnvelope Bloom
  op_deposit_receipt : WithBloom Bloom OpDepositReceipt → OpReceiptEnvelope Bloom

module _ {t : Types} {Bloom : Type 0} (bloom : List Log → Bloom)
    (tx_type : t.Transaction → OpTxType) where
  abbrev pub op_with_bloom : ReceiptBuilderCtx t → WithBloom Bloom Receipt
  op_with_bloom ctx = record {
    receipt = record {
      status = is_success ctx.result;
      cumulative_gas_used = ctx.cumulative_gas_used;
      logs = into_logs ctx.result;
    };
    logs_bloom = bloom (into_logs ctx.result);
  }

  abbrev pub op_envelope :
      OpTxType → ReceiptBuilderCtx t → Result (ReceiptBuilderCtx t) (OpReceiptEnvelope Bloom)
  op_envelope op_deposit_type ctx = err ctx
  op_envelope op_legacy_type ctx = ok (op_legacy_receipt (op_with_bloom ctx))
  op_envelope op_eip2930_type ctx = ok (op_eip2930_receipt (op_with_bloom ctx))
  op_envelope op_eip1559_type ctx = ok (op_eip1559_receipt (op_with_bloom ctx))
  op_envelope op_eip7702_type ctx = ok (op_eip7702_receipt (op_with_bloom ctx))

  -- `OpAlloyReceiptBuilder::build_receipt`
  unfoldable pub op_build_receipt :
      ReceiptBuilderCtx t → Result (ReceiptBuilderCtx t) (OpReceiptEnvelope Bloom)
  op_build_receipt ctx = op_envelope (tx_type ctx.tx) ctx

-- `OpAlloyReceiptBuilder::build_deposit_receipt`
unfoldable pub op_build_deposit_receipt :
    {Bloom : Type 0} → (List Log → Bloom) → OpDepositReceipt → OpReceiptEnvelope Bloom
op_build_deposit_receipt bloom inner =
    op_deposit_receipt (record { receipt = inner; logs_bloom = bloom inner.inner.logs })
