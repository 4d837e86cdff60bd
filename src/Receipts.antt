-- ===== src/Receipts.antt =====
-- crates/evm/src/eth/receipt_builder.rs and crates/seismic-evm/src/block/receipt_builder.rs: the
-- receipt builders of alloy's and Seismic's transactions. The bloom filter and the type of a
-- transaction are parameters. A builder that reaches `unreachable!()` builds nothing.
use seismic_evm.Prelude.{ℕ, Bool, Option, none, some, List}
use seismic_evm.Types.{Types, Log, is_success, into_logs}
use seismic_evm.EthExecutor.{ReceiptBuilderCtx}
pub mod Contents
mod Tests

pub data TxType : Type 0 where
  legacy_type eip2930_type eip1559_type eip4844_type eip7702_type seismic_type : TxType

pub record ReceiptWithBloom (Bloom : Type 0) : Type 0 where
  pub status : Bool
  pub cumulative_gas_used : ℕ
  pub logs : List Log
  pub logs_bloom : Bloom

pub data ReceiptEnvelope (Bloom : Type 0) : Type 0 where
  legacy_receipt eip2930_receipt eip1559_receipt eip4844_receipt eip7702_receipt seismic_receipt :
      ReceiptWithBloom Bloom → ReceiptEnvelope Bloom

module _ {Bloom : Type 0} where
  abbrev pub seismic_envelope : TxType → ReceiptWithBloom Bloom → Option (ReceiptEnvelope Bloom)
  seismic_envelope legacy_type r = some (legacy_receipt r)
  seismic_envelope eip2930_type r = some (eip2930_receipt r)
  seismic_envelope eip1559_type r = some (eip1559_receipt r)
  seismic_envelope eip4844_type r = none
  seismic_envelope eip7702_type r = some (eip7702_receipt r)
  seismic_envelope seismic_type r = some (seismic_receipt r)

  abbrev pub alloy_envelope : TxType → ReceiptWithBloom Bloom → Option (ReceiptEnvelope Bloom)
  alloy_envelope legacy_type r = some (legacy_receipt r)
  alloy_envelope eip2930_type r = some (eip2930_receipt r)
  alloy_envelope eip1559_type r = some (eip1559_receipt r)
  alloy_envelope eip4844_type r = some (eip4844_receipt r)
  alloy_envelope eip7702_type r = some (eip7702_receipt r)
  alloy_envelope seismic_type r = none

module _ {t : Types} {Bloom : Type 0} (bloom : List Log → Bloom)
    (tx_type : t.Transaction → TxType) where
  -- The receipt with its bloom filter, before it is put into an envelope.
  abbrev pub receipt_with_bloom : ReceiptBuilderCtx t → ReceiptWithBloom Bloom
  receipt_with_bloom ctx = record {
    status = is_success ctx.result;
    cumulative_gas_used = ctx.cumulative_gas_used;
    logs = into_logs ctx.result;
    logs_bloom = bloom (into_logs ctx.result);
  }

  -- `SeismicAlloyReceiptBuilder::build_receipt`
  unfoldable pub seismic_build_receipt : ReceiptBuilderCtx t → Option (ReceiptEnvelope Bloom)
  seismic_build_receipt ctx = seismic_envelope (tx_type ctx.tx) (receipt_with_bloom ctx)

  -- `AlloyReceiptBuilder::build_receipt`; an Ethereum transaction is not Seismic's.
  unfoldable pub alloy_build_receipt : ReceiptBuilderCtx t → Option (ReceiptEnvelope Bloom)
  alloy_build_receipt ctx = alloy_envelope (tx_type ctx.tx) (receipt_with_bloom ctx)
