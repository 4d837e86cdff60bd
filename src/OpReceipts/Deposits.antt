-- ===== src/OpReceipts/Deposits.antt =====
-- The receipts of the executor with op-alloy's builder, deposits' included.
use seismic_evm.Prelude.{
  ◌==◌, if◌then◌else◌, add_u64, saturating_u64, ℕ, ◌≡◌, refl, ap, Bool, true, false, Option, none,
  some, List,
}
use seismic_evm.Types.{Types, AccountInfo, Log, gas_used_of, is_success, into_logs, ResultAndState}
use seismic_evm.Platform.{ExecutableTx}
use seismic_evm.Canyon.{OpPlatform}
use seismic_evm.OpExecutor.{
  Receipt, OpReceiptBuilder, OpBlockExecutor, deposit_version, nonce_of, op_receipt,
}
use seismic_evm.OpReceipts.{
  OpTxType, op_legacy_type, op_eip2930_type, op_eip1559_type, op_eip7702_type, op_deposit_type,
  OpReceiptEnvelope, op_legacy_receipt, op_eip2930_receipt, op_eip1559_receipt, op_eip7702_receipt,
  op_deposit_receipt, op_build_receipt, op_build_deposit_receipt,
}

-- The receipt in an envelope, and what a deposit's has besides.
abbrev pub receipt_in : {Bloom : Type 0} → OpReceiptEnvelope Bloom → Receipt
receipt_in (op_legacy_receipt r) = r.receipt
receipt_in (op_eip2930_receipt r) = r.receipt
receipt_in (op_eip1559_receipt r) = r.receipt
receipt_in (op_eip7702_receipt r) = r.receipt
receipt_in (op_deposit_receipt r) = r.receipt.inner

abbrev pub bloom_in : {Bloom : Type 0} → OpReceiptEnvelope Bloom → Bloom
bloom_in (op_legacy_receipt r) = r.logs_bloom
bloom_in (op_eip2930_receipt r) = r.logs_bloom
bloom_in (op_eip1559_receipt r) = r.logs_bloom
bloom_in (op_eip7702_receipt r) = r.logs_bloom
bloom_in (op_deposit_receipt r) = r.logs_bloom

-- A deposit's nonce and version.
abbrev pub deposit_fields :
    {Bloom : Type 0} → OpReceiptEnvelope Bloom → Option (Option ℕ × Option ℕ)
deposit_fields (op_legacy_receipt r) = none
deposit_fields (op_eip2930_receipt r) = none
deposit_fields (op_eip1559_receipt r) = none
deposit_fields (op_eip7702_receipt r) = none
deposit_fields (op_deposit_receipt r) =
    some (r.receipt.deposit_nonce, r.receipt.deposit_receipt_version)

abbrev pub is_deposit_type : OpTxType → Bool
is_deposit_type op_deposit_type = true
is_deposit_type op_legacy_type = false
is_deposit_type op_eip2930_type = false
is_deposit_type op_eip1559_type = false
is_deposit_type op_eip7702_type = false

-- The receipts are op-alloy's envelopes.
abbrev pub WithEnvelopes : Types → Type 0 → Types
WithEnvelopes t Bloom = record t { Receipt = OpReceiptEnvelope Bloom }

-- What a receipt has, whatever its type.
pub record IsReceipt {HaltReason Bloom : Type 0} (bloom : List Log → Bloom)
    (res : ResultAndState HaltReason) (gas : ℕ) (r : OpReceiptEnvelope Bloom) : Type 0 where
  pub contents : receipt_in r ≡ record {
    status = is_success res.result;
    cumulative_gas_used = gas;
    logs = into_logs res.result;
  }
  pub blooms : bloom_in r ≡ bloom (into_logs res.result)

module _ (t : Types) {Bloom : Type 0} (bloom : List Log → Bloom)
    (tx_type : t.Transaction → OpTxType) where
  -- `OpAlloyReceiptBuilder` as a receipt builder.
  unfoldable pub op_alloy_receipt_builder : OpReceiptBuilder (WithEnvelopes t Bloom)
  unfolding op_build_receipt op_build_deposit_receipt
  op_alloy_receipt_builder = record {
    build_receipt = op_build_receipt {t = WithEnvelopes t Bloom} bloom tx_type;
    build_deposit_receipt = op_build_deposit_receipt bloom;
  }

  module _ (o : OpPlatform (WithEnvelopes t Bloom)) where
    -- An executor with op-alloy's builder.
    abbrev pub with_alloy :
        OpBlockExecutor (WithEnvelopes t Bloom) → OpBlockExecutor (WithEnvelopes t Bloom)
    with_alloy s = record s { receipt_builder = op_alloy_receipt_builder }

    -- What the receipt of a deposit has besides: the depositor's nonce, if it was loaded, and the
    -- version 1 if Canyon is active at the block's timestamp.
    abbrev pub fields_of :
        (deposit : Bool)
        → Option AccountInfo
        → OpBlockExecutor (WithEnvelopes t Bloom)
        → Option (Option ℕ × Option ℕ)
    fields_of false depositor s = none
    fields_of true depositor s = some (
      (elim depositor [ none ↦ none | some account ↦ some account.nonce ]),
      (if s.spec.is_canyon_active_at_timestamp (saturating_u64 (o.base.block s.evm).timestamp)
          then some 1
          else none),
    )

    nonce_of_lem :
        (depositor : Option AccountInfo)
        → nonce_of o depositor
          ≡ (elim depositor [ none ↦ none | some account ↦ some account.nonce ])
    nonce_of_lem none = refl
    nonce_of_lem (some account) = refl

    deposit_version_lem :
        (canyon : Bool) → deposit_version o canyon ≡ (if canyon then some 1 else none)
    deposit_version_lem true = refl
    deposit_version_lem false = refl

    abbrev pub HasReceipt :
        (tx : ExecutableTx (WithEnvelopes t Bloom)) (depositor : Option AccountInfo)
        (res : ResultAndState t.HaltReason) (s : OpBlockExecutor (WithEnvelopes t Bloom))
        → Type 0
    HasReceipt tx depositor res s =
        IsReceipt bloom res (add_u64 s.gas_used (gas_used_of res.result))
          (op_receipt o tx depositor res (with_alloy s))
        × (deposit_fields (op_receipt o tx depositor res (with_alloy s))
            ≡ fields_of (o.tx_ty tx.tx == o.deposit_transaction_type) depositor s)

    op_receipt-by_type :
        (tx : ExecutableTx (WithEnvelopes t Bloom)) (depositor : Option AccountInfo)
        (res : ResultAndState t.HaltReason) (s : OpBlockExecutor (WithEnvelopes t Bloom))
        (ty : OpTxType)
        → tx_type tx.tx ≡ ty
        → (o.tx_ty tx.tx == o.deposit_transaction_type) ≡ is_deposit_type ty
        → HasReceipt tx depositor res s
    unfolding op_receipt op_alloy_receipt_builder op_build_receipt op_build_deposit_receipt
    op_receipt-by_type tx depositor res s op_legacy_type e d =
        rw e (record { contents = refl; blooms = refl }, rw d refl)
    op_receipt-by_type tx depositor res s op_eip2930_type e d =
        rw e (record { contents = refl; blooms = refl }, rw d refl)
    op_receipt-by_type tx depositor res s op_eip1559_type e d =
        rw e (record { contents = refl; blooms = refl }, rw d refl)
    op_receipt-by_type tx depositor res s op_eip7702_type e d =
        rw e (record { contents = refl; blooms = refl }, rw d refl)
    op_receipt-by_type tx depositor res s op_deposit_type e d = rw e (
      record { contents = refl; blooms = refl },
      rw d (
          ap some (λ i. (
            nonce_of_lem depositor i,
            deposit_version_lem
                (s.spec.is_canyon_active_at_timestamp
                  (saturating_u64 (o.base.block s.evm).timestamp))
                i,
          ))),
    )

    -- With op-alloy's builder, the receipt of a kept transaction has the success, the new gas
    -- counter and the logs of its result, with their bloom filter. It is a deposit's receipt exactly
    -- for a deposit, and then has the depositor's nonce, if the account was loaded, and the version 1
    -- exactly if Canyon is active at the block's timestamp. The numeric type and the type of a
    -- transaction are taken to agree on what is a deposit.
    pub op_receipt-IsReceipt :
        ((x : t.Transaction)
          → (o.tx_ty x == o.deposit_transaction_type) ≡ is_deposit_type (tx_type x))
        → (tx : ExecutableTx (WithEnvelopes t Bloom)) (depositor : Option AccountInfo)
          (res : ResultAndState t.HaltReason) (s : OpBlockExecutor (WithEnvelopes t Bloom))
        → HasReceipt tx depositor res s
    op_receipt-IsReceipt agree tx depositor res s =
        op_receipt-by_type tx depositor res s (tx_type tx.tx) refl (agree tx.tx)
