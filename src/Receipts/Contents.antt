-- ===== src/Receipts/Contents.antt =====
-- What is in the receipts.
use seismic_evm.Prelude.{◌≡◌, refl, ◌≢◌, none, some, List}
use seismic_evm.Types.{Types, Log, is_success, into_logs}
use seismic_evm.EthExecutor.{ReceiptBuilderCtx}
use seismic_evm.Receipts.{
  TxType, legacy_type, eip2930_type, eip1559_type, eip4844_type, eip7702_type, seismic_type,
  ReceiptWithBloom, ReceiptEnvelope, legacy_receipt, eip2930_receipt, eip1559_receipt,
  eip4844_receipt, eip7702_receipt, seismic_receipt, seismic_envelope, alloy_envelope,
  seismic_build_receipt, alloy_build_receipt,
}

module _ {Bloom : Type 0} where
  abbrev pub type_of : ReceiptEnvelope Bloom → TxType
  type_of (legacy_receipt r) = legacy_type
  type_of (eip2930_receipt r) = eip2930_type
  type_of (eip1559_receipt r) = eip1559_type
  type_of (eip4844_receipt r) = eip4844_type
  type_of (eip7702_receipt r) = eip7702_type
  type_of (seismic_receipt r) = seismic_type

  abbrev pub receipt_of : ReceiptEnvelope Bloom → ReceiptWithBloom Bloom
  receipt_of (legacy_receipt r) = r
  receipt_of (eip2930_receipt r) = r
  receipt_of (eip1559_receipt r) = r
  receipt_of (eip4844_receipt r) = r
  receipt_of (eip7702_receipt r) = r
  receipt_of (seismic_receipt r) = r

  carried :
      (ty : TxType) (r : ReceiptWithBloom Bloom)
      → ty ≢ eip4844_type
      → (e : ReceiptEnvelope Bloom) × (seismic_envelope ty r ≡ some e)
        × (type_of e ≡ ty)
        × (receipt_of e ≡ r)
  carried legacy_type r h = (legacy_receipt r, refl, refl, refl)
  carried eip2930_type r h = (eip2930_receipt r, refl, refl, refl)
  carried eip1559_type r h = (eip1559_receipt r, refl, refl, refl)
  carried eip4844_type r h = absurd (h refl)
  carried eip7702_type r h = (eip7702_receipt r, refl, refl, refl)
  carried seismic_type r h = (seismic_receipt r, refl, refl, refl)

  agree :
      (ty : TxType) (r : ReceiptWithBloom Bloom)
      → ty ≢ eip4844_type
      → ty ≢ seismic_type
      → seismic_envelope ty r ≡ alloy_envelope ty r
  agree legacy_type r h k = refl
  agree eip2930_type r h k = refl
  agree eip1559_type r h k = refl
  agree eip4844_type r h k = absurd (h refl)
  agree eip7702_type r h k = refl
  agree seismic_type r h k = absurd (k refl)

module _ {t : Types} {Bloom : Type 0} (bloom : List Log → Bloom)
    (tx_type : t.Transaction → TxType) where
  -- Seismic's builder builds a receipt for every transaction that is not of EIP-4844: with the
  -- transaction's type, and whether it succeeded, the cumulative gas and the logs of its result.
  pub seismic_build_receipt-contents :
      (ctx : ReceiptBuilderCtx t)
      → tx_type ctx.tx ≢ eip4844_type
      → (e : ReceiptEnvelope Bloom) × (seismic_build_receipt bloom tx_type ctx ≡ some e)
        × (type_of e ≡ tx_type ctx.tx)
        × (receipt_of e ≡ record {
          status = is_success ctx.result;
          cumulative_gas_used = ctx.cumulative_gas_used;
          logs = into_logs ctx.result;
          logs_bloom = bloom (into_logs ctx.result);
        })
  unfolding seismic_build_receipt
  seismic_build_receipt-contents ctx h = carried (tx_type ctx.tx) _ h

  -- The two builders build the same receipt for a transaction that is neither of EIP-4844 nor
  -- Seismic's; for one of EIP-4844 alloy's builds a receipt and Seismic's panics.
  pub seismic_build_receipt-alloy_build_receipt :
      (ctx : ReceiptBuilderCtx t)
      → tx_type ctx.tx ≢ seismic_type
      → (tx_type ctx.tx ≢ eip4844_type
          → seismic_build_receipt bloom tx_type ctx ≡ alloy_build_receipt bloom tx_type ctx)
        × (tx_type ctx.tx ≡ eip4844_type
            → (seismic_build_receipt bloom tx_type ctx ≡ none)
              × (alloy_build_receipt bloom tx_type ctx ≢ none))
  unfolding seismic_build_receipt alloy_build_receipt
  seismic_build_receipt-alloy_build_receipt ctx h =
      (λ k. agree (tx_type ctx.tx) _ k h, λ e. (rw e refl, rw e (λ x. absurd (cc x))))
