-- ===== src/Receipts/Tests.antt =====
-- The theorems on receipts at concrete inputs.
use seismic_evm.Prelude.{◌==◌, if◌then◌else◌, length, ℕ, ◌≡◌, ◌≢◌, true, none, some, []}
use seismic_evm.Types.{success}
use seismic_evm.EthExecutor.{ReceiptBuilderCtx}
use seismic_evm.Receipts.{
  TxType, eip1559_type, eip4844_type, ReceiptEnvelope, seismic_build_receipt, alloy_build_receipt,
}
use seismic_evm.Receipts.Contents.{
  type_of, receipt_of, seismic_build_receipt-contents, seismic_build_receipt-alloy_build_receipt,
}
use seismic_evm.Toy.{toy_types, toy_evm}

abbrev type_of_toy : ℕ → TxType
type_of_toy tx = if tx == 100 then eip1559_type else eip4844_type

abbrev toy_receipt_ctx : ReceiptBuilderCtx toy_types
toy_receipt_ctx = record {
  tx = 100;
  evm = toy_evm;
  result = success 21000 [] [];
  state = [];
  cumulative_gas_used = 42000;
}

seismic_build_receipt-contents_example :
    (e : ReceiptEnvelope ℕ) × (seismic_build_receipt {t = toy_types} length type_of_toy
        toy_receipt_ctx
      ≡ some e)
    × (type_of e ≡ eip1559_type)
    × (receipt_of e
        ≡ record { status = true; cumulative_gas_used = 42000; logs = []; logs_bloom = 0 })
seismic_build_receipt-contents_example =
    seismic_build_receipt-contents length type_of_toy toy_receipt_ctx (λ e. absurd (cc e))

seismic_build_receipt-alloy_build_receipt_example :
    (eip1559_type ≢ eip4844_type
      → seismic_build_receipt {t = toy_types} length type_of_toy toy_receipt_ctx
        ≡ alloy_build_receipt {t = toy_types} length type_of_toy toy_receipt_ctx)
    × (eip1559_type ≡ eip4844_type
        → (seismic_build_receipt {t = toy_types} length type_of_toy toy_receipt_ctx ≡ none)
          × (alloy_build_receipt {t = toy_types} length type_of_toy toy_receipt_ctx ≢ none))
seismic_build_receipt-alloy_build_receipt_example =
    seismic_build_receipt-alloy_build_receipt length type_of_toy toy_receipt_ctx
      (λ e. absurd (cc e))
