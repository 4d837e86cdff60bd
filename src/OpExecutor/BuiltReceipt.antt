-- ===== src/OpExecutor/BuiltReceipt.antt =====
-- crates/op-evm/src/block/mod.rs: the receipt of a transaction, which for a deposit has the
-- depositor's nonce and, from Canyon on, a version.
use seismic_evm.Prelude.{
  ◌==◌, add_u64, saturating_u64, Result, ok, err, ℕ, Bool, true, false, ◌&&◌, Option, none, some,
}
use seismic_evm.Types.{Types, AccountInfo, gas_used_of, is_success, into_logs, ResultAndState}
use seismic_evm.Platform.{ExecutableTx}
use seismic_evm.OpExecutor.State.{OpBlockExecutor}
use seismic_evm.EthExecutor.{ReceiptBuilderCtx}
use seismic_evm.Canyon.{OpPlatform}

module _ {t : Types} (o : OpPlatform t) where
  -- The block's timestamp, as the specification is asked for it.
  abbrev pub block_timestamp : t.Evm → ℕ
  block_timestamp evm = saturating_u64 (o.base.block evm).timestamp

  abbrev pub is_deposit : t.Transaction → Bool
  is_deposit tx = o.tx_ty tx == o.deposit_transaction_type

  -- The deposit receipt's version, from Canyon on.
  abbrev pub deposit_version : Bool → Option ℕ
  deposit_version true = some 1
  deposit_version false = none

  -- `depositor.map(|account| account.nonce)`
  abbrev pub nonce_of : Option AccountInfo → Option ℕ
  nonce_of none = none
  nonce_of (some account) = some account.nonce

  -- The receipt of a deposit, if the builder gives the context back.
  abbrev pub receipt_or_deposit :
      ExecutableTx t
      → Option AccountInfo
      → (cumulative_gas_used : ℕ) → OpBlockExecutor t
      → Result (ReceiptBuilderCtx t) t.Receipt
      → t.Receipt
  receipt_or_deposit tx depositor cumulative_gas_used s (ok receipt) = receipt
  receipt_or_deposit tx depositor cumulative_gas_used s (err ctx) =
      s.receipt_builder.build_deposit_receipt (record {
        inner = record {
          status = is_success ctx.result;
          cumulative_gas_used = cumulative_gas_used;
          logs = into_logs ctx.result;
        };
        deposit_nonce = nonce_of depositor;
        deposit_receipt_version =
            deposit_version
              (is_deposit tx.tx && s.spec.is_canyon_active_at_timestamp (block_timestamp s.evm));
      })

  -- The receipt of a transaction that is kept.
  unfoldable pub op_receipt :
      ExecutableTx t
      → Option AccountInfo
      → ResultAndState t.HaltReason
      → OpBlockExecutor t
      → t.Receipt
  op_receipt tx depositor outcome s =
      let gas_used = add_u64 s.gas_used (gas_used_of outcome.result) in
      receipt_or_deposit tx depositor gas_used s (
        s.receipt_builder.build_receipt (record {
          tx = tx.tx;
          evm = s.evm;
          result = outcome.result;
          state = outcome.state;
          cumulative_gas_used = gas_used;
        }))
