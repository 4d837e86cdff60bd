-- ===== src/Deposits.antt =====
-- crates/evm/src/eth/eip6110.rs: the deposit requests in the logs of a block's receipts.
pub mod Parse
mod Tests
use seismic_evm.Prelude.{
  ◌==◌, if◌then◌else◌, Result, ok, err, Exec, pure, ◌>>◌, ℕ, ◌+◌, Bool, false, ◌&&◌, none, some,
  List, [], ◌∷◌, ◌++◌,
}
use seismic_evm.Types.{Address, B256, Bytes, Types, Log}
use seismic_evm.Errors.{BlockValidationError, deposit_request_decode}
use seismic_evm.Platform.{DepositEvent, Platform}
use seismic_evm.Spec.{EthExecutorSpec}

-- `DEPOSIT_BYTES_SIZE`
abbrev pub deposit_bytes_size : ℕ
deposit_bytes_size = 48 + 32 + 8 + 96 + 8

unfoldable pub accumulate_deposit_from_log : DepositEvent → Bytes → Bytes
accumulate_deposit_from_log log out =
    ((((out ++ log.pubkey) ++ log.withdrawal_credentials) ++ log.amount) ++ log.signature)
    ++ log.index

-- `log.topics().first() == Some(&hash)`
abbrev pub first_topic_is : B256 → List B256 → Bool
first_topic_is hash [] = false
first_topic_is hash (topic ∷ topics) = topic == hash

module _ {t : Types} (p : Platform t) where
  -- The two filters on logs.
  abbrev pub is_deposit_log : Address → Log → Bool
  is_deposit_log address log =
      log.address == address && first_topic_is p.constants.deposit_event_signature_hash log.topics

  -- The closure of `try_for_each`.
  abbrev pub accumulate_decoded : Log → Exec Bytes (BlockValidationError t) Unit
  accumulate_decoded log out = elim (p.decode_log log) [
    | ok decoded_log ↦ (ok tt, accumulate_deposit_from_log decoded_log out)
    | err e ↦ (err (deposit_request_decode e), out)
  ]

  unfoldable pub accumulate_deposits_from_logs :
      Address → List Log → Exec Bytes (BlockValidationError t) Unit
  accumulate_deposits_from_logs address [] = pure tt
  accumulate_deposits_from_logs address (log ∷ logs) =
      let rest = accumulate_deposits_from_logs address logs in
      if is_deposit_log address log then accumulate_decoded log >> rest else rest

  unfoldable pub accumulate_deposits_from_receipt :
      Address → t.Receipt → Exec Bytes (BlockValidationError t) Unit
  unfolding accumulate_deposits_from_logs
  accumulate_deposits_from_receipt address receipt =
      accumulate_deposits_from_logs address (p.receipt_logs receipt)

  unfoldable pub accumulate_deposits_from_receipts :
      Address → List t.Receipt → Exec Bytes (BlockValidationError t) Unit
  accumulate_deposits_from_receipts address [] = pure tt
  accumulate_deposits_from_receipts address (receipt ∷ receipts) =
      accumulate_deposits_from_receipt address receipt
      >> accumulate_deposits_from_receipts address receipts

  -- The spec's deposit contract, or mainnet's.
  abbrev pub deposit_contract : EthExecutorSpec → Address
  deposit_contract spec = elim spec.deposit_contract_address [
    | none ↦ p.constants.mainnet_deposit_contract_address
    | some address ↦ address
  ]

  -- `?` on what accumulating returned, and `Ok(out.into())`.
  abbrev pub parsed :
      Result (BlockValidationError t) Unit × Bytes → Result (BlockValidationError t) Bytes
  parsed (ok _, out) = ok out
  parsed (err e, out) = err e

  unfoldable pub parse_deposits_from_receipts :
      EthExecutorSpec → List t.Receipt → Result (BlockValidationError t) Bytes
  unfolding accumulate_deposits_from_receipts
  parse_deposits_from_receipts spec receipts =
      parsed (accumulate_deposits_from_receipts (deposit_contract spec) receipts [])
