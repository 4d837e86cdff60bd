-- ===== src/TxEnvs/Fields.antt =====
-- How the two conversions of a transaction relate.
use seismic_evm.Prelude.{ℕ, ◌≡◌, refl, ap, Option, none, some, List, []}
use seismic_evm.Types.{Address, B256, Bytes}
use seismic_evm.SeismicEvm.{TxKind, TxEnv}
use seismic_evm.TxEnvs.{
  Envelope, legacy_tx, eip2930_tx, eip1559_tx, eip4844_tx, eip7702_tx, seismic_tx, TxPlatform,
  eth_from_recovered_tx, seismic_from_recovered_tx,
}

module _ {AccessItem SignedAuthorization Authorization : Type 0}
    (p : TxPlatform AccessItem SignedAuthorization Authorization) where
  -- What an environment says of who calls what with which input, value and gas.
  abbrev pub message :
      TxEnv AccessItem Authorization → ℕ × Address × ℕ × TxKind × ℕ × Bytes × ℕ × Option ℕ
  message e = (e.tx_type, e.caller, e.gas_limit, e.kind, e.value, e.data_bytes, e.nonce, e.chain_id)

  message_of :
      Option (TxEnv AccessItem Authorization) → ℕ × Address × ℕ × TxKind × ℕ × Bytes × ℕ × Option ℕ
  message_of none = message p.default_env
  message_of (some e) = message e

  abbrev pub fees_and_lists :
      TxEnv AccessItem Authorization
      → List AccessItem × Option ℕ × List B256 × ℕ × List Authorization
  fees_and_lists e = (
    e.access_list, e.gas_priority_fee, e.blob_hashes, e.max_fee_per_blob_gas, e.authorization_list,
  )

  -- The conversion for Seismic agrees with Ethereum's on the type, caller, gas limit, target,
  -- value, input, nonce and chain of every Ethereum transaction, but its environment has no access
  -- list, priority fee, blobs or authorizations, whatever the transaction has.
  pub seismic_from_recovered_tx-drops :
      (tx : Envelope AccessItem SignedAuthorization) (sender : Address)
      (e : TxEnv AccessItem Authorization)
      → eth_from_recovered_tx p tx sender ≡ some e
      → (message (seismic_from_recovered_tx p tx sender).base ≡ message e)
        × (fees_and_lists (seismic_from_recovered_tx p tx sender).base ≡ ([], none, [], 0, []))
  unfolding seismic_from_recovered_tx message_of eth_from_recovered_tx
  seismic_from_recovered_tx-drops (legacy_tx tx gas_price) sender e h = (ap message_of h, refl)
  seismic_from_recovered_tx-drops (eip2930_tx tx gas_price list) sender e h =
      (ap message_of h, refl)
  seismic_from_recovered_tx-drops (eip1559_tx tx fees) sender e h = (ap message_of h, refl)
  seismic_from_recovered_tx-drops (eip4844_tx tx fees hashes fee) sender e h =
      (ap message_of h, refl)
  seismic_from_recovered_tx-drops (eip7702_tx tx fees list) sender e h = (ap message_of h, refl)
  seismic_from_recovered_tx-drops (seismic_tx tx) sender e h = absurd (cc h)
