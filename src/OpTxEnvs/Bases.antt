-- ===== src/OpTxEnvs/Bases.antt =====
-- Optimism's transactions that Ethereum has too get the environments of Ethereum's.
use seismic_evm.Prelude.{◌≡◌, refl, sym, ap, Option, none, some}
use seismic_evm.Types.{Address}
use seismic_evm.SeismicEvm.{TxEnv}
use seismic_evm.TxEnvs.{
  Envelope, legacy_tx, eip2930_tx, eip1559_tx, eip7702_tx, eth_from_recovered_tx,
}
use seismic_evm.OpTxEnvs.{
  OpTxEnvelope, op_legacy_tx, op_eip2930_tx, op_eip1559_tx, op_eip7702_tx, op_deposit_tx,
  OpTxPlatform, op_base_of, op_from_encoded_tx, op_from_recovered_tx,
}

module _ {AccessItem SignedAuthorization : Type 0} where
  -- The Ethereum transaction of an Optimism transaction that is no deposit.
  abbrev pub ethereum_tx :
      OpTxEnvelope AccessItem SignedAuthorization → Option (Envelope AccessItem SignedAuthorization)
  ethereum_tx (op_legacy_tx tx gas_price) = some (legacy_tx tx gas_price)
  ethereum_tx (op_eip2930_tx tx gas_price access_list) = some (eip2930_tx tx gas_price access_list)
  ethereum_tx (op_eip1559_tx tx fees) = some (eip1559_tx tx fees)
  ethereum_tx (op_eip7702_tx tx fees authorization_list) =
      some (eip7702_tx tx fees authorization_list)
  ethereum_tx (op_deposit_tx tx) = none

module _ {AccessItem SignedAuthorization Authorization : Type 0}
    (p : OpTxPlatform AccessItem SignedAuthorization Authorization) where
  abbrev from_some :
      Address
      → Option (Envelope AccessItem SignedAuthorization)
      → Option (TxEnv AccessItem Authorization)
  from_some sender none = none
  from_some sender (some tx) = eth_from_recovered_tx p.txs tx sender

  -- The environment of a recovered Optimism transaction that Ethereum has too is that of the
  -- Ethereum transaction, with the encoded form beside it and no parts of a deposit.
  pub op_from_recovered_tx-ethereum :
      (tx : OpTxEnvelope AccessItem SignedAuthorization) (sender : Address)
      (eth_tx : Envelope AccessItem SignedAuthorization)
      → ethereum_tx tx ≡ some eth_tx
      → (eth_from_recovered_tx p.txs eth_tx sender ≡ some (op_from_recovered_tx p tx sender).base)
        × ((op_from_recovered_tx p tx sender).enveloped_tx ≡ some (p.encoded_2718 tx))
        × ((op_from_recovered_tx p tx sender).deposit ≡ p.default_parts)
  unfolding op_from_recovered_tx op_from_encoded_tx op_base_of eth_from_recovered_tx
  op_from_recovered_tx-ethereum (op_legacy_tx tx gas_price) sender eth_tx same =
      (ap (from_some sender) (sym same), refl, refl)
  op_from_recovered_tx-ethereum (op_eip2930_tx tx gas_price access_list) sender eth_tx same =
      (ap (from_some sender) (sym same), refl, refl)
  op_from_recovered_tx-ethereum (op_eip1559_tx tx fees) sender eth_tx same =
      (ap (from_some sender) (sym same), refl, refl)
  op_from_recovered_tx-ethereum (op_eip7702_tx tx fees authorization_list) sender eth_tx same =
      (ap (from_some sender) (sym same), refl, refl)
  op_from_recovered_tx-ethereum (op_deposit_tx tx) sender eth_tx same = absurd (cc same)
