-- ===== src/TxEnvs/Tests.antt =====
-- The theorem on transaction environments at a concrete input.
use seismic_evm.Prelude.{ℕ, ◌≡◌, refl, none, some, [], ◌∷◌}
use seismic_evm.SeismicEvm.{call_of, TxEnv}
use seismic_evm.TxEnvs.{
  TxFields, DynamicFees, eip1559_tx, TxPlatform, with_fees, eth_from_recovered_tx,
  seismic_from_recovered_tx,
}
use seismic_evm.TxEnvs.Fields.{message, fees_and_lists, seismic_from_recovered_tx-drops}

abbrev default_tx_env : TxEnv ℕ ℕ
default_tx_env = record {
  tx_type = 0;
  caller = 0;
  gas_limit = 30000000;
  gas_price = 0;
  kind = call_of 0;
  value = 0;
  data_bytes = [];
  nonce = 0;
  chain_id = some 1;
  access_list = [];
  gas_priority_fee = none;
  blob_hashes = [];
  max_fee_per_blob_gas = 0;
  authorization_list = [];
}

abbrev toy_txs : TxPlatform ℕ ℕ ℕ
toy_txs = record {
  legacy_tx_type_id = 0;
  eip2930_tx_type_id = 1;
  eip1559_tx_type_id = 2;
  eip4844_tx_type_id = 3;
  eip7702_tx_type_id = 4;
  seismic_tx_type_id = 74;
  default_env = default_tx_env;
  gas_price_of = λ tx. none;
  tx_hash_of = λ tx. 9;
  recover_authorization = λ a. a;
}

abbrev some_fields : TxFields
some_fields = record {
  gas_limit = 50000;
  kind = call_of 8;
  value = 3;
  input = 1 ∷ [];
  nonce = 6;
  chain_id = some 5124;
}

abbrev some_fees : DynamicFees ℕ
some_fees = record { max_fee_per_gas = 20; max_priority_fee_per_gas = 2; access_list = 4 ∷ [] }

abbrev eth_env : TxEnv ℕ ℕ
eth_env = with_fees toy_txs 2 some_fields some_fees 77

eth_built : eth_from_recovered_tx toy_txs (eip1559_tx some_fields some_fees) 77 ≡ some eth_env
unfolding eth_from_recovered_tx
eth_built = refl

seismic_from_recovered_tx-drops_example :
    (message toy_txs (seismic_from_recovered_tx toy_txs (eip1559_tx some_fields some_fees) 77).base
      ≡ message toy_txs eth_env)
    × (fees_and_lists toy_txs
          (seismic_from_recovered_tx toy_txs (eip1559_tx some_fields some_fees) 77).base
        ≡ ([], none, [], 0, []))
seismic_from_recovered_tx-drops_example =
    seismic_from_recovered_tx-drops toy_txs (eip1559_tx some_fields some_fees) 77 eth_env eth_built
