-- ===== src/SeismicExecutor/Tests.antt =====
-- The theorems on the Seismic executor at concrete inputs: a transaction below 1000 cannot be
-- decrypted, another one is decrypted by subtracting 1000.
use seismic_evm.Prelude.{
  ltb, if◌then◌else◌, Result, ok, err, ◌>>◌, ℕ, ◌-◌, ◌≡◌, refl, [], ◌∷◌, arith,
}
use seismic_evm.Platform.{ExecutableTx}
use seismic_evm.Executor.{execute_transactions, execute_block}
use seismic_evm.SeismicExecutor.{
  SeismicBlockExecutor, SeismicBlockExecutorFactory, decrypt, create_executor, on_inner,
}
use seismic_evm.SeismicExecutor.Refinement.{
  plaintexts, eth_block_of, seismic, execute_block-plaintexts,
}
use seismic_evm.Toy.{
  toy_types, toy_platform, toy_laws, toy_spec, toy_evm, toy_ctx, toy_builder, toy_executor, toy_tx,
  toy_tx-RespectsGasLimit,
}
use seismic_evm.Prelude.Keeps.{OnOk}
use seismic_evm.SeismicExecutor.Accounting.{SeismicAccounted, create_executor-SeismicAccounted}
use seismic_evm.EthExecutor.{eth_pre_execution_changes}
use seismic_evm.SeismicExecutor.Undecryptable.{refuses, execute_block-undecryptable}

abbrev toy_copy : ℕ → ℕ → Result (Unit {0}) ℕ
toy_copy sk tx = if ltb tx sk then err tt else ok (tx - sk)

abbrev toy_seismic : SeismicBlockExecutor toy_types ℕ (Unit {0})
toy_seismic = record {
  inner = toy_executor;
  purpose_keys = record { tx_io_sk = 1000; rng_keypair = tt };
}

abbrev encrypted : ExecutableTx toy_types
encrypted = record { tx = 1100; signer = 60; to_tx_env = 1100 }

execute_block-plaintexts_example :
    execute_block (seismic toy_platform toy_copy) (encrypted ∷ toy_tx ∷ []) toy_seismic
    ≡ on_inner
        (eth_block_of toy_platform toy_copy
          (plaintexts toy_platform toy_copy 1000 (encrypted ∷ toy_tx ∷ [])))
        toy_seismic
execute_block-plaintexts_example =
    execute_block-plaintexts toy_platform toy_copy (encrypted ∷ toy_tx ∷ []) toy_seismic

execute_block-undecryptable_example :
    execute_block (seismic toy_platform toy_copy) (encrypted ∷ toy_tx ∷ encrypted ∷ []) toy_seismic
    ≡ (on_inner (eth_pre_execution_changes toy_platform)
          >> (execute_transactions (seismic toy_platform toy_copy) (encrypted ∷ [])
              >> refuses toy_platform toy_copy tt))
        toy_seismic
execute_block-undecryptable_example =
    execute_block-undecryptable toy_platform toy_copy (encrypted ∷ []) (encrypted ∷ []) toy_tx tt
      toy_seismic refl

abbrev toy_factory : SeismicBlockExecutorFactory toy_types ℕ (Unit {0})
toy_factory = record {
  factory_receipt_builder = toy_builder;
  factory_spec = toy_spec;
  factory_purpose_keys = record { tx_io_sk = 1000; rng_keypair = tt };
}

create_executor-SeismicAccounted_example :
    OnOk
      (λ res _.
        SeismicAccounted toy_platform toy_copy toy_laws 1000
          (encrypted ∷ encrypted ∷ [])
          100000
          res)
      (execute_block
        (seismic toy_platform toy_copy)
        (encrypted ∷ encrypted ∷ [])
        (create_executor toy_factory toy_evm toy_ctx))
unfolding decrypt
create_executor-SeismicAccounted_example =
    create_executor-SeismicAccounted toy_platform toy_copy toy_laws toy_factory toy_evm toy_ctx
      (encrypted ∷ encrypted ∷ []) (λ ctx. refl) (omega arith)
      (toy_tx-RespectsGasLimit, (toy_tx-RespectsGasLimit, tt))
