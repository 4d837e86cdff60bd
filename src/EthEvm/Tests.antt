-- ===== src/EthEvm/Tests.antt =====
-- The theorem on the factory's EVMs at a concrete input.
use seismic_evm.Prelude.{ok, err, ℕ, ◌+◌, ◌≡◌, refl, true, false, none, List, [], ◌∷◌}
use seismic_evm.Precompiles.{Precompiles}
use seismic_evm.EthEvm.{EthMachine, EthInner, create_evm, create_evm_with_inspector, eth_evm_finish}
use seismic_evm.EthEvm.Created.{
  Use, run_tx, run_system_call, enable_inspector, KeepsSettings, used_for, RunsAs,
  eth_evm_finish-create_evm,
}
use seismic_evm.Toy.{toy_outcome, toy_block}
use seismic_evm.Env.{EvmEnv}

abbrev no_precompiles : Precompiles
no_precompiles = record { inner = []; get_builtin = λ a. none; builtin_addresses = [] }

abbrev toy_eth_machine : EthMachine
toy_eth_machine = record {
  Spec = ℕ;
  Database = ℕ;
  Inspector = ℕ;
  Journal = Unit {0};
  Context = ℕ;
  Tx = ℕ;
  Failure = Unit {0};
  HaltReason = Unit {0};
  new_context = 1;
  no_op_inspector = 0;
  builtin_precompiles = λ spec. no_precompiles;
}

-- A run writes to the database, and with inspection to the inspector.
abbrev toy_inner : EthInner toy_eth_machine
toy_inner = record {
  transact = λ tx evm. (ok toy_outcome, record evm { database = evm.database + tx });
  inspect_tx = λ tx evm. (
    ok toy_outcome,
    record evm { database = evm.database + tx; evm_inspector = evm.evm_inspector + 1 },
  );
  system_call_with_caller = λ caller contract input evm. (err tt, evm);
}

toy_keeps : KeepsSettings toy_inner
toy_keeps = record {
  of_transact = λ tx evm. refl;
  of_inspect_tx = λ tx evm. refl;
  of_system_call = λ caller contract input evm. refl;
}

abbrev toy_env : EvmEnv ℕ
toy_env = record {
  block_env = toy_block;
  cfg_env = record { chain_id = 1; spec = 4; disable_nonce_check = false };
}

abbrev toy_uses : List (Use toy_eth_machine)
toy_uses = run_tx 3 ∷ enable_inspector true ∷ run_system_call 1 2 [] ∷ run_tx 4 ∷ []

eth_evm_finish-create_evm_example :
    ((eth_evm_finish (used_for toy_inner toy_uses (create_evm 9 toy_env))).1 ≡ toy_env)
    × RunsAs toy_inner toy_keeps true (used_for toy_inner toy_uses (create_evm 9 toy_env))
    × ((eth_evm_finish (used_for toy_inner toy_uses (create_evm_with_inspector 9 toy_env 5))).1
        ≡ toy_env)
    × RunsAs toy_inner toy_keeps true
        (used_for toy_inner toy_uses (create_evm_with_inspector 9 toy_env 5))
eth_evm_finish-create_evm_example =
    eth_evm_finish-create_evm toy_inner toy_keeps 9 toy_env 5 toy_uses
