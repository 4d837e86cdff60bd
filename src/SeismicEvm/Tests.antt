-- ===== src/SeismicEvm/Tests.antt =====
-- The theorems on `SeismicEvm` at concrete inputs.
use seismic_evm.Prelude.{◌==◌, if◌then◌else◌, ok, err, ℕ, ◌≡◌, refl, true, false, none, [], ◌∷◌}
use seismic_evm.Prelude.Dict.{lookup}
use seismic_evm.Types.{Address, Account, success, ResultAndState}
use seismic_evm.Prelude.Keeps.{OnOk}
use seismic_evm.SeismicEvm.{
  Machine, SeismicEvm, Inner, system_tx, set_swapped, transact_raw, seismic_transact_system_call,
  seismic_finish_env,
}
use seismic_evm.SeismicEvm.SystemCall.{
  KeepsSettings, env-seismic_transact_system_call, state-seismic_transact_system_call,
}
use seismic_evm.Toy.{toy_info, toy_block}

abbrev toy_machine : Machine
toy_machine = record {
  AccessItem = Unit {0};
  Authorization = Unit {0};
  Spec = ℕ;
  Database = ℕ;
  Inspector = Unit {0};
  Precompile = Unit {0};
  Context = Unit {0};
  Failure = Unit {0};
  HaltReason = Unit {0};
  Keypair = Unit {0};
  seismic_with_rng_key = λ k. k;
  seismic_precompiles = tt;
  no_op_inspector = tt;
}

abbrev toy_account : Account
toy_account = record {
  info = toy_info;
  storage = [];
  status = record { created = false; self_destructed = false; touched = true };
  transaction_id = 0;
}

-- The caller and the contract, both touched.
abbrev two_accounts : ResultAndState (Unit {0})
two_accounts = record {
  result = success 100 [] [];
  state = (1, toy_account) ∷ (3, toy_account) ∷ [];
}

abbrev toy_inner : Inner toy_machine
toy_inner = record {
  inner_transact = λ tx s. (ok two_accounts, record s { database = 1 });
  inner_inspect_tx = λ tx s. (err tt, s);
}

abbrev toy_seismic_evm : SeismicEvm toy_machine
toy_seismic_evm = record {
  block = toy_block;
  cfg = record { chain_id = 5; spec = 0; disable_nonce_check = false };
  database = 0;
  evm_inspector = tt;
  evm_precompiles = tt;
  context = tt;
  inspect = false;
}

toy_inner-KeepsSettings : KeepsSettings toy_inner
toy_inner-KeepsSettings = record { keeps_transact = λ tx s. refl; keeps_inspect_tx = λ tx s. refl }

env-seismic_transact_system_call_example :
    seismic_finish_env (seismic_transact_system_call toy_inner 1 3 [] toy_seismic_evm).1
    ≡ seismic_finish_env toy_seismic_evm
env-seismic_transact_system_call_example =
    env-seismic_transact_system_call toy_inner toy_inner-KeepsSettings 1 3 [] toy_seismic_evm

toy_run :
    transact_raw toy_inner (system_tx 1 3 []) (set_swapped (30000000, 0, true) toy_seismic_evm)
    ≡ (ok two_accounts, record (set_swapped (30000000, 0, true) toy_seismic_evm) { database = 1 })
unfolding transact_raw
toy_run = refl

state-seismic_transact_system_call_example :
    OnOk
      (λ r' _.
        (r'.result ≡ two_accounts.result)
        × ((a : Address)
            → lookup a r'.state ≡ (if a == 3 then lookup a two_accounts.state else none)))
      (seismic_transact_system_call toy_inner 1 3 [] toy_seismic_evm)
state-seismic_transact_system_call_example =
    state-seismic_transact_system_call toy_inner 1 3 [] toy_seismic_evm
      (record (set_swapped (30000000, 0, true) toy_seismic_evm) { database = 1 }) two_accounts
      toy_run
