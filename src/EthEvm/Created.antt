-- ===== src/EthEvm/Created.antt =====
-- From the factory to `finish`: what an EVM gives back after it was used.
use seismic_evm.Prelude.{if◌then◌else◌, ◌≡◌, refl, ap, ◌∙◌, Bool, true, false, List, [], ◌∷◌}
use seismic_evm.Types.{Address, Bytes, BlockEnv, CfgEnv}
use seismic_evm.EthEvm.{
  EthMachine, EthEvm, EthInner, new_builder, build, create_evm, create_evm_with_inspector,
  eth_evm_finish, eth_set_inspector_enabled, eth_transact_raw, eth_transact_system_call,
}
use seismic_evm.Env.{EvmEnv}

-- The ways to use an EVM.
pub data Use (k : EthMachine) : Type 0 where
  run_tx : k.Tx → Use k
  run_system_call : (caller contract : Address) → Bytes → Use k
  enable_inspector : (enabled : Bool) → Use k

module _ {k : EthMachine} where
  -- What only the setter of the inspector's flag changes.
  abbrev pub settings_of : EthEvm k → BlockEnv × CfgEnv k.Spec × Bool
  settings_of evm = (evm.block, evm.cfg, evm.inspect_flag)

  -- revm's runs keep the block, the configuration, and the flag, which they do not know.
  pub record KeepsSettings (i : EthInner k) : Type 0 where
    pub of_transact :
        (tx : k.Tx) (evm : EthEvm k) → settings_of (i.transact tx evm).1 ≡ settings_of evm
    pub of_inspect_tx :
        (tx : k.Tx) (evm : EthEvm k) → settings_of (i.inspect_tx tx evm).1 ≡ settings_of evm
    pub of_system_call :
        (caller contract : Address) (input : Bytes) (evm : EthEvm k)
        → settings_of (i.system_call_with_caller caller contract input evm).1 ≡ settings_of evm

  module _ (i : EthInner k) where
    abbrev pub used : Use k → EthEvm k → EthEvm k
    used (run_tx tx) evm = (eth_transact_raw i tx evm).1
    used (run_system_call caller contract input) evm =
        (eth_transact_system_call i caller contract input evm).1
    used (enable_inspector enabled) evm = eth_set_inspector_enabled enabled evm

    abbrev pub used_for : List (Use k) → EthEvm k → EthEvm k
    used_for [] evm = evm
    used_for (u ∷ us) evm = used_for us (used u evm)

  -- The last value of the inspector's flag.
  abbrev pub last_enabled : Bool → List (Use k) → Bool
  last_enabled enabled [] = enabled
  last_enabled enabled (run_tx tx ∷ us) = last_enabled enabled us
  last_enabled enabled (run_system_call caller contract input ∷ us) = last_enabled enabled us
  last_enabled enabled (enable_inspector b ∷ us) = last_enabled b us

  module _ (i : EthInner k) (keeps : KeepsSettings i) where
    settings-transact_raw :
        (tx : k.Tx) (evm : EthEvm k) → settings_of (eth_transact_raw i tx evm).1 ≡ settings_of evm
    unfolding eth_transact_raw
    settings-transact_raw tx evm = by_flag evm.inspect_flag
      where
        by_flag :
            (b : Bool)
            → settings_of ((if b then i.inspect_tx tx else i.transact tx) evm).1 ≡ settings_of evm
        by_flag true = keeps.of_inspect_tx tx evm
        by_flag false = keeps.of_transact tx evm

    settings-used_for :
        (us : List (Use k)) (evm : EthEvm k)
        → settings_of (used_for i us evm) ≡ (evm.block, evm.cfg, last_enabled evm.inspect_flag us)
    settings-used_for [] evm = refl
    settings-used_for (run_tx tx ∷ us) evm =
        settings-used_for us _
        ∙ ap (λ s. (s.0, s.1, last_enabled s.2 us)) (settings-transact_raw tx evm)
    settings-used_for (run_system_call caller contract input ∷ us) evm =
        settings-used_for us _
        ∙ ap (λ s. (s.0, s.1, last_enabled s.2 us)) (keeps.of_system_call caller contract input evm)
    settings-used_for (enable_inspector b ∷ us) evm = settings-used_for us _

    -- How the EVM runs a transaction, by the last value of the flag.
    abbrev pub RunsAs : Bool → EthEvm k → Type 0
    RunsAs enabled evm =
        (tx : k.Tx)
        → eth_transact_raw i tx evm ≡ (if enabled then i.inspect_tx tx else i.transact tx) evm

    transact_raw-flag :
        (enabled : Bool) (evm : EthEvm k) → evm.inspect_flag ≡ enabled → RunsAs enabled evm
    unfolding eth_transact_raw
    transact_raw-flag enabled evm same tx =
        ap (λ b. (if b then i.inspect_tx tx else i.transact tx) evm) same

    -- After any transactions, system calls and settings of the inspector's flag, an EVM of the
    -- factory gives back the environment that it was created from. It runs a transaction with
    -- inspection exactly if the flag was last enabled: at first it is disabled without an inspector
    -- and enabled with one. revm's runs are taken to keep the block and the configuration.
    pub eth_evm_finish-create_evm :
        (db : k.Database) (env : EvmEnv k.Spec) (inspector : k.Inspector) (us : List (Use k))
        → ((eth_evm_finish (used_for i us (create_evm db env))).1 ≡ env)
          × RunsAs (last_enabled false us) (used_for i us (create_evm db env))
          × ((eth_evm_finish (used_for i us (create_evm_with_inspector db env inspector))).1 ≡ env)
          × RunsAs
              (last_enabled true us)
              (used_for i us (create_evm_with_inspector db env inspector))
    unfolding create_evm create_evm_with_inspector new_builder build eth_evm_finish
    eth_evm_finish-create_evm db env inspector us =
        let plain = settings-used_for us (create_evm db env) in
        let inspected = settings-used_for us (create_evm_with_inspector db env inspector) in
        (
          ap (λ s. record { block_env = s.0; cfg_env = s.1 }) plain,
          transact_raw-flag _ _ (ap (λ s. s.2) plain),
          ap (λ s. record { block_env = s.0; cfg_env = s.1 }) inspected,
          transact_raw-flag _ _ (ap (λ s. s.2) inspected),
        )
