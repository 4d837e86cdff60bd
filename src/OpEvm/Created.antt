-- ===== src/OpEvm/Created.antt =====
-- Optimism's EVMs are made, finished and run as Ethereum's are.
use seismic_evm.Prelude.{◌≡◌, refl}
use seismic_evm.EthEvm.{
  EthMachine, EthEvm, EthInner, new_builder, build, create_evm, create_evm_with_inspector,
  eth_evm_finish, eth_transact_raw,
}
use seismic_evm.OpEvm.{
  OpEvm, OpInner, op_evm_finish, op_transact_raw, op_create_evm, op_create_evm_with_inspector,
}
use seismic_evm.Env.{EvmEnv}

-- An Optimism EVM as an Ethereum EVM.
abbrev pub as_eth : {k : EthMachine} → OpEvm k → EthEvm k
as_eth evm = record {
  block = evm.block;
  cfg = evm.cfg;
  database = evm.database;
  context = evm.context;
  evm_inspector = evm.evm_inspector;
  evm_precompiles = evm.evm_precompiles;
  inspect_flag = evm.inspect_flag;
}

-- An ended run, with the EVM as an Ethereum EVM.
abbrev pub ended_as_eth : {k : EthMachine} {R : Type 0} → R × OpEvm k → R × EthEvm k
ended_as_eth (r, evm) = (r, as_eth evm)

module _ {k : EthMachine} where
  -- Two inner EVMs that run transactions in the same way.
  pub record SameRuns (i : OpInner k) (j : EthInner k) : Type 0 where
    pub same_transact :
        (tx : k.Tx) (evm : OpEvm k) → ended_as_eth (i.transact tx evm) ≡ j.transact tx (as_eth evm)
    pub same_inspect_tx :
        (tx : k.Tx) (evm : OpEvm k)
        → ended_as_eth (i.inspect_tx tx evm) ≡ j.inspect_tx tx (as_eth evm)

  -- An Optimism EVM of the factory runs a transaction, inspects it and gives back its environment
  -- as Ethereum's, if the inner EVMs run transactions in the same way.
  pub op_transact_raw-eth :
      (i : OpInner k) (j : EthInner k)
      → SameRuns i j
      → (db : k.Database) (env : EvmEnv k.Spec) (inspector : k.Inspector) (tx : k.Tx)
      → (ended_as_eth (op_transact_raw i tx (op_create_evm db env))
          ≡ eth_transact_raw j tx (create_evm db env))
        × (ended_as_eth (op_transact_raw i tx (op_create_evm_with_inspector db env inspector))
            ≡ eth_transact_raw j tx (create_evm_with_inspector db env inspector))
        × (op_evm_finish (op_create_evm {k = k} db env)
            ≡ eth_evm_finish (create_evm {k = k} db env))
  unfolding op_transact_raw eth_transact_raw op_create_evm op_create_evm_with_inspector create_evm
      create_evm_with_inspector new_builder build op_evm_finish eth_evm_finish
  op_transact_raw-eth i j same db env inspector tx =
      (same.same_transact tx _, same.same_inspect_tx tx _, refl)
