-- ===== src/EthEvm.antt =====
-- crates/evm/src/eth/mod.rs: `EthEvmBuilder`, `EthEvm` and its factory. revm's EVM is a parameter:
-- the fields that this crate reads or writes, and how it runs a transaction or a system call.
pub mod Created
mod Tests
use seismic_evm.Prelude.{if◌then◌else◌, Exec, ℕ, Bool, true, false, Option, none, some}
use seismic_evm.Types.{Address, Bytes, BlockEnv, CfgEnv, ResultAndState}
use seismic_evm.Precompiles.{Precompiles, PrecompilesMap, new_map}
use seismic_evm.Env.{EvmEnv}

-- The parameters: what an EVM is made of, what else its context holds (`Context::mainnet`, or
-- op_revm's `Context::op`), the builtin precompiles of a specification, and the results of a run.
pub record EthMachine : Type 1 where
  pub Spec : Type 0
  pub Database : Type 0
  pub Inspector : Type 0
  pub Journal : Type 0
  pub Context : Type 0
  pub Tx : Type 0
  pub Failure : Type 0
  pub HaltReason : Type 0
  pub new_context : Context
  pub no_op_inspector : Inspector
  pub builtin_precompiles : Spec → Precompiles

pub record EthEvmBuilder (k : EthMachine) : Type 0 where
  pub db : k.Database
  pub block_env : BlockEnv
  pub cfg_env : CfgEnv k.Spec
  pub inspector : k.Inspector
  pub inspect : Bool
  pub precompiles : Option (PrecompilesMap k.Journal)

-- `EthEvm`, with the fields of the inner EVM.
pub record EthEvm (k : EthMachine) : Type 0 where
  pub block : BlockEnv
  pub cfg : CfgEnv k.Spec
  pub database : k.Database
  pub context : k.Context
  pub evm_inspector : k.Inspector
  pub evm_precompiles : PrecompilesMap k.Journal
  pub inspect_flag : Bool

-- How the inner EVM runs a transaction, with and without its inspector, and a system call.
pub record EthInner (k : EthMachine) : Type 0 where
  pub transact : k.Tx → Exec (EthEvm k) k.Failure (ResultAndState k.HaltReason)
  pub inspect_tx : k.Tx → Exec (EthEvm k) k.Failure (ResultAndState k.HaltReason)
  pub system_call_with_caller :
      (caller contract : Address) → Bytes → Exec (EthEvm k) k.Failure (ResultAndState k.HaltReason)

-- The given precompiles, or else builtin ones.
abbrev pub precompiles_or_builtin :
    {Journal : Type 0} → Option (PrecompilesMap Journal) → Precompiles → PrecompilesMap Journal
precompiles_or_builtin (some p) defaults = p
precompiles_or_builtin none defaults = new_map defaults

module _ {k : EthMachine} where
  -- `EthEvmBuilder::new`
  unfoldable pub new_builder : k.Database → EvmEnv k.Spec → EthEvmBuilder k
  new_builder db env = record {
    db = db;
    block_env = env.block_env;
    cfg_env = env.cfg_env;
    inspector = k.no_op_inspector;
    inspect = false;
    precompiles = none;
  }

  -- `EthEvmBuilder::inspector`
  abbrev pub with_inspector : k.Inspector → EthEvmBuilder k → EthEvmBuilder k
  with_inspector inspector b = record b { inspector = inspector }

  -- `EthEvmBuilder::set_inspect`
  abbrev pub set_inspect : Bool → EthEvmBuilder k → EthEvmBuilder k
  set_inspect inspect b = record b { inspect = inspect }

  -- `EthEvmBuilder::activate_inspector`, which calls `inspector` and `inspect`.
  abbrev pub activate_inspector : k.Inspector → EthEvmBuilder k → EthEvmBuilder k
  activate_inspector inspector b = set_inspect true (with_inspector inspector b)

  -- `EthEvmBuilder::precompiles`
  abbrev pub with_precompiles : PrecompilesMap k.Journal → EthEvmBuilder k → EthEvmBuilder k
  with_precompiles precompiles b = record b { precompiles = some precompiles }

  -- `EthEvmBuilder::build`
  unfoldable pub build : EthEvmBuilder k → EthEvm k
  unfolding new_map
  build b = record {
    block = b.block_env;
    cfg = b.cfg_env;
    database = b.db;
    context = k.new_context;
    evm_inspector = b.inspector;
    evm_precompiles = precompiles_or_builtin b.precompiles (k.builtin_precompiles b.cfg_env.spec);
    inspect_flag = b.inspect;
  }

  -- `EthEvmFactory::create_evm`
  unfoldable pub create_evm : k.Database → EvmEnv k.Spec → EthEvm k
  unfolding new_builder build
  create_evm db input = build (new_builder db input)

  -- `EthEvmFactory::create_evm_with_inspector`
  unfoldable pub create_evm_with_inspector : k.Database → EvmEnv k.Spec → k.Inspector → EthEvm k
  unfolding new_builder build
  create_evm_with_inspector db input inspector =
      build (activate_inspector inspector (new_builder db input))

  -- `Evm::finish`
  unfoldable pub eth_evm_finish : EthEvm k → k.Database × EvmEnv k.Spec
  eth_evm_finish evm = (evm.database, record { block_env = evm.block; cfg_env = evm.cfg })

  -- `Evm::set_inspector_enabled`
  abbrev pub eth_set_inspector_enabled : Bool → EthEvm k → EthEvm k
  eth_set_inspector_enabled enabled evm = record evm { inspect_flag = enabled }

  -- `Evm::chain_id`
  abbrev pub eth_chain_id : EthEvm k → ℕ
  eth_chain_id evm = evm.cfg.chain_id

  -- `Evm::components`
  abbrev pub eth_components : EthEvm k → k.Database × k.Inspector × PrecompilesMap k.Journal
  eth_components evm = (evm.database, evm.evm_inspector, evm.evm_precompiles)

  module _ (i : EthInner k) where
    -- `Evm::transact_raw`
    unfoldable pub eth_transact_raw : k.Tx → Exec (EthEvm k) k.Failure (ResultAndState k.HaltReason)
    eth_transact_raw tx evm = (if evm.inspect_flag then i.inspect_tx tx else i.transact tx) evm

    -- `Evm::transact_system_call`
    abbrev pub eth_transact_system_call :
        (caller contract : Address)
        → Bytes
        → Exec (EthEvm k) k.Failure (ResultAndState k.HaltReason)
    eth_transact_system_call caller contract input = i.system_call_with_caller caller contract input
