-- ===== src/OpEvm.antt =====
-- crates/op-evm/src/lib.rs: `OpEvm` and its factory. op_revm's EVM is a parameter, of the same shape
-- as the EVM that `EthEvm` wraps.
pub mod Created
use seismic_evm.Prelude.{if◌then◌else◌, Exec, ℕ, Bool, true, false}
use seismic_evm.Types.{Address, Bytes, BlockEnv, CfgEnv, ResultAndState}
use seismic_evm.Precompiles.{PrecompilesMap, new_map}
use seismic_evm.EthEvm.{EthMachine}
use seismic_evm.Env.{EvmEnv}

-- `OpEvm`, with the fields of the inner EVM.
pub record OpEvm (k : EthMachine) : Type 0 where
  pub block : BlockEnv
  pub cfg : CfgEnv k.Spec
  pub database : k.Database
  pub context : k.Context
  pub evm_inspector : k.Inspector
  pub evm_precompiles : PrecompilesMap k.Journal
  pub inspect_flag : Bool

-- How the inner EVM runs a transaction, with and without its inspector, and a system call.
pub record OpInner (k : EthMachine) : Type 0 where
  pub transact : k.Tx → Exec (OpEvm k) k.Failure (ResultAndState k.HaltReason)
  pub inspect_tx : k.Tx → Exec (OpEvm k) k.Failure (ResultAndState k.HaltReason)
  pub system_call_with_caller :
      (caller contract : Address) → Bytes → Exec (OpEvm k) k.Failure (ResultAndState k.HaltReason)

module _ {k : EthMachine} where
  -- `Evm::finish`
  unfoldable pub op_evm_finish : OpEvm k → k.Database × EvmEnv k.Spec
  op_evm_finish evm = (evm.database, record { block_env = evm.block; cfg_env = evm.cfg })

  -- `Evm::set_inspector_enabled`
  abbrev pub op_set_inspector_enabled : Bool → OpEvm k → OpEvm k
  op_set_inspector_enabled enabled evm = record evm { inspect_flag = enabled }

  -- `Evm::chain_id`
  abbrev pub op_chain_id : OpEvm k → ℕ
  op_chain_id evm = evm.cfg.chain_id

  -- `Evm::components`
  abbrev pub op_components : OpEvm k → k.Database × k.Inspector × PrecompilesMap k.Journal
  op_components evm = (evm.database, evm.evm_inspector, evm.evm_precompiles)

  module _ (i : OpInner k) where
    -- `Evm::transact_raw`
    unfoldable pub op_transact_raw : k.Tx → Exec (OpEvm k) k.Failure (ResultAndState k.HaltReason)
    op_transact_raw tx evm = (if evm.inspect_flag then i.inspect_tx tx else i.transact tx) evm

    -- `Evm::transact_system_call`
    abbrev pub op_transact_system_call :
        (caller contract : Address) → Bytes → Exec (OpEvm k) k.Failure (ResultAndState k.HaltReason)
    op_transact_system_call caller contract input = i.system_call_with_caller caller contract input

module _ {k : EthMachine} where
  -- `OpEvmFactory::create_evm`
  unfoldable pub op_create_evm : k.Database → EvmEnv k.Spec → OpEvm k
  unfolding new_map
  op_create_evm db input = record {
    block = input.block_env;
    cfg = input.cfg_env;
    database = db;
    context = k.new_context;
    evm_inspector = k.no_op_inspector;
    evm_precompiles = new_map (k.builtin_precompiles input.cfg_env.spec);
    inspect_flag = false;
  }

  -- `OpEvmFactory::create_evm_with_inspector`
  unfoldable pub op_create_evm_with_inspector : k.Database → EvmEnv k.Spec → k.Inspector → OpEvm k
  unfolding new_map
  op_create_evm_with_inspector db input inspector = record {
    block = input.block_env;
    cfg = input.cfg_env;
    database = db;
    context = k.new_context;
    evm_inspector = inspector;
    evm_precompiles = new_map (k.builtin_precompiles input.cfg_env.spec);
    inspect_flag = true;
  }
