-- ===== src/Env.antt =====
-- crates/evm/src/env.rs: the environment of an EVM and its setters. A setter by value and one by
-- reference are the same function.
use seismic_evm.Prelude.{ℕ, Option, none, some}
use seismic_evm.Types.{BlockEnv, CfgEnv}

pub record EvmEnv (Spec : Type 0) : Type 0 where
  pub block_env : BlockEnv
  pub cfg_env : CfgEnv Spec

module _ {Spec : Type 0} where
  -- `EvmEnv::new`
  abbrev pub new_env : CfgEnv Spec → BlockEnv → EvmEnv Spec
  new_env cfg_env block_env = record { block_env = block_env; cfg_env = cfg_env }

  -- `EvmEnv::chainid` and `EvmEnv::spec_id`
  abbrev pub chainid : EvmEnv Spec → ℕ
  chainid env = env.cfg_env.chain_id

  abbrev pub spec_id : EvmEnv Spec → Spec
  spec_id env = env.cfg_env.spec

  abbrev pub with_block_number : ℕ → EvmEnv Spec → EvmEnv Spec
  with_block_number number env = record env { block_env = record env.block_env { number = number } }

  abbrev pub with_timestamp : ℕ → EvmEnv Spec → EvmEnv Spec
  with_timestamp timestamp env = record env {
    block_env = record env.block_env { timestamp = timestamp };
  }

  abbrev pub with_base_fee : ℕ → EvmEnv Spec → EvmEnv Spec
  with_base_fee base_fee env = record env {
    block_env = record env.block_env { basefee = base_fee };
  }

  -- `with_block_number_opt` and `set_block_number_opt`
  abbrev pub with_block_number_opt : Option ℕ → EvmEnv Spec → EvmEnv Spec
  with_block_number_opt none env = env
  with_block_number_opt (some number) env = with_block_number number env

  -- `with_timestamp_opt` and `set_timestamp_opt`
  abbrev pub with_timestamp_opt : Option ℕ → EvmEnv Spec → EvmEnv Spec
  with_timestamp_opt none env = env
  with_timestamp_opt (some timestamp) env = with_timestamp timestamp env

  -- `with_base_fee_opt` and `set_base_fee_opt`
  abbrev pub with_base_fee_opt : Option ℕ → EvmEnv Spec → EvmEnv Spec
  with_base_fee_opt none env = env
  with_base_fee_opt (some base_fee) env = with_base_fee base_fee env
