-- ===== src/Spec.antt =====
-- The chain specification that the Ethereum executor asks: `EthereumHardforks` of alloy_hardforks,
-- and `EthExecutorSpec` of crates/evm/src/eth/spec.rs.
use seismic_evm.Prelude.{ℕ, Bool, Option, some}
use seismic_evm.Types.{Address}

pub record EthExecutorSpec : Type 0 where
  pub is_byzantium_active_at_block : ℕ → Bool
  pub is_constantinople_active_at_block : ℕ → Bool
  pub is_spurious_dragon_active_at_block : ℕ → Bool
  pub is_paris_active_at_block : ℕ → Bool
  pub is_shanghai_active_at_timestamp : ℕ → Bool
  pub is_cancun_active_at_timestamp : ℕ → Bool
  pub is_prague_active_at_timestamp : ℕ → Bool
  -- `ethereum_fork_activation(Dao).transitions_at_block`
  pub dao_transitions_at_block : ℕ → Bool
  pub deposit_contract_address : Option Address

-- `EthSpec`, over the hardforks of a chain (`EthereumChainHardforks`).
pub record EthSpec (ChainHardforks : Type 0) : Type 0 where
  pub hardforks : ChainHardforks
  pub spec_deposit_contract_address : Option Address

module _ {ChainHardforks : Type 0} where
  -- `EthSpec::mainnet`, from the chain's hardforks and alloy's address of its deposit contract.
  abbrev pub mainnet_spec : ChainHardforks → Address → EthSpec ChainHardforks
  mainnet_spec hardforks mainnet_deposit_contract_address = record {
    hardforks = hardforks;
    spec_deposit_contract_address = some mainnet_deposit_contract_address;
  }

  -- `EthSpec::sepolia`
  abbrev pub sepolia_spec : ChainHardforks → EthSpec ChainHardforks
  sepolia_spec hardforks = record {
    hardforks = hardforks;
    spec_deposit_contract_address = some 0x7f02c3e3c98b133055b8b348b2ac625669ed295d;
  }

  -- `EthSpec::holesky`
  abbrev pub holesky_spec : ChainHardforks → EthSpec ChainHardforks
  holesky_spec hardforks = record {
    hardforks = hardforks;
    spec_deposit_contract_address = some 0x4242424242424242424242424242424242424242;
  }
