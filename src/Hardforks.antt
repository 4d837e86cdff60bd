-- ===== src/Hardforks.antt =====
-- crates/seismic-evm/src/hardfork.rs: the hardforks of Seismic chains.
-- alloy_hardforks' `EthereumHardfork` is a parameter: its order, by numbers.
use seismic_evm.Prelude.{ltb, if◌then◌else◌, ℕ, Bool, Option, none, List, [], ◌∷◌}
use seismic_evm.Types.{Address}

-- The conditions of alloy_hardforks' `ForkCondition` that the crates return.
pub data ForkCondition : Type 0 where
  at_block : ℕ → ForkCondition
  never : ForkCondition

pub data SeismicHardfork : Type 0 where
  mercury : SeismicHardfork

pub record SeismicChainHardforks : Type 0 where
  pub forks : List (SeismicHardfork × ForkCondition)

-- `SeismicHardfork::seismic_mainnet`
abbrev pub seismic_mainnet_forks : List (SeismicHardfork × ForkCondition)
seismic_mainnet_forks = (mercury, at_block 0) ∷ []

-- `SeismicChainHardforks::new`, with the sort of the list as a parameter.
unfoldable pub new_hardforks :
    (List (SeismicHardfork × ForkCondition) → List (SeismicHardfork × ForkCondition))
    → List (SeismicHardfork × ForkCondition)
    → SeismicChainHardforks
new_hardforks sort forks = record { forks = sort forks }

unfoldable pub seismic_fork_activation : SeismicChainHardforks → SeismicHardfork → ForkCondition
seismic_fork_activation chain fork = at_block 0

-- The order of `EthereumHardfork`, by the position of each in its declaration.
pub record EthereumHardforkOrder : Type 1 where
  pub EthereumHardfork : Type 0
  pub position : EthereumHardfork → ℕ
  pub prague : EthereumHardfork
  -- `ForkCondition::active_at_timestamp_or_number` and its kin
  pub active_at : ForkCondition → (timestamp number : ℕ) → Bool

module _ (o : EthereumHardforkOrder) where
  unfoldable pub ethereum_fork_activation :
      SeismicChainHardforks → o.EthereumHardfork → ForkCondition
  ethereum_fork_activation chain fork =
      if ltb (o.position fork) (o.position o.prague) then at_block 0 else never

-- `EthExecutorSpec::deposit_contract_address`
unfoldable pub seismic_deposit_contract_address : SeismicChainHardforks → Option Address
seismic_deposit_contract_address chain = none
