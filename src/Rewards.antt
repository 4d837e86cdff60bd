-- ===== src/Rewards.antt =====
-- crates/evm/src/block/calc.rs: rewards in wei, as `u128`.
pub mod Amounts
mod Tests
use seismic_evm.Prelude.{
  if◌then◌else◌, add_u64, sub_u64, add_u128, mul_u128, ℕ, ◌/◌, ◌^◌, Option, none, some,
}
use seismic_evm.Platform.{Constants}
use seismic_evm.Spec.{EthExecutorSpec}

module _ (c : Constants) where
  unfoldable pub base_block_reward_pre_merge : EthExecutorSpec → ℕ → ℕ
  base_block_reward_pre_merge spec block_number =
      if spec.is_constantinople_active_at_block block_number
      then mul_u128 c.eth_to_wei 2
      else if spec.is_byzantium_active_at_block block_number
      then mul_u128 c.eth_to_wei 3
      else mul_u128 c.eth_to_wei 5

  unfoldable pub base_block_reward : EthExecutorSpec → ℕ → Option ℕ
  base_block_reward spec block_number =
      if spec.is_paris_active_at_block block_number
      then none
      else some (base_block_reward_pre_merge spec block_number)

-- `base_block_reward >> 5` for each ommer, on top of the base reward.
unfoldable pub block_reward : ℕ → ℕ → ℕ
block_reward base_block_reward ommers =
    add_u128 base_block_reward (mul_u128 (base_block_reward / 2 ^ 5) ommers)

unfoldable pub ommer_reward : ℕ → ℕ → ℕ → ℕ
ommer_reward base_block_reward block_number ommer_block_number =
    mul_u128 (sub_u64 (add_u64 8 ommer_block_number) block_number) base_block_reward / 2 ^ 3
