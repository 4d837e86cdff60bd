-- ===== src/Rewards/Tests.antt =====
-- Tests of the rewards, and the theorems at concrete inputs.
use seismic_evm.Prelude.{add_u128, mul_u128, ◌+◌, ◌*◌, ◌/◌, ◌≡◌, refl, arith}
use seismic_evm.Rewards.{block_reward, ommer_reward}
use seismic_evm.Rewards.Amounts.{ommer_reward-by_distance, block_reward-exact}

-- The documented example: 5 ETH and one ommer.
block_reward_five_eth :
    block_reward 5000000000000000000 1 ≡ 5000000000000000000 + 156250000000000000
unfolding block_reward add_u128 mul_u128
block_reward_five_eth = refl

ommer_reward-by_distance_example :
    ommer_reward 5000000000000000000 (125 + 1) 125 ≡ 7 * 5000000000000000000 / 8
ommer_reward-by_distance_example =
    ommer_reward-by_distance 5000000000000000000 125 1 (omega arith) (omega arith) (omega arith)

block_reward-exact_example :
    block_reward 5000000000000000000 2 ≡ 5000000000000000000 + 5000000000000000000 / 32 * 2
block_reward-exact_example = block_reward-exact 5000000000000000000 2 (omega arith) (omega arith)
