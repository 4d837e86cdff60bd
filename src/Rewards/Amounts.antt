-- ===== src/Rewards/Amounts.antt =====
-- The rewards follow the yellow paper's formulas, with no wrap-around.
use seismic_evm.Prelude.{
  u64_mod, u128_mod, add_u64, sub_u64, add_u128, mul_u128, ℕ, ◌+◌, ◌-◌, ◌*◌, ◌/◌, ◌^◌, ◌≤◌, ◌<◌,
  ◌≡◌, arith,
}
use seismic_evm.Rewards.{block_reward, ommer_reward}

mul_u128_lem : (a b n : ℕ) → a ≤ n → n * b < u128_mod → mul_u128 a b ≡ a * b
unfolding mul_u128
mul_u128_lem a b n le h = let below : a * b ≤ n * b = grind arith in omega (arith, below)

ommer_depth :
    (ommer distance : ℕ)
    → distance ≤ 8
    → ommer + 8 < u64_mod
    → sub_u64 (add_u64 8 ommer) (ommer + distance) ≡ 8 - distance
unfolding add_u64 sub_u64
ommer_depth ommer distance hd ho = omega arith

-- An ommer's reward shrinks by an eighth of the base reward for each block of distance: for an
-- ommer at most eight blocks below the block, an ommer number below 2^64 - 8 and a base reward
-- below 2^124, it is (8 - distance) / 8 of the base reward, rounded down.
pub ommer_reward-by_distance :
    (base ommer distance : ℕ)
    → base < 2 ^ 124
    → distance ≤ 8
    → ommer + 8 < u64_mod
    → ommer_reward base (ommer + distance) ommer ≡ (8 - distance) * base / 8
unfolding ommer_reward
ommer_reward-by_distance base ommer distance hb hd ho =
    rw (ommer_depth ommer distance hd ho)
      (rw (mul_u128_lem (8 - distance) base 8 (omega arith) (omega arith)))

-- A block's reward is its base reward and a 32nd of it, rounded down, for each ommer: for a base
-- reward below 2^120 and at most 32 ommers.
pub block_reward-exact :
    (base ommers : ℕ)
    → base < 2 ^ 120
    → ommers ≤ 32
    → block_reward base ommers ≡ base + base / 32 * ommers
unfolding block_reward add_u128 mul_u128
block_reward-exact base ommers hb ho =
    let below : base / 32 * ommers ≤ base / 32 * 32 = grind arith in omega (arith, below)
