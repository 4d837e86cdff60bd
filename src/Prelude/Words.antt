-- ===== src/Prelude/Words.antt =====
-- The machine integers of the Rust sources, as natural numbers with the arithmetic of a release
-- build: `+`, `-` and `*` wrap around, and a conversion is saturating or truncating as written.
use Prim.Native.Nat.{ℕ, ◌+◌, ◌-◌, ◌*◌, ◌%◌, ◌^◌, ◌≤◌, ◌<◌}
use mathlib.Core.Path.{◌≡◌}
use native.Mathlib.Omega.{arith}
use seismic_evm.Prelude.Tests.{leb, if◌then◌else◌}

abbrev pub u64_mod : ℕ
u64_mod = 2 ^ 64

abbrev pub u128_mod : ℕ
u128_mod = 2 ^ 128

abbrev pub u64_max : ℕ
u64_max = 2 ^ 64 - 1

unfoldable pub add_u64 : ℕ → ℕ → ℕ
add_u64 a b = (a + b) % u64_mod

unfoldable pub sub_u64 : ℕ → ℕ → ℕ
sub_u64 a b = (a + u64_mod - b) % u64_mod

unfoldable pub add_u128 : ℕ → ℕ → ℕ
add_u128 a b = (a + b) % u128_mod

unfoldable pub mul_u128 : ℕ → ℕ → ℕ
mul_u128 a b = (a * b) % u128_mod

-- `U256::saturating_to::<u64>`
unfoldable pub saturating_u64 : ℕ → ℕ
saturating_u64 n = if leb n u64_max then n else u64_max

pub add_u64_lem : (a b : ℕ) → a + b < u64_mod → add_u64 a b ≡ a + b
unfolding add_u64
add_u64_lem a b h = omega arith

pub sub_u64_lem : (a b : ℕ) → b ≤ a → a < u64_mod → sub_u64 a b ≡ a - b
unfolding sub_u64
sub_u64_lem a b h k = omega arith

pub add_u128_lem : (a b : ℕ) → a + b < u128_mod → add_u128 a b ≡ a + b
unfolding add_u128
add_u128_lem a b h = omega arith

pub saturating_u64_lem : (n : ℕ) → n < u64_mod → saturating_u64 n ≡ n
unfolding saturating_u64
saturating_u64_lem n h = ground arith
