-- ===== src/Overrides/Setters.antt =====
-- The environment's setters are the block overrides of the same fields.
use seismic_evm.Prelude.{u64_mod, saturating_u64_lem, ℕ, ◌<◌, ◌≡◌, refl, Option, none, some}
use seismic_evm.Prelude.Dict.{Dict}
use seismic_evm.Types.{B256}
use seismic_evm.Env.{EvmEnv, with_block_number_opt, with_timestamp_opt, with_base_fee_opt}
use seismic_evm.Overrides.{BlockOverrides, apply_block_overrides}

-- Overrides of what the setters set.
abbrev pub setter_overrides : (number time base_fee : Option ℕ) → BlockOverrides
setter_overrides number time base_fee = record {
  number = number;
  difficulty = none;
  time = time;
  gas_limit = none;
  coinbase = none;
  random = none;
  base_fee = base_fee;
  block_hash = none;
}

-- A base fee that is a `u64`, if there is one.
abbrev pub FitsU64 : Option ℕ → Type 0
FitsU64 none = Unit
FitsU64 (some fee) = fee < u64_mod

module _ {Spec : Type 0} where
  abbrev set_all : (number time base_fee : Option ℕ) → EvmEnv Spec → EvmEnv Spec
  set_all number time base_fee env =
      with_base_fee_opt base_fee (with_timestamp_opt time (with_block_number_opt number env))

  -- Setting the optional number, timestamp and base fee of an environment, one after another, is
  -- applying the block overrides of these, if the base fee is a `u64`.
  pub setters-apply_block_overrides :
      (number time base_fee : Option ℕ) (env : EvmEnv Spec) (hashes : Dict B256)
      → FitsU64 base_fee
      → (set_all number time base_fee env).block_env
        ≡ (apply_block_overrides (setter_overrides number time base_fee) (hashes, env.block_env)).1
  unfolding apply_block_overrides
  setters-apply_block_overrides none none none env hashes fits = refl
  setters-apply_block_overrides (some n) none none env hashes fits = refl
  setters-apply_block_overrides none (some s) none env hashes fits = refl
  setters-apply_block_overrides (some n) (some s) none env hashes fits = refl
  setters-apply_block_overrides none none (some f) env hashes fits =
      rw (saturating_u64_lem f fits) refl
  setters-apply_block_overrides (some n) none (some f) env hashes fits =
      rw (saturating_u64_lem f fits) refl
  setters-apply_block_overrides none (some s) (some f) env hashes fits =
      rw (saturating_u64_lem f fits) refl
  setters-apply_block_overrides (some n) (some s) (some f) env hashes fits =
      rw (saturating_u64_lem f fits) refl
