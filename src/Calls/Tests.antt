-- ===== src/Calls/Tests.antt =====
-- The theorem on the allowance at a concrete input: a balance of 10, of which 3 are sent.
use seismic_evm.Prelude.{
  u64_max, saturating_u64, ok, err, Exec, ℕ, ◌+◌, ◌*◌, ◌≤◌, ◌<◌, ◌≡◌, refl, ◌⊎◌, Option, some,
}
use seismic_evm.Types.{Address, AccountInfo}
use seismic_evm.Calls.{insufficient_funds, CallEnv, caller_gas_allowance}
use seismic_evm.Calls.Allowance.{caller_gas_allowance-affordable}
use seismic_evm.Toy.{toy_info}

abbrev toy_basic : Address → Exec ℕ (Unit {0}) (Option AccountInfo)
toy_basic a db = (ok (some toy_info), db)

abbrev toy_env : CallEnv
toy_env = record { caller = 60; value = 3; gas_price = 2 }

caller_gas_allowance-affordable_example :
    ((10 < 3) × ((caller_gas_allowance toy_basic toy_env 0).0 ≡ err (insufficient_funds 3 10)))
    ⊎ ((gas : ℕ) × ((caller_gas_allowance toy_basic toy_env 0).0 ≡ ok gas)
        × (3 + gas * 2 ≤ 10)
        × (0 < 2 → gas < u64_max → 10 < 3 + (gas + 1) * 2))
caller_gas_allowance-affordable_example =
    caller_gas_allowance-affordable toy_basic toy_env 0 0 (some toy_info) refl

allowance_of_three : (caller_gas_allowance toy_basic toy_env 0).0 ≡ ok 3
unfolding caller_gas_allowance saturating_u64
allowance_of_three = refl
