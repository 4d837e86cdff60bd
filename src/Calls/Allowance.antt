-- ===== src/Calls/Allowance.antt =====
-- What the allowance is.
use seismic_evm.Prelude.{
  ltb, ltb→lt, ltb→le, Bool-cases, u64_max, saturating_u64, ok, err, Exec, ℕ, zero, suc, ◌+◌, ◌-◌,
  ◌*◌, ◌≤◌, ◌<◌, ◌≡◌, refl, ap, ◌⊎◌, inl, inr, Option, arith,
}
use seismic_evm.Types.{Address, AccountInfo}
use seismic_evm.Calls.{
  insufficient_funds, CallEnv, div_or_zero, balance_or_zero, caller_gas_allowance,
}
use native.Mathlib.Nat.{lt-div-mul-add}

affordable : (funds price : ℕ) → saturating_u64 (div_or_zero funds price) * price ≤ funds
unfolding saturating_u64
affordable funds zero = omega arith
affordable funds (suc price) = grind arith

most :
    (funds price : ℕ)
    → 0 < price
    → saturating_u64 (div_or_zero funds price) < u64_max
    → funds < (saturating_u64 (div_or_zero funds price) + 1) * price
unfolding saturating_u64
most funds zero positive small = omega arith
most funds (suc price) positive small =
    grind (arith, lt-div-mul-add {a = funds} {b = suc price} positive)

module _ {Db DbError : Type 0} (basic : Address → Exec Db DbError (Option AccountInfo)) where
  -- If the caller's account is loaded, the allowance is refused exactly when the balance is below
  -- the value that is sent; otherwise the caller can pay for the value and that much gas, and, if
  -- the allowance is below the largest `u64` and the gas price is not zero, for no more gas.
  pub caller_gas_allowance-affordable :
      (env : CallEnv) (db db' : Db) (account : Option AccountInfo)
      → basic env.caller db ≡ (ok account, db')
      → ((balance_or_zero account < env.value)
          × ((caller_gas_allowance basic env db).0
              ≡ err (insufficient_funds env.value (balance_or_zero account))))
        ⊎ ((gas : ℕ) × ((caller_gas_allowance basic env db).0 ≡ ok gas)
            × (env.value + gas * env.gas_price ≤ balance_or_zero account)
            × (0 < env.gas_price
                → gas < u64_max
                → balance_or_zero account < env.value + (gas + 1) * env.gas_price))
  unfolding caller_gas_allowance
  caller_gas_allowance-affordable env db db' account loaded =
      let balance = balance_or_zero account in
      let gas = saturating_u64 (div_or_zero (balance - env.value) env.gas_price) in
      elim (Bool-cases (ltb balance env.value)) [
        | inl short ↦ inl (ltb→lt _ _ short, rw (ap (λ o. o.0) loaded) (rw short refl))
        | inr enough ↦ inr (
          gas,
          rw (ap (λ o. o.0) loaded) (rw enough refl),
          omega (arith, ltb→le _ _ enough, affordable (balance - env.value) env.gas_price),
          λ positive small.
              omega
                (arith, ltb→le _ _ enough, most (balance - env.value) env.gas_price positive small),
        )
      ]
