-- ===== src/Calls.antt =====
-- crates/evm/src/call.rs: the gas that the caller of a simulated call can pay for. The database's
-- `basic` is a parameter.
use seismic_evm.Prelude.{
  ltb, if◌then◌else◌, saturating_u64, Result, ok, err, Exec, ℕ, zero, suc, ◌-◌, ◌/◌, Option, none,
  some,
}
use seismic_evm.Types.{Address, AccountInfo}
pub mod Allowance
mod Tests

pub data CallError (DbError : Type 0) : Type 0 where
  database_error : DbError → CallError DbError
  insufficient_funds : (cost balance : ℕ) → CallError DbError

-- The fields of a transaction's environment that are read.
pub record CallEnv : Type 0 where
  pub caller : Address
  pub value : ℕ
  pub gas_price : ℕ

-- `U256::checked_div(..).unwrap_or_default()`
abbrev pub div_or_zero : ℕ → ℕ → ℕ
div_or_zero a zero = 0
div_or_zero a (suc b) = a / suc b

abbrev pub balance_or_zero : Option AccountInfo → ℕ
balance_or_zero none = 0
balance_or_zero (some acc) = acc.balance

module _ {Db DbError : Type 0} (basic : Address → Exec Db DbError (Option AccountInfo)) where
  -- The allowance, once the caller's account is loaded.
  abbrev pub allowance_of : CallEnv → ℕ → Result (CallError DbError) ℕ
  allowance_of env balance =
      if ltb balance env.value
      then err (insufficient_funds env.value balance)
      else ok (saturating_u64 (div_or_zero (balance - env.value) env.gas_price))

  unfoldable pub caller_gas_allowance : CallEnv → Exec Db (CallError DbError) ℕ
  caller_gas_allowance env db =
      let (r, db') = basic env.caller db in
      (
        elim r [
          | err e ↦ err (database_error e)
          | ok caller ↦ allowance_of env (balance_or_zero caller)
        ],
        db',
      )
