-- ===== src/Platform/Laws.antt =====
-- What the executors rely on of the EVM and its database, as named hypotheses: documented
-- behaviour of revm. Running a transaction or a system call does not change the block's settings,
-- a write through `db_mut` is read back and changes nothing else, and a transaction uses at most
-- the gas that it was given.
use seismic_evm.Prelude.{Result, ok, ◌≤◌, ◌≡◌, sym, ap, ◌∙◌}
use seismic_evm.Types.{Address, Bytes, Types, gas_used_of, ResultAndState}
use seismic_evm.Errors.{EvmError}
use seismic_evm.Platform.{Platform, ExecutableTx}

pub record EvmLaws {t : Types} (p : Platform t) : Type 0 where
  pub db-set_db : (e : t.Evm) (d : t.Db) → p.db (p.set_db e d) ≡ d
  pub block-set_db : (e : t.Evm) (d : t.Db) → p.block (p.set_db e d) ≡ p.block e
  pub block-transact : (x : t.TxEnv) (e : t.Evm) → p.block (p.transact x e).1 ≡ p.block e
  pub block-system_call :
      (caller contract : Address) (input : Bytes) (e : t.Evm)
      → p.block (p.transact_system_call caller contract input e).1 ≡ p.block e

-- A transaction's environment hands the EVM the transaction's gas limit: the gas that a run of it
-- uses is at most that.
abbrev pub RespectsGasLimit : {t : Types} → Platform t → ExecutableTx t → Type 0
RespectsGasLimit {t} p x =
    (e e' : t.Evm) (r : ResultAndState t.HaltReason)
    → p.transact x.to_tx_env e ≡ (ok r, e')
    → gas_used_of r.result ≤ p.tx_gas_limit x.tx

module _ {t : Types} {p : Platform t} (laws : EvmLaws p) where
  pub block_of_transact :
      {x : t.TxEnv} {e e' : t.Evm} {r : Result (EvmError t) (ResultAndState t.HaltReason)}
      → p.transact x e ≡ (r, e')
      → p.block e' ≡ p.block e
  block_of_transact {x} {e} h = ap (λ o. p.block o.1) (sym h) ∙ laws.block-transact x e
