-- ===== src/Either.antt =====
-- crates/evm/src/either.rs, and the default methods of the trait `Evm` of crates/evm/src/evm.rs:
-- an EVM that is either of two EVMs.
pub mod Defaults
use seismic_evm.Prelude.{ok, Exec, ◌>>=◌, ◌>>◌, ℕ, Bool, true, false}
use seismic_evm.Types.{Address, Bytes, BlockEnv, EvmState, ExecutionResult, ResultAndState}
use seismic_evm.Env.{EvmEnv}

-- The associated types of `Evm`.
pub record EvmTypes : Type 1 where
  pub Db : Type 0
  pub Tx : Type 0
  pub Failure : Type 0
  pub HaltReason : Type 0
  pub Spec : Type 0
  pub Precompile : Type 0
  pub Inspector : Type 0
  -- `DatabaseCommit::commit`
  pub commit : EvmState → Db → Db

-- The methods of `Evm` that an implementation has or overrides; `set_components` is a write through
-- `components_mut`.
pub record EvmMethods (k : EvmTypes) (E : Type 0) : Type 0 where
  pub block : E → BlockEnv
  pub chain_id : E → ℕ
  pub transact_raw : k.Tx → Exec E k.Failure (ResultAndState k.HaltReason)
  pub transact : k.Tx → Exec E k.Failure (ResultAndState k.HaltReason)
  pub transact_system_call :
      (caller contract : Address) → Bytes → Exec E k.Failure (ResultAndState k.HaltReason)
  pub transact_commit : k.Tx → Exec E k.Failure (ExecutionResult k.HaltReason)
  pub finish : E → k.Db × EvmEnv k.Spec
  pub into_db : E → k.Db
  pub into_env : E → EvmEnv k.Spec
  pub set_inspector_enabled : Bool → E → E
  pub enable_inspector : E → E
  pub disable_inspector : E → E
  pub components : E → k.Db × k.Inspector × k.Precompile
  pub set_components : k.Db × k.Inspector × k.Precompile → E → E

pub data Either (L R : Type 0) : Type 0 where
  left : L → Either L R
  right : R → Either L R

module _ {L R : Type 0} where
  -- `for_both!` of a method that reads.
  abbrev pub read_both : {A : Type 0} → (L → A) → (R → A) → Either L R → A
  read_both f g (left evm) = f evm
  read_both f g (right evm) = g evm

  -- `for_both!` of a method that writes.
  abbrev pub write_both : (L → L) → (R → R) → Either L R → Either L R
  write_both f g (left evm) = left (f evm)
  write_both f g (right evm) = right (g evm)

  -- `for_both!` of a method that writes and returns a result.
  abbrev pub run_both : {Err A : Type 0} → Exec L Err A → Exec R Err A → Exec (Either L R) Err A
  run_both f g (left evm) = let (r, evm') = f evm in (r, left evm')
  run_both f g (right evm) = let (r, evm') = g evm in (r, right evm')

-- `impl Evm for Either`
abbrev pub either_evm :
    {k : EvmTypes} {L R : Type 0} → EvmMethods k L → EvmMethods k R → EvmMethods k (Either L R)
either_evm l r = record {
  block = read_both l.block r.block;
  chain_id = read_both l.chain_id r.chain_id;
  transact_raw = λ tx. run_both (l.transact_raw tx) (r.transact_raw tx);
  transact = λ tx. run_both (l.transact tx) (r.transact tx);
  transact_system_call = λ caller contract input.
      run_both (l.transact_system_call caller contract input)
        (r.transact_system_call caller contract input);
  transact_commit = λ tx. run_both (l.transact_commit tx) (r.transact_commit tx);
  finish = read_both l.finish r.finish;
  into_db = read_both l.into_db r.into_db;
  into_env = read_both l.into_env r.into_env;
  set_inspector_enabled =
      λ enabled. write_both (l.set_inspector_enabled enabled) (r.set_inspector_enabled enabled);
  enable_inspector = write_both l.enable_inspector r.enable_inspector;
  disable_inspector = write_both l.disable_inspector r.disable_inspector;
  components = read_both l.components r.components;
  set_components = λ parts. write_both (l.set_components parts) (r.set_components parts);
}

module _ {k : EvmTypes} {E : Type 0} (m : EvmMethods k E) where
  -- `Evm::db` and a write through `Evm::db_mut`
  abbrev pub evm_db : E → k.Db
  evm_db evm = (m.components evm).0

  abbrev pub set_evm_db : k.Db → E → E
  set_evm_db db evm =
      let (old, inspector, precompiles) = m.components evm in
      m.set_components (db, inspector, precompiles) evm

  -- `Evm::inspector` and `Evm::precompiles`
  abbrev pub evm_inspector_of : E → k.Inspector
  evm_inspector_of evm = (m.components evm).1

  abbrev pub evm_precompiles_of : E → k.Precompile
  evm_precompiles_of evm = (m.components evm).2

  -- The default `Evm::transact_commit`
  unfoldable pub default_transact_commit : k.Tx → Exec E k.Failure (ExecutionResult k.HaltReason)
  default_transact_commit tx = do
    outcome ← m.transact tx
    λ evm. (ok outcome.result, set_evm_db (k.commit outcome.state (evm_db evm)) evm)

  -- The default `Evm::into_db` and `Evm::into_env`
  abbrev pub default_into_db : E → k.Db
  default_into_db evm = (m.finish evm).0

  abbrev pub default_into_env : E → EvmEnv k.Spec
  default_into_env evm = (m.finish evm).1

  -- The default `Evm::enable_inspector` and `Evm::disable_inspector`
  abbrev pub default_enable_inspector : E → E
  default_enable_inspector evm = m.set_inspector_enabled true evm

  abbrev pub default_disable_inspector : E → E
  default_disable_inspector evm = m.set_inspector_enabled false evm
