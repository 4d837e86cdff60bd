-- ===== src/Internals.antt =====
-- crates/evm/src/traits.rs: `EvmInternals`, the part of an EVM that a precompile can reach, over any
-- journal. The journal and its database are parameters; an erased error keeps the error's value.
pub mod Erased
use seismic_evm.Prelude.{map_err, Exec, ℕ, Option}
use seismic_evm.Types.{Address, B256, BlockEnv, AccountInfo, Account, Log}

-- The types of revm's journal: bytecode, what a load returns, and the error of the database.
pub record JournalTypes : Type 1 where
  pub Code : Type 0
  pub Load : Type 0 → Type 0
  pub StoreResult : Type 0
  pub FlaggedStorage : Type 0
  pub Failure : Type 0

-- revm's `JournalTr` and the `Database` that it holds.
pub record Journal (k : JournalTypes) (J : Type 0) : Type 0 where
  pub basic : Address → Exec J k.Failure (Option AccountInfo)
  pub code_by_hash : B256 → Exec J k.Failure k.Code
  pub storage : Address → ℕ → Exec J k.Failure k.FlaggedStorage
  pub block_hash : ℕ → Exec J k.Failure B256
  pub load_account : Address → Exec J k.Failure (k.Load Account)
  pub load_account_code : Address → Exec J k.Failure (k.Load Account)
  pub sload : Address → ℕ → Exec J k.Failure (k.Load ℕ)
  pub sstore : Address → (key value : ℕ) → Exec J k.Failure (k.Load k.StoreResult)
  pub touch_account : Address → J → J
  pub set_code : Address → k.Code → J → J
  pub log : Log → J → J

-- `ErasedError`
pub data ErasedError (Failure : Type 0) : Type 0 where
  erased : Failure → ErasedError Failure

-- `EvmInternalsError`
pub data EvmInternalsError (Failure : Type 0) : Type 0 where
  internals_database : ErasedError Failure → EvmInternalsError Failure

-- `EvmInternalsError::database`
abbrev pub internals_error : {Failure : Type 0} → Failure → EvmInternalsError Failure
internals_error e = internals_database (erased e)

pub record EvmInternals (J : Type 0) : Type 0 where
  pub internals : J
  pub block_env : BlockEnv

module _ {J : Type 0} where
  -- `EvmInternals::new`
  abbrev pub new_internals : J → BlockEnv → EvmInternals J
  new_internals journal block_env = record { internals = journal; block_env = block_env }

  -- `EvmInternals::block_number` and `EvmInternals::block_timestamp`
  abbrev pub block_number : EvmInternals J → ℕ
  block_number s = s.block_env.number

  abbrev pub block_timestamp : EvmInternals J → ℕ
  block_timestamp s = s.block_env.timestamp

  -- A fallible method of the journal, with its error converted.
  abbrev pub on_journal :
      {Failure Fail A : Type 0} → (Failure → Fail) → Exec J Failure A → Exec (EvmInternals J) Fail A
  on_journal error m s =
      let (r, journal) = m s.internals in (map_err error r, record s { internals = journal })

  -- A method of the journal that cannot fail.
  abbrev pub change_journal : (J → J) → EvmInternals J → EvmInternals J
  change_journal f s = record s { internals = f s.internals }

module _ {k : JournalTypes} {J : Type 0} (j : Journal k J) where
  -- `EvmInternals::db_mut`: the methods of `Database`, with erased errors.
  unfoldable pub db_basic :
      Address → Exec (EvmInternals J) (ErasedError k.Failure) (Option AccountInfo)
  db_basic address = on_journal erased (j.basic address)

  unfoldable pub db_code_by_hash : B256 → Exec (EvmInternals J) (ErasedError k.Failure) k.Code
  db_code_by_hash code_hash = on_journal erased (j.code_by_hash code_hash)

  unfoldable pub db_storage :
      Address → ℕ → Exec (EvmInternals J) (ErasedError k.Failure) k.FlaggedStorage
  db_storage address index = on_journal erased (j.storage address index)

  unfoldable pub db_block_hash : ℕ → Exec (EvmInternals J) (ErasedError k.Failure) B256
  db_block_hash number = on_journal erased (j.block_hash number)

  -- The methods of `EvmInternals`.
  unfoldable pub internals_load_account :
      Address → Exec (EvmInternals J) (EvmInternalsError k.Failure) (k.Load Account)
  internals_load_account address = on_journal internals_error (j.load_account address)

  unfoldable pub internals_load_account_code :
      Address → Exec (EvmInternals J) (EvmInternalsError k.Failure) (k.Load Account)
  internals_load_account_code address = on_journal internals_error (j.load_account_code address)

  unfoldable pub internals_sload :
      Address → ℕ → Exec (EvmInternals J) (EvmInternalsError k.Failure) (k.Load ℕ)
  internals_sload address key = on_journal internals_error (j.sload address key)

  unfoldable pub internals_sstore :
      Address
      → (key value : ℕ) → Exec (EvmInternals J) (EvmInternalsError k.Failure) (k.Load k.StoreResult)
  internals_sstore address key value = on_journal internals_error (j.sstore address key value)

  unfoldable pub internals_touch_account : Address → EvmInternals J → EvmInternals J
  internals_touch_account address = change_journal (j.touch_account address)

  unfoldable pub internals_set_code : Address → k.Code → EvmInternals J → EvmInternals J
  internals_set_code address code = change_journal (j.set_code address code)

  unfoldable pub internals_log : Log → EvmInternals J → EvmInternals J
  internals_log log = change_journal (j.log log)
