-- ===== src/Overrides.antt =====
-- crates/evm/src/overrides.rs: overrides of the block's settings and of accounts. The overrides'
-- types are alloy_rpc_types_eth's; the database, hashes and bytecode are parameters.
pub mod Blocks
pub mod Slots
pub mod Fields
pub mod Accounts
pub mod Setters
mod Tests
use seismic_evm.Prelude.{
  saturating_u64, Result, ok, err, and_then, Exec, pure, lift, ◌>>=◌, ◌>>◌, ℕ, ◌-◌, ◌^◌, Bool, true,
  false, Option, none, some, [], ◌∷◌,
}
use seismic_evm.Prelude.Dict.{Dict, insert}
use seismic_evm.Types.{
  Address, B256, Bytes, BlockEnv, AccountInfo, FlaggedStorage, EvmStorageSlot, Account, EvmState,
}

-- `BlockOverrides`
pub record BlockOverrides : Type 0 where
  pub number : Option ℕ
  pub difficulty : Option ℕ
  pub time : Option ℕ
  pub gas_limit : Option ℕ
  pub coinbase : Option Address
  pub random : Option B256
  pub base_fee : Option ℕ
  pub block_hash : Option (Dict B256)

-- `AccountOverride`
pub record AccountOverride : Type 0 where
  pub balance : Option ℕ
  pub nonce : Option ℕ
  pub code : Option Bytes
  pub state : Option (Dict B256)
  pub state_diff : Option (Dict B256)

pub data StateOverrideError (DecodeError DbError : Type 0) : Type 0 where
  invalid_bytecode : DecodeError → StateOverrideError DecodeError DbError
  both_state_and_state_diff : Address → StateOverrideError DecodeError DbError
  database_failed : DbError → StateOverrideError DecodeError DbError

-- The value of an override, or else what is there.
abbrev pub or_kept {ℓ} : {A : Type ℓ} → Option A → A → A
or_kept none kept = kept
or_kept (some new) kept = new

-- `BTreeMap::extend` of the known block hashes, as the two databases do it.
abbrev pub extend : Dict B256 → Dict B256 → Dict B256
extend [] hashes = hashes
extend ((number, hash) ∷ more) hashes = extend more (insert number hash hashes)

-- `override_block_hashes`
unfoldable pub override_block_hashes : Dict B256 → Dict B256 → Dict B256
override_block_hashes block_hashes hashes = extend block_hashes hashes

-- `U256::saturating_to` of a base fee, if there is one.
abbrev pub saturated : Option ℕ → Option ℕ
saturated none = none
saturated (some fee) = some (saturating_u64 fee)

abbrev pub some_or_kept : Option B256 → Option B256 → Option B256
some_or_kept none kept = kept
some_or_kept (some new) kept = some new

-- The database's block hashes, if any are overridden.
abbrev pub overridden_hashes : Option (Dict B256) → Dict B256 → Dict B256
overridden_hashes none hashes = hashes
overridden_hashes (some block_hashes) hashes = override_block_hashes block_hashes hashes

-- `apply_block_overrides`, on the block hashes of the database and the block's settings.
unfoldable pub apply_block_overrides : BlockOverrides → Dict B256 × BlockEnv → Dict B256 × BlockEnv
apply_block_overrides o (hashes, env) = (
  overridden_hashes o.block_hash hashes,
  record env {
    number = or_kept o.number env.number;
    difficulty = or_kept o.difficulty env.difficulty;
    timestamp = or_kept o.time env.timestamp;
    gas_limit = or_kept o.gas_limit env.gas_limit;
    beneficiary = or_kept o.coinbase env.beneficiary;
    prevrandao = some_or_kept o.random env.prevrandao;
    basefee = or_kept (saturated o.base_fee) env.basefee;
  },
)

-- `Database` and `DatabaseCommit`, with the hash function, the check of raw bytecode and the
-- conversion of a word into a stored value.
pub record OverrideDb (Db DecodeError DbError : Type 0) : Type 0 where
  pub basic : Address → Exec Db DbError (Option AccountInfo)
  pub commit : EvmState → Db → Db
  pub keccak256 : Bytes → B256
  pub new_raw_checked : Bytes → Result DecodeError Bytes
  pub default_info : AccountInfo
  pub flagged : B256 → FlaggedStorage

-- `!value` of 256 bits.
unfoldable pub inverted : B256 → B256
inverted value = 2 ^ 256 - 1 - value

-- The slot of an overridden value, whose two values are converted by `into`.
unfoldable pub override_slot : (B256 → FlaggedStorage) → B256 → EvmStorageSlot
unfolding inverted
override_slot into value = record {
  original_value = into (inverted value);
  present_value = into value;
  is_cold = false;
  transaction_id = 0;
}

-- The loop that inserts the overridden slots.
unfoldable pub insert_slots :
    (B256 → FlaggedStorage) → Dict B256 → Dict EvmStorageSlot → Dict EvmStorageSlot
unfolding override_slot
insert_slots into [] storage = storage
insert_slots into ((slot, value) ∷ more) storage =
    insert_slots into more (insert slot (override_slot into value) storage)

module _ {Db DecodeError DbError : Type 0} (d : OverrideDb Db DecodeError DbError) where
  abbrev pub OverrideResult : Type 0 → Type 0
  OverrideResult A = Result (StateOverrideError DecodeError DbError) A

  -- The info that an override starts from.
  abbrev pub info_of : Option AccountInfo → AccountInfo
  info_of none = d.default_info
  info_of (some info) = info

  -- `map_err(StateOverrideError::Database)?.unwrap_or_default()`
  abbrev pub load_info : Address → Exec Db (StateOverrideError DecodeError DbError) AccountInfo
  load_info account db =
      let (r, db') = d.basic account db in
      (elim r [ err e ↦ err (database_failed e) | ok found ↦ ok (info_of found) ], db')

  -- The code with its hash, if it can be decoded.
  abbrev pub with_code : Bytes → AccountInfo → Result DecodeError Bytes → OverrideResult AccountInfo
  with_code code info (ok bytecode) =
      ok (record info { code_hash = d.keccak256 code; code = some bytecode })
  with_code code info (err e) = err (invalid_bytecode e)

  abbrev pub override_code : Option Bytes → AccountInfo → OverrideResult AccountInfo
  override_code none info = ok info
  override_code (some code) info = with_code code info (d.new_raw_checked code)

  -- The overrides of the nonce, the code and the balance.
  unfoldable pub override_info : AccountOverride → AccountInfo → OverrideResult AccountInfo
  override_info o info =
      and_then (override_code o.code (record info { nonce = or_kept o.nonce info.nonce }))
        (λ i. ok (record i { balance = or_kept o.balance i.balance }))

  -- The account before its storage is overridden.
  abbrev pub touched_with : AccountInfo → (created : Bool) → Account
  touched_with info created = record {
    info = info;
    storage = [];
    status = record { created = created; self_destructed = false; touched = true };
    transaction_id = 0;
  }

  -- The account that clears the storage.
  abbrev pub destroyed : Account
  destroyed = record {
    info = d.default_info;
    storage = [];
    status = record { created = false; self_destructed = true; touched = true };
    transaction_id = 0;
  }

  -- The last commit: the account with the overridden slots.
  abbrev pub commit_account : Address → Account → Dict B256 → Db → Db
  commit_account account acc slots =
      d.commit
        (insert account (record acc { storage = insert_slots d.flagged slots acc.storage }) [])

  -- What comes after the info, by what of the storage is overridden.
  unfoldable pub commit_storage :
      Address
      → AccountInfo
      → (state state_diff : Option (Dict B256))
      → Exec Db (StateOverrideError DecodeError DbError) Unit
  unfolding insert_slots
  commit_storage account info (some state) (some state_diff) db =
      (err (both_state_and_state_diff account), db)
  commit_storage account info none none db =
      (ok tt, commit_account account (touched_with info false) [] db)
  commit_storage account info (some state) none db = (
    ok tt,
    commit_account account (touched_with info true) state
        (d.commit (insert account destroyed []) db),
  )
  commit_storage account info none (some state_diff) db =
      (ok tt, commit_account account (touched_with info false) state_diff db)

  -- `apply_account_override`
  unfoldable pub apply_account_override :
      Address → AccountOverride → Exec Db (StateOverrideError DecodeError DbError) Unit
  unfolding override_info commit_storage
  apply_account_override account o = do
    info ← load_info account
    overridden ← lift (override_info o info)
    commit_storage account overridden o.state o.state_diff

  -- `apply_state_overrides`
  unfoldable pub apply_state_overrides :
      Dict AccountOverride → Exec Db (StateOverrideError DecodeError DbError) Unit
  unfolding apply_account_override
  apply_state_overrides [] = pure tt
  apply_state_overrides ((account, o) ∷ overrides) = do
    apply_account_override account o
    apply_state_overrides overrides
