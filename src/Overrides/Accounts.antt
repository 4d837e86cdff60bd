-- ===== src/Overrides/Accounts.antt =====
-- What overriding an account does, on each way in which it can end, and to its storage.
use seismic_evm.Prelude.{
  Result, ok, err, Result-cases, resume, pair_of_fst, ◌≡◌, refl, ◌∙◌, ◌⊎◌, inl, inr, Bool, true,
  false, Option, none, some, [], ◌∷◌,
}
use seismic_evm.Prelude.Dict.{Dict}
use seismic_evm.Types.{Address, B256, Bytes, AccountInfo, EvmStorageSlot, Account}
use seismic_evm.Overrides.{
  AccountOverride, StateOverrideError, invalid_bytecode, both_state_and_state_diff, database_failed,
  OverrideDb, insert_slots, info_of, override_info, commit_storage, apply_account_override,
}
use seismic_evm.Overrides.Slots.{StandOnce, HasSlots, insert_slots-HasSlots}
use seismic_evm.Overrides.Fields.{InfoOverridden, override_info-error, override_info-InfoOverridden}
use mathlib.Core.Path.{subst}

module _ {Db DecodeError DbError : Type 0} (d : OverrideDb Db DecodeError DbError) where
  -- The account with an info and a storage, touched, and marked as created or not.
  abbrev pub account_with : AccountInfo → Dict EvmStorageSlot → Bool → Account
  account_with info storage created = record {
    info = info;
    storage = storage;
    status = record { created = created; self_destructed = false; touched = true };
    transaction_id = 0;
  }

  -- The account that destroys what was stored.
  abbrev pub cleared : Account
  cleared = record {
    info = d.default_info;
    storage = [];
    status = record { created = false; self_destructed = true; touched = true };
    transaction_id = 0;
  }

  -- The commits of an override, by what of the storage is given.
  pub data CommittedAs (account : Address) (info : AccountInfo)
      (state state_diff : Option (Dict B256)) (db db' : Db) : Type 0 where
    storage_kept :
        state ≡ none
        → state_diff ≡ none
        → db' ≡ d.commit ((account, account_with info [] false) ∷ []) db
        → CommittedAs account info state state_diff db db'
    storage_changed :
        (slots : Dict B256) (storage : Dict EvmStorageSlot)
        → state ≡ none
        → state_diff ≡ some slots
        → HasSlots d slots storage
        → db' ≡ d.commit ((account, account_with info storage false) ∷ []) db
        → CommittedAs account info state state_diff db db'
    storage_replaced :
        (slots : Dict B256) (storage : Dict EvmStorageSlot)
        → state ≡ some slots
        → state_diff ≡ none
        → HasSlots d slots storage
        → db'
          ≡ d.commit
              ((account, account_with info storage true) ∷ [])
              (d.commit ((account, cleared) ∷ []) db)
        → CommittedAs account info state state_diff db db'

  -- The outcome by cases. Nothing is committed unless the override succeeds.
  pub data Overridden (account : Address) (o : AccountOverride) (db : Db)
      (r : Result (StateOverrideError DecodeError DbError) Unit × Db) : Type 0 where
    unreadable :
        (e : DbError) (db' : Db)
        → d.basic account db ≡ (err e, db')
        → r ≡ (err (database_failed e), db')
        → Overridden account o db r
    undecodable :
        (found : Option AccountInfo) (db' : Db)
        → d.basic account db ≡ (ok found, db')
        → (code : Bytes) (e : DecodeError) → o.code ≡ some code
        → d.new_raw_checked code ≡ err e
        → r ≡ (err (invalid_bytecode e), db')
        → Overridden account o db r
    ambiguous :
        (found : Option AccountInfo) (db' : Db)
        → d.basic account db ≡ (ok found, db')
        → (state state_diff : Dict B256) → o.state ≡ some state
        → o.state_diff ≡ some state_diff
        → r ≡ (err (both_state_and_state_diff account), db')
        → Overridden account o db r
    overridden :
        (found : Option AccountInfo) (db' : Db)
        → d.basic account db ≡ (ok found, db')
        → (info : AccountInfo)
        → InfoOverridden d o.balance o.nonce o.code
            (elim found [ none ↦ d.default_info | some old ↦ old ])
            info
        → (db'' : Db) → CommittedAs account info o.state o.state_diff db' db''
        → r ≡ (ok tt, db'')
        → Overridden account o db r

  commit_storage-cases :
      (account : Address) (info : AccountInfo) (state state_diff : Option (Dict B256)) (db : Db)
      → StandOnce state
      → StandOnce state_diff
      → ((db' : Db) × (commit_storage d account info state state_diff db ≡ (ok tt, db'))
          × CommittedAs account info state state_diff db db')
        ⊎ ((a : Dict B256) × (b : Dict B256) × (state ≡ some a)
            × (state_diff ≡ some b)
            × (commit_storage d account info state state_diff db
                ≡ (err (both_state_and_state_diff account), db)))
  unfolding commit_storage insert_slots
  commit_storage-cases account info none none db once once' =
      inl (_, refl, storage_kept refl refl refl)
  commit_storage-cases account info none (some b) db once once' = inl (
    _,
    refl,
    storage_changed b (insert_slots d.flagged b []) refl refl (insert_slots-HasSlots d b once')
        refl,
  )
  commit_storage-cases account info (some a) none db once once' = inl (
    _,
    refl,
    storage_replaced a (insert_slots d.flagged a []) refl refl (insert_slots-HasSlots d a once)
        refl,
  )
  commit_storage-cases account info (some a) (some b) db once once' = inr (a, b, refl, refl, refl)

  apply_account_override-read :
      (account : Address) (o : AccountOverride) (db : Db) (found : Option AccountInfo)
      → (d.basic account db).0 ≡ ok found
      → apply_account_override d account o db
        ≡ resume
            (override_info d o (info_of d found))
            (λ info. commit_storage d account info o.state o.state_diff)
            (d.basic account db).1
  unfolding apply_account_override
  apply_account_override-read account o db found good = rw good refl

  before :
      (found : Option AccountInfo)
      → info_of d found ≡ (elim found [ none ↦ d.default_info | some old ↦ old ])
  before none = refl
  before (some old) = refl

  -- Overriding an account ends in one of four ways. It fails, with nothing committed, if the
  -- account cannot be read, if the code given for it cannot be decoded, or if both its state and
  -- differences to its state are given. Otherwise it succeeds: the account is committed as touched,
  -- with the balance, the nonce and the code with its hash as given, or else as they were, of the
  -- default account if there is none; and with exactly the given slots, each with the given word as
  -- its present value and the inverted word as its original one. If its state is given, an account
  -- that destroys the old storage is committed before, and the account is marked as created. Given
  -- slots are taken to stand once each, as in a hash map.
  pub apply_account_override-Overridden :
      (account : Address) (o : AccountOverride) (db : Db)
      → StandOnce o.state
      → StandOnce o.state_diff
      → Overridden account o db (apply_account_override d account o db)
  unfolding apply_account_override
  apply_account_override-Overridden account o db once once' =
      let read = d.basic account db in
      elim (Result-cases read.0) [
        | inr (e, bad) ↦ unreadable e read.1 (pair_of_fst _ bad) (rw bad refl)
        | inl (found, good) ↦
            let stored = pair_of_fst _ good in
            let start = apply_account_override-read account o db found good in
            elim (Result-cases (override_info d o (info_of d found))) [
              | inr (e, bad) ↦
                  let (code, x, given, undecoded, same) =
                    override_info-error d o (info_of d found) e bad in
                  undecodable found read.1 stored code x given undecoded
                    (start ∙ rw bad (rw same refl))
              | inl (info, fine) ↦
                  let given =
                    subst (λ old. InfoOverridden d o.balance o.nonce o.code old info) (before found)
                      (override_info-InfoOverridden d o (info_of d found) info fine) in
                  elim (commit_storage-cases account info o.state o.state_diff read.1 once once') [
                    | inl (db', same, done) ↦
                        overridden found read.1 stored info given db' done (start ∙ rw fine same)
                    | inr (a, b, state, state_diff, same) ↦
                        ambiguous found read.1 stored a b state state_diff (start ∙ rw fine same)
                  ]
            ]
      ]
