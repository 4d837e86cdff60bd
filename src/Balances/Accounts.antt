-- ===== src/Balances/Accounts.antt =====
-- The accounts that the hook is shown after the balance increments.
use mathlib.Core.Path.{subst}
use seismic_evm.Prelude.{
  ◌==◌, Bool-cases, Result, ok, err, Result-cases, ℕ, ◌≡◌, refl, sym, ◌∙◌, inl, inr, Bool, true,
  false, not, ◌&&◌, ◌||◌, some, [], ◌∷◌, arith,
}
use seismic_evm.Prelude.Dict.{Dict, insert, contains, contains-insert}
use seismic_evm.Types.{Address, Types, AccountInfo, Account, EvmState}
use seismic_evm.Errors.{could_not_load_account, other, BlockExecutionError, internal}
use seismic_evm.Platform.{Platform}
use seismic_evm.Balances.{touched_account, load_account, collect_accounts, balance_increment_state}

-- Some entry for the address is not zero.
abbrev pub pays : Address → Dict ℕ → Bool
pays a [] = false
pays a ((b, amount) ∷ d) = (a == b && not (amount == 0)) || pays a d

module _ {t : Types} (p : Platform t) where
  -- The account at an address can be loaded, and there is one.
  abbrev pub Loads : Address → t.Db → Type 0
  Loads a db =
      (info : AccountInfo) × (db' : t.Db) × (p.load_cache_account a db ≡ (ok (some info), db'))

  -- Loading an account does not make another one unavailable.
  abbrev pub KeepsLoads : Type 0
  KeepsLoads = (a b : Address) (db : t.Db) → Loads a db → Loads a (p.load_cache_account b db).1

  -- Every account with an increment that is not zero can be loaded.
  abbrev pub AllLoad : Dict ℕ → t.Db → Type 0
  AllLoad d db = (a : Address) → pays a d ≡ true → Loads a db

  -- The error, and the account that it is about.
  abbrev pub Unloaded : Dict ℕ → t.Db → BlockExecutionError t → Type 0
  Unloaded d db e =
      (a : Address) × (e ≡ internal (other could_not_load_account))
      × (pays a d ≡ true)
      × (Loads a db → ⊥)

  -- What collecting returns, from the entries and what was collected before.
  abbrev Collected : Dict ℕ → t.Db → EvmState → Result (BlockExecutionError t) EvmState → Type 0
  Collected d db state (ok state') =
      ((a : Address) → contains a state' ≡ (pays a d || contains a state))
  Collected d db state (err e) = Unloaded d db e

  Collected-shift :
      (d d' : Dict ℕ) (db db' : t.Db) (state state' : EvmState)
      (r : Result (BlockExecutionError t) EvmState)
      → ((a : Address) → (pays a d' || contains a state') ≡ (pays a d || contains a state))
      → ((a : Address) → pays a d' ≡ true → pays a d ≡ true)
      → ((a : Address) → Loads a db → Loads a db')
      → Collected d' db' state' r
      → Collected d db state r
  Collected-shift d d' db db' state state' (ok found) same more keep h = λ a. h a ∙ same a
  Collected-shift d d' db db' state state' (err e) same more keep (a, is, paid, missing) =
      (a, is, more a paid, λ loads. missing (keep a loads))

  load_account_err :
      (a : Address) (db : t.Db) {e : BlockExecutionError t}
      → (load_account p a db).0 ≡ err e
      → e ≡ internal (other could_not_load_account)
  load_account_err a db h = ground arith

  load_account_ok :
      (a : Address) (db : t.Db)
      → Loads a db
      → (account : Account) × ((load_account p a db).0 ≡ ok account)
  load_account_ok a db (info, db', e) = (touched_account info, rw (e, load_account))

  pays_here : (b amount : ℕ) (d : Dict ℕ) → (amount == 0) ≡ false → pays b ((b, amount) ∷ d) ≡ true
  pays_here b amount d paid = ground arith

  pays_below :
      (b amount : ℕ) (d : Dict ℕ) (a : Address) → pays a d ≡ true → pays a ((b, amount) ∷ d) ≡ true
  pays_below b amount d a h = ground arith

  step_zero :
      (b amount : ℕ) (d : Dict ℕ) (state : EvmState) (a : Address)
      → (amount == 0) ≡ true
      → (pays a d || contains a state) ≡ (pays a ((b, amount) ∷ d) || contains a state)
  step_zero b amount d state a nothing = ground arith

  step_paid :
      (b amount : ℕ) (d : Dict ℕ) (account : Account) (state : EvmState) (a : Address)
      → (amount == 0) ≡ false
      → (pays a d || contains a (insert b account state))
        ≡ (pays a ((b, amount) ∷ d) || contains a state)
  step_paid b amount d account state a paid = ground (arith, contains-insert b a account state)

  module _ (keeps : KeepsLoads) where
    collect_accounts-Collected :
        (d : Dict ℕ) (state : EvmState) (db : t.Db)
        → Collected d db state (collect_accounts p d state db).0
    unfolding collect_accounts
    collect_accounts-Collected [] state db = λ a. refl
    collect_accounts-Collected ((b, amount) ∷ d) state db = elim (Bool-cases (amount == 0)) [
      | inl nothing ↦ rw nothing (
          Collected-shift ((b, amount) ∷ d) d db db state state _
            (λ a. step_zero b amount d state a nothing) (λ a. pays_below b amount d a) (λ a h. h)
            (collect_accounts-Collected d state db))
      | inr paid ↦ rw paid (elim (Result-cases (load_account p b db).0) [
        | inr (e, failed) ↦ rw failed (
          b,
          load_account_err b db failed,
          pays_here b amount d paid,
          λ loads.
              let (account, loaded) = load_account_ok b db loads in
              let same : ok account ≡ err e = sym loaded ∙ failed in absurd (cc same),
        )
        | inl (account, loaded) ↦ rw loaded (
            Collected-shift ((b, amount) ∷ d) d db (load_account p b db).1 state
              (insert b account state) _ (λ a. step_paid b amount d account state a paid)
              (λ a. pays_below b amount d a) (λ a h. keeps a b db h)
              (collect_accounts-Collected d (insert b account state) (load_account p b db).1))
      ])
    ]

    collect_accounts_total :
        (d : Dict ℕ) (state : EvmState) (db : t.Db)
        → AllLoad d db
        → (found : EvmState) × ((collect_accounts p d state db).0 ≡ ok found)
    unfolding collect_accounts
    collect_accounts_total [] state db can = (state, refl)
    collect_accounts_total ((b, amount) ∷ d) state db can = elim (Bool-cases (amount == 0)) [
      | inl nothing ↦
          rw nothing
            (collect_accounts_total d state db (λ a paid. can a (pays_below b amount d a paid)))
      | inr paid ↦ rw paid (
          let (account, loaded) = load_account_ok b db (can b (pays_here b amount d paid)) in
          rw loaded (
            collect_accounts_total d (insert b account state) (load_account p b db).1
              (λ a more. keeps a b db (can a (pays_below b amount d a more)))))
    ]

    -- If each account with an increment that is not zero can be loaded, the state that the hook is
    -- shown is built, and it has an entry for an address exactly when some increment of that address
    -- is not zero. Loading an account is taken not to make another one unavailable.
    pub balance_increment_state-pays :
        (d : Dict ℕ) (db : t.Db)
        → AllLoad d db
        → (state : EvmState) × ((balance_increment_state p d db).0 ≡ ok state)
          × ((a : Address) → contains a state ≡ pays a d)
    unfolding balance_increment_state
    balance_increment_state-pays d db can =
        let (state, e) = collect_accounts_total d [] db can in
        (
          state,
          e,
          λ a.
              subst (Collected d db []) e (collect_accounts-Collected d [] db) a
              ∙ or_false (pays a d),
        )
      where
        or_false : (b : Bool) → (b || false) ≡ b
        or_false true = refl
        or_false false = refl

    -- If building that state fails, the error says that an account could not be loaded, and there
    -- is such an account: one with an increment that is not zero, which the database that it started
    -- from cannot load, or does not have. Loading an account is taken not to make another one
    -- unavailable.
    pub balance_increment_state-error :
        (d : Dict ℕ) (db : t.Db) (e : BlockExecutionError t)
        → (balance_increment_state p d db).0 ≡ err e
        → Unloaded d db e
    unfolding balance_increment_state
    balance_increment_state-error d db e h =
        subst (Collected d db []) h (collect_accounts-Collected d [] db)
