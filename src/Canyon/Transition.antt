-- ===== src/Canyon/Transition.antt =====
-- When the create2 deployer is put into the state, and what is committed.
use seismic_evm.Prelude.{
  leb, leb→le, leb→lt, Bool-cases, Result, ok, err, Result-cases, pair_of_fst, ℕ, ◌+◌, ◌-◌, ◌≤◌,
  ◌<◌, ◌≡◌, refl, sym, ap, ◌∙◌, ◌⊎◌, inl, inr, true, false, not, ◌&&◌, Option, some, [], ◌∷◌, arith,
}
use seismic_evm.Types.{Types, AccountInfo, Account}
use seismic_evm.Canyon.{
  OpSpec, OpPlatform, create_2_deployer_addr, create_2_deployer_codehash, mark_touch,
  is_canyon_transition, info_or_default, deployed_info, deployer_state, ensure_create2_deployer,
}
use seismic_evm.Canyon.Bytecode.{create_2_deployer_bytecode}

-- Canyon is active from a timestamp on.
abbrev pub ActivatesAt : OpSpec → ℕ → Type 0
ActivatesAt spec start = (n : ℕ) → spec.is_canyon_active_at_timestamp n ≡ leb start n

around_start : (a b c : ℕ) → (leb a b && not (leb a c)) ≡ true → (a ≤ b) × (c < a)
around_start a b c h = elim (Bool-cases (leb a b)) [
  | inr late ↦ absurd (cc (h, late))
  | inl in_time ↦ elim (Bool-cases (leb a c)) [
    | inl old ↦ absurd (cc (h, in_time, old))
    | inr new ↦ (leb→le a b in_time, leb→lt a c new)
  ]
]

outside_of_start : (a b c : ℕ) → (leb a b && not (leb a c)) ≡ false → (b < a) ⊎ (a ≤ c)
outside_of_start a b c h = elim (Bool-cases (leb a b)) [
  | inr late ↦ inl (leb→lt a b late)
  | inl in_time ↦ elim (Bool-cases (leb a c)) [
    | inl old ↦ inr (leb→le a c old)
    | inr new ↦ absurd (cc (h, in_time, new))
  ]
]

transition-activation :
    (spec : OpSpec) (start timestamp : ℕ)
    → ActivatesAt spec start
    → is_canyon_transition spec timestamp ≡ (leb start timestamp && not (leb start (timestamp - 2)))
transition-activation spec start timestamp h =
    ap (λ b. b && not (spec.is_canyon_active_at_timestamp (timestamp - 2))) (h timestamp)
    ∙ ap (λ b. leb start timestamp && not b) (h (timestamp - 2))

module _ {t : Types} (o : OpPlatform t) where
  -- What is committed for the deployer's account.
  pub record IsDeployer (before : AccountInfo) (account : Account) : Type 0 where
    pub code_hash_set : account.info.code_hash ≡ create_2_deployer_codehash
    pub code_set : account.info.code ≡ some (o.new_raw create_2_deployer_bytecode)
    pub balance_kept : account.info.balance ≡ before.balance
    pub nonce_kept : account.info.nonce ≡ before.nonce
    pub is_touched : account.status.touched ≡ true

  -- `Account::from` keeps the info.
  abbrev pub KeepsInfo : Type 0
  KeepsInfo = (info : AccountInfo) → (o.account_of_info info).info ≡ info

  mark_touch-IsDeployer :
      (before : AccountInfo)
      → KeepsInfo
      → IsDeployer before (mark_touch (o.account_of_info (deployed_info o before)))
  unfolding deployed_info
  mark_touch-IsDeployer before keeps =
      let same = keeps (deployed_info o before) in
      record {
        code_hash_set = ap (λ i. i.code_hash) same;
        code_set = ap (λ i. i.code) same;
        balance_kept = ap (λ i. i.balance) same;
        nonce_kept = ap (λ i. i.nonce) same;
        is_touched = refl;
      }

  deployer_state-IsDeployer :
      (found : Option AccountInfo)
      → KeepsInfo
      → (account : Account) × (deployer_state o found ≡ (create_2_deployer_addr, account) ∷ [])
        × IsDeployer (info_or_default o found) account
  unfolding deployer_state
  deployer_state-IsDeployer found keeps =
      (_, refl, mark_touch-IsDeployer (info_or_default o found) keeps)

  -- How the deployment ends: outside the two seconds from the start on nothing happens; within
  -- them the deployer's account is loaded and the changed account committed.
  pub data Deployment (start timestamp : ℕ) (db : t.Db) (r : Result t.DbError Unit × t.Db)
      : Type 0 where
    quiet :
        (timestamp < start) ⊎ (start + 2 ≤ timestamp)
        → r ≡ (ok tt, db)
        → Deployment start timestamp db r
    unloaded :
        start ≤ timestamp
        → timestamp < start + 2
        → (e : t.DbError) (db' : t.Db)
        → o.base.load_cache_account create_2_deployer_addr db ≡ (err e, db')
        → r ≡ (err e, db')
        → Deployment start timestamp db r
    deployed :
        start ≤ timestamp
        → timestamp < start + 2
        → (found : Option AccountInfo) (db' : t.Db)
        → o.base.load_cache_account create_2_deployer_addr db ≡ (ok found, db')
        → (account : Account) → IsDeployer (info_or_default o found) account
        → r ≡ (ok tt, o.base.commit ((create_2_deployer_addr, account) ∷ []) db')
        → Deployment start timestamp db r

  -- If Canyon is active from a timestamp above zero on, the create2 deployer is deployed at the
  -- timestamps of the two seconds from there on, and at no other, at which nothing happens. Its
  -- account is loaded, and if that fails, the error is returned with nothing committed. Otherwise
  -- one account is committed: touched, with the deployer's code and code hash, and with the balance
  -- and nonce that were loaded, or those of an empty account if there was none. The conversion of
  -- an info into an account is taken to keep the info.
  pub ensure_create2_deployer-Deployment :
      (spec : OpSpec) (start timestamp : ℕ) (db : t.Db)
      → KeepsInfo
      → ActivatesAt spec start
      → 0 < start
      → Deployment start timestamp db (ensure_create2_deployer o spec timestamp db)
  unfolding ensure_create2_deployer
  ensure_create2_deployer-Deployment spec start timestamp db keeps h positive =
      let same = transition-activation spec start timestamp h in
      elim (Bool-cases (is_canyon_transition spec timestamp)) [
        | inr off ↦
            quiet
              (elim (outside_of_start start timestamp (timestamp - 2) (sym same ∙ off)) [
                | inl early ↦ inl early
                | inr late ↦ inr (omega (arith, late, positive))
              ])
              (rw off refl)
        | inl on ↦
            let around = around_start start timestamp (timestamp - 2) (sym same ∙ on) in
            elim (Result-cases (o.base.load_cache_account create_2_deployer_addr db).0) [
              | inr (e, bad) ↦
                  unloaded around.0 (omega (arith, around.1)) e
                    (o.base.load_cache_account create_2_deployer_addr db).1 (pair_of_fst _ bad)
                    (rw on (rw bad refl))
              | inl (found, good) ↦
                  deployed around.0 (omega (arith, around.1)) found
                    (o.base.load_cache_account create_2_deployer_addr db).1 (pair_of_fst _ good)
                    (deployer_state-IsDeployer found keeps).0
                    (deployer_state-IsDeployer found keeps).2
                    (rw on (
                      rw good (
                        ap
                          (λ state. (
                            ok tt,
                            o.base.commit state
                                (o.base.load_cache_account create_2_deployer_addr db).1,
                          ))
                          (deployer_state-IsDeployer found keeps).1)))
            ]
      ]
