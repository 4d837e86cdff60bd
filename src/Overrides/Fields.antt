-- ===== src/Overrides/Fields.antt =====
-- The balance, the nonce and the code that an override gives an account.
use mathlib.Core.Path.{subst}
use seismic_evm.Prelude.{
  Result, ok, err, and_then, Result-cases, ℕ, ◌≡◌, refl, ap, inl, inr, Option, none, some,
}
use seismic_evm.Types.{Bytes, AccountInfo}
use seismic_evm.Overrides.{
  AccountOverride, StateOverrideError, invalid_bytecode, or_kept, OverrideDb, with_code,
  override_code, override_info,
}

-- A field after an override: as given, or else as it was.
abbrev pub GivenOr : {A : Type 0} → Option A → (old new : A) → Type 0
GivenOr none old new = new ≡ old
GivenOr (some given) old new = new ≡ given

or_kept-GivenOr : {A : Type 0} (o : Option A) (old : A) → GivenOr o old (or_kept o old)
or_kept-GivenOr none old = refl
or_kept-GivenOr (some given) old = refl

module _ {Db DecodeError DbError : Type 0} (d : OverrideDb Db DecodeError DbError) where
  -- The code after an override, with its hash.
  abbrev pub CodeGivenOr : Option Bytes → (old new : AccountInfo) → Type 0
  CodeGivenOr none old new = (new.code ≡ old.code) × (new.code_hash ≡ old.code_hash)
  CodeGivenOr (some raw) old new =
      (bytecode : Bytes) × (d.new_raw_checked raw ≡ ok bytecode)
      × (new.code ≡ some bytecode)
      × (new.code_hash ≡ d.keccak256 raw)

  -- The info after an override, by what is given.
  pub record InfoOverridden (balance nonce : Option ℕ) (code : Option Bytes) (old new : AccountInfo)
      : Type 0 where
    pub balance_given : GivenOr balance old.balance new.balance
    pub nonce_given : GivenOr nonce old.nonce new.nonce
    pub code_given : CodeGivenOr code old new

  error_or :
      {A : Type 0}
      → StateOverrideError DecodeError DbError
      → Result (StateOverrideError DecodeError DbError) A
      → StateOverrideError DecodeError DbError
  error_or e (ok a) = e
  error_or e (err x) = x

  and_then_error :
      {A : Type 0} (r : Result (StateOverrideError DecodeError DbError) A) (f : A → A)
      (e : StateOverrideError DecodeError DbError)
      → and_then r (λ a. ok (f a)) ≡ err e
      → r ≡ err e
  and_then_error (ok a) f e h = absurd (cc h)
  and_then_error (err x) f e h = h

  -- What an error of overriding the code says of the code.
  abbrev pub Undecodable : Option Bytes → StateOverrideError DecodeError DbError → Type 0
  Undecodable code e =
      (raw : Bytes) × (x : DecodeError) × (code ≡ some raw)
      × (d.new_raw_checked raw ≡ err x)
      × (invalid_bytecode x ≡ e)

  with_code-error :
      (raw : Bytes) (info : AccountInfo) (e : StateOverrideError DecodeError DbError)
      (r : Result DecodeError Bytes)
      → with_code d raw info r ≡ err e
      → (x : DecodeError) × (r ≡ err x) × (invalid_bytecode x ≡ e)
  unfolding error_or
  with_code-error raw info e (ok bytecode) h = absurd (cc h)
  with_code-error raw info e (err x) h = (x, refl, ap (error_or e) h)

  override_code-error :
      (code : Option Bytes) (info : AccountInfo) (e : StateOverrideError DecodeError DbError)
      → override_code d code info ≡ err e
      → Undecodable code e
  override_code-error none info e h = absurd (cc h)
  override_code-error (some raw) info e h =
      let (x, bad, same) = with_code-error raw info e (d.new_raw_checked raw) h in
      (raw, x, refl, bad, same)

  pub override_info-error :
      (o : AccountOverride) (info : AccountInfo) (e : StateOverrideError DecodeError DbError)
      → override_info d o info ≡ err e
      → Undecodable o.code e
  unfolding override_info
  override_info-error o info e h =
      override_code-error o.code (record info { nonce = or_kept o.nonce info.nonce }) e
        (and_then_error _ (λ i. record i { balance = or_kept o.balance i.balance }) e h)

  -- What an override of the info gives, if it succeeds.
  OkInfo :
      (balance sequence : Option ℕ) (code : Option Bytes) (old : AccountInfo)
      → Result (StateOverrideError DecodeError DbError) AccountInfo
      → Type 0
  OkInfo balance sequence code old (ok new) = InfoOverridden balance sequence code old new
  OkInfo balance sequence code old (err e) = Unit

  and_then-OkInfo :
      (balance sequence : Option ℕ) (code : Option Bytes) (old : AccountInfo)
      → OkInfo balance sequence code old (
          and_then
            (override_code d code (record old { nonce = or_kept sequence old.nonce }))
            (λ i. ok (record i { balance = or_kept balance i.balance })))
  unfolding OkInfo
  and_then-OkInfo balance sequence none old = record {
    balance_given = or_kept-GivenOr balance old.balance;
    nonce_given = or_kept-GivenOr sequence old.nonce;
    code_given = (refl, refl);
  }
  and_then-OkInfo balance sequence (some raw) old = elim (Result-cases (d.new_raw_checked raw)) [
    | inr (e, bad) ↦ rw bad tt
    | inl (bytecode, good) ↦ rw good (record {
      balance_given = or_kept-GivenOr balance old.balance;
      nonce_given = or_kept-GivenOr sequence old.nonce;
      code_given = (bytecode, good, refl, refl);
    })
  ]

  pub override_info-InfoOverridden :
      (o : AccountOverride) (old new : AccountInfo)
      → override_info d o old ≡ ok new
      → InfoOverridden o.balance o.nonce o.code old new
  unfolding OkInfo override_info
  override_info-InfoOverridden o old new fine =
      subst (OkInfo o.balance o.nonce o.code old) fine
        (and_then-OkInfo o.balance o.nonce o.code old)
