-- ===== src/Prelude/Results.antt =====
-- `Result` with an error type, and methods on `&mut self`: what was written before an error stays
-- written, so the state comes back beside the error too.
use mathlib.Core.Path.{◌≡◌, refl, fun_ext}
use mathlib.Core.Logic.{◌⊎◌, inl, inr}

pub data Result (Err A : Type 0) : Type 0 where
  ok : A → Result Err A
  err : Err → Result Err A

abbrev pub map_err : {Err Fail A : Type 0} → (Err → Fail) → Result Err A → Result Fail A
map_err f (ok a) = ok a
map_err f (err e) = err (f e)

abbrev pub and_then : {Err A B : Type 0} → Result Err A → (A → Result Err B) → Result Err B
and_then (ok a) f = f a
and_then (err e) f = err e

pub Result-cases :
    {Err A : Type 0} (r : Result Err A) → ((a : A) × (r ≡ ok a)) ⊎ ((e : Err) × (r ≡ err e))
Result-cases (ok a) = inl (a, refl)
Result-cases (err e) = inr (e, refl)

abbrev pub Exec : Type 0 → Type 0 → Type 0 → Type 0
Exec S Err A = S → Result Err A × S

module _ {S Err A : Type 0} where
  abbrev pub pure : A → Exec S Err A
  pure a s = (ok a, s)

  abbrev pub raise : Err → Exec S Err A
  raise e s = (err e, s)

  abbrev pub lift : Result Err A → Exec S Err A
  lift r s = (r, s)

module _ {S Err A B : Type 0} where
  -- What comes after a call that ended with a result.
  abbrev pub resume : Result Err A → (A → Exec S Err B) → Exec S Err B
  resume (ok a) f s = f a s
  resume (err e) f s = (err e, s)

  infixl 5 ◌>>=◌
  abbrev pub ◌>>=◌ : Exec S Err A → (A → Exec S Err B) → Exec S Err B
  ◌>>=◌ m f s = let (r, s') = m s in resume r f s'

infixl 5 ◌>>◌
abbrev pub ◌>>◌ : {S Err B : Type 0} → Exec S Err Unit → Exec S Err B → Exec S Err B
m >> k = m >>= λ _. k

module _ {S Err A B C : Type 0} where
  resume_assoc :
      (r : Result Err A) (f : A → Exec S Err B) (g : B → Exec S Err C) (s : S)
      → (let (r', s') = resume r f s in resume r' g s') ≡ resume r (λ a. f a >>= g) s
  resume_assoc (ok a) f g s = refl
  resume_assoc (err e) f g s = refl

  pub >>=_assoc :
      (m : Exec S Err A) (f : A → Exec S Err B) (g : B → Exec S Err C)
      → ((m >>= f) >>= g) ≡ (m >>= λ a. f a >>= g)
  >>=_assoc m f g = fun_ext λ s. resume_assoc (m s).0 f g (m s).1

-- A pair from its first component.
pub pair_of_fst : {A B : Type 0} (x : A × B) {a : A} → x.0 ≡ a → x ≡ (a, x.1)
pair_of_fst x h = λ i. (h i, x.1)
