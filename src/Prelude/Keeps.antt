-- ===== src/Prelude/Keeps.antt =====
-- Rules for `Exec`, one for each way to build an action: what an action leaves as it was, and what
-- holds when it returns.
use mathlib.Core.Path.{◌≡◌, refl, ◌∙◌}
use mathlib.Core.Bool.{Bool, true, false}
use seismic_evm.Prelude.Tests.{if◌then◌else◌}
use seismic_evm.Prelude.Results.{Result, ok, err, Exec, pure, lift, resume, ◌>>=◌}

-- `m` leaves `view` of the state as it was, whether it returns or fails.
pub record Keeps {S Err A V : Type 0} (view : S → V) (m : Exec S Err A) : Type 0 where
  pub same : (s : S) → view (m s).1 ≡ view s

module _ {S Err A V : Type 0} {view : S → V} where
  pub Keeps-lift : (r : Result Err A) → Keeps view (lift r)
  Keeps-lift r = record { same = λ s. refl }

  pub Keeps-pure : (a : A) → Keeps {Err = Err} view (pure a)
  Keeps-pure a = record { same = λ s. refl }

  pub Keeps-if :
      (b : Bool) (m n : Exec S Err A)
      → Keeps view m
      → Keeps view n
      → Keeps view (if b then m else n)
  Keeps-if true m n km kn = km
  Keeps-if false m n km kn = kn

module _ {S Err A B V : Type 0} {view : S → V} where
  Keeps-resume :
      (r : Result Err A) (f : A → Exec S Err B)
      → ((a : A) → Keeps view (f a))
      → (s : S) → view (resume r f s).1 ≡ view s
  Keeps-resume (ok a) f kf s = (kf a).same s
  Keeps-resume (err e) f kf s = refl

  pub Keeps-bind :
      (m : Exec S Err A) (f : A → Exec S Err B)
      → Keeps view m
      → ((a : A) → Keeps view (f a))
      → Keeps view (m >>= f)
  Keeps-bind m f km kf = record { same = λ s. Keeps-resume (m s).0 f kf (m s).1 ∙ km.same s }

-- What holds of a result and the state that comes with it, if there is a result.
abbrev pub OnOk : {S Err A : Type 0} → (A → S → Type 0) → Result Err A × S → Type 0
OnOk Q (ok a, s) = Q a s
OnOk Q (err e, s) = Unit

-- Whenever `m` returns, `Q` holds of the result and the new state.
pub record Returns {S Err A : Type 0} (Q : A → S → Type 0) (m : Exec S Err A) : Type 0 where
  pub on_ok : (s : S) → OnOk Q (m s)

module _ {S Err A B : Type 0} {Q : B → S → Type 0} where
  Returns-resume :
      (r : Result Err A) (f : A → Exec S Err B)
      → ((a : A) → Returns Q (f a))
      → (s : S) → OnOk Q (resume r f s)
  Returns-resume (ok a) f rf s = (rf a).on_ok s
  Returns-resume (err e) f rf s = tt

  pub Returns-bind :
      (m : Exec S Err A) (f : A → Exec S Err B) → ((a : A) → Returns Q (f a)) → Returns Q (m >>= f)
  Returns-bind m f rf = record { on_ok = λ s. Returns-resume (m s).0 f rf (m s).1 }

-- What holds after a call carries on to what comes after it.
pub OnOk-bind :
    {S Err A B : Type 0} (R : A → S → Type 0) (Q : B → S → Type 0) (r : Result Err A × S)
    (f : A → Exec S Err B)
    → OnOk R r
    → ((a : A) (u : S) → R a u → OnOk Q (f a u))
    → OnOk Q (resume r.0 f r.1)
OnOk-bind R Q (ok a, u) f h hf = hf a u h
OnOk-bind R Q (err e, u) f h hf = tt

pub OnOk-implies :
    {S Err A : Type 0} (P : A → S → Type 0) {Q : A → S → Type 0} (r : Result Err A × S)
    → OnOk P r
    → ((a : A) (u : S) → P a u → Q a u)
    → OnOk Q r
OnOk-implies P (ok a, u) h f = f a u h
OnOk-implies P (err e, u) h f = tt

-- What holds of the state however a call ends holds if it succeeds.
pub OnOk-always :
    {S Err A : Type 0} (R : S → Type 0) (r : Result Err A × S) → R r.1 → OnOk (λ _ u. R u) r
OnOk-always R (ok a, u) h = h
OnOk-always R (err e, u) h = tt

pub OnOk-and :
    {S Err A : Type 0} (P Q : A → S → Type 0) (r : Result Err A × S)
    → OnOk P r
    → OnOk Q r
    → OnOk (λ a u. P a u × Q a u) r
OnOk-and P Q (ok a, u) h k = (h, k)
OnOk-and P Q (err e, u) h k = tt
