-- ===== src/Prelude/Dict.antt =====
-- Hash maps keyed by numbers (addresses, block numbers, storage slots), as association lists in
-- which a key stands once. The programs' iteration order is that of the list.
use Prim.Native.Nat.{ℕ}
use mathlib.Core.Path.{◌≡◌, refl, ◌∙◌}
use mathlib.Core.Logic.{inl, inr}
use mathlib.Core.Bool.{Bool, true, false, not, ◌&&◌, ◌||◌}
use mathlib.Core.Option.{Option, none, some}
use mathlib.Core.List.{List, [], ◌∷◌, map}
use native.Mathlib.Omega.{arith}
use seismic_evm.Prelude.Tests.{◌==◌, if◌then◌else◌, ==→eq, ==_sym, Bool-cases}

abbrev pub Dict {ℓ} : Type ℓ → Type ℓ
Dict V = List (ℕ × V)

module _ {ℓ} {V : Type ℓ} where
  abbrev pub lookup : ℕ → Dict V → Option V
  lookup k [] = none
  lookup k ((j, v) ∷ d) = if k == j then some v else lookup k d

  abbrev pub insert : ℕ → V → Dict V → Dict V
  insert k v [] = (k, v) ∷ []
  insert k v ((j, w) ∷ d) = if k == j then (k, v) ∷ d else (j, w) ∷ insert k v d

  abbrev pub erase : ℕ → Dict V → Dict V
  erase k [] = []
  erase k ((j, w) ∷ d) = let rest = erase k d in if k == j then rest else (j, w) ∷ rest

  -- `HashMap::contains_key`
  abbrev pub contains : ℕ → Dict V → Bool
  contains k [] = false
  contains k ((j, v) ∷ d) = k == j || contains k d

  -- Laws in `if` form, which have no side condition.
  pub lookup-insert :
      (k j : ℕ) (v : V) (d : Dict V)
      → lookup j (insert k v d) ≡ (if j == k then some v else lookup j d)
  lookup-insert k j v [] = refl
  lookup-insert k j v ((i, w) ∷ d) = ground (arith, lookup-insert k j v d)

  pub lookup-erase :
      (k j : ℕ) (d : Dict V) → lookup j (erase k d) ≡ (if j == k then none else lookup j d)
  lookup-erase k j [] = ground arith
  lookup-erase k j ((i, w) ∷ d) = ground (arith, lookup-erase k j d)

  pub contains-insert :
      (k j : ℕ) (v : V) (d : Dict V) → contains j (insert k v d) ≡ (j == k || contains j d)
  contains-insert k j v [] = refl
  contains-insert k j v ((i, w) ∷ d) = ground (arith, contains-insert k j v d)

  pub contains-erase :
      (k j : ℕ) (d : Dict V) → contains j (erase k d) ≡ (not (j == k) && contains j d)
  contains-erase k j [] = ground arith
  contains-erase k j ((i, w) ∷ d) = ground (arith, contains-erase k j d)

  pub contains-lookup :
      (k : ℕ) (d : Dict V) → contains k d ≡ (elim (lookup k d) [ none ↦ false | some _ ↦ true ])
  contains-lookup k [] = refl
  contains-lookup k ((j, v) ∷ d) = ground (arith, contains-lookup k d)

pub ruleset dict_laws = (lookup-insert, lookup-erase)

-- Every key stands once.
abbrev pub Distinct {ℓ} : {V : Type ℓ} → Dict V → Type 0
Distinct [] = Unit
Distinct ((k, v) ∷ d) = (contains k d ≡ false) × Distinct d

-- `HashSet::contains` of a list of keys.
abbrev pub elem : ℕ → List ℕ → Bool
elem k [] = false
elem k (j ∷ js) = k == j || elem k js

module _ {ℓ} {V : Type ℓ} where
  pub Distinct-insert : (k : ℕ) (v : V) (d : Dict V) → Distinct d → Distinct (insert k v d)
  Distinct-insert k v [] h = (refl, tt)
  Distinct-insert k v ((j, w) ∷ d) h = elim (Bool-cases (k == j)) [
    | inl same ↦ rw same (rw (==→eq k j same) h)
    | inr apart ↦
        rw apart
          (contains-insert k j v d ∙ rw (==_sym j k) (rw apart h.0), Distinct-insert k v d h.1)
  ]

  pub Distinct-erase : (k : ℕ) (d : Dict V) → Distinct d → Distinct (erase k d)
  Distinct-erase k [] h = tt
  Distinct-erase k ((j, w) ∷ d) h = elim (Bool-cases (k == j)) [
    | inl same ↦ rw same (Distinct-erase k d h.1)
    | inr apart ↦
        rw apart (contains-erase k j d ∙ rw (==_sym j k) (rw apart h.0), Distinct-erase k d h.1)
  ]

  pub elem-keys : (k : ℕ) (d : Dict V) → elem k (map (λ e. e.0) d) ≡ contains k d
  elem-keys k [] = refl
  elem-keys k ((j, w) ∷ d) = rw (elem-keys k d) refl
