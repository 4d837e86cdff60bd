-- ===== src/Overrides/Blocks.antt =====
-- Overriding a block's settings and hashes twice is overriding them once.
use mathlib.Core.Path.{subst}
use seismic_evm.Prelude.{
  ◌==◌, if◌then◌else◌, ==→eq, Bool-cases, ℕ, ◌≡◌, refl, sym, ap, ◌∙◌, inl, inr, false, Option, none,
  some, [], ◌∷◌, arith,
}
use seismic_evm.Prelude.Dict.{
  Dict, lookup, insert, contains, lookup-insert, Distinct, Distinct-insert,
}
use seismic_evm.Types.{B256, BlockEnv}
use seismic_evm.Overrides.{
  BlockOverrides, or_kept, extend, override_block_hashes, saturated, some_or_kept,
  overridden_hashes, apply_block_overrides,
}

-- The first of two values that is there.
abbrev pub or_else {ℓ} : {A : Type ℓ} → Option A → Option A → Option A
or_else none second = second
or_else (some a) second = some a

or_else_assoc {ℓ} :
    {A : Type ℓ} (a b c : Option A) → or_else (or_else a b) c ≡ or_else a (or_else b c)
or_else_assoc none b c = refl
or_else_assoc (some x) b c = refl

lookup-absent {ℓ} : {V : Type ℓ} (k : ℕ) (d : Dict V) → contains k d ≡ false → lookup k d ≡ none
lookup-absent k [] h = refl
lookup-absent k ((j, v) ∷ d) h = ground (arith, h, lookup-absent k d)

-- A block's hash after an override of hashes.
lookup-extend :
    (n : ℕ) (new hashes : Dict B256)
    → Distinct new
    → lookup n (extend new hashes) ≡ or_else (lookup n new) (lookup n hashes)
lookup-extend n [] hashes h = refl
lookup-extend n ((k, v) ∷ new) hashes h = elim (Bool-cases (n == k)) [
  | inl same ↦
      let absent =
        lookup-absent n new (subst (λ j. contains j new ≡ false) (sym (==→eq n k same)) h.0) in
      let found : lookup n (insert k v hashes) ≡ some v =
        lookup-insert k n v hashes ∙ rw same refl in
      let right : or_else (if n == k then some v else lookup n new) (lookup n hashes) ≡ some v =
        rw same refl in
      lookup-extend n new (insert k v hashes) h.1
      ∙ ap (λ o. or_else o (lookup n (insert k v hashes))) absent
      ∙ found
      ∙ sym right
  | inr apart ↦
      let found : lookup n (insert k v hashes) ≡ lookup n hashes =
        lookup-insert k n v hashes ∙ rw apart refl in
      let right : (if n == k then some v else lookup n new) ≡ lookup n new = rw apart refl in
      lookup-extend n new (insert k v hashes) h.1
      ∙ ap (or_else (lookup n new)) found
      ∙ ap (λ o. or_else o (lookup n hashes)) (sym right)
]

Distinct-extend : (new hashes : Dict B256) → Distinct hashes → Distinct (extend new hashes)
Distinct-extend [] hashes h = h
Distinct-extend ((k, v) ∷ new) hashes h =
    Distinct-extend new (insert k v hashes) (Distinct-insert k v hashes h)

abbrev merged_hashes : Option (Dict B256) → Option (Dict B256) → Option (Dict B256)
merged_hashes none old = old
merged_hashes (some new) none = some new
merged_hashes (some new) (some old) = some (extend new old)

-- The overrides that have a value where the new or the old ones have one, the new one's if both do.
abbrev pub merged : (new old : BlockOverrides) → BlockOverrides
merged new old = record {
  number = or_else new.number old.number;
  difficulty = or_else new.difficulty old.difficulty;
  time = or_else new.time old.time;
  gas_limit = or_else new.gas_limit old.gas_limit;
  coinbase = or_else new.coinbase old.coinbase;
  random = or_else new.random old.random;
  base_fee = or_else new.base_fee old.base_fee;
  block_hash = merged_hashes new.block_hash old.block_hash;
}

-- Each block number stands once in the overrides' hashes.
abbrev pub IsMap : Option (Dict B256) → Type 0
IsMap none = Unit
IsMap (some hashes) = Distinct hashes

or_kept-or_else {ℓ} :
    {A : Type ℓ} (new old : Option A) (kept : A)
    → or_kept new (or_kept old kept) ≡ or_kept (or_else new old) kept
or_kept-or_else none old kept = refl
or_kept-or_else (some x) old kept = refl

some_or_kept-or_else :
    (new old kept : Option B256)
    → some_or_kept new (some_or_kept old kept) ≡ some_or_kept (or_else new old) kept
some_or_kept-or_else none old kept = refl
some_or_kept-or_else (some x) old kept = refl

saturated-or_else :
    (new old : Option ℕ) → saturated (or_else new old) ≡ or_else (saturated new) (saturated old)
saturated-or_else none old = refl
saturated-or_else (some x) old = refl

hashes-merged :
    (new old : Option (Dict B256)) (hashes : Dict B256) (n : ℕ)
    → IsMap new
    → IsMap old
    → lookup n (overridden_hashes new (overridden_hashes old hashes))
      ≡ lookup n (overridden_hashes (merged_hashes new old) hashes)
unfolding override_block_hashes
hashes-merged none old hashes n h k = refl
hashes-merged (some new) none hashes n h k = refl
hashes-merged (some new) (some old) hashes n h k =
    lookup-extend n new (extend old hashes) h
    ∙ ap (or_else (lookup n new)) (lookup-extend n old hashes k)
    ∙ sym (or_else_assoc (lookup n new) (lookup n old) (lookup n hashes))
    ∙ ap (λ x. or_else x (lookup n hashes)) (sym (lookup-extend n new old h))
    ∙ sym (lookup-extend n (extend new old) hashes (Distinct-extend new old k))

-- Applying overrides to a block that overrides were applied to gives the settings, and for each
-- number the block hash, that applying the merged overrides once gives, in which the newer value
-- replaces the older one. The overrides' hashes are maps, in which a number stands once.
pub apply_block_overrides-merged :
    (new old : BlockOverrides) (hashes : Dict B256) (env : BlockEnv)
    → IsMap new.block_hash
    → IsMap old.block_hash
    → ((apply_block_overrides new (apply_block_overrides old (hashes, env))).1
        ≡ (apply_block_overrides (merged new old) (hashes, env)).1)
      × ((n : ℕ)
          → lookup n (apply_block_overrides new (apply_block_overrides old (hashes, env))).0
            ≡ lookup n (apply_block_overrides (merged new old) (hashes, env)).0)
unfolding apply_block_overrides
apply_block_overrides-merged new old hashes env h k = (
  (λ i. record env {
    number = or_kept-or_else new.number old.number env.number i;
    difficulty = or_kept-or_else new.difficulty old.difficulty env.difficulty i;
    timestamp = or_kept-or_else new.time old.time env.timestamp i;
    gas_limit = or_kept-or_else new.gas_limit old.gas_limit env.gas_limit i;
    beneficiary = or_kept-or_else new.coinbase old.coinbase env.beneficiary i;
    prevrandao = some_or_kept-or_else new.random old.random env.prevrandao i;
    basefee =
        (or_kept-or_else (saturated new.base_fee) (saturated old.base_fee) env.basefee
            ∙ ap (λ fee. or_kept fee env.basefee)
                (sym (saturated-or_else new.base_fee old.base_fee)))
          i;
  }),
  λ n. hashes-merged new.block_hash old.block_hash hashes n h k,
)
