-- ===== src/Overrides/Slots.antt =====
-- The storage slots that an override gives an account.
use seismic_evm.Prelude.{
  ◌==◌, ==→eq, Bool-cases, ℕ, ◌-◌, ◌^◌, ◌<◌, ◌≡◌, refl, ap, ◌∙◌, ◌≢◌, inl, inr, false, Option, none,
  some, [], ◌∷◌, arith,
}
use seismic_evm.Prelude.Dict.{Dict, lookup, insert, contains, lookup-insert, Distinct}
use seismic_evm.Types.{B256, FlaggedStorage, EvmStorageSlot}
use seismic_evm.Overrides.{OverrideDb, inverted, override_slot, insert_slots}

-- Every slot that is overridden differs from its original value, if different words are stored
-- differently.
pub slot_changed :
    (into : B256 → FlaggedStorage)
    → ((a b : B256) → into a ≡ into b → a ≡ b)
    → (value : B256) → value < 2 ^ 256
    → (override_slot into value).original_value ≢ (override_slot into value).present_value
unfolding override_slot inverted
slot_changed into injective value fits same =
    let halves : 2 ^ 256 - 1 - value ≡ value = injective _ _ same in omega (arith, halves)

-- Slots that are given stand once each, as in a hash map.
abbrev pub StandOnce : Option (Dict B256) → Type 0
StandOnce none = Unit
StandOnce (some slots) = Distinct slots

lookup-missing : (k : ℕ) (d : Dict B256) → contains k d ≡ false → lookup k d ≡ none
lookup-missing k [] h = refl
lookup-missing k ((j, v) ∷ d) h = ground (arith, lookup-missing k d)

module _ {Db DecodeError DbError : Type 0} (d : OverrideDb Db DecodeError DbError) where
  -- Exactly the given slots are stored, each with the given word as its present value and the
  -- inverted word as its original one, both converted.
  abbrev pub HasSlots : Dict B256 → Dict EvmStorageSlot → Type 0
  HasSlots given storage =
      (slot : B256)
      → lookup slot storage ≡ (elim (lookup slot given) [
        | none ↦ none
        | some word ↦ some (record {
          original_value = d.flagged (2 ^ 256 - 1 - word);
          present_value = d.flagged word;
          is_cold = false;
          transaction_id = 0;
        })
      ])

  lookup-insert_slots :
      (given : Dict B256) (storage : Dict EvmStorageSlot) (slot : B256)
      → Distinct given
      → lookup slot (insert_slots d.flagged given storage) ≡ (elim (lookup slot given) [
        | none ↦ lookup slot storage
        | some word ↦ some (override_slot d.flagged word)
      ])
  unfolding insert_slots
  lookup-insert_slots [] storage slot h = refl
  lookup-insert_slots ((k, word) ∷ more) storage slot h =
      let tail =
        lookup-insert_slots more (insert k (override_slot d.flagged word) storage) slot h.1 in
      let head = lookup-insert k slot (override_slot d.flagged word) storage in
      elim (Bool-cases (slot == k)) [
        | inl same ↦
            let missing : lookup slot more ≡ none =
              lookup-missing slot more (rw (==→eq slot k same) h.0) in
            rw same (tail ∙ rw missing (head ∙ rw same refl))
        | inr apart ↦
            let below : lookup slot (insert k (override_slot d.flagged word) storage)
                ≡ lookup slot storage =
              head ∙ rw apart refl in
            rw apart (
              tail
              ∙ ap
                  (λ kept. elim (lookup slot more) [
                    | none ↦ kept
                    | some given ↦ some (override_slot d.flagged given)
                  ])
                  below)
      ]

  pub insert_slots-HasSlots :
      (given : Dict B256) → Distinct given → HasSlots given (insert_slots d.flagged given [])
  unfolding override_slot inverted
  insert_slots-HasSlots given h slot = lookup-insert_slots given [] slot h
