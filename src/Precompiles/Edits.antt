-- ===== src/Precompiles/Edits.antt =====
-- What the operations that edit the map do at each address, and that the set of addresses follows
-- the map.
use seismic_evm.Prelude.{
  ◌==◌, if◌then◌else◌, ==→eq, Bool-cases, Option-cases, filter, ◌≡◌, refl, sym, ◌∙◌, inl, inr, Bool,
  false, Option, none, some, [], ◌∷◌,
}
use seismic_evm.Prelude.Dict.{
  Dict, lookup, erase, contains, lookup-insert, lookup-erase, contains-lookup, Distinct,
}
use seismic_evm.Types.{Address}
use seismic_evm.Precompiles.{
  DynPrecompile, DynPrecompiles, PrecompilesMap, new_map, dynamic_of, map_found, map_precompile,
  map_entries, map_precompiles_filtered, store_applied, apply_precompile,
}
use mathlib.Core.Path.{subst}

module _ {J : Type 0} where
  -- The precompile of the map at an address, once it is dynamic.
  abbrev pub entry : PrecompilesMap J → Address → Option (DynPrecompile J)
  entry m a = lookup a (dynamic_of m.precompiles).dyn_inner

  -- Where the function of `map_precompile` applies.
  abbrev pub mapped :
      Address
      → (DynPrecompile J → DynPrecompile J)
      → Option (DynPrecompile J)
      → Option (DynPrecompile J)
  mapped a f none = none
  mapped a f (some pc) = some (f pc)

  none_at :
      (a b : Address) (d : Dict (DynPrecompile J))
      → lookup a d ≡ none
      → lookup b d ≡ (if b == a then none else lookup b d)
  none_at a b d missing = elim (Bool-cases (b == a)) [
    | inl same ↦ rw same (subst (λ k. lookup k d ≡ none) (sym (==→eq b a same)) missing)
    | inr apart ↦ rw apart refl
  ]

  erased :
      (a b : Address) (o : Option (DynPrecompile J)) (d : Dict (DynPrecompile J))
      → (if b == a then o else lookup b (erase a d)) ≡ (if b == a then o else lookup b d)
  erased a b o d = elim (Bool-cases (b == a)) [
    | inl same ↦ rw same refl
    | inr apart ↦ rw apart (lookup-erase a b d ∙ rw apart refl)
  ]

  lookup-map_found :
      (a b : Address) (f : DynPrecompile J → DynPrecompile J) (d : DynPrecompiles J)
      → lookup b (map_found a f d).dyn_inner
        ≡ (if b == a then mapped a f (lookup a d.dyn_inner) else lookup b d.dyn_inner)
  lookup-map_found a b f d = elim (Option-cases (lookup a d.dyn_inner)) [
    | inl missing ↦ rw (missing, map_found) (none_at a b d.dyn_inner missing)
    | inr (pc, there) ↦
        rw (there, map_found)
          (lookup-insert a b (f pc) (erase a d.dyn_inner) ∙ erased a b _ d.dyn_inner)
  ]

  lookup-store_applied :
      (a b : Address) (o : Option (DynPrecompile J)) (d : DynPrecompiles J)
      → lookup b (store_applied a o d).dyn_inner ≡ (if b == a then o else lookup b d.dyn_inner)
  lookup-store_applied a b none d = lookup-erase a b d.dyn_inner
  lookup-store_applied a b (some pc) d = lookup-insert a b pc d.dyn_inner

  -- `apply_precompile` puts at its address what the closure makes of the precompile there, which
  -- may be nothing, and changes no other address.
  pub entry-apply_precompile :
      (a b : Address) (f : Option (DynPrecompile J) → Option (DynPrecompile J))
      (m : PrecompilesMap J)
      → entry (apply_precompile a f m) b ≡ (if b == a then f (entry m a) else entry m b)
  unfolding apply_precompile
  entry-apply_precompile a b f m = lookup-store_applied a b _ (dynamic_of m.precompiles)

  -- What `map_precompiles_filtered` makes of the precompile at an address.
  abbrev pub filtered :
      (Address → DynPrecompile J → DynPrecompile J)
      → (Address → DynPrecompile J → Bool)
      → Address
      → Option (DynPrecompile J)
      → Option (DynPrecompile J)
  filtered f filter a none = none
  filtered f filter a (some pc) = some (if filter a pc then f a pc else pc)

  lookup-map_entries :
      (f : Address → DynPrecompile J → DynPrecompile J) (filter : Address → DynPrecompile J → Bool)
      (b : Address) (entries new_map : Dict (DynPrecompile J))
      → Distinct entries
      → lookup b (map_entries f filter entries new_map)
        ≡ (if contains b entries then filtered f filter b (lookup b entries) else lookup b new_map)
  lookup-map_entries f filter b [] new_map h = refl
  lookup-map_entries f filter b ((k, pc) ∷ rest) new_map h =
      let tail = lookup-map_entries f filter b rest _ h.1 in
      let head = lookup-insert k b (if filter k pc then f k pc else pc) new_map in
      elim (Bool-cases (b == k)) [
        | inl same ↦
            let e = ==→eq b k same in
            let fresh : contains b rest ≡ false = rw e h.0 in
            rw same (tail ∙ rw fresh (head ∙ rw same (rw e refl)))
        | inr apart ↦ rw apart (tail ∙ rw head (rw apart refl))
      ]

  -- `map_precompile` applies the closure to the precompile at its address, if there is one, and
  -- changes no other address.
  entry-map_precompile :
      (a b : Address) (f : DynPrecompile J → DynPrecompile J) (m : PrecompilesMap J)
      → entry (map_precompile a f m) b ≡ (if b == a then mapped a f (entry m a) else entry m b)
  unfolding map_precompile
  entry-map_precompile a b f m = lookup-map_found a b f (dynamic_of m.precompiles)

  -- `map_precompiles_filtered` applies the closure to exactly the precompiles that the filter
  -- accepts, each under its own address, and keeps the others, if no address is there twice.
  pub entry-map_precompiles_filtered :
      (f : Address → DynPrecompile J → DynPrecompile J) (filter : Address → DynPrecompile J → Bool)
      (m : PrecompilesMap J) (a : Address)
      → Distinct (dynamic_of m.precompiles).dyn_inner
      → entry (map_precompiles_filtered f filter m) a ≡ filtered f filter a (entry m a)
  unfolding map_precompiles_filtered
  entry-map_precompiles_filtered f filter m a h =
      let d = (dynamic_of m.precompiles).dyn_inner in
      lookup-map_entries f filter a d [] h
      ∙ rw (contains-lookup a d) (elim (Option-cases (lookup a d)) [
        | inl missing ↦ rw missing refl
        | inr (pc, there) ↦ rw there refl
      ])
