-- ===== src/Precompiles/Tracked.antt =====
-- The set of addresses follows the map of precompiles, so the addresses that are warm are those
-- that the map itself answers.
use seismic_evm.Prelude.{
  ◌==◌, if◌then◌else◌, ==→eq, Bool-cases, Option-cases, filter, ◌≡◌, refl, sym, ◌∙◌, inl, inr, Bool,
  true, false, ◌||◌, Option, none, some, List, [], ◌∷◌,
}
use seismic_evm.Prelude.Dict.{
  Dict, lookup, insert, erase, contains, contains-insert, contains-erase, contains-lookup, Distinct,
  elem, Distinct-insert, Distinct-erase, elem-keys,
}
use seismic_evm.Types.{Address}
use seismic_evm.Precompiles.{
  RevmPrecompile, Precompiles, DynPrecompile, DynPrecompiles, PrecompilesKind, builtin, dynamic,
  PrecompilesMap, from_precompile_fn, new_map, insert_all, empty, dynamic_of,
  ensure_dynamic_precompiles, map_found, map_precompile, map_entries, map_precompiles_filtered,
  store_applied, apply_precompile, set_precompile_lookup, addresses_of, addresses, static_result,
}
use seismic_evm.Precompiles.Behaviour.{PrecompilesLaws, BuiltinLaws}

or_swap : (x y z : Bool) → (x || (y || z)) ≡ ((y || x) || z)
or_swap true true z = refl
or_swap true false z = refl
or_swap false true z = refl
or_swap false false z = refl

or_false : (x : Bool) → (x || false) ≡ x
or_false true = refl
or_false false = refl

-- The operations that edit the map.
pub data Edit (J : Type 0) : Type 0 where
  ensure : Edit J
  map_one : Address → (DynPrecompile J → DynPrecompile J) → Edit J
  map_some :
      (Address → DynPrecompile J → DynPrecompile J) → (Address → DynPrecompile J → Bool) → Edit J
  apply : Address → (Option (DynPrecompile J) → Option (DynPrecompile J)) → Edit J
  set_lookup : (Address → Option (DynPrecompile J)) → Edit J

module _ {J : Type 0} where
  -- Each address is there once, and the set has the addresses of the map.
  pub record IsTracked (d : DynPrecompiles J) : Type 0 where
    pub distinct_keys : Distinct d.dyn_inner
    pub same_keys : (a : Address) → contains a d.dyn_addresses ≡ contains a d.dyn_inner

  IsTracked-insert :
      (k : Address) (pc : DynPrecompile J) (d : DynPrecompiles J)
      → IsTracked d
      → IsTracked (store_applied k (some pc) d)
  IsTracked-insert k pc d h = record {
    distinct_keys = Distinct-insert k pc d.dyn_inner h.distinct_keys;
    same_keys = λ a.
        contains-insert k a tt d.dyn_addresses
        ∙ rw (h.same_keys a) (sym (contains-insert k a pc d.dyn_inner));
  }

  IsTracked-erase :
      (k : Address) (d : DynPrecompiles J) → IsTracked d → IsTracked (store_applied k none d)
  IsTracked-erase k d h = record {
    distinct_keys = Distinct-erase k d.dyn_inner h.distinct_keys;
    same_keys = λ a.
        contains-erase k a d.dyn_addresses
        ∙ rw (h.same_keys a) (sym (contains-erase k a d.dyn_inner));
  }

  IsTracked-insert_all :
      (entries : Dict RevmPrecompile) (d : DynPrecompiles J)
      → IsTracked d
      → IsTracked (insert_all entries d)
  IsTracked-insert_all [] d h = h
  IsTracked-insert_all ((k, pc) ∷ rest) d h =
      IsTracked-insert_all rest _ (IsTracked-insert k (from_precompile_fn pc.precompile) d h)

  IsTracked-apply :
      (k : Address) (o : Option (DynPrecompile J)) (d : DynPrecompiles J)
      → IsTracked d
      → IsTracked (store_applied k o d)
  IsTracked-apply k none d h = IsTracked-erase k d h
  IsTracked-apply k (some pc) d h = IsTracked-insert k pc d h

  contains-replace :
      (k a : Address) (pc new : DynPrecompile J) (d : Dict (DynPrecompile J))
      → lookup k d ≡ some pc
      → contains a (insert k new (erase k d)) ≡ contains a d
  contains-replace k a pc new d there =
      contains-insert k a new (erase k d)
      ∙ rw (contains-erase k a d) (elim (Bool-cases (a == k)) [
        | inl same ↦ rw same (rw (==→eq a k same) (sym (contains-lookup k d ∙ rw there refl)))
        | inr apart ↦ rw apart refl
      ])

  IsTracked-map_found :
      (k : Address) (f : DynPrecompile J → DynPrecompile J) (d : DynPrecompiles J)
      → IsTracked d
      → IsTracked (map_found k f d)
  IsTracked-map_found k f d h = elim (Option-cases (lookup k d.dyn_inner)) [
    | inl missing ↦ rw (missing, map_found) h
    | inr (pc, there) ↦
        rw (there, map_found)
          (record {
            distinct_keys =
                Distinct-insert k (f pc) (erase k d.dyn_inner)
                  (Distinct-erase k d.dyn_inner h.distinct_keys);
            same_keys = λ a. h.same_keys a ∙ sym (contains-replace k a pc (f pc) d.dyn_inner there);
          })
  ]

  contains-map_entries :
      (f : Address → DynPrecompile J → DynPrecompile J) (filter : Address → DynPrecompile J → Bool)
      (a : Address) (entries new_map : Dict (DynPrecompile J))
      → contains a (map_entries f filter entries new_map)
        ≡ (contains a entries || contains a new_map)
  contains-map_entries f filter a [] new_map = refl
  contains-map_entries f filter a ((k, pc) ∷ rest) new_map =
      contains-map_entries f filter a rest _
      ∙ rw (contains-insert k a (if filter k pc then f k pc else pc) new_map)
          (or_swap (contains a rest) (a == k) (contains a new_map))

  Distinct-map_entries :
      (f : Address → DynPrecompile J → DynPrecompile J) (filter : Address → DynPrecompile J → Bool)
      (entries new_map : Dict (DynPrecompile J))
      → Distinct new_map
      → Distinct (map_entries f filter entries new_map)
  Distinct-map_entries f filter [] new_map h = h
  Distinct-map_entries f filter ((k, pc) ∷ rest) new_map h =
      Distinct-map_entries f filter rest _ (Distinct-insert k _ new_map h)

  abbrev pub Tracked : PrecompilesMap J → Type 0
  Tracked m = IsTracked (dynamic_of m.precompiles)

  -- The precompiles of a builtin map are tracked once they are dynamic.
  pub new_map-Tracked : (p : Precompiles) → Tracked (new_map p)
  unfolding new_map
  new_map-Tracked p =
      IsTracked-insert_all p.inner empty (record { distinct_keys = tt; same_keys = λ a. refl })

  abbrev pub edit : Edit J → PrecompilesMap J → PrecompilesMap J
  edit ensure = ensure_dynamic_precompiles
  edit (map_one a f) = map_precompile a f
  edit (map_some f filter) = map_precompiles_filtered f filter
  edit (apply a f) = apply_precompile a f
  edit (set_lookup l) = set_precompile_lookup l

  -- Every operation that edits the map keeps the set of addresses equal to the map's.
  pub edit-Tracked : (e : Edit J) (m : PrecompilesMap J) → Tracked m → Tracked (edit e m)
  unfolding ensure_dynamic_precompiles map_precompile map_precompiles_filtered apply_precompile
      set_precompile_lookup
  edit-Tracked ensure m h = h
  edit-Tracked (map_one a f) m h = IsTracked-map_found a f (dynamic_of m.precompiles) h
  edit-Tracked (map_some f filter) m h = record {
    distinct_keys = Distinct-map_entries f filter (dynamic_of m.precompiles).dyn_inner [] tt;
    same_keys = λ a.
        h.same_keys a
        ∙ sym (
            contains-map_entries f filter a (dynamic_of m.precompiles).dyn_inner []
            ∙ or_false (contains a (dynamic_of m.precompiles).dyn_inner));
  }
  edit-Tracked (apply a f) m h = IsTracked-apply a _ (dynamic_of m.precompiles) h
  edit-Tracked (set_lookup l) m h = h

  abbrev pub edits : List (Edit J) → PrecompilesMap J → PrecompilesMap J
  edits [] m = m
  edits (e ∷ es) m = edits es (edit e m)

  edit-laws :
      (e : Edit J) (m : PrecompilesMap J)
      → BuiltinLaws m.precompiles
      → BuiltinLaws (edit e m).precompiles
  unfolding ensure_dynamic_precompiles map_precompile map_precompiles_filtered apply_precompile
      set_precompile_lookup
  edit-laws ensure m h = tt
  edit-laws (map_one a f) m h = tt
  edit-laws (map_some f filter) m h = tt
  edit-laws (apply a f) m h = tt
  edit-laws (set_lookup l) m h = h

  elem-addresses_of :
      (k : PrecompilesKind J) (a : Address)
      → IsTracked (dynamic_of k)
      → BuiltinLaws k
      → elem a (addresses_of k) ≡ (elim (static_result k a) [ none ↦ false | some _ ↦ true ])
  elem-addresses_of (builtin p) a h laws =
      laws.known a
      ∙ contains-lookup a p.inner
      ∙ rw (laws.get_inner a) (elim (Option-cases (lookup a p.inner)) [
        | inl missing ↦ rw missing refl
        | inr (pc, there) ↦ rw there refl
      ])
  elem-addresses_of (dynamic d) a h laws =
      elem-keys a d.dyn_addresses ∙ h.same_keys a ∙ contains-lookup a d.dyn_inner

  edits-known :
      (es : List (Edit J)) (m : PrecompilesMap J)
      → Tracked m
      → BuiltinLaws m.precompiles
      → (a : Address)
      → elem a (addresses (edits es m))
        ≡ (elim (static_result (edits es m).precompiles a) [ none ↦ false | some _ ↦ true ])
  unfolding addresses
  edits-known [] m h laws a = elem-addresses_of m.precompiles a h laws
  edits-known (e ∷ es) m h laws a =
      edits-known es (edit e m) (edit-Tracked e m h) (edit-laws e m laws) a

  -- After any edits of a builtin map, the warm addresses are exactly those at which the map itself
  -- has a precompile: an address that only the lookup function answers is not warm.
  pub addresses-edits :
      (p : Precompiles)
      → PrecompilesLaws p
      → (es : List (Edit J)) (a : Address)
      → elem a (addresses (edits es (new_map p)))
        ≡ (elim (static_result (edits es (new_map p)).precompiles a) [
          | none ↦ false
          | some _ ↦ true
        ])
  unfolding new_map
  addresses-edits p laws es a = edits-known es (new_map p) (new_map-Tracked p) laws a
