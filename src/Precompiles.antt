-- ===== src/Precompiles.antt =====
-- crates/evm/src/precompiles.rs: the map of precompiles, builtin until it is modified, and the
-- trait `Precompile` as a record of its methods. Hash maps and sets are dictionaries; closures
-- that are `FnMut` keep no state of their own. revm's `Precompiles` is a record of its methods.
use seismic_evm.Prelude.{
  if◌then◌else◌, filter, ℕ, ◌*◌, Bool, true, false, Option, none, some, List, [], ◌∷◌, map,
}
use seismic_evm.Prelude.Dict.{Dict, lookup, insert, erase}
use seismic_evm.Types.{Address, Bytes}
mod Kinds
unfoldable pub use Kinds.*
pub mod Run
pub mod Behaviour
pub mod Tracked
pub mod Edits
pub mod Outcome
mod Tests

module _ {J : Type 0} where
  -- `impl Precompile for revm::precompile::Precompile`
  abbrev pub revm_precompile : RevmPrecompile → DynPrecompile J
  revm_precompile p = record {
    precompile_id = p.id;
    call = λ input journal. (p.precompile input.data_bytes input.gas, journal);
    is_pure = true;
  }

  -- `DynPrecompile::new`, with a `PrecompileId` and a closure.
  abbrev pub new_precompile :
      PrecompileId → (PrecompileInput → J → PrecompileResult × J) → DynPrecompile J
  new_precompile id f = record { precompile_id = id; call = f; is_pure = true }

  -- `DynPrecompile::from` of a `PrecompileFn`, which goes through that of a closure.
  abbrev pub from_precompile_fn : (Bytes → ℕ → PrecompileResult) → DynPrecompile J
  from_precompile_fn f =
      new_precompile custom_closure (λ input journal. (f input.data_bytes input.gas, journal))

  -- `DynPrecompile::stateful`
  unfoldable pub stateful : DynPrecompile J → DynPrecompile J
  stateful p = record { precompile_id = p.precompile_id; call = p.call; is_pure = false }

  -- `PrecompilesMap::new`
  unfoldable pub new_map : Precompiles → PrecompilesMap J
  new_map p = record { precompiles = builtin p; precompile_lookup = none }

  -- The loop of `ensure_dynamic_precompiles`.
  abbrev pub insert_all : Dict RevmPrecompile → DynPrecompiles J → DynPrecompiles J
  insert_all [] d = d
  insert_all ((addr, pc) ∷ rest) d = insert_all rest (record {
    dyn_inner = insert addr (from_precompile_fn pc.precompile) d.dyn_inner;
    dyn_addresses = insert addr tt d.dyn_addresses;
  })

  abbrev pub empty : DynPrecompiles J
  empty = record { dyn_inner = []; dyn_addresses = [] }

  -- The precompiles that `ensure_dynamic_precompiles` returns a reference to.
  abbrev pub dynamic_of : PrecompilesKind J → DynPrecompiles J
  dynamic_of (builtin p) = insert_all p.inner empty
  dynamic_of (dynamic d) = d

  -- A write through the reference that `ensure_dynamic_precompiles` returns.
  abbrev pub update_dynamic :
      (DynPrecompiles J → DynPrecompiles J) → PrecompilesMap J → PrecompilesMap J
  update_dynamic f m = record m { precompiles = dynamic (f (dynamic_of m.precompiles)) }

  unfoldable pub ensure_dynamic_precompiles : PrecompilesMap J → PrecompilesMap J
  ensure_dynamic_precompiles m = update_dynamic (λ d. d) m

  unfoldable pub into_dyn_precompiles : PrecompilesMap J → DynPrecompiles J
  into_dyn_precompiles m = dynamic_of m.precompiles

  abbrev pub map_found :
      Address → (DynPrecompile J → DynPrecompile J) → DynPrecompiles J → DynPrecompiles J
  map_found address f d = elim (lookup address d.dyn_inner) [
    | none ↦ d
    | some pc ↦ record d { dyn_inner = insert address (f pc) (erase address d.dyn_inner) }
  ]

  unfoldable pub map_precompile :
      Address → (DynPrecompile J → DynPrecompile J) → PrecompilesMap J → PrecompilesMap J
  map_precompile address f = update_dynamic (map_found address f)

  -- The loop of `map_precompiles_filtered`, over the drained entries.
  abbrev pub map_entries :
      (Address → DynPrecompile J → DynPrecompile J)
      → (Address → DynPrecompile J → Bool)
      → Dict (DynPrecompile J)
      → Dict (DynPrecompile J)
      → Dict (DynPrecompile J)
  map_entries f filter [] new_map = new_map
  map_entries f filter ((addr, pc) ∷ rest) new_map =
      map_entries f filter rest (insert addr (if filter addr pc then f addr pc else pc) new_map)

  unfoldable pub map_precompiles_filtered :
      (Address → DynPrecompile J → DynPrecompile J)
      → (Address → DynPrecompile J → Bool)
      → PrecompilesMap J
      → PrecompilesMap J
  map_precompiles_filtered f filter =
      update_dynamic (λ d. record d { dyn_inner = map_entries f filter d.dyn_inner [] })

  unfoldable pub map_precompiles :
      (Address → DynPrecompile J → DynPrecompile J) → PrecompilesMap J → PrecompilesMap J
  map_precompiles f = map_precompiles_filtered f (λ _ _. true)

  unfoldable pub map_pure_precompiles :
      (Address → DynPrecompile J → DynPrecompile J) → PrecompilesMap J → PrecompilesMap J
  map_pure_precompiles f = map_precompiles_filtered f (λ _ pc. pc.is_pure)

  abbrev pub store_applied :
      Address → Option (DynPrecompile J) → DynPrecompiles J → DynPrecompiles J
  store_applied address (some pc) d = record {
    dyn_inner = insert address pc d.dyn_inner;
    dyn_addresses = insert address tt d.dyn_addresses;
  }
  store_applied address none d = record {
    dyn_inner = erase address d.dyn_inner;
    dyn_addresses = erase address d.dyn_addresses;
  }

  unfoldable pub apply_precompile :
      Address
      → (Option (DynPrecompile J) → Option (DynPrecompile J))
      → PrecompilesMap J
      → PrecompilesMap J
  apply_precompile address f =
      update_dynamic (λ d. store_applied address (f (lookup address d.dyn_inner)) d)

  unfoldable pub set_precompile_lookup :
      (Address → Option (DynPrecompile J)) → PrecompilesMap J → PrecompilesMap J
  set_precompile_lookup l m = record m { precompile_lookup = some l }

  abbrev pub addresses_of : PrecompilesKind J → List Address
  addresses_of (builtin p) = p.builtin_addresses
  addresses_of (dynamic d) = map (λ e. e.0) d.dyn_addresses

  -- `addresses`, also those of `warm_addresses`.
  unfoldable pub addresses : PrecompilesMap J → List Address
  addresses m = addresses_of m.precompiles

  -- The precompile of the map itself, behind the trait.
  abbrev pub static_result : PrecompilesKind J → Address → Option (DynPrecompile J)
  static_result (builtin p) address = elim (p.get_builtin address) [
    | none ↦ none
    | some pc ↦ some (revm_precompile pc)
  ]
  static_result (dynamic d) address = lookup address d.dyn_inner

  abbrev pub by_lookup :
      Option (Address → Option (DynPrecompile J)) → Address → Option (DynPrecompile J)
  by_lookup none address = none
  by_lookup (some l) address = l address

  -- `get`, whose result is only used through the trait.
  unfoldable pub get : PrecompilesMap J → Address → Option (DynPrecompile J)
  get m address = elim (static_result m.precompiles address) [
    | some pc ↦ some pc
    | none ↦ by_lookup m.precompile_lookup address
  ]

  -- `PrecompileProvider::contains`
  unfoldable pub contains_address : PrecompilesMap J → Address → Bool
  unfolding get
  contains_address m address = elim (get m address) [ none ↦ false | some _ ↦ true ]
