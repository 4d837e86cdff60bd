-- ===== src/Precompiles/Behaviour.antt =====
-- Turning the builtin precompiles into dynamic ones changes what no caller can see but the
-- identifiers.
use seismic_evm.Prelude.{
  ◌==◌, if◌then◌else◌, ==→eq, Bool-cases, Option-cases, ok, pure, ◌≡◌, refl, sym, ap, ◌∙◌, inl, inr,
  Bool, false, Option, none, some, [], ◌∷◌,
}
use seismic_evm.Prelude.Dict.{
  Dict, lookup, contains, lookup-insert, contains-lookup, Distinct, elem,
}
use seismic_evm.Types.{Address}
use seismic_evm.Precompiles.{
  PrecompileResult, PrecompileInput, RevmPrecompile, Precompiles, DynPrecompile, DynPrecompiles,
  PrecompilesKind, builtin, dynamic, PrecompilesMap, from_precompile_fn, insert_all, empty,
  dynamic_of, ensure_dynamic_precompiles, static_result, by_lookup, get,
}
use seismic_evm.Precompiles.Run.{
  CallInputs, GasMeter, returned, CallContext, precompile_input, RunResult, interpret_result,
  call_found, run,
}

-- What the sources rely on of revm's `Precompiles`: each address once, and `get` and the
-- addresses are those of `inner`.
pub record PrecompilesLaws (p : Precompiles) : Type 0 where
  pub get_inner : (a : Address) → p.get_builtin a ≡ lookup a p.inner
  pub distinct : Distinct p.inner
  pub known : (a : Address) → elem a p.builtin_addresses ≡ contains a p.inner

-- The laws where the map is still builtin.
abbrev pub BuiltinLaws : {J : Type 0} → PrecompilesKind J → Type 0
BuiltinLaws (builtin p) = PrecompilesLaws p
BuiltinLaws (dynamic d) = Unit

module _ {J : Type 0} where
  -- What a precompile does, apart from its name.
  abbrev pub behaviour : DynPrecompile J → (PrecompileInput → J → PrecompileResult × J) × Bool
  behaviour pc = (pc.call, pc.is_pure)

  abbrev pub behaviour_of :
      Option (DynPrecompile J) → Option ((PrecompileInput → J → PrecompileResult × J) × Bool)
  behaviour_of none = none
  behaviour_of (some pc) = some (behaviour pc)

  abbrev dyn_of : Option RevmPrecompile → Option (DynPrecompile J)
  dyn_of none = none
  dyn_of (some pc) = some (from_precompile_fn pc.precompile)

  -- A later entry of a map with distinct keys does not hide an earlier one.
  lookup-insert_all :
      (a : Address) (entries : Dict RevmPrecompile) (d : DynPrecompiles J)
      → Distinct entries
      → lookup a (insert_all entries d).dyn_inner
        ≡ (if contains a entries then dyn_of (lookup a entries) else lookup a d.dyn_inner)
  lookup-insert_all a [] d h = refl
  lookup-insert_all a ((k, pc) ∷ rest) d h =
      let tail = lookup-insert_all a rest _ h.1 in
      let head = lookup-insert k a (from_precompile_fn pc.precompile) d.dyn_inner in
      elim (Bool-cases (a == k)) [
        | inl same ↦
            let fresh : contains a rest ≡ false = rw (==→eq a k same) h.0 in
            rw same (tail ∙ rw fresh (head ∙ rw same refl))
        | inr apart ↦ rw apart (tail ∙ rw head (rw apart refl))
      ]

  ensure_dynamic-static :
      (k : PrecompilesKind J)
      → BuiltinLaws k
      → (a : Address)
      → behaviour_of (lookup a (dynamic_of k).dyn_inner) ≡ behaviour_of (static_result k a)
  ensure_dynamic-static (dynamic d) laws a = refl
  ensure_dynamic-static (builtin p) laws a =
      let found = lookup-insert_all a p.inner empty laws.distinct in
      elim (Option-cases (lookup a p.inner)) [
        | inl missing ↦
            rw (laws.get_inner a) (rw found (rw (contains-lookup a p.inner) (rw missing refl)))
        | inr (pc, there) ↦
            rw (laws.get_inner a) (rw found (rw (contains-lookup a p.inner) (rw there refl)))
      ]

  get_of :
      (o o' : Option (DynPrecompile J)) (l : Option (Address → Option (DynPrecompile J)))
      (a : Address)
      → behaviour_of o ≡ behaviour_of o'
      → behaviour_of (elim o [ some pc ↦ some pc | none ↦ by_lookup l a ])
        ≡ behaviour_of (elim o' [ some pc ↦ some pc | none ↦ by_lookup l a ])
  get_of none none l a h = refl
  get_of none (some pc') l a h = absurd (cc h)
  get_of (some pc) none l a h = absurd (cc h)
  get_of (some pc) (some pc') l a h = h

  -- Turning the precompiles into dynamic ones changes neither what any address's precompile does
  -- nor whether it is pure.
  pub behaviour-ensure_dynamic_precompiles :
      (m : PrecompilesMap J)
      → BuiltinLaws m.precompiles
      → (a : Address) → behaviour_of (get (ensure_dynamic_precompiles m) a) ≡ behaviour_of (get m a)
  unfolding get ensure_dynamic_precompiles
  behaviour-ensure_dynamic_precompiles m laws a =
      get_of (lookup a (dynamic_of m.precompiles).dyn_inner) (static_result m.precompiles a)
        m.precompile_lookup a (ensure_dynamic-static m.precompiles laws a)

  -- A call is a function of what the precompile does.
  run_behaviour :
      (g : GasMeter) (context : CallContext) (inputs : CallInputs) (j : J)
      → Option ((PrecompileInput → J → PrecompileResult × J) × Bool)
      → RunResult g × J
  run_behaviour g context inputs j none = (returned (ok none), j)
  run_behaviour g context inputs j (some (call, pure)) =
      let (r, j') = call (precompile_input context inputs) j in
      (interpret_result g inputs.gas_limit r, j')

  call_found-behaviour :
      (g : GasMeter) (o : Option (DynPrecompile J)) (context : CallContext) (inputs : CallInputs)
      (j : J)
      → call_found g o context inputs j ≡ run_behaviour g context inputs j (behaviour_of o)
  unfolding run_behaviour
  call_found-behaviour g none context inputs j = refl
  call_found-behaviour g (some pc) context inputs j = refl

  -- A call ends in the same way, and leaves the same journal, whether or not the precompiles have
  -- been turned into dynamic ones.
  pub run-ensure_dynamic_precompiles :
      (g : GasMeter) (m : PrecompilesMap J)
      → BuiltinLaws m.precompiles
      → (context : CallContext) (inputs : CallInputs) (j : J)
      → run g (ensure_dynamic_precompiles m) context inputs j ≡ run g m context inputs j
  unfolding run
  run-ensure_dynamic_precompiles g m laws context inputs j =
      call_found-behaviour g (get (ensure_dynamic_precompiles m) inputs.bytecode_address) context
        inputs j
      ∙ ap (run_behaviour g context inputs j)
          (behaviour-ensure_dynamic_precompiles m laws inputs.bytecode_address)
      ∙ sym (call_found-behaviour g (get m inputs.bytecode_address) context inputs j)
