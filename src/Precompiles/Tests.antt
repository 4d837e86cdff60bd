-- ===== src/Precompiles/Tests.antt =====
-- The theorems on the map of precompiles at concrete inputs.
use seismic_evm.Prelude.{
  leb, ◌==◌, if◌then◌else◌, ok, ℕ, ◌-◌, ◌≡◌, refl, true, false, none, some, [], ◌∷◌,
}
use seismic_evm.Prelude.Dict.{Dict, lookup, elem}
use seismic_evm.Precompiles.{
  identifier, RevmPrecompile, Precompiles, DynPrecompile, builtin, PrecompilesMap,
  from_precompile_fn, new_map, ensure_dynamic_precompiles, map_precompiles_filtered,
  apply_precompile, addresses, static_result,
}
use seismic_evm.Precompiles.Run.{transfer, bytes, CallInputs, return_ok, GasMeter, CallContext, run}
use seismic_evm.Precompiles.Behaviour.{PrecompilesLaws, run-ensure_dynamic_precompiles}
use seismic_evm.Precompiles.Tracked.{
  ensure, apply, Tracked, edit, edit-Tracked, edits, addresses-edits,
}
use seismic_evm.Precompiles.Edits.{
  entry, entry-apply_precompile, filtered, entry-map_precompiles_filtered,
}
use seismic_evm.Toy.{toy_block}
use seismic_evm.Precompiles.Outcome.{answered, RunOutcome, run-RunOutcome}

-- The identity, for 15 gas.
abbrev identity : RevmPrecompile
identity = record {
  id = identifier 4;
  precompile =
      λ input gas. ok (record { output_gas_used = 15; output_bytes = input; reverted = false });
}

abbrev toy_inner_map : Dict RevmPrecompile
toy_inner_map = (4, identity) ∷ []

abbrev toy_precompiles : Precompiles
toy_precompiles = record {
  inner = toy_inner_map;
  get_builtin = λ a. lookup a toy_inner_map;
  builtin_addresses = 4 ∷ [];
}

toy_precompiles-laws : PrecompilesLaws toy_precompiles
toy_precompiles-laws = record { get_inner = λ a. refl; distinct = (refl, tt); known = λ a. refl }

abbrev toy_map : PrecompilesMap ℕ
toy_map = record { precompiles = builtin toy_precompiles; precompile_lookup = none }

abbrev toy_gas : GasMeter
toy_gas = record {
  Gas = ℕ;
  new_gas = λ limit. limit;
  record_cost = λ cost gas. (leb cost gas, gas - cost);
}

abbrev toy_context : CallContext
toy_context = record { context_block = toy_block; shared_memory_buffer_slice = λ start end. none }

abbrev toy_call : CallInputs
toy_call = record {
  input = bytes (1 ∷ 2 ∷ []);
  gas_limit = 100;
  bytecode_address = 4;
  target_address = 4;
  caller = 60;
  value = transfer 0;
}

abbrev logged : DynPrecompile ℕ → DynPrecompile ℕ
logged pc = record pc { is_pure = false }

run-ensure_dynamic_precompiles_example :
    run toy_gas (ensure_dynamic_precompiles toy_map) toy_context toy_call 0
    ≡ run toy_gas toy_map toy_context toy_call 0
run-ensure_dynamic_precompiles_example =
    run-ensure_dynamic_precompiles toy_gas toy_map toy_precompiles-laws toy_context toy_call 0

edit-Tracked_example :
    Tracked (edit (apply 9 (λ _. some (from_precompile_fn identity.precompile))) toy_map)
edit-Tracked_example =
    edit-Tracked (apply 9 (λ _. some (from_precompile_fn identity.precompile))) toy_map
      (record { distinct_keys = (refl, tt); same_keys = λ a. refl })

addresses-edits_example :
    elem 4 (addresses (edits (ensure ∷ apply 4 (λ _. none) ∷ []) (new_map {J = ℕ} toy_precompiles)))
    ≡ (elim (static_result
        (edits (ensure ∷ apply 4 (λ _. none) ∷ []) (new_map {J = ℕ} toy_precompiles)).precompiles
        4) [ none ↦ false | some _ ↦ true ])
addresses-edits_example =
    addresses-edits toy_precompiles toy_precompiles-laws (ensure ∷ apply 4 (λ _. none) ∷ []) 4

entry-map_precompiles_filtered_example :
    entry (map_precompiles_filtered (λ _. logged) (λ _ pc. pc.is_pure) toy_map) 4
    ≡ filtered (λ _. logged) (λ _ pc. pc.is_pure) 4 (entry toy_map 4)
entry-map_precompiles_filtered_example =
    entry-map_precompiles_filtered (λ _. logged) (λ _ pc. pc.is_pure) toy_map 4 (refl, tt)

entry-apply_precompile_example :
    entry (apply_precompile 4 (λ _. none) toy_map) 4 ≡ (if 4 == 4 then none else entry toy_map 4)
entry-apply_precompile_example = entry-apply_precompile 4 4 (λ _. none) toy_map

-- The precompile uses 15 of 100 gas.
run-RunOutcome_example :
    RunOutcome toy_gas toy_map toy_context toy_call 0
      (answered toy_gas return_ok 85 (1 ∷ 2 ∷ []), 0)
unfolding run
run-RunOutcome_example = run-RunOutcome toy_gas (λ limit cost. refl) toy_map toy_context toy_call 0
