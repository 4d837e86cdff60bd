-- ===== src/Precompiles/Outcome.antt =====
-- What a call of a precompile does, on each way in which it can end.
use seismic_evm.Prelude.{
  leb, leb→le, leb→lt, Bool-cases, Option-cases, ok, err, ◌≤◌, ◌<◌, ◌≡◌, refl, sym, ◌∙◌, ◌⊎◌, inl,
  inr, true, false, Option, none, some, [],
}
use seismic_evm.Prelude.Dict.{lookup}
use seismic_evm.Types.{Address, Bytes}
use seismic_evm.Precompiles.{
  fatal_error, recoverable, PrecompileOutput, PrecompileResult, PrecompileInput, DynPrecompile,
  PrecompilesKind, builtin, dynamic, PrecompilesMap, by_lookup, get,
}
use seismic_evm.Precompiles.Run.{
  transfer, apparent, shared_buffer, bytes, CallInputs, InstructionResult, return_ok, revert_result,
  precompile_oog, precompile_error, GasMeter, CountsGas, panicked, returned, CallContext,
  precompile_input, RunResult, interpret_result, run,
}

-- The input that a call passes on.
abbrev pub passed_on : CallContext → CallInputs → PrecompileInput
passed_on context inputs = record {
  data_bytes = elim inputs.input [
    | bytes given ↦ given
    | shared_buffer start end ↦ elim (context.shared_memory_buffer_slice start end) [
      | none ↦ []
      | some slice ↦ slice
    ]
  ];
  gas = inputs.gas_limit;
  caller = inputs.caller;
  value = elim inputs.value [ transfer amount ↦ amount | apparent amount ↦ amount ];
  target_address = inputs.target_address;
  bytecode_address = inputs.bytecode_address;
  block_env = context.context_block;
}

module _ {J : Type 0} where
  -- What the lookup function finds, if there is one.
  abbrev looked_up : PrecompilesMap J → Address → Option (DynPrecompile J)
  looked_up m address = elim m.precompile_lookup [ none ↦ none | some look_up ↦ look_up address ]

  -- The precompile at an address: the map's own, or else what the lookup function finds.
  abbrev pub serving : PrecompilesMap J → Address → Option (DynPrecompile J)
  serving m address = elim m.precompiles [
    | builtin b ↦ elim (b.get_builtin address) [
      | none ↦ looked_up m address
      | some pc ↦ some (record {
        precompile_id = pc.id;
        call = λ input j. (pc.precompile input.data_bytes input.gas, j);
        is_pure = true;
      })
    ]
    | dynamic d ↦ elim (lookup address d.dyn_inner) [
      | none ↦ looked_up m address
      | some pc ↦ some pc
    ]
  ]

  get-serving : (m : PrecompilesMap J) (address : Address) → get m address ≡ serving m address
  unfolding get
  get-serving m address = by_kind m.precompiles
    where
      by_lookup_lem :
          (o : Option (Address → Option (DynPrecompile J)))
          → by_lookup o address ≡ (elim o [ none ↦ none | some look_up ↦ look_up address ])
      by_lookup_lem none = refl
      by_lookup_lem (some look_up) = refl

      by_kind :
          (k : PrecompilesKind J)
          → get (record m { precompiles = k }) address
            ≡ serving (record m { precompiles = k }) address
      by_kind (builtin b) = elim (Option-cases (b.get_builtin address)) [
        | inl missing ↦ rw (missing, get, serving) (by_lookup_lem m.precompile_lookup)
        | inr (pc, found) ↦ rw (found, get, serving) refl
      ]
      by_kind (dynamic d) = elim (Option-cases (lookup address d.dyn_inner)) [
        | inl missing ↦ rw (missing, get, serving) (by_lookup_lem m.precompile_lookup)
        | inr (pc, found) ↦ rw (found, get, serving) refl
      ]

passed_on_lem :
    (context : CallContext) (inputs : CallInputs)
    → precompile_input context inputs ≡ passed_on context inputs
passed_on_lem context inputs = refl

module _ (g : GasMeter) where
  -- A call that is answered with a result, the gas counter and the output.
  abbrev pub answered : InstructionResult → g.Gas → Bytes → RunResult g
  answered result gas output =
      returned (ok (some (record { result = result; gas = gas; output = output })))

  module _ {J : Type 0} where
    -- The outcome by cases.
    pub data RunOutcome (m : PrecompilesMap J) (context : CallContext) (inputs : CallInputs) (j : J)
        (r : RunResult g × J) : Type 0 where
      no_precompile :
          serving m inputs.bytecode_address ≡ none
          → r ≡ (returned (ok none), j)
          → RunOutcome m context inputs j r
      failed_fatally :
          (pc : DynPrecompile J) (j' : J) (message : Bytes)
          → serving m inputs.bytecode_address ≡ some pc
          → pc.call (passed_on context inputs) j ≡ (err (fatal_error message), j')
          → r ≡ (returned (err message), j')
          → RunOutcome m context inputs j r
      out_of_gas :
          (pc : DynPrecompile J) (j' : J)
          → serving m inputs.bytecode_address ≡ some pc
          → pc.call (passed_on context inputs) j ≡ (err (recoverable true), j')
          → r ≡ (answered precompile_oog (g.new_gas inputs.gas_limit) [], j')
          → RunOutcome m context inputs j r
      other_error :
          (pc : DynPrecompile J) (j' : J)
          → serving m inputs.bytecode_address ≡ some pc
          → pc.call (passed_on context inputs) j ≡ (err (recoverable false), j')
          → r ≡ (answered precompile_error (g.new_gas inputs.gas_limit) [], j')
          → RunOutcome m context inputs j r
      overspent :
          (pc : DynPrecompile J) (j' : J) (output : PrecompileOutput)
          → serving m inputs.bytecode_address ≡ some pc
          → pc.call (passed_on context inputs) j ≡ (ok output, j')
          → inputs.gas_limit < output.output_gas_used
          → r ≡ (panicked, j')
          → RunOutcome m context inputs j r
      charged :
          (pc : DynPrecompile J) (j' : J) (output : PrecompileOutput) (result : InstructionResult)
          → serving m inputs.bytecode_address ≡ some pc
          → pc.call (passed_on context inputs) j ≡ (ok output, j')
          → output.output_gas_used ≤ inputs.gas_limit
          → ((output.reverted ≡ false) × (result ≡ return_ok))
            ⊎ ((output.reverted ≡ true) × (result ≡ revert_result))
          → r ≡ (
            answered result
                (g.record_cost output.output_gas_used (g.new_gas inputs.gas_limit)).1
                output.output_bytes,
            j',
          )
          → RunOutcome m context inputs j r

    -- What a found precompile's result is made of.
    interpret-RunOutcome :
        CountsGas g
        → (m : PrecompilesMap J) (context : CallContext) (inputs : CallInputs) (j : J)
          (pc : DynPrecompile J)
        → serving m inputs.bytecode_address ≡ some pc
        → (res : PrecompileResult) (j' : J) → pc.call (passed_on context inputs) j ≡ (res, j')
        → RunOutcome m context inputs j (interpret_result g inputs.gas_limit res, j')
    unfolding interpret_result
    interpret-RunOutcome counts m context inputs j pc found (err (fatal_error e)) j' called =
        failed_fatally pc j' e found called refl
    interpret-RunOutcome counts m context inputs j pc found (err (recoverable true)) j' called =
        out_of_gas pc j' found called refl
    interpret-RunOutcome counts m context inputs j pc found (err (recoverable false)) j' called =
        other_error pc j' found called refl
    interpret-RunOutcome counts m context inputs j pc found (ok output) j' called =
        let used = output.output_gas_used in
        let recorded = counts inputs.gas_limit used in
        elim (Bool-cases (leb used inputs.gas_limit)) [
          | inr over ↦
              overspent pc j' output found called (leb→lt _ _ over) (rw (recorded ∙ over) refl)
          | inl within ↦ elim (Bool-cases output.reverted) [
            | inl reverts ↦
                charged pc j' output revert_result found called (leb→le _ _ within)
                  (inr (reverts, refl)) (rw (recorded ∙ within) (rw reverts refl))
            | inr returns ↦
                charged pc j' output return_ok found called (leb→le _ _ within)
                  (inl (returns, refl)) (rw (recorded ∙ within) (rw returns refl))
          ]
        ]

    -- A call of a precompile ends in one of these ways. Without a precompile at the called address,
    -- in the map or by its lookup function, there is no result, and the journal is as it was.
    -- Otherwise the precompile is called with the input that the call gives it, and the journal is
    -- as it leaves it. A fatal error is passed on; another one is answered with the whole gas limit
    -- left. If the precompile succeeds, the call is answered with its output, as returned or as
    -- reverted, and the gas that it used is taken from the limit; but it panics if it used more than
    -- the limit. The gas counter is taken to accept exactly the costs within its limit.
    pub run-RunOutcome :
        CountsGas g
        → (m : PrecompilesMap J) (context : CallContext) (inputs : CallInputs) (j : J)
        → RunOutcome m context inputs j (run g m context inputs j)
    unfolding run
    run-RunOutcome counts m context inputs j =
        let same = get-serving m inputs.bytecode_address in
        elim (Option-cases (get m inputs.bytecode_address)) [
          | inl missing ↦ no_precompile (sym same ∙ missing) (rw missing refl)
          | inr (pc, found) ↦
              rw found
                (interpret-RunOutcome counts m context inputs j pc (sym same ∙ found) _ _ refl)
        ]
