-- ===== src/Precompiles/Run.antt =====
-- `impl PrecompileProvider for PrecompilesMap`: a call of a precompile. revm's `Gas` and the
-- shared memory of a context are parameters.
use seismic_evm.Prelude.{leb, if◌then◌else◌, Result, ok, err, ℕ, ◌≡◌, Bool, Option, none, some, []}
use seismic_evm.Types.{Address, Bytes, BlockEnv}
use seismic_evm.Precompiles.{
  fatal_error, recoverable, PrecompileResult, PrecompileInput, DynPrecompile, PrecompilesMap, get,
}

pub data CallValue : Type 0 where
  transfer apparent : ℕ → CallValue

pub data CallInput : Type 0 where
  shared_buffer : (start end : ℕ) → CallInput
  bytes : Bytes → CallInput

-- The fields of `CallInputs` that `run` reads.
pub record CallInputs : Type 0 where
  pub input : CallInput
  pub gas_limit : ℕ
  pub bytecode_address : Address
  pub target_address : Address
  pub caller : Address
  pub value : CallValue

pub data InstructionResult : Type 0 where
  return_ok revert_result precompile_oog precompile_error : InstructionResult

-- revm's `Gas`, by its methods: `new` and `record_cost`.
pub record GasMeter : Type 1 where
  pub Gas : Type 0
  pub new_gas : ℕ → Gas
  pub record_cost : ℕ → Gas → Bool × Gas

-- `record_cost` succeeds on a new counter exactly for a cost within its limit.
abbrev pub CountsGas : GasMeter → Type 0
CountsGas g = (limit cost : ℕ) → (g.record_cost cost (g.new_gas limit)).0 ≡ leb cost limit

pub record InterpreterResult (G : Type 0) : Type 0 where
  pub result : InstructionResult
  pub gas : G
  pub output : Bytes

-- What a call of `run` does: it panics at a failed assertion or it returns.
pub data Ending (A : Type 0) : Type 0 where
  panicked : Ending A
  returned : A → Ending A

abbrev pub call_value : CallValue → ℕ
call_value (transfer v) = v
call_value (apparent v) = v

-- The parts of a context that a call reads: its block, and the shared memory buffer.
pub record CallContext : Type 0 where
  pub context_block : BlockEnv
  pub shared_memory_buffer_slice : (start end : ℕ) → Option Bytes

abbrev pub input_bytes : CallContext → CallInput → Bytes
input_bytes context (shared_buffer start end) =
    elim (context.shared_memory_buffer_slice start end) [ some slice ↦ slice | none ↦ [] ]
input_bytes context (bytes b) = b

abbrev pub precompile_input : CallContext → CallInputs → PrecompileInput
precompile_input context inputs = record {
  data_bytes = input_bytes context inputs.input;
  gas = inputs.gas_limit;
  caller = inputs.caller;
  value = call_value inputs.value;
  target_address = inputs.target_address;
  bytecode_address = inputs.bytecode_address;
  block_env = context.context_block;
}

module _ (g : GasMeter) where
  -- What `run` returns: nothing for another address, and a message for a fatal error.
  abbrev pub RunResult : Type 0
  RunResult = Ending (Result Bytes (Option (InterpreterResult g.Gas)))

  abbrev pub finished : InstructionResult → g.Gas → Bytes → RunResult
  finished result gas output =
      returned (ok (some (record { result = result; gas = gas; output = output })))

  -- The interpreter's result of a precompile's result, under a gas limit.
  unfoldable pub interpret_result : (gas_limit : ℕ) → PrecompileResult → RunResult
  interpret_result gas_limit (ok output) =
      let (underflow, gas) = g.record_cost output.output_gas_used (g.new_gas gas_limit) in
      if underflow
      then finished (if output.reverted then revert_result else return_ok) gas output.output_bytes
      else panicked
  interpret_result gas_limit (err (fatal_error e)) = returned (err e)
  interpret_result gas_limit (err (recoverable is_oog)) =
      finished (if is_oog then precompile_oog else precompile_error) (g.new_gas gas_limit) []

  module _ {J : Type 0} where
    -- The call of the precompile that `get` found, if there is one.
    abbrev pub call_found : Option (DynPrecompile J) → CallContext → CallInputs → J → RunResult × J
    call_found none context inputs journal = (returned (ok none), journal)
    call_found (some pc) context inputs journal =
        let (r, journal') = pc.call (precompile_input context inputs) journal in
        (interpret_result inputs.gas_limit r, journal')

    unfoldable pub run : PrecompilesMap J → CallContext → CallInputs → J → RunResult × J
    unfolding get interpret_result
    run m context inputs = call_found (get m inputs.bytecode_address) context inputs
