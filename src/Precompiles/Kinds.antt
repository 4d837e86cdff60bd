-- ===== src/Precompiles/Kinds.antt =====
-- crates/evm/src/precompiles.rs: the precompiles and the two kinds of their maps.
use seismic_evm.Prelude.{◌==◌, Result, ℕ, Bool, Option, List}
use seismic_evm.Prelude.Dict.{Dict}
use seismic_evm.Types.{Address, Bytes, BlockEnv}

-- `PrecompileId`: the one that a closure without an identifier gets, and any other.
pub data PrecompileId : Type 0 where
  custom_closure : PrecompileId
  identifier : ℕ → PrecompileId

-- `PrecompileError`: a fatal error has a message, another one tells `is_oog`.
pub data PrecompileError : Type 0 where
  fatal_error : Bytes → PrecompileError
  recoverable : (is_oog : Bool) → PrecompileError

pub record PrecompileOutput : Type 0 where
  pub output_gas_used : ℕ
  pub output_bytes : Bytes
  pub reverted : Bool

abbrev pub PrecompileResult : Type 0
PrecompileResult = Result PrecompileError PrecompileOutput

-- The fields of `PrecompileInput` but the journal, which a call passes on as its state.
pub record PrecompileInput : Type 0 where
  pub data_bytes : Bytes
  pub gas : ℕ
  pub caller : Address
  pub value : ℕ
  pub target_address : Address
  pub bytecode_address : Address
  pub block_env : BlockEnv

-- `PrecompileInput::is_direct_call`
unfoldable pub is_direct_call : PrecompileInput → Bool
is_direct_call input = input.target_address == input.bytecode_address

-- A builtin precompile of revm: its identifier and its `PrecompileFn`.
pub record RevmPrecompile : Type 0 where
  pub id : PrecompileId
  pub precompile : Bytes → ℕ → PrecompileResult

-- revm's `Precompiles`, by its methods.
pub record Precompiles : Type 0 where
  pub inner : Dict RevmPrecompile
  pub get_builtin : Address → Option RevmPrecompile
  pub builtin_addresses : List Address

module _ (J : Type 0) where
  -- The trait `Precompile`, with the journal `J` that a call can change. A `DynPrecompile` is a
  -- boxed value of it.
  pub record DynPrecompile : Type 0 where
    pub precompile_id : PrecompileId
    pub call : PrecompileInput → J → PrecompileResult × J
    pub is_pure : Bool

  pub record DynPrecompiles : Type 0 where
    pub dyn_inner : Dict DynPrecompile
    pub dyn_addresses : Dict (Unit {0})

  pub data PrecompilesKind : Type 0 where
    builtin : Precompiles → PrecompilesKind
    dynamic : DynPrecompiles → PrecompilesKind

  pub record PrecompilesMap : Type 0 where
    pub precompiles : PrecompilesKind
    pub precompile_lookup : Option (Address → Option DynPrecompile)
