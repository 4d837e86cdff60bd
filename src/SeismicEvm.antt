-- ===== src/SeismicEvm.antt =====
-- crates/seismic-evm/src/lib.rs: `SeismicEvm` and its factory. The EVM of seismic_revm is a
-- parameter: the fields that this crate reads or writes, and how it runs a transaction.
use seismic_evm.Prelude.{
  ◌==◌, if◌then◌else◌, Result, ok, err, Exec, ℕ, Bool, true, false, Option, none, List, [], ◌∷◌,
}
use seismic_evm.Types.{Address, B256, Bytes, BlockEnv, CfgEnv, EvmState, ResultAndState}
use seismic_evm.SeismicExecutor.{PurposeKeys}
use seismic_evm.Env.{EvmEnv}
pub mod SystemCall
mod Tests

pub data TxKind : Type 0 where
  call_of : Address → TxKind
  create : TxKind

pub data RngMode : Type 0 where
  execution simulation : RngMode

-- revm's `TxEnv`, with access lists and authorizations as lists of their entries.
pub record TxEnv (AccessItem Authorization : Type 0) : Type 0 where
  pub tx_type : ℕ
  pub caller : Address
  pub gas_limit : ℕ
  pub gas_price : ℕ
  pub kind : TxKind
  pub value : ℕ
  pub data_bytes : Bytes
  pub nonce : ℕ
  pub chain_id : Option ℕ
  pub access_list : List AccessItem
  pub gas_priority_fee : Option ℕ
  pub blob_hashes : List B256
  pub max_fee_per_blob_gas : ℕ
  pub authorization_list : List Authorization

pub record SeismicTransaction (AccessItem Authorization : Type 0) : Type 0 where
  pub base : TxEnv AccessItem Authorization
  pub tx_hash : B256
  pub rng_mode : RngMode

-- The parameters: entries of lists, the specification, database, inspector and precompiles, what
-- else a context holds, and the results of a run.
pub record Machine : Type 1 where
  pub AccessItem : Type 0
  pub Authorization : Type 0
  pub Spec : Type 0
  pub Database : Type 0
  pub Inspector : Type 0
  pub Precompile : Type 0
  pub Context : Type 0
  pub Failure : Type 0
  pub HaltReason : Type 0
  pub Keypair : Type 0
  -- `SeismicContext::seismic_with_rng_key`, what a context holds beside what it is built from.
  pub seismic_with_rng_key : Keypair → Context
  pub seismic_precompiles : Precompile
  pub no_op_inspector : Inspector

pub record SeismicEvm (k : Machine) : Type 0 where
  pub block : BlockEnv
  pub cfg : CfgEnv k.Spec
  pub database : k.Database
  pub evm_inspector : k.Inspector
  pub evm_precompiles : k.Precompile
  pub context : k.Context
  pub inspect : Bool

-- How `transact` and `inspect_tx` of the inner EVM run a transaction.
pub record Inner (k : Machine) : Type 0 where
  pub inner_transact :
      SeismicTransaction k.AccessItem k.Authorization
      → Exec (SeismicEvm k) k.Failure (ResultAndState k.HaltReason)
  pub inner_inspect_tx :
      SeismicTransaction k.AccessItem k.Authorization
      → Exec (SeismicEvm k) k.Failure (ResultAndState k.HaltReason)

-- `HashMap::retain`, of the account at one address.
abbrev pub retain : Address → EvmState → EvmState
retain contract [] = []
retain contract ((addr, account) ∷ rest) =
    let kept = retain contract rest in if addr == contract then (addr, account) ∷ kept else kept

abbrev pub retain_contract :
    {HaltReason Failure : Type 0}
    → Address
    → Result Failure (ResultAndState HaltReason)
    → Result Failure (ResultAndState HaltReason)
retain_contract contract (ok r) = ok (record r { state = retain contract r.state })
retain_contract contract (err e) = err e

-- The transaction of a system call.
abbrev pub system_tx :
    {AccessItem Authorization : Type 0} (caller contract : Address)
    → Bytes
    → SeismicTransaction AccessItem Authorization
system_tx caller contract input = record {
  base = record {
    tx_type = 0;
    caller = caller;
    gas_limit = 30000000;
    gas_price = 0;
    kind = call_of contract;
    value = 0;
    data_bytes = input;
    nonce = 0;
    chain_id = none;
    access_list = [];
    gas_priority_fee = none;
    blob_hashes = [];
    max_fee_per_blob_gas = 0;
    authorization_list = [];
  };
  tx_hash = 0;
  rng_mode = execution;
}

module _ {k : Machine} where
  -- The settings that a system call swaps: the block's gas limit and base fee, and the flag that
  -- disables the nonce check.
  abbrev pub swapped : SeismicEvm k → ℕ × ℕ × Bool
  swapped s = (s.block.gas_limit, s.block.basefee, s.cfg.disable_nonce_check)

  abbrev pub set_swapped : ℕ × ℕ × Bool → SeismicEvm k → SeismicEvm k
  set_swapped (gas_limit, basefee, disable_nonce_check) s = record s {
    block = record s.block { gas_limit = gas_limit; basefee = basefee };
    cfg = record s.cfg { disable_nonce_check = disable_nonce_check };
  }

  module _ (i : Inner k) where
    unfoldable pub transact_raw :
        SeismicTransaction k.AccessItem k.Authorization
        → Exec (SeismicEvm k) k.Failure (ResultAndState k.HaltReason)
    transact_raw tx s = (if s.inspect then i.inner_inspect_tx tx else i.inner_transact tx) s

    unfoldable pub seismic_transact_system_call :
        (caller contract : Address)
        → Bytes
        → Exec (SeismicEvm k) k.Failure (ResultAndState k.HaltReason)
    unfolding transact_raw
    seismic_transact_system_call caller contract input s =
        let tx = system_tx caller contract input in
        let saved = swapped s in
        let (res, s') = transact_raw tx (set_swapped (tx.base.gas_limit, 0, true) s) in
        (retain_contract contract res, set_swapped saved s')

  abbrev pub seismic_finish_env : SeismicEvm k → EvmEnv k.Spec
  seismic_finish_env s = record { block_env = s.block; cfg_env = s.cfg }

  -- `Evm::finish`
  unfoldable pub seismic_finish : SeismicEvm k → k.Database × EvmEnv k.Spec
  seismic_finish s = (s.database, seismic_finish_env s)

  unfoldable pub set_inspector_enabled : Bool → SeismicEvm k → SeismicEvm k
  set_inspector_enabled enabled s = record s { inspect = enabled }

  module _ {SecretKey : Type 0} (keys : PurposeKeys SecretKey k.Keypair) where
    -- `create_evm_with_rng_key`, which `create_evm` calls.
    unfoldable pub create_evm_with_rng_key : k.Database → EvmEnv k.Spec → SeismicEvm k
    create_evm_with_rng_key db input = record {
      block = input.block_env;
      cfg = input.cfg_env;
      database = db;
      evm_inspector = k.no_op_inspector;
      evm_precompiles = k.seismic_precompiles;
      context = k.seismic_with_rng_key keys.rng_keypair;
      inspect = false;
    }

    -- `create_evm_with_inspector_and_rng_key`, which `create_evm_with_inspector` calls.
    unfoldable pub create_evm_with_inspector_and_rng_key :
        k.Database → EvmEnv k.Spec → k.Inspector → SeismicEvm k
    create_evm_with_inspector_and_rng_key db input inspector = record {
      block = input.block_env;
      cfg = input.cfg_env;
      database = db;
      evm_inspector = inspector;
      evm_precompiles = k.seismic_precompiles;
      context = k.seismic_with_rng_key keys.rng_keypair;
      inspect = true;
    }
