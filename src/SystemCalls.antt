-- ===== src/SystemCalls.antt =====
-- crates/evm/src/block/system_calls/mod.rs: `SystemCaller`, which runs the system contract calls
-- of a block, tells the hook of the changes and commits them.
mod Contracts
pub mod Block
pub mod Guards
pub mod Answers
pub mod Told
mod Tests
unfoldable pub use Contracts.*
use seismic_evm.Prelude.{
  if◌then◌else◌, ok, Exec, pure, ◌>>=◌, ◌>>◌, ℕ, ◌*◌, Bool, true, false, Option, none, some, List,
  [], ◌∷◌, ◌++◌,
}
use seismic_evm.Types.{B256, Bytes, Types, EvmState, ResultAndState}
use seismic_evm.Errors.{BlockExecutionError}
use seismic_evm.Platform.{Platform, on_db}
use seismic_evm.Spec.{EthExecutorSpec}
use seismic_evm.StateHook.{
  block_hashes_contract, beacon_root_contract, withdrawal_requests_contract,
  consolidation_requests_contract, StateChangeSource, pre_block, post_block, StateHook, notify,
}

-- `Requests` of EIP-7685: each entry is a request type with its data.
abbrev pub Requests : Type 0
Requests = List (ℕ × Bytes)

-- `Requests::push_request_with_type`
abbrev pub push_request_with_type : ℕ → Bytes → Requests → Requests
push_request_with_type ty request requests = requests ++ (ty, request) ∷ []

-- `Bytes::is_empty`
abbrev pub is_empty : Bytes → Bool
is_empty [] = true
is_empty (b ∷ bs) = false

pub record SystemCaller : Type 0 where
  pub spec : EthExecutorSpec
  pub hook : Option StateHook

-- `SystemCaller::new`
abbrev pub new_system_caller : EthExecutorSpec → SystemCaller
new_system_caller spec = record { spec = spec; hook = none }

-- `SystemCaller::with_state_hook`
abbrev pub with_state_hook : Option StateHook → SystemCaller → SystemCaller
with_state_hook hook caller = record caller { hook = hook }

-- The two things that a system call borrows mutably.
pub record Calling (t : Types) : Type 0 where
  pub caller : SystemCaller
  pub evm : t.Evm

module _ {t : Types} (p : Platform t) where
  -- A call that borrows only the EVM.
  abbrev with_evm :
      {A : Type 0}
      → Exec t.Evm (BlockExecutionError t) A
      → Exec (Calling t) (BlockExecutionError t) A
  with_evm m s = let (r, e) = m s.evm in (r, record s { evm = e })

  -- Tells the hook of a call's changes, and commits them.
  unfoldable pub publish : StateChangeSource → EvmState → Calling t → Calling t
  publish source state s = record {
    caller = record s.caller { hook = notify source state s.caller.hook };
    evm = on_db p (p.commit state) s.evm;
  }

  abbrev publish_call :
      StateChangeSource → Option (ResultAndState t.HaltReason) → Calling t → Calling t
  publish_call source none s = s
  publish_call source (some res) s = publish source res.state s

  -- The same as a step that always succeeds.
  abbrev publish_step :
      StateChangeSource
      → Option (ResultAndState t.HaltReason)
      → Exec (Calling t) (BlockExecutionError t) Unit
  publish_step source found s = (ok tt, publish_call source found s)

  unfoldable pub apply_blockhashes_contract_call :
      B256 → Exec (Calling t) (BlockExecutionError t) Unit
  unfolding transact_blockhashes_contract_call
  apply_blockhashes_contract_call parent_block_hash s =
      (do
        res ← with_evm (transact_blockhashes_contract_call p s.caller.spec parent_block_hash)
        publish_step (pre_block block_hashes_contract) res)
        s

  unfoldable pub apply_beacon_root_contract_call :
      Option B256 → Exec (Calling t) (BlockExecutionError t) Unit
  unfolding transact_beacon_root_contract_call
  apply_beacon_root_contract_call parent_beacon_block_root s =
      (do
        res ← with_evm (transact_beacon_root_contract_call p s.caller.spec parent_beacon_block_root)
        publish_step (pre_block beacon_root_contract) res)
        s

  unfoldable pub apply_withdrawal_requests_contract_call :
      Exec (Calling t) (BlockExecutionError t) Bytes
  unfolding transact_withdrawal_requests_contract_call post_commit_withdrawals
  apply_withdrawal_requests_contract_call = do
    res ← with_evm (transact_withdrawal_requests_contract_call p)
    λ s. (
      post_commit_withdrawals res.result,
      publish (post_block withdrawal_requests_contract) res.state s,
    )

  unfoldable pub apply_consolidation_requests_contract_call :
      Exec (Calling t) (BlockExecutionError t) Bytes
  unfolding transact_consolidation_requests_contract_call post_commit_consolidations
  apply_consolidation_requests_contract_call = do
    res ← with_evm (transact_consolidation_requests_contract_call p)
    λ s. (
      post_commit_consolidations res.result,
      publish (post_block consolidation_requests_contract) res.state s,
    )

  -- `SystemCaller::apply_pre_execution_changes`, from the header's parent hash and beacon root.
  unfoldable pub caller_pre_execution_changes :
      B256 → Option B256 → Exec (Calling t) (BlockExecutionError t) Unit
  caller_pre_execution_changes parent_hash parent_beacon_block_root = do
    apply_blockhashes_contract_call parent_hash
    apply_beacon_root_contract_call parent_beacon_block_root

  -- An empty answer makes no request.
  abbrev pub push_if_any : ℕ → Bytes → Requests → Requests
  push_if_any ty request requests =
      if is_empty request then requests else push_request_with_type ty request requests

  -- `SystemCaller::apply_post_execution_changes`
  unfoldable pub caller_post_execution_changes : Exec (Calling t) (BlockExecutionError t) Requests
  caller_post_execution_changes = do
    withdrawal_requests ← apply_withdrawal_requests_contract_call
    consolidation_requests ← apply_consolidation_requests_contract_call
    pure (
        push_if_any p.constants.consolidation_request_type consolidation_requests
          (push_if_any p.constants.withdrawal_request_type withdrawal_requests []))
