-- ===== src/Executor.antt =====
-- crates/evm/src/block/mod.rs: the trait `BlockExecutor` as a record of operations on an
-- executor's state, with its default methods, and the result of a block.

use seismic_evm.Prelude.{
  Exec, pure, ◌>>=◌, ◌>>◌, ℕ, ◌≡◌, refl, ◌⊎◌, inl, inr, Bool, true, false, Option, none, some, List,
  [], ◌∷◌,
}
use seismic_evm.Types.{Types, ExecutionResult}
use seismic_evm.Errors.{BlockExecutionError}
use seismic_evm.Platform.{ExecutableTx}
use seismic_evm.StateHook.{StateHook}
use seismic_evm.SystemCalls.{Requests}

pub data CommitChanges : Type 0 where
  commit_yes commit_no : CommitChanges

-- `CommitChanges::should_commit`
abbrev pub should_commit : CommitChanges → Bool
should_commit commit_yes = true
should_commit commit_no = false

pub CommitChanges-cases : (c : CommitChanges) → (c ≡ commit_yes) ⊎ (c ≡ commit_no)
CommitChanges-cases commit_yes = inl refl
CommitChanges-cases commit_no = inr refl

pub record BlockExecutionResult (t : Types) : Type 0 where
  pub receipts : List t.Receipt
  pub requests : Requests
  pub gas_used : ℕ

-- A caller's decision on a result, and what it returns for a transaction.
abbrev pub CommitCondition : Types → Type 0
CommitCondition t = ExecutionResult t.HaltReason → CommitChanges

-- The methods that an executor implements, over its state `S`. A closure on the result that
-- returns nothing is left out. `finish` returns the result; the EVM that it gives back is the one
-- of the state.
pub record BlockExecutor (t : Types) (S : Type 0) : Type 0 where
  pub apply_pre_execution_changes : Exec S (BlockExecutionError t) Unit
  pub execute_transaction_with_commit_condition :
      ExecutableTx t → CommitCondition t → Exec S (BlockExecutionError t) (Option ℕ)
  pub execute_transaction_with_result_closure : ExecutableTx t → Exec S (BlockExecutionError t) ℕ
  pub finish : Exec S (BlockExecutionError t) (BlockExecutionResult t)
  pub set_state_hook : Option StateHook → S → S

-- `Option::unwrap_or_default` of a gas amount.
abbrev pub gas_or_zero : Option ℕ → ℕ
gas_or_zero none = 0
gas_or_zero (some gas) = gas

module _ {t : Types} {S : Type 0} where
  -- The default `execute_transaction_with_result_closure`, over the commit condition.
  abbrev pub default_result_closure :
      (ExecutableTx t → CommitCondition t → Exec S (BlockExecutionError t) (Option ℕ))
      → ExecutableTx t
      → Exec S (BlockExecutionError t) ℕ
  default_result_closure execute tx = do gas ← execute tx (λ _. commit_yes); pure (gas_or_zero gas)

  module _ (ex : BlockExecutor t S) where
    unfoldable pub execute_transaction : ExecutableTx t → Exec S (BlockExecutionError t) ℕ
    execute_transaction tx = ex.execute_transaction_with_result_closure tx

    -- The loop of `execute_block`.
    unfoldable pub execute_transactions :
        List (ExecutableTx t) → Exec S (BlockExecutionError t) Unit
    unfolding execute_transaction
    execute_transactions [] = pure tt
    execute_transactions (tx ∷ txs) = do _ ← execute_transaction tx; execute_transactions txs

    -- `apply_post_execution_changes`, which drops the EVM that `finish` returns.
    unfoldable pub apply_post_execution_changes :
        Exec S (BlockExecutionError t) (BlockExecutionResult t)
    apply_post_execution_changes = ex.finish

    unfoldable pub execute_block :
        List (ExecutableTx t) → Exec S (BlockExecutionError t) (BlockExecutionResult t)
    unfolding execute_transactions apply_post_execution_changes
    execute_block txs = do
      ex.apply_pre_execution_changes
      execute_transactions txs
      apply_post_execution_changes
