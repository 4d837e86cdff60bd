-- ===== src/Balances.antt =====
-- crates/evm/src/block/state_changes.rs: the balance changes at the end of a block. A map of
-- increments is a `Dict`, in an order of iteration that stands for the hash map's.
pub mod Credits
pub mod Accounts
mod Tests
use seismic_evm.Prelude.{
  ltb, ◌==◌, if◌then◌else◌, length, add_u128, saturating_u64, ok, err, Exec, pure, ◌>>=◌, ◌>>◌, ℕ,
  true, false, Option, none, some, List, [], ◌∷◌,
}
use seismic_evm.Prelude.Dict.{Dict, lookup, insert}
use seismic_evm.Types.{Address, Types, BlockEnv, AccountInfo, Account, EvmState}
use seismic_evm.Errors.{could_not_load_account, other, BlockExecutionError, internal}
use seismic_evm.Platform.{Constants, Platform}
use seismic_evm.Spec.{EthExecutorSpec}
use seismic_evm.Rewards.{base_block_reward, block_reward, ommer_reward}

-- The fields of a header that rewards depend on.
pub record Ommer : Type 0 where
  pub beneficiary : Address
  pub number : ℕ

pub record Withdrawal : Type 0 where
  pub address : Address
  pub amount : ℕ

-- `Option::unwrap_or_default` of an amount.
abbrev pub unwrap_or_zero : Option ℕ → ℕ
unwrap_or_zero none = 0
unwrap_or_zero (some n) = n

-- `*increments.entry(address).or_default() += amount`
unfoldable pub add_increment : Address → ℕ → Dict ℕ → Dict ℕ
add_increment address amount increments =
    insert address (add_u128 (unwrap_or_zero (lookup address increments)) amount) increments

module _ (c : Constants) where
  add_ommer_rewards : ℕ → ℕ → List Ommer → Dict ℕ → Dict ℕ
  add_ommer_rewards base block_number [] increments = increments
  add_ommer_rewards base block_number (ommer ∷ ommers) increments =
      add_ommer_rewards base block_number ommers
        (add_increment ommer.beneficiary (ommer_reward base block_number ommer.number) increments)

  -- Rewards of the ommers and of the block, if there are any.
  add_rewards : Option ℕ → BlockEnv → List Ommer → Dict ℕ → Dict ℕ
  unfolding add_ommer_rewards
  add_rewards none block ommers increments = increments
  add_rewards (some base) block ommers increments =
      add_increment block.beneficiary (block_reward base (length ommers))
        (add_ommer_rewards base (saturating_u64 block.number) ommers increments)

  add_withdrawals : List Withdrawal → Dict ℕ → Dict ℕ
  add_withdrawals [] increments = increments
  add_withdrawals (withdrawal ∷ withdrawals) increments = add_withdrawals withdrawals (
      if ltb 0 withdrawal.amount
      then add_increment withdrawal.address (c.amount_wei withdrawal.amount) increments
      else increments)

  unfoldable pub insert_post_block_withdrawals_balance_increments :
      EthExecutorSpec → ℕ → Option (List Withdrawal) → Dict ℕ → Dict ℕ
  unfolding add_withdrawals
  insert_post_block_withdrawals_balance_increments spec block_timestamp none increments = increments
  insert_post_block_withdrawals_balance_increments spec block_timestamp (some withdrawals)
        increments =
      if spec.is_shanghai_active_at_timestamp block_timestamp
      then add_withdrawals withdrawals increments
      else increments

  unfoldable pub post_block_withdrawals_balance_increments :
      EthExecutorSpec → ℕ → List Withdrawal → Dict ℕ
  unfolding insert_post_block_withdrawals_balance_increments
  post_block_withdrawals_balance_increments spec block_timestamp withdrawals =
      insert_post_block_withdrawals_balance_increments spec block_timestamp (some withdrawals) []

  unfoldable pub post_block_balance_increments :
      EthExecutorSpec → BlockEnv → List Ommer → Option (List Withdrawal) → Dict ℕ
  unfolding add_rewards insert_post_block_withdrawals_balance_increments
  post_block_balance_increments spec block ommers withdrawals =
      insert_post_block_withdrawals_balance_increments spec (saturating_u64 block.timestamp)
        withdrawals
        (add_rewards (base_block_reward c spec (saturating_u64 block.number)) block ommers [])

-- A touched account with the given info and nothing else.
abbrev pub touched_account : AccountInfo → Account
touched_account info = record {
  info = info;
  storage = [];
  status = record { created = false; self_destructed = false; touched = true };
  transaction_id = 0;
}

module _ {t : Types} (p : Platform t) where
  abbrev pub cannot_load : BlockExecutionError t
  cannot_load = internal (other could_not_load_account)

  -- The closure `load_account`.
  abbrev pub load_account : Address → Exec t.Db (BlockExecutionError t) Account
  load_account address db =
      let (r, db') = p.load_cache_account address db in
      (
        elim r [
          | err e ↦ err cannot_load
          | ok found ↦ elim found [ none ↦ err cannot_load | some info ↦ ok (touched_account info) ]
        ],
        db',
      )

  -- `map(load_account).collect::<Result<EvmState, _>>()` over the increments that are not zero.
  unfoldable pub collect_accounts : Dict ℕ → EvmState → Exec t.Db (BlockExecutionError t) EvmState
  collect_accounts [] state = pure state
  collect_accounts ((address, balance) ∷ increments) state =
      if balance == 0 then collect_accounts increments state else (do
        account ← load_account address
        collect_accounts increments (insert address account state))

  unfoldable pub balance_increment_state : Dict ℕ → Exec t.Db (BlockExecutionError t) EvmState
  unfolding collect_accounts
  balance_increment_state increments = collect_accounts increments []
