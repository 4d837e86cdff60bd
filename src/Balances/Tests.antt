-- ===== src/Balances/Tests.antt =====
-- The theorems on balance changes at concrete inputs.
use seismic_evm.Prelude.{
  ◌==◌, if◌then◌else◌, u128_mod, add_u64, sub_u64, add_u128, mul_u128, saturating_u64, ok, err, ◌<◌,
  ◌≡◌, refl, none, some, [], ◌∷◌, arith,
}
use seismic_evm.Prelude.Dict.{contains}
use seismic_evm.Types.{Address, EvmState}
use seismic_evm.Errors.{could_not_load_account, other, internal}
use seismic_evm.Platform.{Platform}
use seismic_evm.Balances.{Ommer, Withdrawal, post_block_balance_increments, balance_increment_state}
use seismic_evm.Balances.Credits.{
  credit_of, total, paid_to, block_payments, credit_of-post_block_balance_increments,
  total-post_block_balance_increments,
}
use seismic_evm.Balances.Accounts.{
  pays, AllLoad, Unloaded, balance_increment_state-pays, balance_increment_state-error,
}
use seismic_evm.Toy.{toy_types, toy_constants, toy_info, toy_platform, toy_spec, toy_block}
use seismic_evm.Rewards.{base_block_reward_pre_merge, base_block_reward, block_reward, ommer_reward}

abbrev ommer_at_four : Ommer
ommer_at_four = record { beneficiary = 51; number = 4 }

abbrev withdrawal_of_three : Withdrawal
withdrawal_of_three = record { address = 50; amount = 3 }

paid_small :
    paid_to 50 (
      block_payments toy_constants toy_spec toy_block
        (ommer_at_four ∷ [])
        (some (withdrawal_of_three ∷ [])))
    < u128_mod
unfolding base_block_reward saturating_u64 ommer_reward block_reward add_u64 sub_u64 mul_u128
    add_u128 base_block_reward_pre_merge
paid_small = omega arith

total_small :
    total (
      block_payments toy_constants toy_spec toy_block
        (ommer_at_four ∷ [])
        (some (withdrawal_of_three ∷ [])))
    < u128_mod
unfolding base_block_reward saturating_u64 ommer_reward block_reward add_u64 sub_u64 mul_u128
    add_u128 base_block_reward_pre_merge
total_small = omega arith

credit_of-post_block_balance_increments_example :
    credit_of 50 (
      post_block_balance_increments toy_constants toy_spec toy_block
        (ommer_at_four ∷ [])
        (some (withdrawal_of_three ∷ [])))
    ≡ paid_to 50 (
        block_payments toy_constants toy_spec toy_block
          (ommer_at_four ∷ [])
          (some (withdrawal_of_three ∷ [])))
credit_of-post_block_balance_increments_example =
    credit_of-post_block_balance_increments toy_constants toy_spec toy_block (ommer_at_four ∷ [])
      (some (withdrawal_of_three ∷ [])) 50 paid_small

total-post_block_balance_increments_example :
    total (
      post_block_balance_increments toy_constants toy_spec toy_block
        (ommer_at_four ∷ [])
        (some (withdrawal_of_three ∷ [])))
    ≡ total (
        block_payments toy_constants toy_spec toy_block
          (ommer_at_four ∷ [])
          (some (withdrawal_of_three ∷ [])))
total-post_block_balance_increments_example =
    total-post_block_balance_increments toy_constants toy_spec toy_block (ommer_at_four ∷ [])
      (some (withdrawal_of_three ∷ [])) total_small

-- A platform with one account, at the address 8.
abbrev lone_platform : Platform toy_types
lone_platform = record toy_platform {
  load_cache_account = λ a d. (ok (if a == 8 then some toy_info else none), d);
}

lone_platform-AllLoad : AllLoad lone_platform ((8, 5) ∷ (9, 0) ∷ []) 0
lone_platform-AllLoad a paid = (toy_info, 0, ground arith)

balance_increment_state-pays_example :
    (state : EvmState) × ((balance_increment_state lone_platform ((8, 5) ∷ (9, 0) ∷ []) 0).0
      ≡ ok state)
    × ((a : Address) → contains a state ≡ pays a ((8, 5) ∷ (9, 0) ∷ []))
balance_increment_state-pays_example =
    balance_increment_state-pays lone_platform (λ a b db loads. loads) ((8, 5) ∷ (9, 0) ∷ []) 0
      lone_platform-AllLoad

fails_to_load :
    (balance_increment_state lone_platform ((8, 5) ∷ (9, 1) ∷ []) 0).0
    ≡ err (internal (other could_not_load_account))
unfolding balance_increment_state
fails_to_load = refl

balance_increment_state-error_example :
    Unloaded lone_platform ((8, 5) ∷ (9, 1) ∷ []) 0 (internal (other could_not_load_account))
balance_increment_state-error_example =
    balance_increment_state-error lone_platform (λ a b db loads. loads) ((8, 5) ∷ (9, 1) ∷ []) 0
      (internal (other could_not_load_account)) fails_to_load
