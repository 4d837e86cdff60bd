-- ===== src/Balances/Credits.antt =====
-- The increments of a block credit each address with the sum of what the block pays to it.
use seismic_evm.Prelude.{
  ltb, ◌==◌, if◌then◌else◌, Bool-cases, length, filter, u128_mod, add_u128, saturating_u64,
  add_u128_lem, ℕ, ◌+◌, ◌≤◌, ◌<◌, ◌≡◌, refl, ◌∙◌, inl, inr, Bool, true, Option, none, some, List,
  [], ◌∷◌, ◌++◌, map, arith,
}
use seismic_evm.Prelude.Dict.{Dict, lookup, insert, lookup-insert}
use seismic_evm.Types.{Address, BlockEnv}
use seismic_evm.Platform.{Constants}
use seismic_evm.Spec.{EthExecutorSpec}
use seismic_evm.Rewards.{base_block_reward, block_reward, ommer_reward}
use seismic_evm.Balances.{
  Ommer, Withdrawal, unwrap_or_zero, add_increment, add_ommer_rewards, add_rewards, add_withdrawals,
  insert_post_block_withdrawals_balance_increments, post_block_balance_increments,
}

-- What a map credits an address with.
abbrev pub credit_of : Address → Dict ℕ → ℕ
credit_of a increments = unwrap_or_zero (lookup a increments)

-- The sum over all addresses.
abbrev pub total : Dict ℕ → ℕ
total [] = 0
total ((_, amount) ∷ d) = amount + total d

-- A list of payments, and what it pays to an address.
abbrev pub paid_to : Address → List (Address × ℕ) → ℕ
paid_to a [] = 0
paid_to a ((b, amount) ∷ payments) = (if a == b then amount else 0) + paid_to a payments

add_all : List (Address × ℕ) → Dict ℕ → Dict ℕ
add_all [] d = d
add_all ((b, amount) ∷ payments) d = add_all payments (add_increment b amount d)

credit_of-add_increment :
    (a b : Address) (amount : ℕ) (d : Dict ℕ)
    → credit_of a (add_increment b amount d)
      ≡ (if a == b then add_u128 (credit_of b d) amount else credit_of a d)
unfolding add_increment
credit_of-add_increment a b amount d =
    rw (lookup-insert b a (add_u128 (credit_of b d) amount) d) (ground arith)

credit_of-add_all :
    (a : Address) (payments : List (Address × ℕ)) (d : Dict ℕ)
    → credit_of a d + paid_to a payments < u128_mod
    → credit_of a (add_all payments d) ≡ credit_of a d + paid_to a payments
unfolding add_all
credit_of-add_all a [] d h = omega arith
credit_of-add_all a ((b, amount) ∷ payments) d h = ground (
  arith,
  credit_of-add_increment a b amount d,
  add_u128_lem (credit_of b d) amount,
  credit_of-add_all a payments (add_increment b amount d),
)

total-insert :
    (a : Address) (amount : ℕ) (d : Dict ℕ)
    → total (insert a amount d) + credit_of a d ≡ total d + amount
total-insert a amount [] = omega arith
total-insert a amount ((b, old) ∷ d) = ground (arith, total-insert a amount d)

credit_of-le-total : (a : Address) (d : Dict ℕ) → credit_of a d ≤ total d
credit_of-le-total a [] = omega arith
credit_of-le-total a ((b, amount) ∷ d) = ground (arith, credit_of-le-total a d)

total-add_increment :
    (a : Address) (amount : ℕ) (d : Dict ℕ)
    → total d + amount < u128_mod
    → total (add_increment a amount d) ≡ total d + amount
unfolding add_increment
total-add_increment a amount d h = omega (
  arith,
  total-insert a (add_u128 (credit_of a d) amount) d,
  credit_of-le-total a d,
  add_u128_lem (credit_of a d) amount,
)

total-add_all :
    (payments : List (Address × ℕ)) (d : Dict ℕ)
    → total d + total payments < u128_mod
    → total (add_all payments d) ≡ total d + total payments
unfolding add_all
total-add_all [] d h = omega arith
total-add_all ((a, amount) ∷ payments) d h =
    omega (arith, total-add_increment a amount d, total-add_all payments (add_increment a amount d))

credit_of-add_all_nil :
    (a : Address) (payments : List (Address × ℕ))
    → paid_to a payments < u128_mod
    → credit_of a (add_all payments []) ≡ paid_to a payments
credit_of-add_all_nil a payments h = credit_of-add_all a payments [] (omega arith) ∙ omega arith

total-add_all_nil :
    (payments : List (Address × ℕ))
    → total payments < u128_mod
    → total (add_all payments []) ≡ total payments
total-add_all_nil payments h = total-add_all payments [] (omega arith) ∙ omega arith

module _ (c : Constants) where
  -- The payments of the rewards, in the order in which the code adds them.
  abbrev pub reward_payments : Option ℕ → BlockEnv → List Ommer → List (Address × ℕ)
  reward_payments none block ommers = []
  reward_payments (some base) block ommers =
      map (λ (o : Ommer). (o.beneficiary, ommer_reward base (saturating_u64 block.number) o.number))
        ommers
      ++ (block.beneficiary, block_reward base (length ommers)) ∷ []

  -- The payments of the withdrawals that are not zero, from Shanghai on.
  abbrev pub withdrawal_payments : Bool → Option (List Withdrawal) → List (Address × ℕ)
  withdrawal_payments active none = []
  withdrawal_payments active (some withdrawals) =
      if active
      then map (λ (w : Withdrawal). (w.address, c.amount_wei w.amount))
          (filter (λ (w : Withdrawal). ltb 0 w.amount) withdrawals)
      else []

  abbrev pub block_payments :
      EthExecutorSpec → BlockEnv → List Ommer → Option (List Withdrawal) → List (Address × ℕ)
  block_payments spec block ommers withdrawals =
      reward_payments (base_block_reward c spec (saturating_u64 block.number)) block ommers
      ++ withdrawal_payments (spec.is_shanghai_active_at_timestamp (saturating_u64 block.timestamp))
          withdrawals

  add_ommer_rewards-add_all :
      (base n : ℕ) (ommers : List Ommer) (payments : List (Address × ℕ)) (d : Dict ℕ)
      → add_all payments (add_ommer_rewards c base n ommers d)
        ≡ add_all
            (map (λ (o : Ommer). (o.beneficiary, ommer_reward base n o.number)) ommers ++ payments)
            d
  unfolding add_ommer_rewards add_all
  add_ommer_rewards-add_all base n [] payments d = refl
  add_ommer_rewards-add_all base n (o ∷ ommers) payments d =
      add_ommer_rewards-add_all base n ommers payments _

  add_withdrawals-add_all :
      (withdrawals : List Withdrawal) (d : Dict ℕ)
      → add_withdrawals c withdrawals d ≡ add_all (withdrawal_payments true (some withdrawals)) d
  unfolding add_withdrawals add_all
  add_withdrawals-add_all [] d = refl
  add_withdrawals-add_all (w ∷ withdrawals) d = elim (Bool-cases (ltb 0 w.amount)) [
    | inl paid ↦ rw paid (add_withdrawals-add_all withdrawals _)
    | inr nothing ↦ rw nothing (add_withdrawals-add_all withdrawals d)
  ]

  add_all-append :
      (xs ys : List (Address × ℕ)) (d : Dict ℕ) → add_all ys (add_all xs d) ≡ add_all (xs ++ ys) d
  unfolding add_all
  add_all-append [] ys d = refl
  add_all-append ((b, amount) ∷ xs) ys d = add_all-append xs ys _

  add_rewards-add_all :
      (reward : Option ℕ) (block : BlockEnv) (ommers : List Ommer)
      → add_rewards c reward block ommers [] ≡ add_all (reward_payments reward block ommers) []
  unfolding add_rewards add_all
  add_rewards-add_all none block ommers = refl
  add_rewards-add_all (some base) block ommers =
      add_ommer_rewards-add_all base (saturating_u64 block.number) ommers
        ((block.beneficiary, block_reward base (length ommers)) ∷ []) []

  insert_withdrawals-add_all :
      (spec : EthExecutorSpec) (time : ℕ) (withdrawals : Option (List Withdrawal)) (d : Dict ℕ)
      → insert_post_block_withdrawals_balance_increments c spec time withdrawals d
        ≡ add_all (withdrawal_payments (spec.is_shanghai_active_at_timestamp time) withdrawals) d
  unfolding insert_post_block_withdrawals_balance_increments add_all
  insert_withdrawals-add_all spec time none d = refl
  insert_withdrawals-add_all spec time (some withdrawals) d =
      elim (Bool-cases (spec.is_shanghai_active_at_timestamp time)) [
        | inl active ↦ rw active (add_withdrawals-add_all withdrawals d)
        | inr inactive ↦ rw inactive
      ]

  increments-payments :
      (spec : EthExecutorSpec) (block : BlockEnv) (ommers : List Ommer)
      (withdrawals : Option (List Withdrawal))
      → post_block_balance_increments c spec block ommers withdrawals
        ≡ add_all (block_payments spec block ommers withdrawals) []
  unfolding post_block_balance_increments
  increments-payments spec block ommers withdrawals =
      rw (add_rewards-add_all (base_block_reward c spec (saturating_u64 block.number)) block ommers)
        (insert_withdrawals-add_all spec (saturating_u64 block.timestamp) withdrawals _
          ∙ add_all-append
              (reward_payments (base_block_reward c spec (saturating_u64 block.number)) block
                ommers)
              _ [])

  -- The increments credit an address with exactly the ommer rewards, the block reward and the
  -- withdrawals other than zero that the block pays to it, added up, if that sum is below 2^128.
  -- There are no rewards from Paris on and no withdrawals before Shanghai.
  pub credit_of-post_block_balance_increments :
      (spec : EthExecutorSpec) (block : BlockEnv) (ommers : List Ommer)
      (withdrawals : Option (List Withdrawal)) (a : Address)
      → paid_to a (block_payments spec block ommers withdrawals) < u128_mod
      → credit_of a (post_block_balance_increments c spec block ommers withdrawals)
        ≡ paid_to a (block_payments spec block ommers withdrawals)
  credit_of-post_block_balance_increments spec block ommers withdrawals a h =
      rw (increments-payments spec block ommers withdrawals)
        (credit_of-add_all_nil a (block_payments spec block ommers withdrawals) h)

  -- The increments of all addresses add up to what the block pays out, if that is below 2^128.
  pub total-post_block_balance_increments :
      (spec : EthExecutorSpec) (block : BlockEnv) (ommers : List Ommer)
      (withdrawals : Option (List Withdrawal))
      → total (block_payments spec block ommers withdrawals) < u128_mod
      → total (post_block_balance_increments c spec block ommers withdrawals)
        ≡ total (block_payments spec block ommers withdrawals)
  total-post_block_balance_increments spec block ommers withdrawals h =
      rw (increments-payments spec block ommers withdrawals)
        (total-add_all_nil (block_payments spec block ommers withdrawals) h)
