-- ===== src/EthExecutor/Tests.antt =====
-- The theorems on the Ethereum executor at concrete inputs.
use seismic_evm.Prelude.{
  add_u64, sub_u64, add_u128, mul_u128, ok, err, ◌≡◌, refl, some, [], ◌∷◌, arith,
}
use seismic_evm.Types.{success}
use seismic_evm.Platform.{Platform}
use seismic_evm.StateHook.{
  block_hashes_contract, beacon_root_contract, balance_increments, withdrawal_requests_contract,
  consolidation_requests_contract, transaction_source, pre_block, post_block, told,
}
use seismic_evm.Prelude.Keeps.{OnOk}
use seismic_evm.Executor.{
  commit_yes, commit_no, execute_transactions, apply_post_execution_changes, execute_block,
}
use seismic_evm.EthExecutor.{
  EthBlockExecutor, new_executor, eth_pre_execution_changes, keep_transaction, run_transaction,
  eth_execute_transaction, collect_requests, drain_dao, notify_increments, eth_finish,
  eth_block_executor,
}
use seismic_evm.EthExecutor.Outcome.{Outcome, eth_execute_transaction-Outcome}
use seismic_evm.EthExecutor.Gas.{IsConsistent, eth_execute_transaction-IsConsistent}
use seismic_evm.EthExecutor.Accounting.{IsAccounted, execute_block-Accounted}
use seismic_evm.Toy.{
  toy_types, toy_platform, toy_laws, toy_spec, toy_evm, toy_ctx, toy_builder, toy_executor, toy_tx,
  toy_tx-RespectsGasLimit, toy_executor-IsConsistent,
}
use seismic_evm.EthExecutor.Ordering.{execute_block-told}
use seismic_evm.SystemCalls.{
  timestamp_seconds, transact_blockhashes_contract_call, transact_beacon_root_contract_call,
  transact_withdrawal_requests_contract_call, transact_consolidation_requests_contract_call,
  publish, apply_blockhashes_contract_call, apply_beacon_root_contract_call,
  apply_withdrawal_requests_contract_call, apply_consolidation_requests_contract_call,
  caller_post_execution_changes,
}
use seismic_evm.Deposits.{accumulate_deposits_from_receipt, parse_deposits_from_receipts}
use seismic_evm.Balances.{add_increment, post_block_balance_increments, balance_increment_state}
use seismic_evm.Rewards.{base_block_reward_pre_merge, base_block_reward, block_reward}
use seismic_evm.EthExecutor.Prague.{BlockRequests, eth_finish-BlockRequests}

execute_block-Accounted_example : IsAccounted toy_platform toy_laws 2 100000 (
    execute_block
      (eth_block_executor toy_platform)
      (toy_tx ∷ toy_tx ∷ [])
      (new_executor toy_evm toy_ctx toy_spec toy_builder))
execute_block-Accounted_example =
    execute_block-Accounted toy_platform toy_laws toy_evm toy_ctx toy_spec toy_builder
      (toy_tx ∷ toy_tx ∷ []) (λ ctx. refl) (omega arith)
      (toy_tx-RespectsGasLimit, (toy_tx-RespectsGasLimit, tt))

eth_execute_transaction-IsConsistent_example :
    IsConsistent toy_platform
      (eth_execute_transaction toy_platform toy_tx (λ _. commit_yes) toy_executor).1
eth_execute_transaction-IsConsistent_example =
    eth_execute_transaction-IsConsistent toy_platform toy_laws toy_tx (λ _. commit_yes) toy_executor
      (λ ctx. refl) toy_tx-RespectsGasLimit toy_executor-IsConsistent

eth_execute_transaction-Outcome_example :
    Outcome toy_platform toy_tx
      (λ _. commit_no)
      toy_executor
      (eth_execute_transaction toy_platform toy_tx (λ _. commit_no) toy_executor)
eth_execute_transaction-Outcome_example =
    eth_execute_transaction-Outcome toy_platform toy_tx (λ _. commit_no) toy_executor

abbrev hooked_executor : EthBlockExecutor toy_types
hooked_executor = record toy_executor { system_caller = record { spec = toy_spec; hook = some [] } }

execute_block-told_example :
    OnOk
      (λ _ u.
        told u.system_caller.hook
        ≡ some (
            pre_block block_hashes_contract
            ∷ pre_block beacon_root_contract
            ∷ transaction_source 0
            ∷ transaction_source 1
            ∷ post_block withdrawal_requests_contract
            ∷ post_block consolidation_requests_contract
            ∷ post_block balance_increments
            ∷ []))
      (execute_block (eth_block_executor toy_platform) (toy_tx ∷ toy_tx ∷ []) hooked_executor)
execute_block-told_example =
    execute_block-told toy_platform toy_laws (toy_tx ∷ toy_tx ∷ []) hooked_executor

-- The block of this example succeeds.
hooked_executor-gas :
    (elim (execute_block
      (eth_block_executor toy_platform)
      (toy_tx ∷ toy_tx ∷ [])
      hooked_executor).0 [ ok result ↦ result.gas_used | err e ↦ 0 ])
    ≡ 42000
unfolding execute_block execute_transactions apply_post_execution_changes eth_pre_execution_changes
    apply_blockhashes_contract_call apply_beacon_root_contract_call
    transact_blockhashes_contract_call transact_beacon_root_contract_call timestamp_seconds
    eth_execute_transaction run_transaction keep_transaction eth_finish collect_requests
    parse_deposits_from_receipts caller_post_execution_changes
    apply_withdrawal_requests_contract_call apply_consolidation_requests_contract_call
    transact_withdrawal_requests_contract_call transact_consolidation_requests_contract_call
    notify_increments drain_dao publish sub_u64 add_u64 accumulate_deposits_from_receipt
    balance_increment_state post_block_balance_increments base_block_reward add_increment add_u128
    block_reward base_block_reward_pre_merge mul_u128
hooked_executor-gas = refl

-- A platform whose system contracts answer with their own address.
abbrev answering_platform : Platform toy_types
answering_platform = record toy_platform {
  transact_system_call = λ caller contract input e.
      (ok (record { result = success 21000 [] (contract ∷ []); state = [] }), e);
}

eth_finish-BlockRequests_example :
    OnOk
      (λ res _. BlockRequests answering_platform toy_executor res.requests)
      (eth_finish answering_platform toy_executor)
eth_finish-BlockRequests_example = eth_finish-BlockRequests answering_platform toy_executor
