-- ===== src/OpExecutor/Tests.antt =====
-- The theorems on the Optimism executor at concrete inputs.
use seismic_evm.Prelude.{
  ◌==◌, if◌then◌else◌, Result, ok, err, ℕ, ◌≡◌, refl, sym, ap, Bool, true, false, [], ◌∷◌,
}
use seismic_evm.Prelude.Keeps.{OnOk}
use seismic_evm.Executor.{commit_yes, execute_transactions, execute_block}
use seismic_evm.EthExecutor.{ReceiptBuilderCtx, eth_block_executor}
use seismic_evm.OpExecutor.{new_op_executor, op_execute_transaction, op_block_executor}
use seismic_evm.OpExecutor.Outcome.{OpOutcome, op_execute_transaction-OpOutcome}
use seismic_evm.OpExecutor.Refinement.{to_eth, ended_eth, BuildsAs, execute_transactions-op_to_eth}
use seismic_evm.OpExecutor.Block.{OpReported, execute_block-OpReported}
use seismic_evm.Toy.{ToyReceipt, toy_types, toy_platform, toy_evm, toy_builder, toy_tx}
use seismic_evm.Toy.Optimism.{
  toy_op_platform, toy_op_spec, toy_build_receipt, toy_op_builder, toy_op_ctx, toy_deposit,
  toy_op_executor,
}
use seismic_evm.OpExecutor.Gas.{OpReportsGas}

op_execute_transaction-OpOutcome_example :
    OpOutcome toy_op_platform toy_deposit
      (λ _. commit_yes)
      toy_op_executor
      (op_execute_transaction toy_op_platform toy_deposit (λ _. commit_yes) toy_op_executor)
op_execute_transaction-OpOutcome_example =
    op_execute_transaction-OpOutcome toy_op_platform toy_deposit (λ _. commit_yes) toy_op_executor

toy_op_builder-BuildsAs : BuildsAs toy_op_platform toy_builder toy_op_builder
toy_op_builder-BuildsAs ctx plain = rw plain refl

execute_transactions-op_to_eth_example :
    ended_eth toy_op_platform toy_builder (
      execute_transactions
        (op_block_executor toy_op_platform)
        (toy_tx ∷ toy_tx ∷ [])
        toy_op_executor)
    ≡ execute_transactions
        (eth_block_executor toy_platform)
        (toy_tx ∷ toy_tx ∷ [])
        (to_eth toy_op_platform toy_builder toy_op_executor)
execute_transactions-op_to_eth_example =
    execute_transactions-op_to_eth toy_op_platform toy_builder (toy_tx ∷ toy_tx ∷ [])
      toy_op_executor (refl, (refl, tt)) toy_op_builder-BuildsAs

gas_of : Result (ReceiptBuilderCtx toy_types) ToyReceipt → ℕ
gas_of (ok r) = r.gas
gas_of (err ctx) = 0

gas-toy_build_receipt :
    (deposit : Bool) (ctx : ReceiptBuilderCtx toy_types) (r : ToyReceipt)
    → (if deposit then err ctx else ok (toy_build_receipt ctx)) ≡ ok r
    → r.gas ≡ ctx.cumulative_gas_used
unfolding gas_of
gas-toy_build_receipt true ctx r made = absurd (cc made)
gas-toy_build_receipt false ctx r made = sym (ap gas_of made)

toy_op_builder-OpReportsGas : OpReportsGas toy_op_platform toy_op_builder
toy_op_builder-OpReportsGas = record {
  built = λ ctx r made. gas-toy_build_receipt (ctx.tx == 126) ctx r made;
  deposited = λ d. refl;
}

execute_block-OpReported_example : OnOk (OpReported toy_op_platform 2) (
    execute_block
      (op_block_executor toy_op_platform)
      (toy_deposit ∷ toy_tx ∷ [])
      (new_op_executor toy_op_platform toy_evm toy_op_ctx toy_op_spec toy_op_builder))
execute_block-OpReported_example =
    execute_block-OpReported toy_op_platform toy_evm toy_op_ctx toy_op_spec toy_op_builder
      (toy_deposit ∷ toy_tx ∷ []) toy_op_builder-OpReportsGas
