-- ===== src/EthExecutor/State.antt =====
-- The state of the Ethereum executor, of crates/evm/src/eth/block.rs, and the receipt builder's
-- trait of crates/evm/src/eth/receipt_builder.rs.
use seismic_evm.Prelude.{add_u128, Exec, ℕ, Option, List, [], ◌∷◌}
use seismic_evm.Types.{B256, Types, EvmState, ExecutionResult}
use seismic_evm.Errors.{BlockExecutionError}
use seismic_evm.Spec.{EthExecutorSpec}
use seismic_evm.SystemCalls.{SystemCaller, new_system_caller, Calling}
use seismic_evm.Balances.{Ommer, Withdrawal}

pub record EthBlockExecutionCtx : Type 0 where
  pub parent_hash : B256
  pub parent_beacon_block_root : Option B256
  pub ommers : List Ommer
  pub withdrawals : Option (List Withdrawal)

pub record ReceiptBuilderCtx (t : Types) : Type 0 where
  pub tx : t.Transaction
  pub evm : t.Evm
  pub result : ExecutionResult t.HaltReason
  pub state : EvmState
  pub cumulative_gas_used : ℕ

pub record ReceiptBuilder (t : Types) : Type 0 where
  pub build_receipt : ReceiptBuilderCtx t → t.Receipt

pub record EthBlockExecutor (t : Types) : Type 0 where
  pub spec : EthExecutorSpec
  pub ctx : EthBlockExecutionCtx
  pub evm : t.Evm
  pub system_caller : SystemCaller
  pub receipt_builder : ReceiptBuilder t
  pub receipts : List t.Receipt
  pub gas_used : ℕ

-- `EthBlockExecutor::new`
unfoldable pub new_executor :
    {t : Types}
    → t.Evm
    → EthBlockExecutionCtx
    → EthExecutorSpec
    → ReceiptBuilder t
    → EthBlockExecutor t
new_executor evm ctx spec receipt_builder = record {
  spec = spec;
  ctx = ctx;
  evm = evm;
  system_caller = new_system_caller spec;
  receipt_builder = receipt_builder;
  receipts = [];
  gas_used = 0;
}

-- A call of the system caller on the executor's EVM.
abbrev pub calling :
    {t : Types} {A : Type 0}
    → Exec (Calling t) (BlockExecutionError t) A
    → Exec (EthBlockExecutor t) (BlockExecutionError t) A
calling m s =
    let (r, c) = m (record { caller = s.system_caller; evm = s.evm }) in
    (r, record s { system_caller = c.caller; evm = c.evm })

-- `Iterator::sum` of `u128`s.
unfoldable pub sum_u128 : List ℕ → ℕ
sum_u128 [] = 0
sum_u128 (n ∷ ns) = add_u128 n (sum_u128 ns)
