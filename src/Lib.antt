-- ===== src/Lib.antt =====
-- Seismic EVM: the block executors of Ethereum, Seismic and Optimism, their EVMs, precompiles,
-- transaction environments, tracing and overrides.
--
-- The crates wrap revm. `crates/evm` has the traits and the Ethereum executor of a block,
-- `crates/seismic-evm` an EVM and an executor that decrypts transactions and then calls the Ethereum
-- executor, and `crates/op-evm` an EVM and an executor for Optimism. revm, its database, alloy's types and the decryption are not in the repository: they are
-- parameters, with what the code relies on as hypotheses that are named where they are declared.
--
-- Shared:
-- - Prelude: tests on numbers, lists, machine integers (release build: `+`, `-`, `*` wrap around),
--   results, methods on `&mut self` as state passing (`Exec`: what was written before an error stays
--   written), hash maps, and rules for what actions keep (Prelude.Keeps).
-- - Types, Errors, StateHook, Spec, Platform: the data and the interfaces that the executors share.
--   Types is the record of the types that the crates are generic over; Platform is the trait `Evm`
--   of crates/evm/src/evm.rs, revm's `State` and alloy's traits; Platform.Laws is what is relied on.
--
-- Parts:
-- - Rewards: crates/evm/src/block/calc.rs.
-- - Balances: crates/evm/src/block/state_changes.rs.
-- - Deposits: crates/evm/src/eth/eip6110.rs.
-- - SystemCalls: crates/evm/src/block/system_calls/ (`SystemCaller` and EIP-2935, 4788, 7002, 7251).
-- - DaoFork: crates/evm/src/eth/dao_fork.rs.
-- - Executor: crates/evm/src/block/mod.rs, the trait `BlockExecutor` and its default methods.
-- - EthExecutor: crates/evm/src/eth/block.rs. `eth_pre_execution_changes`, `eth_execute_transaction`
--   and `eth_finish` are the methods of `EthBlockExecutor`; `execute_block` runs them in order; the
--   state is in EthExecutor.State. EthExecutor.Opening, Hook, Closing and Ordering follow the state
--   hook over a block, with SystemCalls.Told.
-- - SeismicExecutor: crates/seismic-evm/src/block/mod.rs.
-- - SeismicEvm: crates/seismic-evm/src/lib.rs.
-- - Hardforks: crates/seismic-evm/src/hardfork.rs.
-- - Precompiles: crates/evm/src/precompiles.rs.
-- - TxEnvs: crates/evm/src/tx.rs.
-- - Receipts: crates/evm/src/eth/receipt_builder.rs and
--   crates/seismic-evm/src/block/receipt_builder.rs.
-- - Calls: crates/evm/src/call.rs.
-- - Canyon, OpExecutor, OpReceipts: crates/op-evm/src/block/ (canyon.rs, mod.rs, receipt_builder.rs).
--   `op_pre_execution_changes`, `op_execute_transaction` and `op_finish` are the methods of
--   `OpBlockExecutor`; `to_eth` views its state as the Ethereum executor's.
-- - Env, EthEvm, OpEvm, Either, Internals: crates/evm/src/env.rs, crates/evm/src/eth/mod.rs,
--   crates/op-evm/src/lib.rs, crates/evm/src/either.rs with the default methods of
--   crates/evm/src/evm.rs, and crates/evm/src/traits.rs.
-- - OpTxEnvs, Executables: the rest of crates/evm/src/tx.rs.
-- - Tracing: crates/evm/src/tracing.rs. `next` is the iterator's step; Tracing.Drained calls it until
--   it has no output.
-- - Overrides: crates/evm/src/overrides.rs. The conversion of a word into a stored value with its
--   flag of privacy is a parameter.
-- - Toy: a small platform, on which the Tests modules try the theorems.
--
-- All loops are structural recursion, so no fuel is used; the calls of the tracer's iterator are a
-- relation, of which it is proved that it ends. Hash maps are association lists in which a key stands
-- once; their order is the order of iteration. Closures are functions, with a state of their own
-- where they are `FnMut`.
-- Not modelled: the tests, and code that only borrows, boxes or formats.
pub mod Prelude
pub mod Types
pub mod Errors
pub mod StateHook
pub mod Platform
pub mod Spec
pub mod Env
pub mod SystemCalls
pub mod Rewards
pub mod Deposits
pub mod Balances
pub mod DaoFork
pub mod Executor
pub mod EthExecutor
pub mod Precompiles
pub mod SeismicExecutor
pub mod SeismicEvm
pub mod Hardforks
pub mod TxEnvs
pub mod Toy
pub mod Receipts
pub mod Calls
pub mod Canyon
pub mod OpExecutor
pub mod OpReceipts
pub mod Tracing
pub mod Overrides
pub mod EthEvm
pub mod OpEvm
pub mod OpTxEnvs
pub mod Executables
pub mod Either
pub mod Internals
