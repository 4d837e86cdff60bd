-- ===== src/SeismicExecutor.antt =====
-- crates/seismic-evm/src/block/mod.rs: the executor that decrypts a transaction's input before
-- the Ethereum executor runs it. `InputDecryptionElements::plaintext_copy` and the keys are
-- parameters.
use seismic_evm.Prelude.{Result, ok, err, Exec, lift, ◌>>=◌, ℕ, Option}
use seismic_evm.Types.{Types}
use seismic_evm.Errors.{failed_to_decrypt_seismic_tx, BlockExecutionError, internal}
use seismic_evm.Platform.{Platform, ExecutableTx, recovered}
use seismic_evm.Spec.{EthExecutorSpec}
use seismic_evm.Executor.{CommitCondition, BlockExecutor, default_result_closure}
use seismic_evm.EthExecutor.{
  EthBlockExecutionCtx, ReceiptBuilder, EthBlockExecutor, new_executor, eth_pre_execution_changes,
  eth_execute_transaction, eth_finish, eth_block_executor,
}
pub mod Refinement
pub mod Undecryptable
pub mod Accounting
mod Tests

-- The fields of `GetPurposeKeysResponse` that the sources read.
pub record PurposeKeys (SecretKey Keypair : Type 0) : Type 0 where
  pub tx_io_sk : SecretKey
  pub rng_keypair : Keypair

pub record SeismicBlockExecutor (t : Types) (SecretKey Keypair : Type 0) : Type 0 where
  pub inner : EthBlockExecutor t
  pub purpose_keys : PurposeKeys SecretKey Keypair

pub record SeismicBlockExecutorFactory (t : Types) (SecretKey Keypair : Type 0) : Type 0 where
  pub factory_receipt_builder : ReceiptBuilder t
  pub factory_spec : EthExecutorSpec
  pub factory_purpose_keys : PurposeKeys SecretKey Keypair

module _ {t : Types} {SecretKey : Type 0} (p : Platform t)
    (plaintext_copy : SecretKey → t.Transaction → Result t.DecryptError t.Transaction) where
  -- The transaction decrypted, with the signer of the encrypted one.
  unfoldable pub decrypt :
      SecretKey → ExecutableTx t → Result (BlockExecutionError t) (ExecutableTx t)
  decrypt sk tx = elim (plaintext_copy sk tx.tx) [
    | err e ↦ err (internal (failed_to_decrypt_seismic_tx e))
    | ok plaintext ↦ ok (recovered p plaintext tx.signer)
  ]

module _ {t : Types} {SecretKey Keypair : Type 0} where
  -- `SeismicBlockExecutor::new`
  unfoldable pub new_seismic_executor :
      t.Evm
      → EthBlockExecutionCtx
      → EthExecutorSpec
      → ReceiptBuilder t
      → PurposeKeys SecretKey Keypair
      → SeismicBlockExecutor t SecretKey Keypair
  unfolding new_executor
  new_seismic_executor evm ctx spec b keys = record {
    inner = new_executor evm ctx spec b;
    purpose_keys = keys;
  }

  -- `SeismicBlockExecutorFactory::create_executor`
  unfoldable pub create_executor :
      SeismicBlockExecutorFactory t SecretKey Keypair
      → t.Evm
      → EthBlockExecutionCtx
      → SeismicBlockExecutor t SecretKey Keypair
  unfolding new_seismic_executor
  create_executor f evm ctx =
      new_seismic_executor evm ctx f.factory_spec f.factory_receipt_builder f.factory_purpose_keys

  -- A call of the inner executor.
  abbrev pub on_inner :
      {A : Type 0}
      → Exec (EthBlockExecutor t) (BlockExecutionError t) A
      → Exec (SeismicBlockExecutor t SecretKey Keypair) (BlockExecutionError t) A
  on_inner m s = let (r, inner') = m s.inner in (r, record s { inner = inner' })

  module _ (p : Platform t)
      (plaintext_copy : SecretKey → t.Transaction → Result t.DecryptError t.Transaction) where
    -- `execute_transaction_with_commit_condition`
    unfoldable pub seismic_execute_transaction :
        ExecutableTx t
        → CommitCondition t
        → Exec (SeismicBlockExecutor t SecretKey Keypair) (BlockExecutionError t) (Option ℕ)
    unfolding decrypt
    seismic_execute_transaction tx f s =
        (lift (decrypt p plaintext_copy s.purpose_keys.tx_io_sk tx) >>= λ recovered_tx.
        on_inner (eth_execute_transaction p recovered_tx f))
          s

    -- `execute_transaction_with_result_closure`
    unfoldable pub seismic_execute_with_result_closure :
        ExecutableTx t → Exec (SeismicBlockExecutor t SecretKey Keypair) (BlockExecutionError t) ℕ
    unfolding decrypt
    seismic_execute_with_result_closure tx s =
        (lift (decrypt p plaintext_copy s.purpose_keys.tx_io_sk tx) >>= λ recovered_tx.
        on_inner (default_result_closure (eth_execute_transaction p) recovered_tx))
          s

    -- `impl BlockExecutor for SeismicBlockExecutor`
    abbrev pub seismic_block_executor : BlockExecutor t (SeismicBlockExecutor t SecretKey Keypair)
    seismic_block_executor = record {
      apply_pre_execution_changes = on_inner (eth_pre_execution_changes p);
      execute_transaction_with_commit_condition = seismic_execute_transaction;
      execute_transaction_with_result_closure = seismic_execute_with_result_closure;
      finish = on_inner (eth_finish p);
      set_state_hook =
          λ hook s. record s { inner = (eth_block_executor p).set_state_hook hook s.inner };
    }
