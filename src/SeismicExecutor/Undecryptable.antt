-- ===== src/SeismicExecutor/Undecryptable.antt =====
-- A block with a transaction that cannot be decrypted.
use seismic_evm.Prelude.{
  Result, ok, err, Exec, raise, resume, ◌>>◌, >>=_assoc, ◌≡◌, refl, sym, ap, ◌∙◌, List, [], ◌∷◌,
  ◌++◌,
}
use seismic_evm.Types.{Types}
use seismic_evm.Errors.{failed_to_decrypt_seismic_tx, BlockExecutionError, internal}
use seismic_evm.Platform.{Platform, ExecutableTx}
use seismic_evm.Executor.{
  BlockExecutionResult, BlockExecutor, execute_transactions, apply_post_execution_changes,
  execute_block,
}
use seismic_evm.EthExecutor.{eth_pre_execution_changes}
use seismic_evm.SeismicExecutor.{
  SeismicBlockExecutor, decrypt, on_inner, seismic_execute_with_result_closure,
}
use seismic_evm.SeismicExecutor.Refinement.{seismic, execute_transactions-plaintexts}
use mathlib.Core.Path.{subst}

execute_transactions-append :
    {t : Types} {S : Type 0} (ex : BlockExecutor t S) (xs ys : List (ExecutableTx t))
    → execute_transactions ex (xs ++ ys)
      ≡ (execute_transactions ex xs >> execute_transactions ex ys)
unfolding execute_transactions
execute_transactions-append ex [] ys = refl
execute_transactions-append ex (tx ∷ xs) ys = rw (execute_transactions-append ex xs ys) (
    sym (
      >>=_assoc (ex.execute_transaction_with_result_closure tx) (λ _. execute_transactions ex xs)
        (λ _. execute_transactions ex ys)))

module _ {t : Types} {SecretKey Keypair : Type 0} (p : Platform t)
    (plaintext_copy : SecretKey → t.Transaction → Result t.DecryptError t.Transaction) where
  -- The error of a transaction that cannot be decrypted, as a step that changes nothing.
  abbrev pub refuses :
      {A : Type 0}
      → t.DecryptError
      → Exec (SeismicBlockExecutor t SecretKey Keypair) (BlockExecutionError t) A
  refuses e = raise (internal (failed_to_decrypt_seismic_tx e))

  execute_transactions-refuses :
      (tx : ExecutableTx t) (after : List (ExecutableTx t)) (e : t.DecryptError)
      (s : SeismicBlockExecutor t SecretKey Keypair)
      → plaintext_copy s.purpose_keys.tx_io_sk tx.tx ≡ err e
      → execute_transactions (seismic p plaintext_copy) (tx ∷ after) s ≡ refuses e s
  unfolding execute_transactions seismic_execute_with_result_closure
  execute_transactions-refuses tx after e s bad = rw (bad, decrypt) refl

  module _ (before after : List (ExecutableTx t)) (tx : ExecutableTx t) (e : t.DecryptError) where
    -- The step that ends the block does so after any step that leaves the keys.
    refuses-after :
        {A : Type 0} (s : SeismicBlockExecutor t SecretKey Keypair)
        (r : Result (BlockExecutionError t) A × SeismicBlockExecutor t SecretKey Keypair)
        → plaintext_copy s.purpose_keys.tx_io_sk tx.tx ≡ err e
        → r.1.purpose_keys ≡ s.purpose_keys
        → resume r.0 (λ _. execute_transactions (seismic p plaintext_copy) (tx ∷ after)) r.1
          ≡ resume r.0 (λ _. refuses e) r.1
    refuses-after s (err x, u) bad same = refl
    refuses-after s (ok a, u) bad same =
        execute_transactions-refuses tx after e u
          (subst (λ keys. plaintext_copy keys.tx_io_sk tx.tx ≡ err e) (sym same) bad)

    execute_transactions-undecryptable :
        (s : SeismicBlockExecutor t SecretKey Keypair)
        → plaintext_copy s.purpose_keys.tx_io_sk tx.tx ≡ err e
        → execute_transactions (seismic p plaintext_copy) (before ++ tx ∷ after) s
          ≡ (execute_transactions (seismic p plaintext_copy) before >> refuses e) s
    execute_transactions-undecryptable s bad =
        ap (λ m. m s) (execute_transactions-append (seismic p plaintext_copy) before (tx ∷ after))
        ∙ refuses-after s (execute_transactions (seismic p plaintext_copy) before s) bad
            (ap (λ o. o.1.purpose_keys) (execute_transactions-plaintexts p plaintext_copy before s))

    -- What would come after the error does not run.
    refuses-then :
        {A B : Type 0}
        (f : Exec (SeismicBlockExecutor t SecretKey Keypair) (BlockExecutionError t) B)
        (r : Result (BlockExecutionError t) A × SeismicBlockExecutor t SecretKey Keypair)
        → resume
            (resume r.0 (λ _. refuses {A = Unit {0}} e) r.1).0
            (λ _. f)
            (resume r.0 (λ _. refuses {A = Unit {0}} e) r.1).1
          ≡ resume r.0 (λ _. refuses e) r.1
    refuses-then f (err x, u) = refl
    refuses-then f (ok a, u) = refl

    opened :
        {A : Type 0} (r : Result (BlockExecutionError t) A)
        (f g : Exec
          (SeismicBlockExecutor t SecretKey Keypair)
          (BlockExecutionError t)
          (BlockExecutionResult t))
        (u : SeismicBlockExecutor t SecretKey Keypair)
        → f u ≡ g u
        → resume r (λ _. f) u ≡ resume r (λ _. g) u
    opened (err x) f g u same = refl
    opened (ok a) f g u same = same

    -- If a transaction of a block cannot be decrypted with the executor's key, executing the block
    -- does what opening it and executing the transactions before that one do, and if these succeed,
    -- fails with its decryption error and no further change: the transaction itself, those behind
    -- it and the end of the block are not executed.
    pub execute_block-undecryptable :
        (s : SeismicBlockExecutor t SecretKey Keypair)
        → plaintext_copy s.purpose_keys.tx_io_sk tx.tx ≡ err e
        → execute_block (seismic p plaintext_copy) (before ++ tx ∷ after) s
          ≡ (on_inner (eth_pre_execution_changes p)
                >> (execute_transactions (seismic p plaintext_copy) before >> refuses e))
              s
    unfolding execute_block
    execute_block-undecryptable s bad =
        let u = record s { inner = (eth_pre_execution_changes p s.inner).1 } in
        let close = apply_post_execution_changes (seismic p plaintext_copy) in
        opened (eth_pre_execution_changes p s.inner).0 _ _ u (
          ap (λ r. resume r.0 (λ _. close) r.1) (execute_transactions-undecryptable u bad)
          ∙ refuses-then close (execute_transactions (seismic p plaintext_copy) before u))
