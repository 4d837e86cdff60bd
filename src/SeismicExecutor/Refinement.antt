-- ===== src/SeismicExecutor/Refinement.antt =====
-- The Seismic executor does what the Ethereum executor does on the decrypted transactions.
use seismic_evm.Prelude.{
  Result, ok, err, Result-cases, Exec, pure, raise, resume, ◌>>◌, >>=_assoc, ◌≡◌, refl, sym, ap,
  ◌∙◌, inl, inr, Option, none, some, List, [], ◌∷◌,
}
use seismic_evm.Types.{Types}
use seismic_evm.Errors.{BlockExecutionError}
use seismic_evm.Platform.{Platform, ExecutableTx}
use seismic_evm.Executor.{
  BlockExecutionResult, BlockExecutor, default_result_closure, execute_transactions, execute_block,
}
use seismic_evm.EthExecutor.{
  EthBlockExecutor, eth_pre_execution_changes, eth_execute_transaction, eth_finish,
  eth_block_executor,
}
use seismic_evm.SeismicExecutor.{
  SeismicBlockExecutor, decrypt, on_inner, seismic_execute_with_result_closure,
  seismic_block_executor,
}

-- The transactions decrypted up to the first that cannot be, and its error.
pub record Plaintexts (t : Types) : Type 0 where
  pub plain : List (ExecutableTx t)
  pub stopped : Option (BlockExecutionError t)

-- The error of the transaction that could not be decrypted.
abbrev pub raise_if :
    {t : Types}
    → Option (BlockExecutionError t)
    → Exec (EthBlockExecutor t) (BlockExecutionError t) Unit
raise_if none = pure tt
raise_if (some e) = raise e

module _ {t : Types} {SecretKey : Type 0} (p : Platform t)
    (plaintext_copy : SecretKey → t.Transaction → Result t.DecryptError t.Transaction) where
  abbrev pub plaintexts : SecretKey → List (ExecutableTx t) → Plaintexts t
  plaintexts sk [] = record { plain = []; stopped = none }
  plaintexts sk (tx ∷ txs) =
      let rest = plaintexts sk txs in
      elim (decrypt p plaintext_copy sk tx) [
        | err e ↦ record { plain = []; stopped = some e }
        | ok tx' ↦ record { plain = tx' ∷ rest.plain; stopped = rest.stopped }
      ]

  pub plaintexts-ok :
      (sk : SecretKey) (tx tx' : ExecutableTx t) (txs : List (ExecutableTx t))
      → decrypt p plaintext_copy sk tx ≡ ok tx'
      → plaintexts sk (tx ∷ txs)
        ≡ record { plain = tx' ∷ (plaintexts sk txs).plain; stopped = (plaintexts sk txs).stopped }
  plaintexts-ok sk tx tx' txs good = rw (good, plaintexts) refl

  pub plaintexts-err :
      (sk : SecretKey) (tx : ExecutableTx t) (e : BlockExecutionError t)
      (txs : List (ExecutableTx t))
      → decrypt p plaintext_copy sk tx ≡ err e
      → plaintexts sk (tx ∷ txs) ≡ record { plain = []; stopped = some e }
  plaintexts-err sk tx e txs bad = rw (bad, plaintexts) refl

  -- The Ethereum executor on decrypted transactions, then the error that stopped the decryption.
  abbrev pub execute_plaintexts :
      Plaintexts t → Exec (EthBlockExecutor t) (BlockExecutionError t) Unit
  execute_plaintexts x = execute_transactions (eth_block_executor p) x.plain >> raise_if x.stopped

  -- The Ethereum executor's block on decrypted transactions.
  abbrev pub eth_block_of :
      Plaintexts t → Exec (EthBlockExecutor t) (BlockExecutionError t) (BlockExecutionResult t)
  eth_block_of x = eth_pre_execution_changes p >> (execute_plaintexts x >> eth_finish p)

module _ {t : Types} {SecretKey Keypair : Type 0} (p : Platform t)
    (plaintext_copy : SecretKey → t.Transaction → Result t.DecryptError t.Transaction) where
  abbrev pub seismic : BlockExecutor t (SeismicBlockExecutor t SecretKey Keypair)
  seismic = seismic_block_executor p plaintext_copy

  resume-on_inner :
      {A B : Type 0} (r : Result (BlockExecutionError t) A)
      (f : A → Exec (EthBlockExecutor t) (BlockExecutionError t) B)
      (f' : A → Exec (SeismicBlockExecutor t SecretKey Keypair) (BlockExecutionError t) B)
      (s : SeismicBlockExecutor t SecretKey Keypair)
      → ((a : A) → f' a s ≡ on_inner (f a) s)
      → resume r f' s ≡ on_inner (resume r f) s
  resume-on_inner (ok a) f f' s h = h a
  resume-on_inner (err e) f f' s h = refl

  pub execute_transactions-plaintexts :
      (txs : List (ExecutableTx t)) (s : SeismicBlockExecutor t SecretKey Keypair)
      → execute_transactions seismic txs s
        ≡ on_inner
            (execute_plaintexts p plaintext_copy
              (plaintexts p plaintext_copy s.purpose_keys.tx_io_sk txs))
            s
  unfolding execute_transactions seismic_execute_with_result_closure
  execute_transactions-plaintexts [] s = refl
  execute_transactions-plaintexts (tx ∷ txs) s =
      elim (Result-cases (decrypt p plaintext_copy s.purpose_keys.tx_io_sk tx)) [
        | inr (e, bad) ↦
            rw bad refl
            ∙ ap (λ x. on_inner (execute_plaintexts p plaintext_copy x) s)
                (sym (plaintexts-err p plaintext_copy s.purpose_keys.tx_io_sk tx e txs bad))
        | inl (tx', good) ↦
            let one = default_result_closure (eth_execute_transaction p) tx' in
            let rest = plaintexts p plaintext_copy s.purpose_keys.tx_io_sk txs in
            rw good (
              resume-on_inner (one s.inner).0 (λ _. execute_plaintexts p plaintext_copy rest) _
                (record s { inner = (one s.inner).1 })
                (λ _. execute_transactions-plaintexts txs (record s { inner = (one s.inner).1 })))
            ∙ ap (λ m. on_inner m s)
                (sym (
                  >>=_assoc one (λ _. execute_transactions (eth_block_executor p) rest.plain)
                    (λ _. raise_if rest.stopped)))
            ∙ ap (λ x. on_inner (execute_plaintexts p plaintext_copy x) s)
                (sym (plaintexts-ok p plaintext_copy s.purpose_keys.tx_io_sk tx tx' txs good))
      ]

  finish-plaintexts :
      (txs : List (ExecutableTx t)) (s : SeismicBlockExecutor t SecretKey Keypair)
      → (execute_transactions seismic txs >> on_inner (eth_finish p)) s
        ≡ on_inner
            (execute_plaintexts p plaintext_copy
                (plaintexts p plaintext_copy s.purpose_keys.tx_io_sk txs)
              >> eth_finish p)
            s
  finish-plaintexts txs s =
      let x = plaintexts p plaintext_copy s.purpose_keys.tx_io_sk txs in
      ap (λ o. resume o.0 (λ _. on_inner (eth_finish p)) o.1)
        (execute_transactions-plaintexts txs s)
      ∙ resume-on_inner (execute_plaintexts p plaintext_copy x s.inner).0 (λ _. eth_finish p)
          (λ _. on_inner (eth_finish p))
          (record s { inner = (execute_plaintexts p plaintext_copy x s.inner).1 }) (λ _. refl)

  -- Executing a block does to the inner executor what the Ethereum executor does on the decrypted
  -- transactions, up to the first that cannot be decrypted: its error then ends the block, after
  -- those before it have run. The keys stay.
  pub execute_block-plaintexts :
      (txs : List (ExecutableTx t)) (s : SeismicBlockExecutor t SecretKey Keypair)
      → execute_block seismic txs s
        ≡ on_inner
            (eth_block_of p plaintext_copy
              (plaintexts p plaintext_copy s.purpose_keys.tx_io_sk txs))
            s
  unfolding execute_block
  execute_block-plaintexts txs s =
      let x = plaintexts p plaintext_copy s.purpose_keys.tx_io_sk txs in
      let opened = record s { inner = (eth_pre_execution_changes p s.inner).1 } in
      resume-on_inner (eth_pre_execution_changes p s.inner).0
        (λ _. execute_plaintexts p plaintext_copy x >> eth_finish p) _ opened
        (λ _. finish-plaintexts txs opened)
