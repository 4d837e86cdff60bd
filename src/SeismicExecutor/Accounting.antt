-- ===== src/SeismicExecutor/Accounting.antt =====
-- A whole Seismic block: a receipt for each transaction, and its gas.
use seismic_evm.Prelude.{
  Option-cases, length, All, u64_mod, Result, ok, err, Result-cases, pure, raise, ◌>>◌, >>=_assoc,
  ℕ, suc, ◌<◌, ◌≡◌, refl, sym, ap, ◌∙◌, inl, inr, Option, none, some, List, [], ◌∷◌,
}
use seismic_evm.Types.{Types}
use seismic_evm.Errors.{failed_to_decrypt_seismic_tx, BlockExecutionError, internal}
use seismic_evm.Platform.{Platform, ExecutableTx}
use seismic_evm.Spec.{EthExecutorSpec}
use seismic_evm.Executor.{
  BlockExecutionResult, execute_transactions, apply_post_execution_changes, execute_block,
}
use seismic_evm.EthExecutor.{
  EthBlockExecutionCtx, ReceiptBuilder, EthBlockExecutor, new_executor, eth_pre_execution_changes,
  eth_finish, eth_block_executor,
}
use seismic_evm.EthExecutor.Gas.{ReportsGas}
use seismic_evm.EthExecutor.Accounting.{Accounted, BlockResult, execute_block-Accounted}
use seismic_evm.Prelude.Keeps.{OnOk, OnOk-bind, OnOk-always, OnOk-and}
use seismic_evm.Platform.Laws.{EvmLaws, RespectsGasLimit}
use seismic_evm.SeismicExecutor.{
  SeismicBlockExecutor, SeismicBlockExecutorFactory, decrypt, new_seismic_executor, create_executor,
}
use seismic_evm.SeismicExecutor.Refinement.{
  plaintexts, plaintexts-ok, plaintexts-err, eth_block_of, seismic, execute_block-plaintexts,
}
use mathlib.Core.Path.{subst}

module _ {t : Types} {SecretKey : Type 0} (p : Platform t)
    (plaintext_copy : SecretKey → t.Transaction → Result t.DecryptError t.Transaction) where
  -- A transaction that the key decrypts.
  abbrev pub IsDecryptable : SecretKey → ExecutableTx t → Type 0
  IsDecryptable sk tx = (plaintext : t.Transaction) × (plaintext_copy sk tx.tx ≡ ok plaintext)

  decrypt-IsDecryptable :
      (sk : SecretKey) (tx tx' : ExecutableTx t)
      → decrypt p plaintext_copy sk tx ≡ ok tx'
      → IsDecryptable sk tx
  unfolding decrypt
  decrypt-IsDecryptable sk tx tx' good = elim (Result-cases (plaintext_copy sk tx.tx)) [
    | inl found ↦ found
    | inr (e, bad) ↦
        let fails : decrypt p plaintext_copy sk tx
            ≡ err (internal (failed_to_decrypt_seismic_tx e)) =
          rw (bad, decrypt) refl in
        absurd (cc (sym good ∙ fails))
  ]

  -- If nothing stops the decryption, every transaction is decrypted, to one plaintext each.
  plaintexts-IsDecryptable :
      (sk : SecretKey) (txs : List (ExecutableTx t))
      → (plaintexts p plaintext_copy sk txs).stopped ≡ none
      → All (IsDecryptable sk) txs
        × (length (plaintexts p plaintext_copy sk txs).plain ≡ length txs)
  plaintexts-IsDecryptable sk [] all = (tt, refl)
  plaintexts-IsDecryptable sk (tx ∷ txs) all =
      elim (Result-cases (decrypt p plaintext_copy sk tx)) [
        | inr (e, bad) ↦
            let stops : some e ≡ none =
              sym (ap (λ x. x.stopped) (plaintexts-err p plaintext_copy sk tx e txs bad)) ∙ all in
            absurd (cc stops)
        | inl (tx', good) ↦
            let same = plaintexts-ok p plaintext_copy sk tx tx' txs good in
            let rest = plaintexts-IsDecryptable sk txs (sym (ap (λ x. x.stopped) same) ∙ all) in
            (
              (decrypt-IsDecryptable sk tx tx' good, rest.0),
              ap (λ x. length x.plain) same ∙ ap suc rest.1,
            )
      ]

  -- A block whose transactions were all decrypted is the Ethereum executor's.
  eth_block_of-execute_block :
      (txs : List (ExecutableTx t)) (s : EthBlockExecutor t)
      → eth_block_of p plaintext_copy (record { plain = txs; stopped = none }) s
        ≡ execute_block (eth_block_executor p) txs s
  unfolding execute_block apply_post_execution_changes
  eth_block_of-execute_block txs s =
      ap (λ m. (eth_pre_execution_changes p >> m) s)
        (>>=_assoc (execute_transactions (eth_block_executor p) txs) (λ _. pure tt)
          (λ _. eth_finish p))

  -- A block with a transaction that cannot be decrypted fails.
  eth_block_of-stopped :
      (Q : BlockExecutionResult t → Type 0) (txs : List (ExecutableTx t))
      (e : BlockExecutionError t) (s : EthBlockExecutor t)
      → OnOk
          (λ res _. Q res)
          (eth_block_of p plaintext_copy (record { plain = txs; stopped = some e }) s)
  eth_block_of-stopped Q txs e s =
      let run = execute_transactions (eth_block_executor p) txs in
      subst (λ m. OnOk (λ res _. Q res) ((eth_pre_execution_changes p >> m) s))
        (sym (>>=_assoc run (λ _. raise e) (λ _. eth_finish p)))
        (OnOk-bind (λ _ _. Unit {0}) _ (eth_pre_execution_changes p s) _
          (OnOk-always (λ _. Unit {0}) (eth_pre_execution_changes p s) tt)
          (λ _ u _.
            OnOk-bind (λ _ _. Unit {0}) (λ res _. Q res) (run u) _
              (OnOk-always (λ _. Unit {0}) (run u) tt) (λ _ v _. tt)))

  module _ (laws : EvmLaws p) where
    -- What a Seismic block that succeeded says of its transactions and reports.
    abbrev pub SeismicAccounted :
        SecretKey → List (ExecutableTx t) → (limit : ℕ) → BlockExecutionResult t → Type 0
    SeismicAccounted sk txs limit res =
        All (IsDecryptable sk) txs × Accounted p laws (length txs) limit res

    eth_block_of-SeismicAccounted :
        (sk : SecretKey) (evm : t.Evm) (ctx : EthBlockExecutionCtx) (spec : EthExecutorSpec)
        (b : ReceiptBuilder t) (txs : List (ExecutableTx t))
        → ReportsGas p b
        → (p.block evm).gas_limit < u64_mod
        → All (RespectsGasLimit p) (plaintexts p plaintext_copy sk txs).plain
        → OnOk
            (λ res _. SeismicAccounted sk txs (p.block evm).gas_limit res)
            (eth_block_of p plaintext_copy
              (plaintexts p plaintext_copy sk txs)
              (new_executor evm ctx spec b))
    eth_block_of-SeismicAccounted sk evm ctx spec b txs reports fits respects =
        let s = new_executor evm ctx spec b in
        let limit = (p.block evm).gas_limit in
        let x = plaintexts p plaintext_copy sk txs in
        let block : Option (BlockExecutionError t) → BlockResult p laws =
          λ o. eth_block_of p plaintext_copy (record { plain = x.plain; stopped = o }) s in
        elim (Option-cases x.stopped) [
          | inr (e, stops) ↦
              subst (λ o. OnOk (λ res _. SeismicAccounted sk txs limit res) (block o)) (sym stops)
                (eth_block_of-stopped (SeismicAccounted sk txs limit) x.plain e s)
          | inl all ↦
              let found = plaintexts-IsDecryptable sk txs all in
              let run = execute_block (eth_block_executor p) x.plain s in
              subst (λ r. OnOk (λ res _. SeismicAccounted sk txs limit res) r)
                (sym (ap block all ∙ eth_block_of-execute_block x.plain s))
                (OnOk-and _ _ run (OnOk-always (λ _. All (IsDecryptable sk) txs) run found.0) (
                  subst (λ n. OnOk (λ res _. Accounted p laws n limit res) run) found.1
                    (execute_block-Accounted p laws evm ctx spec b x.plain reports fits respects)))
        ]

module _ {t : Types} {SecretKey Keypair : Type 0} (p : Platform t)
    (plaintext_copy : SecretKey → t.Transaction → Result t.DecryptError t.Transaction) where
  OnOk-on_inner :
      {A : Type 0} (Q : A → Type 0) (s : SeismicBlockExecutor t SecretKey Keypair)
      (r : Result (BlockExecutionError t) A × EthBlockExecutor t)
      → OnOk (λ a _. Q a) r
      → OnOk (λ a _. Q a) (r.0, record s { inner = r.1 })
  OnOk-on_inner Q s (ok a, u) h = h
  OnOk-on_inner Q s (err e, u) h = tt

  module _ (laws : EvmLaws p) where
    -- If an executor is created by the factory and a block succeeds, every transaction of it is
    -- decryptable, and the result has a receipt for each, whose gas adds up to the block's, which is
    -- within the block's gas limit. The gas limit is taken to be a 64-bit number, the receipt
    -- builder to report the cumulative gas that it is given, and the EVM to use no more gas than
    -- the gas limits of the decrypted transactions.
    pub create_executor-SeismicAccounted :
        (f : SeismicBlockExecutorFactory t SecretKey Keypair) (evm : t.Evm)
        (ctx : EthBlockExecutionCtx) (txs : List (ExecutableTx t))
        → ReportsGas p f.factory_receipt_builder
        → (p.block evm).gas_limit < u64_mod
        → All
            (RespectsGasLimit p)
            (plaintexts p plaintext_copy f.factory_purpose_keys.tx_io_sk txs).plain
        → OnOk
            (λ res _.
              SeismicAccounted p plaintext_copy laws f.factory_purpose_keys.tx_io_sk txs
                (p.block evm).gas_limit
                res)
            (execute_block (seismic p plaintext_copy) txs (create_executor f evm ctx))
    unfolding create_executor new_seismic_executor
    create_executor-SeismicAccounted f evm ctx txs reports fits respects =
        let sk = f.factory_purpose_keys.tx_io_sk in
        let s = create_executor f evm ctx in
        let block = eth_block_of p plaintext_copy (plaintexts p plaintext_copy sk txs) s.inner in
        subst
          (λ r.
            OnOk
              (λ res _. SeismicAccounted p plaintext_copy laws sk txs (p.block evm).gas_limit res)
              r)
          (sym (execute_block-plaintexts p plaintext_copy txs s))
          (OnOk-on_inner (SeismicAccounted p plaintext_copy laws sk txs (p.block evm).gas_limit) s
            block
            (eth_block_of-SeismicAccounted p plaintext_copy laws sk evm ctx f.factory_spec
              f.factory_receipt_builder txs reports fits respects))
