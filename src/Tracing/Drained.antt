-- ===== src/Tracing/Drained.antt =====
-- Calling the tracer's iterator until it has no output.
use seismic_evm.Prelude.{
  if◌then◌else◌, length, Result, ok, err, Result-cases, pair_of_fst, suc, ◌≡◌, refl, ap, ◌∙◌, ◌⊎◌,
  inl, inr, Bool, true, false, not, ◌&&◌, none, some, List, [], ◌∷◌, ◌++◌,
}
use seismic_evm.Types.{Types, ResultAndState}
use seismic_evm.Errors.{EvmError}
use seismic_evm.Platform.{Platform}
use seismic_evm.Tracing.{Inspected, TracerIter, fuse_inspector, fuse_unless, hooked, next_tx, next}

module _ {t : Types} {Inspector State Fail Out : Type 0} (p : Platform t)
    (i : Inspected t Inspector) where
  -- The outputs of the calls of `next` up to the first one without an output.
  pub data Drained
      : TracerIter t Inspector State Fail Out
        → List (Result Fail Out)
        → TracerIter t Inspector State Fail Out
        → Type 0 where
    ended :
        (s s' : TracerIter t Inspector State Fail Out) → next p i s ≡ (none, s') → Drained s [] s'
    went_on :
        (s : TracerIter t Inspector State Fail Out) (output : Result Fail Out)
        (s' : TracerIter t Inspector State Fail Out) (outputs : List (Result Fail Out))
        (s'' : TracerIter t Inspector State Fail Out)
        → next p i s ≡ (some output, s')
        → Drained s' outputs s''
        → Drained s (output ∷ outputs) s''

  txs-fuse_unless :
      (was_fused : Bool) (s : TracerIter t Inspector State Fail Out)
      → (fuse_unless p i was_fused s).txs ≡ s.txs
  txs-fuse_unless was_fused s = fused (s.fuse && not was_fused)
    where
      fused :
          (b : Bool)
          → (if b then record s { inner = (fuse_inspector p i s.inner).1 } else s).txs ≡ s.txs
      fused true = refl
      fused false = refl

  -- The iterator after the EVM ran the first transaction.
  abbrev pub after_run :
      t.TxEnv
      → List t.TxEnv
      → TracerIter t Inspector State Fail Out
      → TracerIter t Inspector State Fail Out
  after_run tx txs s = record s {
    txs = txs;
    inner = record s.inner { evm = (p.transact tx s.inner.evm).1 };
  }

  pub next-hooked :
      (s : TracerIter t Inspector State Fail Out) (tx : t.TxEnv) (txs : List t.TxEnv)
      (res : ResultAndState t.HaltReason)
      → s.txs ≡ tx ∷ txs
      → (p.transact tx s.inner.evm).0 ≡ ok res
      → next p i s ≡ hooked p i tx res (after_run tx txs s)
  unfolding next next_tx
  next-hooked s tx txs res e good = rw e (rw (good, next_tx) refl)

  next-fails :
      (s : TracerIter t Inspector State Fail Out) (tx : t.TxEnv) (txs : List t.TxEnv)
      (x : EvmError t)
      → s.txs ≡ tx ∷ txs
      → (p.transact tx s.inner.evm).0 ≡ err x
      → next p i s ≡ (none, after_run tx txs s)
  unfolding next next_tx
  next-fails s tx txs x e bad = rw e (rw (bad, next_tx) refl)

  next-ended : (s : TracerIter t Inspector State Fail Out) → s.txs ≡ [] → next p i s ≡ (none, s)
  unfolding next
  next-ended s e = rw e refl

  hooked-some :
      (tx : t.TxEnv) (res : ResultAndState t.HaltReason) (s : TracerIter t Inspector State Fail Out)
      → (output : Result Fail Out) × (hooked p i tx res s ≡ (some output, (hooked p i tx res s).1))
        × ((hooked p i tx res s).1.txs ≡ s.txs)
  unfolding hooked
  hooked-some tx res s = (_, refl, txs-fuse_unless _ _)

  -- What a transaction that runs adds to the outputs.
  Drained-runs :
      (s : TracerIter t Inspector State Fail Out) (tx : t.TxEnv) (txs : List t.TxEnv)
      (res : ResultAndState t.HaltReason) (outputs : List (Result Fail Out))
      (end : TracerIter t Inspector State Fail Out)
      → s.txs ≡ tx ∷ txs
      → (p.transact tx s.inner.evm).0 ≡ ok res
      → Drained (hooked p i tx res (after_run tx txs s)).1 outputs end
      → (output : Result Fail Out) × Drained s (output ∷ outputs) end
  Drained-runs s tx txs res outputs end e good rest =
      let (output, same, left) = hooked-some tx res (after_run tx txs s) in
      (output, went_on s output _ outputs end (next-hooked s tx txs res e good ∙ same) rest)

  -- Every transaction has been run with an output, or the last one that was run failed in the EVM,
  -- which has ended the iteration without an output and left the transactions behind it.
  abbrev pub AllOrFailed :
      List t.TxEnv → List (Result Fail Out) → TracerIter t Inspector State Fail Out → Type 0
  AllOrFailed txs outputs end =
      ((length outputs ≡ length txs) × (end.txs ≡ []))
      ⊎ ((ran : List t.TxEnv) × (tx : t.TxEnv) × (evm : t.Evm) × (x : EvmError t) × (txs
            ≡ ran ++ tx ∷ end.txs)
          × (length outputs ≡ length ran)
          × (p.transact tx evm ≡ (err x, end.inner.evm)))

  AllOrFailed-runs :
      (tx : t.TxEnv) (txs : List t.TxEnv) (output : Result Fail Out)
      (outputs : List (Result Fail Out)) (end : TracerIter t Inspector State Fail Out)
      → AllOrFailed txs outputs end
      → AllOrFailed (tx ∷ txs) (output ∷ outputs) end
  AllOrFailed-runs tx txs output outputs end (inl (same, left)) = inl (ap suc same, left)
  AllOrFailed-runs tx txs output outputs end (inr (ran, y, evm, x, split, same, bad)) =
      inr (tx ∷ ran, y, evm, x, ap (λ l. tx ∷ l) split, ap suc same, bad)

  -- Calling the iterator until it has no output gives exactly one output for each transaction, and
  -- none is left; or it stops at a transaction that the EVM fails on: then there is exactly one
  -- output for each transaction before it, and exactly those behind it are left.
  pub Drained-one_each :
      (txs : List t.TxEnv) (s : TracerIter t Inspector State Fail Out)
      → s.txs ≡ txs
      → (outputs : List (Result Fail Out)) × (end : TracerIter t Inspector State Fail Out) × Drained
          s outputs end
        × AllOrFailed txs outputs end
  Drained-one_each [] s e = ([], s, ended s s (next-ended s e), inl (refl, e))
  Drained-one_each (tx ∷ txs) s e = elim (Result-cases (p.transact tx s.inner.evm).0) [
    | inr (x, bad) ↦ (
      [],
      after_run tx txs s,
      ended s _ (next-fails s tx txs x e bad),
      inr ([], tx, s.inner.evm, x, refl, refl, pair_of_fst _ bad),
    )
    | inl (res, good) ↦
        let (outputs, end, rest, done) =
          Drained-one_each txs (hooked p i tx res (after_run tx txs s)).1
            (hooked-some tx res (after_run tx txs s)).2 in
        let (output, all) = Drained-runs s tx txs res outputs end e good rest in
        (output ∷ outputs, end, all, AllOrFailed-runs tx txs output outputs end done)
  ]
