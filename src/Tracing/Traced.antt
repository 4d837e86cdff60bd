-- ===== src/Tracing/Traced.antt =====
-- The tracer's iterator and single traces.
use seismic_evm.Prelude.{ok, ◌≡◌, refl, ap, ◌∙◌, some, List, ◌∷◌}
use seismic_evm.Types.{Types, ResultAndState}
use seismic_evm.Platform.{Platform, on_db, transact_commit}
use seismic_evm.Tracing.{
  Inspected, TxTracer, TraceOutput, Hook, TracerIter, trace, try_trace_many, commit_last_tx, hooked,
  next,
}
use seismic_evm.Tracing.Drained.{next-hooked}

-- What is relied on of the EVM's inspector: it is apart from the database, and a write replaces it.
pub record InspectorLaws {t : Types} {Inspector : Type 0} (p : Platform t)
    (i : Inspected t Inspector) : Type 0 where
  pub inspector-set_db : (e : t.Evm) (d : t.Db) → i.inspector (p.set_db e d) ≡ i.inspector e
  pub set_inspector_twice :
      (e : t.Evm) (a b : Inspector) → i.set_inspector (i.set_inspector e a) b ≡ i.set_inspector e b

-- The hook that reports the result and the inspector, and writes nothing.
abbrev pub output_hook :
    {t : Types} {Inspector Fail : Type 0}
    → Hook t Inspector Unit Fail (TraceOutput t.HaltReason Inspector)
output_hook ctx state = (ok (record { result = ctx.result; inspector = ctx.inspector }), ctx, state)

module _ {t : Types} {Inspector Fail : Type 0} (p : Platform t) (i : Inspected t Inspector) where
  -- The iterator with that hook, which commits every transaction.
  abbrev pub output_iter :
      List t.TxEnv
      → TxTracer t Inspector
      → TracerIter t Inspector Unit Fail (TraceOutput t.HaltReason Inspector)
  output_iter txs inner = commit_last_tx p i (try_trace_many p i txs output_hook tt inner)

  -- If the EVM runs the first transaction, the iterator that commits all transactions and reports
  -- results and inspectors outputs what `trace` returns, and goes on from the tracer's state after
  -- that `trace`.
  pub next-trace :
      InspectorLaws p i
      → (tx : t.TxEnv) (txs : List t.TxEnv) (s : TxTracer t Inspector)
        (res : ResultAndState t.HaltReason)
      → (p.transact tx s.evm).0 ≡ ok res
      → (output : TraceOutput t.HaltReason Inspector) × ((trace p i tx s).0 ≡ ok output)
        × (next p i (output_iter (tx ∷ txs) s)
            ≡ (some (ok output), output_iter txs (trace p i tx s).1))
  unfolding try_trace_many trace hooked transact_commit
  next-trace laws tx txs s res good =
      let evm' = (p.transact tx s.evm).1 in
      let taken = laws.inspector-set_db evm' (p.commit res.state (p.db evm')) in
      (
        record { result = res.result; inspector = i.inspector evm' },
        rw good (ap (λ x. ok (record { result = res.result; inspector = x })) taken),
        next-hooked p i (output_iter (tx ∷ txs) s) tx txs res refl good
            ∙ rw good (
                ap
                  (λ e. (
                    some (ok (record { result = res.result; inspector = i.inspector evm' })),
                    output_iter txs (record s { evm = e }),
                  ))
                  (laws.set_inspector_twice (on_db p (p.commit res.state) evm') (i.inspector evm')
                    s.fused_inspector)),
      )
