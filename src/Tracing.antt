-- ===== src/Tracing.antt =====
-- crates/evm/src/tracing.rs: the tracer of transactions and its iterator. An EVM's inspector is
-- reached through two operations. A hook (`FnMut`) is a function with a state of its own, that
-- gives back what it may write through the borrowed fields of its context.
pub mod Drained
pub mod Traced
mod Tests
use seismic_evm.Prelude.{
  if◌then◌else◌, Result, ok, err, Exec, Bool, true, false, not, ◌&&◌, ◌||◌, Option, none, some,
  List, [], ◌∷◌,
}
use seismic_evm.Types.{Types, EvmState, ExecutionResult, ResultAndState}
use seismic_evm.Errors.{EvmError}
use seismic_evm.Platform.{Platform, transact_commit}

-- `Evm::inspector` and a write through `inspector_mut`.
pub record Inspected (t : Types) (Inspector : Type 0) : Type 0 where
  pub inspector : t.Evm → Inspector
  pub set_inspector : t.Evm → Inspector → t.Evm

pub record TxTracer (t : Types) (Inspector : Type 0) : Type 0 where
  pub evm : t.Evm
  pub fused_inspector : Inspector

pub record TracingCtx (t : Types) (Inspector : Type 0) : Type 0 where
  pub tx : t.TxEnv
  pub result : ExecutionResult t.HaltReason
  pub state : EvmState
  pub inspector : Inspector
  pub db : t.Db
  pub fused_inspector : Inspector
  pub was_fused : Bool

pub record TraceOutput (HaltReason Inspector : Type 0) : Type 0 where
  pub result : ExecutionResult HaltReason
  pub inspector : Inspector

-- `TracingCtx::take_inspector`
unfoldable pub take_inspector :
    {t : Types} {Inspector : Type 0} → TracingCtx t Inspector → Inspector × TracingCtx t Inspector
take_inspector ctx =
    (ctx.inspector, record ctx { inspector = ctx.fused_inspector; was_fused = true })

-- A hook with a state: its result, the context after the call, and its new state.
abbrev pub Hook : Types → (Inspector State Fail Out : Type 0) → Type 0
Hook t Inspector State Fail Out =
    TracingCtx t Inspector → State → Result Fail Out × TracingCtx t Inspector × State

pub record TracerIter (t : Types) (Inspector State Fail Out : Type 0) : Type 0 where
  pub inner : TxTracer t Inspector
  pub txs : List t.TxEnv
  pub hook : Hook t Inspector State Fail Out
  pub hook_state : State
  pub skip_last_commit : Bool
  pub fuse : Bool

-- `peek().is_some()`
abbrev pub has_next : {Tx : Type 0} → List Tx → Bool
has_next [] = false
has_next (tx ∷ txs) = true

module _ {t : Types} {Inspector : Type 0} (p : Platform t) (i : Inspected t Inspector) where
  -- `TxTracer::new`
  abbrev pub new_tx_tracer : t.Evm → TxTracer t Inspector
  new_tx_tracer evm = record { evm = evm; fused_inspector = i.inspector evm }

  -- `TxTracer::fuse_inspector`
  abbrev pub fuse_inspector : TxTracer t Inspector → Inspector × TxTracer t Inspector
  fuse_inspector s = (i.inspector s.evm, record s { evm = i.set_inspector s.evm s.fused_inspector })

  -- The output of a run, with the inspector that was taken.
  abbrev pub trace_output :
      Result (EvmError t) (ExecutionResult t.HaltReason)
      → Inspector
      → Result (EvmError t) (TraceOutput t.HaltReason Inspector)
  trace_output (ok result) inspector = ok (record { result = result; inspector = inspector })
  trace_output (err e) inspector = err e

  -- `TxTracer::trace`, which takes the inspector before it returns an error.
  unfoldable pub trace :
      t.TxEnv → Exec (TxTracer t Inspector) (EvmError t) (TraceOutput t.HaltReason Inspector)
  trace tx s =
      let (r, evm') = transact_commit p tx s.evm in
      let (inspector, s') = fuse_inspector (record s { evm = evm' }) in
      (trace_output r inspector, s')

  module _ {State Fail Out : Type 0} where
    -- `TxTracer::try_trace_many`
    unfoldable pub try_trace_many :
        List t.TxEnv
        → Hook t Inspector State Fail Out
        → State
        → TxTracer t Inspector
        → TracerIter t Inspector State Fail Out
    try_trace_many txs hook hook_state inner = record {
      inner = inner;
      txs = txs;
      hook = hook;
      hook_state = hook_state;
      skip_last_commit = true;
      fuse = true;
    }

    -- `TxTracer::trace_many`, whose closure does not fail.
    unfoldable pub trace_many :
        List t.TxEnv
        → (TracingCtx t Inspector → State → Out × TracingCtx t Inspector × State)
        → State
        → TxTracer t Inspector
        → TracerIter t Inspector State Fail Out
    unfolding try_trace_many
    trace_many txs f =
        try_trace_many txs (λ ctx k. let (output, ctx', k') = f ctx k in (ok output, ctx', k'))

    -- `TracerIter::commit_last_tx`
    abbrev pub commit_last_tx :
        TracerIter t Inspector State Fail Out → TracerIter t Inspector State Fail Out
    commit_last_tx s = record s { skip_last_commit = false }

    -- `TracerIter::no_fuse`
    abbrev pub no_fuse :
        TracerIter t Inspector State Fail Out → TracerIter t Inspector State Fail Out
    no_fuse s = record s { fuse = false }

    -- What is committed: all but the last transaction, or all.
    abbrev pub commit_unless_last : TracerIter t Inspector State Fail Out → EvmState → t.Db → t.Db
    commit_unless_last s state db =
        if not s.skip_last_commit || has_next s.txs then p.commit state db else db

    abbrev pub fuse_unless :
        (was_fused : Bool)
        → TracerIter t Inspector State Fail Out
        → TracerIter t Inspector State Fail Out
    fuse_unless was_fused s =
        if s.fuse && not was_fused then record s { inner = (fuse_inspector s.inner).1 } else s

    -- The hook, the commit and the fuse, after a run of a transaction.
    unfoldable pub hooked :
        t.TxEnv
        → ResultAndState t.HaltReason
        → TracerIter t Inspector State Fail Out
        → Option (Result Fail Out) × TracerIter t Inspector State Fail Out
    hooked tx outcome s =
        let (output, ctx, hook_state) =
          s.hook
            (record {
              tx = tx;
              result = outcome.result;
              state = outcome.state;
              inspector = i.inspector s.inner.evm;
              db = p.db s.inner.evm;
              fused_inspector = s.inner.fused_inspector;
              was_fused = false;
            })
            s.hook_state in
        let evm = p.set_db s.inner.evm (commit_unless_last s outcome.state ctx.db) in
        (
          some output,
          fuse_unless ctx.was_fused (record s {
            inner = record s.inner { evm = i.set_inspector evm ctx.inspector };
            hook_state = hook_state;
          }),
        )

    -- `Iterator::next` of a transaction that was taken from the list.
    unfoldable pub next_tx :
        t.TxEnv
        → TracerIter t Inspector State Fail Out
        → Option (Result Fail Out) × TracerIter t Inspector State Fail Out
    unfolding hooked
    next_tx tx s =
        let (r, evm') = p.transact tx s.inner.evm in
        let s' = record s { inner = record s.inner { evm = evm' } } in
        elim r [ err e ↦ (none, s') | ok outcome ↦ hooked tx outcome s' ]

    abbrev pub next_of :
        List t.TxEnv
        → TracerIter t Inspector State Fail Out
        → Option (Result Fail Out) × TracerIter t Inspector State Fail Out
    next_of [] s = (none, s)
    next_of (tx ∷ txs) s = next_tx tx (record s { txs = txs })

    -- `Iterator::next`
    unfoldable pub next :
        TracerIter t Inspector State Fail Out
        → Option (Result Fail Out) × TracerIter t Inspector State Fail Out
    unfolding next_tx
    next s = next_of s.txs s
