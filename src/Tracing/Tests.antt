-- ===== src/Tracing/Tests.antt =====
-- The theorems on the tracer at concrete inputs: an inspector that counts the commits.
use seismic_evm.Prelude.{
  ◌==◌, if◌then◌else◌, Result, ok, err, ℕ, ◌+◌, ◌≡◌, refl, false, some, List, [], ◌∷◌,
}
use seismic_evm.Types.{Types}
use seismic_evm.Errors.{fatal}
use seismic_evm.Platform.{Platform}
use seismic_evm.Tracing.{
  Inspected, TxTracer, TraceOutput, TracerIter, new_tx_tracer, trace, try_trace_many, next,
}
use seismic_evm.Tracing.Drained.{Drained, AllOrFailed, Drained-one_each}
use seismic_evm.Tracing.Traced.{InspectorLaws, output_iter, next-trace}
use seismic_evm.Toy.{ToyEvm, ToyReceipt, toy_constants, toy_outcome, toy_event, toy_info, toy_evm}

-- An EVM with a number as its inspector.
record InspectedEvm : Type 0 where
  evm : ToyEvm
  counter : ℕ

abbrev counted_types : Types
counted_types = record {
  Evm = InspectedEvm;
  Db = ℕ;
  TxEnv = ℕ;
  HaltReason = Unit {0};
  InvalidTx = Unit {0};
  Fatal = Unit {0};
  DbError = Unit {0};
  DecryptError = Unit {0};
  DecodeError = Unit {0};
  Transaction = ℕ;
  Receipt = ToyReceipt;
}

abbrev counted_platform : Platform counted_types
counted_platform = record {
  timestamp_in_seconds = false;
  constants = toy_constants;
  block = λ e. e.evm.settings;
  db = λ e. e.evm.commits;
  set_db = λ e d. record e { evm = record e.evm { commits = d } };
  transact = λ tx e. (ok toy_outcome, record e { counter = e.counter + tx });
  transact_system_call = λ caller contract input e. (ok toy_outcome, e);
  set_state_clear_flag = λ flag d. d;
  commit = λ state d. 1 + d;
  increment_balances = λ increments d. (ok tt, d);
  drain_balances = λ accounts d. (ok [], d);
  load_cache_account = λ a d. (ok (some toy_info), d);
  tx_gas_limit = λ tx. 21000 + tx;
  trie_hash = λ tx. tx;
  from_recovered_tx = λ tx signer. tx;
  receipt_logs = λ r. r.logs;
  receipt_cumulative_gas_used = λ r. r.gas;
  decode_log = λ log. ok toy_event;
  b256_bytes = λ hash. hash ∷ [];
}

abbrev counted : Inspected counted_types ℕ
counted = record { inspector = λ e. e.counter; set_inspector = λ e c. record e { counter = c } }

abbrev counted_tracer : TxTracer counted_types ℕ
counted_tracer = new_tx_tracer counted_platform counted (record { evm = toy_evm; counter = 0 })

abbrev counted_iter : TracerIter counted_types ℕ Unit Unit (TraceOutput Unit ℕ)
counted_iter = output_iter counted_platform counted (3 ∷ 4 ∷ []) counted_tracer

-- A transaction 9 fails in the EVM.
abbrev failing_platform : Platform counted_types
failing_platform = record counted_platform {
  transact = λ tx e.
      if tx == 9
      then (err (fatal tt), e)
      else (ok toy_outcome, record e { counter = e.counter + tx });
}

Drained-one_each_example :
    (outputs : List (Result Unit (TraceOutput Unit ℕ))) × (end : TracerIter counted_types ℕ Unit
      Unit
      (TraceOutput Unit ℕ))
    × Drained failing_platform counted
        (output_iter failing_platform counted (3 ∷ 9 ∷ 4 ∷ []) counted_tracer)
        outputs
        end
    × AllOrFailed failing_platform counted (3 ∷ 9 ∷ 4 ∷ []) outputs end
unfolding try_trace_many
Drained-one_each_example =
    Drained-one_each failing_platform counted (3 ∷ 9 ∷ 4 ∷ [])
      (output_iter failing_platform counted (3 ∷ 9 ∷ 4 ∷ []) counted_tracer) refl

counted_laws : InspectorLaws counted_platform counted
counted_laws = record { inspector-set_db = λ e d. refl; set_inspector_twice = λ e a b. refl }

next-trace_example :
    (output : TraceOutput Unit ℕ) × ((trace counted_platform counted 3 counted_tracer).0
      ≡ ok output)
    × (next counted_platform counted
          (output_iter {Fail = Unit {0}} counted_platform counted (3 ∷ 4 ∷ []) counted_tracer)
        ≡ (
          some (ok output),
          output_iter counted_platform counted
              (4 ∷ [])
              (trace counted_platform counted 3 counted_tracer).1,
        ))
next-trace_example =
    next-trace counted_platform counted counted_laws 3 (4 ∷ []) counted_tracer toy_outcome refl
