-- ===== src/Internals/Erased.antt =====
-- Calls through `EvmInternals`, one after another, are calls of the journal.
use seismic_evm.Prelude.{Result, ok, err, map_err, Exec, resume, ◌>>=◌, ◌≡◌, refl}
use seismic_evm.Internals.{EvmInternals, on_journal}

module _ {J Failure Fail A B : Type 0} (error : Failure → Fail) (f : A → Exec J Failure B) where
  -- The wrapped result of a call of the journal, in place of which the next call goes on.
  on_journal-resume :
      (r : Result Failure A) (journal : J) (s : EvmInternals J)
      → resume (map_err error r) (λ a. on_journal error (f a)) (record s { internals = journal })
        ≡ (map_err error (resume r f journal).0, record s { internals = (resume r f journal).1 })
  on_journal-resume (ok a) journal s = refl
  on_journal-resume (err e) journal s = refl

  -- A call through the wrapper and then another are the wrapper's call of the two of the journal:
  -- with the first error, converted, and with the block's settings as they were.
  pub on_journal-bind :
      (m : Exec J Failure A) (s : EvmInternals J)
      → (on_journal error m >>= λ a. on_journal error (f a)) s ≡ on_journal error (m >>= f) s
  on_journal-bind m s = on_journal-resume (m s.internals).0 (m s.internals).1 s
