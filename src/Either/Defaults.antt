-- ===== src/Either/Defaults.antt =====
-- The methods that `Either` overrides do what the trait's defaults would.
use seismic_evm.Prelude.{Result, ok, err, resume, ◌≡◌, refl, ap, ◌∙◌}
use seismic_evm.Types.{ResultAndState}
use seismic_evm.Either.{
  EvmTypes, EvmMethods, Either, left, right, either_evm, evm_db, set_evm_db,
  default_transact_commit, default_into_db, default_into_env, default_enable_inspector,
  default_disable_inspector,
}

-- The methods that the trait gives agree with their defaults.
pub record HasDefaults {k : EvmTypes} {E : Type 0} (m : EvmMethods k E) : Type 0 where
  pub transact_same : (tx : k.Tx) (evm : E) → m.transact tx evm ≡ m.transact_raw tx evm
  pub commit_same :
      (tx : k.Tx) (evm : E) → m.transact_commit tx evm ≡ default_transact_commit m tx evm
  pub db_same : (evm : E) → m.into_db evm ≡ default_into_db m evm
  pub env_same : (evm : E) → m.into_env evm ≡ default_into_env m evm
  pub enable_same : (evm : E) → m.enable_inspector evm ≡ default_enable_inspector m evm
  pub disable_same : (evm : E) → m.disable_inspector evm ≡ default_disable_inspector m evm

module _ {k : EvmTypes} {L R : Type 0} (l : EvmMethods k L) (r : EvmMethods k R) where
  abbrev Ended : Type 0 → Type 0 → Type 0
  Ended E A = Result k.Failure A × E

  in_left : {A : Type 0} → Ended L A → Ended (Either L R) A
  in_left (x, evm) = (x, left evm)

  in_right : {A : Type 0} → Ended R A → Ended (Either L R) A
  in_right (x, evm) = (x, right evm)

  commit-left :
      (o : Ended L (ResultAndState k.HaltReason))
      → in_left (
          resume o.0
            (λ outcome evm.
              (ok outcome.result, set_evm_db l (k.commit outcome.state (evm_db l evm)) evm))
            o.1)
        ≡ resume o.0
            (λ outcome evm. (
              ok outcome.result,
              set_evm_db
                  (either_evm l r)
                  (k.commit outcome.state (evm_db (either_evm l r) evm))
                  evm,
            ))
            (left o.1)
  unfolding in_left
  commit-left (ok outcome, evm) = refl
  commit-left (err e, evm) = refl

  commit-right :
      (o : Ended R (ResultAndState k.HaltReason))
      → in_right (
          resume o.0
            (λ outcome evm.
              (ok outcome.result, set_evm_db r (k.commit outcome.state (evm_db r evm)) evm))
            o.1)
        ≡ resume o.0
            (λ outcome evm. (
              ok outcome.result,
              set_evm_db
                  (either_evm l r)
                  (k.commit outcome.state (evm_db (either_evm l r) evm))
                  evm,
            ))
            (right o.1)
  unfolding in_right
  commit-right (ok outcome, evm) = refl
  commit-right (err e, evm) = refl

  transact-either :
      HasDefaults l
      → HasDefaults r
      → (tx : k.Tx) (evm : Either L R)
      → (either_evm l r).transact tx evm ≡ (either_evm l r).transact_raw tx evm
  unfolding in_left in_right
  transact-either hl hr tx (left evm) = ap in_left (hl.transact_same tx evm)
  transact-either hl hr tx (right evm) = ap in_right (hr.transact_same tx evm)

  commit-either :
      HasDefaults l
      → HasDefaults r
      → (tx : k.Tx) (evm : Either L R)
      → (either_evm l r).transact_commit tx evm ≡ default_transact_commit (either_evm l r) tx evm
  unfolding in_left in_right default_transact_commit
  commit-either hl hr tx (left evm) =
      ap in_left (hl.commit_same tx evm) ∙ commit-left (l.transact tx evm)
  commit-either hl hr tx (right evm) =
      ap in_right (hr.commit_same tx evm) ∙ commit-right (r.transact tx evm)

  -- If two EVMs run, commit, take apart and switch their inspector as the trait's default methods
  -- do, then so does the EVM that is either of them, which overrides all of these methods.
  pub either_evm-HasDefaults : HasDefaults l → HasDefaults r → HasDefaults (either_evm l r)
  either_evm-HasDefaults hl hr = record {
    transact_same = transact-either hl hr;
    commit_same = commit-either hl hr;
    db_same = same_db;
    env_same = same_env;
    enable_same = same_enable;
    disable_same = same_disable;
  }
    where
      same_db :
          (evm : Either L R) → (either_evm l r).into_db evm ≡ default_into_db (either_evm l r) evm
      same_db (left evm) = hl.db_same evm
      same_db (right evm) = hr.db_same evm

      same_env :
          (evm : Either L R) → (either_evm l r).into_env evm ≡ default_into_env (either_evm l r) evm
      same_env (left evm) = hl.env_same evm
      same_env (right evm) = hr.env_same evm

      same_enable :
          (evm : Either L R)
          → (either_evm l r).enable_inspector evm ≡ default_enable_inspector (either_evm l r) evm
      same_enable (left evm) = ap left (hl.enable_same evm)
      same_enable (right evm) = ap right (hr.enable_same evm)

      same_disable :
          (evm : Either L R)
          → (either_evm l r).disable_inspector evm ≡ default_disable_inspector (either_evm l r) evm
      same_disable (left evm) = ap left (hl.disable_same evm)
      same_disable (right evm) = ap right (hr.disable_same evm)
