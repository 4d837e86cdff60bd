-- ===== src/SystemCalls/Block.antt =====
-- System calls leave the block's settings and the system caller's specification as they were.
use seismic_evm.Prelude.{Exec, ◌≡◌, refl, Option, none, some, arith}
use seismic_evm.Types.{Address, B256, Bytes, Types, BlockEnv, EvmState, ResultAndState}
use seismic_evm.Errors.{EvmError, BlockValidationError, BlockExecutionError}
use seismic_evm.Platform.{Platform}
use seismic_evm.Spec.{EthExecutorSpec}
use seismic_evm.StateHook.{
  block_hashes_contract, beacon_root_contract, withdrawal_requests_contract,
  consolidation_requests_contract, StateChangeSource, pre_block, post_block,
}
use seismic_evm.Prelude.Keeps.{Keeps, Keeps-pure, Keeps-bind}
use seismic_evm.Platform.Laws.{EvmLaws}
use seismic_evm.SystemCalls.{
  system_call, transact_blockhashes_contract_call, transact_beacon_root_contract_call,
  transact_withdrawal_requests_contract_call, transact_consolidation_requests_contract_call,
  Calling, with_evm, publish, publish_step, apply_blockhashes_contract_call,
  apply_beacon_root_contract_call, apply_withdrawal_requests_contract_call,
  apply_consolidation_requests_contract_call, caller_post_execution_changes,
}

module _ {t : Types} {p : Platform t} (laws : EvmLaws p) where
  -- The settings that a system call reads.
  abbrev pub settings : Calling t → BlockEnv × EthExecutorSpec
  settings c = (p.block c.evm, c.caller.spec)

  Keeps-system_call :
      {A : Type 0} (caller contract : Address) (input : Bytes)
      (done : ResultAndState t.HaltReason → A) (failed : EvmError t → BlockValidationError t)
      → Keeps p.block (system_call p caller contract input done failed)
  Keeps-system_call caller contract input done failed = record {
    same = λ e. laws.block-system_call caller contract input e;
  }

  Keeps-with_evm :
      {A : Type 0} (m : Exec t.Evm (BlockExecutionError t) A)
      → Keeps p.block m
      → Keeps settings (with_evm p m)
  Keeps-with_evm m k = record { same = λ s i. (k.same s.evm i, s.caller.spec) }

  settings-publish :
      (source : StateChangeSource) (state : EvmState) (s : Calling t)
      → settings (publish p source state s) ≡ settings s
  unfolding publish
  settings-publish source state s i =
      (laws.block-set_db s.evm (p.commit state (p.db s.evm)) i, s.caller.spec)

  Keeps-publish_call :
      (source : StateChangeSource) (found : Option (ResultAndState t.HaltReason))
      → Keeps settings (publish_step p source found)
  Keeps-publish_call source none = record { same = λ s. refl }
  Keeps-publish_call source (some res) = record { same = settings-publish source res.state }

  Keeps-transact_blockhashes :
      (spec : EthExecutorSpec) (hash : B256)
      → Keeps p.block (transact_blockhashes_contract_call p spec hash)
  unfolding transact_blockhashes_contract_call
  Keeps-transact_blockhashes spec hash = record {
    same = λ e. ground (
      arith,
      laws.block-system_call p.constants.beacon_system_address p.constants.history_storage_address
          (p.b256_bytes hash) e,
    );
  }

  Keeps-transact_beacon_root :
      (spec : EthExecutorSpec) (root : Option B256)
      → Keeps p.block (transact_beacon_root_contract_call p spec root)
  unfolding transact_beacon_root_contract_call
  Keeps-transact_beacon_root spec none = record { same = λ e. ground arith }
  Keeps-transact_beacon_root spec (some root) = record {
    same = λ e. ground (
      arith,
      laws.block-system_call p.constants.beacon_system_address p.constants.beacon_roots_address
          (p.b256_bytes root) e,
    );
  }

  pub Keeps-blockhashes : (hash : B256) → Keeps settings (apply_blockhashes_contract_call p hash)
  unfolding apply_blockhashes_contract_call
  Keeps-blockhashes hash = record {
    same = λ s.
        (Keeps-bind (with_evm p (transact_blockhashes_contract_call p s.caller.spec hash)) _
            (Keeps-with_evm _ (Keeps-transact_blockhashes s.caller.spec hash))
            (Keeps-publish_call (pre_block block_hashes_contract))).same
          s;
  }

  pub Keeps-beacon_root :
      (root : Option B256) → Keeps settings (apply_beacon_root_contract_call p root)
  unfolding apply_beacon_root_contract_call
  Keeps-beacon_root root = record {
    same = λ s.
        (Keeps-bind (with_evm p (transact_beacon_root_contract_call p s.caller.spec root)) _
            (Keeps-with_evm _ (Keeps-transact_beacon_root s.caller.spec root))
            (Keeps-publish_call (pre_block beacon_root_contract))).same
          s;
  }

  Keeps-withdrawals : Keeps settings (apply_withdrawal_requests_contract_call p)
  unfolding apply_withdrawal_requests_contract_call transact_withdrawal_requests_contract_call
  Keeps-withdrawals = Keeps-bind _ _ (Keeps-with_evm _ (Keeps-system_call _ _ _ _ _)) (λ res.
      record { same = settings-publish (post_block withdrawal_requests_contract) res.state })

  Keeps-consolidations : Keeps settings (apply_consolidation_requests_contract_call p)
  unfolding apply_consolidation_requests_contract_call transact_consolidation_requests_contract_call
  Keeps-consolidations = Keeps-bind _ _ (Keeps-with_evm _ (Keeps-system_call _ _ _ _ _)) (λ res.
      record { same = settings-publish (post_block consolidation_requests_contract) res.state })

  pub Keeps-caller_post : Keeps settings (caller_post_execution_changes p)
  unfolding caller_post_execution_changes
  Keeps-caller_post =
      Keeps-bind _ _ Keeps-withdrawals
        (λ w. Keeps-bind _ _ Keeps-consolidations (λ c. Keeps-pure _))
