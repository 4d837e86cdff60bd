-- ===== src/SystemCalls/Tests.antt =====
-- The theorem on the system calls at a concrete input: the genesis block, and a root of zero.
use seismic_evm.Prelude.{ok, err, ◌≡◌, refl, some}
use seismic_evm.Errors.{cancun_genesis_parent_beacon_block_root_not_zero, validation}
use seismic_evm.SystemCalls.{new_system_caller, Calling, caller_pre_execution_changes}
use seismic_evm.SystemCalls.Guards.{caller_pre_execution_changes-quiet}
use seismic_evm.Toy.{toy_types, toy_platform, toy_spec, toy_block}

abbrev genesis_calling : Calling toy_types
genesis_calling = record {
  caller = new_system_caller toy_spec;
  evm = record { settings = record toy_block { number = 0 }; commits = 0 };
}

caller_pre_execution_changes-quiet_example :
    caller_pre_execution_changes toy_platform 11 (some 0) genesis_calling ≡ (ok tt, genesis_calling)
caller_pre_execution_changes-quiet_example =
    caller_pre_execution_changes-quiet toy_platform 11 (some 0) genesis_calling (ok tt) refl refl

-- A root that is not zero.
genesis_root_not_zero :
    caller_pre_execution_changes toy_platform 11 (some 12) genesis_calling
    ≡ (err (validation (cancun_genesis_parent_beacon_block_root_not_zero 12)), genesis_calling)
genesis_root_not_zero =
    caller_pre_execution_changes-quiet toy_platform 11 (some 12) genesis_calling
      (err (validation (cancun_genesis_parent_beacon_block_root_not_zero 12))) refl refl
