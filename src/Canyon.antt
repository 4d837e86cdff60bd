-- ===== src/Canyon.antt =====
-- crates/op-evm/src/block/canyon.rs: the create2 deployer, which the Canyon hardfork of Optimism
-- puts into the state. The specification is `OpHardforks` of alloy_op_hardforks, and what the crate
-- takes from revm and op_revm is a record of operations.
pub mod Bytecode
pub mod Transition
mod Tests
use seismic_evm.Prelude.{
  if◌then◌else◌, ok, Exec, pure, ◌>>=◌, ◌>>◌, ℕ, ◌-◌, Bool, true, not, ◌&&◌, Option, none, some, [],
}
use seismic_evm.Prelude.Dict.{insert}
use seismic_evm.Types.{Address, B256, Bytes, Types, AccountInfo, Account, EvmState}
use seismic_evm.Platform.{Platform}
use seismic_evm.Spec.{EthExecutorSpec}
use seismic_evm.Canyon.Bytecode.{create_2_deployer_bytecode}

pub record OpSpec : Type 0 where
  -- The part of the specification that it shares with Ethereum's.
  pub ethereum : EthExecutorSpec
  pub is_regolith_active_at_timestamp : ℕ → Bool
  pub is_canyon_active_at_timestamp : ℕ → Bool

pub record OpPlatform (t : Types) : Type 0 where
  pub base : Platform t
  -- `Typed2718::ty` and op_revm's `DEPOSIT_TRANSACTION_TYPE`
  pub tx_ty : t.Transaction → ℕ
  pub deposit_transaction_type : ℕ
  -- `AccountInfo::default`, `Bytecode::new_raw`, and `Account` from an `AccountInfo`
  pub default_info : AccountInfo
  pub new_raw : Bytes → Bytes
  pub account_of_info : AccountInfo → Account

-- `CREATE_2_DEPLOYER_ADDR`
unfoldable pub create_2_deployer_addr : Address
create_2_deployer_addr = 0x13b0d85ccb8bf860b6b79af3029fca081ae9bef2

-- `CREATE_2_DEPLOYER_CODEHASH`
unfoldable pub create_2_deployer_codehash : B256
create_2_deployer_codehash = 0xb0550b5b431e30d38000efb7107aaa0ade03d48a7198a140edda9d27134468b2

-- `Account::mark_touch`
abbrev pub mark_touch : Account → Account
mark_touch account = record account { status = record account.status { touched = true } }

-- Canyon is active at the timestamp, and was not active two seconds before.
abbrev pub is_canyon_transition : OpSpec → ℕ → Bool
is_canyon_transition spec timestamp =
    spec.is_canyon_active_at_timestamp timestamp
    && not (spec.is_canyon_active_at_timestamp (timestamp - 2))

module _ {t : Types} (o : OpPlatform t) where
  -- `Option::unwrap_or_default` of an account's info.
  abbrev pub info_or_default : Option AccountInfo → AccountInfo
  info_or_default none = o.default_info
  info_or_default (some info) = info

  -- The account's info with the create2 deployer's code.
  unfoldable pub deployed_info : AccountInfo → AccountInfo
  deployed_info info = record info {
    code_hash = create_2_deployer_codehash;
    code = some (o.new_raw create_2_deployer_bytecode);
  }

  -- The touched account of the deployer, as changes to commit.
  unfoldable pub deployer_state : Option AccountInfo → EvmState
  unfolding deployed_info
  deployer_state found =
      insert create_2_deployer_addr
        (mark_touch (o.account_of_info (deployed_info (info_or_default found)))) []

  abbrev pub deploy_create2 : Exec t.Db t.DbError Unit
  deploy_create2 = do
    found ← o.base.load_cache_account create_2_deployer_addr
    λ db. (ok tt, o.base.commit (deployer_state found) db)

  unfoldable pub ensure_create2_deployer : OpSpec → ℕ → Exec t.Db t.DbError Unit
  ensure_create2_deployer spec timestamp =
      if is_canyon_transition spec timestamp then deploy_create2 else pure tt
