-- ===== src/Overrides/Tests.antt =====
-- The theorems on overrides at concrete inputs: a database of commits, and code that is decoded
-- unless it is empty.
use seismic_evm.Prelude.{
  length, u64_max, saturating_u64, Result, ok, err, ℕ, ◌+◌, ◌*◌, ◌^◌, ◌≡◌, refl, none, some, List,
  [], ◌∷◌,
}
use seismic_evm.Prelude.Dict.{lookup}
use seismic_evm.Types.{Bytes, EvmState}
use seismic_evm.Overrides.{
  BlockOverrides, AccountOverride, override_block_hashes, apply_block_overrides, OverrideDb,
  apply_account_override,
}
use seismic_evm.Overrides.Blocks.{merged, apply_block_overrides-merged}
use seismic_evm.Overrides.Accounts.{Overridden, apply_account_override-Overridden}
use seismic_evm.Toy.{toy_info, toy_block}

abbrev no_overrides : BlockOverrides
no_overrides = record {
  number = none;
  difficulty = none;
  time = none;
  gas_limit = none;
  coinbase = none;
  random = none;
  base_fee = none;
  block_hash = none;
}

abbrev older : BlockOverrides
older = record no_overrides {
  number = some 10;
  gas_limit = some 7;
  block_hash = some ((1, 100) ∷ (2, 200) ∷ []);
}

abbrev newer : BlockOverrides
newer = record no_overrides {
  number = some 11;
  base_fee = some (2 ^ 70);
  block_hash = some ((2, 201) ∷ []);
}

apply_block_overrides-merged_example :
    ((apply_block_overrides newer (apply_block_overrides older ((2, 5) ∷ [], toy_block))).1
      ≡ (apply_block_overrides (merged newer older) ((2, 5) ∷ [], toy_block)).1)
    × ((n : ℕ)
        → lookup n
            (apply_block_overrides newer (apply_block_overrides older ((2, 5) ∷ [], toy_block))).0
          ≡ lookup n (apply_block_overrides (merged newer older) ((2, 5) ∷ [], toy_block)).0)
apply_block_overrides-merged_example =
    apply_block_overrides-merged newer older ((2, 5) ∷ []) toy_block (refl, tt) (refl, (refl, tt))

overridden_base_fee : (apply_block_overrides newer ([], toy_block)).1.basefee ≡ u64_max
unfolding apply_block_overrides override_block_hashes saturating_u64
overridden_base_fee = refl

abbrev decode_code : Bytes → Result Unit Bytes
decode_code [] = err tt
decode_code (b ∷ bs) = ok (b ∷ bs)

abbrev toy_override_db : OverrideDb (List EvmState) Unit Unit
toy_override_db = record {
  basic = λ account commits. (ok none, commits);
  commit = λ state commits. state ∷ commits;
  keccak256 = λ code. length code;
  new_raw_checked = decode_code;
  default_info = toy_info;
  flagged = λ word. 2 * word + 1;
}

abbrev toy_override : AccountOverride
toy_override = record {
  balance = some 5;
  nonce = none;
  code = some (96 ∷ []);
  state = some ((1, 2) ∷ []);
  state_diff = none;
}

apply_account_override-Overridden_example :
    Overridden toy_override_db 60 toy_override []
      (apply_account_override toy_override_db 60 toy_override [])
apply_account_override-Overridden_example =
    apply_account_override-Overridden toy_override_db 60 toy_override [] (refl, tt) tt
