-- ===== src/Executables.antt =====
-- crates/evm/src/tx.rs: `RecoveredTx` and `ToTxEnv` of the ways to hand a transaction to an
-- executor: recovered, with its encoded form, or either of two.

use seismic_evm.Prelude.{◌≡◌, refl, List, map}
use seismic_evm.Types.{Address, Bytes, Types}
use seismic_evm.Platform.{Platform, ExecutableTx, recovered}
use seismic_evm.Either.{Either, left, right}
use seismic_evm.Executor.{BlockExecutor, execute_transactions}

-- `WithEncoded<Recovered<T>>`
pub record WithEncoded (Transaction : Type 0) : Type 0 where
  pub encoded_bytes : Bytes
  pub inner : Transaction
  pub inner_signer : Address

module _ {t : Types} where
  -- `ToTxEnv` and `RecoveredTx` of a transaction with its encoded form, from the conversion
  -- `FromTxWithEncoded`.
  abbrev pub with_encoded :
      (from_encoded_tx : t.Transaction → Address → Bytes → t.TxEnv)
      → WithEncoded t.Transaction
      → ExecutableTx t
  with_encoded from_encoded_tx w = record {
    tx = w.inner;
    signer = w.inner_signer;
    to_tx_env = from_encoded_tx w.inner w.inner_signer w.encoded_bytes;
  }

  -- `ToTxEnv` and `RecoveredTx` of `Either`.
  abbrev pub either_tx : Either (ExecutableTx t) (ExecutableTx t) → ExecutableTx t
  either_tx (left x) = x
  either_tx (right x) = x

-- The conversion of an Ethereum transaction with its encoded form, which ignores that form.
abbrev pub ignoring_encoded :
    {Transaction TxEnv : Type 0}
    → (Transaction → Address → TxEnv)
    → Transaction
    → Address
    → Bytes
    → TxEnv
ignoring_encoded from_recovered_tx tx sender encoded = from_recovered_tx tx sender

-- With such a conversion, an executor that is handed transactions with their encoded forms does
-- what it does with the recovered transactions.
pub execute_transactions-with_encoded :
    {t : Types} {S : Type 0} (p : Platform t) (ex : BlockExecutor t S)
    (ws : List (WithEncoded t.Transaction))
    → execute_transactions ex (map (with_encoded (ignoring_encoded p.from_recovered_tx)) ws)
      ≡ execute_transactions ex (map (λ w. recovered p w.inner w.inner_signer) ws)
execute_transactions-with_encoded p ex ws = refl
