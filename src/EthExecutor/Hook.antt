-- ===== src/EthExecutor/Hook.antt =====
-- What the hook is told of while the transactions of a block run.
use seismic_evm.Prelude.{length, length-append, ℕ, ◌+◌, ◌≡◌, ap, ◌∙◌, Option, List, [], ◌∷◌}
use seismic_evm.Types.{Types}
use seismic_evm.Platform.{Platform, ExecutableTx}
use seismic_evm.StateHook.{
  StateChangeSource, transaction_source, StateHook, told, and_then_told, told-notify,
  and_then_told_nil, and_then_told_assoc,
}
use seismic_evm.Prelude.Keeps.{OnOk, OnOk-bind}
use seismic_evm.Executor.{commit_yes, default_result_closure, execute_transactions}
use seismic_evm.EthExecutor.{
  EthBlockExecutor, keep_transaction, eth_execute_transaction, eth_block_executor,
}
use seismic_evm.EthExecutor.Outcome.{
  refused, failed, dropped, kept, eth_execute_transaction-Outcome,
}
use mathlib.Core.Path.{subst}

-- The transactions' sources, numbered from an index on.
abbrev pub transaction_sources : {t : Types} → ℕ → List (ExecutableTx t) → List StateChangeSource
transaction_sources n [] = []
transaction_sources n (tx ∷ txs) = transaction_source n ∷ transaction_sources (n + 1) txs

module _ {t : Types} (p : Platform t) where
  abbrev hook_of : EthBlockExecutor t → Option StateHook
  hook_of s = s.system_caller.hook

  -- The hook has been told of these sources, and there is a receipt for each.
  abbrev Told : EthBlockExecutor t → List StateChangeSource → ℕ → EthBlockExecutor t → Type 0
  Told s more n u =
      (told (hook_of u) ≡ and_then_told (told (hook_of s)) more)
      × (length u.receipts ≡ length s.receipts + n)

  execute_transaction-Told :
      (tx : ExecutableTx t) (s : EthBlockExecutor t)
      → OnOk
          (λ _ u. Told s (transaction_source (length s.receipts) ∷ []) 1 u)
          (eth_execute_transaction p tx (λ _. commit_yes) s)
  execute_transaction-Told tx s = elim (eth_execute_transaction-Outcome p tx (λ _. commit_yes) s) [
    | refused over e ↦ rw e tt
    | failed fits x evm' ran e ↦ rw e tt
    | dropped fits x evm' ran keep e ↦ absurd (cc keep)
    | kept fits x evm' ran keep e ↦ rw e (
        unfold keep_transaction in
        (
          told-notify (transaction_source (length s.receipts)) x.state (hook_of s),
          length-append s.receipts (_ ∷ []),
        ))
  ]

  -- If the transactions of a block succeed, the hook, if there is one, is told of each of them once
  -- and in order, under the index of its receipt.
  pub execute_transactions-told :
      (txs : List (ExecutableTx t)) (s : EthBlockExecutor t)
      → OnOk
          (λ _ u.
            told u.system_caller.hook
            ≡ and_then_told
                (told s.system_caller.hook)
                (transaction_sources (length s.receipts) txs))
          (execute_transactions (eth_block_executor p) txs s)
  unfolding execute_transactions
  execute_transactions-told [] s = and_then_told_nil (told s.system_caller.hook)
  execute_transactions-told (tx ∷ txs) s =
      OnOk-bind (λ _ u. Told s (transaction_source (length s.receipts) ∷ []) 1 u) _
        (default_result_closure (eth_execute_transaction p) tx s) _
        (OnOk-bind (λ _ u. Told s (transaction_source (length s.receipts) ∷ []) 1 u) _
          (eth_execute_transaction p tx (λ _. commit_yes) s) _ (execute_transaction-Told tx s)
          (λ gas u h. h))
        (λ gas u h.
          subst
            (λ sources.
              OnOk (λ _ v. told v.system_caller.hook ≡ sources)
                (execute_transactions (eth_block_executor p) txs u))
            (ap (λ o. and_then_told o (transaction_sources (length u.receipts) txs)) h.0
              ∙ and_then_told_assoc (told s.system_caller.hook) _ _
              ∙ ap
                  (λ n.
                    and_then_told (told s.system_caller.hook)
                      (transaction_source (length s.receipts) ∷ transaction_sources n txs))
                  h.1)
            (execute_transactions-told txs u))
