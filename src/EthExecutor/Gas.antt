-- ===== src/EthExecutor/Gas.antt =====
-- The block's gas: the counter, the receipts and the block's gas limit agree at all times.
use mathlib.Core.Path.{subst}
use seismic_evm.Prelude.{
  u64_mod, add_u64, add_u64_lem, sub_u64_lem, ℕ, ◌+◌, ◌-◌, ◌≤◌, ◌<◌, ◌≡◌, refl, List, [], ◌∷◌, ◌++◌,
  arith,
}
use seismic_evm.Types.{Types, gas_used_of, ResultAndState}
use seismic_evm.Platform.{Platform, ExecutableTx}
use seismic_evm.Platform.Laws.{EvmLaws, RespectsGasLimit, block_of_transact}
use seismic_evm.Executor.{CommitCondition}
use seismic_evm.EthExecutor.{
  ReceiptBuilderCtx, ReceiptBuilder, EthBlockExecutor, block_available_gas, keep_transaction,
  eth_execute_transaction,
}
use seismic_evm.EthExecutor.Outcome.{
  refused, failed, dropped, kept, eth_execute_transaction-Outcome,
}

module _ {t : Types} (p : Platform t) where
  -- The receipts report rising amounts of gas, from one amount to another.
  abbrev pub Cumulates : ℕ → List t.Receipt → ℕ → Type 0
  Cumulates low [] high = low ≡ high
  Cumulates low (r ∷ rs) high =
      (low ≤ p.receipt_cumulative_gas_used r) × Cumulates (p.receipt_cumulative_gas_used r) rs high

  -- A receipt builder that reports the cumulative gas that it is given.
  abbrev pub ReportsGas : ReceiptBuilder t → Type 0
  ReportsGas b =
      (ctx : ReceiptBuilderCtx t)
      → p.receipt_cumulative_gas_used (b.build_receipt ctx) ≡ ctx.cumulative_gas_used

  -- The gas counter is within the block's limit, a `u64`, and the last receipt reports it.
  pub record IsConsistent (s : EthBlockExecutor t) : Type 0 where
    pub in_limit : s.gas_used ≤ (p.block s.evm).gas_limit
    pub limit_fits : (p.block s.evm).gas_limit < u64_mod
    pub cumulates : Cumulates 0 s.receipts s.gas_used

  pub Cumulates-append :
      (low high : ℕ) (rs : List t.Receipt) (r : t.Receipt)
      → Cumulates low rs high
      → high ≤ p.receipt_cumulative_gas_used r
      → Cumulates low (rs ++ r ∷ []) (p.receipt_cumulative_gas_used r)
  Cumulates-append low high [] r h le = (omega arith, refl)
  Cumulates-append low high (x ∷ rs) r h le =
      (h.0, Cumulates-append (p.receipt_cumulative_gas_used x) high rs r h.1 le)

  pub block_available_gas_lem :
      {s : EthBlockExecutor t}
      → IsConsistent s
      → block_available_gas p s ≡ (p.block s.evm).gas_limit - s.gas_used
  unfolding block_available_gas
  block_available_gas_lem h = sub_u64_lem _ _ h.in_limit h.limit_fits

  module _ (laws : EvmLaws p) where
    -- Another EVM with the same block settings.
    IsConsistent-evm :
        {s : EthBlockExecutor t} (evm' : t.Evm)
        → p.block evm' ≡ p.block s.evm
        → IsConsistent s
        → IsConsistent (record s { evm = evm' })
    IsConsistent-evm evm' same h = record {
      in_limit = rw same h.in_limit;
      limit_fits = rw same h.limit_fits;
      cumulates = h.cumulates;
    }

    keep_transaction-IsConsistent :
        {s : EthBlockExecutor t} (tx : ExecutableTx t) (res : ResultAndState t.HaltReason)
        → ReportsGas s.receipt_builder
        → s.gas_used + gas_used_of res.result ≤ (p.block s.evm).gas_limit
        → IsConsistent s
        → IsConsistent (keep_transaction p tx res s)
    unfolding keep_transaction
    keep_transaction-IsConsistent {s} tx res reports fits h =
        let gas : add_u64 s.gas_used (gas_used_of res.result)
            ≡ s.gas_used + gas_used_of res.result =
          add_u64_lem _ _ (omega (arith, h.limit_fits)) in
        let same = laws.block-set_db s.evm (p.commit res.state (p.db s.evm)) in
        record {
          in_limit = rw same (rw gas fits);
          limit_fits = rw same h.limit_fits;
          cumulates = subst (Cumulates 0 (s.receipts ++ _ ∷ [])) (reports _) (
              Cumulates-append 0 s.gas_used s.receipts _ h.cumulates
                (rw (reports _) (rw gas (omega arith))));
        }

    -- Executing a transaction keeps the gas consistent, however it ends.
    pub eth_execute_transaction-IsConsistent :
        (tx : ExecutableTx t) (f : CommitCondition t) (s : EthBlockExecutor t)
        → ReportsGas s.receipt_builder
        → RespectsGasLimit p tx
        → IsConsistent s
        → IsConsistent (eth_execute_transaction p tx f s).1
    eth_execute_transaction-IsConsistent tx f s reports respects h =
        elim (eth_execute_transaction-Outcome p tx f s) [
          | refused over e ↦ rw e h
          | failed fits x evm' ran e ↦ rw e (IsConsistent-evm evm' (block_of_transact laws ran) h)
          | dropped fits x evm' ran keep e ↦
              rw e (IsConsistent-evm evm' (block_of_transact laws ran) h)
          | kept fits x evm' ran keep e ↦ rw e (
              keep_transaction-IsConsistent tx x reports
                (rw (block_of_transact laws ran) (
                  omega (
                    arith,
                    fits,
                    respects s.evm evm' x ran,
                    block_available_gas_lem h,
                    h.in_limit,
                  )))
                (IsConsistent-evm evm' (block_of_transact laws ran) h))
        ]
