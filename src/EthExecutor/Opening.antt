-- ===== src/EthExecutor/Opening.antt =====
-- What the hook is told of before the transactions of a block.
use mathlib.Core.Path.{subst}
use seismic_evm.Prelude.{◌==◌, Result, ok, err, Exec, ◌≡◌, ap, ◌∙◌, not, ◌&&◌, List, ◌++◌}
use seismic_evm.Types.{Types, BlockEnv}
use seismic_evm.Errors.{BlockExecutionError}
use seismic_evm.Platform.{Platform}
use seismic_evm.Spec.{EthExecutorSpec}
use seismic_evm.StateHook.{
  block_hashes_contract, beacon_root_contract, StateChangeSource, pre_block, told, and_then_told,
  and_then_told_assoc,
}
use seismic_evm.Prelude.Keeps.{OnOk, OnOk-bind, OnOk-always, OnOk-and}
use seismic_evm.Platform.Laws.{EvmLaws}
use seismic_evm.SystemCalls.{
  timestamp_seconds, Calling, apply_blockhashes_contract_call, apply_beacon_root_contract_call,
}
use seismic_evm.SystemCalls.Block.{settings, Keeps-blockhashes}
use seismic_evm.SystemCalls.Told.{
  if_called, MoreTold, stores_hash, told-blockhashes, told-beacon_root,
}
use seismic_evm.EthExecutor.{
  EthBlockExecutionCtx, EthBlockExecutor, calling, with_state_clear_flag, pre_block_calls,
  eth_pre_execution_changes,
}

module _ {t : Types} where
  abbrev pub view_calling : EthBlockExecutor t → Calling t
  view_calling s = record { caller = s.system_caller; evm = s.evm }

  -- The hook has been told of more sources since `s`.
  abbrev pub ToldSince : EthBlockExecutor t → List StateChangeSource → EthBlockExecutor t → Type 0
  ToldSince s more u = told u.system_caller.hook ≡ and_then_told (told s.system_caller.hook) more

  -- What a step tells the hook comes after what it has been told before.
  pub ToldSince-then :
      {A : Type 0} (s u : EthBlockExecutor t) (xs ys : List StateChangeSource)
      → ToldSince s xs u
      → (r : Result (BlockExecutionError t) A × EthBlockExecutor t)
      → OnOk (λ _ v. ToldSince u ys v) r
      → OnOk (λ _ v. ToldSince s (xs ++ ys) v) r
  ToldSince-then s u xs ys h (ok a, v) k =
      k ∙ ap (λ o. and_then_told o ys) h ∙ and_then_told_assoc (told s.system_caller.hook) xs ys
  ToldSince-then s u xs ys h (err e, v) k = tt

module _ {t : Types} (p : Platform t) where
  -- The system calls before the transactions, by the block's settings and the caller's specification.
  abbrev pub opening_sources : BlockEnv → EthExecutorSpec → List StateChangeSource
  opening_sources block spec =
      let now = timestamp_seconds p.timestamp_in_seconds block in
      let later = not (block.number == 0) in
      if_called (spec.is_prague_active_at_timestamp now && later) (pre_block block_hashes_contract)
      ++ if_called (spec.is_cancun_active_at_timestamp now && later)
          (pre_block beacon_root_contract)

  pub told-calling :
      {A : Type 0} (more : List StateChangeSource) (m : Exec (Calling t) (BlockExecutionError t) A)
      (s : EthBlockExecutor t)
      → OnOk (λ _ c. MoreTold p (view_calling s) more c) (m (view_calling s))
      → OnOk (λ _ u. ToldSince s more u) (calling m s)
  told-calling {A = A} more m s h = by_result (m (view_calling s)) h
    where
      by_result :
          (r : Result (BlockExecutionError t) A × Calling t)
          → OnOk (λ _ c. MoreTold p (view_calling s) more c) r
          → OnOk
              (λ _ u. ToldSince s more u)
              (r.0, record s { system_caller = r.1.caller; evm = r.1.evm })
      by_result (ok a, c) h = h
      by_result (err e, c) h = tt

  module _ (laws : EvmLaws p) where
    told-pre_block_calls :
        (ctx : EthBlockExecutionCtx) (s : EthBlockExecutor t)
        → OnOk
            (λ _ u. ToldSince s (opening_sources (p.block s.evm) s.system_caller.spec) u)
            (pre_block_calls p ctx s)
    told-pre_block_calls ctx s =
        let first = calling (apply_blockhashes_contract_call p ctx.parent_hash) s in
        let same = (Keeps-blockhashes laws ctx.parent_hash).same (view_calling s) in
        OnOk-bind
          (λ _ u.
            ToldSince s
              (if_called (stores_hash p (view_calling s)) (pre_block block_hashes_contract)) u
            × (settings laws (view_calling u) ≡ settings laws (view_calling s)))
          _ first _
          (OnOk-and _ _ first
            (told-calling _ (apply_blockhashes_contract_call p ctx.parent_hash) s
              (told-blockhashes p ctx.parent_hash (view_calling s)))
            (OnOk-always (λ u. settings laws (view_calling u) ≡ settings laws (view_calling s))
              first same))
          (λ _ u h.
            let second =
              calling (apply_beacon_root_contract_call p ctx.parent_beacon_block_root) u in
            ToldSince-then s u _ _ h.0 second (
              subst
                (λ x.
                  OnOk
                    (λ _ v.
                      ToldSince u
                        (if_called
                          (x.1.is_cancun_active_at_timestamp
                              (timestamp_seconds p.timestamp_in_seconds x.0)
                            && not (x.0.number == 0))
                          (pre_block beacon_root_contract))
                        v)
                    second)
                h.1
                (told-calling _ (apply_beacon_root_contract_call p ctx.parent_beacon_block_root) u
                  (told-beacon_root p ctx.parent_beacon_block_root (view_calling u)))))

    -- What `told` says of the state in which the state clear flag was set holds of the state before.
    pub told-eth_pre :
        (s : EthBlockExecutor t)
        → OnOk
            (λ _ u. ToldSince s (opening_sources (p.block s.evm) s.system_caller.spec) u)
            (eth_pre_execution_changes p s)
    unfolding eth_pre_execution_changes
    told-eth_pre s =
        let s' = with_state_clear_flag p s in
        subst
          (λ block.
            OnOk (λ _ u. ToldSince s (opening_sources block s.system_caller.spec) u)
              (pre_block_calls p s.ctx s'))
          (laws.block-set_db s.evm _) (told-pre_block_calls s.ctx s')
