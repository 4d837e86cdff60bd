-- ===== src/OpExecutor/Block.antt =====
-- A whole Optimism block: the gas that it reports is that of the last receipt, and the executor's.
use seismic_evm.Prelude.{
  length, Exec, ◌>>◌, >>=_assoc, ℕ, ◌+◌, ◌≡◌, refl, sym, ap, ◌∙◌, Option, none, some, List, [],
  arith,
}
use seismic_evm.Prelude.Dict.{Dict}
use seismic_evm.Types.{Types}
use seismic_evm.Errors.{increment_balance_failed, BlockExecutionError, validation}
use seismic_evm.Platform.{ExecutableTx}
use seismic_evm.StateHook.{StateHook}
use seismic_evm.Prelude.Keeps.{Keeps, Keeps-pure, Keeps-bind, OnOk, OnOk-bind, OnOk-always}
use seismic_evm.Executor.{
  BlockExecutionResult, execute_transactions, apply_post_execution_changes, execute_block,
}
use seismic_evm.SystemCalls.{
  Calling, apply_blockhashes_contract_call, apply_beacon_root_contract_call,
}
use seismic_evm.Canyon.{OpSpec, OpPlatform}
use seismic_evm.OpExecutor.{
  OpBlockExecutionCtx, OpReceiptBuilder, OpBlockExecutor, new_op_executor, op_calling,
  op_on_database, op_calling_db, op_with_state_clear_flag, op_pre_block_calls,
  op_pre_execution_changes, op_notify_increments, last_gas_used, op_block_result, op_increments,
  op_finish, op_block_executor,
}
use seismic_evm.Balances.{balance_increment_state}
use seismic_evm.OpExecutor.Gas.{OpReportsGas, IsReported, execute_transactions-IsReported}
use mathlib.Core.Path.{subst}

module _ {t : Types} (o : OpPlatform t) where
  -- What opening and closing a block do not change.
  abbrev block_part : OpBlockExecutor t → List t.Receipt × ℕ × OpReceiptBuilder t
  block_part s = (s.receipts, s.gas_used, s.receipt_builder)

  block_part-IsReported :
      {n : ℕ} {s s' : OpBlockExecutor t}
      → block_part s' ≡ block_part s
      → IsReported o n s
      → IsReported o n s'
  block_part-IsReported e h = record {
    count = ap (λ x. length x.0) e ∙ h.count;
    last = ap (λ x. last_gas_used o x.0) e ∙ h.last ∙ sym (ap (λ x. x.1) e);
    reports = subst (OpReportsGas o) (sym (ap (λ x. x.2) e)) h.reports;
  }

  Keeps-op_calling :
      {A : Type 0} (m : Exec (Calling t) (BlockExecutionError t) A)
      → Keeps block_part (op_calling m)
  Keeps-op_calling m = record { same = λ s. refl }

  Keeps-op_on_database :
      {A : Type 0} (m : Exec t.Db (BlockExecutionError t) A) → Keeps block_part (op_on_database o m)
  Keeps-op_on_database m = record { same = λ s. refl }

  Keeps-op_pre_block_calls :
      (ctx : OpBlockExecutionCtx) → Keeps block_part (op_pre_block_calls o ctx)
  Keeps-op_pre_block_calls ctx =
      Keeps-bind (op_calling (apply_blockhashes_contract_call o.base ctx.parent_hash)) _
        (Keeps-op_calling (apply_blockhashes_contract_call o.base ctx.parent_hash))
        (λ _.
          Keeps-bind
            (op_calling (apply_beacon_root_contract_call o.base ctx.parent_beacon_block_root)) _
            (Keeps-op_calling (apply_beacon_root_contract_call o.base ctx.parent_beacon_block_root))
            (λ _. record { same = λ s. refl }))

  Keeps-op_pre : Keeps block_part (op_pre_execution_changes o)
  unfolding op_pre_execution_changes
  Keeps-op_pre = record {
    same = λ s. (Keeps-op_pre_block_calls s.ctx).same (op_with_state_clear_flag o s);
  }

  Keeps-op_notify :
      (increments : Dict ℕ) (hook : Option StateHook)
      → Keeps block_part (op_notify_increments o increments hook)
  Keeps-op_notify increments none = Keeps-pure tt
  Keeps-op_notify increments (some hook) =
      Keeps-bind (op_on_database o (balance_increment_state o.base increments)) _
        (Keeps-op_on_database (balance_increment_state o.base increments))
        (λ state. record { same = λ s. refl })

  -- The increments credited, and the hook told of them.
  abbrev close : Dict ℕ → Option StateHook → Exec (OpBlockExecutor t) (BlockExecutionError t) Unit
  close increments hook =
      op_calling_db o (λ _. validation increment_balance_failed)
        (o.base.increment_balances increments)
      >> op_notify_increments o increments hook

  Keeps-close :
      (increments : Dict ℕ) (hook : Option StateHook) → Keeps block_part (close increments hook)
  Keeps-close increments hook =
      Keeps-bind
        (op_calling_db o (λ _. validation increment_balance_failed)
          (o.base.increment_balances increments))
        _ (record { same = λ u. refl }) (λ _. Keeps-op_notify increments hook)

  op_finish-close :
      (s : OpBlockExecutor t)
      → op_finish o s ≡ (close (op_increments o s) s.system_caller.hook >> op_block_result o) s
  unfolding op_finish
  op_finish-close s = sym (
      ap (λ m. m s)
        (>>=_assoc
          (op_calling_db o (λ _. validation increment_balance_failed)
            (o.base.increment_balances (op_increments o s)))
          (λ _. op_notify_increments o (op_increments o s) s.system_caller.hook)
          (λ _. op_block_result o)))

  -- The receipts of a block with a number of transactions, its gas, and no requests.
  abbrev pub OpReported : ℕ → BlockExecutionResult t → OpBlockExecutor t → Type 0
  OpReported n res u =
      (length res.receipts ≡ n)
      × (res.gas_used ≡ last_gas_used o res.receipts)
      × (res.gas_used ≡ u.gas_used)
      × (res.requests ≡ [])

  op_finish-OpReported :
      {n : ℕ} (s : OpBlockExecutor t) → IsReported o n s → OnOk (OpReported n) (op_finish o s)
  op_finish-OpReported {n} s h =
      let increments = op_increments o s in
      let hook = s.system_caller.hook in
      subst (OnOk (OpReported n)) (sym (op_finish-close s)) (
        OnOk-bind (λ _ u. IsReported o n u) (OpReported n) (close increments hook s)
          (λ _. op_block_result o)
          (OnOk-always (λ u. IsReported o n u) (close increments hook s)
            (block_part-IsReported ((Keeps-close increments hook).same s) h))
          (λ _ u k. (k.count, refl, k.last, refl)))

  -- If the executor is new and a block succeeds, its result has a receipt for each transaction,
  -- reports the gas of the last receipt, which is the gas that the executor counted, and makes no
  -- requests. The receipt builder is taken to report the cumulative gas that it is given.
  pub execute_block-OpReported :
      (evm : t.Evm) (ctx : OpBlockExecutionCtx) (spec : OpSpec) (builder : OpReceiptBuilder t)
      (txs : List (ExecutableTx t))
      → OpReportsGas o builder
      → OnOk
          (OpReported (length txs))
          (execute_block (op_block_executor o) txs (new_op_executor o evm ctx spec builder))
  unfolding execute_block apply_post_execution_changes new_op_executor
  execute_block-OpReported evm ctx spec builder txs reports =
      let s = new_op_executor o evm ctx spec builder in
      OnOk-bind (λ _ u. IsReported o 0 u) (OpReported (length txs)) (op_pre_execution_changes o s) _
        (OnOk-always (λ u. IsReported o 0 u) (op_pre_execution_changes o s)
          (block_part-IsReported {s = s} (Keeps-op_pre.same s)
            (record { count = refl; last = refl; reports = reports })))
        (λ _ u h.
          OnOk-bind (λ _ v. IsReported o (length txs) v) (OpReported (length txs))
            (execute_transactions (op_block_executor o) txs u) _
            (subst
              (λ m.
                OnOk (λ _ v. IsReported o m v) (execute_transactions (op_block_executor o) txs u))
              (zero_plus (length txs)) (execute_transactions-IsReported o txs 0 u h))
            (λ _ v k. op_finish-OpReported v k))
    where
      zero_plus : (k : ℕ) → 0 + k ≡ k
      zero_plus k = omega arith
