-- ===== src/Deposits/Parse.antt =====
-- Parsing the deposits is one pass over the deposit logs of all receipts, in order.
use seismic_evm.Prelude.{
  Bool-cases, length, filter, length-append, All, Result, ok, err, and_then, Result-cases, Exec,
  ◌>>◌, >>=_assoc, ◌*◌, ◌≡◌, refl, sym, ap, ◌∙◌, inl, inr, List, [], ◌∷◌, ◌++◌, append_assoc,
  append-nil, arith,
}
use seismic_evm.Types.{Address, Bytes, Types, Log}
use seismic_evm.Errors.{BlockValidationError, deposit_request_decode}
use seismic_evm.Platform.{DepositEvent, Platform}
use seismic_evm.Spec.{EthExecutorSpec}
use seismic_evm.Deposits.{
  deposit_bytes_size, accumulate_deposit_from_log, is_deposit_log, accumulate_decoded,
  accumulate_deposits_from_logs, accumulate_deposits_from_receipt,
  accumulate_deposits_from_receipts, deposit_contract, parsed, parse_deposits_from_receipts,
}

-- The request of one deposit: its five byte strings, one after the other.
abbrev pub request : DepositEvent → Bytes
request d = d.pubkey ++ d.withdrawal_credentials ++ d.amount ++ d.signature ++ d.index

-- The fixed sizes that the deposit contract gives the fields.
pub record HasFixedSizes (d : DepositEvent) : Type 0 where
  pub pubkey_size : length d.pubkey ≡ 48
  pub withdrawal_credentials_size : length d.withdrawal_credentials ≡ 32
  pub amount_size : length d.amount ≡ 8
  pub signature_size : length d.signature ≡ 96
  pub index_size : length d.index ≡ 8

accumulate_deposit_from_log-append :
    (d : DepositEvent) (out : Bytes) → accumulate_deposit_from_log d out ≡ out ++ request d
unfolding accumulate_deposit_from_log
accumulate_deposit_from_log-append d out = simp append_assoc

length-request : (d : DepositEvent) → HasFixedSizes d → length (request d) ≡ deposit_bytes_size
length-request d h = simp length-append (omega arith)

module _ {t : Types} (p : Platform t) where
  -- The logs of all receipts, in order.
  abbrev pub all_logs : List t.Receipt → List Log
  all_logs [] = []
  all_logs (receipt ∷ receipts) = p.receipt_logs receipt ++ all_logs receipts

  -- What the requests of a list of deposit logs are: the bytes, or the first error.
  abbrev pub requests_of : List Log → Result (BlockValidationError t) Bytes
  requests_of [] = ok []
  requests_of (log ∷ logs) = elim (p.decode_log log) [
    | ok d ↦ and_then (requests_of logs) (λ rest. ok (request d ++ rest))
    | err e ↦ err (deposit_request_decode e)
  ]

  -- What accumulating has done to the buffer, by how the requests came out.
  abbrev Accumulated :
      Result (BlockValidationError t) Bytes
      → Bytes
      → Result (BlockValidationError t) Unit × Bytes
      → Type 0
  Accumulated (ok bytes) out r = r ≡ (ok tt, out ++ bytes)
  Accumulated (err e) out r = r.0 ≡ err e

  accumulate_decoded_ok :
      (log : Log) (k : Exec Bytes (BlockValidationError t) Unit) (out : Bytes) {d : DepositEvent}
      → p.decode_log log ≡ ok d
      → (accumulate_decoded p log >> k) out ≡ k (out ++ request d)
  accumulate_decoded_ok log k out {d} decoded =
      rw (decoded, accumulate_decoded) (ap k (accumulate_deposit_from_log-append d out))

  accumulate_decoded_err :
      (log : Log) (k : Exec Bytes (BlockValidationError t) Unit) (out : Bytes) {e : t.DecodeError}
      → p.decode_log log ≡ err e
      → (accumulate_decoded p log >> k) out ≡ (err (deposit_request_decode e), out)
  accumulate_decoded_err log k out failed = rw (failed, accumulate_decoded)

  Accumulated-prepend :
      (r : Result (BlockValidationError t) Bytes) (bytes out : Bytes)
      (done : Result (BlockValidationError t) Unit × Bytes)
      → Accumulated r (out ++ bytes) done
      → Accumulated (and_then r (λ rest. ok (bytes ++ rest))) out done
  Accumulated-prepend (ok rest) bytes out done h = rw (← append_assoc out bytes rest) h
  Accumulated-prepend (err e) bytes out done h = h

  Accumulated-log :
      (log : Log) (rest : Result (BlockValidationError t) Bytes)
      (k : Exec Bytes (BlockValidationError t) Unit) (out : Bytes)
      → ((o : Bytes) → Accumulated rest o (k o))
      → Accumulated
          (elim (p.decode_log log) [
            | ok d ↦ and_then rest (λ bytes. ok (request d ++ bytes))
            | err e ↦ err (deposit_request_decode e)
          ])
          out
          ((accumulate_decoded p log >> k) out)
  Accumulated-log log rest k out h = elim (Result-cases (p.decode_log log)) [
    | inr (e, failed) ↦ rw (failed, accumulate_decoded)
    | inl (d, decoded) ↦
        rw (accumulate_decoded_ok log k out decoded)
          (rw decoded (Accumulated-prepend rest (request d) out _ (h (out ++ request d))))
  ]

  accumulate_logs_lem :
      (address : Address) (logs : List Log) (out : Bytes)
      → Accumulated
          (requests_of (filter (is_deposit_log p address) logs))
          out
          (accumulate_deposits_from_logs p address logs out)
  unfolding accumulate_deposits_from_logs
  accumulate_logs_lem address [] out = rw append-nil
  accumulate_logs_lem address (log ∷ logs) out = elim (Bool-cases (is_deposit_log p address log)) [
    | inr skipped ↦ rw skipped (accumulate_logs_lem address logs out)
    | inl deposit ↦ rw deposit (
        Accumulated-log log _ (accumulate_deposits_from_logs p address logs) out
          (accumulate_logs_lem address logs))
  ]

  parsed-Accumulated :
      (r : Result (BlockValidationError t) Bytes)
      (done : Result (BlockValidationError t) Unit × Bytes)
      → Accumulated r [] done
      → parsed p done ≡ r
  parsed-Accumulated (ok bytes) done h = rw h
  parsed-Accumulated (err e) (r, out) h = rw h

  accumulate_logs-append :
      (address : Address) (xs ys : List Log)
      → accumulate_deposits_from_logs p address (xs ++ ys)
        ≡ (accumulate_deposits_from_logs p address xs >> accumulate_deposits_from_logs p address ys)
  unfolding accumulate_deposits_from_logs
  accumulate_logs-append address [] ys = refl
  accumulate_logs-append address (log ∷ xs) ys = elim (Bool-cases (is_deposit_log p address log)) [
    | inr skipped ↦ rw skipped (accumulate_logs-append address xs ys)
    | inl deposit ↦ rw deposit (
        rw (accumulate_logs-append address xs ys) (
          sym (
            >>=_assoc (accumulate_decoded p log) (λ _. accumulate_deposits_from_logs p address xs)
              (λ _. accumulate_deposits_from_logs p address ys))))
  ]

  -- The receipts are read as one list of logs.
  accumulate_receipts-all_logs :
      (address : Address) (receipts : List t.Receipt)
      → accumulate_deposits_from_receipts p address receipts
        ≡ accumulate_deposits_from_logs p address (all_logs receipts)
  unfolding accumulate_deposits_from_receipts accumulate_deposits_from_receipt
      accumulate_deposits_from_logs
  accumulate_receipts-all_logs address [] = refl
  accumulate_receipts-all_logs address (r ∷ receipts) =
      rw (accumulate_receipts-all_logs address receipts)
        (sym (accumulate_logs-append address (p.receipt_logs r) (all_logs receipts)))

  -- Parsing gives the requests of the deposit logs of all receipts, in their order, one after the
  -- other; or the decoding error of the first such log that cannot be decoded.
  pub parse_deposits-requests :
      (spec : EthExecutorSpec) (receipts : List t.Receipt)
      → parse_deposits_from_receipts p spec receipts
        ≡ requests_of (filter (is_deposit_log p (deposit_contract p spec)) (all_logs receipts))
  unfolding parse_deposits_from_receipts
  parse_deposits-requests spec receipts =
      rw
        (
          accumulate_receipts-all_logs (deposit_contract p spec) receipts,
          parse_deposits_from_receipts,
        )
        (parsed-Accumulated _ _
          (accumulate_logs_lem (deposit_contract p spec) (all_logs receipts) []))

  -- If a log decodes, its fields have the fixed sizes.
  abbrev pub DecodesToFixedSizes : Log → Type 0
  DecodesToFixedSizes log = (d : DepositEvent) → p.decode_log log ≡ ok d → HasFixedSizes d

  length-requests_of :
      (logs : List Log) (bytes : Bytes)
      → All DecodesToFixedSizes logs
      → requests_of logs ≡ ok bytes
      → length bytes ≡ length logs * deposit_bytes_size
  length-requests_of [] bytes sizes h = ground arith
  length-requests_of (log ∷ logs) bytes sizes h = elim (Result-cases (p.decode_log log)) [
    | inr (e, failed) ↦ ground arith
    | inl (d, decoded) ↦ elim (Result-cases (requests_of logs)) [
      | inr (e, failed) ↦ ground arith
      | inl (rest, parsed) ↦
          let split : request d ++ rest ≡ bytes = ground arith in
          rw (← split) (
            omega (
              arith,
              length-append (request d) rest,
              length-request d (sizes.0 d decoded),
              length-requests_of logs rest sizes.1 parsed,
            ))
    ]
  ]

  -- The logs that count as deposits: those of the deposit contract with the deposit event's topic.
  abbrev pub deposit_logs : EthExecutorSpec → List t.Receipt → List Log
  deposit_logs spec receipts =
      filter (is_deposit_log p (deposit_contract p spec)) (all_logs receipts)

  -- If each deposit log of the block that decodes does so to fields of the fixed sizes, as the
  -- deposit contract emits them, what is parsed takes 192 bytes for each deposit log. Nothing is
  -- asked of any other log.
  pub length-parse_deposits :
      (spec : EthExecutorSpec) (receipts : List t.Receipt) (bytes : Bytes)
      → All DecodesToFixedSizes (deposit_logs spec receipts)
      → parse_deposits_from_receipts p spec receipts ≡ ok bytes
      → length bytes ≡ length (deposit_logs spec receipts) * 192
  length-parse_deposits spec receipts bytes sizes h =
      length-requests_of _ bytes sizes (sym (parse_deposits-requests spec receipts) ∙ h)
