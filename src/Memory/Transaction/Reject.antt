-- ===== src/Memory/Transaction/Reject.antt =====
-- Rejections of native/host/memory_transaction.cpp come before the first write.
use cfb27_lua_hook.Prelude.{
  ℕ, ◌+◌, String, ◌≡◌, ◌≢◌, ◌⊎◌, inl, inr, Bool, not, List, [], ◌∷◌, arith, Option-cases, length,
}
use cfb27_lua_hook.Memory.Backend.{MemoryBackend}
use cfb27_lua_hook.Memory.Transaction.{
  PreparedOperation, OperationResult, TransactionRequest, rejected, ok, reject, set_applied,
  set_verified, initial_results, Checked-cases, is_verify_only,
}
use cfb27_lua_hook.Memory.Transaction.Run.{
  Attempt, validate_all, read_all, with_originals, roll_back, apply_all, run_prepared,
  check_request, run_transaction,
}

module _ {S : Type 0} (b : MemoryBackend S) where
  roll_back-ne-rejected :
      (attempted : List Attempt) (results : List OperationResult) (s : S)
      → (roll_back b attempted results s).0.status ≢ rejected
  unfolding roll_back
  roll_back-ne-rejected attempted results s = ground arith

  apply_all-ne-rejected :
      (index : ℕ) (todo : List (PreparedOperation × List ℕ)) (attempted : List Attempt)
      (results : List OperationResult) (s : S)
      → (apply_all b index todo attempted results s).0.status ≢ rejected
  unfolding apply_all
  apply_all-ne-rejected index [] attempted results s = ground arith
  apply_all-ne-rejected index ((p, original) ∷ rest) attempted results s =
      let attempted' = (index, p, original) ∷ attempted in
      let written = b.write p.address p.operation.replacement s in
      let results' = set_applied index results in
      let readback = b.read p.address (length p.operation.replacement) written.1 in
      ground (
        arith,
        roll_back-ne-rejected attempted' results written.1,
        roll_back-ne-rejected attempted' results' readback.1,
        apply_all-ne-rejected (index + 1) rest attempted (set_verified index results) s,
        apply_all-ne-rejected (index + 1) rest attempted' (set_verified index results') readback.1,
      )

check_request-cases :
    (request : TransactionRequest)
    → ((code : String) × (check_request request ≡ reject code))
      ⊎ ((ps : List PreparedOperation) × (check_request request ≡ ok ps))
check_request-cases request = Checked-cases (check_request request)

-- What the validating and reading calls keep.
module _ {ℓ} {S : Type 0} (b : MemoryBackend S) (P : S → Type ℓ)
    (validate_keeps : (a n : ℕ) (w : Bool) (s : S) → P s → P (b.validate a n w s).1)
    (read_keeps : (a n : ℕ) (s : S) → P s → P (b.read a n s).1) where
  pub validate_all-keeps : (ps : List PreparedOperation) (s : S) → P s → P (validate_all b ps s).1
  unfolding validate_all
  validate_all-keeps [] s h = h
  validate_all-keeps (p ∷ ps) s h =
      let size = length p.operation.expected in
      let checked = b.validate p.address size (not (is_verify_only p.operation.kind)) s in
      ground (
        arith,
        validate_keeps p.address size (not (is_verify_only p.operation.kind)) s h,
        validate_all-keeps ps checked.1,
      )

  pub read_all-keeps : (ps : List PreparedOperation) (s : S) → P s → P (read_all b ps s).1
  unfolding read_all
  read_all-keeps [] s h = h
  read_all-keeps (p ∷ ps) s h =
      let here = b.read p.address (length p.operation.expected) s in
      ground
        (arith, read_keeps p.address (length p.operation.expected) s h, read_all-keeps ps here.1)

  run_prepared-rejected_keeps :
      (ps : List PreparedOperation) (s : S)
      → P s
      → (run_prepared b ps s).0.status ≡ rejected
      → P (run_prepared b ps s).1
  unfolding run_prepared
  run_prepared-rejected_keeps ps s h e =
      let checked = validate_all b ps s in
      let kept = validate_all-keeps ps s h in
      let read = read_all-keeps ps checked.1 kept in
      elim (Option-cases (read_all b ps checked.1).0) [
        | inl failed ↦ ground (arith, kept, read)
        | inr (originals, done) ↦ ground (
          arith,
          kept,
          read,
          apply_all-ne-rejected b 0 (with_originals ps originals) [] (initial_results 0 ps)
              (read_all b ps checked.1).1,
        )
      ]

  -- A transaction that ends rejected has only validated and read: whatever these two calls keep
  -- true of the backend's state still holds.
  pub run_transaction-rejected_keeps :
      (request : TransactionRequest) (s : S)
      → P s
      → (run_transaction b request s).0.status ≡ rejected
      → P (run_transaction b request s).1
  unfolding run_transaction
  run_transaction-rejected_keeps request s h e = elim (check_request-cases request) [
    | inl (code, refused) ↦ rw (refused, run_transaction) h
    | inr (ps, passed) ↦ ground (arith, passed, run_prepared-rejected_keeps ps s h)
  ]
