-- ===== src/Memory/Transaction/Success.antt =====
-- A transaction of native/host/memory_transaction.cpp that meets what it expects is applied.
use mathlib.Core.Path.{fun_ext}
use cfb27_lua_hook.Prelude.{
  ℕ, ◌+◌, ◌≡◌, refl, sym, subst, ◌∙◌, true, not, some, List, [], ◌∷◌, arith, bytes_eq_refl, length,
  All,
}
use cfb27_lua_hook.Memory.Backend.{MemoryBackend, IsCoherent, IsReliable}
use cfb27_lua_hook.Memory.Transaction.{
  PreparedOperation, OperationResult, TransactionRequest, applied_verified, set_applied,
  set_verified, initial_results, ok, is_verify_only, is_readback,
}
use cfb27_lua_hook.Memory.Transaction.Run.{
  Attempt, apply_all, validate_all, read_all, all_expected, with_originals, run_prepared,
  check_request, run_transaction,
}
use cfb27_lua_hook.Memory.Transaction.Checks.{IsPrepared, operations_of, check_request-IsChecked}
use cfb27_lua_hook.Memory.Transaction.Step.{apply_all-cases}
use cfb27_lua_hook.Memory.Transaction.Atomic.{validate_all-view}
use cfb27_lua_hook.Memory.Transaction.Pending.{HasBytes}

module _ {S : Type 0} (b : MemoryBackend S) (view : S → ℕ → ℕ) (c : IsCoherent b view)
    (reliable : IsReliable b) where
  validate_all-true : (ps : List PreparedOperation) (s : S) → (validate_all b ps s).0 ≡ true
  unfolding validate_all
  validate_all-true [] s = refl
  validate_all-true (p ∷ ps) s =
      let size = length p.operation.expected in
      let w = not (is_verify_only p.operation.kind) in
      rw (reliable.validates p.address size w s, validate_all)
        (validate_all-true ps (b.validate p.address size w s).1)

  read_all-expected :
      (before : ℕ → ℕ) (ps : List PreparedOperation) (s : S)
      → view s ≡ before
      → All IsPrepared ps
      → All (HasBytes before (λ op. op.expected)) (operations_of ps)
      → (originals : List (List ℕ)) × ((read_all b ps s).0 ≡ some originals)
        × (all_expected ps originals ≡ true)
  unfolding read_all all_expected
  read_all-expected before [] s same prepared h = ([], refl, refl)
  read_all-expected before (p ∷ ps) s same prepared h =
      let size = length p.operation.expected in
      let here = b.read p.address size s in
      let (original, got) = reliable.reads p.address size s in
      let kept : view here.1 ≡ before = fun_ext (c.read_keeps p.address size s) ∙ same in
      let (rest, later, matched) = read_all-expected before ps here.1 kept prepared.1 h.1 in
      let found : original ≡ p.operation.expected =
        c.read_view p.address size s original got ∙ (rw same (h.0 p.address prepared.0.parsed)) in
      (original ∷ rest, ground arith, rw (found, bytes_eq_refl p.operation.expected) matched)

  apply_all-applies :
      (index : ℕ) (todo : List (PreparedOperation × List ℕ)) (attempted : List Attempt)
      (results : List OperationResult) (s : S)
      → (apply_all b index todo attempted results s).0.status ≡ applied_verified
  unfolding apply_all
  apply_all-applies index [] attempted results s = refl
  apply_all-applies index ((p, original) ∷ rest) attempted results s =
      let attempted' = (index, p, original) ∷ attempted in
      let written = b.write p.address p.operation.replacement s in
      let results' = set_applied index results in
      let size = length p.operation.replacement in
      let readback = b.read p.address size written.1 in
      let (bytes, got) = reliable.reads p.address size written.1 in
      let stored = reliable.writes p.address p.operation.replacement s in
      let confirmed : is_readback readback.0 p.operation.replacement ≡ true =
        rw
          (
            got,
            c.read_view p.address size written.1 bytes got,
            c.write_view p.address p.operation.replacement s stored,
          )
          (bytes_eq_refl p.operation.replacement) in
      apply_all-cases b (λ r. r.0.status ≡ applied_verified) index p original rest attempted results
        s (λ skipped. apply_all-applies (index + 1) rest attempted (set_verified index results) s)
        (λ writes failed. cc) (λ writes differs. cc)
        (λ writes _ same.
          apply_all-applies (index + 1) rest attempted' (set_verified index results') readback.1)

  -- Over coherent memory where no call fails, a request that passes the checks and expects just the
  -- bytes that stand at its addresses is applied and verified.
  pub run_transaction-succeeds :
      (request : TransactionRequest) (ps : List PreparedOperation) (s : S)
      → check_request request ≡ ok ps
      → All (HasBytes (view s) (λ op. op.expected)) request.operations
      → (run_transaction b request s).0.status ≡ applied_verified
  unfolding run_transaction run_prepared
  run_transaction-succeeds request ps s passed expected =
      let checked = check_request-IsChecked request ps passed in
      let s' = (validate_all b ps s).1 in
      let (originals, read, matched) =
        read_all-expected (view s) ps s' (validate_all-view b view c ps s) checked.prepared
          (subst (All (HasBytes (view s) (λ op. op.expected))) (sym checked.same) expected) in
      rw (passed, run_transaction, run_prepared, validate_all-true ps s, read, matched)
        (apply_all-applies 0 (with_originals ps originals) [] (initial_results 0 ps)
          (read_all b ps s').1)
