-- ===== src/Memory/Transaction/Step.antt =====
-- Rules for proofs about `RunTransaction` (native/host/memory_transaction.cpp): the four ways in
-- which a round of its last loop ends, and the two in which the whole does.
use cfb27_lua_hook.Prelude.{
  ℕ, ◌+◌, String, ◌≡◌, inl, inr, Bool, true, false, Option, some, List, [], ◌∷◌, Bool-cases,
  Option-cases, length,
}
use cfb27_lua_hook.Memory.Backend.{MemoryBackend}
use cfb27_lua_hook.Memory.Transaction.{
  PreparedOperation, OperationResult, TransactionResult, write, verify_only, set_applied,
  set_verified, is_readback, TransactionRequest, rejected_result, initial_results, Checked-cases,
  kind-cases,
}
use cfb27_lua_hook.Memory.Transaction.Run.{
  Attempt, roll_back, apply_all, validate_all, read_all, all_expected, with_originals, run_prepared,
  check_request, run_transaction,
}
use cfb27_lua_hook.Memory.Transaction.Checks.{IsChecked, check_request-IsChecked}

module _ {ℓ} {S : Type 0} (b : MemoryBackend S) (P : TransactionResult × S → Type ℓ) (index : ℕ)
    (p : PreparedOperation) (original : List ℕ) (rest : List (PreparedOperation × List ℕ))
    (attempted : List Attempt) (results : List OperationResult) (s : S) where
  abbrev pub attempted_next : List Attempt
  attempted_next = (index, p, original) ∷ attempted

  abbrev pub written : Bool × S
  written = b.write p.address p.operation.replacement s

  abbrev pub readback : Option (List ℕ) × S
  readback = b.read p.address (length p.operation.replacement) written.1

  pub apply_all-cases :
      (p.operation.kind ≡ verify_only
        → P (apply_all b (index + 1) rest attempted (set_verified index results) s))
      → (p.operation.kind ≡ write
          → written.0 ≡ false
          → P (roll_back b attempted_next results written.1))
      → (p.operation.kind ≡ write
          → is_readback readback.0 p.operation.replacement ≡ false
          → P (roll_back b attempted_next (set_applied index results) readback.1))
      → (p.operation.kind ≡ write
          → written.0 ≡ true
          → is_readback readback.0 p.operation.replacement ≡ true
          → P (
              apply_all b
                (index + 1)
                rest
                attempted_next
                (set_verified index (set_applied index results))
                readback.1))
      → P (apply_all b index ((p, original) ∷ rest) attempted results s)
  unfolding apply_all
  apply_all-cases skip unwritten unread next = elim (kind-cases p.operation.kind) [
    | inr verifies ↦ rw (verifies, apply_all) (skip verifies)
    | inl writes ↦ elim (Bool-cases written.0) [
      | inr failed ↦ rw (writes, apply_all, failed) (unwritten writes failed)
      | inl stored ↦ elim (Bool-cases (is_readback readback.0 p.operation.replacement)) [
        | inr differs ↦ rw (writes, apply_all, stored, differs) (unread writes differs)
        | inl same ↦ rw (writes, apply_all, stored, same) (next writes stored same)
      ]
    ]
  ]

module _ {ℓ} {S : Type 0} (b : MemoryBackend S) (P : TransactionResult × S → Type ℓ) where
  -- The state after the preflight reads.
  abbrev pub preflight : List PreparedOperation → S → Option (List (List ℕ)) × S
  preflight ps s = read_all b ps (validate_all b ps s).1

  run_prepared-cases :
      (ps : List PreparedOperation) (s : S)
      → ((code : String) (s' : S) → P (rejected_result code, s'))
      → ((originals : List (List ℕ))
          → (preflight ps s).0 ≡ some originals
          → all_expected ps originals ≡ true
          → P (
              apply_all b 0
                (with_originals ps originals)
                []
                (initial_results 0 ps)
                (preflight ps s).1))
      → P (run_prepared b ps s)
  unfolding run_prepared
  run_prepared-cases ps s refuse go = elim (Bool-cases (validate_all b ps s).0) [
    | inr invalid ↦ rw (invalid, run_prepared) (refuse _ _)
    | inl valid ↦ elim (Option-cases (preflight ps s).0) [
      | inl unread ↦ rw (valid, run_prepared, unread) (refuse _ _)
      | inr (originals, done) ↦ elim (Bool-cases (all_expected ps originals)) [
        | inr differs ↦ rw (valid, run_prepared, done, differs) (refuse _ _)
        | inl matches ↦ rw (valid, run_prepared, done, matches) (go originals done matches)
      ]
    ]
  ]

  pub run_transaction-cases :
      (request : TransactionRequest) (s : S)
      → ((code : String) (s' : S) → P (rejected_result code, s'))
      → ((ps : List PreparedOperation) (originals : List (List ℕ))
          → IsChecked request ps
          → (preflight ps s).0 ≡ some originals
          → all_expected ps originals ≡ true
          → P (
              apply_all b 0
                (with_originals ps originals)
                []
                (initial_results 0 ps)
                (preflight ps s).1))
      → P (run_transaction b request s)
  unfolding run_transaction
  run_transaction-cases request s refuse go = elim (Checked-cases (check_request request)) [
    | inl (code, refused) ↦ rw (refused, run_transaction) (refuse code s)
    | inr (ps, passed) ↦
        rw (passed, run_transaction)
          (run_prepared-cases ps s refuse
            λ originals. go ps originals (check_request-IsChecked request ps passed))
  ]
