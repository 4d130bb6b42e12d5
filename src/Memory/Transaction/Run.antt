-- ===== src/Memory/Transaction/Run.antt =====
-- native/host/memory_transaction.cpp: the backend calls of a transaction, `RollBack` and
-- `RunTransaction`. The result and the backend's state after the last call come back together.
use cfb27_lua_hook.Prelude.{
  ℕ, ◌+◌, Bool, true, false, ◌&&◌, ◌||◌, not, Option, none, some, List, [], ◌∷◌, reverse, ltb, ◌==◌,
  if◌then◌else◌, bytes_eq, length,
}
use cfb27_lua_hook.Memory.Address.{is_valid_transaction_id}
use cfb27_lua_hook.Memory.Backend.{MemoryBackend}
use cfb27_lua_hook.Memory.Transaction.{
  max_transaction_operations, write, verify_only, TransactionRequest, applied_verified,
  rolled_back_verified, rollback_unverified, OperationResult, TransactionResult, PreparedOperation,
  Checked, ok, reject, ◌>>=◌, is_verify_only, rejected_result, prepare, ranges_of, sort_ranges,
  has_overlap, initial_results, set_applied, set_verified, reset, is_readback,
}

-- An attempted write: its index, its operation, and the bytes read before it. The source keeps
-- the indices and looks the rest up.
abbrev pub Attempt : Type 0
Attempt = ℕ × PreparedOperation × List ℕ

-- The comparison of all originals with what the operations expect.
unfoldable pub all_expected : List PreparedOperation → List (List ℕ) → Bool
all_expected [] originals = true
all_expected (p ∷ ps) [] = true
all_expected (p ∷ ps) (original ∷ originals) =
    bytes_eq original p.operation.expected && all_expected ps originals

unfoldable pub with_originals :
    List PreparedOperation → List (List ℕ) → List (PreparedOperation × List ℕ)
with_originals [] originals = []
with_originals (p ∷ ps) [] = []
with_originals (p ∷ ps) (original ∷ originals) = (p, original) ∷ with_originals ps originals

module _ {S : Type 0} (b : MemoryBackend S) where
  unfoldable pub validate_all : List PreparedOperation → S → Bool × S
  validate_all [] s = (true, s)
  validate_all (p ∷ ps) s =
      let checked =
        b.validate p.address (length p.operation.expected) (not (is_verify_only p.operation.kind))
          s in
      elim checked.0 [ true ↦ validate_all ps checked.1 | false ↦ (false, checked.1) ]

  -- The originals, in the order of the operations, or `none` at the first read that fails.
  unfoldable pub read_all : List PreparedOperation → S → Option (List (List ℕ)) × S
  read_all [] s = (some [], s)
  read_all (p ∷ ps) s =
      let here = b.read p.address (length p.operation.expected) s in
      elim here.0 [
        | none ↦ (none, here.1)
        | some original ↦
            let later = read_all ps here.1 in
            elim later.0 [ none ↦ (none, later.1) | some rest ↦ (some (original ∷ rest), later.1) ]
      ]

  -- The attempted writes undone, the newest first; whether every one succeeded.
  unfoldable pub restore_all :
      List Attempt → Bool → List OperationResult → S → Bool × List OperationResult × S
  restore_all [] restored results s = (restored, results, s)
  restore_all ((index, p, original) ∷ older) restored results s =
      let written = b.write p.address original s in
      restore_all older (written.0 && restored) (reset index results) written.1

  -- The attempted ranges read back, the oldest first.
  unfoldable pub confirm_all : List Attempt → Bool → S → Bool × S
  confirm_all [] restored s = (restored, s)
  confirm_all ((index, p, original) ∷ newer) restored s =
      let readback = b.read p.address (length original) s in
      confirm_all newer (is_readback readback.0 original && restored) readback.1

  unfoldable pub roll_back : List Attempt → List OperationResult → S → TransactionResult × S
  roll_back attempted results s =
      let (written, reset_results, s') = restore_all attempted true results s in
      let (restored, s'') = confirm_all (reverse attempted) written s' in
      if restored
      then (
        record {
          status = rolled_back_verified;
          code = "rolled_back_verified";
          operations = reset_results;
        },
        s'',
      )
      else (
        record {
          status = rollback_unverified;
          code = "rollback_unverified";
          operations = reset_results;
        },
        s'',
      )

  -- One write of the last loop: it either goes on with the new results, or rolls back.
  unfoldable pub apply_all :
      ℕ
      → List (PreparedOperation × List ℕ)
      → List Attempt
      → List OperationResult
      → S
      → TransactionResult × S
  apply_all index [] attempted results s =
      (record { status = applied_verified; code = "applied_verified"; operations = results }, s)
  apply_all index ((p, original) ∷ rest) attempted results s =
      let attempted' = (index, p, original) ∷ attempted in
      let written = b.write p.address p.operation.replacement s in
      let results' = set_applied index results in
      let readback = b.read p.address (length p.operation.replacement) written.1 in
      elim p.operation.kind [
        | verify_only ↦ apply_all (index + 1) rest attempted (set_verified index results) s
        | write ↦ elim written.0 [
          | false ↦ roll_back attempted' results written.1
          | true ↦ elim (is_readback readback.0 p.operation.replacement) [
            | false ↦ roll_back attempted' results' readback.1
            | true ↦ apply_all (index + 1) rest attempted' (set_verified index results') readback.1
          ]
        ]
      ]

  unfoldable pub run_prepared : List PreparedOperation → S → TransactionResult × S
  run_prepared ps s =
      let (valid, s1) = validate_all ps s in
      elim valid [
        | false ↦ (rejected_result "invalid_memory_range", s1)
        | true ↦
            let (preflight, s2) = read_all ps s1 in
            elim preflight [
              | none ↦ (rejected_result "preflight_read_failed", s2)
              | some originals ↦ elim (all_expected ps originals) [
                | false ↦ (rejected_result "expected_mismatch", s2)
                | true ↦ apply_all 0 (with_originals ps originals) [] (initial_results 0 ps) s2
              ]
            ]
      ]

-- The checks before the backend is called at all.
unfoldable pub check_request : TransactionRequest → Checked (List PreparedOperation)
check_request request =
    if not (is_valid_transaction_id request.transaction_id)
    then reject "invalid_transaction_id"
    else if (length request.operations == 0)
        || ltb max_transaction_operations (length request.operations)
    then reject "invalid_operation_count"
    else prepare 0 request.operations >>= λ ps.
        if has_overlap (sort_ranges (ranges_of ps)) then reject "overlapping_operations" else ok ps

unfoldable pub run_transaction :
    {S : Type 0} → MemoryBackend S → TransactionRequest → S → TransactionResult × S
run_transaction b request s = elim (check_request request) [
  | reject code ↦ (rejected_result code, s)
  | ok ps ↦ run_prepared b ps s
]
