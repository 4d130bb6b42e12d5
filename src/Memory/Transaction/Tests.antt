-- ===== src/Memory/Transaction/Tests.antt =====
-- Runs of native/host/memory_transaction.cpp on small memories, and the theorems at them.
use mathlib.Core.Path.{ap₂}
use cfb27_lua_hook.Prelude.{
  ℕ, ◌+◌, ◌≡◌, refl, ◌∙◌, ◌↔◌, Bool, true, false, some, List, [], ◌∷◌, arith, ◌==◌, if◌then◌else◌,
  bytes_eq, length, All,
}
use cfb27_lua_hook.Memory.Address.{is_valid_transaction_id, parse_address}
use cfb27_lua_hook.Memory.Backend.{
  MemoryBackend, IsCoherent, IsReliable, Outside, bytes_at, bytes_at-cong,
}
use cfb27_lua_hook.Memory.Transaction.{
  TransactionOperation, TransactionRequest, Range, applied_verified, rolled_back_verified, write,
  verify_only, check_operation, prepare, ranges_of, sort_ranges, has_overlap, initial_results,
}
use cfb27_lua_hook.Memory.Transaction.Run.{
  validate_all, read_all, restore_all, confirm_all, roll_back, apply_all, all_expected,
  with_originals, run_prepared, check_request, run_transaction,
}
use cfb27_lua_hook.Memory.Transaction.Reject.{run_transaction-rejected_keeps}
use cfb27_lua_hook.Memory.Transaction.Atomic.{run_transaction-rolled_back_restores}
use cfb27_lua_hook.Memory.Transaction.Disjoint.{PairwiseApart, has_overlap_iff}
use cfb27_lua_hook.Memory.Transaction.Pending.{HasBytes, IsUntouched, intended}
use cfb27_lua_hook.Memory.Transaction.Applied.{run_transaction-applied}
use cfb27_lua_hook.Memory.Transaction.Success.{run_transaction-succeeds}

-- Bytes stored from an address on.
patch : ℕ → List ℕ → (ℕ → ℕ) → ℕ → ℕ
patch a [] f x = f x
patch a (v ∷ vs) f x = if x == a then v else patch (a + 1) vs f x

patch-Outside :
    (a : ℕ) (bs : List ℕ) (f : ℕ → ℕ) (x : ℕ) → Outside a (length bs) x → patch a bs f x ≡ f x
unfolding patch
patch-Outside a [] f x h = refl
patch-Outside a (v ∷ vs) f x h = ground (arith, patch-Outside (a + 1) vs f x)

bytes_at-patch : (a : ℕ) (bs : List ℕ) (f : ℕ → ℕ) → bytes_at (patch a bs f) a (length bs) ≡ bs
unfolding patch bytes_at
bytes_at-patch a [] f = refl
bytes_at-patch a (v ∷ vs) f = ap₂ ◌∷◌ (ground arith) (
    bytes_at-cong (patch a (v ∷ vs) f) (patch (a + 1) vs f) (a + 1) (length vs)
      (λ x lo hi. ground arith)
    ∙ bytes_at-patch (a + 1) vs f)

-- A memory, and for each write to come whether it will report success. It stores the bytes anyway.
record Cells : Type 0 where
  byte : ℕ → ℕ
  outcomes : List Bool

next_outcome : List Bool → Bool × List Bool
next_outcome [] = (true, [])
next_outcome (o ∷ os) = (o, os)

abbrev flaky : MemoryBackend Cells
flaky = record {
  validate = λ a n w s. (true, s);
  read = λ a n s. (some (bytes_at s.byte a n), s);
  write = λ a bs s. (
    (next_outcome s.outcomes).0,
    record { byte = patch a bs s.byte; outcomes = (next_outcome s.outcomes).1 },
  );
}

abbrev steady : MemoryBackend (ℕ → ℕ)
steady = record {
  validate = λ a n w s. (true, s);
  read = λ a n s. (some (bytes_at s a n), s);
  write = λ a bs s. (true, patch a bs s);
}

flaky-IsCoherent : IsCoherent flaky (λ s. s.byte)
flaky-IsCoherent = record {
  validate_keeps = λ a n w s x. refl;
  read_keeps = λ a n s x. refl;
  read_view = λ a n s bs e. cc;
  write_outside = λ a bs s x h. patch-Outside a bs s.byte x h;
  write_view = λ a bs s e. bytes_at-patch a bs s.byte;
}

steady-IsCoherent : IsCoherent steady (λ s. s)
steady-IsCoherent = record {
  validate_keeps = λ a n w s x. refl;
  read_keeps = λ a n s x. refl;
  read_view = λ a n s bs e. cc;
  write_outside = λ a bs s x h. patch-Outside a bs s x h;
  write_view = λ a bs s e. bytes_at-patch a bs s;
}

steady-IsReliable : IsReliable steady
steady-IsReliable = record {
  validates = λ a n w s. refl;
  reads = λ a n s. (bytes_at s a n, refl);
  writes = λ a bs s. refl;
}

-- "0x10", "0x20", "0x11" and the transaction id "t1".
abbrev address_16 : List ℕ
address_16 = b'0' ∷ b'x' ∷ b'1' ∷ b'0' ∷ []

abbrev address_32 : List ℕ
address_32 = b'0' ∷ b'x' ∷ b'2' ∷ b'0' ∷ []

abbrev store_two : TransactionOperation
store_two = record {
  address = address_16;
  expected = 0 ∷ 0 ∷ [];
  replacement = 7 ∷ 8 ∷ [];
  kind = write;
}

abbrev verify_one : TransactionOperation
verify_one = record {
  address = address_32;
  expected = 0 ∷ [];
  replacement = [];
  kind = verify_only;
}

abbrev request_with : List TransactionOperation → TransactionRequest
request_with ops = record { transaction_id = b't' ∷ b'1' ∷ []; operations = ops }

abbrev request : TransactionRequest
request = request_with (verify_one ∷ store_two ∷ [])

abbrev zeroed : List Bool → Cells
zeroed outcomes = record { byte = λ x. 0; outcomes = outcomes }

-- All that a run computes with.
runs : ℕ
unfolding run_transaction check_request run_prepared validate_all read_all all_expected
    with_originals initial_results apply_all roll_back restore_all confirm_all prepare
    check_operation ranges_of sort_ranges has_overlap is_valid_transaction_id parse_address
    next_outcome patch bytes_at bytes_eq
runs = 0

applied_test :
    ((run_transaction flaky request (zeroed [])).0.status ≡ applied_verified)
    × ((run_transaction flaky request (zeroed [])).1.byte 17 ≡ 8)
unfolding runs
applied_test = (refl, refl)

rolled_back_test :
    (run_transaction flaky request (zeroed (false ∷ []))).0.status ≡ rolled_back_verified
unfolding runs
rolled_back_test = refl

overlap_test :
    (run_transaction flaky (request_with (store_two ∷ store_two ∷ [])) (zeroed [])).0.code
    ≡ "overlapping_operations"
unfolding runs
overlap_test = refl

run_transaction-rolled_back_restores_example :
    (run_transaction flaky request (zeroed (false ∷ []))).1.byte 17 ≡ 0
run_transaction-rolled_back_restores_example =
    run_transaction-rolled_back_restores flaky (λ s. s.byte) flaky-IsCoherent request
      (zeroed (false ∷ [])) rolled_back_test 17

run_transaction-applied_example :
    let s = zeroed [] in
    let view' = (run_transaction flaky request s).1.byte in
    All (HasBytes s.byte (λ op. op.expected)) request.operations
    × All (HasBytes view' intended) request.operations
    × ((x : ℕ) → All (IsUntouched x) request.operations → view' x ≡ s.byte x)
run_transaction-applied_example =
    run_transaction-applied flaky (λ s. s.byte) flaky-IsCoherent request (zeroed []) applied_test.0

-- A transaction whose expectation fails keeps the count of the writes to come.
mismatch : TransactionRequest
mismatch = request_with (record store_two { expected = 1 ∷ 1 ∷ [] } ∷ [])

run_transaction-rejected_keeps_example :
    (run_transaction flaky mismatch (zeroed (true ∷ []))).1.outcomes ≡ true ∷ []
unfolding runs mismatch
run_transaction-rejected_keeps_example =
    run_transaction-rejected_keeps flaky (λ s. s.outcomes ≡ true ∷ []) (λ a n w s h. h)
      (λ a n s h. h) mismatch (zeroed (true ∷ [])) refl refl

abbrev two_ranges : List Range
two_ranges = record { begin = 8; end = 10 } ∷ record { begin = 2; end = 8 } ∷ []

has_overlap_iff_example : (has_overlap (sort_ranges two_ranges) ≡ false) ↔ PairwiseApart two_ranges
has_overlap_iff_example = has_overlap_iff two_ranges (omega arith)

run_transaction-succeeds_example :
    (run_transaction steady request (λ x. 0)).0.status ≡ applied_verified
unfolding runs
run_transaction-succeeds_example =
    run_transaction-succeeds steady (λ s. s) steady-IsCoherent steady-IsReliable request
      (record { operation = verify_one; address = 32 }
        ∷ record { operation = store_two; address = 16 }
        ∷ [])
      (λ x. 0) refl ((λ a e. refl), ((λ a e. refl), tt))
