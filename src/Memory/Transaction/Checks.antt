-- ===== src/Memory/Transaction/Checks.antt =====
-- What the checks of `RunTransaction` (native/host/memory_transaction.cpp) establish before the
-- backend is called.
use cfb27_lua_hook.Prelude.{
  ℕ, ◌+◌, ◌≤◌, ◌<◌, ◌≡◌, refl, ap, inl, inr, true, false, some, List, [], ◌∷◌, arith, Bool-cases,
  Option-cases, length, All,
}
use cfb27_lua_hook.Memory.Address.{uintptr_max, parse_address, is_valid_transaction_id}
use cfb27_lua_hook.Memory.Transaction.{
  max_transaction_operations, max_operation_bytes, max_transaction_bytes, TransactionOperation,
  PreparedOperation, TransactionRequest, write, verify_only, ok, has_invalid_size, check_address,
  check_operation, prepare, ranges_of, sort_ranges, has_overlap, Checked-cases, kind-cases,
}
use cfb27_lua_hook.Memory.Transaction.Run.{check_request}

-- An operation that passed: its size, its shape by kind, and its address.
pub record IsPrepared (p : PreparedOperation) : Type 0 where
  pub nonempty : 0 < length p.operation.expected
  pub bounded : length p.operation.expected ≤ max_operation_bytes
  pub sized :
      p.operation.kind ≡ write → length p.operation.replacement ≡ length p.operation.expected
  pub empty : p.operation.kind ≡ verify_only → length p.operation.replacement ≡ 0
  pub parsed : parse_address p.operation.address ≡ some p.address
  pub fits : p.address + length p.operation.expected ≤ uintptr_max

abbrev pub operations_of : List PreparedOperation → List TransactionOperation
operations_of [] = []
operations_of (p ∷ ps) = p.operation ∷ operations_of ps

abbrev pub total_bytes : List TransactionOperation → ℕ
total_bytes [] = 0
total_bytes (op ∷ ops) = length op.expected + total_bytes ops

check_address-ok :
    (op : TransactionOperation) (a : ℕ)
    → length op.expected ≤ max_operation_bytes
    → check_address op ≡ ok a
    → (parse_address op.address ≡ some a) × (a + length op.expected ≤ uintptr_max)
unfolding check_address
check_address-ok op a h e = elim (Option-cases (parse_address op.address)) [
  | inl unparsed ↦ ground arith
  | inr (address, parsed) ↦ ground arith
]

pub has_invalid_size-false :
    (op : TransactionOperation)
    → has_invalid_size op ≡ false
    → (0 < length op.expected)
      × (length op.expected ≤ max_operation_bytes)
      × (op.kind ≡ write → length op.replacement ≡ length op.expected)
      × (op.kind ≡ verify_only → length op.replacement ≡ 0)
unfolding has_invalid_size
has_invalid_size-false op e = elim (kind-cases op.kind) [
  | inl writes ↦ ground (arith, writes)
  | inr verifies ↦ ground (arith, verifies)
]

check_operation-ok :
    (aggregate a : ℕ) (op : TransactionOperation)
    → check_operation aggregate op ≡ ok a
    → IsPrepared (record { operation = op; address = a })
      × (aggregate + length op.expected ≤ max_transaction_bytes)
unfolding check_operation
check_operation-ok aggregate a op e = elim (Bool-cases (has_invalid_size op)) [
  | inl invalid ↦ ground arith
  | inr sized ↦ ground (arith, has_invalid_size-false op sized, check_address-ok op a)
]

pub prepare-ok :
    (aggregate : ℕ) (ops : List TransactionOperation) (ps : List PreparedOperation)
    → prepare aggregate ops ≡ ok ps
    → All IsPrepared ps
      × (operations_of ps ≡ ops)
      × (aggregate ≤ max_transaction_bytes → aggregate + total_bytes ops ≤ max_transaction_bytes)
unfolding prepare
prepare-ok aggregate [] ps e =
    let none_left : ps ≡ [] = cc in rw none_left (tt, refl, λ h. omega arith)
prepare-ok aggregate (op ∷ ops) ps e = elim (Checked-cases (check_operation aggregate op)) [
  | inl (code, refused) ↦ ground arith
  | inr (a, passed) ↦ elim (Checked-cases (prepare (aggregate + length op.expected) ops)) [
    | inl (code, refused) ↦ ground arith
    | inr (rest, prepared) ↦
        let here = check_operation-ok aggregate a op passed in
        let later = prepare-ok (aggregate + length op.expected) ops rest prepared in
        let split : ps ≡ record { operation = op; address = a } ∷ rest = ground arith in
        rw split
          ((here.0, later.0), ap (λ l. op ∷ l) later.1, λ h. omega (arith, later.2 (omega arith)))
  ]
]

-- What a request that passes all checks is like: its prepared operations are its own, in order.
pub record IsChecked (request : TransactionRequest) (ps : List PreparedOperation) : Type 0 where
  pub identified : is_valid_transaction_id request.transaction_id ≡ true
  pub counted :
      (0 < length request.operations) × (length request.operations ≤ max_transaction_operations)
  pub prepared : All IsPrepared ps
  pub same : operations_of ps ≡ request.operations
  pub total : total_bytes request.operations ≤ max_transaction_bytes
  pub disjoint : has_overlap (sort_ranges (ranges_of ps)) ≡ false

pub check_request-IsChecked :
    (request : TransactionRequest) (ps : List PreparedOperation)
    → check_request request ≡ ok ps
    → IsChecked request ps
unfolding check_request
check_request-IsChecked request ps e = elim (Checked-cases (prepare 0 request.operations)) [
  | inl (code, refused) ↦ ground arith
  | inr (qs, passed) ↦
      let same : ps ≡ qs = ground arith in
      rw same (record {
        identified = ground arith;
        counted = ground arith;
        prepared = (prepare-ok 0 request.operations qs passed).0;
        same = (prepare-ok 0 request.operations qs passed).1;
        total = omega (arith, (prepare-ok 0 request.operations qs passed).2 (omega arith));
        disjoint = ground arith;
      })
]
