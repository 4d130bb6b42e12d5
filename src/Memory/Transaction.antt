-- ===== src/Memory/Transaction.antt =====
-- native/host/memory_transaction.h and memory_transaction.cpp: a transaction checks all of its
-- operations, reads what is there, compares, then writes and reads back one by one, and rolls
-- back on the first failure.
pub mod Run
pub mod Checks
pub mod Disjoint
pub mod Pending
pub mod Applied
pub mod Success
mod Tests
pub mod Step
pub mod Reject
pub mod Rollback
pub mod Atomic
use Prim.Native.Nat.{ℕ, ◌+◌, ◌-◌, ◌*◌}
use cfb27_lua_hook.Prelude.{
  String, ◌≡◌, refl, ◌⊎◌, inl, inr, Bool, true, false, ◌||◌, not, Option, none, some, List, [], ◌∷◌,
  ltb, leb, ◌==◌, if◌then◌else◌, bytes_eq, length, modify,
}
use cfb27_lua_hook.Memory.Address.{uintptr_max, parse_address}

abbrev pub max_transaction_operations : ℕ
max_transaction_operations = 32

abbrev pub max_operation_bytes : ℕ
max_operation_bytes = 4096

abbrev pub max_transaction_bytes : ℕ
max_transaction_bytes = 64 * 1024

pub data TransactionOperationKind : Type 0 where
  write verify_only : TransactionOperationKind

pub record TransactionOperation : Type 0 where
  pub address : List ℕ
  pub expected : List ℕ
  pub replacement : List ℕ
  pub kind : TransactionOperationKind

pub record TransactionRequest : Type 0 where
  pub transaction_id : List ℕ
  pub operations : List TransactionOperation

pub data TransactionStatus : Type 0 where
  rejected applied_verified rolled_back_verified rollback_unverified : TransactionStatus

pub record OperationResult : Type 0 where
  pub index : ℕ
  pub applied : Bool
  pub verified : Bool

pub record TransactionResult : Type 0 where
  pub status : TransactionStatus
  pub code : String
  pub operations : List OperationResult

-- An operation with its parsed address; the source keeps the two in vectors of one length.
pub record PreparedOperation : Type 0 where
  pub operation : TransactionOperation
  pub address : ℕ

pub record Range : Type 0 where
  pub begin : ℕ
  pub end : ℕ

-- What a stage of the checks gives: its result, or the code of the rejection.
pub data Checked {ℓ} (A : Type ℓ) : Type ℓ where
  ok : A → Checked A
  reject : String → Checked A

infixl 5 ◌>>=◌
abbrev pub ◌>>=◌ {ℓ κ} : {A : Type ℓ} {B : Type κ} → Checked A → (A → Checked B) → Checked B
ok a >>= f = f a
reject code >>= f = reject code

pub Checked-cases {ℓ} :
    {A : Type ℓ} (c : Checked A) → ((code : String) × (c ≡ reject code)) ⊎ ((a : A) × (c ≡ ok a))
Checked-cases (ok a) = inr (a, refl)
Checked-cases (reject code) = inl (code, refl)

pub kind-cases : (k : TransactionOperationKind) → (k ≡ write) ⊎ (k ≡ verify_only)
kind-cases write = inl refl
kind-cases verify_only = inr refl

abbrev pub is_verify_only : TransactionOperationKind → Bool
is_verify_only verify_only = true
is_verify_only write = false

abbrev pub rejected_result : String → TransactionResult
rejected_result code = record { status = rejected; code = code; operations = [] }

-- The size test of one operation.
unfoldable pub has_invalid_size : TransactionOperation → Bool
has_invalid_size op =
    (length op.expected == 0)
    || ((if is_verify_only op.kind
          then not (length op.replacement == 0)
          else not (length op.expected == length op.replacement))
        || ltb max_operation_bytes (length op.expected))

-- The address of one operation, after which its bytes must not run past the address space.
unfoldable pub check_address : TransactionOperation → Checked ℕ
check_address op = elim (parse_address op.address) [
  | none ↦ reject "invalid_address"
  | some address ↦
      if ltb (uintptr_max - length op.expected) address
      then reject "invalid_address"
      else ok address
]

-- One round of the first loop, at the bytes counted so far.
unfoldable pub check_operation : ℕ → TransactionOperation → Checked ℕ
unfolding has_invalid_size check_address
check_operation aggregate_bytes op =
    if has_invalid_size op
    then reject "invalid_operation_size"
    else (if ltb (max_transaction_bytes - length op.expected) aggregate_bytes
        then reject "transaction_too_large"
        else check_address op)

unfoldable pub prepare : ℕ → List TransactionOperation → Checked (List PreparedOperation)
unfolding check_operation
prepare aggregate_bytes [] = ok []
prepare aggregate_bytes (op ∷ ops) = do
  address ← check_operation aggregate_bytes op
  rest ← prepare (aggregate_bytes + length op.expected) ops
  ok (record { operation = op; address = address } ∷ rest)

abbrev pub range_of : PreparedOperation → Range
range_of p = record { begin = p.address; end = p.address + length p.operation.expected }

-- `std::sort` by `begin`.
unfoldable pub insert_range : Range → List Range → List Range
insert_range r [] = r ∷ []
insert_range r (q ∷ qs) = if leb r.begin q.begin then r ∷ q ∷ qs else q ∷ insert_range r qs

unfoldable pub sort_ranges : List Range → List Range
unfolding insert_range
sort_ranges [] = []
sort_ranges (r ∷ rs) = insert_range r (sort_ranges rs)

unfoldable pub ranges_of : List PreparedOperation → List Range
ranges_of [] = []
ranges_of (p ∷ ps) = range_of p ∷ ranges_of ps

-- The scan of neighbours after the sort.
unfoldable pub has_overlap : List Range → Bool
has_overlap [] = false
has_overlap (r ∷ []) = false
has_overlap (r ∷ q ∷ qs) = ltb q.begin r.end || has_overlap (q ∷ qs)

unfoldable pub initial_results : ℕ → List PreparedOperation → List OperationResult
initial_results index [] = []
initial_results index (p ∷ ps) =
    record { index = index; applied = false; verified = false } ∷ initial_results (index + 1) ps

abbrev pub set_applied : ℕ → List OperationResult → List OperationResult
set_applied index results = modify results index (λ r. record r { applied = true })

abbrev pub set_verified : ℕ → List OperationResult → List OperationResult
set_verified index results = modify results index (λ r. record r { verified = true })

abbrev pub reset : ℕ → List OperationResult → List OperationResult
reset index results = modify results index (λ r. record r { applied = false; verified = false })

-- Whether a read gave just these bytes.
abbrev pub is_readback : Option (List ℕ) → List ℕ → Bool
is_readback none bytes = false
is_readback (some readback) bytes = bytes_eq readback bytes
