-- ===== src/Memory/Transaction/Pending.antt =====
-- The operations that the last loop of native/host/memory_transaction.cpp has still to do: what
-- each means to leave, and how disjoint ranges keep them apart.
use cfb27_lua_hook.Prelude.{
  ℕ, ◌+◌, ◌≤◌, ◌<◌, ◌≡◌, refl, ap, ◌∙◌, inl, inr, some, List, [], ◌∷◌, map, arith, length, All,
}
use cfb27_lua_hook.Memory.Address.{parse_address}
use cfb27_lua_hook.Memory.Backend.{Outside, bytes_at, bytes_at-cong}
use cfb27_lua_hook.Memory.Transaction.{
  TransactionOperation, PreparedOperation, TransactionOperationKind, write, verify_only, range_of,
  ranges_of,
}
use cfb27_lua_hook.Memory.Transaction.Run.{with_originals}
use cfb27_lua_hook.Memory.Transaction.Checks.{IsPrepared, operations_of}
use cfb27_lua_hook.Memory.Transaction.Disjoint.{Apart, PairwiseApart, IsNonempty}
use cfb27_lua_hook.Memory.Transaction.Atomic.{Matched}

-- The bytes that an operation means to leave at its address.
unfoldable pub intended : TransactionOperation → List ℕ
intended op = intended_by op.kind op
  where
    intended_by : TransactionOperationKind → TransactionOperation → List ℕ
    intended_by write op = op.replacement
    intended_by verify_only op = op.expected

abbrev pub Todo : Type 0
Todo = PreparedOperation × List ℕ

abbrev pub IsSized : Todo → Type 0
IsSized t =
    t.0.operation.kind ≡ write → length t.0.operation.replacement ≡ length t.0.operation.expected

abbrev pub HasExpected : (ℕ → ℕ) → Todo → Type 0
HasExpected view t =
    bytes_at view t.0.address (length t.0.operation.expected) ≡ t.0.operation.expected

abbrev pub HasIntended : (ℕ → ℕ) → Todo → Type 0
HasIntended view t =
    bytes_at view t.0.address (length t.0.operation.expected) ≡ intended t.0.operation

-- No write covers the address.
abbrev pub IsUnwritten : ℕ → Todo → Type 0
IsUnwritten x t = t.0.operation.kind ≡ write → Outside t.0.address (length t.0.operation.expected) x

abbrev pub IsApart : Todo → Todo → Type 0
IsApart t u = Apart (range_of t.0) (range_of u.0)

abbrev pub TodoApart : List Todo → Type 0
TodoApart [] = Unit {0}
TodoApart (t ∷ ts) = All (IsApart t) ts × TodoApart ts

-- An address of one range lies outside the other.
pub Apart-Outside :
    (a n b m x : ℕ)
    → Apart (record { begin = a; end = a + n }) (record { begin = b; end = b + m })
    → b ≤ x
    → x < b + m
    → Outside a n x
Apart-Outside a n b m x (inl h) lo hi = inr (omega arith)
Apart-Outside a n b m x (inr h) lo hi = inl (omega arith)

pub Apart-inside :
    (a n b m x : ℕ)
    → Apart (record { begin = a; end = a + n }) (record { begin = b; end = b + m })
    → a ≤ x
    → x < a + n
    → Outside b m x
Apart-inside a n b m x (inl h) lo hi = inl (omega arith)
Apart-inside a n b m x (inr h) lo hi = inr (omega arith)

pub All-IsUnwritten :
    (t : Todo) (rest : List Todo) (x : ℕ)
    → All (IsApart t) rest
    → t.0.address ≤ x
    → x < t.0.address + length t.0.operation.expected
    → All (IsUnwritten x) rest
All-IsUnwritten t [] x h lo hi = tt
All-IsUnwritten t (u ∷ rest) x h lo hi = (
  (λ _.
      Apart-inside t.0.address (length t.0.operation.expected) u.0.address
        (length u.0.operation.expected) x h.0 lo hi),
  All-IsUnwritten t rest x h.1 lo hi,
)

-- What is expected elsewhere is still there after a change within one range.
pub All-HasExpected :
    (before after : ℕ → ℕ) (t : Todo) (rest : List Todo)
    → ((x : ℕ) → Outside t.0.address (length t.0.operation.expected) x → after x ≡ before x)
    → All (IsApart t) rest
    → All (HasExpected before) rest
    → All (HasExpected after) rest
All-HasExpected before after t [] same h k = tt
All-HasExpected before after t (u ∷ rest) same h k = (
  bytes_at-cong after before u.0.address (length u.0.operation.expected) (λ x lo hi. same x (
        Apart-Outside t.0.address (length t.0.operation.expected) u.0.address
          (length u.0.operation.expected) x h.0 lo hi))
      ∙ k.0,
  All-HasExpected before after t rest same h.1 k.1,
)

pub Matched-IsApart :
    (before : ℕ → ℕ) (t : Todo) (ps : List PreparedOperation) (originals : List (List ℕ))
    → All (Apart (range_of t.0)) (ranges_of ps)
    → All (IsApart t) (with_originals ps originals)
unfolding with_originals ranges_of
Matched-IsApart before t [] originals apart = tt
Matched-IsApart before t (p ∷ ps) [] apart = tt
Matched-IsApart before t (p ∷ ps) (o ∷ os) apart = (apart.0, Matched-IsApart before t ps os apart.1)

-- A preflight that matched hands the last loop what it needs.
pub Matched-todo :
    (before : ℕ → ℕ) (ps : List PreparedOperation) (originals : List (List ℕ))
    → All IsPrepared ps
    → PairwiseApart (ranges_of ps)
    → Matched before ps originals
    → let todo = with_originals ps originals in
      (map (λ t. t.0) todo ≡ ps) × All IsSized todo × TodoApart todo × All (HasExpected before) todo
unfolding with_originals ranges_of
Matched-todo before [] [] prepared apart m = (refl, tt, tt, tt)
Matched-todo before [] (o ∷ os) prepared apart m = absurd m
Matched-todo before (p ∷ ps) [] prepared apart m = absurd m
Matched-todo before (p ∷ ps) (o ∷ os) prepared apart (e, here, later) =
    let (same, sized, todo_apart, expected) = Matched-todo before ps os prepared.1 apart.1 later in
    (
      ap (λ l. p ∷ l) same,
      (prepared.0.sized, sized),
      (Matched-IsApart before (p, o) ps os apart.0, todo_apart),
      (here, expected),
    )

pub ranges_of-IsNonempty :
    (ps : List PreparedOperation) → All IsPrepared ps → All IsNonempty (ranges_of ps)
unfolding ranges_of
ranges_of-IsNonempty [] h = tt
ranges_of-IsNonempty (p ∷ ps) h = (omega (arith, h.0.nonempty), ranges_of-IsNonempty ps h.1)

-- The bytes `f op` stand at the operation's address.
abbrev pub HasBytes : (ℕ → ℕ) → (TransactionOperation → List ℕ) → TransactionOperation → Type 0
HasBytes view f op =
    (a : ℕ) → parse_address op.address ≡ some a → bytes_at view a (length op.expected) ≡ f op

-- The address is not among those that the operation writes.
abbrev pub IsUntouched : ℕ → TransactionOperation → Type 0
IsUntouched x op =
    (a : ℕ) → parse_address op.address ≡ some a → op.kind ≡ write → Outside a (length op.expected) x

abbrev pub prepared_of : List Todo → List PreparedOperation
prepared_of todo = map (λ t. t.0) todo

pub HasBytes-todo :
    (view : ℕ → ℕ) (f : TransactionOperation → List ℕ) (todo : List Todo)
    → All IsPrepared (prepared_of todo)
    → All (λ t. bytes_at view t.0.address (length t.0.operation.expected) ≡ f t.0.operation) todo
    → All (HasBytes view f) (operations_of (prepared_of todo))
HasBytes-todo view f [] prepared h = tt
HasBytes-todo view f (t ∷ rest) prepared h = (
  (λ a parsed. let same : a ≡ t.0.address = cc (prepared.0.parsed) in rw same h.0),
  HasBytes-todo view f rest prepared.1 h.1,
)

pub IsUntouched-todo :
    (x : ℕ) (todo : List Todo)
    → All IsPrepared (prepared_of todo)
    → All (IsUntouched x) (operations_of (prepared_of todo))
    → All (IsUnwritten x) todo
IsUntouched-todo x [] prepared h = tt
IsUntouched-todo x (t ∷ rest) prepared h =
    (h.0 t.0.address prepared.0.parsed, IsUntouched-todo x rest prepared.1 h.1)
