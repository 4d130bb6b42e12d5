-- ===== src/Memory/Transaction/Atomic.antt =====
-- A transaction of native/host/memory_transaction.cpp that ends `rolled_back_verified` has changed
-- no byte.
use mathlib.Core.Path.{fun_ext}
use cfb27_lua_hook.Prelude.{
  ℕ, ◌+◌, ◌≡◌, refl, sym, ap, subst, ◌∙◌, inl, inr, true, some, List, [], ◌∷◌, arith, Option-cases,
  and-true, bytes_eq→eq, length, All,
}
use cfb27_lua_hook.Memory.Backend.{MemoryBackend, IsCoherent, bytes_at}
use cfb27_lua_hook.Memory.Transaction.{
  PreparedOperation, OperationResult, TransactionRequest, TransactionResult, rolled_back_verified,
  write, set_applied, set_verified, initial_results,
}
use cfb27_lua_hook.Memory.Transaction.Run.{
  Attempt, apply_all, validate_all, read_all, all_expected, with_originals, run_transaction,
}
use cfb27_lua_hook.Memory.Transaction.Rollback.{Untouched, Holds, roll_back-restores}
use cfb27_lua_hook.Memory.Transaction.Reject.{validate_all-keeps, read_all-keeps}
use cfb27_lua_hook.Memory.Transaction.Step.{apply_all-cases, run_transaction-cases}
use cfb27_lua_hook.Memory.Transaction.Checks.{IsPrepared}

-- A pending operation, its original read from memory `before` and as long as what it will write.
abbrev pub IsPending : (ℕ → ℕ) → PreparedOperation × List ℕ → Type 0
IsPending before (p, original) =
    (bytes_at before p.address (length original) ≡ original)
    × (p.operation.kind ≡ write → length p.operation.replacement ≡ length original)

-- The originals are what `before` has at the operations' addresses, and what these expect.
abbrev pub Matched : (ℕ → ℕ) → List PreparedOperation → List (List ℕ) → Type 0
Matched before [] [] = Unit {0}
Matched before [] (o ∷ os) = ⊥
Matched before (p ∷ ps) [] = ⊥
Matched before (p ∷ ps) (o ∷ os) =
    (o ≡ p.operation.expected)
    × (bytes_at before p.address (length p.operation.expected) ≡ p.operation.expected)
    × Matched before ps os

Matched-IsPending :
    (before : ℕ → ℕ) (ps : List PreparedOperation) (originals : List (List ℕ))
    → All IsPrepared ps
    → Matched before ps originals
    → All (IsPending before) (with_originals ps originals)
unfolding with_originals
Matched-IsPending before [] originals prepared m = tt
Matched-IsPending before (p ∷ ps) [] prepared m = tt
Matched-IsPending before (p ∷ ps) (o ∷ os) prepared (e, here, later) = (
  (rw e here, λ writes. rw e (prepared.0.sized writes)),
  Matched-IsPending before ps os prepared.1 later,
)

module _ {S : Type 0} (b : MemoryBackend S) (view : S → ℕ → ℕ) (c : IsCoherent b view)
    (before : ℕ → ℕ) where
  read_all-Matched :
      (ps : List PreparedOperation) (originals : List (List ℕ)) (s : S)
      → view s ≡ before
      → (read_all b ps s).0 ≡ some originals
      → all_expected ps originals ≡ true
      → Matched before ps originals
  unfolding read_all all_expected
  read_all-Matched [] originals s same e k =
      let empty : originals ≡ [] = ground arith in rw empty tt
  read_all-Matched (p ∷ ps) originals s same e k =
      let size = length p.operation.expected in
      let here = b.read p.address size s in
      elim (Option-cases here.0) [
        | inl unread ↦ ground arith
        | inr (original, got) ↦ elim (Option-cases (read_all b ps here.1).0) [
          | inl unread ↦ ground arith
          | inr (rest, later) ↦
              let split : originals ≡ original ∷ rest = ground arith in
              let both = and-true _ _ (subst (λ os. all_expected (p ∷ ps) os ≡ true) split k) in
              let expected = bytes_eq→eq _ _ both.0 in
              let view_here = rw same at (c.read_view p.address size s original got) in
              let kept : view here.1 ≡ before = fun_ext (c.read_keeps p.address size s) ∙ same in
              rw split (
                expected,
                sym (rw expected at view_here),
                read_all-Matched ps rest here.1 kept later both.1,
              )
        ]
      ]

  -- After one write, still only the bytes of attempts differ.
  write-agrees :
      (index : ℕ) (p : PreparedOperation) (original : List ℕ) (attempted : List Attempt) (s : S)
      → length p.operation.replacement ≡ length original
      → ((x : ℕ) → All (Untouched x) attempted → view s x ≡ before x)
      → (x : ℕ) → All (Untouched x) ((index, p, original) ∷ attempted)
      → view (b.write p.address p.operation.replacement s).1 x ≡ before x
  write-agrees index p original attempted s sized agrees x h =
      c.write_outside p.address p.operation.replacement s x (rw sized h.0) ∙ agrees x h.1

  abbrev Restores : TransactionResult × S → Type 0
  Restores r = r.0.status ≡ rolled_back_verified → (x : ℕ) → view r.1 x ≡ before x

  apply_all-Restores :
      (index : ℕ) (todo : List (PreparedOperation × List ℕ)) (attempted : List Attempt)
      (results : List OperationResult) (s : S)
      → All (IsPending before) todo
      → All (Holds before) attempted
      → ((x : ℕ) → All (Untouched x) attempted → view s x ≡ before x)
      → Restores (apply_all b index todo attempted results s)
  unfolding apply_all
  apply_all-Restores index [] attempted results s pending held agrees = λ e x. cc
  apply_all-Restores index ((p, original) ∷ rest) attempted results s pending held agrees =
      let size = length p.operation.replacement in
      let attempted' = (index, p, original) ∷ attempted in
      let written = b.write p.address p.operation.replacement s in
      let results' = set_applied index results in
      let readback = b.read p.address size written.1 in
      let held' : All (Holds before) attempted' = (pending.0.0, held) in
      let agrees' = λ (writes : p.operation.kind ≡ write).
        write-agrees index p original attempted s (pending.0.1 writes) agrees in
      let read_agrees =
        λ (writes : p.operation.kind ≡ write) (y : ℕ) (h : All (Untouched y) attempted').
          c.read_keeps p.address size written.1 y ∙ agrees' writes y h in
      apply_all-cases b Restores index p original rest attempted results s
        (λ skipped.
          apply_all-Restores (index + 1) rest attempted (set_verified index results) s pending.1
            held agrees)
        (λ writes failed.
          roll_back-restores b view c before attempted' results written.1 held' (agrees' writes))
        (λ writes differs.
          roll_back-restores b view c before attempted' results' readback.1 held'
            (read_agrees writes))
        (λ writes stored same.
          apply_all-Restores (index + 1) rest attempted' (set_verified index results') readback.1
            pending.1 held' (read_agrees writes))

module _ {S : Type 0} (b : MemoryBackend S) (view : S → ℕ → ℕ) (c : IsCoherent b view) where
  pub validate_all-view :
      (ps : List PreparedOperation) (s : S) → view (validate_all b ps s).1 ≡ view s
  validate_all-view ps s =
      validate_all-keeps b (λ s'. view s' ≡ view s)
        (λ a n w s' h. fun_ext (c.validate_keeps a n w s') ∙ h)
        (λ a n s' h. fun_ext (c.read_keeps a n s') ∙ h) ps s refl

  -- The checks and the preflight reads change no byte.
  pub preflight-view :
      (ps : List PreparedOperation) (s : S)
      → view (read_all b ps (validate_all b ps s).1).1 ≡ view s
  preflight-view ps s =
      read_all-keeps b (λ s'. view s' ≡ view s)
        (λ a n w s' h. fun_ext (c.validate_keeps a n w s') ∙ h)
        (λ a n s' h. fun_ext (c.read_keeps a n s') ∙ h) ps _ (validate_all-view ps s)

  pub preflight-Matched :
      (ps : List PreparedOperation) (originals : List (List ℕ)) (s : S)
      → (read_all b ps (validate_all b ps s).1).0 ≡ some originals
      → all_expected ps originals ≡ true
      → Matched (view s) ps originals
  preflight-Matched ps originals s =
      read_all-Matched b view c (view s) ps originals _ (validate_all-view ps s)

  -- Over coherent memory, a transaction that reports `rolled_back_verified` has left every byte as
  -- it found it, whatever the failed write stored.
  pub run_transaction-rolled_back_restores :
      (request : TransactionRequest) (s : S)
      → (run_transaction b request s).0.status ≡ rolled_back_verified
      → (x : ℕ) → view (run_transaction b request s).1 x ≡ view s x
  run_transaction-rolled_back_restores request s =
      run_transaction-cases b (Restores b view c (view s)) request s (λ code s' e x. cc)
        λ ps originals checked read matched.
          let kept = preflight-view ps s in
          apply_all-Restores b view c (view s) 0 (with_originals ps originals) []
            (initial_results 0 ps) _
            (Matched-IsPending (view s) ps originals checked.prepared
              (preflight-Matched ps originals s read matched))
            tt (λ x _. ap (λ (v : ℕ → ℕ). v x) kept)
