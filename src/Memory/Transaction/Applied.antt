-- ===== src/Memory/Transaction/Applied.antt =====
-- What native/host/memory_transaction.cpp promises by `applied_verified`.
use mathlib.Core.Path.{fun_ext}
use cfb27_lua_hook.Prelude.{
  ℕ, ◌+◌, ◌≡◌, refl, sym, ap, subst, ◌∙◌, ◌≢◌, List, [], ◌∷◌, arith, length, All,
}
use cfb27_lua_hook.Memory.Backend.{MemoryBackend, IsCoherent, Outside, bytes_at, bytes_at-cong}
use cfb27_lua_hook.Memory.Transaction.{
  PreparedOperation, OperationResult, TransactionRequest, TransactionResult, applied_verified,
  write, verify_only, set_applied, set_verified, ranges_of, initial_results,
}
use cfb27_lua_hook.Memory.Transaction.Run.{
  Attempt, roll_back, apply_all, with_originals, run_transaction,
}
use cfb27_lua_hook.Memory.Transaction.Checks.{IsPrepared, operations_of}
use cfb27_lua_hook.Memory.Transaction.Disjoint.{has_overlap_iff}
use cfb27_lua_hook.Memory.Transaction.Step.{apply_all-cases, run_transaction-cases}
use cfb27_lua_hook.Memory.Transaction.Atomic.{preflight-view, preflight-Matched}
use cfb27_lua_hook.Memory.Transaction.Pending.{
  intended, Todo, IsSized, HasExpected, HasIntended, IsUnwritten, IsApart, TodoApart,
  All-IsUnwritten, All-HasExpected, Matched-todo, ranges_of-IsNonempty, HasBytes, IsUntouched,
  prepared_of, HasBytes-todo, IsUntouched-todo,
}

roll_back-ne-applied :
    {S : Type 0} (b : MemoryBackend S) (attempted : List Attempt) (results : List OperationResult)
    (s : S)
    → (roll_back b attempted results s).0.status ≢ applied_verified
unfolding roll_back
roll_back-ne-applied b attempted results s = ground arith

module _ {S : Type 0} (b : MemoryBackend S) (view : S → ℕ → ℕ) (c : IsCoherent b view) where
  -- From the state `s`: each operation has its bytes, and no other byte has changed.
  abbrev IsApplied : S → List Todo → TransactionResult × S → Type 0
  IsApplied s todo r =
      r.0.status ≡ applied_verified
      → All (HasIntended (view r.1)) todo
        × ((x : ℕ) → All (IsUnwritten x) todo → view r.1 x ≡ view s x)

  write_lem :
      (p : PreparedOperation) (original : List ℕ) (rest : List Todo) (s s' : S)
      (r : TransactionResult × S)
      → p.operation.kind ≡ write
      → length p.operation.replacement ≡ length p.operation.expected
      → All (IsApart (p, original)) rest
      → ((x : ℕ) → Outside p.address (length p.operation.expected) x → view s' x ≡ view s x)
      → bytes_at (view s') p.address (length p.operation.expected) ≡ p.operation.replacement
      → IsApplied s' rest r
      → IsApplied s ((p, original) ∷ rest) r
  unfolding intended
  write_lem p original rest s s' r writes sized apart same stored later e =
      let (done, kept) = later e in
      let here =
        bytes_at-cong (view r.1) (view s') p.address (length p.operation.expected)
          (λ x lo hi. kept x (All-IsUnwritten (p, original) rest x apart lo hi)) in
      ((rw (writes) (here ∙ stored), done), λ x h. kept x h.1 ∙ same x (h.0 writes))

  verify_lem :
      (p : PreparedOperation) (original : List ℕ) (rest : List Todo) (s : S)
      (r : TransactionResult × S)
      → p.operation.kind ≡ verify_only
      → All (IsApart (p, original)) rest
      → HasExpected (view s) (p, original)
      → IsApplied s rest r
      → IsApplied s ((p, original) ∷ rest) r
  unfolding intended
  verify_lem p original rest s r verifies apart expected later e =
      let (done, kept) = later e in
      let here =
        bytes_at-cong (view r.1) (view s) p.address (length p.operation.expected)
          (λ x lo hi. kept x (All-IsUnwritten (p, original) rest x apart lo hi)) in
      ((rw (verifies) (here ∙ expected), done), λ x h. kept x h.1)

  apply_all-IsApplied :
      (index : ℕ) (todo : List Todo) (attempted : List Attempt) (results : List OperationResult)
      (s : S)
      → All IsSized todo
      → TodoApart todo
      → All (HasExpected (view s)) todo
      → IsApplied s todo (apply_all b index todo attempted results s)
  unfolding apply_all
  apply_all-IsApplied index [] attempted results s sized apart expected = λ e. (tt, λ x h. refl)
  apply_all-IsApplied index ((p, original) ∷ rest) attempted results s sized apart expected =
      let attempted' = (index, p, original) ∷ attempted in
      let written = b.write p.address p.operation.replacement s in
      let results' = set_applied index results in
      let readback = b.read p.address (length p.operation.replacement) written.1 in
      apply_all-cases b (IsApplied s ((p, original) ∷ rest)) index p original rest attempted results
        s
        (λ skipped.
          verify_lem p original rest s
            (apply_all b (index + 1) rest attempted (set_verified index results) s) skipped apart.0
            expected.0
            (apply_all-IsApplied (index + 1) rest attempted (set_verified index results) s sized.1
              apart.1 expected.1))
        (λ writes failed e. absurd (roll_back-ne-applied b attempted' results written.1 e))
        (λ writes differs e. absurd (roll_back-ne-applied b attempted' results' readback.1 e))
        (λ writes stored same.
          let size = sized.0 writes in
          let kept : (x : ℕ)
              → Outside p.address (length p.operation.expected) x
              → view readback.1 x ≡ view s x =
            λ x h.
              c.read_keeps p.address (length p.operation.replacement) written.1 x
              ∙ c.write_outside p.address p.operation.replacement s x
                  (subst (λ n. Outside p.address n x) (sym size) h) in
          let unchanged : view readback.1 ≡ view written.1 =
            fun_ext (c.read_keeps p.address (length p.operation.replacement) written.1) in
          let here : bytes_at (view readback.1) p.address (length p.operation.expected)
              ≡ p.operation.replacement =
            rw (unchanged, ← size) (c.write_view p.address p.operation.replacement s stored) in
          write_lem p original rest s readback.1
            (apply_all b (index + 1) rest attempted' (set_verified index results') readback.1)
            writes size apart.0 kept here
            (apply_all-IsApplied (index + 1) rest attempted' (set_verified index results')
              readback.1 sized.1 apart.1
              (All-HasExpected (view s) (view readback.1) (p, original) rest kept apart.0
                expected.1)))

  -- What `applied_verified` promises of the memory before and after.
  abbrev Applies : TransactionRequest → S → TransactionResult × S → Type 0
  Applies request s r =
      r.0.status ≡ applied_verified
      → All (HasBytes (view s) (λ op. op.expected)) request.operations
        × All (HasBytes (view r.1) intended) request.operations
        × ((x : ℕ) → All (IsUntouched x) request.operations → view r.1 x ≡ view s x)

  -- A transaction that reports `applied_verified` found each operation's expected bytes, leaves
  -- each operation's intended bytes, and changes no byte outside its writes.
  pub run_transaction-applied :
      (request : TransactionRequest) (s : S)
      → (run_transaction b request s).0.status ≡ applied_verified
      → let view' = view (run_transaction b request s).1 in
        All (HasBytes (view s) (λ op. op.expected)) request.operations
        × All (HasBytes view' intended) request.operations
        × ((x : ℕ) → All (IsUntouched x) request.operations → view' x ≡ view s x)
  run_transaction-applied request s =
      run_transaction-cases b (Applies request s) request s (λ code s' e. cc)
        λ ps originals checked read matched e.
          let m = preflight-Matched b view c ps originals s read matched in
          let apart =
            (has_overlap_iff (ranges_of ps) (ranges_of-IsNonempty ps checked.prepared)).0
              checked.disjoint in
          let todo = with_originals ps originals in
          let (same, sized, todo_apart, expected) =
            Matched-todo (view s) ps originals checked.prepared apart m in
          let prepared = subst (All IsPrepared) (sym same) checked.prepared in
          let ops : operations_of (prepared_of todo) ≡ request.operations =
            ap operations_of same ∙ checked.same in
          let (done, kept) =
            apply_all-IsApplied 0 todo [] (initial_results 0 ps) _ sized todo_apart
              (subst (λ v. All (HasExpected v) todo) (sym (preflight-view b view c ps s)) expected)
              e in
          (
            subst (All (HasBytes (view s) (λ op. op.expected))) ops
                (HasBytes-todo _ _ todo prepared expected),
            subst (All (HasBytes _ intended)) ops (HasBytes-todo _ intended todo prepared done),
            λ x h.
                kept x (IsUntouched-todo x todo prepared (subst (All (IsUntouched x)) (sym ops) h))
                ∙ ap (λ (v : ℕ → ℕ). v x) (preflight-view b view c ps s),
          )
