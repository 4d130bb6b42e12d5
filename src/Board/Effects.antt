-- ===== src/Board/Effects.antt =====
-- What the outcomes of `Invoke` of native/host/board_mutation.cpp say of the board and of the game.
use cfb27_lua_hook.Prelude.{
  ℕ, ◌+◌, ◌≡◌, refl, ◌≢◌, ◌⊎◌, inl, inr, true, ◌||◌, not, Option, List, [], ◌∷◌, arith, ltb, leb,
  ◌==◌, Bool-cases, Option-cases, length,
}
use cfb27_lua_hook.NativeCall.{Process, word, cell}
use cfb27_lua_hook.NativeCall
use cfb27_lua_hook.Board.{
  Operation, add, remove, Status, applied, native_call_failed, postcondition_failed, BoardLayout,
  Result, RuntimeCache, BoardItem, BoardSnapshot, membership_capacity, board_slots, base_result,
  reference_row_mask,
}
use cfb27_lua_hook.Board.Memory.{read64}
use cfb27_lua_hook.Board.Tables.{Hit}
use cfb27_lua_hook.Board.Snapshot.{matching}
use cfb27_lua_hook.Board.Invoke.{
  Located, located, failed, board_of, next_heads, new_heads, is_added, finish_add, is_removed,
  finish_remove, call_game, invoke_add, invoke_remove, dispatch, invoke_located, locate, invoke,
}

-- The outcomes after which the game's function may have run.
abbrev pub MayHaveCalled : Status → Type 0
MayHaveCalled status =
    (status ≡ applied) ⊎ (status ≡ native_call_failed) ⊎ (status ≡ postcondition_failed)

pub List-cases {ℓ} :
    {A : Type ℓ} (xs : List A) → (xs ≡ []) ⊎ ((x : A) × (rest : List A) × (xs ≡ x ∷ rest))
List-cases [] = inl refl
List-cases (x ∷ rest) = inr (x, rest, refl)

pub Located-cases :
    (l : Located)
    → ((runtime : RuntimeCache) × (l ≡ located runtime)) ⊎ ((status : Status) × (l ≡ failed status))
Located-cases (located runtime) = inl (runtime, refl)
Located-cases (failed status) = inr (status, refl)

native-cases : (st : NativeCall.Status) → (st ≡ NativeCall.Status.ok) ⊎ (st ≢ NativeCall.Status.ok)
native-cases NativeCall.Status.ok = inl refl
native-cases NativeCall.Status.too_many_arguments = inr (λ e. cc)
native-cases NativeCall.Status.invalid_target = inr (λ e. cc)
native-cases NativeCall.Status.exception = inr (λ e. cc)

module _ {S : Type 0} (process : Process S) (layout : BoardLayout) where
  finish_add-status :
      (runtime : RuntimeCache) (result : Result) (recruit_row size : ℕ) (next new : ℕ × ℕ)
      (after : BoardSnapshot)
      → MayHaveCalled
          (finish_add process layout runtime result recruit_row size next new after).status
  unfolding finish_add
  finish_add-status runtime result recruit_row size next new after = ground arith

  finish_remove-status :
      (runtime : RuntimeCache) (result : Result) (recruit_row size : ℕ) (item : BoardItem)
      (new : ℕ × ℕ) (after : BoardSnapshot) (s : S)
      → MayHaveCalled
          (finish_remove process layout runtime result recruit_row size item new after s).status
  unfolding finish_remove
  finish_remove-status runtime result recruit_row size item new after s = ground arith

  -- An applied addition has found the recruit once, in the slot after the last.
  pub finish_add-applied :
      (runtime : RuntimeCache) (result : Result) (recruit_row size : ℕ) (next new : ℕ × ℕ)
      (after : BoardSnapshot)
      → (finish_add process layout runtime result recruit_row size next new after).status ≡ applied
      → (length after.items ≡ size + 1)
        × ((item : BoardItem) × (matching after.items recruit_row ≡ item ∷ []) × (item.slot ≡ size))
  unfolding finish_add is_added
  finish_add-applied runtime result recruit_row size next new after h =
      elim (List-cases (matching after.items recruit_row)) [
        | inl gone ↦ ground arith
        | inr (item, others, found) ↦ (elim (List-cases others) [
          | inl alone ↦ ground arith
          | inr (other, rest, more) ↦ ground arith
        ])
      ]

  pub finish_remove-applied :
      (runtime : RuntimeCache) (result : Result) (recruit_row size : ℕ) (item : BoardItem)
      (new : ℕ × ℕ) (after : BoardSnapshot) (s : S)
      → (finish_remove process layout runtime result recruit_row size item new after s).status
        ≡ applied
      → (length after.items + 1 ≡ size) × (length (matching after.items recruit_row) ≡ 0)
  unfolding finish_remove is_removed
  finish_remove-applied runtime result recruit_row size item new after s h = ground arith

  call_game-MayHaveCalled :
      (function : ℕ) (runtime : RuntimeCache) (result : Result) (row : ℕ)
      (finish : Result → ℕ × ℕ → BoardSnapshot → S → Result) (s : S)
      → ((r : Result) (new : ℕ × ℕ) (after : BoardSnapshot) (s' : S)
          → MayHaveCalled (finish r new after s').status)
      → MayHaveCalled (call_game process layout function runtime result row finish s).0.status
  unfolding call_game
  call_game-MayHaveCalled function runtime result row finish s h =
      let call =
        NativeCall.invoke process function
          (word runtime.controller ∷ cell runtime.team_wrapper ∷ cell runtime.recruit_wrapper ∷ [])
          s in
      elim (native-cases (call.0.status)) [
        | inl worked ↦ elim (Option-cases (new_heads process layout runtime call.1)) [
          | inl unread ↦ ground arith
          | inr (new, heads) ↦ ground (
            arith,
            h (record result { call_value = call.0.value; fault_code = call.0.fault_code }) new
                (board_of process layout runtime row call.1) call.1,
          )
        ]
        | inr broken ↦ ground arith
      ]

  -- A call that ends applied has left a valid board, of which `finish` approved.
  pub call_game-applied :
      (function : ℕ) (runtime : RuntimeCache) (result : Result) (row : ℕ)
      (finish : Result → ℕ × ℕ → BoardSnapshot → S → Result) (s : S)
      → (call_game process layout function runtime result row finish s).0.status ≡ applied
      → let s' = (call_game process layout function runtime result row finish s).1 in
        ((board_of process layout runtime row s').valid ≡ true)
        × ((r : Result) × (new : ℕ × ℕ) × ((finish r new
                (board_of process layout runtime row s')
                s').status
              ≡ applied))
  unfolding call_game
  call_game-applied function runtime result row finish s h =
      let call =
        NativeCall.invoke process function
          (word runtime.controller ∷ cell runtime.team_wrapper ∷ cell runtime.recruit_wrapper ∷ [])
          s in
      elim (native-cases (call.0.status)) [
        | inl worked ↦ elim (Option-cases (new_heads process layout runtime call.1)) [
          | inl unread ↦ ground arith
          | inr (new, heads) ↦ (
            ground arith,
            (
              record result { call_value = call.0.value; fault_code = call.0.fault_code },
              new,
              ground arith,
            ),
          )
        ]
        | inr broken ↦ ground arith
      ]

  dispatch-MayHaveCalled :
      (operation : Operation) (runtime : RuntimeCache) (result : Result) (recruit_row row : ℕ)
      (matches : List BoardItem) (size : ℕ) (s : S)
      → let r = dispatch process layout operation runtime result recruit_row row matches size s in
        MayHaveCalled r.0.status ⊎ (r.1 ≡ s)
  unfolding dispatch invoke_add invoke_remove
  dispatch-MayHaveCalled add runtime result recruit_row row (item ∷ items) size s = inr refl
  dispatch-MayHaveCalled remove runtime result recruit_row row [] size s = inr refl
  dispatch-MayHaveCalled remove runtime result recruit_row row (item ∷ items) size s = inl (
      call_game-MayHaveCalled _ runtime result row _ s
        (λ r new after s'. finish_remove-status runtime r recruit_row size item new after s'))
  dispatch-MayHaveCalled add runtime result recruit_row row [] size s =
      elim (Bool-cases (leb board_slots size)) [
        | inl full ↦ inr (ground arith)
        | inr room ↦ elim (Option-cases (next_heads process layout runtime s)) [
          | inl unread ↦ inr (ground arith)
          | inr (next, heads) ↦
              rw (room, heads)
                (inl (
                  call_game-MayHaveCalled _ runtime result row _ s (λ r new after s'.
                    finish_add-status runtime r recruit_row size next new after)))
        ]
      ]

  invoke_located-MayHaveCalled :
      (operation : Operation) (recruit_row : ℕ) (runtime : RuntimeCache) (result : Result) (s : S)
      → let r = invoke_located process layout operation recruit_row runtime result s in
        MayHaveCalled r.0.status ⊎ (r.1 ≡ s)
  unfolding invoke_located
  invoke_located-MayHaveCalled operation recruit_row runtime result s =
      elim (Option-cases (read64 process (runtime.controller + 8) s)) [
        | inl unread ↦ inr (ground arith)
        | inr (row, read) ↦
            let before = board_of process layout runtime row s in
            let matches = matching before.items recruit_row in
            elim (Bool-cases (leb membership_capacity row)) [
              | inl outside ↦ inr (ground arith)
              | inr inside ↦ elim (Bool-cases (not before.valid || ltb 1 (length matches))) [
                | inl bad ↦ inr (ground arith)
                | inr good ↦ ground (
                  arith,
                  dispatch-MayHaveCalled operation runtime (record result { membership_row = row })
                      recruit_row row matches (length before.items) s,
                )
              ]
            ]
      ]

  -- After every outcome but applied, native_call_failed and postcondition_failed the game's
  -- function has not been called: the process is in the state it was in.
  pub invoke-keeps_state :
      (search : S → List Hit) (operation : Operation) (recruit_row team_row : ℕ)
      (cache : Option RuntimeCache) (s : S)
      → let r = invoke process layout search operation recruit_row team_row cache s in
        MayHaveCalled r.1.status ⊎ (r.2 ≡ s)
  unfolding invoke
  invoke-keeps_state search operation recruit_row team_row cache s =
      elim (Bool-cases (ltb reference_row_mask recruit_row || ltb reference_row_mask team_row)) [
        | inl wide ↦ inr (ground arith)
        | inr narrow ↦ elim (Bool-cases (process.module_handle s == 0)) [
          | inl absent ↦ inr (ground arith)
          | inr present ↦
              elim (Located-cases (
                locate process layout search (process.module_handle s) recruit_row team_row cache
                  s)) [
                    | inr (status, lost) ↦ inr (ground arith)
                    | inl (runtime, found) ↦ ground (
                      arith,
                      invoke_located-MayHaveCalled operation recruit_row runtime
                          (base_result operation recruit_row team_row) s,
                    )
                  ]
        ]
      ]
