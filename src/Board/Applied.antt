-- ===== src/Board/Applied.antt =====
-- What the outcome applied of `Invoke` of native/host/board_mutation.cpp says of the board before the
-- call of the game and of the board after it.
use cfb27_lua_hook.Prelude.{
  ℕ, ◌+◌, ◌≤◌, ◌<◌, ◌≡◌, refl, sym, subst, ◌≢◌, inl, inr, true, ◌||◌, not, Option, none, some, List,
  [], ◌∷◌, arith, ltb, leb, ◌==◌, Bool-cases, Option-cases, length,
}
use cfb27_lua_hook.NativeCall.{Process}
use cfb27_lua_hook.Board.{
  Operation, add, remove, applied, BoardLayout, Result, RuntimeCache, BoardItem, TableView,
  membership_capacity, board_slots, base_result, reference_row_mask,
}
use cfb27_lua_hook.Board.Memory.{read64}
use cfb27_lua_hook.Board.Tables.{Hit}
use cfb27_lua_hook.Board.Snapshot.{matching}
use cfb27_lua_hook.Board.Invoke.{
  Located, located, failed, one_of_each, locate_found, from_cache, board_of, next_heads, finish_add,
  finish_remove, invoke_add, invoke_remove, dispatch, invoke_located, locate, invoke,
}
use cfb27_lua_hook.Board.Effects.{
  Located-cases, finish_add-applied, finish_remove-applied, call_game-applied,
}

-- An addition puts the recruit, who was not there, behind the last slot in use; a removal takes the
-- recruit, who was there once, away.
abbrev pub Changed : Operation → ℕ → List BoardItem → List BoardItem → Type 0
Changed add recruit_row before after =
    (length before < board_slots)
    × (matching before recruit_row ≡ [])
    × (length after ≡ length before + 1)
    × ((item : BoardItem) × (matching after recruit_row ≡ item ∷ []) × (item.slot ≡ length before))
Changed remove recruit_row before after =
    (length (matching before recruit_row) ≡ 1)
    × (length after + 1 ≡ length before)
    × (length (matching after recruit_row) ≡ 0)

abbrev NotApplied : Located → Type 0
NotApplied (located runtime) = Unit {0}
NotApplied (failed status) = status ≢ applied

one_of_each-NotApplied :
    (module_base recruit_row team_row : ℕ) (cs rs ws : List ℕ) (t p m : Option TableView)
    → NotApplied (one_of_each module_base recruit_row team_row cs rs ws t p m)
unfolding one_of_each
one_of_each-NotApplied module_base recruit_row team_row [] rs ws t p m = λ e. cc
one_of_each-NotApplied module_base recruit_row team_row (c ∷ cs) [] ws t p m = λ e. cc
one_of_each-NotApplied module_base recruit_row team_row (c ∷ cs) (r ∷ rs) [] t p m = λ e. cc
one_of_each-NotApplied module_base recruit_row team_row (c ∷ c' ∷ cs) (r ∷ rs) (w ∷ ws) t p m =
    λ e. cc
one_of_each-NotApplied module_base recruit_row team_row (c ∷ []) (r ∷ r' ∷ rs) (w ∷ ws) t p m =
    λ e. cc
one_of_each-NotApplied module_base recruit_row team_row (c ∷ []) (r ∷ []) (w ∷ w' ∷ ws) t p m =
    λ e. cc
one_of_each-NotApplied module_base recruit_row team_row (c ∷ []) (r ∷ []) (w ∷ []) none p m =
    λ e. cc
one_of_each-NotApplied module_base recruit_row team_row (c ∷ []) (r ∷ []) (w ∷ []) (some t) none m =
    λ e. cc
one_of_each-NotApplied module_base recruit_row team_row (c ∷ []) (r ∷ []) (w ∷ []) (some t) (some p)
      none =
    λ e. cc
one_of_each-NotApplied module_base recruit_row team_row (c ∷ []) (r ∷ []) (w ∷ []) (some t) (some p)
      (some m) =
    tt

module _ {S : Type 0} (process : Process S) (layout : BoardLayout) where
  invoke_add-applied :
      (runtime : RuntimeCache) (result : Result) (recruit_row row : ℕ) (before : List BoardItem)
      (s : S)
      → matching before recruit_row ≡ []
      → let r = invoke_add process layout runtime result recruit_row row [] (length before) s in
        r.0.status ≡ applied
        → let after = board_of process layout runtime row r.1 in
          (after.valid ≡ true) × Changed add recruit_row before after.items
  unfolding invoke_add
  invoke_add-applied runtime result recruit_row row before s alone h =
      elim (Bool-cases (leb board_slots (length before))) [
        | inl full ↦ ground arith
        | inr room ↦ elim (Option-cases (next_heads process layout runtime s)) [
          | inl unread ↦ ground arith
          | inr (next, heads) ↦
              rw (room, heads)
                (let (good, (r, new, done)) =
                    call_game-applied process layout _ runtime result row
                      (λ r new after s'.
                        finish_add process layout runtime r recruit_row (length before) next new
                          after)
                      s (ground arith) in
                  let (longer, found) =
                    finish_add-applied process layout runtime r recruit_row (length before) next new
                      _ done in
                  (good, (ground arith, alone, longer, found)))
        ]
      ]

  invoke_remove-applied :
      (runtime : RuntimeCache) (result : Result) (recruit_row row : ℕ) (before : List BoardItem)
      (item : BoardItem) (s : S)
      → matching before recruit_row ≡ item ∷ []
      → let r =
          invoke_remove process layout runtime result recruit_row row
            (item ∷ [])
            (length before)
            s in
        r.0.status ≡ applied
        → let after = board_of process layout runtime row r.1 in
          (after.valid ≡ true) × Changed remove recruit_row before after.items
  unfolding invoke_remove
  invoke_remove-applied runtime result recruit_row row before item s alone h =
      let (good, (r, new, done)) =
        call_game-applied process layout _ runtime result row
          (λ r new after s'.
            finish_remove process layout runtime r recruit_row (length before) item new after s')
          s h in
      let (shorter, gone) =
        finish_remove-applied process layout runtime r recruit_row (length before) item new _ _
          done in
      (good, (ground arith, shorter, gone))

  dispatch-applied :
      (operation : Operation) (runtime : RuntimeCache) (result : Result) (recruit_row row : ℕ)
      (before matches : List BoardItem) (s : S)
      → matching before recruit_row ≡ matches
      → length matches ≤ 1
      → let r =
          dispatch process layout operation runtime result recruit_row row matches
            (length before)
            s in
        r.0.status ≡ applied
        → let after = board_of process layout runtime row r.1 in
          (after.valid ≡ true) × Changed operation recruit_row before after.items
  unfolding dispatch invoke_add invoke_remove
  dispatch-applied add runtime result recruit_row row before [] s e few h =
      invoke_add-applied runtime result recruit_row row before s e h
  dispatch-applied add runtime result recruit_row row before (item ∷ items) s e few h =
      absurd (ground arith)
  dispatch-applied remove runtime result recruit_row row before [] s e few h = absurd (ground arith)
  dispatch-applied remove runtime result recruit_row row before (item ∷ []) s e few h =
      invoke_remove-applied runtime result recruit_row row before item s e h
  dispatch-applied remove runtime result recruit_row row before (item ∷ item' ∷ items) s e few h =
      absurd (ground arith)

  invoke_located-applied :
      (operation : Operation) (recruit_row : ℕ) (runtime : RuntimeCache) (result : Result) (s : S)
      → let r = invoke_located process layout operation recruit_row runtime result s in
        r.0.status ≡ applied
        → (row : ℕ) × (read64 process (runtime.controller + 8) s ≡ some row)
          × (row < membership_capacity)
          × ((board_of process layout runtime row s).valid ≡ true)
          × ((board_of process layout runtime row r.1).valid ≡ true)
          × Changed operation recruit_row
              (board_of process layout runtime row s).items
              (board_of process layout runtime row r.1).items
  unfolding invoke_located
  invoke_located-applied operation recruit_row runtime result s h =
      elim (Option-cases (read64 process (runtime.controller + 8) s)) [
        | inl unread ↦ absurd (ground arith)
        | inr (row, read) ↦
            let before = board_of process layout runtime row s in
            let matches = matching before.items recruit_row in
            elim (Bool-cases (leb membership_capacity row)) [
              | inl outside ↦ absurd (ground arith)
              | inr inside ↦ elim (Bool-cases (not before.valid || ltb 1 (length matches))) [
                | inl bad ↦ absurd (ground arith)
                | inr good ↦
                    let (valid, changed) =
                      dispatch-applied operation runtime (record result { membership_row = row })
                        recruit_row row before.items matches s refl (ground arith) (ground arith) in
                    let same : (dispatch process layout operation runtime
                          (record result { membership_row = row }) recruit_row row matches
                          (length before.items) s).1
                        ≡ (invoke_located process layout operation recruit_row runtime result s).1 =
                      ground arith in
                    (
                      row,
                      read,
                      ground arith,
                      ground arith,
                      subst (λ s'. (board_of process layout runtime row s').valid ≡ true) same
                          valid,
                      subst
                          (λ s'.
                            Changed operation recruit_row before.items
                              (board_of process layout runtime row s').items)
                          same changed,
                    )
              ]
            ]
      ]

  locate-NotApplied :
      (search : S → List Hit) (module_base recruit_row team_row : ℕ) (cache : Option RuntimeCache)
      (s : S)
      → NotApplied (locate process layout search module_base recruit_row team_row cache s)
  unfolding locate locate_found
  locate-NotApplied search module_base recruit_row team_row cache s =
      elim (Option-cases (from_cache process layout module_base recruit_row team_row cache s)) [
        | inl stale ↦
            rw (stale, NotApplied)
              (one_of_each-NotApplied module_base recruit_row team_row _ _ _ _ _ _)
        | inr (runtime, kept) ↦ rw (kept, NotApplied) tt
      ]

  -- An applied outcome comes with the objects it was reached on, kept for the next call; before and
  -- after it their board is valid, and between the two an addition has put the recruit, who was not
  -- among the fewer than 35 items, once and behind the last slot in use, and a removal has taken the
  -- recruit, who was there once, away, with one item less on the board.
  pub invoke-applied :
      (search : S → List Hit) (operation : Operation) (recruit_row team_row : ℕ)
      (cache : Option RuntimeCache) (s : S)
      → let r = invoke process layout search operation recruit_row team_row cache s in
        r.1.status ≡ applied
        → (runtime : RuntimeCache) × (row : ℕ) × (r.0 ≡ some runtime)
          × (read64 process (runtime.controller + 8) s ≡ some row)
          × (row < membership_capacity)
          × ((board_of process layout runtime row s).valid ≡ true)
          × ((board_of process layout runtime row r.2).valid ≡ true)
          × Changed operation recruit_row
              (board_of process layout runtime row s).items
              (board_of process layout runtime row r.2).items
  unfolding invoke
  invoke-applied search operation recruit_row team_row cache s h =
      elim (Bool-cases (ltb reference_row_mask recruit_row || ltb reference_row_mask team_row)) [
        | inl wide ↦ absurd (ground arith)
        | inr narrow ↦ elim (Bool-cases (process.module_handle s == 0)) [
          | inl absent ↦ absurd (ground arith)
          | inr present ↦
              elim (Located-cases (
                locate process layout search (process.module_handle s) recruit_row team_row cache
                  s)) [
                    | inr (status, lost) ↦ absurd (
                        subst NotApplied lost
                          (locate-NotApplied search (process.module_handle s) recruit_row team_row
                            cache s)
                          (ground arith))
                    | inl (runtime, found) ↦
                        let located_call =
                          invoke_located process layout operation recruit_row runtime
                            (base_result operation recruit_row team_row) s in
                        let same : invoke process layout search operation recruit_row team_row cache
                              s
                            ≡ (some runtime, located_call.0, located_call.1) =
                          ground arith in
                        let (row, read, inside, before, after, changed) =
                          invoke_located-applied operation recruit_row runtime
                            (base_result operation recruit_row team_row) s (ground arith) in
                        (
                          runtime,
                          row,
                          ground arith,
                          read,
                          inside,
                          before,
                          subst (λ r. (board_of process layout runtime row r.2).valid ≡ true)
                              (sym same) after,
                          subst
                              (λ r.
                                Changed operation recruit_row
                                  (board_of process layout runtime row s).items
                                  (board_of process layout runtime row r.2).items)
                              (sym same) changed,
                        )
                  ]
        ]
      ]
