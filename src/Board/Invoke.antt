-- ===== src/Board/Invoke.antt =====
-- `Invoke` of native/host/board_mutation.cpp. The cache of runtime objects is passed and returned; the
-- hits of the pattern search over the private regions are the argument `search`.
use cfb27_lua_hook.Prelude.{
  ℕ, ◌+◌, ◌*◌, ◌%◌, ◌^◌, Bool, false, ◌&&◌, ◌||◌, not, Option, none, some, List, [], ◌∷◌, ltb, leb,
  ◌==◌, if◌then◌else◌, length,
}
use cfb27_lua_hook.NativeCall.{Process, word, cell}
use cfb27_lua_hook.NativeCall
use cfb27_lua_hook.Board.{
  Operation, add, remove, Status, applied, unchanged, invalid_argument, recruiting_not_loaded,
  runtime_ambiguous, table_discovery_failed, board_state_invalid, board_full, native_call_failed,
  postcondition_failed, BoardLayout, Result, TableView, RuntimeCache, BoardItem, BoardSnapshot,
  base_result, reference_row_mask, membership_capacity, board_slots, uint32_max,
}
use cfb27_lua_hook.Board.Memory.{read32, read64}
use cfb27_lua_hook.Board.Tables.{
  Hit, Found, nothing_found, add_hits, validate_controller, validate_wrapper, refresh_table,
}
use cfb27_lua_hook.Board.Tables.Select.{select_table}
use cfb27_lua_hook.Board.Snapshot.{matching, read_board}

-- The runtime objects, or why they were not found.
pub data Located : Type 0 where
  located : RuntimeCache → Located
  failed : Status → Located

abbrev pub row_address : TableView → ℕ → ℕ
row_address table row = table.rows + row * table.spec.stride

-- One object of each kind, and then one table of each kind.
unfoldable pub one_of_each :
    ℕ
    → ℕ
    → ℕ
    → List ℕ
    → List ℕ
    → List ℕ
    → Option TableView
    → Option TableView
    → Option TableView
    → Located
one_of_each module_base recruit_row team_row [] rs ws t p m = failed recruiting_not_loaded
one_of_each module_base recruit_row team_row (c ∷ cs) [] ws t p m = failed recruiting_not_loaded
one_of_each module_base recruit_row team_row (c ∷ cs) (r ∷ rs) [] t p m =
    failed recruiting_not_loaded
one_of_each module_base recruit_row team_row (c ∷ []) (r ∷ []) (w ∷ []) (some t) (some p) (some m) =
    located (record {
      module_base = module_base;
      recruit_row = recruit_row;
      team_row = team_row;
      controller = c;
      recruit_wrapper = r;
      team_wrapper = w;
      targets = t;
      pitches = p;
      membership = m;
    })
one_of_each module_base recruit_row team_row (c ∷ []) (r ∷ []) (w ∷ []) t p m =
    failed table_discovery_failed
one_of_each module_base recruit_row team_row (c ∷ cs) (r ∷ rs) (w ∷ ws) t p m =
    failed runtime_ambiguous

unfoldable pub locate_found : ℕ → ℕ → ℕ → Found → Located
locate_found module_base recruit_row team_row found =
    one_of_each module_base recruit_row team_row found.controllers found.recruit_wrappers
      found.team_wrappers (select_table found.targets) (select_table found.pitches)
      (select_table found.memberships)

module _ {S : Type 0} (process : Process S) (layout : BoardLayout) where
  -- The cached objects, if all of them are still what they were.
  unfoldable pub check_cache : ℕ → ℕ → ℕ → RuntimeCache → S → Option RuntimeCache
  check_cache module_base recruit_row team_row cache s =
      if (cache.module_base == module_base)
        && ((cache.recruit_row == recruit_row)
            && ((cache.team_row == team_row)
                && (validate_controller process layout module_base cache.controller s
                    && (validate_wrapper process layout module_base cache.recruit_wrapper
                          layout.recruit_table_id recruit_row s
                        && validate_wrapper process layout module_base cache.team_wrapper
                            layout.team_table_id team_row s))))
      then (elim (refresh_table process layout cache.targets s) [
        | none ↦ none
        | some targets ↦ elim (refresh_table process layout cache.pitches s) [
          | none ↦ none
          | some pitches ↦ elim (refresh_table process layout cache.membership s) [
            | none ↦ none
            | some membership ↦
                some
                  (record cache { targets = targets; pitches = pitches; membership = membership })
          ]
        ]
      ])
      else none

  unfoldable pub from_cache : ℕ → ℕ → ℕ → Option RuntimeCache → S → Option RuntimeCache
  from_cache module_base recruit_row team_row none s = none
  from_cache module_base recruit_row team_row (some cache) s =
      check_cache module_base recruit_row team_row cache s

  unfoldable pub locate : (S → List Hit) → ℕ → ℕ → ℕ → Option RuntimeCache → S → Located
  locate search module_base recruit_row team_row cache s =
      elim (from_cache module_base recruit_row team_row cache s) [
        | some runtime ↦ located runtime
        | none ↦
            locate_found module_base recruit_row team_row
              (add_hits process layout module_base recruit_row team_row (search s) nothing_found s)
      ]

  abbrev pub board_of : RuntimeCache → ℕ → S → BoardSnapshot
  board_of runtime row s =
      read_board process runtime.targets runtime.pitches runtime.membership layout row s

  -- The next free rows of the two tables, which an addition will take from the lists.
  unfoldable pub next_heads : RuntimeCache → S → Option (ℕ × ℕ)
  next_heads runtime s =
      if leb runtime.targets.spec.capacity runtime.targets.head
        || leb runtime.pitches.spec.capacity runtime.pitches.head
      then none
      else (elim (read32 process (row_address runtime.targets runtime.targets.head) s) [
        | none ↦ none
        | some target ↦ elim (read32 process (row_address runtime.pitches runtime.pitches.head) s) [
          | none ↦ none
          | some pitch ↦ some (target, pitch)
        ]
      ])

  -- The heads of the two free lists after the call.
  unfoldable pub new_heads : RuntimeCache → S → Option (ℕ × ℕ)
  new_heads runtime s = elim (read32 process (runtime.targets.header + 24) s) [
    | none ↦ none
    | some target ↦ elim (read32 process (runtime.pitches.header + 24) s) [
      | none ↦ none
      | some pitch ↦ some (target, pitch)
    ]
  ]

  unfoldable pub is_cleared : ℕ → S → Bool
  is_cleared address s = elim (read32 process address s) [ none ↦ false | some value ↦ value == 0 ]

  abbrev pub with_item : Result → BoardItem → Result
  with_item result item = record result {
    board_slot = item.slot;
    target_row = item.target_row;
    active_pitch_row = item.active_pitch_row;
  }

  -- Whether the board after an addition is the board before with the one new item at its end, made
  -- of the rows that were the first free ones.
  unfoldable pub is_added : RuntimeCache → ℕ → ℕ × ℕ → ℕ × ℕ → BoardSnapshot → BoardItem → Bool
  is_added runtime size_before next new after item =
      (length after.items == size_before + 1)
      && ((item.slot == size_before)
          && ((item.target_row == runtime.targets.head)
              && ((item.active_pitch_row == runtime.pitches.head)
                  && ((new.0 == next.0) && (new.1 == next.1)))))

  unfoldable pub finish_add : RuntimeCache → Result → ℕ → ℕ → ℕ × ℕ → ℕ × ℕ → BoardSnapshot → Result
  finish_add runtime result recruit_row size_before next new after =
      elim (matching after.items recruit_row) [
        | [] ↦ record result { status = postcondition_failed }
        | item ∷ others ↦
            if (length others == 0) && is_added runtime size_before next new after item
            then record (with_item result item) { status = applied }
            else record result { status = postcondition_failed }
      ]

  -- Whether the item is gone and its rows are back at the heads of the free lists.
  unfoldable pub is_removed : RuntimeCache → ℕ → ℕ → BoardItem → ℕ × ℕ → BoardSnapshot → S → Bool
  is_removed runtime recruit_row size_before removed new after s =
      (length after.items + 1 == size_before)
      && ((length (matching after.items recruit_row) == 0)
          && ((new.0 == removed.target_row)
              && (not (removed.active_pitch_row == uint32_max)
                  && ((new.1 == removed.active_pitch_row)
                      && (is_cleared (row_address runtime.targets removed.target_row + 12) s
                          && is_cleared (row_address runtime.targets removed.target_row + 16) s)))))

  unfoldable pub finish_remove :
      RuntimeCache → Result → ℕ → ℕ → BoardItem → ℕ × ℕ → BoardSnapshot → S → Result
  finish_remove runtime result recruit_row size_before removed new after s =
      if is_removed runtime recruit_row size_before removed new after s
      then record (with_item result removed) { status = applied }
      else record result { status = postcondition_failed }

  -- The game's function, and what the caller makes of the heads and the board after it.
  unfoldable pub call_game :
      ℕ → RuntimeCache → Result → ℕ → (Result → ℕ × ℕ → BoardSnapshot → S → Result) → S → Result × S
  call_game function runtime result row finish s =
      let called =
        NativeCall.invoke process function
          (word runtime.controller ∷ cell runtime.team_wrapper ∷ cell runtime.recruit_wrapper ∷ [])
          s in
      let s' = called.1 in
      let result' = record result {
        call_value = called.0.value;
        fault_code = called.0.fault_code;
      } in
      elim called.0.status [
        | NativeCall.Status.ok ↦ elim (new_heads runtime s') [
          | none ↦ (record result' { status = postcondition_failed }, s')
          | some new ↦
              let after = board_of runtime row s' in
              if after.valid
              then (finish result' new after s', s')
              else (record result' { status = postcondition_failed }, s')
        ]
        | _ ↦ (record result' { status = native_call_failed }, s')
      ]

  unfoldable pub invoke_add : RuntimeCache → Result → ℕ → ℕ → List BoardItem → ℕ → S → Result × S
  invoke_add runtime result recruit_row row [] size_before s =
      if leb board_slots size_before
      then (record result { status = board_full }, s)
      else (elim (next_heads runtime s) [
        | none ↦ (record result { status = board_state_invalid }, s)
        | some next ↦
            call_game ((runtime.module_base + layout.full_add_rva) % 2 ^ 64) runtime result row
              (λ r new after s'. finish_add runtime r recruit_row size_before next new after) s
      ])
  invoke_add runtime result recruit_row row (item ∷ items) size_before s =
      (record (with_item result item) { status = unchanged }, s)

  unfoldable pub invoke_remove : RuntimeCache → Result → ℕ → ℕ → List BoardItem → ℕ → S → Result × S
  invoke_remove runtime result recruit_row row [] size_before s =
      (record result { status = unchanged }, s)
  invoke_remove runtime result recruit_row row (item ∷ items) size_before s =
      call_game ((runtime.module_base + layout.full_remove_rva) % 2 ^ 64) runtime result row
        (λ r new after s'. finish_remove runtime r recruit_row size_before item new after s') s

  unfoldable pub dispatch :
      Operation → RuntimeCache → Result → ℕ → ℕ → List BoardItem → ℕ → S → Result × S
  dispatch add = invoke_add
  dispatch remove = invoke_remove

  -- From the located objects on.
  unfoldable pub invoke_located : Operation → ℕ → RuntimeCache → Result → S → Result × S
  invoke_located operation recruit_row runtime result s =
      elim (read64 process (runtime.controller + 8) s) [
        | none ↦ (record result { status = board_state_invalid }, s)
        | some row ↦
            if leb membership_capacity row
            then (record result { status = board_state_invalid }, s)
            else (let before = board_of runtime row s in
                let matches = matching before.items recruit_row in
                let result' = record result { membership_row = row } in
                if not before.valid || ltb 1 (length matches)
                then (record result' { status = board_state_invalid }, s)
                else dispatch operation runtime result' recruit_row row matches
                    (length before.items) s)
      ]

  -- The objects, the result and the state, with the cache for the next call.
  unfoldable pub invoke :
      (S → List Hit)
      → Operation
      → ℕ
      → ℕ
      → Option RuntimeCache
      → S
      → Option RuntimeCache × Result × S
  invoke search operation recruit_row team_row cache s =
      let result = base_result operation recruit_row team_row in
      let module_base = process.module_handle s in
      if ltb reference_row_mask recruit_row || ltb reference_row_mask team_row
      then (cache, record result { status = invalid_argument }, s)
      else (if module_base == 0
          then (cache, record result { status = recruiting_not_loaded }, s)
          else (elim (locate search module_base recruit_row team_row cache s) [
            | failed status ↦ (none, record result { status = status }, s)
            | located runtime ↦
                (let (r, s') = invoke_located operation recruit_row runtime result s in
                  (some runtime, r, s'))
          ]))
