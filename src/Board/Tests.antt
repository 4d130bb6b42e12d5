-- ===== src/Board/Tests.antt =====
-- A process of one readable page, and the board of one recruit that is read from it.
use cfb27_lua_hook.Prelude.{
  ℕ, ◌≤◌, ◌<◌, ◌≡◌, refl, subst, ◌↔◌, true, false, ◌&&◌, none, some, List, [], ◌∷◌, arith, ltb, leb,
  ◌==◌, if◌then◌else◌, length, All,
}
use cfb27_lua_hook.NativeCall.{Process, returned}
use cfb27_lua_hook.Board.{
  BoardLayout, TableSpec, TableView, BoardSnapshot, user_target, active_pitch, membership_table,
  board_slots,
}
use cfb27_lua_hook.Board.Memory.{
  readable_protection, readable_range, readable_page, Covered, readable_range-Covered,
  readable_range-accepts, walk, read_value, word_value,
}
use cfb27_lua_hook.Board.Tables.Select.{
  select_table, count_from, first_alone, sort_views, insert_view, select_table_iff,
}
use cfb27_lua_hook.Board.Snapshot.{
  read_board, read_slots, read_item, pitch_row, InSlots, read_board-InSlots,
}

-- The bytes of a word: the reference to a target in the first slot, that target's recruit, or zero.
abbrev word_at : ℕ → List ℕ
word_at a =
    if a == 5420
    then 2 ∷ 0 ∷ 144 ∷ 32 ∷ []
    else if a == 5084
    then 9 ∷ 0 ∷ 208 ∷ 32 ∷ []
    else 0 ∷ 0 ∷ 0 ∷ 0 ∷ []

-- One page of 8192 bytes from 4096 on that may be read and written.
abbrev one_page : Process Unit
one_page = record {
  query = λ a s.
      if leb 4096 a && ltb a 12288
      then some
          (record { base = 4096; size = 8192; is_commit = true; is_private = true; protect = 4 })
      else none;
  copy = λ a n s. some (word_at a);
  module_handle = λ s. 4096;
  dispatch = λ a args s. (returned 0, s);
}

abbrev layout : BoardLayout
layout = record {
  generic_record_wrapper_vtable_rva = 16;
  recruiting_controller_vtable_rva = 32;
  full_add_rva = 48;
  full_remove_rva = 64;
  recruit_table_id = 4200;
  team_table_id = 4300;
  controller_descriptor_table_id = 4400;
  user_target_table_id = 4168;
  active_pitch_table_id = 5790;
  membership_table_id = 5847;
}

abbrev view : TableSpec → ℕ → TableView
view spec score = record { spec = spec; header = 4096; rows = 5000; head = 0; score = score }

range_test : readable_range one_page 5000 4 tt ≡ true
unfolding readable_range walk readable_page readable_protection
range_test = refl

gap_test : readable_range one_page 12286 4 tt ≡ false
unfolding readable_range walk readable_page readable_protection
gap_test = refl

selection_test :
    select_table (view user_target 2 ∷ view user_target 5 ∷ []) ≡ some (view user_target 5)
unfolding select_table first_alone sort_views insert_view
selection_test = refl

select_table_iff_example :
    (select_table (view user_target 2 ∷ view user_target 5 ∷ []) ≡ some (view user_target 5)) ↔ (
      (count_from 5 (view user_target 2 ∷ view user_target 5 ∷ []) ≡ 1)
      × All
          (λ w. 5 ≤ w.score → w ≡ view user_target 5)
          (view user_target 2 ∷ view user_target 5 ∷ []))
select_table_iff_example =
    select_table_iff (view user_target 2 ∷ view user_target 5 ∷ []) (view user_target 5)

readable_range-Covered_example :
    (0 < 4) × (5004 ≤ 0xFFFFFFFFFFFFFFFF) × Covered one_page 5000 5004 tt
readable_range-Covered_example = readable_range-Covered one_page 5000 4 tt range_test

first_byte-readable :
    (x : ℕ) → 12287 ≤ x → x < 12288 → (e : ℕ) × (readable_page one_page x tt ≡ some e)
unfolding readable_page readable_protection
first_byte-readable x lo hi =
    let at : 12287 ≡ x = omega arith in
    subst (λ y. (e : ℕ) × (readable_page one_page y tt ≡ some e)) at (12288, refl)

readable_range-accepts_example : readable_range one_page 12287 1 tt ≡ true
readable_range-accepts_example =
    readable_range-accepts one_page 12287 1 tt (omega arith) (omega arith) (omega arith)
      first_byte-readable

abbrev board : BoardSnapshot
board =
    read_board one_page (view user_target 1) (view active_pitch 1) (view membership_table 1) layout
      3 tt

board_test : board.valid ≡ true
unfolding read_board read_slots read_item pitch_row read_value word_value readable_range walk
    readable_page readable_protection
board_test = refl

read_board-InSlots_example :
    InSlots one_page
      (view user_target 1)
      (view active_pitch 1)
      (view membership_table 1)
      layout
      0
      board.items
    × (length board.items ≤ board_slots)
read_board-InSlots_example =
    read_board-InSlots one_page (view user_target 1) (view active_pitch 1) (view membership_table 1)
      layout 3 tt board_test
