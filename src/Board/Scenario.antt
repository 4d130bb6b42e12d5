-- ===== src/Board/Scenario.antt =====
-- An addition to an empty board through `Invoke` of native/host/board_mutation.cpp, on a cache that is
-- still good. The state tells whether the game's function has run.
use cfb27_lua_hook.Prelude.{
  ℕ, zero, suc, ◌+◌, ◌*◌, ◌/◌, ◌%◌, ◌^◌, ◌<◌, ◌≡◌, refl, ◌⊎◌, Bool, true, false, ◌&&◌, Option, none,
  some, List, [], ◌∷◌, ltb, leb, ◌==◌, if◌then◌else◌,
}
use cfb27_lua_hook.NativeCall.{
  Process, returned, is_executable_page, is_executable_address, guarded_result,
}
use cfb27_lua_hook.NativeCall
use cfb27_lua_hook.Board.{
  add, applied, BoardLayout, TableSpec, TableView, RuntimeCache, Result, user_target, active_pitch,
  membership_table, membership_capacity, base_result,
}
use cfb27_lua_hook.Board.Memory.{
  readable_protection, readable_page, walk, readable_range, read_value, word_value, read64,
}
use cfb27_lua_hook.Board.Tables.{
  table_signature, validate_controller, validate_wrapper, refresh_table, descriptor_table_id,
}
use cfb27_lua_hook.Board.Snapshot.{matching, read_board, read_slots, read_item, pitch_row}
use cfb27_lua_hook.Board.Invoke.{
  board_of, invoke, locate, from_cache, check_cache, invoke_located, dispatch, invoke_add,
  call_game, next_heads, new_heads, finish_add, is_added,
}
use cfb27_lua_hook.Board.Applied.{Changed, invoke-applied}
use cfb27_lua_hook.Board.Effects.{MayHaveCalled, invoke-keeps_state}

abbrev bytes : ℕ → ℕ → List ℕ
bytes zero v = []
bytes (suc n) v = v % 256 ∷ bytes n (v / 256)

abbrev lookup : List (ℕ × ℕ) → ℕ → ℕ
lookup [] a = 0
lookup ((b, v) ∷ rest) a = if a == b then v else lookup rest a

-- A reference to a row of a table.
abbrev reference : ℕ → ℕ → ℕ
reference table row = table * 2 ^ 17 + row

abbrev objects : List (ℕ × ℕ)
objects =
    (5000, 4128)
    ∷ (5008, 3)
    ∷ (5016, 6000)
    ∷ (6040, 4400 * 2 ^ 32)
    ∷ (5312, 7000)
    ∷ (5400, 4112)
    ∷ (5416, 6100)
    ∷ (5424, 9)
    ∷ (6140, 4200 * 2 ^ 32)
    ∷ (5500, 4112)
    ∷ (5516, 6200)
    ∷ (5524, 5)
    ∷ (6240, 4300 * 2 ^ 32)
    ∷ (20000, table_signature user_target)
    ∷ (70000, table_signature active_pitch)
    ∷ (150000, table_signature membership_table)
    ∷ []

abbrev word_at : Bool → ℕ → ℕ
word_at false = lookup ((20120, 1) ∷ (89348, 1) ∷ objects)
word_at true = lookup (
    (20024, 1)
    ∷ (70024, 1)
    ∷ (20132, reference 4200 9)
    ∷ (20136, reference 5790 0)
    ∷ (151000, reference 4168 0)
    ∷ objects)

-- One page that may be read, written and executed; the game's function adds the recruit.
abbrev game : Process Bool
game = record {
  query = λ a s.
      if leb 4096 a && ltb a 266240
      then some
          (record { base = 4096; size = 262144; is_commit = true; is_private = true; protect = 64 })
      else none;
  copy = λ a n s. some (bytes n (word_at s a));
  module_handle = λ s. 4096;
  dispatch = λ a args s. (returned 1, true);
}

abbrev layout : BoardLayout
layout = record {
  generic_record_wrapper_vtable_rva = 16;
  recruiting_controller_vtable_rva = 32;
  full_add_rva = 48;
  full_remove_rva = 64;
  recruit_table_id = 4200;
  team_table_id = 4300;
  controller_descriptor_table_id = 4400;
  user_target_table_id = 4168;
  active_pitch_table_id = 5790;
  membership_table_id = 5847;
}

abbrev view : TableSpec → ℕ → TableView
view spec header = record {
  spec = spec;
  header = header;
  rows = header + spec.data_offset;
  head = 0;
  score = 1;
}

abbrev cache : RuntimeCache
cache = record {
  module_base = 4096;
  recruit_row = 9;
  team_row = 5;
  controller = 5000;
  recruit_wrapper = 5400;
  team_wrapper = 5500;
  targets = view user_target 20000;
  pitches = view active_pitch 70000;
  membership = view membership_table 150000;
}

abbrev addition : Option RuntimeCache × Result × Bool
addition = invoke game layout (λ s. []) add 9 5 (some cache) false

controller_test : validate_controller game layout 4096 5000 false ≡ true
unfolding validate_controller read_value readable_range walk readable_page readable_protection
    word_value descriptor_table_id
controller_test = refl

refresh_test :
    refresh_table game layout (view membership_table 150000) false
    ≡ some (view membership_table 150000)
unfolding refresh_table read_value readable_range walk readable_page readable_protection word_value
refresh_test = refl

addition_test : addition.1.status ≡ applied
unfolding invoke locate from_cache check_cache validate_controller validate_wrapper
    descriptor_table_id refresh_table read_value readable_range walk readable_page
    readable_protection word_value invoke_located base_result read_board read_slots read_item
    pitch_row matching dispatch invoke_add next_heads call_game NativeCall.invoke
    is_executable_address is_executable_page guarded_result new_heads finish_add is_added
addition_test = refl

invoke-applied_example :
    (runtime : RuntimeCache) × (row : ℕ) × (addition.0 ≡ some runtime)
    × (read64 game (runtime.controller + 8) false ≡ some row)
    × (row < membership_capacity)
    × ((board_of game layout runtime row false).valid ≡ true)
    × ((board_of game layout runtime row addition.2).valid ≡ true)
    × Changed add 9
        (board_of game layout runtime row false).items
        (board_of game layout runtime row addition.2).items
invoke-applied_example =
    invoke-applied game layout (λ s. []) add 9 5 (some cache) false addition_test

invoke-keeps_state_example : MayHaveCalled addition.1.status ⊎ (addition.2 ≡ false)
invoke-keeps_state_example = invoke-keeps_state game layout (λ s. []) add 9 5 (some cache) false
