-- ===== src/Board.antt =====
-- native/host/board_mutation.h and board_mutation.cpp: adding a recruit to the recruiting board and
-- removing one, by calls of the game's own functions between a check before and a check after.
pub mod Memory
pub mod Tables
pub mod Snapshot
pub mod Invoke
pub mod Effects
pub mod Applied
mod Tests
mod Scenario
use cfb27_lua_hook.Prelude.{ℕ, String, Bool, List}

pub data Operation : Type 0 where
  add remove : Operation

pub data Status : Type 0 where
  applied unchanged invalid_argument recruiting_not_loaded runtime_ambiguous
        table_discovery_failed :
      Status
  board_state_invalid board_full native_call_failed postcondition_failed : Status

-- `BoardLayout` of native/host/game_builds.h.
pub record BoardLayout : Type 0 where
  pub generic_record_wrapper_vtable_rva : ℕ
  pub recruiting_controller_vtable_rva : ℕ
  pub full_add_rva : ℕ
  pub full_remove_rva : ℕ
  pub recruit_table_id : ℕ
  pub team_table_id : ℕ
  pub controller_descriptor_table_id : ℕ
  pub user_target_table_id : ℕ
  pub active_pitch_table_id : ℕ
  pub membership_table_id : ℕ

pub record Result : Type 0 where
  pub status : Status
  pub operation : Operation
  pub recruit_row : ℕ
  pub team_row : ℕ
  pub membership_row : ℕ
  pub board_slot : ℕ
  pub target_row : ℕ
  pub active_pitch_row : ℕ
  pub call_value : ℕ
  pub fault_code : ℕ

abbrev pub uint32_max : ℕ
uint32_max = 0xFFFFFFFF

abbrev pub membership_capacity : ℕ
membership_capacity = 138

abbrev pub board_slots : ℕ
board_slots = 35

abbrev pub reference_row_mask : ℕ
reference_row_mask = 0x1FFFF

pub record TableSpec : Type 0 where
  pub id : ℕ
  pub table1_length : ℕ
  pub words : ℕ
  pub capacity : ℕ
  pub stride : ℕ
  pub data_offset : ℕ

-- `data` of the source is `rows` here.
pub record TableView : Type 0 where
  pub spec : TableSpec
  pub header : ℕ
  pub rows : ℕ
  pub head : ℕ
  pub score : ℕ

pub record RuntimeCache : Type 0 where
  pub module_base : ℕ
  pub recruit_row : ℕ
  pub team_row : ℕ
  pub controller : ℕ
  pub recruit_wrapper : ℕ
  pub team_wrapper : ℕ
  pub targets : TableView
  pub pitches : TableView
  pub membership : TableView

pub record BoardItem : Type 0 where
  pub slot : ℕ
  pub target_row : ℕ
  pub recruit_row : ℕ
  pub active_pitch_row : ℕ

pub record BoardSnapshot : Type 0 where
  pub valid : Bool
  pub compact : Bool
  pub membership_row : ℕ
  pub items : List BoardItem

abbrev pub user_target : TableSpec
user_target = record {
  id = 4168;
  table1_length = 40444;
  words = 9;
  capacity = 1120;
  stride = 36;
  data_offset = 120;
}

abbrev pub active_pitch : TableSpec
active_pitch = record {
  id = 5790;
  table1_length = 77312;
  words = 3;
  capacity = 4830;
  stride = 12;
  data_offset = 19348;
}

abbrev pub membership_table : TableSpec
membership_table = record {
  id = 5847;
  table1_length = 19904;
  words = 35;
  capacity = 138;
  stride = 140;
  data_offset = 580;
}

-- The wire names of the outcomes.
unfoldable pub status_code : Status → String
status_code applied = "APPLIED"
status_code unchanged = "UNCHANGED"
status_code invalid_argument = "INVALID_ARGUMENT"
status_code recruiting_not_loaded = "RECRUITING_NOT_LOADED"
status_code runtime_ambiguous = "RUNTIME_DISCOVERY_AMBIGUOUS"
status_code table_discovery_failed = "BOARD_TABLE_DISCOVERY_FAILED"
status_code board_state_invalid = "BOARD_STATE_INVALID"
status_code board_full = "BOARD_FULL"
status_code native_call_failed = "BOARD_NATIVE_CALL_FAILED"
status_code postcondition_failed = "BOARD_POSTCONDITION_FAILED"

unfoldable pub base_result : Operation → ℕ → ℕ → Result
base_result operation recruit_row team_row = record {
  status = invalid_argument;
  operation = operation;
  recruit_row = recruit_row;
  team_row = team_row;
  membership_row = 0;
  board_slot = uint32_max;
  target_row = uint32_max;
  active_pitch_row = uint32_max;
  call_value = 0;
  fault_code = 0;
}
