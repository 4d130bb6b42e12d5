-- ===== src/Board/Tables.antt =====
-- native/host/board_mutation.cpp: recognising the game's tables and objects in memory. The search
-- for byte patterns (`FindPatterns`) is not modelled; its hits are the input of `discover_runtime`.
pub mod Select
use Prim.Native.Nat.{min}
use cfb27_lua_hook.Prelude.{
  ℕ, zero, suc, ◌+◌, ◌-◌, ◌*◌, ◌/◌, ◌%◌, ◌^◌, Bool, true, false, ◌&&◌, ◌||◌, not, Option, none,
  some, List, [], ◌∷◌, ◌++◌, ltb, ◌==◌, if◌then◌else◌,
}
use cfb27_lua_hook.NativeCall.{Process}
use cfb27_lua_hook.Board.{
  BoardLayout, TableSpec, TableView, membership_capacity, user_target, active_pitch,
  membership_table,
}
use cfb27_lua_hook.Board.Memory.{read32, read64, read_value, readable_range}

abbrev pub reference_table : ℕ → ℕ
reference_table value = value / 2 ^ 17

abbrev pub reference_row : ℕ → ℕ
reference_row value = value % 2 ^ 17

-- The first sixteen bytes of a table as one little-endian number.
abbrev pub table_signature : TableSpec → ℕ
table_signature spec =
    spec.table1_length
    + 2 ^ 32 * (spec.table1_length + 2 ^ 32 * (spec.words + 2 ^ 32 * spec.capacity))

module _ {S : Type 0} (process : Process S) (layout : BoardLayout) where
  -- One row of the membership table: whether its references stand before its zeros, and how many
  -- were counted. `none` is a failed read.
  unfoldable pub score_membership_row : ℕ → ℕ → Bool → ℕ → S → Option (Bool × ℕ)
  score_membership_row zero address saw_zero content s = some (true, content)
  score_membership_row (suc slots) address saw_zero content s = elim (read32 process address s) [
    | none ↦ none
    | some reference ↦ elim (reference == 0) [
      | true ↦ score_membership_row slots (address + 4) true content s
      | false ↦ elim (saw_zero || (reference_table reference == 0)) [
        | true ↦ some (false, content)
        | false ↦ score_membership_row slots (address + 4) saw_zero (content + 1) s
      ]
    ]
  ]

  -- Whether the words of a record are zero, all of which must be readable.
  unfoldable pub rest_zero : ℕ → ℕ → Bool → S → Option Bool
  rest_zero zero address zeros s = some zeros
  rest_zero (suc words) address zeros s = elim (read32 process address s) [
    | none ↦ none
    | some value ↦ rest_zero words (address + 4) (zeros && (value == 0)) s
  ]

  -- What one record adds to the counts of free rows and of rows with content.
  unfoldable pub score_content : TableSpec → ℕ → ℕ → S → Option ℕ
  score_content spec address first s =
      if spec.id == 4168
      then (elim (read32 process (address + 12) s) [
        | none ↦ none
        | some recruit ↦ some (if reference_table recruit == layout.recruit_table_id then 1 else 0)
      ])
      else (if (spec.id == 5790) && (reference_table first == 4190) then some 1 else some 0)

  unfoldable pub score_row : TableSpec → ℕ → ℕ → S → Option (ℕ × ℕ)
  score_row spec row address s = elim (read32 process address s) [
    | none ↦ none
    | some first ↦
        if spec.id == 5847
        then (elim (score_membership_row spec.words address false 0 s) [
          | none ↦ none
          | some (structural, content) ↦ some (if structural then 1 else 0, content)
        ])
        else (elim (rest_zero (spec.stride / 4 - 1) (address + 4) true s) [
          | none ↦ none
          | some zeros ↦ elim (score_content spec address first s) [
            | none ↦ none
            | some content ↦ some (if (first == row + 1) && zeros then 1 else 0, content)
          ]
        ])
  ]

  unfoldable pub score_rows : TableSpec → ℕ → ℕ → ℕ → ℕ → ℕ → S → ℕ
  score_rows spec zero row address free content s = free + content * 8
  score_rows spec (suc rows) row address free content s = elim (score_row spec row address s) [
    | none ↦ 0
    | some (more_free, more_content) ↦
        score_rows spec rows (row + 1) (address + spec.stride) (free + more_free)
          (content + more_content) s
  ]

  unfoldable pub score_table : TableSpec → ℕ → S → ℕ
  score_table spec rows s =
      if readable_range process rows (spec.capacity * spec.stride) s
      then score_rows spec (min spec.capacity 512) 0 rows 0 0 s
      else 0

  -- A hit of the table's signature becomes a candidate, behind those that are there.
  unfoldable pub add_table_candidate : TableSpec → ℕ → List TableView → S → List TableView
  add_table_candidate spec header candidates s =
      let rows = (header + spec.data_offset) % 2 ^ 64 in
      let score = score_table spec rows s in
      if score == 0 then candidates else (elim (read32 process (header + 24) s) [
        | none ↦ candidates
        | some head ↦
            candidates
            ++ record { spec = spec; header = header; rows = rows; head = head; score = score } ∷ []
      ])

  unfoldable pub descriptor_table_id : ℕ → S → ℕ
  descriptor_table_id descriptor s = elim (read64 process (descriptor + 40) s) [
    | none ↦ 0
    | some encoded ↦ encoded / 2 ^ 32
  ]

  -- `ReadValue(address, value) && value` has the property.
  abbrev holds : Option ℕ → (ℕ → Bool) → Bool
  holds none test = false
  holds (some value) test = test value

  unfoldable pub validate_controller : ℕ → ℕ → S → Bool
  validate_controller module_base address s =
      holds (read64 process address s)
        (λ vtable. vtable == (module_base + layout.recruiting_controller_vtable_rva) % 2 ^ 64)
      && (holds (read64 process (address + 8) s) (λ row. ltb row membership_capacity)
          && (holds (read64 process (address + 16) s) (λ descriptor.
                descriptor_table_id descriptor s == layout.controller_descriptor_table_id)
              && holds (read64 process (address + 0x138) s)
                  (λ store. readable_range process store 8 s)))

  unfoldable pub validate_wrapper : ℕ → ℕ → ℕ → ℕ → S → Bool
  validate_wrapper module_base address table_id row s =
      holds (read64 process address s)
        (λ vtable. vtable == (module_base + layout.generic_record_wrapper_vtable_rva) % 2 ^ 64)
      && (holds (read64 process (address + 16) s)
            (λ descriptor. descriptor_table_id descriptor s == table_id)
          && holds (read64 process (address + 24) s) (λ captured. captured == row))

  -- The head of the free list read again, where the table still stands at its place.
  unfoldable pub refresh_table : TableView → S → Option TableView
  refresh_table view s =
      if readable_range process view.header 32 s
        && holds (read_value process 16 view.header s)
            (λ actual. actual == table_signature view.spec)
      then (elim (read32 process (view.header + 24) s) [
        | none ↦ none
        | some head ↦
            if readable_range process view.rows (view.spec.capacity * view.spec.stride) s
            then some (record view { head = head })
            else none
      ])
      else none

-- What the search has collected.
pub record Found : Type 0 where
  pub controllers : List ℕ
  pub recruit_wrappers : List ℕ
  pub team_wrappers : List ℕ
  pub targets : List TableView
  pub pitches : List TableView
  pub memberships : List TableView

-- A hit of `FindPatterns`: which of the five patterns, and where.
pub data Hit : Type 0 where
  controller_hit wrapper_hit target_hit pitch_hit membership_hit : ℕ → Hit

module _ {S : Type 0} (process : Process S) (layout : BoardLayout)
    (module_base recruit_row team_row : ℕ) where
  -- A wrapper of the recruit or of the team is kept.
  unfoldable pub add_wrapper : ℕ → ℕ → ℕ → Found → Found
  add_wrapper address row table_id found =
      let recruits =
        if (row == recruit_row) && (table_id == layout.recruit_table_id)
        then found.recruit_wrappers ++ address ∷ []
        else found.recruit_wrappers in
      let teams =
        if (row == team_row) && (table_id == layout.team_table_id)
        then found.team_wrappers ++ address ∷ []
        else found.team_wrappers in
      record found { recruit_wrappers = recruits; team_wrappers = teams }

  unfoldable pub add_hit : Hit → Found → S → Found
  add_hit (controller_hit address) found s =
      if not (address % 8 == 0) || not (validate_controller process layout module_base address s)
      then found
      else record found { controllers = found.controllers ++ address ∷ [] }
  add_hit (wrapper_hit address) found s =
      if not (address % 8 == 0) || not (readable_range process address 32 s)
      then found
      else (elim (read64 process (address + 16) s) [
        | none ↦ found
        | some descriptor ↦ elim (read64 process (address + 24) s) [
          | none ↦ found
          | some row ↦
              add_wrapper address row (descriptor_table_id process layout descriptor s) found
        ]
      ])
  add_hit (target_hit address) found s = record found {
    targets = add_table_candidate process layout user_target address found.targets s;
  }
  add_hit (pitch_hit address) found s = record found {
    pitches = add_table_candidate process layout active_pitch address found.pitches s;
  }
  add_hit (membership_hit address) found s = record found {
    memberships = add_table_candidate process layout membership_table address found.memberships s;
  }

  unfoldable pub add_hits : List Hit → Found → S → Found
  add_hits [] found s = found
  add_hits (hit ∷ hits) found s = add_hits hits (add_hit hit found s) s

abbrev pub nothing_found : Found
nothing_found = record {
  controllers = [];
  recruit_wrappers = [];
  team_wrappers = [];
  targets = [];
  pitches = [];
  memberships = [];
}
