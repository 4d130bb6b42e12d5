-- ===== src/Board/Snapshot.antt =====
-- `ReadBoard` and `Matching` of native/host/board_mutation.cpp: the board of a team, read through the
-- references of its membership row.
use cfb27_lua_hook.Prelude.{
  ℕ, zero, suc, ◌+◌, ◌*◌, ◌≤◌, ◌<◌, ◌≡◌, refl, inl, inr, Bool, true, false, ◌&&◌, ◌||◌, not, Option,
  none, some, List, [], ◌∷◌, ◌++◌, arith, leb, ◌==◌, if◌then◌else◌, Bool-cases, Option-cases,
  and-true, length, length-append,
}
use cfb27_lua_hook.NativeCall.{Process}
use cfb27_lua_hook.Board.{BoardLayout, TableView, BoardItem, BoardSnapshot, board_slots, uint32_max}
use cfb27_lua_hook.Board.Memory.{read32}
use cfb27_lua_hook.Board.Tables.{reference_table, reference_row}

unfoldable pub matching : List BoardItem → ℕ → List BoardItem
matching [] recruit_row = []
matching (item ∷ items) recruit_row =
    if item.recruit_row == recruit_row
    then item ∷ matching items recruit_row
    else matching items recruit_row

module _ {S : Type 0} (process : Process S) (targets pitches membership : TableView)
    (layout : BoardLayout) where
  -- The row of a reference to an active pitch; no reference is allowed, a wrong one is not.
  unfoldable pub pitch_row : ℕ → Option ℕ
  pitch_row reference =
      if reference == 0
      then some uint32_max
      else if not (reference_table reference == layout.active_pitch_table_id)
          || leb pitches.spec.capacity (reference_row reference)
      then none
      else some (reference_row reference)

  -- The item behind a reference of the membership row; `none` where the source returns.
  unfoldable pub read_item : ℕ → ℕ → S → Option BoardItem
  read_item slot reference s =
      let target_row = reference_row reference in
      let target_address = targets.rows + target_row * targets.spec.stride in
      if not (reference_table reference == layout.user_target_table_id)
        || leb targets.spec.capacity target_row
      then none
      else (elim (read32 process (target_address + 12) s) [
        | none ↦ none
        | some recruit ↦ elim (read32 process (target_address + 16) s) [
          | none ↦ none
          | some pitch ↦
              if not (reference_table recruit == layout.recruit_table_id)
              then none
              else (elim (pitch_row pitch) [
                | none ↦ none
                | some active_pitch_row ↦ some (record {
                  slot = slot;
                  target_row = target_row;
                  recruit_row = reference_row recruit;
                  active_pitch_row = active_pitch_row;
                })
              ])
        ]
      ])

  abbrev pub snapshot : Bool → Bool → ℕ → List BoardItem → BoardSnapshot
  snapshot valid compact row items = record {
    valid = valid;
    compact = compact;
    membership_row = row;
    items = items;
  }

  -- The slots from `slot` on, as many as `rounds`.
  unfoldable pub read_slots : ℕ → ℕ → ℕ → ℕ → Bool → Bool → List BoardItem → S → BoardSnapshot
  read_slots zero slot row address saw_zero compact items s = snapshot compact compact row items
  read_slots (suc rounds) slot row address saw_zero compact items s =
      let compact' = compact && not saw_zero in
      elim (read32 process (address + slot * 4) s) [
        | none ↦ snapshot false compact row items
        | some reference ↦ elim (reference == 0) [
          | true ↦ read_slots rounds (slot + 1) row address true compact items s
          | false ↦ elim (read_item slot reference s) [
            | none ↦ snapshot false compact' row items
            | some item ↦
                read_slots rounds (slot + 1) row address saw_zero compact' (items ++ item ∷ []) s
          ]
        ]
      ]

  unfoldable pub read_board : ℕ → S → BoardSnapshot
  read_board row s =
      if leb membership.spec.capacity row
      then snapshot false false row []
      else read_slots board_slots 0 row (membership.rows + row * membership.spec.stride) false true
          [] s

  -- The items stand in the slots from `i` on, without a gap, and their rows exist.
  abbrev pub InSlots : ℕ → List BoardItem → Type 0
  InSlots i [] = Unit {0}
  InSlots i (item ∷ items) =
      (item.slot ≡ i) × (item.target_row < targets.spec.capacity) × InSlots (i + 1) items

  InSlots-append :
      (i : ℕ) (items : List BoardItem) (item : BoardItem)
      → InSlots i items
      → item.slot ≡ i + length items
      → item.target_row < targets.spec.capacity
      → InSlots i (items ++ item ∷ [])
  InSlots-append i [] item h e t = (omega arith, t, tt)
  InSlots-append i (x ∷ xs) item h e t =
      (h.0, h.1, InSlots-append (i + 1) xs item h.2 (omega arith) t)

  read_item-slot :
      (slot reference : ℕ) (s : S) (item : BoardItem)
      → read_item slot reference s ≡ some item
      → (item.slot ≡ slot) × (item.target_row < targets.spec.capacity)
  unfolding read_item
  read_item-slot slot reference s item h = ground arith

  read_slots-InSlots :
      (rounds slot row address : ℕ) (saw_zero compact : Bool) (items : List BoardItem) (s : S)
      → (compact ≡ true
          → InSlots 0 items × (length items ≤ slot) × (saw_zero ≡ false → length items ≡ slot))
      → let board = read_slots rounds slot row address saw_zero compact items s in
        board.valid ≡ true → InSlots 0 board.items × (length board.items ≤ slot + rounds)
  unfolding read_slots
  read_slots-InSlots zero slot row address saw_zero compact items s inv =
      λ v. let k = inv v in (k.0, omega arith)
  read_slots-InSlots (suc rounds) slot row address saw_zero compact items s inv =
      elim (Option-cases (read32 process (address + slot * 4) s)) [
        | inl unread ↦ rw (unread, read_slots) (λ v. cc)
        | inr (reference, got) ↦ elim (Bool-cases (reference == 0)) [
          | inl empty ↦
              rw (got, read_slots, empty)
                λ v.
                  let k =
                    read_slots-InSlots rounds (slot + 1) row address true compact items s
                      (λ c. ((inv c).0, omega (arith, (inv c).1), λ e. cc)) v in
                  (k.0, omega (arith, k.1))
          | inr filled ↦ elim (Option-cases (read_item slot reference s)) [
            | inl wrong ↦ rw (got, read_slots, filled, wrong) (λ v. cc)
            | inr (item, found) ↦
                rw (got, read_slots, filled, found)
                  λ v.
                    let k =
                      read_slots-InSlots rounds (slot + 1) row address saw_zero
                        (compact && not saw_zero) (items ++ item ∷ []) s (next item reference found)
                        v in
                    (k.0, omega (arith, k.1))
          ]
        ]
      ]
    where
      next :
          (item : BoardItem) (reference : ℕ)
          → read_item slot reference s ≡ some item
          → (compact && not saw_zero) ≡ true
          → InSlots 0 (items ++ item ∷ [])
            × (length (items ++ item ∷ []) ≤ slot + 1)
            × (saw_zero ≡ false → length (items ++ item ∷ []) ≡ slot + 1)
      next item reference found both =
          let (c, z) = and-true compact (not saw_zero) both in
          let k = inv c in
          let open_end : saw_zero ≡ false = ground arith in
          let at = k.2 open_end in
          let it = read_item-slot slot reference s item found in
          (
            InSlots-append 0 items item k.0 (omega (arith, it.0, at)) it.1,
            omega (arith, length-append items (item ∷ []), at),
            λ _. omega (arith, length-append items (item ∷ []), at),
          )

  -- A board that is read as valid has its items in the slots 0, 1, 2 and on without a gap, at most 35
  -- of them, each pointing at a row that its table has.
  pub read_board-InSlots :
      (row : ℕ) (s : S)
      → (read_board row s).valid ≡ true
      → InSlots 0 (read_board row s).items × (length (read_board row s).items ≤ board_slots)
  unfolding read_board
  read_board-InSlots row s = elim (Bool-cases (leb membership.spec.capacity row)) [
    | inl outside ↦ rw outside (λ v. cc)
    | inr inside ↦ rw inside (
        read_slots-InSlots board_slots 0 row (membership.rows + row * membership.spec.stride) false
          true [] s (λ _. (tt, omega arith, λ _. refl)))
  ]
