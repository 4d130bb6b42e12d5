-- ===== src/Telemetry/Sound.antt =====
-- What `ValidateValue` of native/host/telemetry.cpp accepts.
use cfb27_lua_hook.Prelude.{
  ℕ, ◌+◌, ◌≤◌, ◌≡◌, inl, inr, Bool, true, false, arith, ltb, Bool-cases, sum-cases, length,
}
use cfb27_lua_hook.Telemetry.{
  Json, scalar, number_float, string, array, object, other, Items, no_items, item, Members,
  no_members, member, items_size, members_size, max_depth, max_object_keys, max_array_entries,
  max_string_bytes, max_serialized_bytes, is_forbidden_key, add_serialized_bytes, add_dumped,
  validate_value, validate_items, validate_members,
}
use cfb27_lua_hook.Telemetry.Legal.{
  text_size, items_text, members_text, IsLegal, AreLegalItems, AreLegalMembers, add_sound,
  dumped_sound, separators,
}

-- What is accepted is legal, and the total grows by the size of its text.
mutual
  unfolding validate_value text_size IsLegal

  pub sound :
      (v : Json) (depth total total' : ℕ)
      → total ≤ max_serialized_bytes
      → validate_value v depth total ≡ inr total'
      → IsLegal depth v × (total' ≡ total + text_size v) × (total' ≤ max_serialized_bytes)
  sound (scalar n) depth total total' le h =
      let (sum, small) = add_sound n total total' le h in (tt, sum, small)
  sound (number_float n finite) depth total total' le h = elim (Bool-cases finite) [
    | inr infinite ↦ absurd (ground arith)
    | inl fin ↦
        let (sum, small) = add_sound n total total' le (ground (arith, fin)) in (fin, sum, small)
  ]
  sound (string n bytes) depth total total' le h =
      elim (Bool-cases (ltb max_string_bytes (length bytes))) [
        | inl long ↦ absurd (ground arith)
        | inr short ↦
            let (printed, sum, small) = dumped_sound n 0 total total' le (ground (arith, short)) in
            ((ground arith, printed), omega (arith, sum), small)
      ]
  sound (array items) depth total total' le h = elim (Bool-cases (ltb max_depth depth)) [
    | inl deep ↦ absurd (ground arith)
    | inr shallow ↦ elim (Bool-cases (ltb max_array_entries (items_size items))) [
      | inl many ↦ absurd (ground arith)
      | inr few ↦ elim (sum-cases (add_serialized_bytes 2 total)) [
        | inl (e, full) ↦ absurd (ground arith)
        | inr (total1, added) ↦
            let (sum, small) = add_sound 2 total total1 le added in
            let (legal, sum', small') =
              sound_items true items (depth + 1) total1 total' small
                (ground (arith, shallow, few, added)) in
            ((ground arith, ground arith, legal), omega (arith, sum, sum'), small')
      ]
    ]
  ]
  sound (object members) depth total total' le h = elim (Bool-cases (ltb max_depth depth)) [
    | inl deep ↦ absurd (ground arith)
    | inr shallow ↦ elim (Bool-cases (ltb max_object_keys (members_size members))) [
      | inl many ↦ absurd (ground arith)
      | inr few ↦ elim (sum-cases (add_serialized_bytes 2 total)) [
        | inl (e, full) ↦ absurd (ground arith)
        | inr (total1, added) ↦
            let (sum, small) = add_sound 2 total total1 le added in
            let (legal, sum', small') =
              sound_members true members (depth + 1) total1 total' small
                (ground (arith, shallow, few, added)) in
            ((ground arith, ground arith, legal), omega (arith, sum, sum'), small')
      ]
    ]
  ]
  sound other depth total total' le h = absurd (ground arith)

  sound_items :
      (first : Bool) (items : Items) (depth total total' : ℕ)
      → total ≤ max_serialized_bytes
      → validate_items first items depth total ≡ inr total'
      → AreLegalItems depth items
        × (total' ≡ total + items_text items + separators first (items_size items))
        × (total' ≤ max_serialized_bytes)
  sound_items true no_items depth total total' le h = (tt, ground arith, ground arith)
  sound_items false no_items depth total total' le h = (tt, ground arith, ground arith)
  sound_items true (item v vs) depth total total' le h =
      elim (sum-cases (validate_value v depth total)) [
        | inl (e, bad) ↦ absurd (ground arith)
        | inr (total1, good) ↦
            let (legal, sum, small) = sound v depth total total1 le good in
            let (legal', sum', small') =
              sound_items false vs depth total1 total' small (ground (arith, good)) in
            ((legal, legal'), omega (arith, sum, sum'), small')
      ]
  sound_items false (item v vs) depth total total' le h =
      elim (sum-cases (add_serialized_bytes 1 total)) [
        | inl (e, full) ↦ absurd (ground arith)
        | inr (total1, added) ↦ elim (sum-cases (validate_value v depth total1)) [
          | inl (e, bad) ↦ absurd (ground arith)
          | inr (total2, good) ↦
              let (comma, room) = add_sound 1 total total1 le added in
              let (legal, sum, small) = sound v depth total1 total2 room good in
              let (legal', sum', small') =
                sound_items false vs depth total2 total' small (ground (arith, added, good)) in
              ((legal, legal'), omega (arith, comma, sum, sum'), small')
        ]
      ]

  sound_members :
      (first : Bool) (members : Members) (depth total total' : ℕ)
      → total ≤ max_serialized_bytes
      → validate_members first members depth total ≡ inr total'
      → AreLegalMembers depth members
        × (total' ≡ total + members_text members + separators first (members_size members))
        × (total' ≤ max_serialized_bytes)
  sound_members true no_members depth total total' le h = (tt, ground arith, ground arith)
  sound_members false no_members depth total total' le h = (tt, ground arith, ground arith)
  sound_members true (member n key v vs) depth total total' le h =
      elim (Bool-cases (ltb max_string_bytes (length key))) [
        | inl long ↦ absurd (ground arith)
        | inr short ↦ elim (Bool-cases (is_forbidden_key key)) [
          | inl forbidden ↦ absurd (ground arith)
          | inr allowed ↦ elim (sum-cases (add_dumped n 1 total)) [
            | inl (e, full) ↦ absurd (ground arith)
            | inr (total1, added) ↦ elim (sum-cases (validate_value v depth total1)) [
              | inl (e, bad) ↦ absurd (ground arith)
              | inr (total2, good) ↦
                  let (printed, name, room) = dumped_sound n 1 total total1 le added in
                  let (legal, sum, small) = sound v depth total1 total2 room good in
                  let (legal', sum', small') =
                    sound_members false vs depth total2 total' small
                      (ground (arith, short, allowed, added, good)) in
                  (
                    (ground arith, allowed, printed, legal, legal'),
                    omega (arith, name, sum, sum'),
                    small',
                  )
            ]
          ]
        ]
      ]
  sound_members false (member n key v vs) depth total total' le h =
      elim (Bool-cases (ltb max_string_bytes (length key))) [
        | inl long ↦ absurd (ground arith)
        | inr short ↦ elim (Bool-cases (is_forbidden_key key)) [
          | inl forbidden ↦ absurd (ground arith)
          | inr allowed ↦ elim (sum-cases (add_dumped n 2 total)) [
            | inl (e, full) ↦ absurd (ground arith)
            | inr (total1, added) ↦ elim (sum-cases (validate_value v depth total1)) [
              | inl (e, bad) ↦ absurd (ground arith)
              | inr (total2, good) ↦
                  let (printed, name, room) = dumped_sound n 2 total total1 le added in
                  let (legal, sum, small) = sound v depth total1 total2 room good in
                  let (legal', sum', small') =
                    sound_members false vs depth total2 total' small
                      (ground (arith, short, allowed, added, good)) in
                  (
                    (ground arith, allowed, printed, legal, legal'),
                    omega (arith, name, sum, sum'),
                    small',
                  )
            ]
          ]
        ]
      ]
