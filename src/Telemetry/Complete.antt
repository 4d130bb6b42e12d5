-- ===== src/Telemetry/Complete.antt =====
-- What `ValidateValue` of native/host/telemetry.cpp has to accept.
use cfb27_lua_hook.Prelude.{ℕ, ◌+◌, ◌≤◌, ◌≡◌, ap, inr, Bool, true, false, arith, ltb, length}
use cfb27_lua_hook.Telemetry.{
  Json, scalar, number_float, string, array, object, other, Items, no_items, item, Members,
  no_members, member, items_size, members_size, max_depth, max_object_keys, max_array_entries,
  max_string_bytes, max_serialized_bytes, validate_value, validate_items, validate_members,
}
use cfb27_lua_hook.Telemetry.Legal.{
  printed_size, text_size, items_text, members_text, IsLegal, AreLegalItems, AreLegalMembers,
  add_complete, dumped_complete, separators,
}

-- What is legal is accepted where there is room for its text.
mutual
  unfolding validate_value text_size IsLegal

  pub complete :
      (v : Json) (depth total : ℕ)
      → IsLegal depth v
      → total + text_size v ≤ max_serialized_bytes
      → validate_value v depth total ≡ inr (total + text_size v)
  complete (scalar n) depth total legal room = add_complete n total room
  complete (number_float n finite) depth total legal room =
      ground (arith, legal, add_complete n total room)
  complete (string n bytes) depth total (short, printed) room =
      let fits : ltb max_string_bytes (length bytes) ≡ false = ground arith in
      ground (arith, fits, dumped_complete n 0 total printed (omega arith))
  complete (array items) depth total (shallow, few, legal) room =
      let deep : ltb max_depth depth ≡ false = ground arith in
      let many : ltb max_array_entries (items_size items) ≡ false = ground arith in
      let added = add_complete 2 total (omega arith) in
      let rest = complete_items true items (depth + 1) (total + 2) legal (omega arith) in
      ground (arith, deep, many, added, rest)
  complete (object members) depth total (shallow, few, legal) room =
      let deep : ltb max_depth depth ≡ false = ground arith in
      let many : ltb max_object_keys (members_size members) ≡ false = ground arith in
      let added = add_complete 2 total (omega arith) in
      let rest = complete_members true members (depth + 1) (total + 2) legal (omega arith) in
      ground (arith, deep, many, added, rest)
  complete other depth total legal room = absurd legal

  complete_items :
      (first : Bool) (items : Items) (depth total : ℕ)
      → AreLegalItems depth items
      → total + items_text items + separators first (items_size items) ≤ max_serialized_bytes
      → validate_items first items depth total
        ≡ inr (total + items_text items + separators first (items_size items))
  complete_items true no_items depth total legal room = ap inr (omega arith)
  complete_items false no_items depth total legal room = ap inr (omega arith)
  complete_items true (item v vs) depth total (legal, legal') room =
      let here = complete v depth total legal (omega arith) in
      let rest = complete_items false vs depth (total + text_size v) legal' (omega arith) in
      ground (arith, here, rest)
  complete_items false (item v vs) depth total (legal, legal') room =
      let comma = add_complete 1 total (omega arith) in
      let here = complete v depth (total + 1) legal (omega arith) in
      let rest = complete_items false vs depth (total + 1 + text_size v) legal' (omega arith) in
      ground (arith, comma, here, rest)

  complete_members :
      (first : Bool) (members : Members) (depth total : ℕ)
      → AreLegalMembers depth members
      → total + members_text members + separators first (members_size members)
        ≤ max_serialized_bytes
      → validate_members first members depth total
        ≡ inr (total + members_text members + separators first (members_size members))
  complete_members true no_members depth total legal room = ap inr (omega arith)
  complete_members false no_members depth total legal room = ap inr (omega arith)
  complete_members true (member n key v vs) depth total (short, allowed, printed, legal, legal')
        room =
      let fits : ltb max_string_bytes (length key) ≡ false = ground arith in
      let name = dumped_complete n 1 total printed (omega arith) in
      let total1 = total + (printed_size n + 1) in
      let here = complete v depth total1 legal (omega arith) in
      let rest = complete_members false vs depth (total1 + text_size v) legal' (omega arith) in
      ground (arith, fits, allowed, name, here, rest)
  complete_members false (member n key v vs) depth total (short, allowed, printed, legal, legal')
        room =
      let fits : ltb max_string_bytes (length key) ≡ false = ground arith in
      let name = dumped_complete n 2 total printed (omega arith) in
      let total1 = total + (printed_size n + 2) in
      let here = complete v depth total1 legal (omega arith) in
      let rest = complete_members false vs depth (total1 + text_size v) legal' (omega arith) in
      ground (arith, fits, allowed, name, here, rest)
