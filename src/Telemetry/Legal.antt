-- ===== src/Telemetry/Legal.antt =====
-- What may be sent as a payload by native/host/telemetry.cpp, described apart from its validation.
use cfb27_lua_hook.Prelude.{
  ℕ, ◌+◌, ◌-◌, ◌≤◌, ◌≡◌, refl, inr, Bool, true, false, Option, none, some, arith, length,
}
use cfb27_lua_hook.Telemetry.{
  Json, scalar, number_float, string, array, object, other, Items, no_items, item, Members,
  no_members, member, items_size, members_size, max_depth, max_object_keys, max_array_entries,
  max_string_bytes, max_serialized_bytes, is_forbidden_key, add_serialized_bytes, add_dumped,
}

abbrev pub printed_size : Option ℕ → ℕ
printed_size none = 0
printed_size (some n) = n

abbrev pub is_printed : Option ℕ → Bool
is_printed none = false
is_printed (some n) = true

-- The size of the text that has no spaces: brackets, commas between entries, a colon in each member.
unfoldable mutual
  pub text_size : Json → ℕ
  text_size (scalar n) = n
  text_size (number_float n finite) = n
  text_size (string n bytes) = printed_size n
  text_size (array items) = 2 + items_text items + (items_size items - 1)
  text_size (object members) = 2 + members_text members + (members_size members - 1)
  text_size other = 0

  pub items_text : Items → ℕ
  items_text no_items = 0
  items_text (item v vs) = text_size v + items_text vs

  pub members_text : Members → ℕ
  members_text no_members = 0
  members_text (member n key v vs) = printed_size n + 1 + text_size v + members_text vs

-- What may be sent at a depth.
unfoldable mutual
  pub IsLegal : ℕ → Json → Type 0
  IsLegal depth (scalar n) = Unit {0}
  IsLegal depth (number_float n finite) = finite ≡ true
  IsLegal depth (string n bytes) = (length bytes ≤ max_string_bytes) × (is_printed n ≡ true)
  IsLegal depth (array items) =
      (depth ≤ max_depth) × (items_size items ≤ max_array_entries) × AreLegalItems (depth + 1) items
  IsLegal depth (object members) =
      (depth ≤ max_depth)
      × (members_size members ≤ max_object_keys)
      × AreLegalMembers (depth + 1) members
  IsLegal depth other = ⊥

  pub AreLegalItems : ℕ → Items → Type 0
  AreLegalItems depth no_items = Unit {0}
  AreLegalItems depth (item v vs) = IsLegal depth v × AreLegalItems depth vs

  pub AreLegalMembers : ℕ → Members → Type 0
  AreLegalMembers depth no_members = Unit {0}
  AreLegalMembers depth (member n key v vs) =
      (length key ≤ max_string_bytes)
      × (is_forbidden_key key ≡ false)
      × (is_printed n ≡ true)
      × IsLegal depth v
      × AreLegalMembers depth vs

pub add_sound :
    (bytes total total' : ℕ)
    → total ≤ max_serialized_bytes
    → add_serialized_bytes bytes total ≡ inr total'
    → (total' ≡ total + bytes) × (total' ≤ max_serialized_bytes)
unfolding add_serialized_bytes
add_sound bytes total total' le h = (ground arith, ground arith)

pub add_complete :
    (bytes total : ℕ)
    → total + bytes ≤ max_serialized_bytes
    → add_serialized_bytes bytes total ≡ inr (total + bytes)
unfolding add_serialized_bytes
add_complete bytes total le = ground arith

pub dumped_sound :
    (n : Option ℕ) (punctuation total total' : ℕ)
    → total ≤ max_serialized_bytes
    → add_dumped n punctuation total ≡ inr total'
    → (is_printed n ≡ true)
      × (total' ≡ total + (printed_size n + punctuation))
      × (total' ≤ max_serialized_bytes)
unfolding add_dumped
dumped_sound none punctuation total total' le h = absurd (ground arith)
dumped_sound (some n) punctuation total total' le h =
    let (sum, small) = add_sound (n + punctuation) total total' le h in (refl, sum, small)

pub dumped_complete :
    (n : Option ℕ) (punctuation total : ℕ)
    → is_printed n ≡ true
    → total + (printed_size n + punctuation) ≤ max_serialized_bytes
    → add_dumped n punctuation total ≡ inr (total + (printed_size n + punctuation))
unfolding add_dumped
dumped_complete none punctuation total p le = absurd (ground arith)
dumped_complete (some n) punctuation total p le = add_complete (n + punctuation) total le

abbrev pub separators : Bool → ℕ → ℕ
separators true n = n - 1
separators false n = n
