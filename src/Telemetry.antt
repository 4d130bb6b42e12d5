-- ===== src/Telemetry.antt =====
-- native/host/telemetry.cpp: which payloads and which types of events the host lets scripts send. The
-- kinds of JSON values are those that the source asks for; the size of a value's text, which the JSON
-- library prints, is part of the value.
pub mod Legal
pub mod Sound
pub mod Complete
pub mod Payload
pub mod Types
mod Tests
use cfb27_lua_hook.Prelude.{
  ℕ, suc, ◌+◌, ◌-◌, ◌*◌, String, ◌⊎◌, inl, inr, Bool, true, false, ◌||◌, not, Option, none, some,
  List, [], ◌∷◌, ltb, if◌then◌else◌, bytes_eq, length,
}

abbrev pub max_telemetry_types : ℕ
max_telemetry_types = 16

abbrev pub max_depth : ℕ
max_depth = 4

abbrev pub max_object_keys : ℕ
max_object_keys = 64

abbrev pub max_array_entries : ℕ
max_array_entries = 128

abbrev pub max_string_bytes : ℕ
max_string_bytes = 1024

abbrev pub max_serialized_bytes : ℕ
max_serialized_bytes = 16 * 1024

-- `scalar` is null, a Boolean or an integer, `other` what none of the tests knows. Each has the size of
-- its text, a string and a member's key `none` where the library throws instead of printing it, a
-- double whether it is finite.
mutual
  pub data Json : Type 0 where
    scalar : ℕ → Json
    number_float : ℕ → Bool → Json
    string : Option ℕ → List ℕ → Json
    array : Items → Json
    object : Members → Json
    other : Json

  pub data Items : Type 0 where
    no_items : Items
    item : Json → Items → Items

  pub data Members : Type 0 where
    no_members : Members
    member : Option ℕ → List ℕ → Json → Members → Members

abbrev pub items_size : Items → ℕ
items_size no_items = 0
items_size (item v vs) = suc (items_size vs)

abbrev pub members_size : Members → ℕ
members_size no_members = 0
members_size (member n key v vs) = suc (members_size vs)

unfoldable pub is_one_of : List (List ℕ) → List ℕ → Bool
is_one_of [] text = false
is_one_of (name ∷ names) text = bytes_eq text name || is_one_of names text

abbrev pub reserved_types : List (List ℕ)
reserved_types =
    (b'g' ∷ b'a' ∷ b'm' ∷ b'e' ∷ b'_' ∷ b'r' ∷ b'e' ∷ b'a' ∷ b'd' ∷ b'y' ∷ [])
    ∷ (b't' ∷ b'i' ∷ b'c' ∷ b'k' ∷ [])
    ∷ (b'l' ∷ b'o' ∷ b'g' ∷ [])
    ∷ []

abbrev pub forbidden_keys : List (List ℕ)
forbidden_keys =
    (b'a' ∷ b'd' ∷ b'd' ∷ b'r' ∷ b'e' ∷ b's' ∷ b's' ∷ [])
    ∷ (b'a' ∷ b'd' ∷ b'd' ∷ b'r' ∷ b'e' ∷ b's' ∷ b's' ∷ b'H' ∷ b'e' ∷ b'x' ∷ [])
    ∷ (b'r' ∷ b'e' ∷ b'g' ∷ b'i' ∷ b'o' ∷ b'n' ∷ b'B' ∷ b'a' ∷ b's' ∷ b'e' ∷ [])
    ∷ (b'b' ∷ b'y' ∷ b't' ∷ b'e' ∷ b's' ∷ b'H' ∷ b'e' ∷ b'x' ∷ [])
    ∷ (b'c' ∷ b'o' ∷ b'n' ∷ b't' ∷ b'e' ∷ b'x' ∷ b't' ∷ b'A' ∷ b'd' ∷ b'd' ∷ b'r' ∷ b'e' ∷ b's'
        ∷ b's' ∷ [])
    ∷ (b'c' ∷ b'o' ∷ b'n' ∷ b't' ∷ b'e' ∷ b'x' ∷ b't' ∷ b'H' ∷ b'e' ∷ b'x' ∷ [])
    ∷ []

unfoldable pub is_reserved_type : List ℕ → Bool
is_reserved_type type = is_one_of reserved_types type

unfoldable pub is_forbidden_key : List ℕ → Bool
is_forbidden_key key = is_one_of forbidden_keys key

-- The new total, or the error.
unfoldable pub add_serialized_bytes : ℕ → ℕ → String ⊎ ℕ
add_serialized_bytes bytes total =
    if ltb (max_serialized_bytes - total) bytes
    then inl "Serialized telemetry payload must not exceed 16 KiB"
    else inr (total + bytes)

-- The same for a text that the library may fail to print, which ends the validation.
unfoldable pub add_dumped : Option ℕ → ℕ → ℕ → String ⊎ ℕ
add_dumped none punctuation total = inl "Telemetry payload could not be serialized"
add_dumped (some n) punctuation total = add_serialized_bytes (n + punctuation) total

-- At the depth, with the total so far.
unfoldable mutual
  pub validate_value : Json → ℕ → ℕ → String ⊎ ℕ
  validate_value (scalar n) depth total = add_serialized_bytes n total
  validate_value (number_float n finite) depth total =
      if not finite then inl "Telemetry numbers must be finite" else add_serialized_bytes n total
  validate_value (string n bytes) depth total =
      if ltb max_string_bytes (length bytes)
      then inl "Telemetry strings must not exceed 1024 bytes"
      else add_dumped n 0 total
  validate_value (array items) depth total = elim (ltb max_depth depth) [
    | true ↦ inl "Telemetry payload depth must not exceed 4"
    | false ↦ elim (ltb max_array_entries (items_size items)) [
      | true ↦ inl "Telemetry arrays must not exceed 128 entries"
      | false ↦ elim (add_serialized_bytes 2 total) [
        | inl e ↦ inl e
        | inr total' ↦ validate_items true items (depth + 1) total'
      ]
    ]
  ]
  validate_value (object members) depth total = elim (ltb max_depth depth) [
    | true ↦ inl "Telemetry payload depth must not exceed 4"
    | false ↦ elim (ltb max_object_keys (members_size members)) [
      | true ↦ inl "Telemetry objects must not exceed 64 keys"
      | false ↦ elim (add_serialized_bytes 2 total) [
        | inl e ↦ inl e
        | inr total' ↦ validate_members true members (depth + 1) total'
      ]
    ]
  ]
  validate_value other depth total =
      inl "Telemetry payload must contain only JSON-compatible values"

  pub validate_items : Bool → Items → ℕ → ℕ → String ⊎ ℕ
  validate_items first no_items depth total = inr total
  validate_items first (item v vs) depth total =
      elim (if first then inr total else add_serialized_bytes 1 total) [
        | inl e ↦ inl e
        | inr total' ↦ elim (validate_value v depth total') [
          | inl e ↦ inl e
          | inr total'' ↦ validate_items false vs depth total''
        ]
      ]

  pub validate_members : Bool → Members → ℕ → ℕ → String ⊎ ℕ
  validate_members first no_members depth total = inr total
  validate_members first (member n key v vs) depth total =
      elim (ltb max_string_bytes (length key)) [
        | true ↦ inl "Telemetry strings must not exceed 1024 bytes"
        | false ↦ elim (is_forbidden_key key) [
          | true ↦ inl "Telemetry payloads must not contain address or raw-byte keys"
          | false ↦ elim (add_dumped n (if first then 1 else 2) total) [
            | inl e ↦ inl e
            | inr total' ↦ elim (validate_value v depth total') [
              | inl e ↦ inl e
              | inr total'' ↦ validate_members false vs depth total''
            ]
          ]
        ]
      ]

-- `none` where the payload is accepted, otherwise the error.
unfoldable pub validate_telemetry_payload : Json → Option String
validate_telemetry_payload payload = elim (validate_value payload 1 0) [
  | inl e ↦ some e
  | inr total ↦ none
]
