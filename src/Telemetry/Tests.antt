-- ===== src/Telemetry/Tests.antt =====
-- Small payloads and registrations of native/host/telemetry.cpp, and the theorems at them.
use cfb27_lua_hook.Prelude.{ℕ, ◌≤◌, ◌≡◌, refl, ◌↔◌, none, some, List, [], ◌∷◌, arith, bytes_eq, all}
use cfb27_lua_hook.Telemetry.{
  Json, scalar, string, array, object, no_items, item, no_members, member, max_serialized_bytes,
  is_one_of, is_forbidden_key, is_reserved_type, add_serialized_bytes, add_dumped, validate_value,
  validate_telemetry_payload,
}
use cfb27_lua_hook.Telemetry.Types.{
  is_type_character, is_telemetry_type_name, check_types, with_new, count_new,
  register_telemetry_types, IsRegistry, register_telemetry_types-IsRegistry,
}
use cfb27_lua_hook.Telemetry.Legal.{IsLegal, text_size}
use cfb27_lua_hook.Telemetry.Payload.{validate_telemetry_payload_iff}

-- {"k":[1,23],"s":"x"}
abbrev payload : Json
payload = object (
    member (some 3) (b'k' ∷ []) (array (item (scalar 1) (item (scalar 2) no_items)))
      (member (some 3) (b's' ∷ []) (string (some 3) (b'x' ∷ [])) no_members))

payload_runs : ℕ
unfolding validate_telemetry_payload validate_value add_dumped add_serialized_bytes is_forbidden_key
    is_one_of bytes_eq text_size
payload_runs = 0

accepted_test : validate_telemetry_payload payload ≡ none
unfolding payload_runs
accepted_test = refl

size_test : text_size payload ≡ 20
unfolding payload_runs
size_test = refl

forbidden_test :
    validate_telemetry_payload (
      object (
        member
          (some 9)
          (b'a' ∷ b'd' ∷ b'd' ∷ b'r' ∷ b'e' ∷ b's' ∷ b's' ∷ [])
          (scalar 1)
          no_members))
    ≡ some "Telemetry payloads must not contain address or raw-byte keys"
unfolding payload_runs
forbidden_test = refl

validate_telemetry_payload_iff_example :
    (validate_telemetry_payload payload ≡ none)
    ↔ (IsLegal 1 payload × (text_size payload ≤ max_serialized_bytes))
validate_telemetry_payload_iff_example = validate_telemetry_payload_iff payload

abbrev depth_chart : List ℕ
depth_chart = b'd' ∷ b'.' ∷ b'1' ∷ []

no_types-IsRegistry : IsRegistry []
no_types-IsRegistry = record { few = omega arith; named = tt; distinct = tt }

register_test : register_telemetry_types [] (depth_chart ∷ []) ≡ (none, depth_chart ∷ [])
unfolding register_telemetry_types check_types is_telemetry_type_name is_type_character
    is_reserved_type is_one_of bytes_eq all count_new with_new
register_test = refl

reserved_test :
    register_telemetry_types [] ((b'l' ∷ b'o' ∷ b'g' ∷ []) ∷ [])
    ≡ (some "Telemetry type name is invalid or reserved", [])
unfolding register_telemetry_types check_types is_telemetry_type_name is_type_character
    is_reserved_type is_one_of bytes_eq all
reserved_test = refl

register_telemetry_types-IsRegistry_example :
    IsRegistry (register_telemetry_types [] (depth_chart ∷ [])).1
register_telemetry_types-IsRegistry_example =
    register_telemetry_types-IsRegistry [] (depth_chart ∷ []) no_types-IsRegistry
