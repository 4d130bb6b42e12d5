-- ===== src/Frtk/Field/Tests.antt =====
-- Runs of native/host/frtk_field_schema.cpp, and the theorems at them.
use cfb27_lua_hook.Prelude.{
  ℕ, ◌*◌, ◌/◌, ◌%◌, ◌^◌, ◌≤◌, ◌<◌, ◌≡◌, refl, ◌↔◌, ◌⊎◌, none, some, List, [], ◌∷◌, arith, length,
  get_or,
}
use cfb27_lua_hook.Prelude.Int.{pos, negsuc, ◌+ℤ◌, ◌-ℤ◌}
use cfb27_lua_hook.Prelude.Bits.{replace_bits}
use cfb27_lua_hook.Frtk.Field.{
  signed, packed_reference, FieldDefinition, integer, reference, ok, encode_packed_reference,
  decode_packed_reference, validate_definition, numeric_value, decode_raw, decode_field,
  encode_field,
}
use cfb27_lua_hook.Frtk.Field.Storage.{read_storage, store}
use cfb27_lua_hook.Frtk.Field.Valid.{IsValid}
use cfb27_lua_hook.Frtk.Field.Legal.{IsEncodable, encode_field_iff}
use cfb27_lua_hook.Frtk.Field.Raw.{decode-encode_packed_reference}
use cfb27_lua_hook.Frtk.Field.RoundTrip.{decode-encode_field, encode_field-frame}

-- Five signed bits in the middle of the second and third byte.
abbrev five_bits : FieldDefinition
five_bits = record {
  name = [];
  encoding = signed;
  byte_offset = 1;
  storage_bytes = 2;
  bit_offset = 6;
  bit_width = 5;
  minimum = negsuc 15;
  maximum = pos 15;
  reference_table_id = none;
}

abbrev link : FieldDefinition
link = record {
  name = [];
  encoding = packed_reference;
  byte_offset = 0;
  storage_bytes = 4;
  bit_offset = 0;
  bit_width = 32;
  minimum = pos 0;
  maximum = pos 0xFFFFFFFF;
  reference_table_id = some 4168;
}

abbrev bytes : List ℕ
bytes = 255 ∷ 254 ∷ 253 ∷ 252 ∷ []

abbrev changed : List ℕ
changed = 255 ∷ 252 ∷ 125 ∷ 252 ∷ []

field_runs : ℕ
unfolding validate_definition read_storage store replace_bits decode_raw decode_field numeric_value
    encode_field ◌-ℤ◌ ◌+ℤ◌
field_runs = 0

-- 254, 253 is 11111110 11111101; the bits 10 111 in the middle become 10111 for -9.
encoded_test : encode_field bytes five_bits (integer (negsuc 8)) ≡ ok (255 ∷ 254 ∷ 253 ∷ 252 ∷ [])
unfolding field_runs
encoded_test = refl

encoded_three : encode_field bytes five_bits (integer (pos 3)) ≡ ok changed
unfolding field_runs
encoded_three = refl

link_test :
    decode_field (0x20 ∷ 0x90 ∷ 0 ∷ 5 ∷ []) link
    ≡ ok (reference (record { table_id = 4168; row_index = 5 }))
unfolding field_runs
link_test = refl

decode-encode_field_example : decode_field changed five_bits ≡ ok (integer (pos 3))
decode-encode_field_example =
    decode-encode_field bytes changed five_bits (integer (pos 3)) (omega arith) encoded_three

encode_field-frame_example :
    (length changed ≡ length bytes)
    × ((i : ℕ) → (i < 1) ⊎ (3 ≤ i) → get_or changed i 0 ≡ get_or bytes i 0)
    × (read_storage changed 1 2 % 2 ^ 5 ≡ read_storage bytes 1 2 % 2 ^ 5)
    × (read_storage changed 1 2 / (2 ^ 5 * 2 ^ 5) ≡ read_storage bytes 1 2 / (2 ^ 5 * 2 ^ 5))
encode_field-frame_example =
    encode_field-frame bytes changed five_bits (integer (pos 3)) (omega arith) encoded_three

encode_field_iff_example :
    ((bytes' : List ℕ) × (encode_field bytes five_bits (integer (negsuc 15)) ≡ ok bytes'))
    ↔ (IsValid (length bytes) five_bits × IsEncodable five_bits (integer (negsuc 15)))
encode_field_iff_example = encode_field_iff bytes five_bits (integer (negsuc 15))

decode-encode_packed_reference_example :
    (0x20900005 < 2 ^ 32)
    × (decode_packed_reference 0x20900005 ≡ ok (record { table_id = 4168; row_index = 5 }))
unfolding encode_packed_reference
decode-encode_packed_reference_example =
    decode-encode_packed_reference (record { table_id = 4168; row_index = 5 }) 0x20900005 refl
