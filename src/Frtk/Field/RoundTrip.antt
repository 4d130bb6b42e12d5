-- ===== src/Frtk/Field/RoundTrip.antt =====
-- What `EncodeField` of native/host/frtk_field_schema.cpp writes, `DecodeField` reads back.
use cfb27_lua_hook.Prelude.{
  ℕ, ◌+◌, ◌*◌, ◌/◌, ◌%◌, ◌^◌, ◌≤◌, ◌<◌, ◌≡◌, refl, ap, ◌∙◌, ◌⊎◌, inl, inr, List, arith,
  if◌then◌else◌, length, get_or, All,
}
use cfb27_lua_hook.Prelude.Int.{ℤ, ◌-ℤ◌, ◌≤ℤ◌}
use cfb27_lua_hook.Prelude.Bits.{
  pow-pos, pow-add, replace_bits, replace_bits-field, replace_bits-lt, replace_bits-low,
  replace_bits-high,
}
use cfb27_lua_hook.Frtk.Field.{
  FieldDefinition, DecodedField, Fallible-cases, ok, is_offset_binary, validate_definition,
  shift_of, decode_field, numeric_value, raw_of, encode_field,
}
use cfb27_lua_hook.Frtk.Field.Storage.{
  read_storage, store, length-store, read_storage-store, read_storage-lt, get_or-store_outside,
}
use cfb27_lua_hook.Frtk.Field.Valid.{IsValid, validate_definition-IsValid, not-ltb_ℤ}
use cfb27_lua_hook.Frtk.Field.Raw.{decode_raw-raw_of}

-- What a successful `EncodeField` has found and done.
record IsEncoded (bytes bytes' : List ℕ) (d : FieldDefinition) (v : DecodedField) : Type 0 where
  valid : validate_definition (length bytes) d ≡ ok tt
  numeric : ℤ
  value : numeric_value d v ≡ ok numeric
  above : d.minimum ≤ℤ numeric
  below : numeric ≤ℤ d.maximum
  stored :
      let raw =
        raw_of d.bit_width
          (if is_offset_binary d.encoding then numeric -ℤ d.minimum else numeric) in
      bytes'
      ≡ store bytes d.byte_offset d.storage_bytes (
          replace_bits
            (read_storage bytes d.byte_offset d.storage_bytes)
            (2 ^ shift_of d)
            (2 ^ d.bit_width)
            raw)

encode_field-IsEncoded :
    (bytes bytes' : List ℕ) (d : FieldDefinition) (v : DecodedField)
    → encode_field bytes d v ≡ ok bytes'
    → IsEncoded bytes bytes' d v
unfolding encode_field
encode_field-IsEncoded bytes bytes' d v h =
    elim (Fallible-cases (validate_definition (length bytes) d)) [
      | inl (e, thrown) ↦ ground arith
      | inr (u, valid) ↦ elim (Fallible-cases (numeric_value d v)) [
        | inl (e, thrown) ↦ ground arith
        | inr (z, value) ↦ record {
          valid = valid;
          numeric = z;
          value = value;
          above = not-ltb_ℤ z d.minimum (ground arith);
          below = not-ltb_ℤ d.maximum z (ground arith);
          stored = ground arith;
        }
      ]
    ]

pub length-encode_field :
    (bytes bytes' : List ℕ) (d : FieldDefinition) (v : DecodedField)
    → encode_field bytes d v ≡ ok bytes'
    → length bytes' ≡ length bytes
length-encode_field bytes bytes' d v h =
    rw (encode_field-IsEncoded bytes bytes' d v h).stored (length-store bytes _ _ _)

-- The word splits into what lies above the field, the field and what lies below.
word_split :
    (size : ℕ) (d : FieldDefinition)
    → IsValid size d
    → 2 ^ (d.storage_bytes * 8) ≡ 2 ^ d.bit_offset * (2 ^ d.bit_width * 2 ^ shift_of d)
word_split size d valid =
    let bits = valid.bits in
    let sum : d.storage_bytes * 8 ≡ d.bit_offset + (d.bit_width + shift_of d) = omega arith in
    ap (λ k. 2 ^ k) sum
    ∙ pow-add d.bit_offset (d.bit_width + shift_of d)
    ∙ ap (λ (k : ℕ). 2 ^ d.bit_offset * k) (pow-add d.bit_width (shift_of d))

module _ (bytes bytes' : List ℕ) (d : FieldDefinition) (v : DecodedField)
    (are_bytes : All (λ b. b < 256) bytes) (encoded : encode_field bytes d v ≡ ok bytes') where
  record IsUpdated : Type 0 where
    facts : IsEncoded bytes bytes' d v
    valid : IsValid (length bytes) d
    raw : ℕ
    raw_is :
        raw
        ≡ raw_of d.bit_width
            (if is_offset_binary d.encoding then facts.numeric -ℤ d.minimum else facts.numeric)
    word :
        read_storage bytes' d.byte_offset d.storage_bytes
        ≡ replace_bits
            (read_storage bytes d.byte_offset d.storage_bytes)
            (2 ^ shift_of d)
            (2 ^ d.bit_width)
            raw
    same_length : length bytes' ≡ length bytes

  updated : IsUpdated
  updated =
      let facts = encode_field-IsEncoded bytes bytes' d v encoded in
      let valid = validate_definition-IsValid (length bytes) d facts.valid in
      let storage = read_storage bytes d.byte_offset d.storage_bytes in
      let raw =
        raw_of d.bit_width
          (if is_offset_binary d.encoding then facts.numeric -ℤ d.minimum else facts.numeric) in
      let word = replace_bits storage (2 ^ shift_of d) (2 ^ d.bit_width) raw in
      let split = word_split (length bytes) d valid in
      let fits : word < 2 ^ (d.storage_bytes * 8) = rw split (
        replace_bits-lt storage (2 ^ shift_of d) (2 ^ d.bit_width) raw (pow-pos (shift_of d))
          (pow-pos d.bit_width) (2 ^ d.bit_offset)
          (rw split at (read_storage-lt bytes d.byte_offset d.storage_bytes are_bytes))) in
      record {
        facts = facts;
        valid = valid;
        raw = raw;
        raw_is = refl;
        word =
            rw facts.stored
              (read_storage-store bytes d.byte_offset d.storage_bytes word valid.within fits);
        same_length = rw facts.stored (length-store bytes d.byte_offset d.storage_bytes word);
      }

  -- A field that was encoded decodes to the value that went in, on every encoding.
  pub decode-encode_field : decode_field bytes' d ≡ ok v
  unfolding decode_field
  decode-encode_field =
      let u = updated in
      let facts = u.facts in
      let read : read_storage bytes' d.byte_offset d.storage_bytes
            / 2 ^ shift_of d
            % 2 ^ d.bit_width
          ≡ u.raw % 2 ^ d.bit_width =
        rw u.word (replace_bits-field _ _ _ u.raw (pow-pos (shift_of d)) (pow-pos d.bit_width)) in
      rw (u.same_length, facts.valid, read, u.raw_is)
        (decode_raw-raw_of (length bytes) d d.encoding v facts.numeric refl u.valid facts.value
          facts.above facts.below)

  -- Encoding changes no byte outside the field's storage, and within it no bit above the field and
  -- none below; the record keeps its length.
  pub encode_field-frame :
      (length bytes' ≡ length bytes)
      × ((i : ℕ)
          → (i < d.byte_offset) ⊎ (d.byte_offset + d.storage_bytes ≤ i)
          → get_or bytes' i 0 ≡ get_or bytes i 0)
      × (read_storage bytes' d.byte_offset d.storage_bytes % 2 ^ shift_of d
          ≡ read_storage bytes d.byte_offset d.storage_bytes % 2 ^ shift_of d)
      × (read_storage bytes' d.byte_offset d.storage_bytes / (2 ^ d.bit_width * 2 ^ shift_of d)
          ≡ read_storage bytes d.byte_offset d.storage_bytes / (2 ^ d.bit_width * 2 ^ shift_of d))
  encode_field-frame =
      let u = updated in
      let p = pow-pos (shift_of d) in
      let w = pow-pos d.bit_width in
      (
        u.same_length,
        (λ i outside.
            rw u.facts.stored
              (get_or-store_outside bytes d.byte_offset d.storage_bytes _ i outside)),
        rw u.word (replace_bits-low _ _ _ u.raw p w),
        rw u.word (replace_bits-high _ _ _ u.raw p w),
      )
