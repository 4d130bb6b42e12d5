-- ===== src/Frtk/Field/Legal.antt =====
-- The values that `EncodeField` of native/host/frtk_field_schema.cpp takes.
use cfb27_lua_hook.Prelude.{
  ℕ, ◌+◌, ◌*◌, ◌^◌, ◌<◌, ◌≡◌, refl, ap, subst, ◌∙◌, ◌↔◌, inl, inr, true, false, some, List, arith,
  ◌==◌, ==→eq, Bool-cases, Option-cases, length,
}
use cfb27_lua_hook.Prelude.Int.{ℤ, pos, ◌≤ℤ◌}
use cfb27_lua_hook.Frtk.Field.{
  PackedReference, FieldDefinition, DecodedField, integer, reference, Fallible-cases, ok, is_packed,
  validate_definition, encode_packed_reference, numeric_value, encode_field,
}
use cfb27_lua_hook.Frtk.Field.Valid.{
  IsValid, validate_definition-IsValid, IsValid-validate_definition, not-ltb_ℤ, ltb_ℤ-false,
}

-- The number lies within the declared bounds.
abbrev pub IsWithin : FieldDefinition → ℤ → Type 0
IsWithin d z = (d.minimum ≤ℤ z) × (z ≤ℤ d.maximum)

-- A reference to the declared table whose parts fit their bits, or an integer; as a number within bounds.
abbrev pub IsEncodable : FieldDefinition → DecodedField → Type 0
IsEncodable d (integer z) = (is_packed d.encoding ≡ false) × IsWithin d z
IsEncodable d (reference r) =
    (is_packed d.encoding ≡ true)
    × (d.reference_table_id ≡ some r.table_id)
    × (r.table_id < 2 ^ 15)
    × (r.row_index < 2 ^ 17)
    × IsWithin d (pos (r.table_id * 2 ^ 17 + r.row_index))

encode_packed_reference-fits :
    (r : PackedReference) (n : ℕ)
    → encode_packed_reference r ≡ ok n
    → (r.table_id < 2 ^ 15) × (r.row_index < 2 ^ 17) × (n ≡ r.table_id * 2 ^ 17 + r.row_index)
unfolding encode_packed_reference
encode_packed_reference-fits r n h = (ground arith, ground arith, ground arith)

fits-encode_packed_reference :
    (r : PackedReference)
    → r.table_id < 2 ^ 15
    → r.row_index < 2 ^ 17
    → encode_packed_reference r ≡ ok (r.table_id * 2 ^ 17 + r.row_index)
unfolding encode_packed_reference
fits-encode_packed_reference r table row = ground arith

-- What the number of a value tells of it.
numeric_value-IsEncodable :
    (d : FieldDefinition) (v : DecodedField) (z : ℤ)
    → numeric_value d v ≡ ok z
    → IsWithin d z
    → IsEncodable d v
unfolding numeric_value
numeric_value-IsEncodable d (integer n) z h within = elim (Bool-cases (is_packed d.encoding)) [
  | inl packed ↦ absurd (ground arith)
  | inr other ↦ let same : z ≡ n = ground (arith, other) in (other, subst (IsWithin d) same within)
]
numeric_value-IsEncodable d (reference r) z h within = elim (Bool-cases (is_packed d.encoding)) [
  | inr other ↦ absurd (ground arith)
  | inl packed ↦ elim (Option-cases d.reference_table_id) [
    | inl undeclared ↦ absurd (ground arith)
    | inr (id, declared) ↦ elim (Bool-cases (id == r.table_id)) [
      | inr elsewhere ↦ absurd (ground arith)
      | inl target ↦ elim (Fallible-cases (encode_packed_reference r)) [
        | inl (e, thrown) ↦ absurd (ground arith)
        | inr (n, encoded) ↦
            let (table, row, packs) = encode_packed_reference-fits r n encoded in
            let same : z ≡ pos (r.table_id * 2 ^ 17 + r.row_index) =
              ground (arith, packed, declared, target, encoded, packs) in
            (
              packed,
              declared ∙ ap some (==→eq id r.table_id target),
              table,
              row,
              subst (IsWithin d) same within,
            )
      ]
    ]
  ]
]

IsEncodable-numeric_value :
    (d : FieldDefinition) (v : DecodedField)
    → IsEncodable d v
    → (z : ℤ) × (numeric_value d v ≡ ok z) × IsWithin d z
unfolding numeric_value
IsEncodable-numeric_value d (integer z) (other, within) = (z, rw other refl, within)
IsEncodable-numeric_value d (reference r) (packed, declared, table, row, within) =
    let there = fits-encode_packed_reference r table row in
    (pos (r.table_id * 2 ^ 17 + r.row_index), ground (arith, packed, declared, there), within)

-- `EncodeField` goes through exactly on a valid definition, whose field lies in the record, with a value
-- of its kind that the field can hold.
pub encode_field_iff :
    (bytes : List ℕ) (d : FieldDefinition) (v : DecodedField)
    → ((bytes' : List ℕ) × (encode_field bytes d v ≡ ok bytes'))
      ↔ (IsValid (length bytes) d × IsEncodable d v)
unfolding encode_field
encode_field_iff bytes d v = (found, goes)
  where
    found :
        (bytes' : List ℕ) × (encode_field bytes d v ≡ ok bytes')
        → IsValid (length bytes) d × IsEncodable d v
    found (bytes', h) = elim (Fallible-cases (validate_definition (length bytes) d)) [
      | inl (e, thrown) ↦ absurd (ground arith)
      | inr (u, valid) ↦ elim (Fallible-cases (numeric_value d v)) [
        | inl (e, thrown) ↦ absurd (ground arith)
        | inr (z, value) ↦ (
          validate_definition-IsValid (length bytes) d valid,
          numeric_value-IsEncodable d v z value
              (not-ltb_ℤ z d.minimum (ground arith), not-ltb_ℤ d.maximum z (ground arith)),
        )
      ]
    ]

    goes :
        IsValid (length bytes) d × IsEncodable d v
        → (bytes' : List ℕ) × (encode_field bytes d v ≡ ok bytes')
    goes (valid, encodable) =
        let validated = IsValid-validate_definition (length bytes) d valid in
        let (z, value, within) = IsEncodable-numeric_value d v encodable in
        let low = ltb_ℤ-false z d.minimum within.0 in
        let high = ltb_ℤ-false d.maximum z within.1 in rw (validated, value, low, high) (_, refl)
