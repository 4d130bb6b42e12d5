-- ===== src/Frtk/Field/Valid.antt =====
-- What `ValidateDefinition` of native/host/frtk_field_schema.cpp establishes.
use cfb27_lua_hook.Prelude.{
  ℕ, ◌+◌, ◌-◌, ◌*◌, ◌^◌, ◌≤◌, ◌<◌, ◌≡◌, refl, inl, inr, true, false, ◌&&◌, ◌||◌, not, arith, ltb,
  leb, ◌==◌, Bool-cases,
}
use cfb27_lua_hook.Prelude.Int.{ℤ, ◌≤ℤ◌, ltb_ℤ}
use cfb27_lua_hook.Frtk.Field.{
  FieldDefinition, ok, is_supported, is_packed, is_offset_binary, legal_minimum, legal_maximum,
  spread, validate_definition,
}

pub record IsValid (size : ℕ) (d : FieldDefinition) : Type 0 where
  pub width : (1 ≤ d.bit_width) × (d.bit_width ≤ 32)
  pub storage : (1 ≤ d.storage_bytes) × (d.storage_bytes ≤ 5)
  pub within : d.byte_offset + d.storage_bytes ≤ size
  pub bits : d.bit_offset + d.bit_width ≤ d.storage_bytes * 8
  pub supported : is_supported d.encoding ≡ true
  pub packed : is_packed d.encoding ≡ true → (d.bit_offset ≡ 0) × (d.bit_width ≡ 32)
  pub packed_storage : is_packed d.encoding ≡ true → d.storage_bytes ≡ 4
  pub ordered : d.minimum ≤ℤ d.maximum
  pub lower : legal_minimum d.encoding d.bit_width ≤ℤ d.minimum
  pub upper : d.maximum ≤ℤ legal_maximum d.encoding d.bit_width
  pub spread_fits :
      is_offset_binary d.encoding ≡ true → spread d.minimum d.maximum < 2 ^ d.bit_width

pub not-ltb_ℤ : (a b : ℤ) → ltb_ℤ a b ≡ false → b ≤ℤ a
not-ltb_ℤ a b h = ground arith

pub validate_definition-IsValid :
    (size : ℕ) (d : FieldDefinition) → validate_definition size d ≡ ok tt → IsValid size d
unfolding validate_definition
validate_definition-IsValid size d h = record {
  width = ground arith;
  storage = ground arith;
  within = ground arith;
  bits = ground arith;
  supported = ground arith;
  packed = λ p. ground arith;
  packed_storage = λ p. ground arith;
  ordered = not-ltb_ℤ d.maximum d.minimum (ground arith);
  lower = not-ltb_ℤ d.minimum (legal_minimum d.encoding d.bit_width) (ground arith);
  upper = not-ltb_ℤ (legal_maximum d.encoding d.bit_width) d.maximum (ground arith);
  spread_fits = λ p. ground arith;
}

pub ltb_ℤ-false : (a b : ℤ) → b ≤ℤ a → ltb_ℤ a b ≡ false
ltb_ℤ-false a b h = ground arith

is_packed-exact :
    (size : ℕ) (d : FieldDefinition)
    → IsValid size d
    → (is_packed d.encoding
        && (not (d.storage_bytes == 4) || (not (d.bit_offset == 0) || not (d.bit_width == 32))))
      ≡ false
is_packed-exact size d valid = elim (Bool-cases (is_packed d.encoding)) [
  | inr other ↦ ground (arith, other)
  | inl packed ↦ ground (arith, packed, valid.packed packed, valid.packed_storage packed)
]

is_offset_binary-fits :
    (size : ℕ) (d : FieldDefinition)
    → IsValid size d
    → (is_offset_binary d.encoding && leb (2 ^ d.bit_width) (spread d.minimum d.maximum)) ≡ false
is_offset_binary-fits size d valid = elim (Bool-cases (is_offset_binary d.encoding)) [
  | inr other ↦ ground (arith, other)
  | inl offset ↦ ground (arith, offset, valid.spread_fits offset)
]

pub IsValid-validate_definition :
    (size : ℕ) (d : FieldDefinition) → IsValid size d → validate_definition size d ≡ ok tt
unfolding validate_definition
IsValid-validate_definition size d valid =
    let width : (ltb d.bit_width 1 || ltb 32 d.bit_width) ≡ false = ground (arith, valid.width) in
    let storage : (ltb d.storage_bytes 1
          || (ltb 5 d.storage_bytes
              || (ltb size d.byte_offset || ltb (size - d.byte_offset) d.storage_bytes)))
        ≡ false =
      ground (arith, valid.storage, valid.within) in
    let bits : (leb (d.storage_bytes * 8) d.bit_offset
          || ltb (d.storage_bytes * 8 - d.bit_offset) d.bit_width)
        ≡ false =
      ground (arith, valid.width, valid.bits) in
    let lower = ltb_ℤ-false d.minimum (legal_minimum d.encoding d.bit_width) valid.lower in
    let upper = ltb_ℤ-false (legal_maximum d.encoding d.bit_width) d.maximum valid.upper in
    let ordered = ltb_ℤ-false d.maximum d.minimum valid.ordered in
    rw
      (
        width,
        storage,
        bits,
        valid.supported,
        is_packed-exact size d valid,
        lower,
        upper,
        ordered,
        is_offset_binary-fits size d valid,
      )
      refl
