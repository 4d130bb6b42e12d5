-- ===== src/Frtk/Field/Raw.antt =====
-- native/host/frtk_field_schema.cpp: on each encoding, the raw bits that `EncodeField` derives from a
-- value are those that `DecodeField` takes for it.
use native.Mathlib.Nat.{mod-eq_of_lt}
use cfb27_lua_hook.Prelude.{
  ℕ, suc, ◌+◌, ◌-◌, ◌*◌, ◌%◌, ◌^◌, ◌≤◌, ◌<◌, ◌≡◌, refl, ap, subst, ◌∙◌, inl, inr, true, arith,
  if◌then◌else◌, Option-cases,
}
use cfb27_lua_hook.Prelude.Int.{ℤ, pos, negsuc, pos_part, ◌+ℤ◌, ◌-ℤ◌, ◌≤ℤ◌}
use cfb27_lua_hook.Prelude.Bits.{two_pow_suc, pow-pos}
use cfb27_lua_hook.Frtk.Field.{
  Encoding, unsigned, signed, offset_binary, bitfield, packed_reference, other, FieldDefinition,
  PackedReference, DecodedField, integer, reference, encode_packed_reference,
  decode_packed_reference, Fallible-cases, ok, is_packed, is_offset_binary, legal_minimum,
  legal_maximum, spread, decode_raw, encode_reference, numeric_value, raw_of,
}
use cfb27_lua_hook.Frtk.Field.Valid.{IsValid}

-- A value within bounds that no sign or offset applies to stands for itself.
plain_raw :
    (w : ℕ) (lo hi z : ℤ)
    → pos 0 ≤ℤ lo
    → hi ≤ℤ pos (2 ^ w - 1)
    → lo ≤ℤ z
    → z ≤ℤ hi
    → pos (raw_of w z % 2 ^ w) ≡ z
plain_raw w lo hi (pos n) a b c e = ap pos (mod-eq_of_lt (omega (arith, pow-pos w)))
plain_raw w lo hi (negsuc n) a b c e = absurd (omega arith)

double_half : (w : ℕ) → 1 ≤ w → 2 ^ w ≡ 2 ^ (w - 1) * 2
double_half w h =
    let width : w ≡ suc (w - 1) = omega arith in ap (λ k. 2 ^ k) width ∙ two_pow_suc (w - 1)

signed_raw :
    (d : FieldDefinition) (z : ℤ)
    → 1 ≤ d.bit_width
    → legal_minimum signed d.bit_width ≤ℤ z
    → z ≤ℤ legal_maximum signed d.bit_width
    → decode_raw d signed (raw_of d.bit_width z % 2 ^ d.bit_width) ≡ ok (integer z)
unfolding decode_raw ◌-ℤ◌
signed_raw d (pos n) h lo hi =
    let half = pow-pos (d.bit_width - 1) in
    let fits : n < 2 ^ d.bit_width = omega (arith, half, double_half d.bit_width h) in
    rw (mod-eq_of_lt fits) (ground (arith, half))
signed_raw d (negsuc n) h lo hi =
    let half = pow-pos (d.bit_width - 1) in
    let double = double_half d.bit_width h in
    let fits : 2 ^ d.bit_width - suc n < 2 ^ d.bit_width = omega (arith, half, double) in
    rw (mod-eq_of_lt fits) (ground (arith, half, double))

offset_raw :
    (d : FieldDefinition) (z : ℤ)
    → spread d.minimum d.maximum < 2 ^ d.bit_width
    → d.minimum ≤ℤ z
    → z ≤ℤ d.maximum
    → decode_raw d offset_binary (raw_of d.bit_width (z -ℤ d.minimum) % 2 ^ d.bit_width)
      ≡ ok (integer z)
unfolding decode_raw ◌-ℤ◌ ◌+ℤ◌
offset_raw d z h lo hi =
    let above : z -ℤ d.minimum ≡ pos (pos_part (z -ℤ d.minimum)) = ground arith in
    let fits : pos_part (z -ℤ d.minimum) < 2 ^ d.bit_width = ground arith in
    rw above (rw (mod-eq_of_lt fits) (ground arith))

encode_packed_reference-ok :
    (r : PackedReference) (n : ℕ)
    → encode_packed_reference r ≡ ok n
    → (n ≡ r.table_id * 2 ^ 17 + r.row_index) × (r.table_id ≤ 0x7FFF) × (r.row_index ≤ 0x1FFFF)
unfolding encode_packed_reference
encode_packed_reference-ok r n h = ground arith

-- A reference that can be packed is unpacked again.
pub decode-encode_packed_reference :
    (r : PackedReference) (n : ℕ)
    → encode_packed_reference r ≡ ok n
    → (n < 2 ^ 32) × (decode_packed_reference n ≡ ok r)
unfolding decode_packed_reference
decode-encode_packed_reference r n h = ground (arith, encode_packed_reference-ok r n h)

packed_raw :
    (d : FieldDefinition) (r : PackedReference) (z : ℤ)
    → encode_reference d.reference_table_id r ≡ ok z
    → decode_raw d packed_reference (raw_of 32 z % 2 ^ 32) ≡ ok (reference r)
unfolding decode_raw encode_reference
packed_raw d r z h = elim (Option-cases d.reference_table_id) [
  | inl absent ↦ ground arith
  | inr (table_id, declared) ↦ elim (Fallible-cases (encode_packed_reference r)) [
    | inl (e, thrown) ↦ ground arith
    | inr (n, packed) ↦
        let value : z ≡ pos n = ground arith in
        let (fits, back) = decode-encode_packed_reference r n packed in
        rw (value, mod-eq_of_lt fits, back) refl
  ]
]

pub ≤ℤ_trans : (a b c : ℤ) → a ≤ℤ b → b ≤ℤ c → a ≤ℤ c
≤ℤ_trans a b c h k = omega arith

-- On each encoding, the raw bits of a value within bounds stand for that value.
pub decode_raw-raw_of :
    (size : ℕ) (d : FieldDefinition) (enc : Encoding) (v : DecodedField) (z : ℤ)
    → d.encoding ≡ enc
    → IsValid size d
    → numeric_value d v ≡ ok z
    → d.minimum ≤ℤ z
    → z ≤ℤ d.maximum
    → decode_raw d enc
        (raw_of d.bit_width (if is_offset_binary enc then z -ℤ d.minimum else z) % 2 ^ d.bit_width)
      ≡ ok v
unfolding numeric_value decode_raw
decode_raw-raw_of size d unsigned (integer x) z e valid n lo hi =
    let same : z ≡ x = ground (arith, e) in
    let lower = subst (λ k. legal_minimum k d.bit_width ≤ℤ d.minimum) e valid.lower in
    let upper = subst (λ k. d.maximum ≤ℤ legal_maximum k d.bit_width) e valid.upper in
    ap (λ k. ok (integer k)) (plain_raw d.bit_width d.minimum d.maximum z lower upper lo hi ∙ same)
decode_raw-raw_of size d unsigned (reference r) z e valid n lo hi = ground arith
decode_raw-raw_of size d bitfield (integer x) z e valid n lo hi =
    let same : z ≡ x = ground (arith, e) in
    let lower = subst (λ k. legal_minimum k d.bit_width ≤ℤ d.minimum) e valid.lower in
    let upper = subst (λ k. d.maximum ≤ℤ legal_maximum k d.bit_width) e valid.upper in
    ap (λ k. ok (integer k)) (plain_raw d.bit_width d.minimum d.maximum z lower upper lo hi ∙ same)
decode_raw-raw_of size d bitfield (reference r) z e valid n lo hi = ground arith
decode_raw-raw_of size d (other t) v z e valid n lo hi = ground (arith, valid.supported, e)
decode_raw-raw_of size d signed (integer x) z e valid n lo hi =
    let same : z ≡ x = ground (arith, e) in
    let lower = subst (λ k. legal_minimum k d.bit_width ≤ℤ d.minimum) e valid.lower in
    let upper = subst (λ k. d.maximum ≤ℤ legal_maximum k d.bit_width) e valid.upper in
    signed_raw d z valid.width.0 (≤ℤ_trans (legal_minimum signed d.bit_width) d.minimum z lower lo)
      (≤ℤ_trans z d.maximum (legal_maximum signed d.bit_width) hi upper)
    ∙ ap (λ k. ok (integer k)) same
decode_raw-raw_of size d signed (reference r) z e valid n lo hi = ground arith
decode_raw-raw_of size d offset_binary (integer x) z e valid n lo hi =
    let same : z ≡ x = ground (arith, e) in
    let binary : is_offset_binary d.encoding ≡ true = rw e in
    offset_raw d z (valid.spread_fits binary) lo hi ∙ ap (λ k. ok (integer k)) same
decode_raw-raw_of size d offset_binary (reference r) z e valid n lo hi = ground arith
decode_raw-raw_of size d packed_reference (integer x) z e valid n lo hi = ground arith
decode_raw-raw_of size d packed_reference (reference r) z e valid n lo hi =
    let packed : is_packed d.encoding ≡ true = rw e in
    let width = (valid.packed packed).1 in
    let encoded : encode_reference d.reference_table_id r ≡ ok z = ground (arith, e) in
    rw width (packed_raw d r z encoded)
