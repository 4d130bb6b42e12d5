-- ===== src/Frtk/Field.antt =====
-- native/host/frtk_field_schema.h and frtk_field_schema.cpp: fields of bits within the records of a
-- table, read and written through a big-endian word of one to five bytes. What the source throws
-- comes back as an `Exception`. Bytes are numbers below 256.
pub mod Storage
pub mod Valid
pub mod Legal
pub mod Raw
pub mod RoundTrip
mod Tests
use cfb27_lua_hook.Prelude.{
  ℕ, suc, ◌+◌, ◌-◌, ◌*◌, ◌/◌, ◌%◌, ◌^◌, String, ◌≡◌, refl, ◌⊎◌, inl, inr, Bool, true, false, ◌&&◌,
  ◌||◌, not, Option, none, some, List, ltb, leb, ◌==◌, if◌then◌else◌, length,
}
use cfb27_lua_hook.Prelude.Int.{ℤ, pos, negsuc, pos_part, ◌+ℤ◌, ◌-ℤ◌, ltb_ℤ}
use cfb27_lua_hook.Prelude.Bits.{replace_bits}
use Storage.{read_storage, store}

pub record PackedReference : Type 0 where
  pub table_id : ℕ
  pub row_index : ℕ

-- The text of `encoding`: the five that are known, and any other.
pub data Encoding : Type 0 where
  unsigned signed offset_binary bitfield packed_reference : Encoding
  other : List ℕ → Encoding

pub record FieldDefinition : Type 0 where
  pub name : List ℕ
  pub encoding : Encoding
  pub byte_offset : ℕ
  pub storage_bytes : ℕ
  pub bit_offset : ℕ
  pub bit_width : ℕ
  pub minimum : ℤ
  pub maximum : ℤ
  pub reference_table_id : Option ℕ

-- `std::variant<std::int64_t, PackedReference>`.
pub data DecodedField : Type 0 where
  integer : ℤ → DecodedField
  reference : PackedReference → DecodedField

-- `unsupported_encoding` is the `std::invalid_argument` whose text ends in the encoding.
pub data Exception : Type 0 where
  range_error : String → Exception
  unsupported_encoding : Encoding → Exception
  invalid_argument : String → Exception

pub data Fallible {ℓ} (A : Type ℓ) : Type ℓ where
  ok : A → Fallible A
  throw : Exception → Fallible A

infixl 5 ◌>>=◌ ◌>>◌
abbrev pub ◌>>=◌ {ℓ κ} : {A : Type ℓ} {B : Type κ} → Fallible A → (A → Fallible B) → Fallible B
ok a >>= f = f a
throw e >>= f = throw e

abbrev pub ◌>>◌ {ℓ} : {B : Type ℓ} → Fallible (Unit {0}) → Fallible B → Fallible B
m >> k = m >>= λ _. k

abbrev pub throw_if : Bool → Exception → Fallible (Unit {0})
throw_if true e = throw e
throw_if false e = ok tt

pub Fallible-cases {ℓ} :
    {A : Type ℓ} (f : Fallible A) → ((e : Exception) × (f ≡ throw e)) ⊎ ((a : A) × (f ≡ ok a))
Fallible-cases (ok a) = inr (a, refl)
Fallible-cases (throw e) = inl (e, refl)

abbrev pub int64_min : ℤ
int64_min = negsuc (2 ^ 63 - 1)

abbrev pub int64_max : ℤ
int64_max = pos (2 ^ 63 - 1)

abbrev pub is_supported : Encoding → Bool
is_supported (other text) = false
is_supported _ = true

abbrev pub is_packed : Encoding → Bool
is_packed packed_reference = true
is_packed _ = false

abbrev pub is_signed : Encoding → Bool
is_signed signed = true
is_signed _ = false

abbrev pub is_offset_binary : Encoding → Bool
is_offset_binary offset_binary = true
is_offset_binary _ = false

-- The least and the greatest value that the encoding can hold in so many bits.
abbrev pub legal_minimum : Encoding → ℕ → ℤ
legal_minimum signed width = pos 0 -ℤ pos (2 ^ (width - 1))
legal_minimum offset_binary width = int64_min
legal_minimum _ width = pos 0

abbrev pub legal_maximum : Encoding → ℕ → ℤ
legal_maximum signed width = pos (2 ^ (width - 1) - 1)
legal_maximum offset_binary width = int64_max
legal_maximum _ width = pos (2 ^ width - 1)

-- The difference as `std::uint64_t`, for a minimum that is not above the maximum.
abbrev pub spread : ℤ → ℤ → ℕ
spread minimum maximum = pos_part (maximum -ℤ minimum)

unfoldable pub validate_definition : ℕ → FieldDefinition → Fallible (Unit {0})
unfolding ◌-ℤ◌
validate_definition record_size d = do
  throw_if (ltb d.bit_width 1 || ltb 32 d.bit_width)
      (range_error "bitWidth must be from 1 through 32")
  throw_if
      (ltb d.storage_bytes 1
        || (ltb 5 d.storage_bytes
            || (ltb record_size d.byte_offset
                || ltb (record_size - d.byte_offset) d.storage_bytes)))
      (range_error "Field storage exceeds the record bounds")
  throw_if
      (leb (d.storage_bytes * 8) d.bit_offset
        || ltb (d.storage_bytes * 8 - d.bit_offset) d.bit_width)
      (range_error "Field bit range exceeds its storage")
  throw_if (not (is_supported d.encoding)) (unsupported_encoding d.encoding)
  throw_if
      (is_packed d.encoding
        && (not (d.storage_bytes == 4) || (not (d.bit_offset == 0) || not (d.bit_width == 32))))
      (range_error "Packed-reference fields must occupy exactly 32 bits")
  throw_if
      (ltb_ℤ d.minimum (legal_minimum d.encoding d.bit_width)
        || (ltb_ℤ (legal_maximum d.encoding d.bit_width) d.maximum || ltb_ℤ d.maximum d.minimum))
      (range_error (
        if is_signed d.encoding
        then "Definition declares an illegal signed range"
        else "Definition declares an illegal unsigned range"))
  throw_if (is_offset_binary d.encoding && leb (2 ^ d.bit_width) (spread d.minimum d.maximum))
      (range_error "Definition declares an illegal offset-binary range")

unfoldable pub decode_packed_reference : ℕ → Fallible PackedReference
decode_packed_reference value =
    if ltb 0xFFFFFFFF value
    then throw (range_error "Packed reference must be a 32-bit unsigned integer")
    else ok (record { table_id = value / 2 ^ 17 % 2 ^ 16; row_index = value % 2 ^ 17 })

unfoldable pub encode_packed_reference : PackedReference → Fallible ℕ
encode_packed_reference r = do
  throw_if (ltb 0x7FFF r.table_id) (range_error "tableId must be a 15-bit unsigned integer")
  throw_if (ltb 0x1FFFF r.row_index) (range_error "rowIndex must be a 17-bit unsigned integer")
  ok (r.table_id * 2 ^ 17 + r.row_index)

abbrev pub shift_of : FieldDefinition → ℕ
shift_of d = d.storage_bytes * 8 - d.bit_offset - d.bit_width

-- What the raw bits stand for. The sum of an offset-binary value is not wrapped: in the source it may
-- overflow 64 bits only where the stored bits lie outside the declared bounds, and is undefined there.
unfoldable pub decode_raw : FieldDefinition → Encoding → ℕ → Fallible DecodedField
unfolding decode_packed_reference ◌+ℤ◌ ◌-ℤ◌
decode_raw d packed_reference raw = decode_packed_reference raw >>= λ r. ok (reference r)
decode_raw d offset_binary raw = ok (integer (pos raw +ℤ d.minimum))
decode_raw d signed raw =
    if ltb raw (2 ^ (d.bit_width - 1))
    then ok (integer (pos raw))
    else ok (integer (pos raw -ℤ pos (2 ^ d.bit_width)))
decode_raw d unsigned raw = ok (integer (pos raw))
decode_raw d bitfield raw = ok (integer (pos raw))
decode_raw d (other text) raw = ok (integer (pos raw))

unfoldable pub decode_field : List ℕ → FieldDefinition → Fallible DecodedField
decode_field bytes d = do
  validate_definition (length bytes) d
  let raw = read_storage bytes d.byte_offset d.storage_bytes / 2 ^ shift_of d % 2 ^ d.bit_width
  decode_raw d d.encoding raw

-- A reference, which must be to the declared table.
unfoldable pub encode_reference : Option ℕ → PackedReference → Fallible ℤ
unfolding encode_packed_reference
encode_reference none r =
    throw (range_error "Packed reference does not match the declared target table")
encode_reference (some table_id) r =
    if table_id == r.table_id
    then (encode_packed_reference r >>= λ value. ok (pos value))
    else throw (range_error "Packed reference does not match the declared target table")

-- The integer that a value stands for under the definition.
unfoldable pub numeric_value : FieldDefinition → DecodedField → Fallible ℤ
unfolding encode_reference
numeric_value d (reference r) =
    if is_packed d.encoding
    then encode_reference d.reference_table_id r
    else throw (invalid_argument "Numeric field requires an integer")
numeric_value d (integer z) =
    if is_packed d.encoding
    then throw (range_error "Packed reference does not match the declared target table")
    else ok z

-- The bits of a value that may be negative, in two's complement of the field's width.
abbrev pub raw_of : ℕ → ℤ → ℕ
raw_of width (pos n) = n
raw_of width (negsuc n) = 2 ^ width - suc n

unfoldable pub encode_field : List ℕ → FieldDefinition → DecodedField → Fallible (List ℕ)
encode_field bytes d value = do
  validate_definition (length bytes) d
  numeric ← numeric_value d value
  throw_if (ltb_ℤ numeric d.minimum || ltb_ℤ d.maximum numeric)
      (range_error "Field value is outside its declared bounds")
  let stored = if is_offset_binary d.encoding then numeric -ℤ d.minimum else numeric
  let raw = raw_of d.bit_width stored
  let storage = read_storage bytes d.byte_offset d.storage_bytes
  let updated = replace_bits storage (2 ^ shift_of d) (2 ^ d.bit_width) raw
  ok (store bytes d.byte_offset d.storage_bytes updated)
