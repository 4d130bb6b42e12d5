-- ===== src/Reader/Text.antt =====
-- `ParseAddress`, `FormatAddress` and the decoding of hexadecimal text of native/host/memory_reader.cpp.
-- Texts are lists of character codes.
pub mod RoundTrip
mod Tests
use cfb27_lua_hook.Prelude.{
  ℕ, zero, suc, ◌+◌, ◌-◌, ◌*◌, ◌/◌, ◌%◌, Bool, ◌&&◌, ◌||◌, not, Option, none, some, List, [], ◌∷◌,
  ◌++◌, map, ltb, leb, ◌==◌, if◌then◌else◌, length, all,
}
use cfb27_lua_hook.Memory.Address.{uintptr_max}

unfoldable pub is_hex : ℕ → Bool
is_hex c = (leb b'0' c && leb c b'9') || ((leb b'A' c && leb c b'F') || (leb b'a' c && leb c b'f'))

unfoldable pub digit_of : ℕ → ℕ
digit_of c = if leb c b'9' then c - b'0' else if leb c b'F' then c - b'A' + 10 else c - b'a' + 10

-- The value of the digits in either case, most significant first.
unfoldable pub digits_value : ℕ → List ℕ → ℕ
digits_value acc [] = acc
digits_value acc (c ∷ cs) = digits_value (acc * 16 + digit_of c) cs

-- `std::from_chars` in base 16 over the whole text: digits of either case whose value fits.
unfoldable pub parse_hex : List ℕ → Option ℕ
parse_hex [] = none
parse_hex (c ∷ cs) =
    let value = digits_value 0 (c ∷ cs) in
    if all is_hex (c ∷ cs) && leb value uintptr_max then some value else none

-- `0x` or `0X` in front is passed over.
unfoldable pub strip_prefix : List ℕ → List ℕ
strip_prefix [] = []
strip_prefix (z ∷ []) = z ∷ []
strip_prefix (z ∷ x ∷ rest) =
    if (z == b'0') && ((x == b'x') || (x == b'X')) then rest else z ∷ x ∷ rest

unfoldable pub parse_address : List ℕ → Option ℕ
parse_address text = parse_hex (strip_prefix text)

unfoldable pub lower_digit : ℕ → ℕ
lower_digit d = if ltb d 10 then b'0' + d else b'a' + d - 10

unfoldable pub upper_digit : ℕ → ℕ
upper_digit d = if ltb d 10 then b'0' + d else b'A' + d - 10

unfoldable pub to_upper : ℕ → ℕ
to_upper c = if leb b'a' c && leb c b'z' then c - 32 else c

-- The digits of a number of at most `n` digits, without leading zeros.
unfoldable pub to_hex : (ℕ → ℕ) → ℕ → ℕ → List ℕ
to_hex digit zero v = []
to_hex digit (suc n) v =
    let front = to_hex digit n (v / 16) in
    if ltb v 16 then digit v ∷ [] else front ++ digit (v % 16) ∷ []

-- `std::to_chars` in base 16 into 16 characters.
unfoldable pub to_chars : ℕ → List ℕ
to_chars v = to_hex lower_digit 16 v

unfoldable pub format_address : ℕ → List ℕ
format_address address = b'0' ∷ b'x' ∷ map to_upper (to_chars address)

unfoldable pub nibble : ℕ → Option ℕ
nibble c =
    if leb b'0' c && leb c b'9'
    then some (c - b'0')
    else if leb b'A' c && leb c b'F'
    then some (c - b'A' + 10)
    else none

unfoldable pub hex_bytes : List ℕ → Option (List ℕ)
hex_bytes [] = some []
hex_bytes (h ∷ []) = none
hex_bytes (h ∷ l ∷ rest) = elim (nibble h) [
  | none ↦ none
  | some high ↦ elim (nibble l) [
    | none ↦ none
    | some low ↦ elim (hex_bytes rest) [
      | none ↦ none
      | some bytes ↦ some ((high * 16 + low) ∷ bytes)
    ]
  ]
]

-- `MappedBytes::FromUpperHex`; `allocates` tells whether memory of a size is given.
unfoldable pub from_upper_hex : (ℕ → Bool) → List ℕ → Option (List ℕ)
from_upper_hex allocates text =
    if (length text == 0) || not (length text % 2 == 0)
    then none
    else (if allocates (length text / 2) then hex_bytes text else none)

abbrev pub max_pattern_bytes : ℕ
max_pattern_bytes = 4096

unfoldable pub decode_scan_hex : (ℕ → Bool) → List ℕ → Option (List ℕ)
decode_scan_hex allocates text =
    if ltb (max_pattern_bytes * 2) (length text) then none else from_upper_hex allocates text
