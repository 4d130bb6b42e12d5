-- ===== src/Memory/Address.antt =====
-- native/host/memory_transaction.cpp, `IsValidTransactionId` and `ParseAddress`. Texts are lists
-- of character codes.
use cfb27_lua_hook.Prelude.{
  ℕ, ◌+◌, ◌-◌, ◌*◌, ◌^◌, Bool, false, ◌&&◌, ◌||◌, not, Option, none, some, List, [], ◌∷◌, ltb, leb,
  ◌==◌, if◌then◌else◌, length, all,
}

-- `std::uintptr_t` and `std::size_t` have 64 bits.
abbrev pub uintptr_max : ℕ
uintptr_max = 2 ^ 64 - 1

is_id_character : ℕ → Bool
is_id_character c =
    (leb b'A' c && leb c b'Z')
    || ((leb b'a' c && leb c b'z')
        || ((leb b'0' c && leb c b'9') || ((c == b'.') || ((c == b'_') || (c == b'-')))))

unfoldable pub is_valid_transaction_id : List ℕ → Bool
unfolding is_id_character all
is_valid_transaction_id id =
    if (length id == 0) || ltb 64 (length id) then false else all is_id_character id

unfoldable pub is_upper_hex : ℕ → Bool
is_upper_hex c = (leb b'0' c && leb c b'9') || (leb b'A' c && leb c b'F')

unfoldable pub hex_digit : ℕ → ℕ
hex_digit c = if leb c b'9' then c - b'0' else c - b'A' + 10

-- The value of the digits, most significant first.
unfoldable pub hex_value : ℕ → List ℕ → ℕ
unfolding hex_digit
hex_value acc [] = acc
hex_value acc (c ∷ cs) = hex_value (acc * 16 + hex_digit c) cs

-- `std::from_chars` in base 16 on digits only fails when the value does not fit in the type.
unfoldable pub from_chars : List ℕ → Option ℕ
unfolding hex_value
from_chars digits =
    let value = hex_value 0 digits in if leb value uintptr_max then some value else none

-- The digits after `0x`: not empty, and no leading zero but in `0x0`.
unfoldable pub parse_digits : List ℕ → Option ℕ
unfolding from_chars is_upper_hex all
parse_digits [] = none
parse_digits (d ∷ ds) =
    if (not (length ds == 0) && (d == b'0')) || not (all is_upper_hex (d ∷ ds))
    then none
    else from_chars (d ∷ ds)

unfoldable pub parse_address : List ℕ → Option ℕ
unfolding parse_digits
parse_address [] = none
parse_address (z ∷ []) = none
parse_address (z ∷ x ∷ digits) =
    if not (z == b'0') || not (x == b'x') then none else parse_digits digits
