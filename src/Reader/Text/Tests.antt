-- ===== src/Reader/Text/Tests.antt =====
-- Addresses read and written.
use cfb27_lua_hook.Prelude.{◌≡◌, refl, true, some, [], ◌∷◌, arith, all}
use cfb27_lua_hook.Memory.Address
use cfb27_lua_hook.Reader.Text.{
  is_hex, digit_of, digits_value, parse_hex, strip_prefix, parse_address, lower_digit, to_upper,
  to_hex, to_chars, format_address, hex_bytes, nibble, from_upper_hex, decode_scan_hex,
}
use cfb27_lua_hook.Reader.Text.RoundTrip.{parse_address-format_address}

-- 0x1F and 0x1f, of which the transactions take the first only.
upper_test : format_address 31 ≡ b'0' ∷ b'x' ∷ b'1' ∷ b'F' ∷ []
unfolding format_address to_chars to_hex to_upper lower_digit
upper_test = refl

lower_test : parse_address (b'0' ∷ b'X' ∷ b'1' ∷ b'f' ∷ []) ≡ some 31
unfolding parse_address strip_prefix parse_hex digits_value digit_of is_hex all
lower_test = refl

hex_test : decode_scan_hex (λ n. true) (b'A' ∷ b'0' ∷ b'0' ∷ b'9' ∷ []) ≡ some (160 ∷ 9 ∷ [])
unfolding decode_scan_hex from_upper_hex hex_bytes nibble
hex_test = refl

parse_address-format_address_example :
    (parse_address (format_address 0x7FF6AB) ≡ some 0x7FF6AB)
    × (Address.parse_address (format_address 0x7FF6AB) ≡ some 0x7FF6AB)
parse_address-format_address_example = parse_address-format_address 0x7FF6AB (omega arith)
