-- ===== src/Reader/Text/RoundTrip.antt =====
-- An address that native/host/memory_reader.cpp has formatted is read back, by its own parser and by
-- the stricter one of native/host/memory_transaction.cpp.
use native.Mathlib.Nat.{pow-suc}
use cfb27_lua_hook.Prelude.{
  ℕ, zero, suc, ◌+◌, ◌*◌, ◌/◌, ◌%◌, ◌^◌, ◌≤◌, ◌<◌, ◌≡◌, refl, ap, subst, inl, inr, Bool, true,
  false, ◌&&◌, not, some, List, [], ◌∷◌, ◌++◌, map, arith, ltb, ◌==◌, ltb→lt, Bool-cases, and-true,
  length, all,
}
use cfb27_lua_hook.Prelude.Bits.{div-lt}
use cfb27_lua_hook.Memory.Address.{
  uintptr_max, is_upper_hex, hex_digit, hex_value, from_chars, parse_digits,
}
use cfb27_lua_hook.Memory.Address
use cfb27_lua_hook.Reader.Text.{
  is_hex, digit_of, digits_value, parse_hex, strip_prefix, parse_address, lower_digit, to_upper,
  upper_digit, to_hex, to_chars, format_address,
}

to_upper-lower_digit : (d : ℕ) → d < 16 → to_upper (lower_digit d) ≡ upper_digit d
unfolding to_upper lower_digit upper_digit
to_upper-lower_digit d h = ground arith

map-append_one : (f : ℕ → ℕ) (xs : List ℕ) (x : ℕ) → map f (xs ++ x ∷ []) ≡ map f xs ++ f x ∷ []
map-append_one f [] x = refl
map-append_one f (y ∷ ys) x = ap (λ zs. f y ∷ zs) (map-append_one f ys x)

pub map-to_hex : (n v : ℕ) → map to_upper (to_hex lower_digit n v) ≡ to_hex upper_digit n v
unfolding to_hex
map-to_hex zero v = refl
map-to_hex (suc n) v = elim (Bool-cases (ltb v 16)) [
  | inl last ↦ rw last (ap (λ d. d ∷ []) (to_upper-lower_digit v (ltb→lt v 16 last)))
  | inr more ↦ rw (
    more,
    map-append_one to_upper (to_hex lower_digit n (v / 16)) (lower_digit (v % 16)),
    map-to_hex n (v / 16),
    to_upper-lower_digit (v % 16) (omega arith),
  )
]

-- What is kept of the digits of a number: they are upper-case digits of its value.
hex_value-append :
    (acc : ℕ) (cs : List ℕ) (c : ℕ)
    → hex_value acc (cs ++ c ∷ []) ≡ hex_value acc cs * 16 + hex_digit c
unfolding hex_value
hex_value-append acc [] c = refl
hex_value-append acc (d ∷ ds) c = hex_value-append (acc * 16 + hex_digit d) ds c

hex_digit-upper_digit : (d : ℕ) → d < 16 → hex_digit (upper_digit d) ≡ d
unfolding hex_digit upper_digit
hex_digit-upper_digit d h = ground arith

hex_value-to_hex : (n v : ℕ) → v < 16 ^ n → hex_value 0 (to_hex upper_digit n v) ≡ v
unfolding to_hex hex_value
hex_value-to_hex zero v h = omega arith
hex_value-to_hex (suc n) v h = elim (Bool-cases (ltb v 16)) [
  | inl last ↦ rw last (omega (arith, hex_digit-upper_digit v (ltb→lt v 16 last)))
  | inr more ↦
      let front : v / 16 < 16 ^ n =
        div-lt v 16 (16 ^ n) (omega arith) (omega (arith, pow-suc 16 n)) in
      rw more (
        omega (
          arith,
          hex_value-append 0 (to_hex upper_digit n (v / 16)) (upper_digit (v % 16)),
          hex_value-to_hex n (v / 16) front,
          hex_digit-upper_digit (v % 16) (omega arith),
        ))
]

all-append : (p : ℕ → Bool) (xs ys : List ℕ) → all p (xs ++ ys) ≡ (all p xs && all p ys)
unfolding all
all-append p [] ys = refl
all-append p (x ∷ xs) ys = ground (arith, all-append p xs ys)

is_upper_hex-upper_digit : (d : ℕ) → d < 16 → is_upper_hex (upper_digit d) ≡ true
unfolding is_upper_hex upper_digit
is_upper_hex-upper_digit d h = ground arith

all-to_hex : (n v : ℕ) → all is_upper_hex (to_hex upper_digit n v) ≡ true
unfolding to_hex all
all-to_hex zero v = refl
all-to_hex (suc n) v = elim (Bool-cases (ltb v 16)) [
  | inl last ↦ rw (last, is_upper_hex-upper_digit v (ltb→lt v 16 last)) refl
  | inr more ↦
      rw
        (
          more,
          all-append is_upper_hex (to_hex upper_digit n (v / 16)) (upper_digit (v % 16) ∷ []),
          all-to_hex n (v / 16),
          is_upper_hex-upper_digit (v % 16) (omega arith),
        )
        refl
]

upper_digit-pos : (d : ℕ) → 0 < d → d < 16 → (upper_digit d == b'0') ≡ false
unfolding upper_digit
upper_digit-pos d pos h = ground arith

-- There is a first digit; it is zero for zero only, and then it is alone.
abbrev Leads : ℕ → List ℕ → Type 0
Leads v digits =
    (d : ℕ) × (ds : List ℕ) × (digits ≡ d ∷ ds)
    × ((not (length ds == 0) && (d == b'0')) ≡ false)
    × (0 < v → (d == b'0') ≡ false)

to_hex-Leads : (n v : ℕ) → v < 16 ^ suc n → Leads v (to_hex upper_digit (suc n) v)
unfolding to_hex
to_hex-Leads zero v h = elim (Bool-cases (ltb v 16)) [
  | inl last ↦
      rw last (upper_digit v, [], refl, refl, λ pos. upper_digit-pos v pos (ltb→lt v 16 last))
  | inr more ↦ absurd (ground (arith, pow-suc 16 0))
]
to_hex-Leads (suc n) v h = elim (Bool-cases (ltb v 16)) [
  | inl last ↦
      rw last (upper_digit v, [], refl, refl, λ pos. upper_digit-pos v pos (ltb→lt v 16 last))
  | inr more ↦
      let front : v / 16 < 16 ^ suc n =
        div-lt v 16 (16 ^ suc n) (omega arith) (omega (arith, pow-suc 16 (suc n))) in
      let (d, ds, e, alone, lead) = to_hex-Leads n (v / 16) front in
      let pos : 0 < v / 16 = ground arith in
      let end = upper_digit (v % 16) ∷ [] in
      rw more (d, ds ++ end, ap (λ xs. xs ++ end) e, ground (arith, lead pos), λ _. lead pos)
]

-- What both parsers make of the digits.
pub parse_digits-to_hex :
    (v : ℕ) → v ≤ uintptr_max → parse_digits (to_hex upper_digit 16 v) ≡ some v
unfolding parse_digits from_chars
parse_digits-to_hex v h =
    let (d, ds, e, alone, lead) = to_hex-Leads 15 v (omega arith) in
    let upper : all is_upper_hex (d ∷ ds) ≡ true =
      subst (λ xs. all is_upper_hex xs ≡ true) e (all-to_hex 16 v) in
    let value : hex_value 0 (d ∷ ds) ≡ v =
      subst (λ xs. hex_value 0 xs ≡ v) e (hex_value-to_hex 16 v (omega arith)) in
    rw e (ground arith)

digit_of-hex_digit : (c : ℕ) → is_upper_hex c ≡ true → digit_of c ≡ hex_digit c
unfolding is_upper_hex digit_of hex_digit
digit_of-hex_digit c h = ground arith

is_hex-upper : (c : ℕ) → is_upper_hex c ≡ true → is_hex c ≡ true
unfolding is_upper_hex is_hex
is_hex-upper c h = ground arith

digits_value-hex_value :
    (acc : ℕ) (cs : List ℕ)
    → all is_upper_hex cs ≡ true
    → (digits_value acc cs ≡ hex_value acc cs) × (all is_hex cs ≡ true)
unfolding digits_value hex_value all
digits_value-hex_value acc [] h = (refl, refl)
digits_value-hex_value acc (c ∷ cs) h =
    let (upper, rest) = and-true (is_upper_hex c) (all is_upper_hex cs) h in
    let (value, hex) = digits_value-hex_value (acc * 16 + hex_digit c) cs rest in
    rw (digit_of-hex_digit c upper, is_hex-upper c upper) (value, hex)

parse_hex-to_hex : (v : ℕ) → v ≤ uintptr_max → parse_hex (to_hex upper_digit 16 v) ≡ some v
unfolding parse_hex
parse_hex-to_hex v h =
    let (d, ds, e, alone, lead) = to_hex-Leads 15 v (omega arith) in
    let upper : all is_upper_hex (d ∷ ds) ≡ true =
      subst (λ xs. all is_upper_hex xs ≡ true) e (all-to_hex 16 v) in
    let value : hex_value 0 (d ∷ ds) ≡ v =
      subst (λ xs. hex_value 0 xs ≡ v) e (hex_value-to_hex 16 v (omega arith)) in
    let (same, hex) = digits_value-hex_value 0 (d ∷ ds) upper in rw e (ground arith)

-- An address of 64 bits that has been formatted is read back by the parser of the memory reader, and
-- by the parser of the transactions, which takes no prefix but `0x`, no lower case and no leading zeros.
pub parse_address-format_address :
    (address : ℕ)
    → address ≤ uintptr_max
    → (parse_address (format_address address) ≡ some address)
      × (Address.parse_address (format_address address) ≡ some address)
unfolding parse_address Address.parse_address strip_prefix format_address to_chars
parse_address-format_address address h =
    rw (map-to_hex 16 address) (parse_hex-to_hex address h, parse_digits-to_hex address h)
