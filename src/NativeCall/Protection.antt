-- ===== src/NativeCall/Protection.antt =====
-- The flags of a page's protection that native/host/native_call.cpp tests with `&`, as arithmetic.
use Prim.Native.Nat.{min, digits, bit_and, bit_and-bitwise}
use cfb27_lua_hook.Prelude.{ℕ, zero, suc, ◌+◌, ◌*◌, ◌/◌, ◌%◌, ◌^◌, ◌≤◌, ◌≡◌, refl, ap, ◌∙◌, arith}

-- The digits of `&`, from the lowest on, where `n` is at least as many as the first number has.
and_from : ℕ → ℕ → ℕ → ℕ
and_from n a b = digits (λ y. 0) min n a b

and_from-more : (n a b : ℕ) → a ≤ n → and_from n a b ≡ and_from (suc n) a b
unfolding and_from
and_from-more zero zero b h = refl
and_from-more zero (suc a) b h = absurd (omega arith)
and_from-more (suc n) zero b h = refl
and_from-more (suc n) (suc a) b h =
    ap (λ (d : ℕ). d * 2 + min (suc a % 2) (b % 2))
      (and_from-more n (suc a / 2) (b / 2) (omega arith))

-- One digit.
and_from-half :
    (n a b : ℕ) → a ≤ n → and_from n a b ≡ and_from n (a / 2) (b / 2) * 2 + min (a % 2) (b % 2)
unfolding and_from
and_from-half zero zero b h = omega arith
and_from-half zero (suc a) b h = absurd (omega arith)
and_from-half (suc n) zero b h = omega arith
and_from-half (suc n) (suc a) b h =
    ap (λ (d : ℕ). d * 2 + min (suc a % 2) (b % 2))
      (and_from-more n (suc a / 2) (b / 2) (omega arith))

and_from-zero : (n a : ℕ) → and_from n a 0 ≡ 0
unfolding and_from
and_from-zero zero a = refl
and_from-zero (suc n) zero = refl
and_from-zero (suc n) (suc a) = omega (arith, and_from-zero n (suc a / 2))

-- A digit that the mask has not, and one that it has.
and_from-even : (n a b : ℕ) → a ≤ n → and_from n a (b * 2) ≡ and_from n (a / 2) b * 2
and_from-even n a b h =
    let half : b * 2 / 2 ≡ b = omega arith in
    let digit : b * 2 % 2 ≡ 0 = omega arith in
    and_from-half n a (b * 2) h ∙ rw (half, digit) (ground arith)

and_from-odd : (n a b : ℕ) → a ≤ n → and_from n a (b * 2 + 1) ≡ and_from n (a / 2) b * 2 + a % 2
and_from-odd n a b h =
    let half : (b * 2 + 1) / 2 ≡ b = omega arith in
    let digit : (b * 2 + 1) % 2 ≡ 1 = omega arith in
    and_from-half n a (b * 2 + 1) h ∙ rw (half, digit) (ground arith)

-- Four digits that the mask has not.
and_from-skip :
    (n a b : ℕ)
    → a ≤ n
    → and_from n a (b * 2 * 2 * 2 * 2) ≡ and_from n (a / 2 / 2 / 2 / 2) b * 2 ^ 4
and_from-skip n a b h = omega (
  arith,
  and_from-even n a (b * 2 * 2 * 2) h,
  and_from-even n (a / 2) (b * 2 * 2) (omega arith),
  and_from-even n (a / 2 / 2) (b * 2) (omega arith),
  and_from-even n (a / 2 / 2 / 2) b (omega arith),
)

bit_and-from : (a b : ℕ) → bit_and a b ≡ and_from a a b
unfolding and_from
bit_and-from a b = simp bit_and-bitwise refl

-- PAGE_GUARD is the flag 2 ^ 8, PAGE_NOACCESS the flag 1.
pub bit_and-guard_or_noaccess : (p : ℕ) → bit_and p 0x101 ≡ p / 2 ^ 8 % 2 * 2 ^ 8 + p % 2
bit_and-guard_or_noaccess p =
    bit_and-from p 0x101
    ∙ omega (
      arith,
      and_from-odd p p 128 (omega arith),
      and_from-even p (p / 2) 64 (omega arith),
      and_from-even p (p / 2 / 2) 32 (omega arith),
      and_from-even p (p / 2 / 2 / 2) 16 (omega arith),
      and_from-skip p (p / 2 / 2 / 2 / 2) 1 (omega arith),
      and_from-odd p (p / 2 / 2 / 2 / 2 / 2 / 2 / 2 / 2) 0 (omega arith),
      and_from-zero p (p / 2 / 2 / 2 / 2 / 2 / 2 / 2 / 2 / 2),
    )

-- PAGE_EXECUTE and its three variants are the flags from 2 ^ 4 to 2 ^ 7.
pub bit_and-executable : (p : ℕ) → bit_and p 0xF0 ≡ p / 2 ^ 4 % 2 ^ 4 * 2 ^ 4
bit_and-executable p =
    let a = p / 2 / 2 / 2 / 2 in
    bit_and-from p 0xF0
    ∙ omega (
      arith,
      and_from-skip p p 15 (omega arith),
      and_from-odd p a 7 (omega arith),
      and_from-odd p (a / 2) 3 (omega arith),
      and_from-odd p (a / 2 / 2) 1 (omega arith),
      and_from-odd p (a / 2 / 2 / 2) 0 (omega arith),
      and_from-zero p (a / 2 / 2 / 2 / 2),
    )
