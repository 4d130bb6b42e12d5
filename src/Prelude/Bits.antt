-- ===== src/Prelude/Bits.antt =====
-- Powers of two, and a field of bits within a number, by division and remainder.
use Prim.Native.Nat.{ℕ, zero, suc, ◌+◌, ◌*◌, ◌/◌, ◌%◌, ◌^◌, ◌≤◌, ◌<◌}
use mathlib.Core.Path.{◌≡◌, ap, ◌∙◌}
use native.Mathlib.Nat.{pow-suc, mod-lt}
use native.Mathlib.Omega.{arith}

pub two_pow_suc : (n : ℕ) → 2 ^ suc n ≡ 2 ^ n * 2
two_pow_suc n = pow-suc 2 n

pub pow-pos : (k : ℕ) → 0 < 2 ^ k
pow-pos zero = omega arith
pow-pos (suc k) = omega (arith, two_pow_suc k, pow-pos k)

pub pow-add : (a b : ℕ) → 2 ^ (a + b) ≡ 2 ^ a * 2 ^ b
pow-add zero b = let step : zero + b ≡ b = omega arith in ap (λ n. 2 ^ n) step ∙ omega arith
pow-add (suc a) b =
    let step : suc a + b ≡ suc (a + b) = omega arith in
    ap (λ n. 2 ^ n) step
    ∙ two_pow_suc (a + b)
    ∙ omega (arith, pow-add a b, ap (λ (t : ℕ). t * 2 ^ b) (two_pow_suc a))

pub pow_byte : (n : ℕ) → 2 ^ (suc n * 8) ≡ 2 ^ (n * 8) * 256
pow_byte n =
    let step : suc n * 8 ≡ n * 8 + 8 = omega arith in ap (λ k. 2 ^ k) step ∙ pow-add (n * 8) 8

pub div-of_mul_add : (q l p : ℕ) → l < p → (q * p + l) / p ≡ q
div-of_mul_add q l p h = grind arith

pub mod-of_mul_add : (q l p : ℕ) → l < p → (q * p + l) % p ≡ l
mod-of_mul_add q l p h = grind arith

pub div-lt : (a p q : ℕ) → 0 < p → a < q * p → a / p < q
div-lt a p q h k = grind arith

mul_room : (a q m : ℕ) → a < q → a * m + m ≤ q * m
mul_room a q m h = grind arith

-- The number `storage` with the bits of weight `p` and above, below weight `w * p`, replaced by `raw`:
-- `(storage & ~mask) | ((raw << shift) & mask)` for `p = 2 ^ shift` and `w = 2 ^ width`.
unfoldable pub replace_bits : ℕ → ℕ → ℕ → ℕ → ℕ
replace_bits storage p w raw = storage / (w * p) * (w * p) + raw % w * p + storage % p

module _ (storage p w raw : ℕ) (hp : 0 < p) (hw : 0 < w) where
  regroup : replace_bits storage p w raw ≡ (storage / (w * p) * w + raw % w) * p + storage % p
  unfolding replace_bits
  regroup = omega arith

  pub replace_bits-low : replace_bits storage p w raw % p ≡ storage % p
  replace_bits-low = rw regroup (mod-of_mul_add _ (storage % p) p (mod-lt storage hp))

  pub replace_bits-field : replace_bits storage p w raw / p % w ≡ raw % w
  replace_bits-field =
      rw
        (
          regroup,
          div-of_mul_add (storage / (w * p) * w + raw % w) (storage % p) p (mod-lt storage hp),
        )
        (mod-of_mul_add _ (raw % w) w (mod-lt raw hw))

  inner-lt : raw % w * p + storage % p < w * p
  inner-lt = grind (arith, mod-lt storage hp, mod-lt raw hw)

  pub replace_bits-high : replace_bits storage p w raw / (w * p) ≡ storage / (w * p)
  unfolding replace_bits
  replace_bits-high =
      let grouped : storage / (w * p) * (w * p) + raw % w * p + storage % p
          ≡ storage / (w * p) * (w * p) + (raw % w * p + storage % p) =
        omega arith in
      rw grouped (div-of_mul_add (storage / (w * p)) _ (w * p) inner-lt)

  pub replace_bits-lt : (q : ℕ) → storage < q * (w * p) → replace_bits storage p w raw < q * (w * p)
  unfolding replace_bits
  replace_bits-lt q h =
      let hi = storage / (w * p) in
      let below = div-lt storage (w * p) q (grind arith) h in
      let room : hi * (w * p) + w * p ≤ q * (w * p) = mul_room hi q (w * p) below in
      omega (arith, inner-lt, room)
