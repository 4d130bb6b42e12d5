-- ===== src/Frtk/Field/Storage.antt =====
-- native/host/frtk_field_schema.cpp: `ReadStorage`, and the loop of `EncodeField` that stores a word.
use cfb27_lua_hook.Prelude.{
  ℕ, zero, suc, ◌+◌, ◌*◌, ◌/◌, ◌%◌, ◌^◌, ◌≤◌, ◌<◌, ◌≡◌, refl, ◌∙◌, ◌⊎◌, inl, inr, List, [], ◌∷◌,
  arith, length, get_or, modify, length-modify, get_or-modify_ne, get_or-modify_self, All,
}
use cfb27_lua_hook.Prelude.Bits.{pow_byte}

-- The bytes from `offset` on as one number, after the given rounds of the loop.
unfoldable pub read_storage : List ℕ → ℕ → ℕ → ℕ
read_storage bytes offset zero = 0
read_storage bytes offset (suc index) =
    read_storage bytes offset index * 2 ^ 8 + get_or bytes (offset + index) 0

-- `for (index = storage_bytes; index-- > 0;)`: the low byte of what remains goes last.
unfoldable pub store : List ℕ → ℕ → ℕ → ℕ → List ℕ
store bytes offset zero remaining = bytes
store bytes offset (suc index) remaining =
    store (modify bytes (offset + index) (λ _. remaining % 2 ^ 8)) offset index (remaining / 2 ^ 8)

pub length-store :
    (bytes : List ℕ) (offset n v : ℕ) → length (store bytes offset n v) ≡ length bytes
unfolding store
length-store bytes offset zero v = refl
length-store bytes offset (suc n) v =
    length-store (modify bytes (offset + n) (λ _. v % 2 ^ 8)) offset n (v / 2 ^ 8)
    ∙ length-modify bytes (offset + n) (λ _. v % 2 ^ 8)

-- Bytes before the word and after it stay.
pub get_or-store_outside :
    (bytes : List ℕ) (offset n v i : ℕ)
    → (i < offset) ⊎ (offset + n ≤ i)
    → get_or (store bytes offset n v) i 0 ≡ get_or bytes i 0
unfolding store
get_or-store_outside bytes offset zero v i h = refl
get_or-store_outside bytes offset (suc n) v i h =
    get_or-store_outside (modify bytes (offset + n) (λ _. v % 2 ^ 8)) offset n (v / 2 ^ 8) i
      (apart h)
    ∙ get_or-modify_ne bytes (offset + n) i (λ _. v % 2 ^ 8) 0 (omega arith)
  where
    apart : (i < offset) ⊎ (offset + suc n ≤ i) → (i < offset) ⊎ (offset + n ≤ i)
    apart (inl k) = inl k
    apart (inr k) = inr (omega arith)

-- A word that fits is read back.
pub read_storage-store :
    (bytes : List ℕ) (offset n v : ℕ)
    → offset + n ≤ length bytes
    → v < 2 ^ (n * 8)
    → read_storage (store bytes offset n v) offset n ≡ v
unfolding read_storage store
read_storage-store bytes offset zero v h k = omega arith
read_storage-store bytes offset (suc n) v h k =
    let inner = modify bytes (offset + n) (λ _. v % 2 ^ 8) in
    let low : get_or (store inner offset n (v / 2 ^ 8)) (offset + n) 0 ≡ v % 2 ^ 8 =
      get_or-store_outside inner offset n (v / 2 ^ 8) (offset + n) (inr (omega arith))
      ∙ get_or-modify_self bytes (offset + n) (λ _. v % 2 ^ 8) 0 (omega arith) in
    let high : read_storage (store inner offset n (v / 2 ^ 8)) offset n ≡ v / 2 ^ 8 =
      read_storage-store inner offset n (v / 2 ^ 8)
        (omega (arith, length-modify bytes (offset + n) (λ _. v % 2 ^ 8)))
        (omega (arith, pow_byte n)) in
    rw (low, high) (omega arith)

All-get_or : (bytes : List ℕ) (i : ℕ) → All (λ b. b < 256) bytes → get_or bytes i 0 < 256
All-get_or [] i h = omega arith
All-get_or (b ∷ bs) zero h = h.0
All-get_or (b ∷ bs) (suc i) h = All-get_or bs i h.1

-- Bytes below 256 give a number below `2 ^ (n * 8)`.
pub read_storage-lt :
    (bytes : List ℕ) (offset n : ℕ)
    → All (λ b. b < 256) bytes
    → read_storage bytes offset n < 2 ^ (n * 8)
unfolding read_storage
read_storage-lt bytes offset zero h = omega arith
read_storage-lt bytes offset (suc n) h =
    omega (arith, pow_byte n, read_storage-lt bytes offset n h, All-get_or bytes (offset + n) h)
