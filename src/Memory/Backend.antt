-- ===== src/Memory/Backend.antt =====
-- native/host/memory_transaction.h, `MemoryBackend`: the interface through which a transaction
-- reaches memory. Its state `S` is what the calls read and change, the process memory and all
-- that other threads do to it; `ProcessMemoryBackend` fills it by calls of the operating system.
use mathlib.Core.Path.{ap₂}
use native.Mathlib.Decide.{dec_lt}
use cfb27_lua_hook.Prelude.{
  ℕ, zero, suc, ◌+◌, ◌≤◌, ◌<◌, ◌≡◌, refl, ap, ◌⊎◌, Bool, true, Option, some, List, [], ◌∷◌, arith,
  length,
}

-- `read` gives the bytes that the call filled in, or `none` where it returned false.
pub record MemoryBackend (S : Type 0) : Type 0 where
  pub validate : ℕ → ℕ → Bool → S → Bool × S
  pub read : ℕ → ℕ → S → Option (List ℕ) × S
  pub write : ℕ → List ℕ → S → Bool × S

-- The `n` bytes from address `a` on.
unfoldable pub bytes_at : (ℕ → ℕ) → ℕ → ℕ → List ℕ
bytes_at view a zero = []
bytes_at view a (suc n) = view a ∷ bytes_at view (a + 1) n

-- The address `x` is not one of the `n` from `a` on.
abbrev pub Outside : ℕ → ℕ → ℕ → Type 0
Outside a n x = (x < a) ⊎ (a + n ≤ x)

-- A backend over memory that nobody else changes during the transaction: validation and reads
-- change no byte, a read returns the bytes, a write changes none outside its range, and one that
-- reports success has stored its bytes. A write that fails may have stored any part of them.
pub record IsCoherent {S : Type 0} (b : MemoryBackend S) (view : S → ℕ → ℕ) : Type 0 where
  pub validate_keeps :
      (a n : ℕ) (w : Bool) (s : S) (x : ℕ) → view (b.validate a n w s).1 x ≡ view s x
  pub read_keeps : (a n : ℕ) (s : S) (x : ℕ) → view (b.read a n s).1 x ≡ view s x
  pub read_view :
      (a n : ℕ) (s : S) (bs : List ℕ) → (b.read a n s).0 ≡ some bs → bs ≡ bytes_at (view s) a n
  pub write_outside :
      (a : ℕ) (bs : List ℕ) (s : S) (x : ℕ)
      → Outside a (length bs) x
      → view (b.write a bs s).1 x ≡ view s x
  pub write_view :
      (a : ℕ) (bs : List ℕ) (s : S)
      → (b.write a bs s).0 ≡ true
      → bytes_at (view (b.write a bs s).1) a (length bs) ≡ bs

-- A backend none of whose calls fails.
pub record IsReliable {S : Type 0} (b : MemoryBackend S) : Type 0 where
  pub validates : (a n : ℕ) (w : Bool) (s : S) → (b.validate a n w s).0 ≡ true
  pub reads : (a n : ℕ) (s : S) → (bs : List ℕ) × ((b.read a n s).0 ≡ some bs)
  pub writes : (a : ℕ) (bs : List ℕ) (s : S) → (b.write a bs s).0 ≡ true

pub length-bytes_at : (view : ℕ → ℕ) (a n : ℕ) → length (bytes_at view a n) ≡ n
unfolding bytes_at
length-bytes_at view a zero = refl
length-bytes_at view a (suc n) = ap suc (length-bytes_at view (a + 1) n)

-- Equal bytes from `a` on are equal at each address among them.
pub bytes_at-eq :
    (f g : ℕ → ℕ) (a n x : ℕ) → bytes_at f a n ≡ bytes_at g a n → a ≤ x → x < a + n → f x ≡ g x
unfolding bytes_at
bytes_at-eq f g a zero x e lo hi = absurd (omega arith)
bytes_at-eq f g a (suc n) x e lo hi = elim (dec_lt a x) [
  | yes later ↦ bytes_at-eq f g (a + 1) n x (cc) (omega arith) (omega arith)
  | no here ↦ let same : x ≡ a = omega arith in rw same (cc)
]

-- Memory that agrees at each address of a range gives the same bytes.
pub bytes_at-cong :
    (f g : ℕ → ℕ) (a n : ℕ)
    → ((x : ℕ) → a ≤ x → x < a + n → f x ≡ g x)
    → bytes_at f a n ≡ bytes_at g a n
unfolding bytes_at
bytes_at-cong f g a zero h = refl
bytes_at-cong f g a (suc n) h =
    ap₂ ◌∷◌ (h a (omega arith) (omega arith))
      (bytes_at-cong f g (a + 1) n (λ x lo hi. h x (omega arith) (omega arith)))
