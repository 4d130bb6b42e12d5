-- ===== src/Board/Memory.antt =====
-- native/host/board_mutation.cpp: guarded reads of the game's memory.
use Prim.Native.Nat.{bit_and, min}
use native.Mathlib.Decide.{dec_lt}
use cfb27_lua_hook.Prelude.{
  ℕ, zero, suc, ◌+◌, ◌-◌, ◌*◌, ◌%◌, ◌^◌, ◌≤◌, ◌<◌, ◌≡◌, refl, inl, inr, Bool, true, false, ◌&&◌,
  ◌||◌, not, Option, none, some, List, [], ◌∷◌, arith, ltb, ◌==◌, if◌then◌else◌, ltb→lt, Bool-cases,
  Option-cases,
}
use cfb27_lua_hook.NativeCall.{Process, page_guard_or_noaccess}

abbrev pub uintptr_max : ℕ
uintptr_max = 2 ^ 64 - 1

-- PAGE_READONLY, PAGE_READWRITE, PAGE_WRITECOPY, and the same three of executable pages.
unfoldable pub readable_protection : ℕ → Bool
readable_protection protection =
    let base = bit_and protection 0xFF in
    (bit_and protection page_guard_or_noaccess == 0)
    && ((base == 0x02)
        || ((base == 0x04)
            || ((base == 0x08) || ((base == 0x20) || ((base == 0x40) || (base == 0x80))))))

unfoldable pub writable_protection : ℕ → Bool
writable_protection protection =
    let base = bit_and protection 0xFF in
    (bit_and protection page_guard_or_noaccess == 0)
    && ((base == 0x04) || ((base == 0x08) || ((base == 0x40) || (base == 0x80))))

-- A little-endian word, as `memcpy` into an unsigned integer gives it.
unfoldable pub word_value : List ℕ → ℕ
word_value [] = 0
word_value (b ∷ bs) = b + 256 * word_value bs

module _ {S : Type 0} (process : Process S) where
  -- The page that holds `cursor` may be read; its end, which must lie beyond.
  unfoldable pub readable_page : ℕ → S → Option ℕ
  readable_page cursor s = elim (process.query cursor s) [
    | none ↦ none
    | some info ↦
        let region_end = (info.base + info.size) % 2 ^ 64 in
        if info.is_commit && (readable_protection info.protect && ltb cursor region_end)
        then some region_end
        else none
  ]

  -- The walk over pages. Each round moves the cursor by one byte at least, so as many rounds as
  -- there are bytes are enough.
  unfoldable pub walk : ℕ → ℕ → ℕ → S → Bool
  walk zero cursor end s = not (ltb cursor end)
  walk (suc rounds) cursor end s = elim (ltb cursor end) [
    | false ↦ true
    | true ↦ elim (readable_page cursor s) [
      | none ↦ false
      | some region_end ↦ walk rounds (min end region_end) end s
    ]
  ]

  unfoldable pub readable_range : ℕ → ℕ → S → Bool
  readable_range address size s =
      if (address == 0) || ((size == 0) || ltb (uintptr_max - size) address)
      then false
      else walk size address (address + size) s

  -- `ReadValue` of so many bytes.
  unfoldable pub read_value : ℕ → ℕ → S → Option ℕ
  read_value size address s =
      let from = address % 2 ^ 64 in
      if readable_range from size s
      then elim (process.copy from size s) [ none ↦ none | some bytes ↦ some (word_value bytes) ]
      else none

  abbrev pub read32 : ℕ → S → Option ℕ
  read32 address s = read_value 4 address s

  abbrev pub read64 : ℕ → S → Option ℕ
  read64 address s = read_value 8 address s

  -- Every byte of the range lies on a page that may be read.
  abbrev pub Covered : ℕ → ℕ → S → Type 0
  Covered cursor end s =
      (x : ℕ)
      → cursor ≤ x
      → x < end
      → (c : ℕ) × (e : ℕ) × (readable_page c s ≡ some e) × (c ≤ x) × (x < e)

  readable_page-lt : (cursor e : ℕ) (s : S) → readable_page cursor s ≡ some e → cursor < e
  unfolding readable_page
  readable_page-lt cursor e s h = elim (Option-cases (process.query cursor s)) [
    | inl unmapped ↦ ground arith
    | inr (info, mapped) ↦ ground arith
  ]

  walk-Covered :
      (rounds cursor end : ℕ) (s : S) → walk rounds cursor end s ≡ true → Covered cursor end s
  unfolding walk
  walk-Covered zero cursor end s h = λ x lo hi. absurd (ground arith)
  walk-Covered (suc rounds) cursor end s h = elim (Bool-cases (ltb cursor end)) [
    | inr done ↦ λ x lo hi. absurd (ground arith)
    | inl more ↦ elim (Option-cases (readable_page cursor s)) [
      | inl unreadable ↦ ground arith
      | inr (e, found) ↦
          let rest : walk rounds (min end e) end s ≡ true = ground arith in
          λ x lo hi. elim (dec_lt x e) [
            | yes here ↦ (cursor, e, found, lo, here)
            | no later ↦ walk-Covered rounds (min end e) end s rest x (omega arith) hi
          ]
    ]
  ]

  walk_complete :
      (rounds cursor end : ℕ) (s : S)
      → end ≤ cursor + rounds
      → ((x : ℕ) → cursor ≤ x → x < end → (e : ℕ) × (readable_page x s ≡ some e))
      → walk rounds cursor end s ≡ true
  unfolding walk
  walk_complete zero cursor end s enough h = ground arith
  walk_complete (suc rounds) cursor end s enough h = elim (Bool-cases (ltb cursor end)) [
    | inr done ↦ rw (done, walk) refl
    | inl more ↦
        let inside = ltb→lt cursor end more in
        let (e, found) = h cursor (omega arith) inside in
        let beyond = readable_page-lt cursor e s found in
        rw (more, walk, found)
          (walk_complete rounds (min end e) end s (omega arith) (λ x lo hi. h x (omega arith) hi))
  ]

  -- A range that `ReadableRange` accepts is not empty, stays in the address space and has every byte
  -- on a page that was found readable.
  pub readable_range-Covered :
      (address size : ℕ) (s : S)
      → readable_range address size s ≡ true
      → (0 < size) × (address + size ≤ uintptr_max) × Covered address (address + size) s
  unfolding readable_range
  readable_range-Covered address size s h =
      elim (Bool-cases ((address == 0) || ((size == 0) || ltb (uintptr_max - size) address))) [
        | inl refused ↦ ground arith
        | inr fine ↦ (
          ground arith,
          ground arith,
          walk-Covered size address (address + size) s (ground arith),
        )
      ]

  -- `ReadableRange` accepts a range that starts above 0, is not empty, stays in the address space and
  -- from whose every byte a query finds a readable page: the rounds of the walk are enough.
  pub readable_range-accepts :
      (address size : ℕ) (s : S)
      → 0 < address
      → 0 < size
      → address + size ≤ uintptr_max
      → ((x : ℕ) → address ≤ x → x < address + size → (e : ℕ) × (readable_page x s ≡ some e))
      → readable_range address size s ≡ true
  unfolding readable_range
  readable_range-accepts address size s pos full fits pages =
      ground (arith, walk_complete size address (address + size) s (omega arith) pages)
