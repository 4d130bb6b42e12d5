-- ===== src/Reader/Pattern/Search.antt =====
-- The search of native/host/memory_reader.cpp against the plain one: look at each candidate in turn,
-- and compare each byte of the pattern under its mask.
use Prim.Native.Nat.{bit_and}
use mathlib.Core.Option
use mathlib.Core.Path.{fun_ext}
use cfb27_lua_hook.Prelude.{
  ℕ, zero, suc, ◌+◌, ◌-◌, ◌≤◌, ◌<◌, ◌≡◌, refl, sym, ap, subst, ◌∙◌, inl, inr, Bool, true, false,
  ◌&&◌, ◌||◌, not, Option, none, some, List, [], ◌∷◌, arith, ltb, leb, ◌==◌, if◌then◌else◌, ==→eq,
  Bool-cases, Option-cases, and-true, length, get_or, All,
}
use cfb27_lua_hook.Reader.Pattern.{
  Check, MaskedPatternMatcher, compile_checks, exchange, anchor_first, compile_masked_pattern,
  memchr, holds_at, matches_at, skip, find_loop, find_next,
}

-- The pattern stands at the position under its mask.
unfoldable pub stands_at : List ℕ → List ℕ → List ℕ → ℕ → Bool
stands_at [] ms bytes position = true
stands_at (p ∷ ps) [] bytes position = true
stands_at (p ∷ ps) (m ∷ ms) bytes position =
    ((m == 0) || (bit_and (get_or bytes position 0) m == bit_and p m))
    && stands_at ps ms bytes (position + 1)

-- The first of `count` candidates from `candidate` on that passes the test.
unfoldable pub first_match : (ℕ → Bool) → ℕ → ℕ → Option ℕ
first_match test zero candidate = none
first_match test (suc count) candidate =
    let later = first_match test count (candidate + 1) in
    if test candidate then some candidate else later

-- A mask of all bits keeps a byte.
below : ℕ → (ℕ → Bool) → Bool
below zero p = true
below (suc n) p = p n && below n p

below_sound : (n : ℕ) (p : ℕ → Bool) (x : ℕ) → below n p ≡ true → x < n → p x ≡ true
unfolding below
below_sound zero p x h lt = absurd (omega arith)
below_sound (suc n) p x h lt = ground (arith, below_sound n p x)

byte_table : below 256 (λ x. bit_and x 255 == x) ≡ true
unfolding below
byte_table = refl

bit_and-byte : (x : ℕ) → x < 256 → bit_and x 255 ≡ x
bit_and-byte x h = ==→eq _ x (below_sound 256 (λ y. bit_and y 255 == y) x byte_table h)

abbrev pub AreBytes : List ℕ → Type 0
AreBytes bytes = All (λ b. b < 256) bytes

get_or-lt : (bytes : List ℕ) (i : ℕ) → AreBytes bytes → get_or bytes i 0 < 256
get_or-lt [] i h = omega arith
get_or-lt (b ∷ bs) zero h = h.0
get_or-lt (b ∷ bs) (suc i) h = get_or-lt bs i h.1

-- The compiled checks say what the pattern and the mask say.
compile_checks-stands_at :
    (offset : ℕ) (ps ms bytes : List ℕ) (candidate : ℕ)
    → matches_at (compile_checks offset ps ms) bytes candidate
      ≡ stands_at ps ms bytes (candidate + offset)
unfolding compile_checks matches_at stands_at
compile_checks-stands_at offset [] ms bytes candidate = refl
compile_checks-stands_at offset (p ∷ ps) [] bytes candidate = refl
compile_checks-stands_at offset (p ∷ ps) (m ∷ ms) bytes candidate =
    let next : candidate + offset + 1 ≡ candidate + (offset + 1) = omega arith in
    ground (
      arith,
      compile_checks-stands_at (offset + 1) ps ms bytes candidate,
      ap (stands_at ps ms bytes) next,
    )

exchange-matches_at :
    (c : Check) (cs : List Check) (full : Check) (rest : List Check) (bytes : List ℕ)
    (candidate : ℕ)
    → exchange c cs ≡ some (full, rest)
    → matches_at (full ∷ rest) bytes candidate ≡ matches_at (c ∷ cs) bytes candidate
unfolding exchange matches_at
exchange-matches_at c [] full rest bytes candidate h = ground arith
exchange-matches_at c (d ∷ ds) full rest bytes candidate h = elim (Bool-cases (d.mask == 255)) [
  | inl whole ↦ ground arith
  | inr part ↦ elim (Option-cases (exchange c ds)) [
    | inl none_there ↦ ground arith
    | inr (e, there) ↦ ground (arith, exchange-matches_at c ds e.0 e.1 bytes candidate)
  ]
]

anchor_first-matches_at :
    (cs : List Check) (bytes : List ℕ) (candidate : ℕ)
    → matches_at (anchor_first cs) bytes candidate ≡ matches_at cs bytes candidate
unfolding anchor_first
anchor_first-matches_at [] bytes candidate = refl
anchor_first-matches_at (c ∷ cs) bytes candidate = elim (Bool-cases (c.mask == 255)) [
  | inl whole ↦ ground arith
  | inr part ↦ elim (Option-cases (exchange c cs)) [
    | inl none_there ↦ ground arith
    | inr (e, there) ↦ ground (arith, exchange-matches_at c cs e.0 e.1 bytes candidate)
  ]
]

pub compiled-stands_at :
    (pattern mask bytes : List ℕ) (candidate : ℕ)
    → matches_at (anchor_first (compile_checks 0 pattern mask)) bytes candidate
      ≡ stands_at pattern mask bytes candidate
compiled-stands_at pattern mask bytes candidate =
    let here : candidate + 0 ≡ candidate = omega arith in
    anchor_first-matches_at (compile_checks 0 pattern mask) bytes candidate
    ∙ compile_checks-stands_at 0 pattern mask bytes candidate
    ∙ ap (stands_at pattern mask bytes) here

module _ (test : ℕ → Bool) (bytes : List ℕ) where
  -- What `memchr` passes over does not pass the test; what it finds comes next.
  abbrev Skipped : ℕ → ℕ → Option ℕ → Type 0
  Skipped count candidate none = first_match test count candidate ≡ none
  Skipped count candidate (some d) =
      (k : ℕ) × (count ≡ d + suc k)
      × (first_match test count candidate ≡ first_match test (suc k) (candidate + d))

  Skipped-step :
      (count candidate : ℕ) (found : Option ℕ)
      → test candidate ≡ false
      → Skipped count (candidate + 1) found
      → Skipped (suc count) candidate (Option.map suc found)
  unfolding first_match
  Skipped-step count candidate none no_match h = ground arith
  Skipped-step count candidate (some d) no_match (k, size, same) =
      let place : candidate + 1 + d ≡ candidate + suc d = omega arith in
      (k, omega arith, ground (arith, ap (first_match test (suc k)) place))

  memchr-Skipped :
      (value offset : ℕ)
      → ((c : ℕ) → test c ≡ true → get_or bytes (c + offset) 0 ≡ value)
      → (count candidate : ℕ)
      → Skipped count candidate (memchr bytes value (candidate + offset) count)
  unfolding memchr first_match
  memchr-Skipped value offset h zero candidate = refl
  memchr-Skipped value offset h (suc count) candidate =
      elim (Bool-cases (get_or bytes (candidate + offset) 0 == value)) [
        | inl here ↦
            let place : candidate + 0 ≡ candidate = omega arith in
            rw here (count, omega arith, ap (first_match test (suc count)) (sym place))
        | inr elsewhere ↦
            let place : candidate + offset + 1 ≡ candidate + 1 + offset = omega arith in
            rw (elsewhere, place)
              (Skipped-step count candidate _
                (elim (Bool-cases (test candidate)) [
                  | inl passes ↦ ground (arith, h candidate passes)
                  | inr fails ↦ fails
                ])
                (memchr-Skipped value offset h count (candidate + 1)))
      ]

-- The same for the step of the search, whose candidates are absolute.
abbrev Next : List Check → List ℕ → ℕ → ℕ → Option ℕ → Type 0
Next checks bytes count candidate none =
    first_match (matches_at checks bytes) count candidate ≡ none
Next checks bytes count candidate (some c) =
    (d : ℕ) × (k : ℕ) × (c ≡ candidate + d)
    × (count ≡ d + suc k)
    × (first_match (matches_at checks bytes) count candidate
        ≡ first_match (matches_at checks bytes) (suc k) c)

Skipped-Next :
    (checks : List Check) (bytes : List ℕ) (count candidate : ℕ) (found : Option ℕ)
    → Skipped (matches_at checks bytes) bytes count candidate found
    → Next checks bytes count candidate (Option.map (λ d. candidate + d) found)
Skipped-Next checks bytes count candidate none h = h
Skipped-Next checks bytes count candidate (some d) (k, size, same) = (d, k, refl, size, same)

-- Where an anchor of a whole byte holds, the byte is the anchor's.
anchor-byte :
    (anchor : Check) (cs : List Check) (bytes : List ℕ)
    → AreBytes bytes
    → (anchor.mask == 255) ≡ true
    → (c : ℕ) → matches_at (anchor ∷ cs) bytes c ≡ true
    → get_or bytes (c + anchor.offset) 0 ≡ anchor.value
unfolding matches_at
anchor-byte anchor cs bytes are whole c h =
    let byte = get_or bytes (c + anchor.offset) 0 in
    let mask : anchor.mask ≡ 255 = ==→eq _ _ whole in
    let (here, rest) = and-true (holds_at bytes c anchor) (matches_at cs bytes c) h in
    sym (bit_and-byte byte (get_or-lt bytes (c + anchor.offset) are))
    ∙ ap (bit_and byte) (sym mask)
    ∙ ==→eq (bit_and byte anchor.mask) anchor.value here

skip-Next :
    (checks : List Check) (bytes : List ℕ) (count candidate : ℕ)
    → AreBytes bytes
    → Next checks bytes (suc count) candidate (skip checks bytes candidate (candidate + suc count))
unfolding skip
skip-Next [] bytes count candidate are = (0, count, omega arith, omega arith, refl)
skip-Next (anchor ∷ cs) bytes count candidate are = elim (Bool-cases (anchor.mask == 255)) [
  | inr part ↦ rw part (0, count, omega arith, omega arith, refl)
  | inl whole ↦
      let size : candidate + suc count - candidate ≡ suc count = omega arith in
      rw (whole, size)
        (Skipped-Next (anchor ∷ cs) bytes (suc count) candidate _ (
          memchr-Skipped (matches_at (anchor ∷ cs) bytes) bytes anchor.value anchor.offset
            (anchor-byte anchor cs bytes are whole) (suc count) candidate))
]

matches_at_nil : (bytes : List ℕ) (c : ℕ) → matches_at [] bytes c ≡ true
unfolding matches_at
matches_at_nil bytes c = refl

first_match_zero : (test : ℕ → Bool) (c : ℕ) → none ≡ first_match test 0 c
unfolding first_match
first_match_zero test c = refl

first_match-hit : (test : ℕ → Bool) (k c : ℕ) → test c ≡ true → first_match test (suc k) c ≡ some c
unfolding first_match
first_match-hit test k c h = rw h

first_match-miss :
    (test : ℕ → Bool) (k c : ℕ)
    → test c ≡ false
    → first_match test (suc k) c ≡ first_match test k (c + 1)
unfolding first_match
first_match-miss test k c h = rw h

find_loop-first_match :
    (rounds : ℕ) (checks : List Check) (bytes : List ℕ) (count candidate : ℕ)
    → AreBytes bytes
    → count ≤ rounds
    → find_loop rounds checks bytes candidate (candidate + count)
      ≡ first_match (matches_at checks bytes) count candidate
unfolding find_loop
find_loop-first_match zero checks bytes zero candidate are h = first_match_zero _ candidate
find_loop-first_match zero checks bytes (suc count) candidate are h = absurd (omega arith)
find_loop-first_match (suc rounds) checks bytes zero candidate are h =
    let done : ltb candidate (candidate + 0) ≡ false = ground arith in
    rw (done, find_loop) (first_match_zero _ candidate)
find_loop-first_match (suc rounds) checks bytes (suc count) candidate are h =
    let more : ltb candidate (candidate + suc count) ≡ true = ground arith in
    let next = skip-Next checks bytes count candidate are in
    elim (Option-cases (skip checks bytes candidate (candidate + suc count))) [
      | inl nothing ↦
          rw (more, nothing, find_loop)
            (sym (subst (Next checks bytes (suc count) candidate) nothing next))
      | inr (c, found) ↦
          let (d, k, place, size, same) =
            subst (Next checks bytes (suc count) candidate) found next in
          elim (Bool-cases (matches_at checks bytes c)) [
            | inl match ↦
                rw (more, found, match, find_loop) (sym (same ∙ first_match-hit _ k c match))
            | inr no_match ↦
                let end : candidate + suc count ≡ c + 1 + k = omega arith in
                rw (more, found, no_match, end, find_loop)
                  (find_loop-first_match rounds checks bytes k (c + 1) are (omega arith)
                    ∙ sym (same ∙ first_match-miss _ k c no_match))
          ]
    ]

find_checks :
    (checks : List Check) (bytes : List ℕ) (first_candidate count : ℕ)
    → AreBytes bytes
    → 0 < count
    → (elim checks as (λ _. Option ℕ) [
      | [] ↦ some first_candidate
      | c ∷ cs ↦
          find_loop
            (first_candidate + count - first_candidate)
            (c ∷ cs)
            bytes
            first_candidate
            (first_candidate + count)
    ])
      ≡ first_match (matches_at checks bytes) count first_candidate
find_checks [] bytes first_candidate zero are pos = absurd (omega arith)
find_checks [] bytes first_candidate (suc k) are pos =
    sym (
      first_match-hit (matches_at [] bytes) k first_candidate
        (matches_at_nil bytes first_candidate))
find_checks (c ∷ cs) bytes first_candidate count are pos =
    find_loop-first_match (first_candidate + count - first_candidate) (c ∷ cs) bytes count
      first_candidate are (omega arith)

-- On bytes, `FindNext` of a compiled pattern, over candidates where the pattern fits, gives what the
-- plain search gives: the first candidate at which every byte of the pattern agrees under its mask.
pub find_next-first_match :
    (pattern mask bytes : List ℕ) (matcher : MaskedPatternMatcher) (first_candidate count : ℕ)
    → compile_masked_pattern pattern mask ≡ some matcher
    → AreBytes bytes
    → 0 < count
    → first_candidate + count + length pattern ≤ length bytes + 1
    → find_next matcher bytes first_candidate (first_candidate + count)
      ≡ first_match (stands_at pattern mask bytes) count first_candidate
unfolding find_next compile_masked_pattern
find_next-first_match pattern mask bytes matcher first_candidate count compiled are pos fits =
    let checks = anchor_first (compile_checks 0 pattern mask) in
    elim (Bool-cases ((length pattern == 0) || not (length pattern == length mask))) [
      | inl bad ↦ ground arith
      | inr good ↦
          let built : matcher ≡ record { pattern_size = length pattern; checks = checks } =
            ground arith in
          let inside : (leb (first_candidate + count) first_candidate
                || (ltb (length bytes) (length pattern)
                    || ltb (length bytes - length pattern + 1) (first_candidate + count)))
              ≡ false =
            ground arith in
          let agree : matches_at checks bytes ≡ stands_at pattern mask bytes =
            fun_ext (λ c. compiled-stands_at pattern mask bytes c) in
          rw (built, inside)
            (find_checks checks bytes first_candidate count are pos
              ∙ ap (λ (test : ℕ → Bool). first_match test count first_candidate) agree)
    ]
