-- ===== src/Reader/Scan/Occurrence.antt =====
-- A match of the scan of native/host/memory_reader.cpp is an occurrence of the pattern, and its context
-- shows it.
use cfb27_lua_hook.Prelude.{
  ℕ, zero, suc, ◌+◌, ◌-◌, ◌≤◌, ◌<◌, ◌≡◌, refl, sym, ap, subst, ◌∙◌, inl, inr, true, Option, some,
  List, [], ◌∷◌, arith, ltb, ◌==◌, ltb→lt, Bool-cases, Option-cases, length, get_or, take, drop,
}
use cfb27_lua_hook.Reader.Pattern.{
  MaskedPatternMatcher, compile_masked_pattern, anchor_first, compile_checks, Check, memchr, skip,
  matches_at, find_loop, find_next,
}
use cfb27_lua_hook.Reader.Pattern.Search.{stands_at, compiled-stands_at}
use cfb27_lua_hook.Reader.Scan.Matches.{
  ScanRequest, ScanMatch, Chunk, match_at, context_start, context_end,
}
use cfb27_lua_hook.Reader.Region.{Host}
use cfb27_lua_hook.Reader.Scan.Allocation.{AllocationMetadata}

memchr-lt :
    (bytes : List ℕ) (value position count d : ℕ)
    → memchr bytes value position count ≡ some d
    → d < count
unfolding memchr
memchr-lt bytes value position zero d h = absurd (ground arith)
memchr-lt bytes value position (suc count) d h =
    elim (Option-cases (memchr bytes value (position + 1) count)) [
      | inl nothing ↦ ground arith
      | inr (d', found) ↦ ground (arith, memchr-lt bytes value (position + 1) count d' found)
    ]

skip-lt :
    (checks : List Check) (bytes : List ℕ) (candidate end c : ℕ)
    → candidate < end
    → skip checks bytes candidate end ≡ some c
    → c < end
unfolding skip
skip-lt [] bytes candidate end c lt h = ground arith
skip-lt (anchor ∷ cs) bytes candidate end c lt h = elim (Bool-cases (anchor.mask == 255)) [
  | inr part ↦ ground arith
  | inl whole ↦
      elim (Option-cases
        (memchr bytes anchor.value (candidate + anchor.offset) (end - candidate))) [
          | inl nothing ↦ absurd (ground arith)
          | inr (d, found) ↦
              let near =
                memchr-lt bytes anchor.value (candidate + anchor.offset) (end - candidate) d
                  found in
              ground arith
        ]
]

find_loop-match :
    (rounds : ℕ) (checks : List Check) (bytes : List ℕ) (candidate end c : ℕ)
    → find_loop rounds checks bytes candidate end ≡ some c
    → (c < end) × (matches_at checks bytes c ≡ true)
unfolding find_loop
find_loop-match zero checks bytes candidate end c h = absurd (ground arith)
find_loop-match (suc rounds) checks bytes candidate end c h =
    elim (Bool-cases (ltb candidate end)) [
      | inr done ↦ absurd (ground arith)
      | inl more ↦ elim (Option-cases (skip checks bytes candidate end)) [
        | inl nothing ↦ absurd (ground arith)
        | inr (c', found) ↦
            let near = skip-lt checks bytes candidate end c' (ltb→lt candidate end more) found in
            ground (arith, find_loop-match rounds checks bytes (c' + 1) end c)
      ]
    ]

matches_at_nil : (bytes : List ℕ) (c : ℕ) → matches_at [] bytes c ≡ true
unfolding matches_at
matches_at_nil bytes c = refl

find_next-match :
    (matcher : MaskedPatternMatcher) (bytes : List ℕ) (first end c : ℕ)
    → find_next matcher bytes first end ≡ some c
    → (c < end) × (matches_at matcher.checks bytes c ≡ true)
unfolding find_next
find_next-match matcher bytes first end c h =
    ground (
      arith,
      find_loop-match (end - first) matcher.checks bytes first end c,
      matches_at_nil bytes c,
    )

-- What a compiled pattern finds stands there.
pub find_next-stands_at :
    (pattern mask bytes : List ℕ) (matcher : MaskedPatternMatcher) (first end c : ℕ)
    → compile_masked_pattern pattern mask ≡ some matcher
    → find_next matcher bytes first end ≡ some c
    → (c < end) × (stands_at pattern mask bytes c ≡ true)
unfolding compile_masked_pattern
find_next-stands_at pattern mask bytes matcher first end c compiled h =
    let (near, match) = find_next-match matcher bytes first end c h in
    let checks : matcher.checks ≡ anchor_first (compile_checks 0 pattern mask) = ground arith in
    (
      near,
      sym (compiled-stands_at pattern mask bytes c)
          ∙ subst (λ cs. matches_at cs bytes c ≡ true) checks match,
    )

get_or-drop : (n : ℕ) (xs : List ℕ) (i : ℕ) → get_or (drop n xs) i 0 ≡ get_or xs (n + i) 0
get_or-drop zero xs i = let e : zero + i ≡ i = omega arith in rw e refl
get_or-drop (suc n) [] i = refl
get_or-drop (suc n) (x ∷ xs) i =
    let e : suc n + i ≡ suc (n + i) = omega arith in rw e (get_or-drop n xs i)

get_or-take : (n : ℕ) (xs : List ℕ) (i : ℕ) → i < n → get_or (take n xs) i 0 ≡ get_or xs i 0
get_or-take zero xs i h = absurd (omega arith)
get_or-take (suc n) [] i h = refl
get_or-take (suc n) (x ∷ xs) zero h = refl
get_or-take (suc n) (x ∷ xs) (suc i) h = get_or-take n xs i (omega arith)

stands_at-cong :
    (ps ms xs ys : List ℕ) (i j : ℕ)
    → ((k : ℕ) → k < length ps → get_or xs (i + k) 0 ≡ get_or ys (j + k) 0)
    → stands_at ps ms xs i ≡ stands_at ps ms ys j
unfolding stands_at
stands_at-cong [] ms xs ys i j h = refl
stands_at-cong (p ∷ ps) [] xs ys i j h = refl
stands_at-cong (p ∷ ps) (m ∷ ms) xs ys i j h =
    let here_i : i + 0 ≡ i = omega arith in
    let here_j : j + 0 ≡ j = omega arith in
    let here : get_or xs i 0 ≡ get_or ys j 0 = rw (here_i, here_j) at (h 0 (omega arith)) in
    let rest = stands_at-cong ps ms xs ys (i + 1) (j + 1) (λ k lt.
      let next_i : i + suc k ≡ i + 1 + k = omega arith in
      let next_j : j + suc k ≡ j + 1 + k = omega arith in
      rw (next_i, next_j) at (h (suc k) (omega arith))) in
    rw (here, rest) refl

-- The pattern stands in the context, at most `context_before` bytes from its start.
abbrev pub Shows : ScanRequest → ScanMatch → Type 0
Shows request m =
    (k : ℕ) × (k ≤ request.context_before)
    × (stands_at request.pattern.bytes request.mask.bytes m.context.bytes k ≡ true)

context-bounds :
    (request : ScanRequest) (size offset : ℕ)
    → offset + length request.pattern.bytes ≤ size
    → (context_start request offset ≤ offset)
      × (offset ≤ context_start request offset + request.context_before)
      × (offset + length request.pattern.bytes ≤ context_end request size offset)
unfolding context_start context_end
context-bounds request size offset fits = (ground arith, ground arith, ground arith)

pub match_at-Shows :
    {S : Type 0} (host : Host S) (request : ScanRequest) (matcher : MaskedPatternMatcher)
    (chunk : Chunk) (bytes : List ℕ) (offset address : ℕ) (allocation : Option AllocationMetadata)
    → offset + length request.pattern.bytes ≤ length bytes
    → stands_at request.pattern.bytes request.mask.bytes bytes offset ≡ true
    → Shows request (match_at host request matcher chunk bytes offset address allocation)
unfolding match_at
match_at-Shows host request matcher chunk bytes offset address allocation fits stands =
    let start = context_start request offset in
    let stop = context_end request (length bytes) offset in
    let context = take (stop - start) (drop start bytes) in
    let (before, near, after) = context-bounds request (length bytes) offset fits in
    let same =
      stands_at-cong request.pattern.bytes request.mask.bytes context bytes (offset - start) offset
        (λ j lt.
          let place : start + (offset - start + j) ≡ offset + j = omega arith in
          get_or-take (stop - start) (drop start bytes) (offset - start + j) (omega arith)
          ∙ get_or-drop start bytes (offset - start + j)
          ∙ ap (λ (i : ℕ). get_or bytes i 0) place) in
    (offset - start, omega arith, same ∙ stands)
