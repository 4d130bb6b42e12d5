-- ===== src/Reader/Pattern.antt =====
-- `CompileMaskedPattern` and `MaskedPatternMatcher::FindNext` of native/host/memory_reader.cpp. The
-- optional statistics, which the host never asks for, are left out.
pub mod Search
mod Tests
use Prim.Native.Nat.{bit_and}
use mathlib.Core.Option
use cfb27_lua_hook.Prelude.{
  ℕ, zero, suc, ◌+◌, ◌-◌, Bool, true, false, ◌&&◌, ◌||◌, not, Option, none, some, List, [], ◌∷◌,
  ltb, leb, ◌==◌, if◌then◌else◌, length, get_or,
}

-- A check of one byte of the pattern.
pub record Check : Type 0 where
  pub offset : ℕ
  pub mask : ℕ
  pub value : ℕ

pub record MaskedPatternMatcher : Type 0 where
  pub pattern_size : ℕ
  pub checks : List Check

-- The checks of the bytes that the mask selects.
unfoldable pub compile_checks : ℕ → List ℕ → List ℕ → List Check
compile_checks offset [] ms = []
compile_checks offset (p ∷ ps) [] = []
compile_checks offset (p ∷ ps) (m ∷ ms) =
    let rest = compile_checks (offset + 1) ps ms in
    if m == 0 then rest else record { offset = offset; mask = m; value = bit_and p m } ∷ rest

-- The first check of a whole byte among `cs`, and `cs` with `c` in its place.
unfoldable pub exchange : Check → List Check → Option (Check × List Check)
exchange c [] = none
exchange c (d ∷ ds) =
    let later = Option.map (λ e. (e.0, d ∷ e.1)) (exchange c ds) in
    if d.mask == 255 then some (d, c ∷ ds) else later

-- `std::iter_swap` of the first check with the first check of a whole byte, the anchor.
unfoldable pub anchor_first : List Check → List Check
anchor_first [] = []
anchor_first (c ∷ cs) =
    if c.mask == 255
    then c ∷ cs
    else (elim (exchange c cs) [ none ↦ c ∷ cs | some (full, rest) ↦ full ∷ rest ])

unfoldable pub compile_masked_pattern : List ℕ → List ℕ → Option MaskedPatternMatcher
compile_masked_pattern pattern mask =
    if (length pattern == 0) || not (length pattern == length mask)
    then none
    else some (record {
      pattern_size = length pattern;
      checks = anchor_first (compile_checks 0 pattern mask);
    })

-- `std::memchr`: how far behind `position` the value stands first, within `count` bytes.
unfoldable pub memchr : List ℕ → ℕ → ℕ → ℕ → Option ℕ
memchr bytes value position zero = none
memchr bytes value position (suc count) =
    let later = Option.map suc (memchr bytes value (position + 1) count) in
    if get_or bytes position 0 == value then some 0 else later

-- `(bytes[candidate + check.offset] & check.mask) == check.value`.
abbrev pub holds_at : List ℕ → ℕ → Check → Bool
holds_at bytes candidate c = bit_and (get_or bytes (candidate + c.offset) 0) c.mask == c.value

unfoldable pub matches_at : List Check → List ℕ → ℕ → Bool
matches_at [] bytes candidate = true
matches_at (c ∷ cs) bytes candidate = holds_at bytes candidate c && matches_at cs bytes candidate

-- The candidate that the anchor lets come next.
unfoldable pub skip : List Check → List ℕ → ℕ → ℕ → Option ℕ
skip [] bytes candidate candidate_end = some candidate
skip (anchor ∷ cs) bytes candidate candidate_end =
    if anchor.mask == 255
    then Option.map (λ d. candidate + d)
        (memchr bytes anchor.value (candidate + anchor.offset) (candidate_end - candidate))
    else some candidate

-- Each round moves the candidate on, so as many rounds as there are candidates are enough.
unfoldable pub find_loop : ℕ → List Check → List ℕ → ℕ → ℕ → Option ℕ
find_loop zero checks bytes candidate candidate_end = none
find_loop (suc rounds) checks bytes candidate candidate_end = elim (ltb candidate candidate_end) [
  | false ↦ none
  | true ↦ elim (skip checks bytes candidate candidate_end) [
    | none ↦ none
    | some c ↦ elim (matches_at checks bytes c) [
      | true ↦ some c
      | false ↦ find_loop rounds checks bytes (c + 1) candidate_end
    ]
  ]
]

unfoldable pub find_next : MaskedPatternMatcher → List ℕ → ℕ → ℕ → Option ℕ
find_next matcher bytes first_candidate candidate_end =
    if leb candidate_end first_candidate
      || (ltb (length bytes) matcher.pattern_size
          || ltb (length bytes - matcher.pattern_size + 1) candidate_end)
    then none
    else (elim matcher.checks [
      | [] ↦ some first_candidate
      | c ∷ cs ↦
          find_loop (candidate_end - first_candidate) (c ∷ cs) bytes first_candidate candidate_end
    ])
