-- ===== src/Reader/Pattern/Tests.antt =====
-- Searches for a small pattern.
use cfb27_lua_hook.Prelude.{ℕ, ◌+◌, ◌≡◌, refl, some, List, [], ◌∷◌, arith}
use cfb27_lua_hook.Reader.Pattern.{
  MaskedPatternMatcher, compile_checks, exchange, anchor_first, compile_masked_pattern, memchr,
  matches_at, skip, find_loop, find_next,
}
use cfb27_lua_hook.Reader.Pattern.Search.{stands_at, first_match, find_next-first_match}

-- The pattern 0x1_ 0xAB 0x00 with the low half of its first byte free and its last byte skipped.
abbrev matcher : MaskedPatternMatcher
matcher = record {
  pattern_size = 3;
  checks =
      record { offset = 1; mask = 255; value = 0xAB }
      ∷ record { offset = 0; mask = 0xF0; value = 0x10 }
      ∷ [];
}

abbrev bytes : List ℕ
bytes = 0x17 ∷ 0x20 ∷ 0xAB ∷ 0x13 ∷ 0xAB ∷ 9 ∷ 0xAB ∷ []

compile_test : compile_masked_pattern (0x1C ∷ 0xAB ∷ 7 ∷ []) (0xF0 ∷ 255 ∷ 0 ∷ []) ≡ some matcher
unfolding compile_masked_pattern anchor_first exchange compile_checks
compile_test = refl

find_test : find_next matcher bytes 0 5 ≡ some 3
unfolding find_next find_loop skip matches_at memchr
find_test = refl

find_next-first_match_example :
    find_next matcher bytes 0 (0 + 5)
    ≡ first_match (stands_at (0x1C ∷ 0xAB ∷ 7 ∷ []) (0xF0 ∷ 255 ∷ 0 ∷ []) bytes) 5 0
find_next-first_match_example =
    find_next-first_match (0x1C ∷ 0xAB ∷ 7 ∷ []) (0xF0 ∷ 255 ∷ 0 ∷ []) bytes matcher 0 5
      compile_test (omega arith) (omega arith) (omega arith)
