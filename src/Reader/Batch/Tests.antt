-- ===== src/Reader/Batch/Tests.antt =====
-- Batches over one private page.
use cfb27_lua_hook.Prelude.{
  ℕ, zero, suc, ◌≤◌, ◌<◌, ◌≡◌, refl, true, false, ◌&&◌, none, some, List, [], ◌∷◌, ltb, leb,
  if◌then◌else◌, length, all,
}
use cfb27_lua_hook.Reader.Region.{
  Host, is_readable_protection, is_eligible_private_readable_region, is_within,
  is_within_one_eligible_region, add_overflows,
}
use cfb27_lua_hook.Reader.Text.{
  is_hex, digit_of, digits_value, parse_hex, strip_prefix, parse_address,
}
use cfb27_lua_hook.Reader.Batch.{
  ReadRange, BatchReadResult, check_range, has_invalid_length, validate_ranges, read_exactly,
  read_ranges, read_memory_batch, Answers, total_of, max_read_bytes, max_read_ranges,
  read_memory_batch-Answers,
}

abbrev repeat : ℕ → ℕ → List ℕ
repeat zero b = []
repeat (suc n) b = b ∷ repeat n b

-- A page of 4096 bytes at 0x2000, each byte 7.
abbrev page : Host (Unit {0})
page = record {
  query = λ a s. (
    if leb 0x2000 a && ltb a 0x3000
        then some (record {
          base = 0x2000;
          size = 0x1000;
          is_commit = true;
          is_private = true;
          protect = 4;
          allocation_base = 0x2000;
          allocation_protect = 4;
        })
        else none,
    s,
  );
  read = λ a n s. (some (repeat n 7), s);
  allocate = λ n s. (some 0x900000, s);
  cancel = λ s. (false, s);
  minimum = 0x1000;
  maximum = 0x2FFF;
}

-- Three bytes at 0x2004.
abbrev ranges : List ReadRange
ranges = record { address = b'0' ∷ b'x' ∷ b'2' ∷ b'0' ∷ b'0' ∷ b'4' ∷ []; size = 3 } ∷ []

-- Three bytes of which the last lies beyond the page.
abbrev outside : List ReadRange
outside = record { address = b'0' ∷ b'x' ∷ b'2' ∷ b'F' ∷ b'F' ∷ b'E' ∷ []; size = 3 } ∷ []

abbrev batch : List ReadRange → BatchReadResult
batch asked = (read_memory_batch page asked tt).0

ok_test : (batch ranges).ok ≡ true
unfolding read_memory_batch validate_ranges check_range has_invalid_length parse_address
    strip_prefix parse_hex digits_value digit_of is_hex all add_overflows
    is_within_one_eligible_region is_within is_eligible_private_readable_region
    is_readable_protection read_ranges read_exactly
ok_test = refl

outside_test : (batch outside).ok ≡ false
unfolding read_memory_batch validate_ranges check_range has_invalid_length parse_address
    strip_prefix parse_hex digits_value digit_of is_hex all add_overflows
    is_within_one_eligible_region is_within is_eligible_private_readable_region
    is_readable_protection read_ranges read_exactly
outside_test = refl

read_memory_batch-Answers_example :
    Answers ranges (batch ranges).ranges
    × (total_of ranges ≤ max_read_bytes)
    × (0 < length ranges)
    × (length ranges ≤ max_read_ranges)
read_memory_batch-Answers_example = read_memory_batch-Answers page ranges tt ok_test
