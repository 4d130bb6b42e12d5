-- ===== src/Reader/Scan/Tests.antt =====
-- A scan of one private page of a small address space.
use cfb27_lua_hook.Prelude.{
  ℕ, zero, suc, ◌+◌, ◌*◌, ◌≡◌, refl, true, false, none, some, List, [], ◌∷◌, leb, if◌then◌else◌,
  take,
}
use cfb27_lua_hook.Reader.Region.{
  Host, is_readable_protection, is_eligible_private_readable_region, add_overflows, overlaps_range,
  saturating_increment, saturating_add,
}
use cfb27_lua_hook.Reader.Text.{format_address, lower_digit, to_chars, to_hex, to_upper}
use cfb27_lua_hook.Reader.Pattern.{
  compile_checks, exchange, anchor_first, compile_masked_pattern, memchr, matches_at, skip,
  find_loop, find_next,
}
use cfb27_lua_hook.Reader.Scan.Matches.{
  ScanRequest, ScanResult, public_raw, search_window, match_loop, find_matches, make_match,
  with_metadata, is_own_memory, overlaps_match_context, context_start, context_end, match_at,
}
use cfb27_lua_hook.Reader.Scan.{
  scan_private_memory, is_valid_request, start_cursor, scan_loop, visit_region, chunk_of,
  scan_chunk, count_chunk, after_chunk, classify_scan_page_boundary,
}
use cfb27_lua_hook.Reader.Scan.Total.{scan_private_memory-total}
use cfb27_lua_hook.Reader.Scan.Fair.{IsFair}
use cfb27_lua_hook.Reader.Scan.Bounds.{scan_private_memory-IsFair}

abbrev repeat : ℕ → ℕ → List ℕ
repeat zero b = []
repeat (suc n) b = b ∷ repeat n b

-- The pattern stands at the third byte of the page.
abbrev page_bytes : List ℕ
page_bytes = 0 ∷ 0 ∷ 1 ∷ 2 ∷ 3 ∷ 4 ∷ 5 ∷ 6 ∷ 7 ∷ 8 ∷ 9 ∷ 9 ∷ []

-- The page has 12 bytes from 0x2000 on; nothing else can be read, and each call counts.
abbrev page : Host ℕ
page = record {
  query = λ a s. (
    some (
        if leb 0x2000 a
        then record {
          base = 0x2000;
          size = 12;
          is_commit = true;
          is_private = true;
          protect = 4;
          allocation_base = 0x2000;
          allocation_protect = 4;
        }
        else record {
          base = 0;
          size = 0x2000;
          is_commit = false;
          is_private = false;
          protect = 1;
          allocation_base = 0;
          allocation_protect = 0;
        }),
    s + 1,
  );
  read = λ a n s. (some (take n page_bytes), s + 1);
  allocate = λ n s. (some (0x90000000 + s * 0x1000000), s + 1);
  cancel = λ s. (false, s);
  minimum = 0x1FFE;
  maximum = 0x200B;
}

abbrev request : ScanRequest
request = record {
  pattern = record { address = 0x70000000; bytes = 1 ∷ 2 ∷ 3 ∷ 4 ∷ 5 ∷ 6 ∷ 7 ∷ 8 ∷ [] };
  mask = record { address = 0x71000000; bytes = repeat 8 255 };
  max_matches = 4;
  context_before = 1;
  context_after = 1;
  cursor = none;
  include_allocation_metadata = false;
  purpose = public_raw;
}

scan_private_memory-total_example :
    (result : ScanResult) × (s' : ℕ) × (scan_private_memory page request 0 ≡ some (result, s'))
scan_private_memory-total_example = scan_private_memory-total page request 0

abbrev expected : ScanResult
expected = record {
  complete = true;
  code = "";
  scanned_bytes = 12;
  progress_scanned_bytes = 12;
  chunks_scanned = 1;
  candidate_windows = 2;
  next_cursor = none;
  matches =
      record {
        address = b'0' ∷ b'x' ∷ b'2' ∷ b'0' ∷ b'0' ∷ b'2' ∷ [];
        region_base = b'0' ∷ b'x' ∷ b'2' ∷ b'0' ∷ b'0' ∷ b'0' ∷ [];
        region_size = 12;
        protection = 4;
        context_address = b'0' ∷ b'x' ∷ b'2' ∷ b'0' ∷ b'0' ∷ b'1' ∷ [];
        context = record {
          address = 0x94000000;
          bytes = 0 ∷ 1 ∷ 2 ∷ 3 ∷ 4 ∷ 5 ∷ 6 ∷ 7 ∷ 8 ∷ 9 ∷ [];
        };
        allocation = none;
      }
      ∷ [];
}

scan_test : scan_private_memory page request 0 ≡ some (expected, 5)
unfolding scan_private_memory compile_masked_pattern is_valid_request add_overflows start_cursor
    scan_loop visit_region is_eligible_private_readable_region is_readable_protection scan_chunk
    chunk_of find_matches match_loop search_window find_next anchor_first compile_checks find_loop
    exchange matches_at memchr skip overlaps_range saturating_add saturating_increment context_end
    context_start is_own_memory make_match match_at overlaps_match_context with_metadata after_chunk
    classify_scan_page_boundary count_chunk format_address lower_digit to_chars to_hex to_upper
scan_test = refl

scan_private_memory-IsFair_example : IsFair request expected
scan_private_memory-IsFair_example = scan_private_memory-IsFair page request 0 expected 5 scan_test
