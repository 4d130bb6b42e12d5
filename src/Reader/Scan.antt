-- ===== src/Reader/Scan.antt =====
-- `ScanPrivateMemory` of native/host/memory_reader.cpp. A loop that runs out of its rounds gives `none`,
-- or `exhausted`, which the theorems exclude. Of the scan buffer only the bytes of the chunk that was
-- read are kept: no candidate reaches beyond them.
pub mod Allocation
pub mod Matches
pub mod Total
pub mod Occurrence
pub mod Fair
pub mod Bounds
mod Tests
use Prim.Native.Nat.{min}
use cfb27_lua_hook.Prelude.{
  ℕ, zero, suc, ◌+◌, ◌-◌, ◌*◌, ◌⊎◌, inl, inr, Bool, true, false, ◌&&◌, ◌||◌, not, Option, none,
  some, List, [], ltb, leb, ◌==◌, if◌then◌else◌, bytes_eq, length,
}
use cfb27_lua_hook.Reader.Text.{parse_address, format_address, max_pattern_bytes}
use cfb27_lua_hook.Reader.Region.{
  Host, MemoryInfo, add_overflows, is_eligible_private_readable_region, saturating_increment,
  saturating_add,
}
use cfb27_lua_hook.Reader.Pattern.{MaskedPatternMatcher, compile_masked_pattern}
use Allocation.{AllocationExtent}
use Matches.{
  ScanRequest, ScanPurpose, public_raw, frtk_internal, ScanResult, Chunk, Inner, returned, finished,
  exhausted, find_matches, max_matches, with_code, timed_out,
}

abbrev pub scan_chunk_bytes : ℕ
scan_chunk_bytes = 4 * 1024 * 1024

abbrev pub max_scan_page_bytes : ℕ
max_scan_page_bytes = 32 * 1024 * 1024

abbrev pub max_context_bytes : ℕ
max_context_bytes = 512

-- `kMinFrtkPatternBytes` and `kMinPatternBytes`.
abbrev pub minimum_pattern_bytes : ScanPurpose → ℕ
minimum_pattern_bytes frtk_internal = 4
minimum_pattern_bytes public_raw = 8

unfoldable pub is_valid_request : ScanRequest → Bool
is_valid_request request =
    leb (minimum_pattern_bytes request.purpose) (length request.pattern.bytes)
    && (leb (length request.pattern.bytes) max_pattern_bytes
        && ((length request.mask.bytes == length request.pattern.bytes)
            && (not (request.max_matches == 0)
                && (leb request.max_matches max_matches
                    && (not (add_overflows request.context_before request.context_after)
                        && leb (request.context_before + request.context_after)
                            max_context_bytes)))))

-- Where to start: at the lowest address, or at a cursor in canonical form.
unfoldable pub start_cursor : {S : Type 0} → Host S → Option (List ℕ) → Option ℕ
start_cursor host none = some host.minimum
start_cursor host (some text) = elim (parse_address text) [
  | none ↦ none
  | some parsed ↦
      if not (bytes_eq (format_address parsed) text)
        || (ltb parsed host.minimum || ltb host.maximum parsed)
      then none
      else some parsed
]

pub data ScanPageBoundary : Type 0 where
  continues incomplete complete : ScanPageBoundary

unfoldable pub classify_scan_page_boundary : ℕ → ℕ → ℕ → ScanPageBoundary
classify_scan_page_boundary cursor maximum scanned_bytes =
    if ltb maximum cursor
    then complete
    else if scanned_bytes == max_scan_page_bytes
    then incomplete
    else continues

abbrev pub empty_result : ScanResult
empty_result = record {
  complete = false;
  code = "";
  scanned_bytes = 0;
  progress_scanned_bytes = 0;
  chunks_scanned = 0;
  candidate_windows = 0;
  next_cursor = none;
  matches = [];
}

-- What a region asks for: an error, the next region, or a chunk to read.
pub data Visit : Type 0 where
  leave : ScanResult → Visit
  pass : ℕ → Visit
  visit : Chunk → Visit

abbrev pub region_end : MemoryInfo → ℕ
region_end info = info.base + info.size

-- The chunk at the cursor: the bytes that are its own, and those behind them that a match may need.
unfoldable pub chunk_of : ScanRequest → ScanResult → MemoryInfo → ℕ → Chunk
chunk_of request result info cursor =
    let unique =
      min (region_end info - cursor)
        (min scan_chunk_bytes (max_scan_page_bytes - result.scanned_bytes)) in
    record {
      cursor = cursor;
      unique_bytes = unique;
      lookahead = min (length request.pattern.bytes - 1) (region_end info - (cursor + unique));
      info = info;
    }

-- `scan_buffer` is the address of the buffer, of `capacity` bytes.
unfoldable pub visit_region : ScanRequest → ℕ → ℕ → ℕ → ScanResult → MemoryInfo → ℕ → Visit
visit_region request scan_buffer capacity maximum result info cursor =
    if add_overflows info.base info.size || leb (region_end info) cursor
    then leave (with_code result "INVALID_REQUEST")
    else if not (is_eligible_private_readable_region info)
        || (ltb cursor (scan_buffer + capacity) && ltb scan_buffer (region_end info))
    then (if ltb maximum (region_end info)
        then leave (record result { complete = true })
        else pass (region_end info))
    else if max_scan_page_bytes - result.scanned_bytes == 0
    then leave (record result { next_cursor = some (format_address cursor) })
    else visit (chunk_of request result info cursor)

module _ {S : Type 0} (host : Host S) (request : ScanRequest) (matcher : MaskedPatternMatcher) where
  -- The counts after a chunk was read, before its bytes are searched.
  unfoldable pub count_chunk : ScanResult → Chunk → ScanResult
  count_chunk result chunk = record result {
    chunks_scanned = saturating_increment result.chunks_scanned;
    progress_scanned_bytes = saturating_add result.progress_scanned_bytes chunk.unique_bytes;
  }

  -- Reads the chunk and searches it.
  unfoldable pub scan_chunk : ScanResult → Chunk → List (ℕ × AllocationExtent) → S → Inner S
  scan_chunk result chunk extents s =
      let (cancelled, s1) = host.cancel s in
      let size = chunk.unique_bytes + chunk.lookahead in
      let (copied, s2) = host.read chunk.cursor size s1 in
      let counted = count_chunk result chunk in
      if cancelled then returned (timed_out result) s1 else (elim copied [
        | none ↦ returned (with_code result "MEMORY_ACCESS_DENIED") s2
        | some bytes ↦
            if not (length bytes == size)
            then returned (with_code result "MEMORY_ACCESS_DENIED") s2
            else if leb (length request.pattern.bytes) size
            then find_matches host request matcher chunk bytes
                (size - length request.pattern.bytes + 1) 0 counted extents s2
            else finished counted extents s2
      ])

  -- What follows a chunk that was searched.
  unfoldable pub after_chunk : ScanResult → Chunk → ScanResult ⊎ (ScanResult × ℕ)
  after_chunk result chunk =
      let cursor = chunk.cursor + chunk.unique_bytes in
      let result' = record result { scanned_bytes = result.scanned_bytes + chunk.unique_bytes } in
      elim (classify_scan_page_boundary cursor host.maximum result'.scanned_bytes) [
        | complete ↦ inl (record result' { complete = true })
        | incomplete ↦ inl (record result' { next_cursor = some (format_address cursor) })
        | continues ↦ inr (result', cursor)
      ]

  unfoldable pub scan_loop :
      ℕ → ℕ → ℕ → ℕ → ScanResult → List (ℕ × AllocationExtent) → S → Option (ScanResult × S)
  scan_loop zero scan_buffer capacity cursor result extents s = none
  scan_loop (suc rounds) scan_buffer capacity cursor result extents s =
      elim (leb cursor host.maximum) [
        | false ↦ some (record result { complete = true }, s)
        | true ↦
            let (cancelled, s1) = host.cancel s in
            let (found, s2) = host.query cursor s1 in
            elim cancelled [
              | true ↦ some (timed_out result, s1)
              | false ↦ elim found [
                | none ↦ some (with_code result "MEMORY_ACCESS_DENIED", s2)
                | some info ↦
                    elim (visit_region request scan_buffer capacity host.maximum result info
                      cursor) [
                        | leave result' ↦ some (result', s2)
                        | pass next ↦ scan_loop rounds scan_buffer capacity next result extents s2
                        | visit chunk ↦ elim (scan_chunk result chunk extents s2) [
                          | exhausted ↦ none
                          | returned result' s3 ↦ some (result', s3)
                          | finished result' extents' s3 ↦ elim (after_chunk result' chunk) [
                            | inl done ↦ some (done, s3)
                            | inr (result'', next) ↦
                                scan_loop rounds scan_buffer capacity next result'' extents' s3
                          ]
                        ]
                      ]
              ]
            ]
      ]

-- As many rounds as there are addresses from the cursor on, and one more.
unfoldable pub scan_private_memory :
    {S : Type 0} → Host S → ScanRequest → S → Option (ScanResult × S)
scan_private_memory host request s =
    elim (compile_masked_pattern request.pattern.bytes request.mask.bytes) [
      | none ↦ some (with_code empty_result "INVALID_REQUEST", s)
      | some matcher ↦
          if not (is_valid_request request)
          then some (with_code empty_result "INVALID_REQUEST", s)
          else (elim (start_cursor host request.cursor) [
            | none ↦ some (with_code empty_result "INVALID_REQUEST", s)
            | some cursor ↦
                let capacity = scan_chunk_bytes + length request.pattern.bytes - 1 in
                let (buffer, s') = host.allocate capacity s in
                elim buffer [
                  | none ↦ some (with_code empty_result "MEMORY_ACCESS_DENIED", s')
                  | some address ↦
                      scan_loop host request matcher (host.maximum + 1 - cursor + 1) address
                        capacity cursor empty_result [] s'
                ]
          ])
    ]
