-- ===== src/Reader/Scan/Matches.antt =====
-- The search of one chunk of native/host/memory_reader.cpp, `ScanPrivateMemory`: the inner loop over
-- candidate windows and the matches that it collects.
use Prim.Native.Nat.{min}
use cfb27_lua_hook.Prelude.{
  ℕ, zero, suc, ◌+◌, ◌-◌, String, Bool, true, false, ◌||◌, Option, none, some, List, [], ◌∷◌, ◌++◌,
  ltb, leb, if◌then◌else◌, length, take, drop,
}
use cfb27_lua_hook.Reader.Text.{format_address}
use cfb27_lua_hook.Reader.Region.{Host, MemoryInfo, overlaps_range, saturating_increment}
use cfb27_lua_hook.Reader.Pattern.{MaskedPatternMatcher, find_next}
use cfb27_lua_hook.Reader.Scan.Allocation.{
  AllocationExtent, AllocationMetadata, resolve_allocation_metadata,
}

-- Bytes in a mapping of their own, at an address.
pub record MappedBytes : Type 0 where
  pub address : ℕ
  pub bytes : List ℕ

pub data ScanPurpose : Type 0 where
  public_raw frtk_internal : ScanPurpose

pub record ScanRequest : Type 0 where
  pub pattern : MappedBytes
  pub mask : MappedBytes
  pub max_matches : ℕ
  pub context_before : ℕ
  pub context_after : ℕ
  pub cursor : Option (List ℕ)
  pub include_allocation_metadata : Bool
  pub purpose : ScanPurpose

pub record ScanMatch : Type 0 where
  pub address : List ℕ
  pub region_base : List ℕ
  pub region_size : ℕ
  pub protection : ℕ
  pub context_address : List ℕ
  pub context : MappedBytes
  pub allocation : Option AllocationMetadata

pub record ScanResult : Type 0 where
  pub complete : Bool
  pub code : String
  pub scanned_bytes : ℕ
  pub progress_scanned_bytes : ℕ
  pub chunks_scanned : ℕ
  pub candidate_windows : ℕ
  pub next_cursor : Option (List ℕ)
  pub matches : List ScanMatch

-- `kMaxMatches`.
abbrev pub max_matches : ℕ
max_matches = 64

abbrev pub candidate_window : ℕ
candidate_window = 4096

pub record Chunk : Type 0 where
  pub cursor : ℕ
  pub unique_bytes : ℕ
  pub lookahead : ℕ
  pub info : MemoryInfo

-- How the search of a chunk ends: the scan returns, or goes on with the next chunk.
pub data Inner (S : Type 0) : Type 0 where
  exhausted : Inner S
  returned : ScanResult → S → Inner S
  finished : ScanResult → List (ℕ × AllocationExtent) → S → Inner S

abbrev pub with_code : ScanResult → String → ScanResult
with_code result code = record result { code = code }

abbrev pub timed_out : ScanResult → ScanResult
timed_out result = record result { matches = []; code = "OPERATION_TIMEOUT" }

unfoldable pub overlaps_match_context : ℕ → ℕ → List ScanMatch → Bool
overlaps_match_context candidate size [] = false
overlaps_match_context candidate size (m ∷ ms) =
    overlaps_range candidate size m.context.address (length m.context.bytes)
    || overlaps_match_context candidate size ms

-- The candidate is the request itself, or the context of an earlier match.
unfoldable pub is_own_memory : ScanRequest → ScanResult → ℕ → Bool
is_own_memory request result address =
    let size = length request.pattern.bytes in
    overlaps_range address size request.pattern.address size
    || (overlaps_range address size request.mask.address (length request.mask.bytes)
        || overlaps_match_context address size result.matches)

unfoldable pub context_start : ScanRequest → ℕ → ℕ
context_start request offset =
    if ltb request.context_before offset then offset - request.context_before else 0

unfoldable pub context_end : ScanRequest → ℕ → ℕ → ℕ
context_end request read_bytes offset =
    let after_start = offset + length request.pattern.bytes in
    if ltb (read_bytes - after_start) request.context_after
    then read_bytes
    else after_start + request.context_after

module _ {S : Type 0} (host : Host S) (request : ScanRequest) (matcher : MaskedPatternMatcher)
    (chunk : Chunk) (bytes : List ℕ) where
  -- The match at an offset, its context copied to the mapping at `context`.
  unfoldable pub match_at : ℕ → ℕ → Option AllocationMetadata → ScanMatch
  match_at offset context allocation =
      let start = context_start request offset in
      record {
        address = format_address (chunk.cursor + offset);
        region_base = format_address chunk.info.base;
        region_size = chunk.info.size;
        protection = chunk.info.protect;
        context_address = format_address (chunk.cursor + start);
        context = record {
          address = context;
          bytes = take (context_end request (length bytes) offset - start) (drop start bytes);
        };
        allocation = allocation;
      }

  abbrev pub append_match : ℕ → ScanResult → ℕ → Option AllocationMetadata → ScanResult
  append_match offset result address allocation = record result {
    matches = result.matches ++ match_at offset address allocation ∷ [];
  }

  -- With the metadata of the allocation, or without.
  unfoldable pub with_metadata :
      Bool → ℕ → ℕ → ScanResult → List (ℕ × AllocationExtent) → S → Inner S
  with_metadata false offset address result extents s =
      finished (append_match offset result address none) extents s
  with_metadata true offset address result extents s =
      elim (resolve_allocation_metadata host (chunk.cursor + offset) chunk.info extents s) [
        | none ↦ exhausted
        | some resolved ↦ elim resolved.metadata [
          | some metadata ↦
              finished (append_match offset result address (some metadata)) resolved.extents
                resolved.state
          | none ↦
              let (cancelled, s') = host.cancel resolved.state in
              returned
                (record result {
                  matches = [];
                  code = if cancelled then "OPERATION_TIMEOUT" else "MEMORY_ACCESS_DENIED";
                })
                s'
        ]
      ]

  -- The match at an offset, its context copied to a mapping of its own.
  unfoldable pub make_match : ℕ → ScanResult → List (ℕ × AllocationExtent) → S → Inner S
  make_match offset result extents s =
      let size = context_end request (length bytes) offset - context_start request offset in
      let (context, s') = host.allocate size s in
      elim context [
        | none ↦ returned (with_code result "MEMORY_ACCESS_DENIED") s'
        | some address ↦
            with_metadata request.include_allocation_metadata offset address result extents s'
      ]

  -- The windows from `offset` on; `windows` are the candidates left, one round for each.
  unfoldable pub search_window :
      (ℕ → ScanResult → List (ℕ × AllocationExtent) → S → Inner S)
      → ℕ
      → ℕ
      → ScanResult
      → List (ℕ × AllocationExtent)
      → S
      → Inner S
  search_window next candidates offset result extents s =
      let (cancelled, s1) = host.cancel s in
      let window_end = min candidates (offset + candidate_window) in
      let counted = record result {
        candidate_windows = saturating_increment result.candidate_windows;
      } in
      elim cancelled [
        | true ↦ returned (timed_out result) s1
        | false ↦ elim (find_next matcher bytes offset window_end) [
          | none ↦ next window_end counted extents s1
          | some found ↦ elim (leb chunk.unique_bytes found) [
            | true ↦ finished counted extents s1
            | false ↦ elim (is_own_memory request counted (chunk.cursor + found)) [
              | true ↦ next (found + 1) counted extents s1
              | false ↦ elim (make_match found counted extents s1) [
                | exhausted ↦ exhausted
                | returned result' s2 ↦ returned result' s2
                | finished result' extents' s2 ↦
                    elim (ltb request.max_matches (length result'.matches)) [
                      | true ↦ returned (with_code result' "TOO_MANY_MATCHES") s2
                      | false ↦ next (found + 1) result' extents' s2
                    ]
              ]
            ]
          ]
        ]
      ]

  -- `candidates` is `last_offset + 1`; a round for each of them, and one to see the end.
  unfoldable pub match_loop : ℕ → ℕ → ℕ → ScanResult → List (ℕ × AllocationExtent) → S → Inner S
  match_loop zero candidates offset result extents s = exhausted
  match_loop (suc rounds) candidates offset result extents s = elim (ltb offset candidates) [
    | false ↦ finished result extents s
    | true ↦ search_window (match_loop rounds candidates) candidates offset result extents s
  ]

  unfoldable pub find_matches : ℕ → ℕ → ScanResult → List (ℕ × AllocationExtent) → S → Inner S
  find_matches candidates offset result extents s =
      match_loop (candidates + 1) candidates offset result extents s
