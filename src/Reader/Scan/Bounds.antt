-- ===== src/Reader/Scan/Bounds.antt =====
-- What the result of `ScanPrivateMemory` of native/host/memory_reader.cpp is good for, whatever the
-- memory does meanwhile.
use cfb27_lua_hook.Prelude.{
  ℕ, zero, suc, ◌+◌, ◌-◌, ◌≤◌, String, ◌≡◌, refl, subst, ◌⊎◌, inl, inr, ◌&&◌, ◌||◌, not, Option,
  none, some, List, [], arith, ltb, leb, ◌==◌, ==→eq, Bool-cases, Option-cases, sum-cases, length,
}
use cfb27_lua_hook.Reader.Region.{
  Host, MemoryInfo, add_overflows, is_eligible_private_readable_region,
}
use cfb27_lua_hook.Reader.Pattern.{MaskedPatternMatcher, compile_masked_pattern}
use cfb27_lua_hook.Reader.Scan.Allocation.{AllocationExtent}
use cfb27_lua_hook.Reader.Scan.Matches.{ScanRequest, ScanResult, Chunk, match_loop, find_matches}
use cfb27_lua_hook.Reader.Scan.Total.{Inner-cases, Visit-cases}
use cfb27_lua_hook.Reader.Scan.{
  Visit, leave, pass, visit, visit_region, chunk_of, count_chunk, scan_chunk, after_chunk,
  scan_loop, scan_private_memory, start_cursor, is_valid_request, classify_scan_page_boundary,
  empty_result, scan_chunk_bytes, max_scan_page_bytes,
}
use cfb27_lua_hook.Reader.Scan.Fair.{
  IsGoing, IsFair, IsFair-with_code, IsFair-timed_out, IsFairEnd, match_loop-fair,
}

module _ {S : Type 0} (host : Host S) (request : ScanRequest) (matcher : MaskedPatternMatcher)
    (compiled : compile_masked_pattern request.pattern.bytes request.mask.bytes
      ≡ some matcher) where
  scan_chunk-fair :
      (r : ScanResult) (chunk : Chunk) (extents : List (ℕ × AllocationExtent)) (s : S)
      → IsGoing request r
      → IsFairEnd request r.scanned_bytes (scan_chunk host request matcher r chunk extents s)
  unfolding scan_chunk count_chunk find_matches
  scan_chunk-fair r chunk extents s g =
      let s1 = (host.cancel s).1 in
      let size = chunk.unique_bytes + chunk.lookahead in
      let s2 = (host.read chunk.cursor size s1).1 in
      let counted = count_chunk host request matcher r chunk in
      let going : IsGoing request counted = record {
        few = g.few;
        page = g.page;
        no_cursor = g.no_cursor;
        shown = g.shown;
      } in
      elim (Bool-cases (host.cancel s).0) [
        | inl cancelled ↦
            rw (cancelled, scan_chunk)
              (record {
                few = inl (omega arith);
                page = g.page;
                full = inl g.no_cursor;
                shown = tt;
              })
        | inr goes_on ↦ elim (Option-cases (host.read chunk.cursor size s1).0) [
          | inl failed ↦
              rw (goes_on, failed, scan_chunk)
                (record { few = inl g.few; page = g.page; full = inl g.no_cursor; shown = g.shown })
          | inr (bytes, copied) ↦ elim (Bool-cases (length bytes == size)) [
            | inr short ↦
                rw (goes_on, copied, short, scan_chunk)
                  (record {
                    few = inl g.few;
                    page = g.page;
                    full = inl g.no_cursor;
                    shown = g.shown;
                  })
            | inl all_read ↦ elim (Bool-cases (leb (length request.pattern.bytes) size)) [
              | inr small ↦ rw (goes_on, copied, all_read, small, scan_chunk) (going, refl)
              | inl fits ↦
                  let same : length bytes ≡ size = ==→eq (length bytes) size all_read in
                  let pattern = length request.pattern.bytes in
                  rw (goes_on, copied, all_read, fits, scan_chunk)
                    (subst
                      (λ (n : ℕ). IsFairEnd request r.scanned_bytes (
                        match_loop host request matcher chunk bytes (n - pattern + 1 + 1)
                          (n - pattern + 1) 0 counted extents s2))
                      same
                      (match_loop-fair host request matcher compiled chunk bytes
                        (length bytes - pattern + 1 + 1) 0 counted extents s2 (ground arith) going))
            ]
          ]
        ]
      ]

  abbrev IsFairVisit : ScanResult → Visit → Type 0
  IsFairVisit r (leave r') = IsFair request r'
  IsFairVisit r (pass next) = Unit {0}
  IsFairVisit r (visit chunk) = r.scanned_bytes + chunk.unique_bytes ≤ max_scan_page_bytes

  visit_region-fair :
      (buffer capacity : ℕ) (r : ScanResult) (info : MemoryInfo) (cursor : ℕ)
      → IsGoing request r
      → IsFairVisit r (visit_region request buffer capacity host.maximum r info cursor)
  unfolding visit_region chunk_of
  visit_region-fair buffer capacity r info cursor g =
      let end = info.base + info.size in
      elim (Bool-cases (add_overflows info.base info.size || leb end cursor)) [
        | inl bad ↦ rw (bad, visit_region) (IsFair-with_code request r "INVALID_REQUEST" g)
        | inr good ↦
            elim (Bool-cases (
              not (is_eligible_private_readable_region info)
              || (ltb cursor (buffer + capacity) && ltb buffer end))) [
                | inl skipped ↦ elim (Bool-cases (ltb host.maximum end)) [
                  | inl last ↦
                      rw (good, skipped, last, visit_region)
                        (record {
                          few = inl g.few;
                          page = g.page;
                          full = inl g.no_cursor;
                          shown = g.shown;
                        })
                  | inr more ↦ rw (good, skipped, more, visit_region) tt
                ]
                | inr eligible ↦ elim (Bool-cases (max_scan_page_bytes - r.scanned_bytes == 0)) [
                  | inl full ↦
                      rw (good, eligible, full, visit_region)
                        (record {
                          few = inl g.few;
                          page = g.page;
                          full = inr (ground (arith, g.page));
                          shown = g.shown;
                        })
                  | inr room ↦ rw (good, eligible, room, visit_region) (omega (arith, g.page))
                ]
              ]
      ]

  abbrev IsFairNext : ScanResult ⊎ (ScanResult × ℕ) → Type 0
  IsFairNext (inl r) = IsFair request r
  IsFairNext (inr (r, next)) = IsGoing request r

  after_chunk-fair :
      (r : ScanResult) (chunk : Chunk)
      → r.scanned_bytes + chunk.unique_bytes ≤ max_scan_page_bytes
      → IsGoing request r
      → IsFairNext (after_chunk host request matcher r chunk)
  unfolding after_chunk classify_scan_page_boundary
  after_chunk-fair r chunk room g =
      let cursor = chunk.cursor + chunk.unique_bytes in
      let scanned = r.scanned_bytes + chunk.unique_bytes in
      elim (Bool-cases (ltb host.maximum cursor)) [
        | inl end ↦
            rw (end, after_chunk)
              (record { few = inl g.few; page = room; full = inl g.no_cursor; shown = g.shown })
        | inr more ↦ elim (Bool-cases (scanned == max_scan_page_bytes)) [
          | inl full ↦
              rw (more, full, after_chunk)
                (record {
                  few = inl g.few;
                  page = room;
                  full = inr (==→eq _ _ full);
                  shown = g.shown;
                })
          | inr rest ↦
              rw (more, rest, after_chunk)
                (record { few = g.few; page = room; no_cursor = g.no_cursor; shown = g.shown })
        ]
      ]

  abbrev IsFairOut : Option (ScanResult × S) → Type 0
  IsFairOut none = Unit {0}
  IsFairOut (some (r, s)) = IsFair request r

  scan_loop-fair :
      (rounds buffer capacity cursor : ℕ) (r : ScanResult) (extents : List (ℕ × AllocationExtent))
      (s : S)
      → IsGoing request r
      → IsFairOut (scan_loop host request matcher rounds buffer capacity cursor r extents s)
  unfolding scan_loop
  scan_loop-fair zero buffer capacity cursor r extents s g = tt
  scan_loop-fair (suc rounds) buffer capacity cursor r extents s g =
      let s1 = (host.cancel s).1 in
      let s2 = (host.query cursor s1).1 in
      elim (Bool-cases (leb cursor host.maximum)) [
        | inr done ↦
            rw (done, scan_loop)
              (record { few = inl g.few; page = g.page; full = inl g.no_cursor; shown = g.shown })
        | inl inside ↦ elim (Bool-cases (host.cancel s).0) [
          | inl cancelled ↦ rw (inside, cancelled, scan_loop) (IsFair-timed_out request r g)
          | inr goes_on ↦ elim (Option-cases (host.query cursor s1).0) [
            | inl unknown ↦
                rw (inside, goes_on, unknown, scan_loop)
                  (IsFair-with_code request r "MEMORY_ACCESS_DENIED" g)
            | inr (info, found) ↦
                let at = visit_region-fair buffer capacity r info cursor g in
                elim (Visit-cases
                  (visit_region request buffer capacity host.maximum r info cursor)) [
                    | inl (left, e) ↦
                        rw (inside, goes_on, found, e, scan_loop) (subst (IsFairVisit r) e at)
                    | inr (inl (next, e)) ↦
                        rw (inside, goes_on, found, e, scan_loop)
                          (scan_loop-fair rounds buffer capacity next r extents s2 g)
                    | inr (inr (chunk, e)) ↦
                        let room = subst (IsFairVisit r) e at in
                        let searched = scan_chunk-fair r chunk extents s2 g in
                        elim (Inner-cases (scan_chunk host request matcher r chunk extents s2)) [
                          | inl out ↦ rw (inside, goes_on, found, e, out, scan_loop) tt
                          | inr (inl (r', s3, e')) ↦
                              rw (inside, goes_on, found, e, e', scan_loop)
                                (subst (IsFairEnd request r.scanned_bytes) e' searched)
                          | inr (inr (r', extents', s3, e')) ↦
                              let (going, scanned) =
                                subst (IsFairEnd request r.scanned_bytes) e' searched in
                              let after =
                                after_chunk-fair r' chunk (omega (arith, room, scanned)) going in
                              elim (sum-cases (after_chunk host request matcher r' chunk)) [
                                | inl (done, e'') ↦
                                    rw (inside, goes_on, found, e, e', e'', scan_loop)
                                      (subst IsFairNext e'' after)
                                | inr ((r'', next), e'') ↦
                                    rw (inside, goes_on, found, e, e', e'', scan_loop)
                                      (scan_loop-fair rounds buffer capacity next r'' extents' s3
                                        (subst IsFairNext e'' after))
                              ]
                        ]
                  ]
          ]
        ]
      ]

abbrev IsFairResult : {S : Type 0} → ScanRequest → Option (ScanResult × S) → Type 0
IsFairResult request none = Unit {0}
IsFairResult request (some (r, s)) = IsFair request r

scan-fair :
    {S : Type 0} (host : Host S) (request : ScanRequest) (s : S)
    → IsFairResult request (scan_private_memory host request s)
unfolding scan_private_memory
scan-fair host request s =
    let fresh : IsGoing request empty_result = record {
      few = omega arith;
      page = omega arith;
      no_cursor = refl;
      shown = tt;
    } in
    let refused = λ (code : String). IsFair-with_code request empty_result code fresh in
    elim (Option-cases (compile_masked_pattern request.pattern.bytes request.mask.bytes)) [
      | inl bad ↦ rw (bad, scan_private_memory) (refused "INVALID_REQUEST")
      | inr (matcher, compiled) ↦ elim (Bool-cases (not (is_valid_request request))) [
        | inl invalid ↦ rw (compiled, invalid, scan_private_memory) (refused "INVALID_REQUEST")
        | inr valid ↦ elim (Option-cases (start_cursor host request.cursor)) [
          | inl bad ↦ rw (compiled, valid, bad, scan_private_memory) (refused "INVALID_REQUEST")
          | inr (cursor, started) ↦
              let capacity = scan_chunk_bytes + length request.pattern.bytes - 1 in
              let s1 = (host.allocate capacity s).1 in
              elim (Option-cases (host.allocate capacity s).0) [
                | inl bad ↦
                    rw (compiled, valid, started, bad, scan_private_memory)
                      (refused "MEMORY_ACCESS_DENIED")
                | inr (buffer, allocated) ↦
                    rw (compiled, valid, started, allocated, scan_private_memory)
                      (scan_loop-fair host request matcher compiled (host.maximum + 1 - cursor + 1)
                        buffer capacity cursor empty_result [] s1 fresh)
              ]
        ]
      ]
    ]

-- The result of a scan has at most as many matches as were asked for, or one more under the code
-- TOO_MANY_MATCHES; each match has the pattern under its mask in its context, at most
-- `context_before` bytes in; at most 32 MiB were scanned, and exactly so many where it has a cursor.
pub scan_private_memory-IsFair :
    {S : Type 0} (host : Host S) (request : ScanRequest) (s : S) (result : ScanResult) (s' : S)
    → scan_private_memory host request s ≡ some (result, s')
    → IsFair request result
scan_private_memory-IsFair host request s result s' h =
    subst (IsFairResult request) h (scan-fair host request s)
