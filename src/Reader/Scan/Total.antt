-- ===== src/Reader/Scan/Total.antt =====
-- The loops of `ScanPrivateMemory` of native/host/memory_reader.cpp end: each round moves the cursor on.
use Prim.Native.Nat.{min}
use cfb27_lua_hook.Prelude.{
  ℕ, zero, suc, ◌+◌, ◌-◌, ◌≤◌, ◌<◌, ◌≡◌, refl, ◌≢◌, ◌⊎◌, inl, inr, Bool, true, false, Option, none,
  some, List, [], ◌∷◌, arith, ltb, leb, ◌==◌, ltb→lt, Bool-cases, Option-cases, sum-cases, length,
}
use cfb27_lua_hook.Reader.Region.{Host, MemoryInfo, add_overflows, saturating_increment}
use cfb27_lua_hook.Reader.Pattern.{
  MaskedPatternMatcher, compile_masked_pattern, Check, memchr, skip, find_loop, find_next,
}
use cfb27_lua_hook.Reader.Scan.Allocation.{
  AllocationExtent, extent_loop, resolve_allocation_metadata, first_protection,
}
use cfb27_lua_hook.Reader.Scan.Matches.{
  ScanRequest, ScanResult, Chunk, Inner, exhausted, returned, finished, with_metadata, make_match,
  search_window, context_start, context_end, match_loop, find_matches, candidate_window,
}
use cfb27_lua_hook.Reader.Scan.{
  Visit, leave, count_chunk, empty_result, pass, visit, visit_region, chunk_of, scan_chunk,
  after_chunk, scan_loop, scan_private_memory, start_cursor, classify_scan_page_boundary,
  scan_chunk_bytes,
}

-- A candidate that is found is not before the first one.
skip-ge :
    (checks : List Check) (bytes : List ℕ) (candidate end c : ℕ)
    → skip checks bytes candidate end ≡ some c
    → candidate ≤ c
unfolding skip
skip-ge [] bytes candidate end c h = ground arith
skip-ge (anchor ∷ cs) bytes candidate end c h = elim (Bool-cases (anchor.mask == 255)) [
  | inr part ↦ ground arith
  | inl whole ↦
      elim (Option-cases
        (memchr bytes anchor.value (candidate + anchor.offset) (end - candidate))) [
          | inl nothing ↦ absurd (ground arith)
          | inr (d, found) ↦ ground arith
        ]
]

find_loop-ge :
    (rounds : ℕ) (checks : List Check) (bytes : List ℕ) (candidate end c : ℕ)
    → find_loop rounds checks bytes candidate end ≡ some c
    → candidate ≤ c
unfolding find_loop
find_loop-ge zero checks bytes candidate end c h = absurd (ground arith)
find_loop-ge (suc rounds) checks bytes candidate end c h =
    elim (Option-cases (skip checks bytes candidate end)) [
      | inl nothing ↦ absurd (ground arith)
      | inr (c', found) ↦
          let step = skip-ge checks bytes candidate end c' found in
          ground (arith, find_loop-ge rounds checks bytes (c' + 1) end c)
    ]

pub find_next-ge :
    (matcher : MaskedPatternMatcher) (bytes : List ℕ) (first end c : ℕ)
    → find_next matcher bytes first end ≡ some c
    → first ≤ c
unfolding find_next
find_next-ge matcher bytes first end c h =
    ground (arith, find_loop-ge (end - first) matcher.checks bytes first end c)

pub Inner-cases :
    {S : Type 0} (i : Inner S)
    → (i ≡ exhausted)
      ⊎ ((r : ScanResult) × (s : S) × (i ≡ returned r s))
      ⊎ ((r : ScanResult) × (e : List (ℕ × AllocationExtent)) × (s : S) × (i ≡ finished r e s))
Inner-cases exhausted = inl refl
Inner-cases (returned r s) = inr (inl (r, s, refl))
Inner-cases (finished r e s) = inr (inr (r, e, s, refl))

pub Visit-cases :
    (v : Visit)
    → ((r : ScanResult) × (v ≡ leave r)) ⊎ ((n : ℕ) × (v ≡ pass n)) ⊎ ((c : Chunk) × (v ≡ visit c))
Visit-cases (leave r) = inl (r, refl)
Visit-cases (pass n) = inr (inl (n, refl))
Visit-cases (visit c) = inr (inr (c, refl))

module _ {S : Type 0} (host : Host S) where
  extent_loop-total :
      (allocation_base rounds cursor size : ℕ) (protection : Option ℕ) (s : S)
      → 0 < rounds
      → host.maximum + 2 ≤ cursor + rounds
      → (extent_loop host allocation_base rounds cursor size protection s).0 ≢ none
  unfolding extent_loop add_overflows
  extent_loop-total allocation_base zero cursor size protection s pos enough h =
      absurd (omega arith)
  extent_loop-total allocation_base (suc rounds) cursor size protection s pos enough h =
      let s1 = (host.cancel s).1 in
      let s2 = (host.query cursor s1).1 in
      elim (Option-cases (host.query cursor s1).0) [
        | inl unknown ↦ ground arith
        | inr (info, found) ↦ ground (
          arith,
          extent_loop-total allocation_base rounds (info.base + info.size) (size + info.size)
              (some (first_protection protection info)) s2,
        )
      ]

  resolve-total :
      (match_address : ℕ) (info : MemoryInfo) (extents : List (ℕ × AllocationExtent)) (s : S)
      → resolve_allocation_metadata host match_address info extents s ≢ none
  unfolding resolve_allocation_metadata
  resolve-total match_address info extents s h =
      let base = info.allocation_base in
      let rounds = host.maximum + 1 - base + 1 in
      elim (Option-cases (extent_loop host base rounds base 0 none s).0) [
        | inl out ↦ extent_loop-total base rounds base 0 none s (omega arith) (omega arith) out
        | inr (walked, ended) ↦ elim (Option-cases walked) [
          | inl failed ↦ ground arith
          | inr (extent, seen) ↦ ground arith
        ]
      ]

  module _ (request : ScanRequest) (matcher : MaskedPatternMatcher) (chunk : Chunk)
      (bytes : List ℕ) where
    with_metadata-total :
        (full : Bool) (offset address : ℕ) (result : ScanResult)
        (extents : List (ℕ × AllocationExtent)) (s : S)
        → with_metadata host request matcher chunk bytes full offset address result extents s
          ≢ exhausted
    unfolding with_metadata
    with_metadata-total false offset address result extents s h = ground arith
    with_metadata-total true offset address result extents s h =
        elim (Option-cases
          (resolve_allocation_metadata host (chunk.cursor + offset) chunk.info extents s)) [
            | inl lost ↦ resolve-total (chunk.cursor + offset) chunk.info extents s lost
            | inr (resolved, there) ↦ ground arith
          ]

    make_match-total :
        (offset : ℕ) (result : ScanResult) (extents : List (ℕ × AllocationExtent)) (s : S)
        → make_match host request matcher chunk bytes offset result extents s ≢ exhausted
    unfolding make_match
    make_match-total offset result extents s h =
        let size = context_end request (length bytes) offset - context_start request offset in
        let s1 = (host.allocate size s).1 in
        elim (Option-cases (host.allocate size s).0) [
          | inl refused ↦ ground arith
          | inr (address, allocated) ↦ ground (
            arith,
            with_metadata-total request.include_allocation_metadata offset address result extents
                s1,
          )
        ]

    window-gt :
        (candidates offset : ℕ)
        → offset < candidates
        → offset < min candidates (offset + candidate_window)
    window-gt candidates offset h = omega arith

    search_window-total :
        (next : ℕ → ScanResult → List (ℕ × AllocationExtent) → S → Inner S) (candidates offset : ℕ)
        (result : ScanResult) (extents : List (ℕ × AllocationExtent)) (s : S)
        → offset < candidates
        → ((o : ℕ) (r : ScanResult) (e : List (ℕ × AllocationExtent)) (s' : S)
            → offset < o
            → next o r e s' ≢ exhausted)
        → search_window host request matcher chunk bytes next candidates offset result extents s
          ≢ exhausted
    unfolding search_window
    search_window-total next candidates offset result extents s more goes h =
        let s1 = (host.cancel s).1 in
        let window_end = min candidates (offset + candidate_window) in
        let counted = record result {
          candidate_windows = saturating_increment result.candidate_windows;
        } in
        elim (Bool-cases (host.cancel s).0) [
          | inl cancelled ↦ ground arith
          | inr goes_on ↦ elim (Option-cases (find_next matcher bytes offset window_end)) [
            | inl nothing ↦
                ground
                  (arith, goes window_end counted extents s1 (window-gt candidates offset more))
            | inr (found, there) ↦
                let place = find_next-ge matcher bytes offset window_end found there in
                elim (Inner-cases
                  (make_match host request matcher chunk bytes found counted extents s1)) [
                    | inl out ↦ make_match-total found counted extents s1 out
                    | inr (inl (result', s2, done)) ↦
                        ground (arith, goes (found + 1) counted extents s1)
                    | inr (inr (result', extents', s2, made)) ↦ ground (
                      arith,
                      goes (found + 1) counted extents s1,
                      goes (found + 1) result' extents' s2,
                    )
                  ]
          ]
        ]

    match_loop-total :
        (rounds candidates offset : ℕ) (result : ScanResult) (extents : List (ℕ × AllocationExtent))
        (s : S)
        → candidates < offset + rounds
        → 0 < rounds
        → match_loop host request matcher chunk bytes rounds candidates offset result extents s
          ≢ exhausted
    unfolding match_loop
    match_loop-total zero candidates offset result extents s enough pos h = absurd (omega arith)
    match_loop-total (suc rounds) candidates offset result extents s enough pos h =
        elim (Bool-cases (ltb offset candidates)) [
          | inr done ↦ ground arith
          | inl more ↦
              search_window-total (match_loop host request matcher chunk bytes rounds candidates)
                candidates offset result extents s (ltb→lt offset candidates more)
                (λ o r e s' lt.
                  match_loop-total rounds candidates o r e s' (omega arith)
                    (omega (arith, ltb→lt offset candidates more)))
                (rw (more, match_loop) at h)
        ]

  module _ (request : ScanRequest) (matcher : MaskedPatternMatcher) where
    scan_chunk-total :
        (result : ScanResult) (chunk : Chunk) (extents : List (ℕ × AllocationExtent)) (s : S)
        → scan_chunk host request matcher result chunk extents s ≢ exhausted
    unfolding scan_chunk find_matches
    scan_chunk-total result chunk extents s h =
        let s1 = (host.cancel s).1 in
        let size = chunk.unique_bytes + chunk.lookahead in
        let s2 = (host.read chunk.cursor size s1).1 in
        let candidates = size - length request.pattern.bytes + 1 in
        elim (Bool-cases (host.cancel s).0) [
          | inl cancelled ↦ ground arith
          | inr goes_on ↦ elim (Option-cases (host.read chunk.cursor size s1).0) [
            | inl failed ↦ ground arith
            | inr (bytes, copied) ↦ ground (
              arith,
              match_loop-total request matcher chunk bytes (candidates + 1) candidates 0
                  (count_chunk host request matcher result chunk) extents s2,
            )
          ]
        ]

    -- A chunk that is visited has bytes of its own.
    visit_region-next :
        (buffer capacity : ℕ) (result : ScanResult) (info : MemoryInfo) (cursor : ℕ)
        → ((next : ℕ)
            → visit_region request buffer capacity host.maximum result info cursor ≡ pass next
            → (cursor < next) × (next ≤ host.maximum))
          × ((chunk : Chunk)
              → visit_region request buffer capacity host.maximum result info cursor ≡ visit chunk
              → (chunk.cursor ≡ cursor) × (0 < chunk.unique_bytes))
    unfolding visit_region chunk_of
    visit_region-next buffer capacity result info cursor =
        (λ next h. ground arith, λ chunk h. ground arith)

    after_chunk-next :
        (result : ScanResult) (chunk : Chunk) (result' : ScanResult) (next : ℕ)
        → after_chunk host request matcher result chunk ≡ inr (result', next)
        → (next ≡ chunk.cursor + chunk.unique_bytes) × (next ≤ host.maximum)
    unfolding after_chunk classify_scan_page_boundary
    after_chunk-next result chunk result' next h = ground arith

    scan_loop-total :
        (rounds buffer capacity cursor : ℕ) (result : ScanResult)
        (extents : List (ℕ × AllocationExtent)) (s : S)
        → 0 < rounds
        → host.maximum + 2 ≤ cursor + rounds
        → scan_loop host request matcher rounds buffer capacity cursor result extents s ≢ none
    unfolding scan_loop
    scan_loop-total zero buffer capacity cursor result extents s pos enough h = absurd (omega arith)
    scan_loop-total (suc rounds) buffer capacity cursor result extents s pos enough h =
        let s1 = (host.cancel s).1 in
        let s2 = (host.query cursor s1).1 in
        elim (Bool-cases (leb cursor host.maximum)) [
          | inr done ↦ ground arith
          | inl inside ↦ elim (Bool-cases (host.cancel s).0) [
            | inl cancelled ↦ ground arith
            | inr goes_on ↦ elim (Option-cases (host.query cursor s1).0) [
              | inl unknown ↦ ground arith
              | inr (info, found) ↦
                  let at = visit_region-next buffer capacity result info cursor in
                  elim (Visit-cases
                    (visit_region request buffer capacity host.maximum result info cursor)) [
                      | inl (left, e) ↦ ground arith
                      | inr (inl (next, e)) ↦
                          let (later, below) = at.0 next e in
                          ground
                            (arith, scan_loop-total rounds buffer capacity next result extents s2)
                      | inr (inr (chunk, e)) ↦
                          let (place, more) = at.1 chunk e in
                          elim (Inner-cases
                            (scan_chunk host request matcher result chunk extents s2)) [
                              | inl out ↦ scan_chunk-total result chunk extents s2 out
                              | inr (inl (result', s3, e')) ↦ ground arith
                              | inr (inr (result', extents', s3, e')) ↦
                                  elim (sum-cases
                                    (after_chunk host request matcher result' chunk)) [
                                      | inl (done, e'') ↦ ground arith
                                      | inr ((result'', next), e'') ↦
                                          let (step, below) =
                                            after_chunk-next result' chunk result'' next e'' in
                                          ground (
                                            arith,
                                            scan_loop-total rounds buffer capacity next result''
                                                extents' s3,
                                          )
                                    ]
                            ]
                    ]
            ]
          ]
        ]

  -- Every scan comes back: with the rounds that it is given, no loop of it runs out of them.
  pub scan_private_memory-total :
      (request : ScanRequest) (s : S)
      → (result : ScanResult) × (s' : S) × (scan_private_memory host request s ≡ some (result, s'))
  unfolding scan_private_memory
  scan_private_memory-total request s = elim (Option-cases (scan_private_memory host request s)) [
    | inr (r, e) ↦ (r.0, r.1, e)
    | inl out ↦
        absurd
          (elim (Option-cases (compile_masked_pattern request.pattern.bytes request.mask.bytes)) [
            | inl bad ↦ ground arith
            | inr (matcher, compiled) ↦ elim (Option-cases (start_cursor host request.cursor)) [
              | inl bad ↦ ground arith
              | inr (cursor, started) ↦
                  let capacity = scan_chunk_bytes + length request.pattern.bytes - 1 in
                  let s' = (host.allocate capacity s).1 in
                  elim (Option-cases (host.allocate capacity s).0) [
                    | inl bad ↦ ground arith
                    | inr (buffer, allocated) ↦ ground (
                      arith,
                      scan_loop-total request matcher (host.maximum + 1 - cursor + 1) buffer
                          capacity cursor empty_result [] s',
                    )
                  ]
            ]
          ])
  ]
