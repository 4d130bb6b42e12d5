-- ===== src/Reader/Scan/Fair.antt =====
-- What `ScanPrivateMemory` of native/host/memory_reader.cpp keeps true of its result while it searches the
-- bytes of a chunk.
use Prim.Native.Nat.{min}
use cfb27_lua_hook.Prelude.{
  ℕ, zero, suc, ◌+◌, ◌-◌, ◌≤◌, String, ◌≡◌, refl, subst, ◌⊎◌, inl, inr, Bool, true, false, Option,
  none, some, List, [], ◌∷◌, ◌++◌, arith, ltb, leb, Bool-cases, Option-cases, length, length-append,
  All, All-append,
}
use cfb27_lua_hook.Reader.Region.{Host, saturating_increment}
use cfb27_lua_hook.Reader.Pattern.{MaskedPatternMatcher, compile_masked_pattern, find_next}
use cfb27_lua_hook.Reader.Pattern.Search.{stands_at}
use cfb27_lua_hook.Reader.Scan.Allocation.{
  AllocationExtent, AllocationMetadata, resolve_allocation_metadata,
}
use cfb27_lua_hook.Reader.Scan.Matches.{
  with_metadata, ScanRequest, ScanResult, Chunk, Inner, exhausted, returned, finished, match_at,
  make_match, search_window, match_loop, candidate_window, is_own_memory, context_start,
  context_end, with_code, timed_out,
}
use cfb27_lua_hook.Reader.Scan.Occurrence.{Shows, match_at-Shows, find_next-stands_at}
use cfb27_lua_hook.Reader.Scan.Total.{Inner-cases}
use cfb27_lua_hook.Reader.Scan.{max_scan_page_bytes}

-- Between chunks: at most as many matches as asked for, each of which shows the pattern, a page that
-- is not over its limit, and no cursor.
pub record IsGoing (request : ScanRequest) (r : ScanResult) : Type 0 where
  pub few : length r.matches ≤ request.max_matches
  pub page : r.scanned_bytes ≤ max_scan_page_bytes
  pub no_cursor : r.next_cursor ≡ none
  pub shown : All (Shows request) r.matches

-- At the end: one match more than asked for comes with its code, a cursor with a full page.
pub record IsFair (request : ScanRequest) (r : ScanResult) : Type 0 where
  pub few :
      (length r.matches ≤ request.max_matches)
      ⊎ ((length r.matches ≡ request.max_matches + 1) × (r.code ≡ "TOO_MANY_MATCHES"))
  pub page : r.scanned_bytes ≤ max_scan_page_bytes
  pub full : (r.next_cursor ≡ none) ⊎ (r.scanned_bytes ≡ max_scan_page_bytes)
  pub shown : All (Shows request) r.matches

pub going-IsFair : (request : ScanRequest) (r : ScanResult) → IsGoing request r → IsFair request r
going-IsFair request r g = record {
  few = inl g.few;
  page = g.page;
  full = inl g.no_cursor;
  shown = g.shown;
}

pub IsFair-with_code :
    (request : ScanRequest) (r : ScanResult) (code : String)
    → IsGoing request r
    → IsFair request (with_code r code)
IsFair-with_code request r code g = record {
  few = inl g.few;
  page = g.page;
  full = inl g.no_cursor;
  shown = g.shown;
}

pub IsFair-timed_out :
    (request : ScanRequest) (r : ScanResult) → IsGoing request r → IsFair request (timed_out r)
IsFair-timed_out request r g = record {
  few = inl (omega arith);
  page = g.page;
  full = inl g.no_cursor;
  shown = tt;
}

-- How the search of a chunk may end.
abbrev pub IsFairEnd : {S : Type 0} → ScanRequest → ℕ → Inner S → Type 0
IsFairEnd request scanned exhausted = Unit {0}
IsFairEnd request scanned (returned r s) = IsFair request r
IsFairEnd request scanned (finished r e s) = IsGoing request r × (r.scanned_bytes ≡ scanned)

module _ {S : Type 0} (host : Host S) (request : ScanRequest) (matcher : MaskedPatternMatcher)
    (compiled : compile_masked_pattern request.pattern.bytes request.mask.bytes
      ≡ some matcher) where
  module _ (chunk : Chunk) (bytes : List ℕ) where
    -- One more match, of an occurrence.
    abbrev IsNewEnd : ScanResult → Inner S → Type 0
    IsNewEnd r exhausted = Unit {0}
    IsNewEnd r (returned r' s) = IsFair request r'
    IsNewEnd r (finished r' e s) =
        (length r'.matches ≡ length r.matches + 1)
        × (r'.scanned_bytes ≡ r.scanned_bytes)
        × (r'.next_cursor ≡ none)
        × All (Shows request) r'.matches

    append_match-added :
        (offset address : ℕ) (r : ScanResult) (allocation : Option AllocationMetadata)
        → offset + length request.pattern.bytes ≤ length bytes
        → stands_at request.pattern.bytes request.mask.bytes bytes offset ≡ true
        → IsGoing request r
        → (length (
              r.matches ++ match_at host request matcher chunk bytes offset address allocation ∷ [])
            ≡ length r.matches + 1)
          × (r.scanned_bytes ≡ r.scanned_bytes)
          × (r.next_cursor ≡ none)
          × All (Shows request) (
              r.matches ++ match_at host request matcher chunk bytes offset address allocation ∷ [])
    append_match-added offset address r allocation fits stands g =
        let new = match_at host request matcher chunk bytes offset address allocation ∷ [] in
        (
          omega (arith, length-append r.matches new),
          refl,
          g.no_cursor,
          All-append (Shows request) r.matches new g.shown (
            match_at-Shows host request matcher chunk bytes offset address allocation fits stands,
            tt,
          ),
        )

    with_metadata-fair :
        (full : Bool) (offset address : ℕ) (r : ScanResult) (extents : List (ℕ × AllocationExtent))
        (s : S)
        → offset + length request.pattern.bytes ≤ length bytes
        → stands_at request.pattern.bytes request.mask.bytes bytes offset ≡ true
        → IsGoing request r
        → IsNewEnd r
            (with_metadata host request matcher chunk bytes full offset address r extents s)
    unfolding with_metadata
    with_metadata-fair false offset address r extents s fits stands g =
        append_match-added offset address r none fits stands g
    with_metadata-fair true offset address r extents s fits stands g =
        elim (Option-cases
          (resolve_allocation_metadata host (chunk.cursor + offset) chunk.info extents s)) [
            | inl out ↦ rw (out, with_metadata) tt
            | inr (resolved, there) ↦ elim (Option-cases resolved.metadata) [
              | inl unresolved ↦
                  rw (there, unresolved, with_metadata)
                    (record {
                      few = inl (omega arith);
                      page = g.page;
                      full = inl g.no_cursor;
                      shown = tt;
                    })
              | inr (metadata, known) ↦
                  rw (there, known, with_metadata)
                    (append_match-added offset address r (some metadata) fits stands g)
            ]
          ]

    make_match-fair :
        (offset : ℕ) (r : ScanResult) (extents : List (ℕ × AllocationExtent)) (s : S)
        → offset + length request.pattern.bytes ≤ length bytes
        → stands_at request.pattern.bytes request.mask.bytes bytes offset ≡ true
        → IsGoing request r
        → IsNewEnd r (make_match host request matcher chunk bytes offset r extents s)
    unfolding make_match
    make_match-fair offset r extents s fits stands g =
        let size = context_end request (length bytes) offset - context_start request offset in
        let s1 = (host.allocate size s).1 in
        elim (Option-cases (host.allocate size s).0) [
          | inl refused ↦
              rw (refused, make_match)
                (record { few = inl g.few; page = g.page; full = inl g.no_cursor; shown = g.shown })
          | inr (address, allocated) ↦
              rw (allocated, make_match)
                (with_metadata-fair request.include_allocation_metadata offset address r extents s1
                  fits stands g)
        ]

    search_window-fair :
        (next : ℕ → ScanResult → List (ℕ × AllocationExtent) → S → Inner S) (offset : ℕ)
        (r : ScanResult) (extents : List (ℕ × AllocationExtent)) (s : S)
        → length request.pattern.bytes ≤ length bytes
        → ((o : ℕ) (r' : ScanResult) (e : List (ℕ × AllocationExtent)) (s' : S)
            → IsGoing request r'
            → r'.scanned_bytes ≡ r.scanned_bytes
            → IsFairEnd request r.scanned_bytes (next o r' e s'))
        → IsGoing request r
        → IsFairEnd request r.scanned_bytes (
            search_window host request matcher chunk bytes next
              (length bytes - length request.pattern.bytes + 1)
              offset
              r
              extents
              s)
    unfolding search_window
    search_window-fair next offset r extents s fits goes g =
        let s1 = (host.cancel s).1 in
        let candidates = length bytes - length request.pattern.bytes + 1 in
        let window_end = min candidates (offset + candidate_window) in
        let counted = record r { candidate_windows = saturating_increment r.candidate_windows } in
        let going : IsGoing request counted = record {
          few = g.few;
          page = g.page;
          no_cursor = g.no_cursor;
          shown = g.shown;
        } in
        elim (Bool-cases (host.cancel s).0) [
          | inl cancelled ↦
              rw (cancelled, search_window)
                (record {
                  few = inl (omega arith);
                  page = g.page;
                  full = inl g.no_cursor;
                  shown = tt;
                })
          | inr goes_on ↦ elim (Option-cases (find_next matcher bytes offset window_end)) [
            | inl nothing ↦
                rw (goes_on, nothing, search_window) (goes window_end counted extents s1 going refl)
            | inr (found, there) ↦
                let (near, stands) =
                  find_next-stands_at request.pattern.bytes request.mask.bytes bytes matcher offset
                    window_end found compiled there in
                elim (Bool-cases (leb chunk.unique_bytes found)) [
                  | inl beyond ↦ rw (goes_on, there, beyond, search_window) (going, refl)
                  | inr within ↦
                      elim (Bool-cases (is_own_memory request counted (chunk.cursor + found))) [
                        | inl own ↦
                            rw (goes_on, there, within, own, search_window)
                              (goes (found + 1) counted extents s1 going refl)
                        | inr other ↦
                            let fresh =
                              make_match-fair found counted extents s1 (omega arith) stands going in
                            elim (Inner-cases (
                              make_match host request matcher chunk bytes found counted extents
                                s1)) [
                                  | inl out ↦
                                      rw (goes_on, there, within, other, out, search_window) tt
                                  | inr (inl (r', s2, e)) ↦
                                      rw (goes_on, there, within, other, e, search_window)
                                        (subst (IsNewEnd counted) e fresh)
                                  | inr (inr (r', extents', s2, e)) ↦
                                      let (longer, scanned, no_cursor, shown) =
                                        subst (IsNewEnd counted) e fresh in
                                      elim (Bool-cases
                                        (ltb request.max_matches (length r'.matches))) [
                                          | inl many ↦
                                              rw
                                                (
                                                  goes_on, there, within, other, e, many,
                                                  search_window,
                                                )
                                                (record {
                                                  few = inr (ground (arith, going.few), refl);
                                                  page = ground (arith, going.page);
                                                  full = inl no_cursor;
                                                  shown = shown;
                                                })
                                          | inr few ↦
                                              rw
                                                (
                                                  goes_on, there, within, other, e, few,
                                                  search_window,
                                                )
                                                (goes (found + 1) r' extents' s2
                                                  (record {
                                                    few = ground arith;
                                                    page = ground (arith, going.page);
                                                    no_cursor = no_cursor;
                                                    shown = shown;
                                                  })
                                                  scanned)
                                        ]
                                ]
                      ]
                ]
          ]
        ]

    pub match_loop-fair :
        (rounds offset : ℕ) (r : ScanResult) (extents : List (ℕ × AllocationExtent)) (s : S)
        → length request.pattern.bytes ≤ length bytes
        → IsGoing request r
        → IsFairEnd request r.scanned_bytes (
            match_loop host request matcher chunk bytes rounds
              (length bytes - length request.pattern.bytes + 1)
              offset
              r
              extents
              s)
    unfolding match_loop
    match_loop-fair zero offset r extents s fits g = tt
    match_loop-fair (suc rounds) offset r extents s fits g =
        let candidates = length bytes - length request.pattern.bytes + 1 in
        elim (Bool-cases (ltb offset candidates)) [
          | inr done ↦ rw (done, match_loop) (g, refl)
          | inl more ↦
              rw (more, match_loop)
                (search_window-fair (match_loop host request matcher chunk bytes rounds candidates)
                  offset r extents s fits
                  (λ o r' e s' going same.
                    subst
                      (λ n.
                        IsFairEnd request n
                          (match_loop host request matcher chunk bytes rounds candidates o r' e s'))
                      same (match_loop-fair rounds o r' e s' fits going))
                  g)
        ]
