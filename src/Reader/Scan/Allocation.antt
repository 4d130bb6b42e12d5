-- ===== src/Reader/Scan/Allocation.antt =====
-- `ResolveAllocationMetadata` of native/host/memory_reader.cpp: the extent of the allocation that a
-- match lies in, which is found region by region and remembered for the next match.
use cfb27_lua_hook.Prelude.{
  ℕ, zero, suc, ◌+◌, ◌-◌, true, false, ◌||◌, not, Option, none, some, List, [], ◌∷◌, ltb, leb, ◌==◌,
  if◌then◌else◌,
}
use cfb27_lua_hook.Reader.Text.{format_address}
use cfb27_lua_hook.Reader.Region.{Host, MemoryInfo, add_overflows}

pub record AllocationExtent : Type 0 where
  pub size : ℕ
  pub protection : ℕ

pub record AllocationMetadata : Type 0 where
  pub base : List ℕ
  pub size : ℕ
  pub protection : ℕ
  pub offset : ℕ

-- `std::unordered_map::find`.
unfoldable pub find_extent : List (ℕ × AllocationExtent) → ℕ → Option AllocationExtent
find_extent [] base = none
find_extent ((b, extent) ∷ rest) base = if b == base then some extent else find_extent rest base

-- After the loop; without a protection no region was seen.
unfoldable pub finish_extent : ℕ → Option ℕ → Option AllocationExtent
finish_extent size none = none
finish_extent size (some protection) =
    if size == 0 then none else some (record { size = size; protection = protection })

unfoldable pub first_protection : Option ℕ → MemoryInfo → ℕ
first_protection none info = info.allocation_protect
first_protection (some protection) info = protection

module _ {S : Type 0} (host : Host S) (allocation_base : ℕ) where
  -- The outer `none` is the end of the rounds, the inner one a failure.
  unfoldable pub extent_loop : ℕ → ℕ → ℕ → Option ℕ → S → Option (Option AllocationExtent) × S
  extent_loop zero cursor size protection s = (none, s)
  extent_loop (suc rounds) cursor size protection s = elim (leb cursor host.maximum) [
    | false ↦ (some (finish_extent size protection), s)
    | true ↦
        let (cancelled, s1) = host.cancel s in
        let (found, s2) = host.query cursor s1 in
        elim cancelled [
          | true ↦ (some none, s1)
          | false ↦ elim found [
            | none ↦ (some none, s2)
            | some info ↦ elim (info.allocation_base == allocation_base) [
              | false ↦ (some (finish_extent size protection), s2)
              | true ↦
                  elim (not (info.base == cursor)
                    || ((info.size == 0)
                        || (add_overflows info.base info.size || add_overflows size info.size))) [
                          | true ↦ (some none, s2)
                          | false ↦
                              let next = info.base + info.size in
                              let protection' = some (first_protection protection info) in
                              elim (ltb host.maximum next) [
                                | true ↦ (
                                  some (
                                      finish_extent (host.maximum - allocation_base + 1)
                                        protection'),
                                  s2,
                                )
                                | false ↦ extent_loop rounds next (size + info.size) protection' s2
                              ]
                        ]
            ]
          ]
        ]
  ]

-- The metadata, if any, with what is remembered.
pub record Resolved (S : Type 0) : Type 0 where
  pub metadata : Option AllocationMetadata
  pub extents : List (ℕ × AllocationExtent)
  pub state : S

unfoldable pub metadata_at : ℕ → ℕ → AllocationExtent → Option AllocationMetadata
metadata_at match_address allocation_base extent =
    let offset = match_address - allocation_base in
    if leb extent.size offset
    then none
    else some (record {
      base = format_address allocation_base;
      size = extent.size;
      protection = extent.protection;
      offset = offset;
    })

-- `none` is the end of the rounds.
unfoldable pub resolve_allocation_metadata :
    {S : Type 0} → Host S → ℕ → MemoryInfo → List (ℕ × AllocationExtent) → S → Option (Resolved S)
resolve_allocation_metadata host match_address info extents s =
    let base = info.allocation_base in
    if (base == 0) || ltb match_address base
    then some (record { metadata = none; extents = extents; state = s })
    else (elim (find_extent extents base) [
      | some extent ↦ some (record {
        metadata = metadata_at match_address base extent;
        extents = extents;
        state = s;
      })
      | none ↦
          let (walked, s') = extent_loop host base (host.maximum + 1 - base + 1) base 0 none s in
          elim walked [
            | none ↦ none
            | some none ↦ some (record { metadata = none; extents = extents; state = s' })
            | some (some extent) ↦ some (record {
              metadata = metadata_at match_address base extent;
              extents = (base, extent) ∷ extents;
              state = s';
            })
          ]
    ])
