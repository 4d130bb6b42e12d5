-- ===== src/Reader/Batch.antt =====
-- `ReadMemoryBatch` of native/host/memory_reader.cpp.
mod Tests
use cfb27_lua_hook.Prelude.{
  ℕ, ◌+◌, ◌*◌, ◌≤◌, ◌<◌, String, ◌≡◌, refl, subst, ◌∙◌, ◌⊎◌, inl, inr, Bool, true, false, ◌||◌,
  Option, none, some, List, [], ◌∷◌, arith, ltb, ◌==◌, if◌then◌else◌, Bool-cases, Option-cases,
  sum-cases, length,
}
use cfb27_lua_hook.Memory.Address.{uintptr_max}
use cfb27_lua_hook.Reader.Text.{parse_address, format_address}
use cfb27_lua_hook.Reader.Region.{Host, add_overflows, is_within_one_eligible_region}

abbrev pub max_read_ranges : ℕ
max_read_ranges = 64

abbrev pub max_read_range_bytes : ℕ
max_read_range_bytes = 64 * 1024

abbrev pub max_read_bytes : ℕ
max_read_bytes = 256 * 1024

pub record ReadRange : Type 0 where
  pub address : List ℕ
  pub size : ℕ

pub record ReadResult : Type 0 where
  pub address : List ℕ
  pub bytes : List ℕ

pub record BatchReadResult : Type 0 where
  pub ok : Bool
  pub code : String
  pub ranges : List ReadResult

pub record ValidatedRead : Type 0 where
  pub address : ℕ
  pub size : ℕ
  pub formatted_address : List ℕ

unfoldable pub has_invalid_length : ℕ → ℕ → Bool
has_invalid_length total size =
    (size == 0)
    || (ltb max_read_range_bytes size
        || (add_overflows total size || ltb max_read_bytes (total + size)))

module _ {S : Type 0} (host : Host S) where
  -- One range: its address, or the code of the refusal.
  unfoldable pub check_range : ReadRange → ℕ → S → (String ⊎ ℕ) × S
  check_range range total s = elim (parse_address range.address) [
    | none ↦ (inl "INVALID_REQUEST", s)
    | some address ↦
        let within = is_within_one_eligible_region host address range.size s in
        if has_invalid_length total range.size
        then (inl "INVALID_REQUEST", s)
        else if add_overflows address range.size
        then (inl "MEMORY_ACCESS_DENIED", s)
        else if within.0
        then (inr address, within.1)
        else (inl "MEMORY_ACCESS_DENIED", within.1)
  ]

  unfoldable pub validate_ranges : List ReadRange → ℕ → S → (String ⊎ List ValidatedRead) × S
  validate_ranges [] total s = (inr [], s)
  validate_ranges (range ∷ ranges) total s =
      let (checked, s') = check_range range total s in
      elim checked [
        | inl code ↦ (inl code, s')
        | inr address ↦
            let (rest, s'') = validate_ranges ranges (total + range.size) s' in
            elim rest [
              | inl code ↦ (inl code, s'')
              | inr validated ↦ (
                inr (
                    record {
                      address = address;
                      size = range.size;
                      formatted_address = format_address address;
                    }
                    ∷ validated),
                s'',
              )
            ]
      ]

  -- A read that copies fewer bytes than asked for has failed.
  unfoldable pub read_exactly : ℕ → ℕ → S → Option (List ℕ) × S
  read_exactly address size s =
      let (copied, s') = host.read address size s in
      elim copied [
        | none ↦ (none, s')
        | some bytes ↦ (if length bytes == size then some bytes else none, s')
      ]

  unfoldable pub read_ranges : List ValidatedRead → S → Option (List ReadResult) × S
  read_ranges [] s = (some [], s)
  read_ranges (range ∷ ranges) s =
      let (read, s') = read_exactly range.address range.size s in
      elim read [
        | none ↦ (none, s')
        | some bytes ↦
            let (rest, s'') = read_ranges ranges s' in
            elim rest [
              | none ↦ (none, s'')
              | some results ↦ (
                some (record { address = range.formatted_address; bytes = bytes } ∷ results),
                s'',
              )
            ]
      ]

  abbrev refused : String → BatchReadResult
  refused code = record { ok = false; code = code; ranges = [] }

  unfoldable pub read_memory_batch : List ReadRange → S → BatchReadResult × S
  read_memory_batch ranges s =
      if (length ranges == 0) || ltb max_read_ranges (length ranges)
      then (refused "INVALID_REQUEST", s)
      else (let (checked, s') = validate_ranges ranges 0 s in
          elim checked [
            | inl code ↦ (refused code, s')
            | inr validated ↦
                let (read, s'') = read_ranges validated s' in
                elim read [
                  | none ↦ (refused "MEMORY_ACCESS_DENIED", s'')
                  | some results ↦ (record { ok = true; code = ""; ranges = results }, s'')
                ]
          ])

-- The results answer the ranges one by one: each range has an address, at which so many bytes may be
-- and were read.
abbrev pub Answers : List ReadRange → List ReadResult → Type 0
Answers [] [] = Unit {0}
Answers [] (result ∷ results) = ⊥
Answers (range ∷ ranges) [] = ⊥
Answers (range ∷ ranges) (result ∷ results) =
    ((address : ℕ) × (parse_address range.address ≡ some address)
      × (result.address ≡ format_address address)
      × (address + range.size ≤ uintptr_max)
      × (length result.bytes ≡ range.size)
      × (0 < range.size)
      × (range.size ≤ max_read_range_bytes))
    × Answers ranges results

-- The bytes that the ranges ask for.
unfoldable pub total_of : List ReadRange → ℕ
total_of [] = 0
total_of (range ∷ ranges) = range.size + total_of ranges

-- The same for ranges that were validated.
abbrev AreValid : List ReadRange → List ValidatedRead → Type 0
AreValid [] [] = Unit {0}
AreValid [] (v ∷ vs) = ⊥
AreValid (range ∷ ranges) [] = ⊥
AreValid (range ∷ ranges) (v ∷ vs) =
    ((parse_address range.address ≡ some v.address)
      × (v.formatted_address ≡ format_address v.address)
      × (v.address + range.size ≤ uintptr_max)
      × (v.size ≡ range.size)
      × (0 < range.size)
      × (range.size ≤ max_read_range_bytes))
    × AreValid ranges vs

module _ {S : Type 0} (host : Host S) where
  check_range-ok :
      (range : ReadRange) (total : ℕ) (s : S) (address : ℕ)
      → (check_range host range total s).0 ≡ inr address
      → (parse_address range.address ≡ some address)
        × (address + range.size ≤ uintptr_max)
        × (0 < range.size)
        × (range.size ≤ max_read_range_bytes)
        × (total + range.size ≤ max_read_bytes)
  unfolding check_range has_invalid_length add_overflows
  check_range-ok range total s address h = ground arith

  validate_ranges-AreValid :
      (ranges : List ReadRange) (total : ℕ) (s : S) (vs : List ValidatedRead)
      → total ≤ max_read_bytes
      → (validate_ranges host ranges total s).0 ≡ inr vs
      → AreValid ranges vs × (total + total_of ranges ≤ max_read_bytes)
  unfolding validate_ranges total_of
  validate_ranges-AreValid [] total s [] few h = (tt, omega arith)
  validate_ranges-AreValid [] total s (v ∷ vs) few h = ground arith
  validate_ranges-AreValid (range ∷ ranges) total s vs few h =
      let s' = (check_range host range total s).1 in
      elim (sum-cases (check_range host range total s).0) [
        | inl (code, bad) ↦ absurd (ground arith)
        | inr (address, good) ↦
            let (parsed, fits, pos, small, room) = check_range-ok range total s address good in
            elim (sum-cases (validate_ranges host ranges (total + range.size) s').0) [
              | inl (code, bad) ↦ absurd (ground arith)
              | inr (validated, rest) ↦
                  let (valid, sum) =
                    validate_ranges-AreValid ranges (total + range.size) s' validated room rest in
                  let built : record {
                    address = address;
                    size = range.size;
                    formatted_address = format_address address;
                  }
                        ∷ validated
                      ≡ vs =
                    ground arith in
                  (
                    subst (AreValid (range ∷ ranges)) built
                        ((parsed, refl, fits, refl, pos, small), valid),
                    omega (arith, sum),
                  )
            ]
      ]

  read_exactly-length :
      (address size : ℕ) (s : S) (bytes : List ℕ)
      → (read_exactly host address size s).0 ≡ some bytes
      → length bytes ≡ size
  unfolding read_exactly
  read_exactly-length address size s bytes h = ground arith

  read_ranges-Answers :
      (ranges : List ReadRange) (vs : List ValidatedRead) (s : S) (results : List ReadResult)
      → AreValid ranges vs
      → (read_ranges host vs s).0 ≡ some results
      → Answers ranges results
  unfolding read_ranges
  read_ranges-Answers [] [] s [] valid h = tt
  read_ranges-Answers [] [] s (r ∷ rs) valid h = ground arith
  read_ranges-Answers [] (v ∷ vs) s results valid h = absurd valid
  read_ranges-Answers (range ∷ ranges) [] s results valid h = absurd valid
  read_ranges-Answers (range ∷ ranges) (v ∷ vs) s results valid h =
      let s' = (read_exactly host v.address v.size s).1 in
      elim (Option-cases (read_exactly host v.address v.size s).0) [
        | inl failed ↦ absurd (ground arith)
        | inr (bytes, read) ↦ elim (Option-cases (read_ranges host vs s').0) [
          | inl failed ↦ absurd (ground arith)
          | inr (rest, read_rest) ↦
              let (parsed, formatted, fits, size, pos, small) = valid.0 in
              let built : record { address = v.formatted_address; bytes = bytes } ∷ rest ≡ results =
                ground arith in
              let long : length bytes ≡ range.size =
                read_exactly-length v.address v.size s bytes read ∙ size in
              subst (Answers (range ∷ ranges)) built (
                (v.address, parsed, formatted, fits, long, pos, small),
                read_ranges-Answers ranges vs s' rest valid.1 read_rest,
              )
        ]
      ]

  -- A batch that goes through had between 1 and 64 ranges of at most 256 KiB together, and answers
  -- them in order: each address in the canonical form of the one asked for, with as many bytes read
  -- as were asked for, at least one and at most 64 KiB, none of them beyond the address space.
  pub read_memory_batch-Answers :
      (ranges : List ReadRange) (s : S)
      → let r = (read_memory_batch host ranges s).0 in
        r.ok ≡ true
        → Answers ranges r.ranges
          × (total_of ranges ≤ max_read_bytes)
          × (0 < length ranges)
          × (length ranges ≤ max_read_ranges)
  unfolding read_memory_batch
  read_memory_batch-Answers ranges s h =
      elim (Bool-cases ((length ranges == 0) || ltb max_read_ranges (length ranges))) [
        | inl wrong ↦ absurd (ground arith)
        | inr fine ↦ elim (sum-cases (validate_ranges host ranges 0 s).0) [
          | inl (code, bad) ↦ absurd (ground arith)
          | inr (vs, validated) ↦
              let s' = (validate_ranges host ranges 0 s).1 in
              let (valid, sum) = validate_ranges-AreValid ranges 0 s vs (omega arith) validated in
              elim (Option-cases (read_ranges host vs s').0) [
                | inl failed ↦ absurd (ground arith)
                | inr (results, read) ↦
                    let built : results ≡ (read_memory_batch host ranges s).0.ranges =
                      ground arith in
                    (
                      subst (Answers ranges) built
                          (read_ranges-Answers ranges vs s' results valid read),
                      omega (arith, sum),
                      ground arith,
                      ground arith,
                    )
              ]
        ]
      ]
