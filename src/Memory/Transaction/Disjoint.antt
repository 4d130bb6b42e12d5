-- ===== src/Memory/Transaction/Disjoint.antt =====
-- The overlap test of `RunTransaction` (native/host/memory_transaction.cpp), a sort by the begin
-- and a scan of neighbours, decides whether any two ranges share an address.
use cfb27_lua_hook.Prelude.{
  ◌≤◌, ◌<◌, ◌≡◌, refl, ◌↔◌, ◌⊎◌, inl, inr, false, List, [], ◌∷◌, arith, leb, leb→le, Bool-cases,
  All,
}
use cfb27_lua_hook.Memory.Transaction.{Range, insert_range, sort_ranges, has_overlap}

abbrev pub Apart : Range → Range → Type 0
Apart r q = (r.end ≤ q.begin) ⊎ (q.end ≤ r.begin)

abbrev pub PairwiseApart : List Range → Type 0
PairwiseApart [] = Unit {0}
PairwiseApart (r ∷ rs) = All (Apart r) rs × PairwiseApart rs

abbrev pub IsNonempty : Range → Type 0
IsNonempty r = r.begin < r.end

Apart-sym : (r q : Range) → Apart r q → Apart q r
Apart-sym r q (inl h) = inr h
Apart-sym r q (inr h) = inl h

module _ {κ} (P : Range → Type κ) where
  All-insert_range : (r : Range) (l : List Range) → P r → All P l → All P (insert_range r l)
  unfolding insert_range
  All-insert_range r [] h k = (h, tt)
  All-insert_range r (q ∷ l) h k = elim (Bool-cases (leb r.begin q.begin)) [
    | inl here ↦ rw here (h, k)
    | inr later ↦ rw later (k.0, All-insert_range r l h k.1)
  ]

  All-of-insert_range : (r : Range) (l : List Range) → All P (insert_range r l) → P r × All P l
  unfolding insert_range
  All-of-insert_range r [] = λ h. h
  All-of-insert_range r (q ∷ l) = elim (Bool-cases (leb r.begin q.begin)) [
    | inl here ↦ rw here (λ h. h)
    | inr later ↦ rw later λ h. let rest = All-of-insert_range r l h.1 in (rest.0, (h.0, rest.1))
  ]

  All-sort_ranges : (l : List Range) → All P l → All P (sort_ranges l)
  unfolding sort_ranges
  All-sort_ranges [] h = tt
  All-sort_ranges (r ∷ l) h = All-insert_range r (sort_ranges l) h.0 (All-sort_ranges l h.1)

  All-of-sort_ranges : (l : List Range) → All P (sort_ranges l) → All P l
  unfolding sort_ranges
  All-of-sort_ranges [] h = tt
  All-of-sort_ranges (r ∷ l) h =
      let both = All-of-insert_range r (sort_ranges l) h in (both.0, All-of-sort_ranges l both.1)

All-map {κ μ} :
    {P : Range → Type κ} {Q : Range → Type μ} (l : List Range)
    → ((r : Range) → P r → Q r)
    → All P l
    → All Q l
All-map [] f h = tt
All-map (r ∷ l) f h = (f r h.0, All-map l f h.1)

PairwiseApart-insert_range :
    (r : Range) (l : List Range)
    → All (Apart r) l
    → PairwiseApart l
    → PairwiseApart (insert_range r l)
unfolding insert_range
PairwiseApart-insert_range r [] h k = (tt, tt)
PairwiseApart-insert_range r (q ∷ l) h k = elim (Bool-cases (leb r.begin q.begin)) [
  | inl here ↦ rw here (h, k)
  | inr later ↦ rw later (
    All-insert_range (Apart q) r l (Apart-sym r q h.0) k.0,
    PairwiseApart-insert_range r l h.1 k.1,
  )
]

PairwiseApart-of-insert_range :
    (r : Range) (l : List Range)
    → PairwiseApart (insert_range r l)
    → All (Apart r) l × PairwiseApart l
unfolding insert_range
PairwiseApart-of-insert_range r [] = λ h. (tt, tt)
PairwiseApart-of-insert_range r (q ∷ l) = elim (Bool-cases (leb r.begin q.begin)) [
  | inl here ↦ rw here (λ h. h)
  | inr later ↦ rw later λ h.
      let inner = PairwiseApart-of-insert_range r l h.1 in
      let front = All-of-insert_range (Apart q) r l h.0 in
      ((Apart-sym q r front.0, inner.0), (front.1, inner.1))
]

PairwiseApart-sort_ranges : (l : List Range) → PairwiseApart l → PairwiseApart (sort_ranges l)
unfolding sort_ranges
PairwiseApart-sort_ranges [] h = tt
PairwiseApart-sort_ranges (r ∷ l) h =
    PairwiseApart-insert_range r (sort_ranges l) (All-sort_ranges (Apart r) l h.0)
      (PairwiseApart-sort_ranges l h.1)

PairwiseApart-of-sort_ranges : (l : List Range) → PairwiseApart (sort_ranges l) → PairwiseApart l
unfolding sort_ranges
PairwiseApart-of-sort_ranges [] h = tt
PairwiseApart-of-sort_ranges (r ∷ l) h =
    let both = PairwiseApart-of-insert_range r (sort_ranges l) h in
    (All-of-sort_ranges (Apart r) l both.0, PairwiseApart-of-sort_ranges l both.1)

-- Without an overlap of neighbours every later range begins where this one has ended.
has_overlap-after :
    (r : Range) (l : List Range)
    → All IsNonempty l
    → has_overlap (r ∷ l) ≡ false
    → All (λ q. r.end ≤ q.begin) l
unfolding has_overlap
has_overlap-after r [] n h = tt
has_overlap-after r (q ∷ l) n h =
    let first : r.end ≤ q.begin = ground arith in
    let later = has_overlap-after q l n.1 (ground arith) in
    (first, All-map l (λ t le. omega (arith, n.0)) later)

has_overlap-PairwiseApart :
    (l : List Range) → All IsNonempty l → has_overlap l ≡ false → PairwiseApart l
unfolding has_overlap
has_overlap-PairwiseApart [] n h = tt
has_overlap-PairwiseApart (r ∷ []) n h = (tt, tt)
has_overlap-PairwiseApart (r ∷ q ∷ l) n h = (
  All-map (q ∷ l) (λ t le. inl le) (has_overlap-after r (q ∷ l) n.1 h),
  has_overlap-PairwiseApart (q ∷ l) n.1 (ground arith),
)

abbrev IsSorted : List Range → Type 0
IsSorted [] = Unit {0}
IsSorted (r ∷ rs) = All (λ q. r.begin ≤ q.begin) rs × IsSorted rs

insert_range-IsSorted : (r : Range) (l : List Range) → IsSorted l → IsSorted (insert_range r l)
unfolding insert_range
insert_range-IsSorted r [] h = (tt, tt)
insert_range-IsSorted r (q ∷ l) h = elim (Bool-cases (leb r.begin q.begin)) [
  | inl here ↦
      rw here
        ((leb→le _ _ here, All-map l (λ t le. omega (arith, leb→le r.begin q.begin here)) h.0), h)
  | inr later ↦ rw later (
    All-insert_range (λ t. q.begin ≤ t.begin) r l (ground arith) h.0,
    insert_range-IsSorted r l h.1,
  )
]

sort_ranges-IsSorted : (l : List Range) → IsSorted (sort_ranges l)
unfolding sort_ranges
sort_ranges-IsSorted [] = tt
sort_ranges-IsSorted (r ∷ l) = insert_range-IsSorted r (sort_ranges l) (sort_ranges-IsSorted l)

has_overlap-of-PairwiseApart :
    (l : List Range) → All IsNonempty l → IsSorted l → PairwiseApart l → has_overlap l ≡ false
unfolding has_overlap
has_overlap-of-PairwiseApart [] n s h = refl
has_overlap-of-PairwiseApart (r ∷ []) n s h = refl
has_overlap-of-PairwiseApart (r ∷ q ∷ l) n s h =
    ground (arith, has_overlap-of-PairwiseApart (q ∷ l) n.1 s.1 h.1)

-- On ranges that are not empty, the test finds no overlap exactly when no two of them, in whatever
-- order they came, share an address.
pub has_overlap_iff :
    (l : List Range) → All IsNonempty l → (has_overlap (sort_ranges l) ≡ false) ↔ PairwiseApart l
has_overlap_iff l n =
    let sorted_n = All-sort_ranges IsNonempty l n in
    (
      (λ h. PairwiseApart-of-sort_ranges l (has_overlap-PairwiseApart (sort_ranges l) sorted_n h)),
      (λ h.
          has_overlap-of-PairwiseApart (sort_ranges l) sorted_n (sort_ranges-IsSorted l)
            (PairwiseApart-sort_ranges l h)),
    )
