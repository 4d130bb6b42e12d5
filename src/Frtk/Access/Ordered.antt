-- ===== src/Frtk/Access/Ordered.antt =====
-- The components into which `FinalizeFieldTransaction` of native/host/frtk_record_access.cpp merges the
-- ranges: they are in order and apart.
use Prim.Native.Nat.{max}
use cfb27_lua_hook.Prelude.{
  ℕ, ◌-◌, ◌≤◌, ◌<◌, ◌≡◌, ◌⊎◌, inl, inr, true, false, List, [], ◌∷◌, arith, leb, Bool-cases, length,
  all, All,
}
use cfb27_lua_hook.Memory.Address.{uintptr_max}
use cfb27_lua_hook.Memory.Transaction.{max_operation_bytes}
use cfb27_lua_hook.Frtk.Access.Finalize.{
  ConstraintRange, is_before, insert_constraint_range, sort_constraint_ranges, grow, merge_ranges,
}

-- A range with bytes in it, within the address space unless it is too long for one operation.
abbrev pub IsRange : ConstraintRange → Type 0
IsRange r = (r.begin < r.end) × ((r.end ≤ uintptr_max) ⊎ (max_operation_bytes < r.end - r.begin))

-- From the address on, in the order of where they begin.
unfoldable pub Sorted : ℕ → List ConstraintRange → Type 0
Sorted low [] = Unit {0}
Sorted low (r ∷ rs) = (low ≤ r.begin) × (IsRange r × Sorted r.begin rs)

-- From the address on, each behind the end of the one before.
unfoldable pub Apart : ℕ → List ConstraintRange → Type 0
Apart low [] = Unit {0}
Apart low (r ∷ rs) = (low ≤ r.begin) × (IsRange r × Apart r.end rs)

Sorted-lower :
    (low low' : ℕ) (rs : List ConstraintRange) → low' ≤ low → Sorted low rs → Sorted low' rs
unfolding Sorted
Sorted-lower low low' [] h s = tt
Sorted-lower low low' (r ∷ rs) h s = (omega (arith, s.0), s.1)

insert_constraint_range-Sorted :
    (low : ℕ) (r : ConstraintRange) (rs : List ConstraintRange)
    → low ≤ r.begin
    → IsRange r
    → Sorted low rs
    → Sorted low (insert_constraint_range r rs)
unfolding Sorted insert_constraint_range is_before
insert_constraint_range-Sorted low r [] h g s = (h, (g, tt))
insert_constraint_range-Sorted low r (q ∷ qs) h g s = elim (Bool-cases (is_before r q)) [
  | inl before ↦ let le : r.begin ≤ q.begin = before_le r q before in rw before (h, (g, (le, s.1)))
  | inr behind ↦
      let le : q.begin ≤ r.begin = behind_le r q behind in
      rw behind (s.0, (s.1.0, insert_constraint_range-Sorted q.begin r qs le g s.1.1))
]
  where
    before_le : (r q : ConstraintRange) → is_before r q ≡ true → r.begin ≤ q.begin
    before_le r q h = ground arith

    behind_le : (r q : ConstraintRange) → is_before r q ≡ false → q.begin ≤ r.begin
    behind_le r q h = ground arith

pub sort_constraint_ranges-Sorted :
    (rs : List ConstraintRange) → All IsRange rs → Sorted 0 (sort_constraint_ranges rs)
unfolding sort_constraint_ranges Sorted
sort_constraint_ranges-Sorted [] all = tt
sort_constraint_ranges-Sorted (r ∷ rs) all =
    insert_constraint_range-Sorted 0 r (sort_constraint_ranges rs) (omega arith) all.0
      (sort_constraint_ranges-Sorted rs all.1)

grow-Apart :
    (low : ℕ) (last : ConstraintRange) (rs : List ConstraintRange)
    → low ≤ last.begin
    → IsRange last
    → Sorted last.begin rs
    → Apart low (grow last rs)
unfolding Sorted Apart grow
grow-Apart low last [] h g s = (h, (g, tt))
grow-Apart low last (r ∷ rs) h g s = elim (Bool-cases (leb last.end r.begin)) [
  | inl behind ↦
      rw (behind, grow, Apart) (h, (g, grow-Apart last.end r rs (ground arith) s.1.0 s.1.1))
  | inr overlaps ↦
      let merged : ConstraintRange = record last { end = max last.end r.end } in
      rw (overlaps, grow)
        (grow-Apart low merged rs h (merged_range last r g s.1.0 s.0)
          (Sorted-lower r.begin last.begin rs s.0 s.1.1))
]
  where
    far :
        (b e b' e' : ℕ)
        → ((e ≤ uintptr_max) ⊎ (max_operation_bytes < e - b))
        → ((e' ≤ uintptr_max) ⊎ (max_operation_bytes < e' - b'))
        → b ≤ b'
        → (max e e' ≤ uintptr_max) ⊎ (max_operation_bytes < max e e' - b)
    far b e b' e' (inl x) (inl y) h = inl (ground arith)
    far b e b' e' (inr x) y h = inr (ground arith)
    far b e b' e' (inl x) (inr y) h = inr (ground arith)

    merged_range :
        (last r : ConstraintRange)
        → IsRange last
        → IsRange r
        → last.begin ≤ r.begin
        → IsRange (record last { end = max last.end r.end })
    merged_range last r g g' h = (ground arith, far last.begin last.end r.begin r.end g.1 g'.1 h)

pub merge_ranges-Apart : (rs : List ConstraintRange) → Sorted 0 rs → Apart 0 (merge_ranges rs)
unfolding merge_ranges Sorted Apart
merge_ranges-Apart [] s = tt
merge_ranges-Apart (r ∷ rs) s = grow-Apart 0 r rs (omega arith) s.1.0 s.1.1

length-insert_constraint_range :
    (r : ConstraintRange) (rs : List ConstraintRange) → 0 < length (insert_constraint_range r rs)
unfolding insert_constraint_range
length-insert_constraint_range r [] = omega arith
length-insert_constraint_range r (q ∷ qs) = ground arith

length-grow : (last : ConstraintRange) (rs : List ConstraintRange) → 0 < length (grow last rs)
unfolding grow
length-grow last [] = omega arith
length-grow last (r ∷ rs) =
    ground (arith, length-grow (record last { end = max last.end r.end }) rs)

-- Ranges leave components.
pub length-merge_ranges :
    (rs : List ConstraintRange)
    → 0 < length rs
    → 0 < length (merge_ranges (sort_constraint_ranges rs))
unfolding merge_ranges sort_constraint_ranges
length-merge_ranges [] h = absurd (omega arith)
length-merge_ranges (r ∷ rs) h =
    some_merged (insert_constraint_range r (sort_constraint_ranges rs))
      (length-insert_constraint_range r (sort_constraint_ranges rs))
  where
    some_merged : (qs : List ConstraintRange) → 0 < length qs → 0 < length (merge_ranges qs)
    some_merged [] h = absurd (omega arith)
    some_merged (q ∷ qs) h = length-grow q qs
