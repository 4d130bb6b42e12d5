-- ===== src/Frtk/Access/Accepted.antt =====
-- The request that `FinalizeFieldTransaction` of native/host/frtk_record_access.cpp makes, and the checks of
-- `RunTransaction` of native/host/memory_transaction.cpp that it meets.
use mathlib.Core.Path.{ap₂}
use mathlib.Core.List.{append-nil, append_assoc}
use cfb27_lua_hook.Prelude.{
  ℕ, zero, suc, ◌+◌, ◌-◌, ◌≤◌, ◌<◌, String, ◌≡◌, refl, sym, ap, subst, ◌∙◌, inl, inr, false, ◌||◌,
  Option, none, some, List, [], ◌∷◌, ◌++◌, map, arith, ltb, ◌==◌, Bool-cases, Option-cases, length,
  length-map,
}
use cfb27_lua_hook.Memory.Address
use cfb27_lua_hook.Memory.Address.{uintptr_max}
use cfb27_lua_hook.Memory.Transaction.{
  TransactionOperation, PreparedOperation, Range, ok, max_transaction_operations,
  max_operation_bytes, max_transaction_bytes, has_invalid_size, check_address, check_operation,
  prepare, insert_range, sort_ranges, ranges_of, has_overlap,
}
use cfb27_lua_hook.Memory.Transaction.Checks.{has_invalid_size-false}
use cfb27_lua_hook.Reader.Text.RoundTrip.{parse_digits-to_hex}
use cfb27_lua_hook.Frtk.Access.Plan.{address_text}
use cfb27_lua_hook.Frtk.Access.Finalize.{
  ByteConstraint, Constraints, ConstraintRange, component_bytes, component_operation,
  component_operations, any_replacement, replaced, is_over_limit,
}
use cfb27_lua_hook.Frtk.Access.Ordered.{IsRange, Apart}

parse_address-address_text :
    (a : ℕ) → a ≤ uintptr_max → Address.parse_address (address_text a) ≡ some a
unfolding Address.parse_address address_text
parse_address-address_text a h = parse_digits-to_hex a h

-- The operation covers the range.
abbrev pub IsFor : ConstraintRange → TransactionOperation → Type 0
IsFor r op =
    (op.address ≡ address_text r.begin)
    × (r.begin + length op.expected ≡ r.end)
    × (has_invalid_size op ≡ false)

unfoldable pub AreFor : List ConstraintRange → List TransactionOperation → Type 0
AreFor [] [] = Unit {0}
AreFor [] (op ∷ ops) = ⊥
AreFor (r ∷ rs) [] = ⊥
AreFor (r ∷ rs) (op ∷ ops) = IsFor r op × AreFor rs ops

length-component_bytes :
    (constraints : Constraints) (a n : ℕ) (cs : List ByteConstraint)
    → component_bytes constraints a n ≡ some cs
    → length cs ≡ n
unfolding component_bytes
length-component_bytes constraints a zero cs h = ground arith
length-component_bytes constraints a (suc n) cs h = elim (Option-cases (constraints a)) [
  | inl missing ↦ absurd (ground arith)
  | inr (c, there) ↦ elim (Option-cases (component_bytes constraints (a + 1) n)) [
    | inl missing ↦ absurd (ground arith)
    | inr (rest, read) ↦
        let size = length-component_bytes constraints (a + 1) n rest read in
        let built : c ∷ rest ≡ cs = ground arith in
        subst (λ xs. length xs ≡ suc n) built (omega (arith, size))
  ]
]

component_operation-IsFor :
    (r : ConstraintRange) (cs : List ByteConstraint)
    → r.begin < r.end
    → r.end - r.begin ≤ max_operation_bytes
    → length cs ≡ r.end - r.begin
    → IsFor r (component_operation r.begin cs)
unfolding component_operation has_invalid_size
component_operation-IsFor r cs pos small size =
    let expected = length-map (λ (c : ByteConstraint). c.expected) cs in
    let replacement = length-map replaced cs in
    elim (Bool-cases (any_replacement cs)) [
      | inl writes ↦
          rw writes (refl, omega (arith, expected), ground (arith, expected, replacement))
      | inr verifies ↦ rw verifies (refl, omega (arith, expected), ground (arith, expected))
    ]

pub component_operations-AreFor :
    (constraints : Constraints) (operations : List TransactionOperation) (rs : List ConstraintRange)
    (low : ℕ) (made : List TransactionOperation)
    → Apart low rs
    → length operations ≤ max_transaction_operations
    → component_operations constraints operations rs ≡ (none, made)
    → (more : List TransactionOperation) × (made ≡ operations ++ more)
      × AreFor rs more
      × (length made ≤ max_transaction_operations)
unfolding component_operations AreFor Apart
component_operations-AreFor constraints operations [] low made apart few h =
    let same : operations ≡ made = ap (λ (x : Option String × List TransactionOperation). x.1) h in
    (
      [],
      sym same ∙ sym (append-nil operations),
      tt,
      subst (λ (ops : List TransactionOperation). length ops ≤ max_transaction_operations) same few,
    )
component_operations-AreFor constraints operations (r ∷ rs) low made apart few h =
    let size = r.end - r.begin in
    elim (Bool-cases ((size == 0) || ltb max_operation_bytes size)) [
      | inl wrong ↦ absurd (ground arith)
      | inr fine ↦ elim (Option-cases (component_bytes constraints r.begin size)) [
        | inl missing ↦ absurd (ground arith)
        | inr (cs, read) ↦
            let op = component_operation r.begin cs in
            elim (Bool-cases (ltb max_transaction_operations (length (operations ++ op ∷ [])))) [
              | inl many ↦ absurd (ground arith)
              | inr some_left ↦
                  let rest : component_operations constraints (operations ++ op ∷ []) rs
                      ≡ (none, made) =
                    ground (arith, read) in
                  let (more, whole, are, all_few) =
                    component_operations-AreFor constraints (operations ++ op ∷ []) rs r.end made
                      apart.1.1 (ground arith) rest in
                  let one : IsFor r op =
                    component_operation-IsFor r cs (ground arith) (ground arith)
                      (length-component_bytes constraints r.begin size cs read) in
                  (op ∷ more, whole ∙ append_assoc operations (op ∷ []) more, (one, are), all_few)
            ]
      ]
    ]

abbrev pub range : ConstraintRange → Range
range r = record { begin = r.begin; end = r.end }

check_operation-IsFor :
    (aggregate : ℕ) (r : ConstraintRange) (op : TransactionOperation)
    → IsRange r
    → IsFor r op
    → ltb (max_transaction_bytes - length op.expected) aggregate ≡ false
    → check_operation aggregate op ≡ ok r.begin
unfolding check_operation check_address
check_operation-IsFor aggregate r op good (placed, covered, sized) fits =
    let sizes = has_invalid_size-false op sized in
    let inside : r.end ≤ uintptr_max = ground (arith, good.1, sizes.1) in
    let parsed : Address.parse_address op.address ≡ some r.begin =
      rw placed (parse_address-address_text r.begin (omega arith)) in
    ground (arith, sized, parsed)

pub prepare-AreFor :
    (aggregate : ℕ) (rs : List ConstraintRange) (low : ℕ) (ops : List TransactionOperation)
    → Apart low rs
    → AreFor rs ops
    → is_over_limit aggregate ops ≡ false
    → (ps : List PreparedOperation) × (prepare aggregate ops ≡ ok ps)
      × (ranges_of ps ≡ map range rs)
unfolding prepare AreFor Apart is_over_limit check_operation check_address ranges_of
prepare-AreFor aggregate [] low [] apart are h = ([], refl, refl)
prepare-AreFor aggregate [] low (op ∷ ops) apart are h = absurd are
prepare-AreFor aggregate (r ∷ rs) low [] apart are h = absurd are
prepare-AreFor aggregate (r ∷ rs) low (op ∷ ops) apart are h =
    let first = check_operation-IsFor aggregate r op apart.1.0 are.0 (ground arith) in
    let (ps, prepared, ranges) =
      prepare-AreFor (aggregate + length op.expected) rs r.end ops apart.1.1 are.1 (ground arith) in
    (
      record { operation = op; address = r.begin } ∷ ps,
      ground (arith, first, prepared),
      ap₂ ◌∷◌ (ap (λ (e : ℕ). record { begin = r.begin; end = e }) are.0.1) ranges,
    )

pub sort_ranges-Apart :
    (rs : List ConstraintRange) (low : ℕ) → Apart low rs → sort_ranges (map range rs) ≡ map range rs
unfolding sort_ranges insert_range Apart
sort_ranges-Apart [] low apart = refl
sort_ranges-Apart (r ∷ []) low apart = refl
sort_ranges-Apart (r ∷ q ∷ rs) low apart =
    let sorted = sort_ranges-Apart (q ∷ rs) r.end apart.1.1 in rw sorted (ground arith)

pub has_overlap-Apart :
    (rs : List ConstraintRange) (low : ℕ) → Apart low rs → has_overlap (map range rs) ≡ false
unfolding has_overlap Apart
has_overlap-Apart [] low apart = refl
has_overlap-Apart (r ∷ []) low apart = refl
has_overlap-Apart (r ∷ q ∷ rs) low apart =
    ground (arith, has_overlap-Apart (q ∷ rs) r.end apart.1.1, apart.1.1.0)
