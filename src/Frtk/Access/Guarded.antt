-- ===== src/Frtk/Access/Guarded.antt =====
-- `FinalizeFieldTransaction` of native/host/frtk_record_access.cpp before `RunTransaction` of
-- native/host/memory_transaction.cpp.
use cfb27_lua_hook.Prelude.{
  ℕ, suc, ◌+◌, ◌≤◌, ◌<◌, String, ◌≡◌, refl, sym, ap, subst, ◌∙◌, inl, inr, true, false, Option,
  none, some, List, [], ◌∷◌, ◌++◌, map, arith, leb, Bool-cases, Option-cases, sum-cases, length,
  all, length-append, All, All-append, length-map,
}
use cfb27_lua_hook.Memory.Address.{uintptr_max, is_valid_transaction_id}
use cfb27_lua_hook.Memory.Transaction.{
  TransactionOperation, PreparedOperation, ok, max_transaction_operations, prepare, sort_ranges,
  ranges_of, has_overlap,
}
use cfb27_lua_hook.Memory.Transaction.Run.{check_request}
use cfb27_lua_hook.Frtk.Catalog.{CatalogEvidenceSnapshot, SessionCatalog}
use cfb27_lua_hook.Frtk.Access.{FieldWritePlan}
use cfb27_lua_hook.Frtk.Access.Finalize.{
  ConstraintRange, Gathered, internal_address, add_bytes, is_ill_formed, add_operation_constraints,
  add_operations, guard_operation, is_stale, gather, sort_constraint_ranges, merge_ranges,
  component_operations, is_over_limit, nothing_gathered, GuardedFieldTransaction, finalize_gathered,
  finalize_field_transaction,
}
use cfb27_lua_hook.Frtk.Access.Ordered.{
  IsRange, sort_constraint_ranges-Sorted, merge_ranges-Apart, length-merge_ranges,
}
use cfb27_lua_hook.Frtk.Access.Accepted.{
  AreFor, component_operations-AreFor, prepare-AreFor, sort_ranges-Apart, has_overlap-Apart,
}

-- Ranges with bytes in them, some if something was gathered.
abbrev Gathers : ℕ → Gathered → Gathered → Type 0
Gathers more before after =
    (All IsRange before.ranges → All IsRange after.ranges)
    × (0 < more + length before.ranges → 0 < length after.ranges)

is_ill_formed-IsRange :
    (op : TransactionOperation) (a : ℕ)
    → is_ill_formed op a ≡ false
    → IsRange (record { begin = a; end = a + length op.expected })
unfolding is_ill_formed
is_ill_formed-IsRange op a h = (
  ground arith,
  elim (Bool-cases (leb (length op.expected) uintptr_max)) [
    | inl short ↦ inl (ground arith)
    | inr long ↦ inr (ground arith)
  ],
)

add_operation_constraints-Gathers :
    (op : TransactionOperation) (g g' : Gathered)
    → add_operation_constraints op g ≡ some g'
    → Gathers 1 g g'
unfolding add_operation_constraints
add_operation_constraints-Gathers op g g' h = elim (Option-cases (internal_address op.address)) [
  | inl bad ↦ absurd (ground arith)
  | inr (a, parsed) ↦ elim (Bool-cases (is_ill_formed op a)) [
    | inl ill ↦ absurd (ground arith)
    | inr well ↦ elim (Option-cases (add_bytes a op.expected op.replacement g.constraints)) [
      | inl ambiguous ↦ absurd (ground arith)
      | inr (cs, added) ↦
          let r : ConstraintRange = record { begin = a; end = a + length op.expected } in
          let built : g.ranges ++ r ∷ [] ≡ g'.ranges = ground arith in
          (
            λ all.
                subst (All IsRange) built
                  (All-append IsRange g.ranges (r ∷ []) all (is_ill_formed-IsRange op a well, tt)),
            λ pos.
                subst (λ (rs : List ConstraintRange). 0 < length rs) built
                  (omega (arith, length-append g.ranges (r ∷ []))),
          )
    ]
  ]
]

add_operations-Gathers :
    (ops : List TransactionOperation) (g g' : Gathered)
    → add_operations ops g ≡ some g'
    → Gathers (length ops) g g'
unfolding add_operations
add_operations-Gathers [] g g' h =
    let same : g ≡ g' = ground arith in
    subst (λ (x : Gathered). Gathers 0 g x) same (λ all. all, λ pos. omega arith)
add_operations-Gathers (op ∷ ops) g g' h = elim (Option-cases (add_operation_constraints op g)) [
  | inl bad ↦ absurd (ground arith)
  | inr (between, added) ↦
      let first = add_operation_constraints-Gathers op g between added in
      let rest = add_operations-Gathers ops between g' (ground (arith, added)) in
      (λ all. rest.0 (first.0 all), λ pos. rest.1 (omega (arith, first.1 (omega arith))))
]

gather-Gathers :
    (catalog : SessionCatalog) (first : CatalogEvidenceSnapshot) (plans : List FieldWritePlan)
    (g g' : Gathered)
    → gather catalog first plans g ≡ inr g'
    → Gathers (length plans) g g'
unfolding gather is_stale
gather-Gathers catalog first [] g g' h =
    let same : g ≡ g' = ground arith in
    subst (λ (x : Gathered). Gathers 0 g x) same (λ all. all, λ pos. omega arith)
gather-Gathers catalog first (plan ∷ plans) g g' h =
    elim (Bool-cases (is_stale catalog first plan)) [
      | inl stale ↦ absurd (ground arith)
      | inr current ↦
          let ops = map guard_operation plan.evidence.guards ++ plan.operations in
          elim (Option-cases (add_operations ops g)) [
            | inl ambiguous ↦ absurd (ground arith)
            | inr (between, added) ↦
                let size =
                  length-append (map guard_operation plan.evidence.guards) plan.operations in
                let guarded = length-map guard_operation plan.evidence.guards in
                let some_guards : 0 < length plan.evidence.guards = ground arith in
                let now = add_operations-Gathers ops g between added in
                let rest = gather-Gathers catalog first plans between g' (ground (arith, added)) in
                (
                  λ all. rest.0 (now.0 all),
                  λ pos. rest.1 (omega (arith, now.1 (omega (arith, size, guarded)))),
                )
          ]
    ]

length-AreFor :
    (rs : List ConstraintRange) (ops : List TransactionOperation)
    → AreFor rs ops
    → length ops ≡ length rs
unfolding AreFor
length-AreFor [] [] are = refl
length-AreFor [] (op ∷ ops) are = absurd are
length-AreFor (r ∷ rs) [] are = absurd are
length-AreFor (r ∷ rs) (op ∷ ops) are = ap suc (length-AreFor rs ops are.1)

check_request-ok :
    (id : List ℕ) (ops : List TransactionOperation) (ps : List PreparedOperation)
    → is_valid_transaction_id id ≡ true
    → 0 < length ops
    → length ops ≤ max_transaction_operations
    → prepare 0 ops ≡ ok ps
    → has_overlap (sort_ranges (ranges_of ps)) ≡ false
    → check_request (record { transaction_id = id; operations = ops }) ≡ ok ps
unfolding check_request
check_request-ok id ops ps valid pos few prepared apart = ground (arith, valid, prepared, apart)

check_request-finalize_gathered :
    (id : List ℕ) (g : Gathered)
    → is_valid_transaction_id id ≡ true
    → All IsRange g.ranges
    → 0 < length g.ranges
    → (finalize_gathered id g).ok ≡ true
    → (ps : List PreparedOperation) × (check_request (finalize_gathered id g).request ≡ ok ps)
unfolding finalize_gathered
check_request-finalize_gathered id g valid all pos h =
    let components = merge_ranges (sort_constraint_ranges g.ranges) in
    let apart =
      merge_ranges-Apart (sort_constraint_ranges g.ranges)
        (sort_constraint_ranges-Sorted g.ranges all) in
    let made = component_operations g.constraints [] components in
    elim (Option-cases made.0) [
      | inr (code, failed) ↦ absurd (ground arith)
      | inl through ↦
          let e : made ≡ (none, made.1) = ap (λ (c : Option String). (c, made.1)) through in
          let (more, whole, are, few) =
            component_operations-AreFor g.constraints [] components 0 made.1 apart (omega arith)
              e in
          elim (Bool-cases (is_over_limit 0 made.1)) [
            | inl over ↦ absurd (ground arith)
            | inr within ↦
                let (ps, prepared, ranges) = prepare-AreFor 0 components 0 more apart are (
                  subst (λ (ops : List TransactionOperation). is_over_limit 0 ops ≡ false) whole
                    within) in
                let some_operations : 0 < length more =
                  omega
                    (arith, length-AreFor components more are, length-merge_ranges g.ranges pos) in
                let no_overlap : has_overlap (sort_ranges (ranges_of ps)) ≡ false =
                  ap (λ rs. has_overlap (sort_ranges rs)) ranges
                  ∙ ap has_overlap (sort_ranges-Apart components 0 apart)
                  ∙ has_overlap-Apart components 0 apart in
                let accepted =
                  check_request-ok id more ps valid some_operations
                    (subst
                      (λ (ops : List TransactionOperation). length ops ≤ max_transaction_operations)
                      whole few)
                    prepared no_overlap in
                let request : (finalize_gathered id g).request
                    ≡ record { transaction_id = id; operations = more } =
                  ground (arith, through, whole, within) in
                (ps, ap check_request request ∙ accepted)
          ]
    ]

-- A transaction that `FinalizeFieldTransaction` lets through, with a legal id, passes every check that
-- `RunTransaction` makes before it calls the backend.
pub check_request-finalize_field_transaction :
    (catalog : SessionCatalog) (id : List ℕ) (plans : List FieldWritePlan)
    → is_valid_transaction_id id ≡ true
    → (finalize_field_transaction catalog id plans).ok ≡ true
    → (ps : List PreparedOperation) × (check_request
          (finalize_field_transaction catalog id plans).request
        ≡ ok ps)
unfolding finalize_field_transaction
check_request-finalize_field_transaction catalog id [] valid h = absurd (ground arith)
check_request-finalize_field_transaction catalog id (plan ∷ plans) valid h =
    elim (sum-cases (gather catalog plan.evidence (plan ∷ plans) nothing_gathered)) [
      | inl (code, failed) ↦ absurd (ground arith)
      | inr (g, gathered) ↦
          let ready =
            gather-Gathers catalog plan.evidence (plan ∷ plans) nothing_gathered g gathered in
          let made : finalize_field_transaction catalog id (plan ∷ plans) ≡ finalize_gathered id g =
            ground (arith, gathered) in
          let (ps, accepted) =
            check_request-finalize_gathered id g valid (ready.0 tt) (ready.1 (omega arith))
              (ap (λ (x : GuardedFieldTransaction). x.ok) (sym made) ∙ h) in
          (ps, ap (λ (x : GuardedFieldTransaction). check_request x.request) made ∙ accepted)
    ]
