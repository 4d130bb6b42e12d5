-- ===== src/Frtk/Access/Finalize.antt =====
-- `FinalizeFieldTransaction` of native/host/frtk_record_access.cpp: the plans and the evidence that they
-- rest on, merged into one guarded transaction. The map of constraints is a function of the address.
use Prim.Native.Nat.{max}
use cfb27_lua_hook.Prelude.{
  ℕ, zero, suc, ◌+◌, ◌-◌, String, ◌⊎◌, inl, inr, Bool, true, false, ◌||◌, not, Option, none, some,
  List, [], ◌∷◌, ◌++◌, map, ltb, leb, ◌==◌, if◌then◌else◌, bytes_eq, length,
}
use cfb27_lua_hook.Memory.Address.{uintptr_max}
use cfb27_lua_hook.Memory.Transaction.{
  TransactionOperation, TransactionOperationKind, write, verify_only, TransactionRequest,
  max_transaction_operations, max_operation_bytes, max_transaction_bytes,
}
use cfb27_lua_hook.Reader.Text.{parse_hex}
use cfb27_lua_hook.Frtk.Catalog.{
  CatalogEvidenceGuard, CatalogEvidenceSnapshot, SessionCatalog, evidence_is_active,
}
use cfb27_lua_hook.Frtk.Access.{FieldWritePlan}
use cfb27_lua_hook.Frtk.Access.Plan.{address_text}

pub record ByteConstraint : Type 0 where
  pub expected : ℕ
  pub replacement : Option ℕ

pub record ConstraintRange : Type 0 where
  pub begin : ℕ
  pub end : ℕ

abbrev pub Constraints : Type 0
Constraints = ℕ → Option ByteConstraint

abbrev pub with_constraint : Constraints → ℕ → ByteConstraint → Constraints
with_constraint constraints address c = λ a. if a == address then some c else constraints a

unfoldable pub internal_address : List ℕ → Option ℕ
internal_address [] = none
internal_address (z ∷ []) = none
internal_address (z ∷ x ∷ digits) =
    if (length digits == 0) || (not (z == b'0') || not (x == b'x')) then none else parse_hex digits

abbrev pub is_verify_only : TransactionOperationKind → Bool
is_verify_only verify_only = true
is_verify_only write = false

-- The constraint that a byte already has, if it agrees with the new one.
unfoldable pub merge_replacement : Option ℕ → Option ℕ → Option (Option ℕ)
merge_replacement old none = some old
merge_replacement none (some new) = some (some new)
merge_replacement (some old) (some new) = if old == new then some (some new) else none

unfoldable pub merge_constraint : Option ByteConstraint → ℕ → Option ℕ → Option ByteConstraint
merge_constraint none expected replacement =
    some (record { expected = expected; replacement = replacement })
merge_constraint (some old) expected replacement =
    if old.expected == expected
    then (elim (merge_replacement old.replacement replacement) [
      | none ↦ none
      | some merged ↦ some (record { expected = old.expected; replacement = merged })
    ])
    else none

-- The bytes of one operation; without a replacement none is asked for.
unfoldable pub add_bytes : ℕ → List ℕ → List ℕ → Constraints → Option Constraints
add_bytes address [] rs constraints = some constraints
add_bytes address (e ∷ es) [] constraints = elim (merge_constraint (constraints address) e none) [
  | none ↦ none
  | some c ↦ add_bytes (address + 1) es [] (with_constraint constraints address c)
]
add_bytes address (e ∷ es) (r ∷ rs) constraints =
    elim (merge_constraint (constraints address) e (some r)) [
      | none ↦ none
      | some c ↦ add_bytes (address + 1) es rs (with_constraint constraints address c)
    ]

pub record Gathered : Type 0 where
  pub constraints : Constraints
  pub ranges : List ConstraintRange

unfoldable pub is_ill_formed : TransactionOperation → ℕ → Bool
is_ill_formed operation address =
    (length operation.expected == 0)
    || ((if is_verify_only operation.kind
          then not (length operation.replacement == 0)
          else not (length operation.expected == length operation.replacement))
        || ltb (uintptr_max - length operation.expected) address)

unfoldable pub add_operation_constraints : TransactionOperation → Gathered → Option Gathered
add_operation_constraints operation gathered = elim (internal_address operation.address) [
  | none ↦ none
  | some address ↦
      if is_ill_formed operation address
      then none
      else (elim (add_bytes address operation.expected operation.replacement gathered.constraints) [
        | none ↦ none
        | some constraints ↦ some (record {
          constraints = constraints;
          ranges =
              gathered.ranges
              ++ record { begin = address; end = address + length operation.expected } ∷ [];
        })
      ])
]

unfoldable pub add_operations : List TransactionOperation → Gathered → Option Gathered
add_operations [] gathered = some gathered
add_operations (operation ∷ operations) gathered =
    elim (add_operation_constraints operation gathered) [
      | none ↦ none
      | some gathered' ↦ add_operations operations gathered'
    ]

unfoldable pub guard_operation : CatalogEvidenceGuard → TransactionOperation
guard_operation guard = record {
  address = address_text guard.address;
  expected = guard.expected;
  replacement = [];
  kind = verify_only;
}

unfoldable pub is_stale : SessionCatalog → CatalogEvidenceSnapshot → FieldWritePlan → Bool
is_stale catalog first plan =
    not plan.ok
    || (not (plan.evidence.lifecycle_generation == first.lifecycle_generation)
        || (not (bytes_eq plan.evidence.active_unique_ids first.active_unique_ids)
            || ((length plan.evidence.guards == 0)
                || not (evidence_is_active catalog plan.evidence))))

-- The constraints of all plans, or the code of the failure.
unfoldable pub gather :
    SessionCatalog → CatalogEvidenceSnapshot → List FieldWritePlan → Gathered → String ⊎ Gathered
gather catalog first [] gathered = inr gathered
gather catalog first (plan ∷ plans) gathered =
    if is_stale catalog first plan
    then inl "CATALOG_EVIDENCE_STALE"
    else (elim (add_operations (map guard_operation plan.evidence.guards ++ plan.operations)
        gathered) [
          | none ↦ inl "CATALOG_EVIDENCE_AMBIGUOUS"
          | some gathered' ↦ gather catalog first plans gathered'
        ])

unfoldable pub is_before : ConstraintRange → ConstraintRange → Bool
is_before left right =
    if not (left.begin == right.begin) then ltb left.begin right.begin else leb left.end right.end

unfoldable pub insert_constraint_range :
    ConstraintRange → List ConstraintRange → List ConstraintRange
insert_constraint_range r [] = r ∷ []
insert_constraint_range r (q ∷ qs) =
    if is_before r q then r ∷ q ∷ qs else q ∷ insert_constraint_range r qs

unfoldable pub sort_constraint_ranges : List ConstraintRange → List ConstraintRange
sort_constraint_ranges [] = []
sort_constraint_ranges (r ∷ rs) = insert_constraint_range r (sort_constraint_ranges rs)

-- The rest of the sorted ranges, with the last component, which may still grow.
unfoldable pub grow : ConstraintRange → List ConstraintRange → List ConstraintRange
grow last [] = last ∷ []
grow last (r ∷ rs) = elim (leb last.end r.begin) [
  | true ↦ last ∷ grow r rs
  | false ↦ grow (record last { end = max last.end r.end }) rs
]

unfoldable pub merge_ranges : List ConstraintRange → List ConstraintRange
merge_ranges [] = []
merge_ranges (r ∷ rs) = grow r rs

-- The constraints of so many bytes; `none` where one has none.
unfoldable pub component_bytes : Constraints → ℕ → ℕ → Option (List ByteConstraint)
component_bytes constraints address zero = some []
component_bytes constraints address (suc size) = elim (constraints address) [
  | none ↦ none
  | some c ↦ elim (component_bytes constraints (address + 1) size) [
    | none ↦ none
    | some cs ↦ some (c ∷ cs)
  ]
]

abbrev pub has_replacement : ByteConstraint → Bool
has_replacement c = elim c.replacement [ none ↦ false | some r ↦ true ]

unfoldable pub any_replacement : List ByteConstraint → Bool
any_replacement [] = false
any_replacement (c ∷ cs) = has_replacement c || any_replacement cs

abbrev pub replaced : ByteConstraint → ℕ
replaced c = elim c.replacement [ none ↦ c.expected | some r ↦ r ]

unfoldable pub component_operation : ℕ → List ByteConstraint → TransactionOperation
component_operation begin cs =
    if any_replacement cs
    then record {
      address = address_text begin;
      expected = map (λ (c : ByteConstraint). c.expected) cs;
      replacement = map replaced cs;
      kind = write;
    }
    else record {
      address = address_text begin;
      expected = map (λ (c : ByteConstraint). c.expected) cs;
      replacement = [];
      kind = verify_only;
    }

-- The operations after those that are there already; where it fails, the code and what is left of them.
unfoldable pub component_operations :
    Constraints
    → List TransactionOperation
    → List ConstraintRange
    → Option String × List TransactionOperation
component_operations constraints operations [] = (none, operations)
component_operations constraints operations (r ∷ rs) =
    let size = r.end - r.begin in
    elim ((size == 0) || ltb max_operation_bytes size) [
      | true ↦ (some "TRANSACTION_LIMIT_EXCEEDED", operations)
      | false ↦ elim (component_bytes constraints r.begin size) [
        | none ↦ (some "CATALOG_EVIDENCE_AMBIGUOUS", operations)
        | some cs ↦
            let more = operations ++ component_operation r.begin cs ∷ [] in
            elim (ltb max_transaction_operations (length more)) [
              | true ↦ (some "TRANSACTION_LIMIT_EXCEEDED", [])
              | false ↦ component_operations constraints more rs
            ]
      ]
    ]

unfoldable pub is_over_limit : ℕ → List TransactionOperation → Bool
is_over_limit aggregate [] = false
is_over_limit aggregate (operation ∷ operations) =
    ltb (max_transaction_bytes - length operation.expected) aggregate
    || is_over_limit (aggregate + length operation.expected) operations

pub record GuardedFieldTransaction : Type 0 where
  pub ok : Bool
  pub code : String
  pub request : TransactionRequest

abbrev pub not_guarded : List ℕ → List TransactionOperation → String → GuardedFieldTransaction
not_guarded id operations code = record {
  ok = false;
  code = code;
  request = record { transaction_id = id; operations = operations };
}

abbrev pub nothing_gathered : Gathered
nothing_gathered = record { constraints = λ a. none; ranges = [] }

unfoldable pub finalize_gathered : List ℕ → Gathered → GuardedFieldTransaction
finalize_gathered id gathered =
    let (failed, operations) =
      component_operations gathered.constraints []
        (merge_ranges (sort_constraint_ranges gathered.ranges)) in
    elim failed [
      | some code ↦ not_guarded id operations code
      | none ↦
          if is_over_limit 0 operations
          then not_guarded id [] "TRANSACTION_LIMIT_EXCEEDED"
          else record {
            ok = true;
            code = "";
            request = record { transaction_id = id; operations = operations };
          }
    ]

unfoldable pub finalize_field_transaction :
    SessionCatalog → List ℕ → List FieldWritePlan → GuardedFieldTransaction
finalize_field_transaction catalog id [] = not_guarded id [] "FIELD_INVALID"
finalize_field_transaction catalog id (plan ∷ plans) =
    elim (gather catalog plan.evidence (plan ∷ plans) nothing_gathered) [
      | inl code ↦ not_guarded id [] code
      | inr gathered ↦ finalize_gathered id gathered
    ]
