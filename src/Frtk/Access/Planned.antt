-- ===== src/Frtk/Access/Planned.antt =====
-- What a plan of `PlanFieldWrites` of native/host/frtk_record_access.cpp was made of and what its
-- operations do to the record.
use cfb27_lua_hook.Prelude.{
  ℕ, ◌≤◌, ◌<◌, ◌≡◌, refl, sym, subst, ◌∙◌, inl, inr, true, false, ◌||◌, none, some, List, [], ◌∷◌,
  map, arith, ltb, ◌==◌, Bool-cases, Option-cases, length, get_or, length-map,
}
use cfb27_lua_hook.Memory.Backend.{MemoryBackend}
use cfb27_lua_hook.Memory.Transaction.{TransactionOperation, max_transaction_operations}
use cfb27_lua_hook.Frtk.Field.{FieldDefinition, ok, Fallible-cases, encode_field}
use cfb27_lua_hook.Frtk.Field.RoundTrip.{length-encode_field}
use cfb27_lua_hook.Frtk.Schema.{
  AuthorityStatus, discovery_only, commit_adapter_required, direct_verified, TableSchema,
  SchemaRegistry,
}
use cfb27_lua_hook.Frtk.Catalog.{
  TableHandle, TableStorage, canonical_records, word_swapped_records, indexed_reference_array,
  CatalogDescriptor, CatalogEvidenceSnapshot, SessionCatalog, resolve,
}
use cfb27_lua_hook.Frtk.Access.{
  FieldChange, FieldWritePlan, schema_for, row_address, canonical, change_fields, encode_fields,
  operation_of, plan_of, is_direct, Revalidated, read_record, plan_record, plan_field_writes,
}
use cfb27_lua_hook.Frtk.Access.Words.{swap_words-involutive, length-swap_words}
use cfb27_lua_hook.Frtk.Access.Plan.{diff}
use cfb27_lua_hook.Frtk.Access.Correct.{written, written-diff}

canonical-involutive :
    (storage : TableStorage) (bytes : List ℕ) → canonical storage (canonical storage bytes) ≡ bytes
unfolding canonical
canonical-involutive canonical_records bytes = refl
canonical-involutive word_swapped_records bytes = swap_words-involutive bytes
canonical-involutive indexed_reference_array bytes = refl

length-canonical :
    (storage : TableStorage) (bytes : List ℕ) → length (canonical storage bytes) ≡ length bytes
unfolding canonical
length-canonical canonical_records bytes = refl
length-canonical word_swapped_records bytes = length-swap_words bytes
length-canonical indexed_reference_array bytes = refl

length-encode_fields :
    (bytes bytes' : List ℕ) (fields : List FieldDefinition) (changes : List FieldChange)
    → encode_fields bytes fields changes ≡ ok bytes'
    → length bytes' ≡ length bytes
unfolding encode_fields
length-encode_fields bytes bytes' [] changes h = ground arith
length-encode_fields bytes bytes' (d ∷ ds) [] h = ground arith
length-encode_fields bytes bytes' (d ∷ ds) (change ∷ changes) h =
    elim (Fallible-cases (encode_field bytes d change.value)) [
      | inl (e, thrown) ↦ absurd (ground arith)
      | inr (between, encoded) ↦
          let rest : encode_fields between ds changes ≡ ok bytes' = ground (arith, encoded) in
          length-encode_fields between bytes' ds changes rest
          ∙ length-encode_field bytes between d change.value encoded
    ]

-- The record as it is, as it is to be, and the runs of bytes in which the two differ.
pub record IsPlanned (d : CatalogDescriptor) (table : TableSchema) (address : ℕ)
    (fields : List FieldDefinition) (changes : List FieldChange)
    (operations : List TransactionOperation) (original live : List ℕ) : Type 0 where
  pub encoded :
      encode_fields (canonical d.storage original) fields changes ≡ ok (canonical d.storage live)
  pub same_length : length live ≡ length original
  pub are_runs : operations ≡ map (operation_of address) (diff 0 none original live)
  pub some_runs : (0 < length operations) × (length operations ≤ max_transaction_operations)
  pub writes_live :
      (p : ℕ)
      → written (λ r. r.replacement) (diff 0 none original live) p (get_or original p 0)
        ≡ get_or live p 0
  pub writes_back :
      (p : ℕ)
      → written (λ r. r.expected) (diff 0 none original live) p (get_or live p 0)
        ≡ get_or original p 0

is_direct-verified : (a : AuthorityStatus) → is_direct a ≡ true → a ≡ direct_verified
unfolding is_direct
is_direct-verified discovery_only h = ground arith
is_direct-verified commit_adapter_required h = ground arith
is_direct-verified direct_verified h = refl

plan_of-ok :
    (evidence : CatalogEvidenceSnapshot) (address : ℕ) (original live : List ℕ)
    → (plan_of evidence address original live).ok ≡ true
    → let operations = (plan_of evidence address original live).operations in
      (operations ≡ map (operation_of address) (diff 0 none original live))
      × (0 < length operations)
      × (length operations ≤ max_transaction_operations)
unfolding plan_of
plan_of-ok evidence address original live h =
    let count = length-map (operation_of address) (diff 0 none original live) in
    let runs = diff 0 none original live in
    elim (Bool-cases ((length runs == 0) || ltb max_transaction_operations (length runs))) [
      | inl wrong ↦ absurd (ground arith)
      | inr fine ↦
          let (made, many) : ((plan_of evidence address original live).operations
                ≡ map (operation_of address) runs)
              × ((0 < length runs) × (length runs ≤ max_transaction_operations)) =
            (ground (arith, fine), (ground arith, ground arith)) in
          (made, rw (made, count) many.0, rw (made, count) many.1)
    ]

module _ {S : Type 0} (backend : MemoryBackend S)
    (revalidate : SessionCatalog → S → Revalidated × S) (schema : SchemaRegistry) where
  plan_record-ok :
      (evidence : CatalogEvidenceSnapshot) (d : CatalogDescriptor) (table : TableSchema)
      (address : ℕ) (fields : List FieldDefinition) (changes : List FieldChange) (s : S)
      → let plan =
          (plan_record backend revalidate schema evidence d table address fields changes s).0 in
        plan.ok ≡ true
        → (original : List ℕ) × (live : List ℕ) × ((read_record backend revalidate schema address
              table.record_size s).0
            ≡ some original)
          × IsPlanned d table address fields changes plan.operations original live
  unfolding plan_record
  plan_record-ok evidence d table address fields changes s h =
      elim (Option-cases (read_record backend revalidate schema address table.record_size s).0) [
        | inl failed ↦ absurd (ground arith)
        | inr (original, read) ↦
            elim (Fallible-cases (encode_fields (canonical d.storage original) fields changes)) [
              | inl (e, thrown) ↦ absurd (ground arith)
              | inr (replacement, encoded) ↦
                  let live = canonical d.storage replacement in
                  let same =
                    length-canonical d.storage replacement
                    ∙ length-encode_fields (canonical d.storage original) replacement fields changes
                        encoded
                    ∙ length-canonical d.storage original in
                  let is_plan : (plan_record backend revalidate schema evidence d table address
                        fields changes s).0
                      ≡ plan_of evidence address original live =
                    ground (arith, read, encoded) in
                  let planned =
                    plan_of-ok evidence address original live
                      (subst (λ (p : FieldWritePlan). p.ok ≡ true) is_plan h) in
                  (
                    original,
                    live,
                    read,
                    record {
                      encoded = rw (canonical-involutive d.storage replacement) encoded;
                      same_length = same;
                      are_runs = rw is_plan planned.0;
                      some_runs = rw is_plan (planned.1, planned.2);
                      writes_live = λ p. (written-diff original live p (sym same)).0;
                      writes_back = λ p. (written-diff original live p (sym same)).1;
                    },
                  )
            ]
      ]

  -- What a plan of these operations was made from.
  abbrev pub Planned :
      SessionCatalog → TableHandle → ℕ → List FieldChange → S → List TransactionOperation → Type 0
  Planned catalog handle row changes s operations =
      let checked = (revalidate catalog s).0 in
      let s1 = (revalidate catalog s).1 in
      (checked.valid ≡ true)
      × (d : CatalogDescriptor) × (table : TableSchema) × (address : ℕ) × (fields : List
          FieldDefinition)
      × (original : List ℕ) × (live : List ℕ) × (resolve checked.catalog handle ≡ some d)
      × (d.authority_status ≡ direct_verified)
      × (schema_for schema d ≡ some table)
      × (row_address d row ≡ some address)
      × (change_fields checked.catalog handle.generation schema table.table_id [] changes
          ≡ some fields)
      × ((read_record backend revalidate schema address table.record_size s1).0 ≡ some original)
      × IsPlanned d table address fields changes operations original live

  -- A plan that goes through was made with a valid catalog for a table proven writable: the record
  -- was read, all changes were encoded into its canonical form, and the operations, 1 to 32, are the
  -- runs of bytes in which the two differ: their replacements make the one of the other, and their
  -- expected bytes make it back.
  pub plan_field_writes-IsPlanned :
      (catalog : SessionCatalog) (handle : TableHandle) (row : ℕ) (changes : List FieldChange)
      (s : S)
      → let plan = (plan_field_writes backend revalidate schema catalog handle row changes s).0 in
        plan.ok ≡ true → Planned catalog handle row changes s plan.operations
  unfolding plan_field_writes
  plan_field_writes-IsPlanned catalog handle row changes s h =
      let checked = (revalidate catalog s).0 in
      let s1 = (revalidate catalog s).1 in
      elim (Bool-cases checked.valid) [
        | inr invalid ↦ absurd (ground arith)
        | inl valid ↦ elim (Option-cases (resolve checked.catalog handle)) [
          | inl stale ↦ absurd (ground arith)
          | inr (d, resolved) ↦ elim (Option-cases (schema_for schema d)) [
            | inl unknown ↦ absurd (ground arith)
            | inr (table, known) ↦ elim (Option-cases (row_address d row)) [
              | inl outside ↦ absurd (ground arith)
              | inr (address, located) ↦
                  elim (Option-cases (
                    change_fields checked.catalog handle.generation schema table.table_id []
                      changes)) [
                        | inl illegal ↦ absurd (ground arith)
                        | inr (fields, legal) ↦
                            let direct : is_direct d.authority_status ≡ true = ground arith in
                            let some_changes : (length changes == 0) ≡ false = ground arith in
                            let plan =
                              (plan_record backend revalidate schema checked.evidence d table
                                address fields changes s1).0 in
                            let is_plan : (plan_field_writes backend revalidate schema catalog
                                  handle row changes s).0
                                ≡ plan =
                              ground (
                                arith, valid, resolved, known, direct, located, some_changes, legal,
                              ) in
                            let (original, live, read, planned) =
                              plan_record-ok checked.evidence d table address fields changes s1
                                (subst (λ (p : FieldWritePlan). p.ok ≡ true) is_plan h) in
                            (
                              valid,
                              d,
                              table,
                              address,
                              fields,
                              original,
                              live,
                              resolved,
                              is_direct-verified d.authority_status direct,
                              known,
                              located,
                              legal,
                              read,
                              subst
                                  (λ (p : FieldWritePlan).
                                    IsPlanned d table address fields changes p.operations original
                                      live)
                                  (sym is_plan) planned,
                            )
                      ]
            ]
          ]
        ]
      ]
