-- ===== src/Frtk/Access.antt =====
-- native/host/frtk_record_access.h and frtk_record_access.cpp: fields of a record read through the
-- catalog, and changes of them planned as operations of a guarded transaction.
pub mod Words
pub mod Plan
pub mod Finalize
pub mod Correct
pub mod Planned
pub mod Ordered
pub mod Accepted
pub mod Guarded
mod Tests
use cfb27_lua_hook.Prelude.{
  ℕ, ◌+◌, ◌-◌, ◌*◌, ◌/◌, ◌%◌, ◌^◌, String, Bool, true, false, ◌&&◌, ◌||◌, not, Option, none, some,
  List, [], ◌∷◌, map, ltb, leb, ◌==◌, if◌then◌else◌, bytes_eq, length,
}
use cfb27_lua_hook.Memory.Address.{uintptr_max}
use cfb27_lua_hook.Memory.Backend.{MemoryBackend}
use cfb27_lua_hook.Memory.Transaction.{TransactionOperation, write, max_transaction_operations}
use cfb27_lua_hook.Frtk.Field.{
  FieldDefinition, is_packed, DecodedField, integer, reference, Fallible, ok, throw, decode_field,
  encode_field,
}
use cfb27_lua_hook.Frtk.Schema.{
  AuthorityStatus, discovery_only, commit_adapter_required, direct_verified, TableSchema,
  SchemaRegistry, find_table, find_field,
}
use cfb27_lua_hook.Frtk.Catalog.{
  TableHandle, TableStorage, canonical_records, word_swapped_records, indexed_reference_array,
  is_indexed, CatalogDescriptor, CatalogEvidenceSnapshot, SessionCatalog, resolve,
  is_active_reference_target,
}
use Words.{swap_words}
use Plan.{Run, diff, address_text}

pub record NamedFieldValue : Type 0 where
  pub name : List ℕ
  pub value : DecodedField

pub record FieldReadResult : Type 0 where
  pub ok : Bool
  pub code : String
  pub fields : List NamedFieldValue

pub record FieldChange : Type 0 where
  pub name : List ℕ
  pub value : DecodedField

pub record FieldWritePlan : Type 0 where
  pub ok : Bool
  pub code : String
  pub evidence : CatalogEvidenceSnapshot
  pub operations : List TransactionOperation

unfoldable pub is_schema_for : CatalogDescriptor → TableSchema → Bool
is_schema_for d table =
    (table.unique_id == d.unique_id)
    && ((table.capacity == d.capacity)
        && (if is_indexed d.storage
            then table.record_size == d.virtual_width * 4 % 2 ^ 32
            else table.record_size == d.stride))

unfoldable pub schema_for : SchemaRegistry → CatalogDescriptor → Option TableSchema
schema_for schema d = elim (find_table schema d.session_table_id) [
  | none ↦ none
  | some table ↦ if is_schema_for d table then some table else none
]

unfoldable pub row_address : CatalogDescriptor → ℕ → Option ℕ
row_address d row =
    if leb d.capacity row
      || ((not (row == 0) && ltb (uintptr_max / row) d.stride)
          || ltb (uintptr_max - d.base_address) (row * d.stride))
    then none
    else some (d.base_address + row * d.stride)

unfoldable pub is_reference_to : SessionCatalog → ℕ → Option ℕ → DecodedField → Bool
is_reference_to catalog generation none value = false
is_reference_to catalog generation (some table_id) (integer z) = false
is_reference_to catalog generation (some table_id) (reference r) =
    (r.table_id == table_id) && is_active_reference_target catalog r.table_id r.row_index generation

-- `ValidReference`.
unfoldable pub is_valid_reference : SessionCatalog → ℕ → FieldDefinition → DecodedField → Bool
is_valid_reference catalog generation field value =
    not (is_packed field.encoding)
    || is_reference_to catalog generation field.reference_table_id value

unfoldable pub find_fields : SchemaRegistry → ℕ → List (List ℕ) → Option (List FieldDefinition)
find_fields schema table_id [] = some []
find_fields schema table_id (name ∷ names) = elim (find_field schema table_id name) [
  | none ↦ none
  | some field ↦ elim (find_fields schema table_id names) [
    | none ↦ none
    | some fields ↦ some (field ∷ fields)
  ]
]

-- The value of a field of an indexed table: a reference that the row and the field's place make.
unfoldable pub indexed_value :
    SessionCatalog → ℕ → CatalogDescriptor → ℕ → ℕ → FieldDefinition → Option DecodedField
indexed_value catalog generation d target row field =
    let ordinal = field.byte_offset / 4 in
    let target_row = row * d.virtual_width + ordinal in
    let value = reference (record { table_id = target; row_index = target_row }) in
    if not (is_packed field.encoding)
      || (not (field.storage_bytes == 4)
          || (not (field.byte_offset % 4 == 0)
              || (not (elim field.reference_table_id [ none ↦ false | some id ↦ id == target ])
                  || (leb d.virtual_width ordinal
                      || (ltb 0xFFFFFFFF target_row
                          || not (is_valid_reference catalog generation field value))))))
    then none
    else some value

unfoldable pub indexed_values :
    SessionCatalog
    → ℕ
    → CatalogDescriptor
    → ℕ
    → ℕ
    → List (List ℕ)
    → List FieldDefinition
    → Option (List NamedFieldValue)
indexed_values catalog generation d target row [] fields = some []
indexed_values catalog generation d target row (name ∷ names) [] = some []
indexed_values catalog generation d target row (name ∷ names) (field ∷ fields) =
    elim (indexed_value catalog generation d target row field) [
      | none ↦ none
      | some value ↦ elim (indexed_values catalog generation d target row names fields) [
        | none ↦ none
        | some values ↦ some (record { name = name; value = value } ∷ values)
      ]
    ]

-- The record as the table's storage holds it, and the other way round.
unfoldable pub canonical : TableStorage → List ℕ → List ℕ
canonical word_swapped_records bytes = swap_words bytes
canonical canonical_records bytes = bytes
canonical indexed_reference_array bytes = bytes

unfoldable pub decode_fields :
    SessionCatalog
    → ℕ
    → List ℕ
    → List (List ℕ)
    → List FieldDefinition
    → Option (List NamedFieldValue)
decode_fields catalog generation bytes [] fields = some []
decode_fields catalog generation bytes (name ∷ names) [] = some []
decode_fields catalog generation bytes (name ∷ names) (field ∷ fields) =
    elim (decode_field bytes field) [
      | throw e ↦ none
      | ok value ↦
          if not (is_valid_reference catalog generation field value)
          then none
          else (elim (decode_fields catalog generation bytes names fields) [
            | none ↦ none
            | some values ↦ some (record { name = name; value = value } ∷ values)
          ])
    ]

abbrev pub read_failed : String → FieldReadResult
read_failed code = record { ok = false; code = code; fields = [] }

abbrev pub fields_or_invalid : Option (List NamedFieldValue) → FieldReadResult
fields_or_invalid none = read_failed "FIELD_INVALID"
fields_or_invalid (some values) = record { ok = true; code = ""; fields = values }

abbrev pub no_evidence : CatalogEvidenceSnapshot
no_evidence = record { lifecycle_generation = 0; active_unique_ids = []; guards = [] }

abbrev pub plan_failed : String → FieldWritePlan
plan_failed code = record { ok = false; code = code; evidence = no_evidence; operations = [] }

-- The definitions of the fields to change; no name twice, each value a legal reference.
unfoldable pub contains_name : List (List ℕ) → List ℕ → Bool
contains_name [] name = false
contains_name (n ∷ ns) name = bytes_eq n name || contains_name ns name

unfoldable pub change_fields :
    SessionCatalog
    → ℕ
    → SchemaRegistry
    → ℕ
    → List (List ℕ)
    → List FieldChange
    → Option (List FieldDefinition)
change_fields catalog generation schema table_id names [] = some []
change_fields catalog generation schema table_id names (change ∷ changes) =
    if contains_name names change.name
    then none
    else (elim (find_field schema table_id change.name) [
      | none ↦ none
      | some field ↦
          if not (is_valid_reference catalog generation field change.value)
          then none
          else (elim (change_fields catalog generation schema table_id (change.name ∷ names)
              changes) [ none ↦ none | some fields ↦ some (field ∷ fields) ])
    ])

unfoldable pub encode_fields : List ℕ → List FieldDefinition → List FieldChange → Fallible (List ℕ)
encode_fields bytes [] changes = ok bytes
encode_fields bytes (field ∷ fields) [] = ok bytes
encode_fields bytes (field ∷ fields) (change ∷ changes) =
    elim (encode_field bytes field change.value) [
      | throw e ↦ throw e
      | ok bytes' ↦ encode_fields bytes' fields changes
    ]

unfoldable pub operation_of : ℕ → Run → TransactionOperation
operation_of address run = record {
  address = address_text (address + run.begin);
  expected = run.expected;
  replacement = run.replacement;
  kind = write;
}

-- The plan for a record: the runs of bytes in which the two differ.
unfoldable pub plan_of : CatalogEvidenceSnapshot → ℕ → List ℕ → List ℕ → FieldWritePlan
plan_of evidence address original replacement =
    let runs = diff 0 none original replacement in
    if (length runs == 0) || ltb max_transaction_operations (length runs)
    then plan_failed "FIELD_INVALID"
    else record {
      ok = true;
      code = "";
      evidence = evidence;
      operations = map (operation_of address) runs;
    }

unfoldable pub is_direct : AuthorityStatus → Bool
is_direct discovery_only = false
is_direct commit_adapter_required = false
is_direct direct_verified = true

-- What `Revalidate` gives: its answer, the evidence and the catalog that it leaves.
pub record Revalidated : Type 0 where
  pub valid : Bool
  pub evidence : CatalogEvidenceSnapshot
  pub catalog : SessionCatalog

module _ {S : Type 0} (backend : MemoryBackend S)
    (revalidate : SessionCatalog → S → Revalidated × S) (schema : SchemaRegistry) where
  -- Validates and reads so many bytes.
  unfoldable pub read_record : ℕ → ℕ → S → Option (List ℕ) × S
  read_record address size s =
      let (valid, s1) = backend.validate address size false s in
      if valid then backend.read address size s1 else (none, s1)

  unfoldable pub read_located :
      SessionCatalog
      → TableHandle
      → CatalogDescriptor
      → TableSchema
      → ℕ
      → ℕ
      → List (List ℕ)
      → List FieldDefinition
      → S
      → FieldReadResult × S
  read_located catalog handle d table address row names fields s =
      if is_indexed d.storage
      then (elim d.virtual_target_table_id [
        | none ↦ (read_failed "FIELD_INVALID", s)
        | some target ↦ if d.virtual_width == 0 then (read_failed "FIELD_INVALID", s) else (
          fields_or_invalid (indexed_values catalog handle.generation d target row names fields),
          s,
        )
      ])
      else (let (read, s') = read_record address table.record_size s in
          elim read [
            | none ↦ (read_failed "READ_FAILED", s')
            | some bytes ↦ (
              fields_or_invalid (
                  decode_fields catalog handle.generation (canonical d.storage bytes) names fields),
              s',
            )
          ])

  unfoldable pub read_fields :
      SessionCatalog → TableHandle → ℕ → List (List ℕ) → S → FieldReadResult × SessionCatalog × S
  read_fields catalog handle row names s =
      let (checked, s1) = revalidate catalog s in
      let catalog' = checked.catalog in
      if not checked.valid
      then (read_failed "CATALOG_STALE", catalog', s1)
      else (elim (resolve catalog' handle) [
        | none ↦ (read_failed "CATALOG_STALE", catalog', s1)
        | some d ↦ elim (schema_for schema d) [
          | none ↦ (read_failed "FIELD_INVALID", catalog', s1)
          | some table ↦ elim (row_address d row) [
            | none ↦ (read_failed "FIELD_INVALID", catalog', s1)
            | some address ↦
                if length names == 0
                then (read_failed "FIELD_INVALID", catalog', s1)
                else (elim (find_fields schema table.table_id names) [
                  | none ↦ (read_failed "FIELD_INVALID", catalog', s1)
                  | some fields ↦
                      let (result, s2) =
                        read_located catalog' handle d table address row names fields s1 in
                      (result, catalog', s2)
                ])
          ]
        ]
      ])

  -- The bytes that are there and those that are to be there, in the order of the memory.
  unfoldable pub plan_record :
      CatalogEvidenceSnapshot
      → CatalogDescriptor
      → TableSchema
      → ℕ
      → List FieldDefinition
      → List FieldChange
      → S
      → FieldWritePlan × S
  plan_record evidence d table address fields changes s =
      let (read, s') = read_record address table.record_size s in
      elim read [
        | none ↦ (plan_failed "READ_FAILED", s')
        | some original ↦ elim (encode_fields (canonical d.storage original) fields changes) [
          | throw e ↦ (plan_failed "FIELD_INVALID", s')
          | ok replacement ↦
              (plan_of evidence address original (canonical d.storage replacement), s')
        ]
      ]

  unfoldable pub plan_field_writes :
      SessionCatalog → TableHandle → ℕ → List FieldChange → S → FieldWritePlan × SessionCatalog × S
  plan_field_writes catalog handle row changes s =
      let (checked, s1) = revalidate catalog s in
      let catalog' = checked.catalog in
      if not checked.valid
      then (plan_failed "CATALOG_STALE", catalog', s1)
      else (elim (resolve catalog' handle) [
        | none ↦ (plan_failed "CATALOG_STALE", catalog', s1)
        | some d ↦ elim (schema_for schema d) [
          | none ↦ (plan_failed "FIELD_INVALID", catalog', s1)
          | some table ↦
              if not (is_direct d.authority_status)
              then (plan_failed "AUTHORITY_UNPROVEN", catalog', s1)
              else (elim (row_address d row) [
                | none ↦ (plan_failed "FIELD_INVALID", catalog', s1)
                | some address ↦
                    if length changes == 0
                    then (plan_failed "FIELD_INVALID", catalog', s1)
                    else (elim (change_fields catalog' handle.generation schema table.table_id []
                        changes) [
                          | none ↦ (plan_failed "FIELD_INVALID", catalog', s1)
                          | some fields ↦
                              let (plan, s2) =
                                plan_record checked.evidence d table address fields changes s1 in
                              (plan, catalog', s2)
                        ])
              ])
        ]
      ])
