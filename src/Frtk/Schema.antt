-- ===== src/Frtk/Schema.antt =====
-- The schema of native/host/frtk_field_schema.h and the profile of native/host/frtk_profile.h: the data,
-- and the lookups of frtk_field_schema.cpp.
use cfb27_lua_hook.Prelude.{ℕ, Option, none, some, List, ◌==◌, bytes_eq, find_if}
use cfb27_lua_hook.Frtk.Field.{FieldDefinition}

pub data AuthorityStatus : Type 0 where
  discovery_only commit_adapter_required direct_verified : AuthorityStatus

pub record TableSchema : Type 0 where
  pub logical_name : List ℕ
  pub table_id : ℕ
  pub unique_id : ℕ
  pub capacity : ℕ
  pub record_size : ℕ
  pub authority_status : AuthorityStatus
  pub fields : List FieldDefinition

pub record SchemaRegistry : Type 0 where
  pub schema_identity : List ℕ
  pub build_identity : List ℕ
  pub tables : List TableSchema

unfoldable pub find_table : SchemaRegistry → ℕ → Option TableSchema
find_table schema table_id = find_if (λ (t : TableSchema). t.table_id == table_id) schema.tables

unfoldable pub find_field : SchemaRegistry → ℕ → List ℕ → Option FieldDefinition
find_field schema table_id name = elim (find_table schema table_id) [
  | none ↦ none
  | some table ↦ find_if (λ (f : FieldDefinition). bytes_eq f.name name) table.fields
]

pub record RelationshipConstraint : Type 0 where
  pub source_row : ℕ
  pub field_name : List ℕ
  pub target_table_id : ℕ
  pub target_row : ℕ

pub record RowFingerprint : Type 0 where
  pub row_index : ℕ
  pub pattern : List ℕ
  pub mask : List ℕ

pub record TableProfile : Type 0 where
  pub logical_name : List ℕ
  pub table_id : ℕ
  pub unique_id : ℕ
  pub capacity : ℕ
  pub record_size : ℕ
  pub rows : List RowFingerprint
  pub relationships : List RelationshipConstraint

pub record ProfileBundle : Type 0 where
  pub profile_id : List ℕ
  pub schema_identity : List ℕ
  pub build_identity : List ℕ
  pub tables : List TableProfile
  pub schema : SchemaRegistry
