-- ===== src/Frtk/Catalog.antt =====
-- native/host/frtk_catalog.h and frtk_catalog.cpp: the catalog of a session's tables. Each installation,
-- loss and partial loss of tables starts a new generation, and handles of an earlier one are refused.
pub mod Lifecycle
mod Tests
use cfb27_lua_hook.Prelude.{
  ℕ, ◌+◌, ◌*◌, ◌%◌, ◌^◌, String, Bool, true, false, ◌&&◌, ◌||◌, not, Option, none, some, List, [],
  ◌∷◌, map, ltb, leb, ◌==◌, if◌then◌else◌, bytes_eq, length, all, find_if,
}
use cfb27_lua_hook.Frtk.Schema.{
  AuthorityStatus, direct_verified, TableSchema, SchemaRegistry, find_table, TableProfile,
  ProfileBundle,
}

pub record TableHandle : Type 0 where
  pub unique_id : ℕ
  pub generation : ℕ

pub data TableStorage : Type 0 where
  canonical_records word_swapped_records indexed_reference_array : TableStorage

pub record DiscoveryEvidence : Type 0 where
  pub code : String
  pub fingerprint_count : ℕ

pub data TableState : Type 0 where
  resolved missing ambiguous unstable relationship_failed allocation_invalid : TableState

-- `TableDescriptor` of native/host/frtk_discovery.h.
pub record TableDescriptor : Type 0 where
  pub unique_id : ℕ
  pub base : ℕ
  pub stride : ℕ
  pub capacity : ℕ
  pub allocation_base : ℕ
  pub allocation_size : ℕ
  pub storage : TableStorage
  pub virtual_target_table_id : Option ℕ
  pub virtual_width : ℕ
  pub direct_write_verified : Bool

pub record TableDiscovery : Type 0 where
  pub unique_id : ℕ
  pub state : TableState
  pub descriptor : Option TableDescriptor
  pub evidence : List DiscoveryEvidence

-- `DiscoveryResult`, as far as it is installed.
pub record DiscoveryResult : Type 0 where
  pub valid : Bool
  pub tables : List TableDiscovery

pub record CatalogDescriptor : Type 0 where
  pub unique_id : ℕ
  pub session_table_id : ℕ
  pub base_address : ℕ
  pub stride : ℕ
  pub capacity : ℕ
  pub allocation_base : ℕ
  pub allocation_size : ℕ
  pub storage : TableStorage
  pub virtual_target_table_id : Option ℕ
  pub virtual_width : ℕ
  pub profile_id : List ℕ
  pub lifecycle_generation : ℕ
  pub authority_status : AuthorityStatus
  pub evidence : List DiscoveryEvidence

pub record CatalogSummary : Type 0 where
  pub unique_id : ℕ
  pub capacity : ℕ
  pub authority_status : AuthorityStatus
  pub profile_id : List ℕ
  pub lifecycle_generation : ℕ
  pub evidence : List DiscoveryEvidence

pub record CatalogEvidenceGuard : Type 0 where
  pub address : ℕ
  pub expected : List ℕ

pub record CatalogEvidenceSnapshot : Type 0 where
  pub lifecycle_generation : ℕ
  pub active_unique_ids : List ℕ
  pub guards : List CatalogEvidenceGuard

pub record Entry : Type 0 where
  pub descriptor : CatalogDescriptor
  pub profile : TableProfile

pub record SessionCatalog : Type 0 where
  pub generation : ℕ
  pub game_ready : Bool
  pub schema : SchemaRegistry
  pub entries : List Entry

-- `++generation_`, in 64 bits and past zero.
unfoldable pub next_generation : ℕ → ℕ
next_generation generation = let next = (generation + 1) % 2 ^ 64 in if next == 0 then 1 else next

unfoldable pub is_indexed : TableStorage → Bool
is_indexed indexed_reference_array = true
is_indexed canonical_records = false
is_indexed word_swapped_records = false

abbrev pub has_value : Option ℕ → Bool
has_value none = false
has_value (some n) = true

unfoldable pub is_storage_valid : TableDescriptor → TableProfile → Bool
is_storage_valid d table =
    if is_indexed d.storage
    then (d.stride == 8)
      && (has_value d.virtual_target_table_id
          && (not (d.virtual_width == 0) && (table.record_size == d.virtual_width * 4 % 2 ^ 32)))
    else d.stride == table.record_size

unfoldable pub is_schema_of : TableProfile → TableSchema → Bool
is_schema_of table schema =
    (schema.unique_id == table.unique_id)
    && ((schema.capacity == table.capacity) && (schema.record_size == table.record_size))

abbrev pub is_resolved : TableState → Bool
is_resolved resolved = true
is_resolved _ = false

unfoldable pub is_descriptor_valid : TableDescriptor → TableProfile → Bool
is_descriptor_valid d table =
    (d.unique_id == table.unique_id)
    && (leb d.stride 0xFFFFFFFF && ((d.capacity == table.capacity) && is_storage_valid d table))

unfoldable pub entry_of :
    ℕ → List ℕ → TableProfile → TableSchema → TableDiscovery → TableDescriptor → Entry
entry_of generation profile_id table schema found d = record {
  descriptor = record {
    unique_id = table.unique_id;
    session_table_id = table.table_id;
    base_address = d.base;
    stride = d.stride;
    capacity = d.capacity;
    allocation_base = d.allocation_base;
    allocation_size = d.allocation_size;
    storage = d.storage;
    virtual_target_table_id = d.virtual_target_table_id;
    virtual_width = d.virtual_width;
    profile_id = profile_id;
    lifecycle_generation = generation;
    authority_status = if d.direct_write_verified then direct_verified else schema.authority_status;
    evidence = found.evidence;
  };
  profile = table;
}

-- The entry of a table of the profile, where the schema and the discovery bear it out.
unfoldable pub install_table : ℕ → ProfileBundle → DiscoveryResult → TableProfile → Option Entry
install_table generation profile discovery table = elim (find_table profile.schema table.table_id) [
  | none ↦ none
  | some schema ↦
      if not (is_schema_of table schema)
      then none
      else (elim (find_if (λ (c : TableDiscovery). c.unique_id == table.unique_id)
          discovery.tables) [
            | none ↦ none
            | some found ↦ elim found.descriptor [
              | none ↦ none
              | some d ↦
                  if is_resolved found.state && is_descriptor_valid d table
                  then some (entry_of generation profile.profile_id table schema found d)
                  else none
            ]
          ])
]

unfoldable pub install_tables : ℕ → ProfileBundle → DiscoveryResult → List TableProfile → List Entry
install_tables generation profile discovery [] = []
install_tables generation profile discovery (table ∷ tables) =
    let rest = install_tables generation profile discovery tables in
    elim (install_table generation profile discovery table) [
      | none ↦ rest
      | some entry ↦ entry ∷ rest
    ]

unfoldable pub install : ProfileBundle → DiscoveryResult → SessionCatalog → SessionCatalog
install profile discovery catalog =
    let generation = next_generation catalog.generation in
    record {
      generation = generation;
      game_ready = true;
      schema = profile.schema;
      entries =
          if discovery.valid
          then install_tables generation profile discovery profile.tables
          else [];
    }

unfoldable pub get_handle : SessionCatalog → ℕ → Option TableHandle
get_handle catalog unique_id =
    elim (find_if (λ (e : Entry). e.descriptor.unique_id == unique_id) catalog.entries) [
      | none ↦ none
      | some entry ↦ some (record { unique_id = unique_id; generation = catalog.generation })
    ]

-- The descriptor of the first entry that passes a test.
abbrev pub find_descriptor : (Entry → Bool) → SessionCatalog → Option CatalogDescriptor
find_descriptor test catalog = elim (find_if test catalog.entries) [
  | none ↦ none
  | some entry ↦ some entry.descriptor
]

abbrev pub is_current : SessionCatalog → Entry → Bool
is_current catalog entry = entry.descriptor.lifecycle_generation == catalog.generation

unfoldable pub resolve : SessionCatalog → TableHandle → Option CatalogDescriptor
resolve catalog handle =
    if not (handle.generation == catalog.generation)
    then none
    else find_descriptor
        (λ entry. (entry.descriptor.unique_id == handle.unique_id) && is_current catalog entry)
        catalog

unfoldable pub invalidate : SessionCatalog → SessionCatalog
invalidate catalog = record catalog {
  generation = next_generation catalog.generation;
  entries = [];
}

unfoldable pub advance_lifecycle : Bool → SessionCatalog → SessionCatalog
advance_lifecycle true catalog = record catalog { game_ready = true }
advance_lifecycle false catalog =
    if catalog.game_ready then record (invalidate catalog) { game_ready = false } else catalog

unfoldable pub is_active_reference_target : SessionCatalog → ℕ → ℕ → ℕ → Bool
is_active_reference_target catalog session_table_id row generation =
    if not (generation == catalog.generation)
    then false
    else (elim (find_descriptor
        (λ entry.
          (entry.descriptor.session_table_id == session_table_id) && is_current catalog entry)
        catalog) [ none ↦ false | some target ↦ ltb row target.capacity ])

unfoldable pub active_unique_id : SessionCatalog → ℕ → ℕ → ℕ → Option ℕ
active_unique_id catalog session_table_id row generation =
    if not (generation == catalog.generation)
    then none
    else (elim (find_descriptor
        (λ entry.
          (entry.descriptor.session_table_id == session_table_id)
          && (is_current catalog entry && ltb row entry.descriptor.capacity))
        catalog) [ none ↦ none | some found ↦ some found.unique_id ])

unfoldable pub active_table_id : SessionCatalog → ℕ → ℕ → ℕ → Option ℕ
active_table_id catalog unique_id row generation =
    if not (generation == catalog.generation)
    then none
    else (elim (find_descriptor
        (λ entry.
          (entry.descriptor.unique_id == unique_id)
          && (is_current catalog entry && ltb row entry.descriptor.capacity))
        catalog) [ none ↦ none | some found ↦ some found.session_table_id ])

unfoldable pub insert_id : ℕ → List ℕ → List ℕ
insert_id n [] = n ∷ []
insert_id n (m ∷ ms) = if leb n m then n ∷ m ∷ ms else m ∷ insert_id n ms

-- `std::sort` of identifiers.
unfoldable pub sort_ids : List ℕ → List ℕ
sort_ids [] = []
sort_ids (n ∷ ns) = insert_id n (sort_ids ns)

abbrev pub unique_ids : List Entry → List ℕ
unique_ids entries = map (λ (e : Entry). e.descriptor.unique_id) entries

unfoldable pub evidence_is_active : SessionCatalog → CatalogEvidenceSnapshot → Bool
evidence_is_active catalog snapshot =
    not (snapshot.lifecycle_generation == 0)
    && ((snapshot.lifecycle_generation == catalog.generation)
        && (not (length catalog.entries == 0)
            && (all (is_current catalog) catalog.entries
                && bytes_eq (sort_ids (unique_ids catalog.entries)) snapshot.active_unique_ids)))

unfoldable pub summary_of : Entry → CatalogSummary
summary_of entry = record {
  unique_id = entry.descriptor.unique_id;
  capacity = entry.descriptor.capacity;
  authority_status = entry.descriptor.authority_status;
  profile_id = entry.descriptor.profile_id;
  lifecycle_generation = entry.descriptor.lifecycle_generation;
  evidence = entry.descriptor.evidence;
}

unfoldable pub summaries : SessionCatalog → List CatalogSummary
summaries catalog = map summary_of catalog.entries

-- What `Revalidate` does to the catalog when it has found tables, by their identifiers, that are no
-- longer what they were: they go, and the others are carried into a new generation.
unfoldable pub contains : List ℕ → ℕ → Bool
contains [] n = false
contains (m ∷ ms) n = (m == n) || contains ms n

unfoldable pub keep_entries : List ℕ → ℕ → List Entry → List Entry
keep_entries quarantined generation [] = []
keep_entries quarantined generation (entry ∷ entries) =
    let rest = keep_entries quarantined generation entries in
    if contains quarantined entry.descriptor.unique_id
    then rest
    else record entry { descriptor = record entry.descriptor { lifecycle_generation = generation } }
      ∷ rest

-- The end of `Revalidate`, which it reaches when there are tables to drop.
unfoldable pub quarantine : List ℕ → SessionCatalog → SessionCatalog
quarantine quarantined catalog =
    let generation = next_generation catalog.generation in
    record catalog {
      generation = generation;
      entries = keep_entries quarantined generation catalog.entries;
    }
