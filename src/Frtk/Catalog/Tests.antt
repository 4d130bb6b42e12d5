-- ===== src/Frtk/Catalog/Tests.antt =====
-- A session with one table.
use cfb27_lua_hook.Prelude.{◌≡◌, refl, true, false, none, some, [], ◌∷◌, find_if}
use cfb27_lua_hook.Frtk.Schema.{direct_verified, SchemaRegistry, find_table, ProfileBundle}
use cfb27_lua_hook.Frtk.Catalog.{
  TableHandle, resolved, canonical_records, DiscoveryResult, CatalogDescriptor, SessionCatalog,
  next_generation, is_indexed, is_storage_valid, is_schema_of, is_descriptor_valid, entry_of,
  install_table, install_tables, install, get_handle, resolve, invalidate, advance_lifecycle,
  quarantine,
}
use cfb27_lua_hook.Frtk.Catalog.Lifecycle.{
  IsSession, installs, here, next, new_session, Reach-IsSession, resolve-get_handle, resolve-stale,
}

abbrev schema : SchemaRegistry
schema = record {
  schema_identity = [];
  build_identity = [];
  tables =
      record {
        logical_name = [];
        table_id = 40;
        unique_id = 900;
        capacity = 16;
        record_size = 8;
        authority_status = direct_verified;
        fields = [];
      }
      ∷ [];
}

abbrev profile : ProfileBundle
profile = record {
  profile_id = [];
  schema_identity = [];
  build_identity = [];
  tables =
      record {
        logical_name = [];
        table_id = 40;
        unique_id = 900;
        capacity = 16;
        record_size = 8;
        rows = [];
        relationships = [];
      }
      ∷ [];
  schema = schema;
}

abbrev discovery : DiscoveryResult
discovery = record {
  valid = true;
  tables =
      record {
        unique_id = 900;
        state = resolved;
        descriptor = some (record {
          unique_id = 900;
          base = 0x10000;
          stride = 8;
          capacity = 16;
          allocation_base = 0x10000;
          allocation_size = 4096;
          storage = canonical_records;
          virtual_target_table_id = none;
          virtual_width = 0;
          direct_write_verified = true;
        });
        evidence = [];
      }
      ∷ [];
}

abbrev session : SessionCatalog
session = install profile discovery (new_session schema)

abbrev handle : TableHandle
handle = record { unique_id = 900; generation = 1 }

handle_test : get_handle session 900 ≡ some handle
unfolding get_handle install next_generation install_tables install_table find_table find_if
    is_schema_of is_descriptor_valid is_storage_valid is_indexed entry_of
handle_test = refl

Reach-IsSession_example : IsSession session
Reach-IsSession_example =
    Reach-IsSession schema (next here (installs (new_session schema) profile discovery))

generation_test : handle.generation ≡ session.generation
unfolding install next_generation
generation_test = refl

ready_test : session.game_ready ≡ true
unfolding install
ready_test = refl

resolve-get_handle_example :
    (d : CatalogDescriptor) × (resolve session handle ≡ some d)
    × (d.unique_id ≡ 900)
    × (d.lifecycle_generation ≡ session.generation)
resolve-get_handle_example =
    resolve-get_handle session 900 handle
      (Reach-IsSession schema (next here (installs (new_session schema) profile discovery)))
      handle_test

resolve-stale_example :
    (resolve (install profile discovery session) handle ≡ none)
    × (resolve (invalidate session) handle ≡ none)
    × (resolve (quarantine (900 ∷ []) session) handle ≡ none)
    × (resolve (advance_lifecycle false session) handle ≡ none)
resolve-stale_example =
    resolve-stale session handle profile discovery (900 ∷ [])
      (Reach-IsSession schema (next here (installs (new_session schema) profile discovery)))
      generation_test ready_test
