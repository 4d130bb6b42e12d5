-- ===== src/Frtk/Access/Tests.antt =====
-- native/host/frtk_record_access.cpp at a record of a word-swapped table with a field to change.
use cfb27_lua_hook.Prelude.{
  ℕ, ◌+◌, ◌≡◌, refl, true, none, some, List, [], ◌∷◌, map, bytes_eq, all, find_if,
}
use cfb27_lua_hook.Prelude.Bits.{replace_bits}
use cfb27_lua_hook.Prelude.Int.{pos, negsuc, ◌+ℤ◌, ◌-ℤ◌}
use cfb27_lua_hook.Memory.Backend.{MemoryBackend}
use cfb27_lua_hook.Memory.Address.{is_valid_transaction_id}
use cfb27_lua_hook.Memory.Transaction.{TransactionOperation, PreparedOperation, write, ok}
use cfb27_lua_hook.Memory.Transaction.Run.{check_request}
use cfb27_lua_hook.Frtk.Access.Finalize.{
  GuardedFieldTransaction, finalize_field_transaction, finalize_gathered, gather, is_stale,
  add_operations, add_operation_constraints, internal_address, is_ill_formed, add_bytes,
  merge_constraint, merge_replacement, guard_operation, sort_constraint_ranges,
  insert_constraint_range, is_before, merge_ranges, grow, component_operations, component_bytes,
  component_operation, any_replacement, is_over_limit,
}
use cfb27_lua_hook.Frtk.Access.Guarded.{check_request-finalize_field_transaction}
use cfb27_lua_hook.Reader.Text.{to_hex, upper_digit, parse_hex, digits_value, digit_of, is_hex}
use cfb27_lua_hook.Frtk.Field.{
  signed, FieldDefinition, integer, encode_field, validate_definition, numeric_value,
}
use cfb27_lua_hook.Frtk.Field.Storage.{read_storage, store}
use cfb27_lua_hook.Frtk.Schema.{direct_verified, SchemaRegistry, find_table, find_field}
use cfb27_lua_hook.Frtk.Catalog.{
  TableHandle, word_swapped_records, CatalogEvidenceGuard, SessionCatalog, resolve, is_indexed,
  contains, evidence_is_active, sort_ids, insert_id,
}
use cfb27_lua_hook.Frtk.Access.{
  FieldChange, FieldWritePlan, Revalidated, is_schema_for, schema_for, row_address,
  is_valid_reference, canonical, contains_name, change_fields, encode_fields, operation_of, plan_of,
  is_direct, read_record, plan_record, plan_field_writes,
}
use cfb27_lua_hook.Frtk.Access.Words.{swap_words}
use cfb27_lua_hook.Frtk.Access.Plan.{address_text, diff, extend}
use cfb27_lua_hook.Frtk.Access.Correct.{written, written-diff}
use cfb27_lua_hook.Frtk.Access.Planned.{Planned, plan_field_writes-IsPlanned}

abbrev speed : FieldDefinition
speed = record {
  name = b's' ∷ [];
  encoding = signed;
  byte_offset = 1;
  storage_bytes = 2;
  bit_offset = 6;
  bit_width = 5;
  minimum = negsuc 15;
  maximum = pos 15;
  reference_table_id = none;
}

abbrev schema : SchemaRegistry
schema = record {
  schema_identity = [];
  build_identity = [];
  tables =
      record {
        logical_name = [];
        table_id = 40;
        unique_id = 900;
        capacity = 16;
        record_size = 8;
        authority_status = direct_verified;
        fields = speed ∷ [];
      }
      ∷ [];
}

abbrev session : SessionCatalog
session = record {
  generation = 1;
  game_ready = true;
  schema = schema;
  entries =
      record {
        descriptor = record {
          unique_id = 900;
          session_table_id = 40;
          base_address = 0x10000;
          stride = 8;
          capacity = 16;
          allocation_base = 0x10000;
          allocation_size = 4096;
          storage = word_swapped_records;
          virtual_target_table_id = none;
          virtual_width = 0;
          profile_id = [];
          lifecycle_generation = 1;
          authority_status = direct_verified;
          evidence = [];
        };
        profile = record {
          logical_name = [];
          table_id = 40;
          unique_id = 900;
          capacity = 16;
          record_size = 8;
          rows = [];
          relationships = [];
        };
      }
      ∷ [];
}

abbrev handle : TableHandle
handle = record { unique_id = 900; generation = 1 }

-- A memory whose every record has these bytes; its state counts the calls.
abbrev same_everywhere : MemoryBackend ℕ
same_everywhere = record {
  validate = λ a n w s. (true, s + 1);
  read = λ a n s. (some (252 ∷ 253 ∷ 254 ∷ 255 ∷ 4 ∷ 3 ∷ 2 ∷ 1 ∷ []), s + 1);
  write = λ a bs s. (true, s + 1);
}

abbrev guard : CatalogEvidenceGuard
guard = record { address = 0x20000; expected = 7 ∷ 8 ∷ [] }

abbrev always_valid : SessionCatalog → ℕ → Revalidated × ℕ
always_valid catalog s = (
  record {
    valid = true;
    evidence = record {
      lifecycle_generation = 1;
      active_unique_ids = 900 ∷ [];
      guards = guard ∷ [];
    };
    catalog = catalog;
  },
  s + 1,
)

abbrev changes : List FieldChange
changes = record { name = b's' ∷ []; value = integer (pos 3) } ∷ []

abbrev planned : FieldWritePlan
planned = (plan_field_writes same_everywhere always_valid schema session handle 2 changes 0).0

plan_runs : ℕ
unfolding plan_field_writes plan_record read_record plan_of diff extend operation_of address_text
    is_direct row_address schema_for is_schema_for find_table find_if find_field resolve canonical
    swap_words change_fields contains_name is_valid_reference is_indexed encode_fields encode_field
    validate_definition numeric_value read_storage store replace_bits to_hex upper_digit bytes_eq
    ◌-ℤ◌ ◌+ℤ◌
plan_runs = 0

plan_test : planned.ok ≡ true
unfolding plan_runs
plan_test = refl

-- Two bytes next to each other in the record, so two in its swapped words.
operations_test :
    planned.operations
    ≡ record {
      address = b'0' ∷ b'x' ∷ b'1' ∷ b'0' ∷ b'0' ∷ b'1' ∷ b'1' ∷ [];
      expected = 253 ∷ 254 ∷ [];
      replacement = 125 ∷ 252 ∷ [];
      kind = write;
    }
      ∷ []
unfolding plan_runs
operations_test = refl

plan_field_writes-IsPlanned_example :
    Planned same_everywhere always_valid schema session handle 2 changes 0 planned.operations
plan_field_writes-IsPlanned_example =
    plan_field_writes-IsPlanned same_everywhere always_valid schema session handle 2 changes 0
      plan_test

written-diff_example :
    (written (λ r. r.replacement) (diff 0 none (1 ∷ 2 ∷ 3 ∷ []) (1 ∷ 5 ∷ 3 ∷ [])) 1 2 ≡ 5)
    × (written (λ r. r.expected) (diff 0 none (1 ∷ 2 ∷ 3 ∷ []) (1 ∷ 5 ∷ 3 ∷ [])) 1 5 ≡ 2)
written-diff_example = written-diff (1 ∷ 2 ∷ 3 ∷ []) (1 ∷ 5 ∷ 3 ∷ []) 1 refl

abbrev transaction_id : List ℕ
transaction_id = b't' ∷ b'1' ∷ []

finalize_runs : ℕ
unfolding plan_runs finalize_field_transaction finalize_gathered gather is_stale evidence_is_active
    add_operations add_operation_constraints internal_address is_ill_formed add_bytes
    merge_constraint merge_replacement guard_operation sort_constraint_ranges
    insert_constraint_range is_before merge_ranges grow component_operations component_bytes
    component_operation any_replacement is_over_limit contains parse_hex digits_value digit_of
    is_hex sort_ids insert_id
finalize_runs = 0

abbrev guarded : GuardedFieldTransaction
guarded = finalize_field_transaction session transaction_id (planned ∷ [])

guarded_test : guarded.ok ≡ true
unfolding finalize_runs all
guarded_test = refl

-- The plan's write, and a check of the bytes of the evidence.
guarded_operations_test :
    map (λ (op : TransactionOperation). op.expected) guarded.request.operations
    ≡ (253 ∷ 254 ∷ []) ∷ (7 ∷ 8 ∷ []) ∷ []
unfolding finalize_runs all
guarded_operations_test = refl

id_test : is_valid_transaction_id transaction_id ≡ true
unfolding is_valid_transaction_id all
id_test = refl

check_request-finalize_field_transaction_example :
    (ps : List PreparedOperation) × (check_request guarded.request ≡ ok ps)
check_request-finalize_field_transaction_example =
    check_request-finalize_field_transaction session transaction_id (planned ∷ []) id_test
      guarded_test
