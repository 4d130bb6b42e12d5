-- ===== src/Frtk/Catalog/Lifecycle.antt =====
-- Generations of the catalog of native/host/frtk_catalog.cpp: which handles it resolves.
use cfb27_lua_hook.Prelude.{
  ℕ, ◌^◌, ◌<◌, ◌≡◌, refl, sym, subst, ◌∙◌, ◌≢◌, inl, inr, Bool, true, false, ◌&&◌, none, some, List,
  [], ◌∷◌, arith, ◌==◌, if◌then◌else◌, ==→eq, Bool-cases, Option-cases, find_if, find_if-holds, All,
}
use cfb27_lua_hook.Frtk.Schema.{SchemaRegistry, TableProfile, ProfileBundle}
use cfb27_lua_hook.Frtk.Catalog.{
  TableHandle, DiscoveryResult, CatalogDescriptor, Entry, SessionCatalog, next_generation, entry_of,
  install_table, install_tables, install, get_handle, resolve, invalidate, advance_lifecycle,
  contains, keep_entries, quarantine,
}

-- The generation has 64 bits, every entry is of it, and before the first there are no entries.
pub record IsSession (c : SessionCatalog) : Type 0 where
  pub bounded : c.generation < 2 ^ 64
  pub current : All (λ (e : Entry). e.descriptor.lifecycle_generation ≡ c.generation) c.entries
  pub started : c.generation ≡ 0 → c.entries ≡ []

next_generation-new :
    (g : ℕ)
    → g < 2 ^ 64
    → (0 < next_generation g) × (next_generation g < 2 ^ 64) × (next_generation g ≢ g)
unfolding next_generation
next_generation-new g h = (ground arith, ground arith, λ e. ground arith)

install_table-current :
    (g : ℕ) (profile : ProfileBundle) (discovery : DiscoveryResult) (table : TableProfile)
    (e : Entry)
    → install_table g profile discovery table ≡ some e
    → e.descriptor.lifecycle_generation ≡ g
unfolding install_table entry_of
install_table-current g profile discovery table e h = ground arith

install_tables-current :
    (g : ℕ) (profile : ProfileBundle) (discovery : DiscoveryResult) (tables : List TableProfile)
    → All
        (λ (e : Entry). e.descriptor.lifecycle_generation ≡ g)
        (install_tables g profile discovery tables)
unfolding install_tables
install_tables-current g profile discovery [] = tt
install_tables-current g profile discovery (table ∷ tables) =
    elim (Option-cases (install_table g profile discovery table)) [
      | inl skipped ↦
          rw (skipped, install_tables) (install_tables-current g profile discovery tables)
      | inr (e, there) ↦
          rw (there, install_tables)
            (
              install_table-current g profile discovery table e there,
              install_tables-current g profile discovery tables,
            )
    ]

keep_entries-current :
    (ids : List ℕ) (g : ℕ) (entries : List Entry)
    → All (λ (e : Entry). e.descriptor.lifecycle_generation ≡ g) (keep_entries ids g entries)
unfolding keep_entries
keep_entries-current ids g [] = tt
keep_entries-current ids g (e ∷ es) = elim (Bool-cases (contains ids e.descriptor.unique_id)) [
  | inl gone ↦ rw gone (keep_entries-current ids g es)
  | inr stays ↦ rw stays (refl, keep_entries-current ids g es)
]

-- What may happen to the catalog: an installation, the loss of the game's state or of some tables,
-- and the changes of the game's readiness.
pub data Step : SessionCatalog → SessionCatalog → Type 0 where
  installs :
      (c : SessionCatalog) (profile : ProfileBundle) (discovery : DiscoveryResult)
      → Step c (install profile discovery c)
  invalidates : (c : SessionCatalog) → Step c (invalidate c)
  advances : (c : SessionCatalog) (ready : Bool) → Step c (advance_lifecycle ready c)
  quarantines : (c : SessionCatalog) (ids : List ℕ) → Step c (quarantine ids c)

pub data Reach (c : SessionCatalog) : SessionCatalog → Type 0 where
  here : Reach c c
  next : {d e : SessionCatalog} → Reach c d → Step d e → Reach c e

invalidate-IsSession : (c : SessionCatalog) → IsSession c → IsSession (invalidate c)
unfolding invalidate
invalidate-IsSession c v =
    let (pos, small, other) = next_generation-new c.generation v.bounded in
    record { bounded = small; current = tt; started = λ e. absurd (omega arith) }

advance_lifecycle-IsSession :
    (c : SessionCatalog) (ready : Bool) → IsSession c → IsSession (advance_lifecycle ready c)
unfolding advance_lifecycle invalidate
advance_lifecycle-IsSession c true v = record {
  bounded = v.bounded;
  current = v.current;
  started = v.started;
}
advance_lifecycle-IsSession c false v = lose c.game_ready
  where
    lose :
        (ready : Bool)
        → IsSession (if ready then record (invalidate c) { game_ready = false } else c)
    lose true =
        let (pos, small, other) = next_generation-new c.generation v.bounded in
        record { bounded = small; current = tt; started = λ e. absurd (omega arith) }
    lose false = v

Step-IsSession : {c d : SessionCatalog} → Step c d → IsSession c → IsSession d
unfolding install advance_lifecycle quarantine
Step-IsSession (installs c profile discovery) v =
    let (pos, small, other) = next_generation-new c.generation v.bounded in
    let g = next_generation c.generation in
    elim (Bool-cases discovery.valid) [
      | inl valid ↦ record {
        bounded = small;
        current =
            subst
              (λ b.
                All (λ (e : Entry). e.descriptor.lifecycle_generation ≡ g)
                  (if b then install_tables g profile discovery profile.tables else []))
              (sym valid) (install_tables-current g profile discovery profile.tables);
        started = λ e. absurd (omega arith);
      }
      | inr invalid ↦ record {
        bounded = small;
        current =
            subst
              (λ b.
                All (λ (e : Entry). e.descriptor.lifecycle_generation ≡ g)
                  (if b then install_tables g profile discovery profile.tables else []))
              (sym invalid) tt;
        started = λ e. absurd (omega arith);
      }
    ]
Step-IsSession (invalidates c) v = invalidate-IsSession c v
Step-IsSession (advances c ready) v = advance_lifecycle-IsSession c ready v
Step-IsSession (quarantines c ids) v =
    let (pos, small, other) = next_generation-new c.generation v.bounded in
    record {
      bounded = small;
      current = keep_entries-current ids (next_generation c.generation) c.entries;
      started = λ e. absurd (omega arith);
    }

-- The catalog of a new session.
abbrev pub new_session : SchemaRegistry → SessionCatalog
new_session schema = record { generation = 0; game_ready = true; schema = schema; entries = [] }

-- In every session that a new one can become, all entries are of the one generation, which has 64
-- bits, and generation 0 has none.
pub Reach-IsSession :
    (schema : SchemaRegistry) {c : SessionCatalog} → Reach (new_session schema) c → IsSession c
Reach-IsSession schema here = record { bounded = omega arith; current = tt; started = λ e. refl }
Reach-IsSession schema (next r s) = Step-IsSession s (Reach-IsSession schema r)

find_if-current :
    (g id : ℕ) (entries : List Entry) (e : Entry)
    → All (λ (e : Entry). e.descriptor.lifecycle_generation ≡ g) entries
    → find_if (λ (e : Entry). e.descriptor.unique_id == id) entries ≡ some e
    → find_if
        (λ (e : Entry). (e.descriptor.unique_id == id) && (e.descriptor.lifecycle_generation == g))
        entries
      ≡ some e
unfolding find_if
find_if-current g id [] e v h = cc
find_if-current g id (x ∷ xs) e v h =
    let here : (x.descriptor.lifecycle_generation == g) ≡ true = ground (arith, v.0) in
    elim (Bool-cases (x.descriptor.unique_id == id)) [
      | inl same ↦ ground (arith, here)
      | inr other ↦ ground (arith, here, find_if-current g id xs e v.1)
    ]

-- A handle that a session gives out resolves in it, to the descriptor of the table asked for, of the
-- session's generation.
pub resolve-get_handle :
    (c : SessionCatalog) (id : ℕ) (handle : TableHandle)
    → IsSession c
    → get_handle c id ≡ some handle
    → (d : CatalogDescriptor) × (resolve c handle ≡ some d)
      × (d.unique_id ≡ id)
      × (d.lifecycle_generation ≡ c.generation)
unfolding get_handle resolve
resolve-get_handle c id handle v h =
    let test = λ (e : Entry). e.descriptor.unique_id == id in
    elim (Option-cases (find_if test c.entries)) [
      | inl nothing ↦ absurd (ground arith)
      | inr (e, found) ↦
          let both = find_if-current c.generation id c.entries e v.current found in
          let holds =
            find_if-holds
              (λ (e : Entry).
                (e.descriptor.unique_id == id)
                && (e.descriptor.lifecycle_generation == c.generation))
              c.entries e both in
          let made : handle ≡ record { unique_id = id; generation = c.generation } = ground arith in
          (e.descriptor, ground (arith, both), ground (arith, holds), ground (arith, holds))
    ]

-- In a session whose game is ready, a handle of its generation resolves no longer after an
-- installation, after the tables were invalidated, after some were quarantined, and after the game
-- has ceased to be ready.
pub resolve-stale :
    (c : SessionCatalog) (handle : TableHandle) (profile : ProfileBundle)
    (discovery : DiscoveryResult) (ids : List ℕ)
    → IsSession c
    → handle.generation ≡ c.generation
    → c.game_ready ≡ true
    → (resolve (install profile discovery c) handle ≡ none)
      × (resolve (invalidate c) handle ≡ none)
      × (resolve (quarantine ids c) handle ≡ none)
      × (resolve (advance_lifecycle false c) handle ≡ none)
unfolding resolve install invalidate quarantine advance_lifecycle
resolve-stale c handle profile discovery ids v h ready =
    let (pos, small, other) = next_generation-new c.generation v.bounded in
    let stale : (handle.generation == next_generation c.generation) ≡ false =
      elim (Bool-cases (handle.generation == next_generation c.generation)) [
        | inl same ↦ absurd (other (sym (==→eq _ _ same) ∙ h))
        | inr differs ↦ differs
      ] in
    (rw stale refl, rw stale refl, rw stale refl, ground (arith, stale))
