-- ===== src/BuildPolicy/Tests.antt =====
-- A certified build and a diagnostic one, and writes under the first.
use cfb27_lua_hook.Prelude.{ℕ, ◌≡◌, refl, true, false, none, some, List, [], ◌∷◌, bytes_eq}
use cfb27_lua_hook.BuildPolicy.{
  Support, diagnostic, certified, Build, find_build, is_certified, research_watches_allowed,
  writes_allowed, writes_allowed-IsCertified,
}

abbrev build : ℕ → Support → Build
build size support = record {
  executable_size = size;
  executable_sha256 = 57 ∷ 69 ∷ [];
  support = support;
  board = none;
}

abbrev builds : List Build
builds = build 247845776 diagnostic ∷ build 249801616 certified ∷ []

certified_test :
    writes_allowed (find_build builds 249801616 (57 ∷ 69 ∷ [])) false false false ≡ true
unfolding writes_allowed find_build is_certified bytes_eq
certified_test = refl

diagnostic_test :
    writes_allowed (find_build builds 247845776 (57 ∷ 69 ∷ [])) false false false ≡ false
unfolding writes_allowed find_build is_certified bytes_eq
diagnostic_test = refl

writes_allowed-IsCertified_example :
    (b : Build) × (find_build builds 249801616 (57 ∷ 69 ∷ []) ≡ some b)
    × (b.executable_size ≡ 249801616)
    × (b.executable_sha256 ≡ 57 ∷ 69 ∷ [])
    × (b.support ≡ certified)
    × (false ≡ false)
    × (false ≡ false)
    × (research_watches_allowed (find_build builds 249801616 (57 ∷ 69 ∷ [])) false ≡ true)
writes_allowed-IsCertified_example =
    writes_allowed-IsCertified builds 249801616 (57 ∷ 69 ∷ []) false false certified_test
