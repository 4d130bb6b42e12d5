-- ===== src/BuildPolicy.antt =====
-- native/host/game_builds.h, game_builds.cpp and build_policy.cpp: which build of the game runs, and
-- whether memory may be watched or written under it. The generated table of builds is an argument.
mod Tests
use cfb27_lua_hook.Prelude.{
  ℕ, ◌≡◌, refl, subst, ◌⊎◌, inl, inr, Bool, true, false, ◌&&◌, ◌||◌, not, Option, none, some, List,
  [], ◌∷◌, arith, ◌==◌, if◌then◌else◌, Bool-cases, Option-cases, bytes_eq, bytes_eq→eq,
}
use cfb27_lua_hook.Board.{BoardLayout}

pub data Support : Type 0 where
  diagnostic certified : Support

-- The label is left out, which nothing here reads.
pub record Build : Type 0 where
  pub executable_size : ℕ
  pub executable_sha256 : List ℕ
  pub support : Support
  pub board : Option BoardLayout

unfoldable pub find_build : List Build → ℕ → List ℕ → Option Build
find_build [] size sha256 = none
find_build (build ∷ builds) size sha256 =
    if (build.executable_size == size) && bytes_eq build.executable_sha256 sha256
    then some build
    else find_build builds size sha256

unfoldable pub is_certified : Option Build → Bool
is_certified none = false
is_certified (some build) = elim build.support [ diagnostic ↦ false | certified ↦ true ]

unfoldable pub is_diagnostic_or_certified : Option Build → Bool
is_diagnostic_or_certified none = false
is_diagnostic_or_certified (some build) = elim build.support [
  | diagnostic ↦ true
  | certified ↦ true
]

unfoldable pub research_watches_allowed : Option Build → Bool → Bool
research_watches_allowed build real_anticheat_running =
    is_diagnostic_or_certified build && not real_anticheat_running

unfoldable pub writes_allowed : Option Build → Bool → Bool → Bool → Bool
writes_allowed build real_anticheat_running session_writes_disabled smoke_override =
    (is_certified build || smoke_override)
    && (not real_anticheat_running && not session_writes_disabled)

Support-cases : (support : Support) → (support ≡ diagnostic) ⊎ (support ≡ certified)
Support-cases diagnostic = inl refl
Support-cases certified = inr refl

find_build-Matches :
    (builds : List Build) (size : ℕ) (sha256 : List ℕ) (build : Build)
    → find_build builds size sha256 ≡ some build
    → (build.executable_size ≡ size) × (build.executable_sha256 ≡ sha256)
unfolding find_build
find_build-Matches [] size sha256 build h = absurd (ground arith)
find_build-Matches (b ∷ builds) size sha256 build h =
    elim (Bool-cases ((b.executable_size == size) && bytes_eq b.executable_sha256 sha256)) [
      | inl found ↦
          let same : b ≡ build = ground arith in
          subst (λ c. (c.executable_size ≡ size) × (c.executable_sha256 ≡ sha256)) same
            (ground arith, bytes_eq→eq b.executable_sha256 sha256 (ground arith))
      | inr other ↦ find_build-Matches builds size sha256 build (ground arith)
    ]

-- Without the override of the smoke tests, writes are allowed only under a certified build of the
-- table whose size and hash are those of the running executable, with no anti-cheat running and the
-- session's writes not disabled; there the watches are allowed as well.
pub writes_allowed-IsCertified :
    (builds : List Build) (size : ℕ) (sha256 : List ℕ)
    (real_anticheat_running session_writes_disabled : Bool)
    → writes_allowed
        (find_build builds size sha256)
        real_anticheat_running
        session_writes_disabled
        false
      ≡ true
    → (build : Build) × (find_build builds size sha256 ≡ some build)
      × (build.executable_size ≡ size)
      × (build.executable_sha256 ≡ sha256)
      × (build.support ≡ certified)
      × (real_anticheat_running ≡ false)
      × (session_writes_disabled ≡ false)
      × (research_watches_allowed (find_build builds size sha256) real_anticheat_running ≡ true)
unfolding writes_allowed research_watches_allowed is_certified is_diagnostic_or_certified
writes_allowed-IsCertified builds size sha256 running disabled h =
    elim (Option-cases (find_build builds size sha256)) [
      | inl unknown ↦ absurd (ground arith)
      | inr (build, found) ↦
          let (same_size, same_hash) = find_build-Matches builds size sha256 build found in
          elim (Support-cases build.support) [
            | inl other ↦ absurd (ground arith)
            | inr fine ↦
                (build, found, same_size, same_hash, fine, ground arith, ground arith, ground arith)
          ]
    ]
