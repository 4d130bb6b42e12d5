-- ===== src/Telemetry/Types.antt =====
-- `RegisterTelemetryTypes` of native/host/telemetry.cpp: the types of events that a session knows. The set
-- is a list without repetitions; the lock around it is left out, a registration is one step.
use cfb27_lua_hook.Prelude.{
  ℕ, ◌+◌, ◌-◌, ◌≤◌, String, ◌≡◌, refl, sym, subst, ◌∙◌, inl, inr, Bool, true, false, ◌&&◌, ◌||◌,
  not, Option, none, some, List, [], ◌∷◌, arith, ltb, leb, ◌==◌, if◌then◌else◌, Bool-cases,
  Option-cases, bytes_eq, bytes_eq→eq, length, all, All,
}
use cfb27_lua_hook.Telemetry.{max_telemetry_types, is_one_of, is_reserved_type}

unfoldable pub is_type_character : ℕ → Bool
is_type_character c =
    (leb b'a' c && leb c b'z')
    || ((leb b'0' c && leb c b'9') || ((c == b'_') || ((c == b'.') || (c == b'-'))))

unfoldable pub is_telemetry_type_name : List ℕ → Bool
is_telemetry_type_name [] = false
is_telemetry_type_name (c ∷ cs) =
    leb (length (c ∷ cs)) 64
    && (not (is_reserved_type (c ∷ cs)) && (leb b'a' c && (leb c b'z' && all is_type_character cs)))

-- The first loop, with the types requested so far.
unfoldable pub check_types : List (List ℕ) → List (List ℕ) → Option String
check_types requested [] = none
check_types requested (type ∷ types) = elim (is_telemetry_type_name type) [
  | false ↦ some "Telemetry type name is invalid or reserved"
  | true ↦ elim (is_one_of requested type) [
    | true ↦ some "Telemetry registration contains duplicate types"
    | false ↦ check_types (type ∷ requested) types
  ]
]

-- With those of the types that are not registered yet.
unfoldable pub with_new : List (List ℕ) → List (List ℕ) → List (List ℕ)
with_new registered [] = registered
with_new registered (type ∷ types) =
    let rest = with_new registered types in if is_one_of registered type then rest else type ∷ rest

unfoldable pub count_new : List (List ℕ) → List (List ℕ) → ℕ
count_new registered [] = 0
count_new registered (type ∷ types) =
    let rest = count_new registered types in if is_one_of registered type then rest else rest + 1

-- The error, or none, and the types that are registered then.
unfoldable pub register_telemetry_types :
    List (List ℕ) → List (List ℕ) → Option String × List (List ℕ)
register_telemetry_types registered types =
    if (length types == 0) || ltb max_telemetry_types (length types)
    then (some "Telemetry registration requires 1 to 16 types", registered)
    else (elim (check_types [] types) [
      | some error ↦ (some error, registered)
      | none ↦
          if ltb (max_telemetry_types - length registered) (count_new registered types)
          then (some "Telemetry registration exceeds the 16-type session limit", registered)
          else (none, with_new registered types)
    ])

abbrev pub is_telemetry_type_registered : List (List ℕ) → List ℕ → Bool
is_telemetry_type_registered registered type = is_one_of registered type

abbrev pub Distinct : List (List ℕ) → Type 0
Distinct [] = Unit {0}
Distinct (type ∷ types) = (is_one_of types type ≡ false) × Distinct types

-- At most 16 types, all of legal names, none twice.
pub record IsRegistry (registered : List (List ℕ)) : Type 0 where
  pub few : length registered ≤ max_telemetry_types
  pub named : All (λ type. is_telemetry_type_name type ≡ true) registered
  pub distinct : Distinct registered

bytes_eq_comm : (xs ys : List ℕ) → bytes_eq xs ys ≡ bytes_eq ys xs
unfolding bytes_eq
bytes_eq_comm [] [] = refl
bytes_eq_comm [] (y ∷ ys) = refl
bytes_eq_comm (x ∷ xs) [] = refl
bytes_eq_comm (x ∷ xs) (y ∷ ys) = ground (arith, bytes_eq_comm xs ys)

-- The types are of legal names, none twice, and none of them requested before.
abbrev AreNew : List (List ℕ) → List (List ℕ) → Type 0
AreNew requested types =
    All (λ type. is_telemetry_type_name type ≡ true) types
    × All (λ type. is_one_of requested type ≡ false) types
    × Distinct types

All-is_one_of :
    (t : List ℕ) (requested types : List (List ℕ))
    → All (λ type. is_one_of (t ∷ requested) type ≡ false) types
    → (is_one_of types t ≡ false) × All (λ type. is_one_of requested type ≡ false) types
unfolding is_one_of
All-is_one_of t requested [] these = (refl, tt)
All-is_one_of t requested (u ∷ us) these =
    let (apart, rest) = All-is_one_of t requested us these.1 in
    (ground (arith, these.0, apart, bytes_eq_comm t u), (ground (arith, these.0), rest))

check_types-AreNew :
    (requested types : List (List ℕ)) → check_types requested types ≡ none → AreNew requested types
unfolding check_types
check_types-AreNew requested [] h = (tt, tt, tt)
check_types-AreNew requested (type ∷ types) h = elim (Bool-cases (is_telemetry_type_name type)) [
  | inr wrong ↦ absurd (ground arith)
  | inl legal ↦ elim (Bool-cases (is_one_of requested type)) [
    | inl twice ↦ absurd (ground arith)
    | inr once ↦
        let (named, apart, distinct) =
          check_types-AreNew (type ∷ requested) types (ground (arith, legal, once)) in
        let (here, later) = All-is_one_of type requested types apart in
        ((legal, named), (once, later), (here, distinct))
  ]
]

is_one_of-with_new :
    (registered types : List (List ℕ)) (t : List ℕ)
    → is_one_of (with_new registered types) t ≡ (is_one_of types t || is_one_of registered t)
unfolding with_new is_one_of
is_one_of-with_new registered [] t = refl
is_one_of-with_new registered (u ∷ us) t = elim (Bool-cases (is_one_of registered u)) [
  | inr fresh ↦ rw (fresh, with_new) (ground (arith, is_one_of-with_new registered us t))
  | inl there ↦ elim (Bool-cases (bytes_eq t u)) [
    | inl same ↦
        let known : is_one_of registered t ≡ true =
          subst (λ x. is_one_of registered x ≡ true) (sym (bytes_eq→eq t u same)) there in
        rw (there, with_new) (ground (arith, same, known, is_one_of-with_new registered us t))
    | inr other ↦ rw (there, with_new) (ground (arith, other, is_one_of-with_new registered us t))
  ]
]

length-with_new :
    (registered types : List (List ℕ))
    → length (with_new registered types) ≡ count_new registered types + length registered
unfolding with_new count_new
length-with_new registered [] = omega arith
length-with_new registered (t ∷ ts) = ground (arith, length-with_new registered ts)

with_new-IsRegistry :
    (registered types : List (List ℕ))
    → All (λ type. is_telemetry_type_name type ≡ true) registered
    → Distinct registered
    → All (λ type. is_telemetry_type_name type ≡ true) types
    → Distinct types
    → All (λ type. is_telemetry_type_name type ≡ true) (with_new registered types)
      × Distinct (with_new registered types)
unfolding with_new
with_new-IsRegistry registered [] named distinct named' distinct' = (named, distinct)
with_new-IsRegistry registered (t ∷ ts) named distinct named' distinct' =
    let (good, apart) = with_new-IsRegistry registered ts named distinct named'.1 distinct'.1 in
    elim (Bool-cases (is_one_of registered t)) [
      | inl there ↦ rw (there, with_new) (good, apart)
      | inr fresh ↦
          let away : is_one_of (with_new registered ts) t ≡ false =
            is_one_of-with_new registered ts t ∙ ground (arith, fresh, distinct'.0) in
          rw (fresh, with_new) ((named'.0, good), (away, apart))
    ]

-- A registration keeps the session's types at most 16, all of legal names and none twice, whether it goes
-- through or not.
pub register_telemetry_types-IsRegistry :
    (registered types : List (List ℕ))
    → IsRegistry registered
    → IsRegistry (register_telemetry_types registered types).1
unfolding register_telemetry_types
register_telemetry_types-IsRegistry registered types r =
    elim (Bool-cases ((length types == 0) || ltb max_telemetry_types (length types))) [
      | inl wrong ↦ rw (wrong, register_telemetry_types) r
      | inr fine ↦ elim (Option-cases (check_types [] types)) [
        | inr (e, illegal) ↦ rw (fine, illegal, register_telemetry_types) r
        | inl legal ↦
            elim (Bool-cases
              (ltb (max_telemetry_types - length registered) (count_new registered types))) [
                | inl many ↦ rw (fine, legal, many, register_telemetry_types) r
                | inr room ↦
                    rw (fine, legal, room, register_telemetry_types)
                      (added legal (ground (arith, r.few)))
              ]
      ]
    ]
  where
    added :
        check_types [] types ≡ none
        → count_new registered types + length registered ≤ max_telemetry_types
        → IsRegistry (with_new registered types)
    added legal room =
        let (named, apart, distinct) = check_types-AreNew [] types legal in
        let (named', distinct') =
          with_new-IsRegistry registered types r.named r.distinct named distinct in
        record {
          few = omega (arith, room, length-with_new registered types);
          named = named';
          distinct = distinct';
        }
