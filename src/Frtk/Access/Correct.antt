-- ===== src/Frtk/Access/Correct.antt =====
-- What the operations that `PlanFieldWrites` of native/host/frtk_record_access.cpp plans do to the record.
use cfb27_lua_hook.Prelude.{
  ℕ, zero, suc, ◌+◌, ◌-◌, ◌≤◌, ◌<◌, ◌≡◌, refl, sym, ap, ◌∙◌, inl, inr, Bool, false, ◌&&◌, Option,
  none, some, List, [], ◌∷◌, ◌++◌, map, arith, ltb, leb, ◌==◌, if◌then◌else◌, Bool-cases, length,
  get_or, length-append,
}
use cfb27_lua_hook.Frtk.Access.Plan.{Run, extend, close, diff}

-- The byte at a position after the runs were written, by the list of bytes that each has.
module _ (bytes_of : Run → List ℕ) where
  abbrev pub covers : Run → ℕ → Bool
  covers run p = leb run.begin p && ltb p (run.begin + length (bytes_of run))

  unfoldable pub written : List Run → ℕ → ℕ → ℕ
  written [] p old = old
  written (run ∷ runs) p old =
      if covers run p then get_or (bytes_of run) (p - run.begin) 0 else written runs p old

get_or-append_lt :
    (xs : List ℕ) (y i : ℕ) → i < length xs → get_or (xs ++ y ∷ []) i 0 ≡ get_or xs i 0
get_or-append_lt [] y i h = absurd (omega arith)
get_or-append_lt (x ∷ xs) y zero h = refl
get_or-append_lt (x ∷ xs) y (suc i) h = get_or-append_lt xs y i (omega arith)

get_or-append_last : (xs : List ℕ) (y : ℕ) → get_or (xs ++ y ∷ []) (length xs) 0 ≡ y
get_or-append_last [] y = refl
get_or-append_last (x ∷ xs) y = get_or-append_last xs y

get_or-cons :
    (y : ℕ) (ys : List ℕ) (p index : ℕ)
    → index < p
    → get_or (y ∷ ys) (p - index) 0 ≡ get_or ys (p - (index + 1)) 0
get_or-cons y ys p index h = let e : p - index ≡ suc (p - (index + 1)) = omega arith in rw e refl

get_or-here : (y : ℕ) (ys : List ℕ) (p index : ℕ) → p ≡ index → get_or (y ∷ ys) (p - index) 0 ≡ y
get_or-here y ys p index h = let e : p - index ≡ 0 = omega arith in rw e refl

-- What is known of the old byte holds of the rest too.
rest_of :
    (x : ℕ) (xs : List ℕ) (p index old : ℕ)
    → (index ≤ p → old ≡ get_or (x ∷ xs) (p - index) 0)
    → index + 1 ≤ p
    → old ≡ get_or xs (p - (index + 1)) 0
rest_of x xs p index old h le = h (omega arith) ∙ get_or-cons x xs p index (omega arith)

-- An open run with one byte more.
extended :
    (run : Run) (x y p old : ℕ)
    → written (λ r. r.replacement) (extend run x y ∷ []) p old ≡ (
        if p == run.begin + length run.replacement
        then y
        else written (λ r. r.replacement) (run ∷ []) p old)
unfolding written extend
extended run x y p old =
    let size = length-append run.replacement (y ∷ []) in
    elim (Bool-cases (p == run.begin + length run.replacement)) [
      | inl last ↦
          let at : p - run.begin ≡ length run.replacement = ground arith in
          ground (
            arith,
            size,
            get_or-append_last run.replacement y,
            ap (λ (i : ℕ). get_or (run.replacement ++ y ∷ []) i 0) at,
          )
      | inr other ↦ ground (arith, size, get_or-append_lt run.replacement y (p - run.begin))
    ]

-- An open run ends where the rest begins.
abbrev Reaches : ℕ → Option Run → Type 0
Reaches index none = Unit {0}
Reaches index (some run) = run.begin + length run.replacement ≡ index

-- The byte there after the runs, where the rest is `ys`.
abbrev meant : ℕ → Option Run → List ℕ → ℕ → ℕ → ℕ
meant index open_run ys p old =
    if ltb p index
    then written (λ r. r.replacement) (close open_run) p old
    else get_or ys (p - index) 0

diff-written :
    (index : ℕ) (open_run : Option Run) (xs ys : List ℕ) (p old : ℕ)
    → Reaches index open_run
    → length xs ≡ length ys
    → (index ≤ p → old ≡ get_or xs (p - index) 0)
    → written (λ r. r.replacement) (diff index open_run xs ys) p old ≡ meant index open_run ys p old
unfolding diff written extend
diff-written index none [] [] p old r e h = ground (arith, h)
diff-written index (some run) [] [] p old r e h = ground (arith, h)
diff-written index open_run [] (y ∷ ys) p old r e h = absurd (omega arith)
diff-written index open_run (x ∷ xs) [] p old r e h = absurd (omega arith)
diff-written index none (x ∷ xs) (y ∷ ys) p old r e h =
    let later = rest_of x xs p index old h in
    elim (Bool-cases (x == y)) [
      | inl same ↦
          rw (same, diff)
            (ground (
              arith,
              diff-written (index + 1) none xs ys p old tt (omega arith) later,
              get_or-cons y ys p index,
              get_or-here y ys p index,
              get_or-here x xs p index,
              h,
            ))
      | inr differs ↦
          let run : Run = record { begin = index; expected = x ∷ []; replacement = y ∷ [] } in
          rw (differs, diff)
            (ground (
              arith,
              diff-written (index + 1) (some run) xs ys p old refl (omega arith) later,
              get_or-cons y ys p index,
              get_or-here y ys p index,
              get_or-here y [] p index,
            ))
    ]
diff-written index (some run) (x ∷ xs) (y ∷ ys) p old r e h =
    let later = rest_of x xs p index old h in
    elim (Bool-cases (x == y)) [
      | inl same ↦
          rw (same, diff)
            (ground (
              arith,
              diff-written (index + 1) none xs ys p old tt (omega arith) later,
              get_or-cons y ys p index,
              get_or-here y ys p index,
              get_or-here x xs p index,
              h,
            ))
      | inr differs ↦
          let more = extend run x y in
          let reaches : more.begin + length more.replacement ≡ index + 1 =
            omega (arith, length-append run.replacement (y ∷ [])) in
          rw (differs, diff)
            (ground (
              arith,
              diff-written (index + 1) (some more) xs ys p old reaches (omega arith) later,
              extended run x y p old,
              get_or-cons y ys p index,
              get_or-here y ys p index,
            ))
    ]

-- The runs the other way round.
abbrev mirror : Run → Run
mirror run = record { begin = run.begin; expected = run.replacement; replacement = run.expected }

abbrev mirror_open : Option Run → Option Run
mirror_open none = none
mirror_open (some run) = some (mirror run)

eq_comm : (x y : ℕ) → (x == y) ≡ (y == x)
eq_comm x y = ground arith

diff-mirror :
    (index : ℕ) (open_run : Option Run) (xs ys : List ℕ)
    → length xs ≡ length ys
    → diff index (mirror_open open_run) ys xs ≡ map mirror (diff index open_run xs ys)
unfolding diff extend
diff-mirror index none [] [] e = refl
diff-mirror index (some run) [] [] e = refl
diff-mirror index open_run [] (y ∷ ys) e = absurd (omega arith)
diff-mirror index open_run (x ∷ xs) [] e = absurd (omega arith)
diff-mirror index none (x ∷ xs) (y ∷ ys) e = elim (Bool-cases (x == y)) [
  | inl same ↦ rw (eq_comm y x, same, diff) (diff-mirror (index + 1) none xs ys (omega arith))
  | inr differs ↦
      rw (eq_comm y x, differs, diff)
        (diff-mirror (index + 1)
          (some (record { begin = index; expected = x ∷ []; replacement = y ∷ [] })) xs ys
          (omega arith))
]
diff-mirror index (some run) (x ∷ xs) (y ∷ ys) e = elim (Bool-cases (x == y)) [
  | inl same ↦
      rw (eq_comm y x, same, diff)
        (ap (λ rs. mirror run ∷ rs) (diff-mirror (index + 1) none xs ys (omega arith)))
  | inr differs ↦
      rw (eq_comm y x, differs, diff)
        (diff-mirror (index + 1) (some (extend run x y)) xs ys (omega arith))
]

written-mirror :
    (runs : List Run) (p old : ℕ)
    → written (λ r. r.replacement) (map mirror runs) p old ≡ written (λ r. r.expected) runs p old
unfolding written
written-mirror [] p old = refl
written-mirror (run ∷ runs) p old =
    ap
      (λ (rest : ℕ).
        if covers (λ r. r.expected) run p then get_or run.expected (p - run.begin) 0 else rest)
      (written-mirror runs p old)

-- Writing each run's replacement over the one list gives the other, and writing each run's expected
-- bytes over the other gives the one.
pub written-diff :
    (xs ys : List ℕ) (p : ℕ)
    → length xs ≡ length ys
    → (written (λ r. r.replacement) (diff 0 none xs ys) p (get_or xs p 0) ≡ get_or ys p 0)
      × (written (λ r. r.expected) (diff 0 none xs ys) p (get_or ys p 0) ≡ get_or xs p 0)
written-diff xs ys p e =
    let at : p - 0 ≡ p = omega arith in
    let start : ltb p 0 ≡ false = ground arith in
    (
      diff-written 0 none xs ys p (get_or xs p 0) tt e (λ le. rw at refl) ∙ rw (start, at) refl,
      sym (written-mirror (diff 0 none xs ys) p (get_or ys p 0))
          ∙ ap (λ (rs : List Run). written (λ r. r.replacement) rs p (get_or ys p 0))
              (sym (diff-mirror 0 none xs ys e))
          ∙ diff-written 0 none ys xs p (get_or ys p 0) tt (sym e) (λ le. rw at refl)
          ∙ rw (start, at) refl,
    )
