-- ===== src/Board/Tables/Select.antt =====
-- `SelectTable` of native/host/board_mutation.cpp: the candidate with the best score, if it is alone
-- with that score.
use cfb27_lua_hook.Prelude.{
  ℕ, ◌+◌, ◌≤◌, ◌<◌, ◌≡◌, refl, ap, subst, ◌↔◌, inl, inr, false, Option, none, some, List, [], ◌∷◌,
  arith, leb, ◌==◌, if◌then◌else◌, leb→le, Bool-cases, All,
}
use cfb27_lua_hook.Board.{TableView}

-- `std::sort`, the greater scores first.
unfoldable pub insert_view : TableView → List TableView → List TableView
insert_view v [] = v ∷ []
insert_view v (w ∷ ws) = if leb w.score v.score then v ∷ w ∷ ws else w ∷ insert_view v ws

unfoldable pub sort_views : List TableView → List TableView
sort_views [] = []
sort_views (v ∷ vs) = insert_view v (sort_views vs)

-- The first of a sorted list, unless the second scores as much.
unfoldable pub first_alone : List TableView → Option TableView
first_alone [] = none
first_alone (v ∷ []) = some v
first_alone (v ∷ w ∷ ws) = if v.score == w.score then none else some v

unfoldable pub select_table : List TableView → Option TableView
select_table candidates = first_alone (sort_views candidates)

-- How many of the candidates score at least so much.
abbrev pub count_from : ℕ → List TableView → ℕ
count_from n [] = 0
count_from n (v ∷ vs) = (if leb n v.score then 1 else 0) + count_from n vs

abbrev IsDescending : List TableView → Type 0
IsDescending [] = Unit {0}
IsDescending (v ∷ vs) = All (λ w. w.score ≤ v.score) vs × IsDescending vs

count_from-insert :
    (n : ℕ) (v : TableView) (vs : List TableView)
    → count_from n (insert_view v vs) ≡ count_from n (v ∷ vs)
unfolding insert_view
count_from-insert n v [] = refl
count_from-insert n v (w ∷ ws) = ground (arith, count_from-insert n v ws)

count_from-sort : (n : ℕ) (vs : List TableView) → count_from n (sort_views vs) ≡ count_from n vs
unfolding sort_views
count_from-sort n [] = refl
count_from-sort n (v ∷ vs) =
    omega (arith, count_from-insert n v (sort_views vs), count_from-sort n vs)

module _ (P : TableView → Type 0) where
  All-insert_view :
      (v : TableView) (vs : List TableView) → P v → All P vs → All P (insert_view v vs)
  unfolding insert_view
  All-insert_view v [] p h = (p, tt)
  All-insert_view v (w ∷ ws) p h = elim (Bool-cases (leb w.score v.score)) [
    | inl here ↦ rw here (p, h)
    | inr later ↦ rw later (h.0, All-insert_view v ws p h.1)
  ]

  All-of-insert_view :
      (v : TableView) (vs : List TableView) → All P (insert_view v vs) → P v × All P vs
  unfolding insert_view
  All-of-insert_view v [] = λ h. h
  All-of-insert_view v (w ∷ ws) = elim (Bool-cases (leb w.score v.score)) [
    | inl here ↦ rw here (λ h. h)
    | inr later ↦ rw later λ h. let rest = All-of-insert_view v ws h.1 in (rest.0, (h.0, rest.1))
  ]

  All-sort_views : (vs : List TableView) → All P vs → All P (sort_views vs)
  unfolding sort_views
  All-sort_views [] h = tt
  All-sort_views (v ∷ vs) h = All-insert_view v (sort_views vs) h.0 (All-sort_views vs h.1)

  All-of-sort_views : (vs : List TableView) → All P (sort_views vs) → All P vs
  unfolding sort_views
  All-of-sort_views [] h = tt
  All-of-sort_views (v ∷ vs) h =
      let both = All-of-insert_view v (sort_views vs) h in (both.0, All-of-sort_views vs both.1)

All-le :
    (m n : ℕ) (vs : List TableView) → m ≤ n → All (λ w. w.score ≤ m) vs → All (λ w. w.score ≤ n) vs
All-le m n [] h k = tt
All-le m n (w ∷ ws) h k = (omega (arith, k.0), All-le m n ws h k.1)

insert_view-IsDescending :
    (v : TableView) (vs : List TableView) → IsDescending vs → IsDescending (insert_view v vs)
unfolding insert_view
insert_view-IsDescending v [] h = (tt, tt)
insert_view-IsDescending v (w ∷ ws) h = elim (Bool-cases (leb w.score v.score)) [
  | inl here ↦ rw here (
    (leb→le w.score v.score here, All-le w.score v.score ws (leb→le w.score v.score here) h.0),
    h,
  )
  | inr later ↦ rw later (
    All-insert_view (λ x. x.score ≤ w.score) v ws (ground arith) h.0,
    insert_view-IsDescending v ws h.1,
  )
]

sort_views-IsDescending : (vs : List TableView) → IsDescending (sort_views vs)
unfolding sort_views
sort_views-IsDescending [] = tt
sort_views-IsDescending (v ∷ vs) =
    insert_view-IsDescending v (sort_views vs) (sort_views-IsDescending vs)

count_from-below :
    (n m : ℕ) (vs : List TableView) → m < n → All (λ w. w.score ≤ m) vs → count_from n vs ≡ 0
count_from-below n m [] h k = refl
count_from-below n m (v ∷ vs) h k = ground (arith, count_from-below n m vs h k.1)

All-below :
    (v : TableView) (m : ℕ) (vs : List TableView)
    → m < v.score
    → All (λ w. w.score ≤ m) vs
    → All (λ w. v.score ≤ w.score → w ≡ v) vs
All-below v m [] h k = tt
All-below v m (w ∷ ws) h k = ((λ le. absurd (omega (arith, k.0))), All-below v m ws h k.1)

abbrev IsBest : List TableView → TableView → Type 0
IsBest vs v = (count_from v.score vs ≡ 1) × All (λ w. v.score ≤ w.score → w ≡ v) vs

first_alone-IsBest :
    (vs : List TableView) (v : TableView) → IsDescending vs → first_alone vs ≡ some v → IsBest vs v
unfolding first_alone
first_alone-IsBest [] v d h = cc
first_alone-IsBest (x ∷ []) v d h =
    let same : x ≡ v = cc in
    let best : IsBest (x ∷ []) x = (ground arith, ((λ _. refl), tt)) in
    subst (IsBest (x ∷ [])) same best
first_alone-IsBest (x ∷ y ∷ ws) v d h =
    let same : x ≡ v = ground arith in
    let less : y.score < x.score = ground (arith, d.0.0) in
    let best : IsBest (x ∷ y ∷ ws) x = (
      ground (arith, less, count_from-below x.score y.score ws less d.1.0),
      ((λ _. refl), ((λ le. absurd (omega (arith, less))), All-below x y.score ws less d.1.0)),
    ) in
    subst (IsBest (x ∷ y ∷ ws)) same best

best-first_alone :
    (vs : List TableView) (v : TableView) → IsDescending vs → IsBest vs v → first_alone vs ≡ some v
unfolding first_alone
best-first_alone [] v d best = absurd (omega (arith, best.0))
best-first_alone (x ∷ []) v d (alone, bests) =
    let reached : v.score ≤ x.score = ground (arith, alone) in ap some (bests.0 reached)
best-first_alone (x ∷ y ∷ ws) v d (alone, bests) = elim (Bool-cases (leb v.score x.score)) [
  | inr under ↦
      let below = All-le x.score x.score (y ∷ ws) (omega arith) d.0 in
      let none_there =
        count_from-below v.score x.score (x ∷ y ∷ ws) (ground (arith, under))
          (omega arith, below) in
      absurd (omega (arith, alone, none_there))
  | inl reached ↦
      let same = bests.0 (leb→le v.score x.score reached) in
      let less : leb v.score y.score ≡ false = ground (arith, alone, reached) in
      let differs : (x.score == y.score) ≡ false = ground (arith, less, reached) in
      rw differs (ap some same)
]

-- `SelectTable` selects a table exactly when it is the one candidate with its score or a greater one.
pub select_table_iff :
    (candidates : List TableView) (v : TableView)
    → (select_table candidates ≡ some v)
      ↔ ((count_from v.score candidates ≡ 1) × All (λ w. v.score ≤ w.score → w ≡ v) candidates)
unfolding select_table
select_table_iff candidates v = (selected, selects)
  where
    sorted : IsDescending (sort_views candidates)
    sorted = sort_views-IsDescending candidates

    selected :
        select_table candidates ≡ some v
        → (count_from v.score candidates ≡ 1) × All (λ w. v.score ≤ w.score → w ≡ v) candidates
    selected h =
        let best = first_alone-IsBest (sort_views candidates) v sorted h in
        (
          omega (arith, best.0, count_from-sort v.score candidates),
          All-of-sort_views (λ w. v.score ≤ w.score → w ≡ v) candidates best.1,
        )

    selects :
        (count_from v.score candidates ≡ 1) × All (λ w. v.score ≤ w.score → w ≡ v) candidates
        → select_table candidates ≡ some v
    selects best = best-first_alone (sort_views candidates) v sorted (
      omega (arith, best.0, count_from-sort v.score candidates),
      All-sort_views (λ w. v.score ≤ w.score → w ≡ v) candidates best.1,
    )
