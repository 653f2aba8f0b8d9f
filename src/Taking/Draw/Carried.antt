-- ===== src/Taking/Draw/Carried.antt =====
-- api/routes/student_quiz.py `_snapshot_questions`: what is picked of the shuffled options, carried back
-- to the options of the configuration.
use submissions_checker.Prelude.{
  ℕ, ◌≡◌, refl, true, none, some, Option, List, [], ◌∷◌, arith, contains, Codes, ◌==◌, inl, inr,
  Option-cases, Bool-cases, all, map, ◌↔◌,
}
use submissions_checker.Quiz.Split.Deal.{occurrences}
use submissions_checker.Taking.Draw.{get_elem?, index_of, remap, pick}
use submissions_checker.Taking.Draw.Positions.{
  distinct, stands_at, stands_at-contains, index_of-stands_at, pick-get_elem?, occurrences-remap,
  index_of-none, contains-all, occurrences-distinct,
}

-- The positions of the configuration that came to these positions of what is shown.
unfoldable pub carried : List ℕ → List ℕ → Option (List ℕ)
carried indices [] = some []
carried indices (j ∷ js) = elim (get_elem? indices j) [
  | none ↦ none
  | some o ↦ elim (carried indices js) [ none ↦ none | some os ↦ some (o ∷ os) ]
]

module _ (indices : List ℕ) (d : distinct indices ≡ true) where
  -- A position is carried as often as the place that it came to is chosen.
  occurrences-carried :
      (js os : List ℕ) (k i : ℕ)
      → index_of k indices ≡ some i
      → carried indices js ≡ some os
      → occurrences k os ≡ occurrences i js
  unfolding carried
  occurrences-carried [] os k i e h = ground arith
  occurrences-carried (j ∷ js) os k i e h = elim (Option-cases (get_elem? indices j)) [
    | inl n ↦ absurd (ground (arith, n))
    | inr (o, f) ↦ elim (Option-cases (carried indices js)) [
      | inl n ↦ absurd (ground (arith, f, n))
      | inr (rest, g) ↦
          ground
            (arith, f, g, occurrences-carried js rest k i e g, index_of-stands_at indices k i j d e)
    ]
  ]

  carried-absent :
      (js os : List ℕ) (k : ℕ)
      → index_of k indices ≡ none
      → carried indices js ≡ some os
      → occurrences k os ≡ 0
  unfolding carried
  carried-absent [] os k e h = ground arith
  carried-absent (j ∷ js) os k e h = elim (Option-cases (get_elem? indices j)) [
    | inl n ↦ absurd (ground (arith, n))
    | inr (o, f) ↦ elim (Option-cases (carried indices js)) [
      | inl n ↦ absurd (ground (arith, f, n))
      | inr (rest, g) ↦
          let stands : stands_at indices o j ≡ true = ground (arith, f) in
          ground (
            arith,
            f,
            g,
            carried-absent js rest k e g,
            index_of-none k indices e,
            stands_at-contains indices o j stands,
          )
    ]
  ]

carried-beyond :
    (indices js os : List ℕ) (j : ℕ)
    → get_elem? indices j ≡ none
    → carried indices js ≡ some os
    → occurrences j js ≡ 0
unfolding carried
carried-beyond indices [] os j e h = refl
carried-beyond indices (i ∷ js) os j e h = elim (Option-cases (get_elem? indices i)) [
  | inl n ↦ absurd (ground (arith, n))
  | inr (o, f) ↦ elim (Option-cases (carried indices js)) [
    | inl n ↦ absurd (ground (arith, f, n))
    | inr (rest, g) ↦ elim (Bool-cases (j == i)) [
      | inl same ↦ absurd (ground (arith, f, same))
      | inr other ↦ ground (arith, other, carried-beyond indices js rest j e g)
    ]
  ]
]

-- The same options are shown.
pub carried-pick :
    (options shown : List Codes) (indices js os : List ℕ)
    → pick options indices ≡ some shown
    → carried indices js ≡ some os
    → map (λ j. get_elem? shown j) js ≡ map (λ o. get_elem? options o) os
unfolding carried
carried-pick options shown indices [] os p h = ground arith
carried-pick options shown indices (j ∷ js) os p h = elim (Option-cases (get_elem? indices j)) [
  | inl n ↦ absurd (ground (arith, n))
  | inr (o, f) ↦ elim (Option-cases (carried indices js)) [
    | inl n ↦ absurd (ground (arith, f, n))
    | inr (rest, g) ↦ ground (
      arith,
      f,
      g,
      pick-get_elem? options indices shown j o p f,
      carried-pick options shown indices js rest p g,
    )
  ]
]

-- The chosen positions are the asked ones, each as often, exactly when the positions that they came from
-- are the correct ones.
pub carried-remap :
    (indices correct js os : List ℕ)
    → distinct indices ≡ true
    → distinct correct ≡ true
    → all (λ o. contains o indices) correct ≡ true
    → carried indices js ≡ some os
    → ((k : ℕ) → occurrences k js ≡ occurrences k (remap correct 0 indices))
      ↔ ((k : ℕ) → occurrences k os ≡ occurrences k correct)
carried-remap indices correct js os d once known h = (
  λ same k. elim (Option-cases (index_of k indices)) [
    | inl n ↦ ground (
      arith,
      carried-absent indices d js os k n h,
      index_of-none k indices n,
      contains-all k indices correct known,
      occurrences-distinct k correct once,
    )
    | inr (i, e) ↦ ground (
      arith,
      occurrences-carried indices d js os k i e h,
      same i,
      occurrences-remap correct 0 i i indices (omega arith),
      index_of-stands_at indices k i i d e,
      occurrences-distinct k correct once,
    )
  ],
  λ same j. elim (Option-cases (get_elem? indices j)) [
    | inl n ↦ ground (
      arith,
      n,
      carried-beyond indices js os j n h,
      occurrences-remap correct 0 j j indices (omega arith),
    )
    | inr (o, f) ↦
        let stands : stands_at indices o j ≡ true = ground (arith, f) in
        elim (Option-cases (index_of o indices)) [
          | inl n ↦
              absurd
                (ground (arith, index_of-none o indices n, stands_at-contains indices o j stands))
          | inr (i, e) ↦
              let at : i ≡ j = ground (arith, index_of-stands_at indices o i j d e) in
              ground (
                arith,
                f,
                at,
                occurrences-carried indices d js os o i e h,
                same o,
                occurrences-remap correct 0 j j indices (omega arith),
                occurrences-distinct o correct once,
              )
        ]
  ],
)
