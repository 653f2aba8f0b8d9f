-- ===== src/Taking/Draw/Selected.antt =====
-- api/routes/student_quiz.py `_select_question_ids`: which questions the draw has.
use submissions_checker.Prelude.{
  ℕ, zero, suc, ◌+◌, ◌-◌, ◌≤◌, ◌<◌, ◌≡◌, refl, min, Bool, true, false, not, ◌&&◌, List, [], ◌∷◌,
  ◌++◌, arith, length, if◌then◌else◌, length-append,
}
use submissions_checker.Quiz.Split.Deal.{occurrences}
use submissions_checker.Taking.Draw.{
  ConfigQuestion, QuizConfig, indexed_ids, is_supported, take, required_ids, optional_ids,
  or_default, select_question_ids,
}

-- What `random.shuffle` does to a list: it keeps every member as often as it was there.
pub record IsShuffle (shuffle : List ℕ → List ℕ) : Type 0 where
  pub keeps : (k : ℕ) (xs : List ℕ) → occurrences k (shuffle xs) ≡ occurrences k xs
  pub keeps_length : (xs : List ℕ) → length (shuffle xs) ≡ length xs

-- Whether there is a supported question `k` that passes the test.
unfoldable pub passes_at : (ConfigQuestion → Bool) → List ConfigQuestion → ℕ → Bool
passes_at test [] k = false
passes_at test (q ∷ qs) zero = is_supported q.body && test q
passes_at test (q ∷ qs) (suc k) = passes_at test qs k

occurrences-indexed_ids_below :
    (test : ConfigQuestion → Bool) (k i : ℕ) (qs : List ConfigQuestion)
    → k < i
    → occurrences k (indexed_ids test i qs) ≡ 0
unfolding indexed_ids
occurrences-indexed_ids_below test k i [] h = refl
occurrences-indexed_ids_below test k i (q ∷ qs) h =
    ground (arith, occurrences-indexed_ids_below test k (i + 1) qs)

occurrences-indexed_ids :
    (test : ConfigQuestion → Bool) (i j k : ℕ) (qs : List ConfigQuestion)
    → i + j ≡ k
    → occurrences k (indexed_ids test i qs) ≡ (if passes_at test qs j then 1 else 0)
unfolding indexed_ids passes_at
occurrences-indexed_ids test i j k [] e = refl
occurrences-indexed_ids test i zero k (q ∷ qs) e =
    ground (arith, occurrences-indexed_ids_below test k (i + 1) qs)
occurrences-indexed_ids test i (suc j) k (q ∷ qs) e =
    ground (arith, occurrences-indexed_ids test (i + 1) j k qs)

occurrences-take : (k n : ℕ) (xs : List ℕ) → occurrences k (take n xs) ≤ occurrences k xs
unfolding take
occurrences-take k zero xs = omega arith
occurrences-take k (suc n) [] = omega arith
occurrences-take k (suc n) (x ∷ xs) = ground (arith, occurrences-take k n xs)

length-take : (n : ℕ) (xs : List ℕ) → length (take n xs) ≡ min n (length xs)
unfolding take
length-take zero xs = omega arith
length-take (suc n) [] = omega arith
length-take (suc n) (x ∷ xs) = omega (arith, length-take n xs)

occurrences-append :
    (k : ℕ) (xs ys : List ℕ) → occurrences k (xs ++ ys) ≡ occurrences k xs + occurrences k ys
occurrences-append k [] ys = omega arith
occurrences-append k (x ∷ xs) ys = ground (arith, occurrences-append k xs ys)

passes_at-not :
    (test : ConfigQuestion → Bool) (qs : List ConfigQuestion) (k : ℕ)
    → (if passes_at test qs k then 1 else 0) + (if passes_at (λ q. not (test q)) qs k then 1 else 0)
      ≡ (if passes_at (λ _. true) qs k then 1 else 0)
unfolding passes_at
passes_at-not test [] k = refl
passes_at-not test (q ∷ qs) zero = ground arith
passes_at-not test (q ∷ qs) (suc k) = passes_at-not test qs k

-- The draw has every required question of a supported type, only supported questions, and none of
-- them twice; it has as many as the configuration asks for, or all required ones when they are more,
-- or all there are when these are fewer.
pub select_question_ids-required :
    (shuffle reshuffle : List ℕ → List ℕ) (cfg : QuizConfig)
    → IsShuffle shuffle
    → IsShuffle reshuffle
    → ((k : ℕ)
        → ((if passes_at (λ q. q.required) cfg.questions k then 1 else 0)
            ≤ occurrences k (select_question_ids shuffle reshuffle cfg))
          × (occurrences k (select_question_ids shuffle reshuffle cfg)
              ≤ (if passes_at (λ _. true) cfg.questions k then 1 else 0)))
      × (length (select_question_ids shuffle reshuffle cfg)
          ≡ length (required_ids cfg)
            + min
                (or_default cfg.questions_to_send (length cfg.questions)
                  - length (required_ids cfg))
                (length (optional_ids cfg)))
unfolding select_question_ids required_ids optional_ids
select_question_ids-required shuffle reshuffle cfg sh re =
    let required : List ℕ = required_ids cfg in
    let optional : List ℕ = optional_ids cfg in
    let total : ℕ = or_default cfg.questions_to_send (length cfg.questions) in
    let n : ℕ = total - length required in
    (
      λ k. ground (
        arith,
        occurrences-indexed_ids (λ q. q.required) 0 k k cfg.questions (omega arith),
        occurrences-indexed_ids (λ q. not q.required) 0 k k cfg.questions (omega arith),
        passes_at-not (λ q. q.required) cfg.questions k,
        occurrences-append k required (take n optional),
        occurrences-append k required (take n (shuffle optional)),
        occurrences-take k n optional,
        occurrences-take k n (shuffle optional),
        sh.keeps k optional,
        re.keeps k (required ++ take n (shuffle optional)),
      ),
      ground (
        arith,
        length-append required (take n optional),
        length-append required (take n (shuffle optional)),
        length-take n optional,
        length-take n (shuffle optional),
        sh.keeps_length optional,
        re.keeps_length (required ++ take n (shuffle optional)),
      ),
    )
