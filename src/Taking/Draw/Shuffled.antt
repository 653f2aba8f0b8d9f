-- ===== src/Taking/Draw/Shuffled.antt =====
-- api/routes/student_quiz.py `_snapshot_questions`: the shuffled options are graded as the
-- configuration means them.
use submissions_checker.Prelude.{
  ℕ, ◌≡◌, Bool, true, false, ◌&&◌, some, List, [], ◌∷◌, arith, contains, Codes, codes_eq,
  if◌then◌else◌, inl, inr, Option-cases, all, map, pos, sorted,
}
use submissions_checker.Taking.{
  Question, QuestionBody, single_choice, multiple_choice, ordering, true_false, other,
}
use submissions_checker.Taking.Draw.{get_elem?, index_of, remap, shuffle_body, pick}
use submissions_checker.Taking.Draw.Sorting.{ℤs_eq-sorted_ℤ, codes_eq-sorted}
use submissions_checker.Taking.Draw.Positions.{distinct, index_of-stands_at}
use submissions_checker.Taking.Draw.Carried.{carried, carried-pick, carried-remap}
use submissions_checker.Taking.Answer.{
  Texts, RawAnswer, text, texts, grade_answer, grade_single, selected_of, graded, ints, values_of,
  or_empty,
}

-- The options that a choice shows.
unfoldable pub options_of : QuestionBody → List Codes
options_of (single_choice options correct) = options
options_of (multiple_choice options correct) = options
options_of _ = []

-- A single choice is shuffled into a single choice.
shuffle_body-single :
    (options : List Codes) (correct : ℕ) (indices : List ℕ) (b : QuestionBody)
    → shuffle_body indices (single_choice options correct) ≡ some b
    → (shown : List Codes) × (i : ℕ) × (b ≡ single_choice shown i)
      × (pick options indices ≡ some shown)
      × (index_of correct indices ≡ some i)
unfolding shuffle_body
shuffle_body-single options correct indices b h = elim (Option-cases (pick options indices)) [
  | inl n ↦ absurd (ground (arith, n))
  | inr (shown, f) ↦ elim (Option-cases (index_of correct indices)) [
    | inl n ↦ absurd (ground (arith, f, n))
    | inr (i, g) ↦ (shown, i, ground (arith, f, g), f, g)
  ]
]

shuffle_body-multiple :
    (options : List Codes) (correct indices : List ℕ) (b : QuestionBody)
    → shuffle_body indices (multiple_choice options correct) ≡ some b
    → (shown : List Codes) × (b ≡ multiple_choice shown (remap correct 0 indices))
      × (pick options indices ≡ some shown)
unfolding shuffle_body
shuffle_body-multiple options correct indices b h = elim (Option-cases (pick options indices)) [
  | inl n ↦ absurd (ground (arith, n))
  | inr (shown, f) ↦ (shown, ground (arith, f), f)
]

Bool-iff : (a b : Bool) → (a ≡ true → b ≡ true) → (b ≡ true → a ≡ true) → a ≡ b
Bool-iff a b f g = ground (arith, f, g)

-- The correct options of a choice: the list of a multiple choice has no position twice, and none that
-- the options do not have.
unfoldable pub fits : List ℕ → QuestionBody → Bool
fits indices (single_choice options correct) = true
fits indices (multiple_choice options correct) =
    distinct correct && all (λ c. contains c indices) correct
fits indices _ = false

-- The positions are the correct ones.
unfoldable right : QuestionBody → List ℕ → Bool
right (single_choice options correct) js = codes_eq js (correct ∷ [])
right (multiple_choice options correct) js = codes_eq (sorted js) (sorted correct)
right _ js = false

carried-index_of :
    (indices js os : List ℕ) (c i : ℕ)
    → distinct indices ≡ true
    → index_of c indices ≡ some i
    → carried indices js ≡ some os
    → codes_eq js (i ∷ []) ≡ codes_eq os (c ∷ [])
unfolding carried
carried-index_of indices [] os c i d e h = ground arith
carried-index_of indices (j ∷ []) os c i d e h = elim (Option-cases (get_elem? indices j)) [
  | inl n ↦ absurd (ground (arith, n))
  | inr (o, f) ↦ ground (arith, f, index_of-stands_at indices c i j d e)
]
carried-index_of indices (j ∷ k ∷ js) os c i d e h = elim (Option-cases (get_elem? indices j)) [
  | inl n ↦ absurd (ground (arith, n))
  | inr (o, f) ↦ elim (Option-cases (get_elem? indices k)) [
    | inl n ↦ absurd (ground (arith, f, n))
    | inr (p, g) ↦ elim (Option-cases (carried indices js)) [
      | inl n ↦ absurd (ground (arith, f, g, n))
      | inr (rest, r) ↦ ground (arith, f, g, r)
    ]
  ]
]

codes_eq-remap :
    (indices correct js os : List ℕ)
    → distinct indices ≡ true
    → distinct correct ≡ true
    → all (λ o. contains o indices) correct ≡ true
    → carried indices js ≡ some os
    → codes_eq (sorted js) (sorted (remap correct 0 indices))
      ≡ codes_eq (sorted os) (sorted correct)
codes_eq-remap indices correct js os d once known h =
    let shown = codes_eq-sorted js (remap correct 0 indices) in
    let configured = codes_eq-sorted os correct in
    let same = carried-remap indices correct js os d once known h in
    Bool-iff _ _ (λ e. configured.1 (same.0 (shown.0 e))) (λ e. shown.1 (same.1 (configured.0 e)))

right-shuffle_body :
    (body b : QuestionBody) (indices js os : List ℕ)
    → distinct indices ≡ true
    → fits indices body ≡ true
    → shuffle_body indices body ≡ some b
    → carried indices js ≡ some os
    → (right b js ≡ right body os)
      × (map (λ j. get_elem? (options_of b) j) js ≡ map (λ o. get_elem? (options_of body) o) os)
unfolding right fits options_of
right-shuffle_body (single_choice options c) b indices js os d f h at =
    let (shown, i, eb, ep, ei) = shuffle_body-single options c indices b h in
    rw eb
      (carried-index_of indices js os c i d ei at, carried-pick options shown indices js os ep at)
right-shuffle_body (multiple_choice options correct) b indices js os d f h at =
    let (shown, eb, ep) = shuffle_body-multiple options correct indices b h in
    rw eb (
      codes_eq-remap indices correct js os d (ground arith) (ground arith) at,
      carried-pick options shown indices js os ep at,
    )
right-shuffle_body (ordering items order) b indices js os d f h at = absurd (ground arith)
right-shuffle_body (true_false v) b indices js os d f h at = absurd (ground arith)
right-shuffle_body other b indices js os d f h at = absurd (ground arith)

module _ (t : Texts) where
  -- What the form sends when these positions are picked.
  unfoldable pub Picks : QuestionBody → RawAnswer → List ℕ → Type 0
  Picks (single_choice options correct) (text v) (j ∷ []) = t.int v ≡ some (pos j)
  Picks (multiple_choice options correct) (texts vs) js = ints t vs ≡ some (map pos js)
  Picks _ _ _ = ⊥

  grade_answer-right :
      (q : Question) (body : QuestionBody) (answer : RawAnswer) (js : List ℕ)
      → Picks body answer js
      → ((grade_answer t (record q { body = body }) answer).is_correct ≡ right body js)
        × ((grade_answer t (record q { body = body }) answer).points_earned
            ≡ (if right body js then q.points else 0))
  unfolding Picks right grade_answer grade_single selected_of graded values_of or_empty
  grade_answer-right q (single_choice options c) (text v) (j ∷ []) e =
      (ground (arith, e), ground (arith, e))
  grade_answer-right q (single_choice options c) (text v) [] e = absurd e
  grade_answer-right q (single_choice options c) (text v) (j ∷ k ∷ js) e = absurd e
  grade_answer-right q (single_choice options c) (texts vs) js e = absurd e
  grade_answer-right q (multiple_choice options correct) (texts vs) js e =
      (ground (arith, e, ℤs_eq-sorted_ℤ js correct), ground (arith, e, ℤs_eq-sorted_ℤ js correct))
  grade_answer-right q (multiple_choice options correct) (text v) js e = absurd e
  grade_answer-right q (ordering items order) answer js e = absurd e
  grade_answer-right q (true_false b) answer js e = absurd e
  grade_answer-right q other answer js e = absurd e

  -- The options of a choice are shuffled, with no position twice. The answer that picks the positions
  -- `js` of what is shown is graded as the answer that picks `os` is to the question as it is
  -- configured, where `os` are the positions that came to `js`; and both pick the same options. A
  -- single choice is answered by one position, a multiple choice by a list of them in any order; the
  -- correct options of a multiple choice are distinct and among its options.
  pub grade_answer-shuffle_body :
      (q : Question) (body b : QuestionBody) (indices js os : List ℕ) (answer meant : RawAnswer)
      → distinct indices ≡ true
      → fits indices body ≡ true
      → shuffle_body indices body ≡ some b
      → carried indices js ≡ some os
      → Picks b answer js
      → Picks body meant os
      → ((grade_answer t (record q { body = b }) answer).is_correct
          ≡ (grade_answer t (record q { body = body }) meant).is_correct)
        × ((grade_answer t (record q { body = b }) answer).points_earned
            ≡ (grade_answer t (record q { body = body }) meant).points_earned)
        × (map (λ j. get_elem? (options_of b) j) js ≡ map (λ o. get_elem? (options_of body) o) os)
  grade_answer-shuffle_body q body b indices js os answer meant d f h at picks means =
      let shown = grade_answer-right q b answer js picks in
      let configured = grade_answer-right q body meant os means in
      let (same, shows) = right-shuffle_body body b indices js os d f h at in
      (ground (arith, shown, configured, same), ground (arith, shown, configured, same), shows)
