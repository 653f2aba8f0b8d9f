-- ===== src/Taking/Pages/Ended.antt =====
-- api/routes/student_quiz.py: an answer that is saved keeps an attempt on its track, and
-- `_grade_and_finalize` closes it.
use submissions_checker.Prelude.{
  ℕ, ◌≤◌, ◌≡◌, ◌⊎◌, refl, true, ◌&&◌, none, some, List, [], ◌∷◌, arith, map, inl, inr, Option-cases,
  Bool-cases, ◌==◌, pos, ℤ_eq,
}
use submissions_checker.Quiz.Attempt.{QuizAttemptStatus, is_terminal}
use submissions_checker.Quiz.Scoring.{Floats}
use submissions_checker.Quiz.Scoring.Bounds.{Fits}
use submissions_checker.Quiz.Scoring.Credit.{Distinct}
use submissions_checker.Taking.{TakenAttempt, Question, row, entry}
use submissions_checker.Taking.Clock.{current_question, question_at}
use submissions_checker.Taking.Answer.{Texts, RawAnswer, graded, grade_single, grade_answer}
use submissions_checker.Taking.Finish.Settled.{grade_and_finalize-Settled}
use submissions_checker.Taking.Pages.Track.{Aligned, Aligned-Fits, OnTrack, OnTrack-append}
use submissions_checker.Taking.Desk.{Form, Desk, Page, raw_of}
use submissions_checker.Taking.Pages.{
  posted_index, quiz_answer, save_answer, answer_current, finalize, desk_after,
}

module _ {ℓ} {F : Type ℓ} where
  -- An attempt that has ended with a score.
  pub record Closed (s : TakenAttempt F) : Type 0 where
    pub terminal : is_terminal s.status ≡ true
    pub unpaused : s.paused_at ≡ none
    pub points : ℕ
    pub out_of : ℕ
    pub scored : s.score ≡ some points
    pub max_scored : s.max_score ≡ some out_of
    pub bounded : points ≤ out_of

  abbrev pub Sound : TakenAttempt F → Type 0
  Sound s = OnTrack s ⊎ Closed s

module _ (t : Texts) where
  grade_single-bound :
      (q : Question) (c : ℕ) (a : RawAnswer) → (grade_single t q c a).points_earned ≤ q.points
  unfolding grade_single graded
  grade_single-bound q c a = ground arith

  grade_answer-bound :
      (q : Question) (a : RawAnswer) → (grade_answer t q a).points_earned ≤ q.points
  unfolding grade_answer graded
  grade_answer-bound q a = ground (arith, λ (c : ℕ). grade_single-bound q c a)

  pub Aligned-map :
      (aid : ℕ) (form : Form) (qs : List Question) → Aligned qs (map (quiz_answer t aid form) qs)
  unfolding Aligned quiz_answer
  Aligned-map aid form [] = tt
  Aligned-map aid form (q ∷ qs) =
      (refl, grade_answer-bound q (raw_of form q), Aligned-map aid form qs)

  module _ {ℓ} {F : Type ℓ} where
    save_answer-OnTrack :
        (now : ℕ) (form : Form) (q : Question) (s : TakenAttempt F)
        → OnTrack s
        → question_at s.current_index s.questions_snapshot ≡ some q
        → OnTrack (save_answer t now form q s)
    unfolding save_answer quiz_answer
    save_answer-OnTrack now form q s h e =
        OnTrack-append s q (quiz_answer t s.id form q) (some now) h e refl
          (grade_answer-bound q (raw_of form q))

    current_question-at :
        (s : TakenAttempt F) {q : Question}
        → current_question s ≡ some q
        → question_at s.current_index s.questions_snapshot ≡ some q
    unfolding current_question
    current_question-at s e = e

    pub answer_current-OnTrack :
        (now : ℕ) (form : Form) (s : TakenAttempt F) (expired : ℕ)
        → OnTrack s
        → OnTrack (answer_current t now form s expired)
    unfolding answer_current
    answer_current-OnTrack now form s expired h = elim (Option-cases (current_question s)) [
      | inl n ↦ rw (n, answer_current) h
      | inr (q, e) ↦
          elim (Bool-cases (expired == 0 && ℤ_eq (posted_index t form) (pos s.current_index))) [
            | inl match ↦
                rw (e, match, answer_current)
                  (save_answer-OnTrack now form q s h (current_question-at s e))
            | inr stale ↦ rw (e, stale, answer_current) h
          ]
    ]

module _ (fl : Floats) (t : Texts) where
  row-Fits :
      (s : TakenAttempt fl.F)
      → Distinct (map entry s.questions_snapshot)
      → Aligned s.questions_snapshot s.answers
      → Distinct (row s).questions_snapshot × Fits (row s).questions_snapshot s.answers
  unfolding row
  row-Fits s d a = (d, Aligned-Fits s.questions_snapshot s.answers d a)

  -- The end of an attempt whose answers stand for its first questions closes it.
  pub finalize-Aligned :
      (now : ℕ) (status : QuizAttemptStatus) (page : Page) (desk back : Desk fl.F)
      → is_terminal status ≡ true
      → Distinct (map entry desk.attempt.questions_snapshot)
      → Aligned desk.attempt.questions_snapshot desk.attempt.answers
      → Closed (desk_after back (finalize fl now status page desk)).attempt
  unfolding finalize desk_after
  finalize-Aligned now status page desk back terminal d a =
      let (distinct, fits) = row-Fits desk.attempt d a in
      let (ended, db, effects, x, m, runs, over, unpaused, score, max_score, bound, _, _) =
        grade_and_finalize-Settled fl now status desk.tables desk.effects desk.attempt distinct fits
          terminal in
      rw (runs, finalize, desk_after)
        (record {
          terminal = over;
          unpaused = unpaused;
          points = x;
          out_of = m;
          scored = score;
          max_scored = max_score;
          bounded = bound;
        })

  pub finalize-Closed :
      (now : ℕ) (status : QuizAttemptStatus) (page : Page) (desk back : Desk fl.F)
      → is_terminal status ≡ true
      → OnTrack desk.attempt
      → Closed (desk_after back (finalize fl now status page desk)).attempt
  finalize-Closed now status page desk back terminal h =
      finalize-Aligned now status page desk back terminal h.distinct h.aligned
