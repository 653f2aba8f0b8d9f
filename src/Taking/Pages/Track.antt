-- ===== src/Taking/Pages/Track.antt =====
-- api/routes/student_quiz.py: an attempt that is under way has its answers in the order of its
-- questions, one for each question up to the current one.
use submissions_checker.Prelude.{
  ℕ, zero, suc, ◌+◌, ◌*◌, ◌≤◌, ◌≡◌, refl, sym, subst, false, Option, some, List, [], ◌∷◌, ◌++◌,
  arith, map, length, inl, inr, Option-cases, Bool-cases, or_zero, ◌==◌, leb, length-append,
}
use submissions_checker.Quiz.Attempt.{QuestionSnapshot, QuizAnswer, is_terminal}
use submissions_checker.Quiz.Scoring.{has_answer}
use submissions_checker.Quiz.Scoring.Bounds.{Fits, worth}
use submissions_checker.Quiz.Scoring.Credit.{Distinct, in_snapshot}
use submissions_checker.Taking.{TakenAttempt, Question, entry, second}
use submissions_checker.Taking.Clock.{question_at}
use submissions_checker.Taking.Events.{max_distinct_event_types}
use submissions_checker.Taking.Expiry.Windows.{advance_unpaused, advance_paused}
use submissions_checker.Taking.Expiry.{
  drop, timed_out_answer, record_timed_out, burn, advance_loop, advance_expired,
  question_grace_seconds,
}

-- The answers stand for the first questions, in their order, and none earns more than its question is
-- worth.
unfoldable pub Aligned : List Question → List QuizAnswer → Type 0
Aligned qs [] = Unit
Aligned [] (a ∷ rest) = ⊥
Aligned (q ∷ qs) (a ∷ rest) =
    (a.question_id ≡ q.id) × (or_zero a.points_earned ≤ q.points) × Aligned qs rest

Aligned-append :
    (qs : List Question) (rows : List QuizAnswer) (q : Question) (a : QuizAnswer)
    → Aligned qs rows
    → question_at (length rows) qs ≡ some q
    → a.question_id ≡ q.id
    → or_zero a.points_earned ≤ q.points
    → Aligned qs (rows ++ a ∷ [])
unfolding Aligned question_at
Aligned-append [] [] q a h e i p = absurd (ground arith)
Aligned-append (r ∷ qs) [] q a h e i p = ground arith
Aligned-append [] (b ∷ rows) q a h e i p = h
Aligned-append (r ∷ qs) (b ∷ rows) q a h e i p = (h.0, h.1, Aligned-append qs rows q a h.2 e i p)

-- An answer of a question that is not in the snapshot is not among aligned rows.
has_answer-Aligned :
    (i : ℕ) (qs : List Question) (rows : List QuizAnswer)
    → Aligned qs rows
    → in_snapshot i (map entry qs) ≡ false
    → has_answer i rows ≡ false
unfolding Aligned in_snapshot has_answer entry
has_answer-Aligned i qs [] h n = refl
has_answer-Aligned i [] (a ∷ rows) h n = absurd h
has_answer-Aligned i (q ∷ qs) (a ∷ rows) h n = ground (arith, has_answer-Aligned i qs rows h.2)

Fits-cons :
    (q : QuestionSnapshot) (i : ℕ) (qs : List QuestionSnapshot) (rows : List QuizAnswer)
    → q.id ≡ some i
    → has_answer i rows ≡ false
    → Fits qs rows
    → Fits (q ∷ qs) rows
unfolding worth has_answer
Fits-cons q i qs [] e h f = tt
Fits-cons q i qs (a ∷ rows) e h f = ground (arith, Fits-cons q i qs rows e)

-- Aligned rows of a snapshot that has each question once fit it.
pub Aligned-Fits :
    (qs : List Question) (rows : List QuizAnswer)
    → Distinct (map entry qs)
    → Aligned qs rows
    → Fits (map entry qs) rows
unfolding Aligned worth entry in_snapshot
Aligned-Fits qs [] d h = tt
Aligned-Fits [] (a ∷ rows) d h = absurd h
Aligned-Fits (q ∷ qs) (a ∷ rows) d h =
    let unanswered = has_answer-Aligned q.id qs rows h.2 d.0 in
    ground (
      arith,
      unanswered,
      d,
      h,
      Fits-cons (entry q) q.id (map entry qs) rows refl unanswered (Aligned-Fits qs rows d.1 h.2),
    )

question_at-drop :
    (i : ℕ) (q : Question) (qs rest : List Question)
    → drop i qs ≡ q ∷ rest
    → (question_at i qs ≡ some q) × (drop (i + 1) qs ≡ rest)
unfolding drop question_at
question_at-drop zero q [] rest e = absurd (ground arith)
question_at-drop zero q (r ∷ qs) rest e = ground arith
question_at-drop (suc i) q [] rest e = absurd (ground arith)
question_at-drop (suc i) q (r ∷ qs) rest e =
    let shift : suc i + 1 ≡ suc (i + 1) = omega arith in rw shift (question_at-drop i q qs rest e)

module _ {ℓ} {F : Type ℓ} where
  -- An attempt that is under way.
  pub record OnTrack (s : TakenAttempt F) : Type 0 where
    pub going : is_terminal s.status ≡ false
    pub counted : length s.violations.counts ≤ max_distinct_event_types
    pub distinct : Distinct (map entry s.questions_snapshot)
    pub aligned : Aligned s.questions_snapshot s.answers
    pub index : length s.answers ≡ s.current_index

  -- One more answer, for the current question.
  pub OnTrack-append :
      (s : TakenAttempt F) (q : Question) (a : QuizAnswer) (anchor : Option ℕ)
      → OnTrack s
      → question_at s.current_index s.questions_snapshot ≡ some q
      → a.question_id ≡ q.id
      → or_zero a.points_earned ≤ q.points
      → OnTrack (record s {
        answers = s.answers ++ a ∷ [];
        current_index = s.current_index + 1;
        question_started_at = anchor;
      })
  OnTrack-append s q a anchor h e i p = record {
    going = h.going;
    counted = h.counted;
    distinct = h.distinct;
    aligned = Aligned-append s.questions_snapshot s.answers q a h.aligned (rw h.index e) i p;
    index = ground (arith, length-append s.answers (a ∷ []), h.index);
  }

  -- The clocks of an attempt that is under way.
  pub OnTrack-anchor :
      (s : TakenAttempt F) (anchor : Option ℕ)
      → OnTrack s
      → OnTrack (record s { question_started_at = anchor })
  OnTrack-anchor s anchor h = record {
    going = h.going;
    counted = h.counted;
    distinct = h.distinct;
    aligned = h.aligned;
    index = h.index;
  }

  burn-OnTrack :
      (s : TakenAttempt F) (q : Question) (limit started : ℕ)
      → OnTrack s
      → question_at s.current_index s.questions_snapshot ≡ some q
      → OnTrack (burn q limit started s)
  unfolding burn record_timed_out timed_out_answer
  burn-OnTrack s q limit started h e =
      OnTrack-append s q (timed_out_answer s.id q) (some (started + limit * second)) h e refl
        (omega arith)

  advance_loop-OnTrack :
      (now : ℕ) (rest : List Question) (s : TakenAttempt F)
      → drop s.current_index s.questions_snapshot ≡ rest
      → OnTrack s
      → OnTrack (advance_loop now rest s).0
  unfolding advance_loop
  advance_loop-OnTrack now [] s e h = h
  advance_loop-OnTrack now (q ∷ rest) s e h =
      let l : ℕ = or_zero q.time_limit_seconds in
      let (at, next) = question_at-drop s.current_index q s.questions_snapshot rest e in
      elim (Bool-cases (l == 0)) [
        | inl free ↦ rw free h
        | inr timed ↦ elim (Option-cases s.question_started_at) [
          | inl n ↦
              let opens : advance_loop now (q ∷ rest) s
                  ≡ (record s { question_started_at = some now }, 0) =
                grind (arith, timed, n) in
              subst (λ r. OnTrack r.0) (sym opens) (OnTrack-anchor s (some now) h)
          | inr (started, f) ↦
              elim (Bool-cases (leb now (started + (l + question_grace_seconds) * second))) [
                | inl open_ ↦
                    let stays : advance_loop now (q ∷ rest) s ≡ (s, 0) =
                      grind (arith, timed, f, open_) in
                    subst (λ r. OnTrack r.0) (sym stays) h
                | inr over ↦
                    let burns : (advance_loop now (q ∷ rest) s).0
                        ≡ (advance_loop now rest (burn q l started s)).0 =
                      grind (arith, timed, f, over) in
                    subst (λ r. OnTrack r) (sym burns)
                      (advance_loop-OnTrack now rest (burn q l started s) next
                        (burn-OnTrack s q l started h at))
              ]
        ]
      ]

  pub advance_expired-OnTrack :
      (now : ℕ) (s : TakenAttempt F) → OnTrack s → OnTrack (advance_expired now s).0
  unfolding advance_expired
  advance_expired-OnTrack now s h =
      let loop = advance_loop-OnTrack now (drop s.current_index s.questions_snapshot) s refl h in
      elim (Option-cases s.paused_at) [
        | inl n ↦ subst (λ r. OnTrack r.0) (sym (advance_unpaused now s n)) loop
        | inr (p, e) ↦ subst (λ r. OnTrack r.0) (sym (advance_paused now s e)) h
      ]
