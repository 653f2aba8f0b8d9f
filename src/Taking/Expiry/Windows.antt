-- ===== src/Taking/Expiry/Windows.antt =====
-- api/routes/student_quiz.py `_advance_expired`: which questions it burns, and that a second call at
-- the same moment burns no more.
use submissions_checker.Prelude.{
  ℕ, zero, suc, ◌+◌, ◌*◌, ◌≡◌, refl, ◌⊎◌, subst, sym, ap, ◌∙◌, ◌==◌, true, Option, none, some, List,
  [], ◌∷◌, ◌++◌, map, arith, leb, if◌then◌else◌, or_zero, Option-cases, Bool-cases, inl, inr,
}
use mathlib.Core.List.{append-nil, append_assoc}
use submissions_checker.Quiz.Attempt.{QuizAnswer}
use submissions_checker.Taking.{TakenAttempt, Question, second}
use submissions_checker.Taking.Expiry.{
  question_grace_seconds, drop, timed_out_answer, record_timed_out, burn, advance_loop,
  advance_expired,
}

-- How many of the questions have closed at `now`, when the first of them was opened at `started`: each
-- window opens where the one before it ended, and a question closes once its limit and the grace are
-- over.
unfoldable pub closed : ℕ → ℕ → List Question → ℕ
closed now started [] = 0
closed now started (q ∷ qs) =
    let l = or_zero q.time_limit_seconds in
    let rest = closed now (started + l * second) qs in
    if l == 0
    then 0
    else if leb now (started + (l + question_grace_seconds) * second)
    then 0
    else suc rest

unfoldable pub take : ℕ → List Question → List Question
take zero qs = []
take (suc n) [] = []
take (suc n) (q ∷ qs) = q ∷ take n qs

-- The time that the windows of the first `n` questions take together, in seconds.
unfoldable pub windows : ℕ → List Question → ℕ
windows zero qs = 0
windows (suc n) [] = 0
windows (suc n) (q ∷ qs) = or_zero q.time_limit_seconds + windows n qs

module _ {ℓ} {F : Type ℓ} where
  -- The attempt with its next `n` questions burned, the first of which opened at `started`.
  unfoldable pub burned : ℕ → ℕ → List Question → TakenAttempt F → TakenAttempt F
  burned n started qs s = record s {
    answers = s.answers ++ map (timed_out_answer s.id) (take n qs);
    current_index = s.current_index + n;
    question_started_at = some (started + windows n qs * second);
  }

  -- The three columns that the loop writes.
  columns :
      (s : TakenAttempt F) {xs ys : List QuizAnswer} {i j : ℕ} {o p : Option ℕ}
      → xs ≡ ys
      → i ≡ j
      → o ≡ p
      → record s { answers = xs; current_index = i; question_started_at = o }
        ≡ record s { answers = ys; current_index = j; question_started_at = p }
  columns s a b c = rw (a, b, c) refl

  burned_none :
      (started : ℕ) (qs : List Question) (s : TakenAttempt F)
      → s.question_started_at ≡ some started
      → s ≡ burned 0 started qs s
  unfolding burned take windows
  burned_none started qs s e =
      columns s (sym (append-nil s.answers)) (omega arith) (ground (arith, e))

  burned-burn :
      (n started : ℕ) (q : Question) (qs : List Question) (s : TakenAttempt F)
      → burned n
          (started + or_zero q.time_limit_seconds * second)
          qs
          (burn q (or_zero q.time_limit_seconds) started s)
        ≡ burned (suc n) started (q ∷ qs) s
  unfolding burned take windows burn record_timed_out
  burned-burn n started q qs s =
      columns s (append_assoc s.answers (timed_out_answer s.id q ∷ []) _) (omega arith)
        (ground arith)

  advance_loop_open :
      (now started : ℕ) (q : Question) (qs : List Question) (s : TakenAttempt F)
      → s.question_started_at ≡ some started
      → leb now (started + (or_zero q.time_limit_seconds + question_grace_seconds) * second) ≡ true
      → advance_loop now (q ∷ qs) s ≡ (s, 0)
  unfolding advance_loop
  advance_loop_open now started q qs s e h = elim (Bool-cases (or_zero q.time_limit_seconds == 0)) [
    | inl free ↦ rw free refl
    | inr timed ↦ grind (arith, e, h, timed)
  ]

  advance_loop-closed :
      (now started : ℕ) (qs : List Question) (s : TakenAttempt F)
      → s.question_started_at ≡ some started
      → advance_loop now qs s ≡ (burned (closed now started qs) started qs s, closed now started qs)
  unfolding advance_loop closed
  advance_loop-closed now started [] s e = ap (λ t. (t, 0)) (burned_none started [] s e)
  advance_loop-closed now started (q ∷ qs) s e =
      let l : ℕ = or_zero q.time_limit_seconds in
      let stay : ◌≡◌ {A = TakenAttempt F × ℕ} (s, 0) (burned 0 started (q ∷ qs) s, 0) =
        ap (λ t. (t, 0)) (burned_none started (q ∷ qs) s e) in
      let later : advance_loop now qs (burn q l started s) ≡ (
        burned (closed now (started + l * second) qs) (started + l * second) qs
            (burn q l started s),
        closed now (started + l * second) qs,
      ) =
        advance_loop-closed now (started + l * second) qs (burn q l started s) refl in
      elim (Bool-cases (l == 0)) [
        | inl free ↦ ground (arith, stay)
        | inr timed ↦
            elim (Bool-cases (leb now (started + (l + question_grace_seconds) * second))) [
              | inl open_ ↦ ground (arith, advance_loop_open now started q qs s e open_, stay)
              | inr over ↦
                  ground (
                    arith,
                    later,
                    burned-burn (closed now (started + l * second) qs) started q qs s,
                  )
            ]
      ]

drop-drop : (i n : ℕ) (qs : List Question) → drop n (drop i qs) ≡ drop (i + n) qs
unfolding drop
drop-drop zero n qs = ap (λ k. drop k qs) (omega arith)
drop-drop (suc i) zero [] = let e : suc i + 0 ≡ suc i = omega arith in rw e refl
drop-drop (suc i) (suc n) [] = let e : suc i + suc n ≡ suc (i + suc n) = omega arith in rw e refl
drop-drop (suc i) n (q ∷ qs) =
    let e : suc i + n ≡ suc (i + n) = omega arith in rw e (drop-drop i n qs)

-- A window that has just opened is not closed.
closed_now : (now : ℕ) (qs : List Question) → closed now now qs ≡ 0
unfolding closed
closed_now now [] = refl
closed_now now (q ∷ qs) = ground arith

-- After the closed windows comes one that has not closed.
closed-drop :
    (now started : ℕ) (qs : List Question)
    → closed now
        (started + windows (closed now started qs) qs * second)
        (drop (closed now started qs) qs)
      ≡ 0
unfolding closed windows drop
closed-drop now started [] = refl
closed-drop now started (q ∷ qs) =
    let l : ℕ = or_zero q.time_limit_seconds in
    let n : ℕ = closed now (started + l * second) qs in
    let shift : started + (l + windows n qs) * second
        ≡ started + l * second + windows n qs * second =
      omega arith in
    ground (arith, shift, closed-drop now (started + l * second) qs)

module _ {ℓ} {F : Type ℓ} where
  -- A stepped attempt that is not paused and whose current question was opened at `started` loses
  -- exactly the questions whose windows have closed, where each window opens at the end of the one
  -- before it: each of them is recorded as timed out with no points, the attempt moves past them,
  -- and the question it comes to was opened when the last of those windows ended.
  pub advance_expired-closed :
      (now started : ℕ) (s : TakenAttempt F)
      → s.paused_at ≡ none
      → s.question_started_at ≡ some started
      → advance_expired now s ≡ (
        burned
            (closed now started (drop s.current_index s.questions_snapshot))
            started
            (drop s.current_index s.questions_snapshot)
            s,
        closed now started (drop s.current_index s.questions_snapshot),
      )
  unfolding advance_expired
  advance_expired-closed now started s p e =
      ground
        (arith, p, advance_loop-closed now started (drop s.current_index s.questions_snapshot) s e)

  burned_again :
      (now started : ℕ) (s : TakenAttempt F)
      → s.paused_at ≡ none
      → s.question_started_at ≡ some started
      → advance_expired now (advance_expired now s).0 ≡ ((advance_expired now s).0, 0)
  unfolding burned
  burned_again now started s p e =
      let rest : List Question = drop s.current_index s.questions_snapshot in
      let n : ℕ = closed now started rest in
      let s' : TakenAttempt F = burned n started rest s in
      let next : ℕ = started + windows n rest * second in
      let rest' : List Question = drop (s.current_index + n) s.questions_snapshot in
      let none_left : closed now next rest' ≡ 0 =
        subst (λ qs. closed now next qs ≡ 0) (drop-drop s.current_index n s.questions_snapshot)
          (closed-drop now started rest) in
      let again : advance_expired now s' ≡ (s', 0) =
        advance_expired-closed now next s' p refl
        ∙ ap (λ k. (burned k next rest' s', k)) none_left
        ∙ ap (λ t. (t, 0)) (sym (burned_none next rest' s' refl)) in
      let once : advance_expired now s ≡ (s', n) = advance_expired-closed now started s p e in
      subst (λ t. advance_expired now t ≡ (t, 0)) (sym (ap (λ r. r.0) once)) again

  -- With no window opened yet, the loop opens one or stops at once.
  advance_loop_first :
      (now : ℕ) (qs : List Question) (s : TakenAttempt F)
      → s.question_started_at ≡ none
      → (advance_loop now qs s ≡ (s, 0))
        ⊎ (advance_loop now qs s ≡ (record s { question_started_at = some now }, 0))
  unfolding advance_loop
  advance_loop_first now [] s e = inl refl
  advance_loop_first now (q ∷ qs) s e = elim (Bool-cases (or_zero q.time_limit_seconds == 0)) [
    | inl free ↦ inl (grind (arith, free))
    | inr timed ↦ inr (grind (arith, timed, e))
  ]

  pub advance_unpaused :
      (now : ℕ) (s : TakenAttempt F)
      → s.paused_at ≡ none
      → advance_expired now s ≡ advance_loop now (drop s.current_index s.questions_snapshot) s
  unfolding advance_expired
  advance_unpaused now s p = ground (arith, p)

  pub advance_paused :
      (now : ℕ) (s : TakenAttempt F) {p : ℕ} → s.paused_at ≡ some p → advance_expired now s ≡ (s, 0)
  unfolding advance_expired
  advance_paused now s e = ground (arith, e)

  same_again :
      (now : ℕ) (s t : TakenAttempt F)
      → advance_expired now s ≡ (t, 0)
      → advance_expired now t ≡ (t, 0)
      → advance_expired now (advance_expired now s).0 ≡ ((advance_expired now s).0, 0)
  same_again now s t once again =
      subst (λ u. advance_expired now u ≡ (u, 0)) (sym (ap (λ r. r.0) once)) again

  anchored_again :
      (now : ℕ) (s : TakenAttempt F)
      → s.paused_at ≡ none
      → s.question_started_at ≡ none
      → advance_expired now (advance_expired now s).0 ≡ ((advance_expired now s).0, 0)
  anchored_again now s p e =
      let rest : List Question = drop s.current_index s.questions_snapshot in
      let s' : TakenAttempt F = record s { question_started_at = some now } in
      let again : advance_expired now s' ≡ (s', 0) =
        advance_expired-closed now now s' p refl
        ∙ ap (λ k. (burned k now rest s', k)) (closed_now now rest)
        ∙ ap (λ t. (t, 0)) (sym (burned_none now rest s' refl)) in
      elim (advance_loop_first now rest s e) [
        | inl stop ↦
            same_again now s s (advance_unpaused now s p ∙ stop) (advance_unpaused now s p ∙ stop)
        | inr opens ↦ same_again now s s' (advance_unpaused now s p ∙ opens) again
      ]

  -- A second call at the same moment burns nothing and changes nothing.
  pub advance_expired-advance_expired :
      (now : ℕ) (s : TakenAttempt F)
      → advance_expired now (advance_expired now s).0 ≡ ((advance_expired now s).0, 0)
  advance_expired-advance_expired now s = elim (Option-cases s.paused_at) [
    | inr (p, e) ↦ same_again now s s (advance_paused now s e) (advance_paused now s e)
    | inl p ↦ elim (Option-cases s.question_started_at) [
      | inl e ↦ anchored_again now s p e
      | inr (started, e) ↦ burned_again now started s p e
    ]
  ]
