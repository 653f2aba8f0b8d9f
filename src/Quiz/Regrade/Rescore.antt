-- ===== src/Quiz/Regrade/Rescore.antt =====
-- services/quiz_regrade.py `regrade_question`: which rows a ruling may
-- change, and that it only ever helps.
use submissions_checker.Prelude.{
  ℕ, ◌≤◌, ◌≡◌, refl, ◌∙◌, Bool, true, false, ◌&&◌, Option, some, List, [], ◌∷◌, arith, Bool-cases,
  Option-cases, inl, inr, not, any, is_true, opt_eq,
}
use submissions_checker.Quiz.Attempt.{
  QuizAttempt, completed, timed_out, in_progress, violation_fail,
}
use submissions_checker.Quiz.Scoring.{
  Floats, Scored, scored, apply_question_overrides, score_attempt,
}
use submissions_checker.Quiz.Scoring.Bounds.{Fits}
use submissions_checker.Quiz.Scoring.Credit.{Distinct}
use submissions_checker.Quiz.Scoring.Overrides.{score-apply, apply_frame}
use submissions_checker.Quiz.Regrade.{
  RegradeTables, AttemptRescore, is_candidate, is_regradable, saw_question, rescore, regrade_loop,
  regrade_question,
}

-- Two lists of the same length, related place by place.
pub data Pointwise {ℓ κ} {A : Type ℓ} (R : A → A → Type κ) : List A → List A → Type (ℓ ⊔ κ) where
  nil : Pointwise R [] []
  cons : {a b : A} {as' bs : List A} → R a b → Pointwise R as' bs → Pointwise R (a ∷ as') (b ∷ bs)

module _ (fl : Floats) where
  open fl use {F}

  -- The attempts that a ruling is for: of this config version, finished without a violation, not
  -- passed, and with the question in the snapshot.
  abbrev pub reached : ℕ → ℕ → ℕ → QuizAttempt F → Bool
  reached config version question a =
      opt_eq a.plugin_config_id (some config)
      && opt_eq a.plugin_config_version (some version)
      && (elim a.status [
        | completed ↦ true
        | timed_out ↦ true
        | in_progress ↦ false
        | violation_fail ↦ false
      ])
      && not (is_true a.is_passed)
      && any (λ q. opt_eq q.id (some question)) a.questions_snapshot

  -- An attempt as it stood and as the regrade leaves it.
  pub record Regraded (config version question : ℕ) (a b : QuizAttempt F) : Type 0 where
    pub same_row : (b.id ≡ a.id) × (b.status ≡ a.status) × (b.student_id ≡ a.student_id)
    pub untouched : reached config version question a ≡ false → b ≡ a
    pub helped :
        reached config version question a ≡ true
        → Distinct a.questions_snapshot
        → Fits a.questions_snapshot a.answers
        → (s : Scored) → score_attempt fl a ≡ some s
        → (t : Scored) × (score_attempt fl b ≡ some t)
          × (b.score ≡ some t.score)
          × (b.is_passed ≡ some t.is_passed)
          × (s.score ≤ t.score)
          × (t.score ≤ t.max_score)

  chosen-reached :
      (config version question : ℕ) (a : QuizAttempt F)
      → (is_candidate config version a && saw_question question a)
        ≡ reached config version question a
  unfolding is_candidate is_regradable saw_question
  chosen-reached config version question a = ground arith

  -- The columns that a regrade writes are not read by the scoring rule.
  score_attempt-stored :
      (a : QuizAttempt F) (x y : Option ℕ) (z : Option Bool)
      → score_attempt fl (record a { score = x; max_score = y; is_passed = z }) ≡ score_attempt fl a
  unfolding score_attempt scored
  score_attempt-stored a x y z = refl

  rescore-stored :
      (db : RegradeTables F) (question : ℕ) (a b : QuizAttempt F) (r : AttemptRescore)
      → rescore fl db question a ≡ some (b, r)
      → (t : Scored) × (score_attempt fl (apply_question_overrides a (question ∷ [])).0 ≡ some t)
        × (b ≡ record (apply_question_overrides a (question ∷ [])).0 {
          score = some t.score;
          max_score = some t.max_score;
          is_passed = some t.is_passed;
        })
  unfolding rescore
  rescore-stored db question a b r e =
      elim (Option-cases (score_attempt fl (apply_question_overrides a (question ∷ [])).0)) [
        | inl n ↦ absurd (ground (arith, n))
        | inr (t, et) ↦ (t, et, ground (arith, et))
      ]

  rescore-Regraded :
      (db : RegradeTables F) (config version question : ℕ) (a b : QuizAttempt F)
      (r : AttemptRescore)
      → (is_candidate config version a && saw_question question a) ≡ true
      → rescore fl db question a ≡ some (b, r)
      → Regraded config version question a b
  rescore-Regraded db config version question a b r c e =
      let credited = (apply_question_overrides a (question ∷ [])).0 in
      let (t, et, eb) = rescore-stored db question a b r e in
      record {
        same_row = rw (eb, apply_frame a (question ∷ [])) (refl, refl, refl);
        untouched = λ h. absurd (ground (arith, chosen-reached config version question a));
        helped = λ k d f s es.
            let (u, eu, m, le, bound, p) = score-apply fl a (question ∷ []) d f es in
            let same : t ≡ u = ground (arith, et, eu) in
            (
              t,
              rw eb (
                  score_attempt-stored credited (some t.score) (some t.max_score) (some t.is_passed)
                  ∙ et),
              rw eb refl,
              rw eb refl,
              ground (arith, same, le),
              ground (arith, same, bound),
            );
      }

  kept-Regraded :
      (config version question : ℕ) (a : QuizAttempt F)
      → (is_candidate config version a && saw_question question a) ≡ false
      → Regraded config version question a a
  kept-Regraded config version question a c = record {
    same_row = (refl, refl, refl);
    untouched = λ h. refl;
    helped = λ h. absurd (ground (arith, chosen-reached config version question a));
  }

  regrade_loop-Regraded :
      (db : RegradeTables F) (config version question : ℕ) (as' bs : List (QuizAttempt F))
      (rs : List AttemptRescore)
      → regrade_loop fl db config version question as' ≡ some (bs, rs)
      → Pointwise (Regraded config version question) as' bs
  unfolding regrade_loop
  regrade_loop-Regraded db config version question [] bs rs e =
      let none_left : bs ≡ [] = ground arith in rw none_left nil
  regrade_loop-Regraded db config version question (a ∷ as') bs rs e =
      elim (Option-cases (regrade_loop fl db config version question as')) [
        | inl n ↦ absurd (ground (arith, n))
        | inr ((rows, entries), er) ↦
            let rest = regrade_loop-Regraded db config version question as' rows entries er in
            elim (Bool-cases (is_candidate config version a && saw_question question a)) [
              | inr out ↦
                  let eq : bs ≡ a ∷ rows = ground (arith, er, out) in
                  rw eq (cons (kept-Regraded config version question a out) rest)
              | inl chosen ↦ elim (Option-cases (rescore fl db question a)) [
                | inl n ↦ absurd (ground (arith, er, chosen, n))
                | inr ((b, r), eb) ↦
                    let eq : bs ≡ b ∷ rows = ground (arith, er, chosen, eb) in
                    rw eq (cons (rescore-Regraded db config version question a b r chosen eb) rest)
              ]
            ]
      ]

  -- A regrade of a question leaves every attempt as it was that is not of that config version, is
  -- still running, failed for a violation, has passed, or did not draw the question. The others keep
  -- their status, and where the answers of one fit its snapshot, it stores the score and the result
  -- that its answers now give: at least the score they gave before, at most the maximum.
  pub regrade_question-Regraded :
      (db db' : RegradeTables F) (config version question : ℕ) (rs : List AttemptRescore)
      → regrade_question fl db config version question ≡ some (db', rs)
      → Pointwise (Regraded config version question) db.attempts db'.attempts
  unfolding regrade_question
  regrade_question-Regraded db db' config version question rs e =
      elim (Option-cases (regrade_loop fl db config version question db.attempts)) [
        | inl n ↦ absurd (ground (arith, n))
        | inr ((rows, entries), er) ↦
            let eq : db'.attempts ≡ rows = ground (arith, er) in
            rw eq (regrade_loop-Regraded db config version question db.attempts rows entries er)
      ]
