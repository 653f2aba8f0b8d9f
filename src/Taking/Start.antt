-- ===== src/Taking/Start.antt =====
-- api/routes/student_quiz.py `start_or_resume_quiz`: an attempt is resumed, refused or created. The
-- submission that `squads.latest_submission` or `quiz_open.open_quiz_submission` found is an argument.

pub mod Capped
mod Examples
use submissions_checker.Prelude.{
  ℕ, ◌⊎◌, inl, inr, suc, ◌+◌, Bool, true, false, not, ◌&&◌, ◌||◌, Option, none, some, List, [], ◌∷◌,
  ◌++◌, any, count, find, filter, leb, ltb, ◌==◌, if◌then◌else◌, is_true, is_some, or_zero, reverse,
}
use submissions_checker.Submission.{Submission, SubmissionStatus}
use submissions_checker.Squads.State.{Squad, Tables}
use submissions_checker.Quiz.Attempt.{QuizAttempt, QuizAttemptStatus, in_progress, is_terminal}
use submissions_checker.Quiz.Completion.{squad_for_submission}
use submissions_checker.Quiz.Grants.{QuizTables, attempts_of, effective_max_attempts}
use submissions_checker.Taking.{TakenAttempt, Question, Rule}
use submissions_checker.Taking.Draw.{QuizConfig, select_question_ids, snapshot_questions}
use submissions_checker.Taking.Share.{
  SquadDraw, Shuffles, DrawOutcome, drawn, squad_changed, failed, draw_for_member,
}
use submissions_checker.Taking.Finish.{is_quiz_sent}

-- The pinned configuration of the assignment, with the keys of `quiz` that the route reads besides its
-- questions, and whether `review_mode` is "quiz_then_teacher".
pub record QuizSetup {ℓ} (F : Type ℓ) : Type ℓ where
  pub config_id : ℕ
  pub version : ℕ
  pub quiz : QuizConfig
  pub max_quiz_attempts : Option ℕ
  pub pass_threshold_pct : F
  pub time_limit_minutes : Option ℕ
  pub rules : List Rule
  pub quiz_then_teacher : Bool

-- What the route answers. `unavailable` is its 403, 404 or 503; `exhausted` sends to the last attempt,
-- or is the 403 without one; the last two come from the draw.
pub data StartOutcome {ℓ} (F : Type ℓ) : Type ℓ where
  to_consent : StartOutcome F
  unavailable : StartOutcome F
  resumed : ℕ → StartOutcome F
  already_passed : ℕ → StartOutcome F
  exhausted : Option ℕ → StartOutcome F
  started : TakenAttempt F → Option SquadDraw → StartOutcome F
  draw_refused : StartOutcome F
  draw_failed : StartOutcome F

unfoldable pub is_timed : Question → Bool
is_timed q = not (or_zero q.time_limit_seconds == 0)

unfoldable pub has_capacity : Option ℕ → ℕ → Bool
has_capacity none used = true
has_capacity (some allowed) used = not (leb allowed used)

module _ (sh : Shuffles) where
  -- The questions of a student without a squad, or of a member of one.
  unfoldable pub draw_questions :
      QuizConfig → Option Squad → ℕ → Bool → Option SquadDraw → DrawOutcome ⊎ Option (List Question)
  unfolding draw_for_member snapshot_questions select_question_ids
  draw_questions cfg none student_id retry stored =
      inr (snapshot_questions cfg sh.options (select_question_ids sh.shuffle sh.reshuffle cfg))
  draw_questions cfg (some squad) student_id retry stored =
      inl (draw_for_member sh cfg squad.members student_id retry stored)

module _ {ℓ} {F : Type ℓ} where
  unfoldable pub used_count : List (QuizAttempt F) → ℕ
  used_count existing = count (λ a. is_terminal a.status) existing

  -- `next((a for a in existing if a.status == IN_PROGRESS), None)`
  unfoldable pub running : List (QuizAttempt F) → Option (QuizAttempt F)
  running existing = find (λ a. not (is_terminal a.status)) existing

  unfoldable pub passed : List (QuizAttempt F) → Option (QuizAttempt F)
  passed existing = find (λ a. is_true a.is_passed) existing

  unfoldable pub last_id : List (QuizAttempt F) → Option ℕ
  last_id [] = none
  last_id (a ∷ []) = some a.id
  last_id (a ∷ b ∷ rest) = last_id (b ∷ rest)

  -- `QuizAttempt(...)`
  unfoldable pub new_attempt : ℕ → ℕ → Submission → ℕ → QuizSetup F → List Question → TakenAttempt F
  unfolding is_timed
  new_attempt id now sub student_id setup questions =
      let timed = any is_timed questions in
      record {
        id = id;
        submission_id = sub.id;
        student_id = some student_id;
        plugin_config_id = some setup.config_id;
        plugin_config_version = some setup.version;
        pass_threshold_pct = some setup.pass_threshold_pct;
        quiz_then_teacher = setup.quiz_then_teacher;
        max_quiz_attempts = setup.max_quiz_attempts;
        time_limit_minutes = or_zero setup.time_limit_minutes;
        per_question_timing = timed;
        rules = setup.rules;
        questions_snapshot = questions;
        answers = [];
        violations = record {
          counts = [];
          force_fail = false;
          time_penalty_seconds = none;
          flagged_events = none;
        };
        current_index = 0;
        started_at = now;
        question_started_at = if timed then some now else none;
        paused_at = none;
        paused_seconds = 0;
        submitted_at = none;
        score = none;
        max_score = none;
        is_passed = none;
        status = in_progress;
      }

  module _ (sh : Shuffles) where
    -- The draw and the row, once nothing stands in the way.
    unfoldable pub create_attempt :
        ℕ
        → ℕ
        → Submission
        → ℕ
        → QuizSetup F
        → Option Squad
        → Bool
        → Option SquadDraw
        → StartOutcome F
    unfolding draw_questions new_attempt
    create_attempt id now sub student_id setup squad retry stored =
        elim (draw_questions sh setup.quiz squad student_id retry stored) [
          | inr none ↦ draw_failed
          | inr (some questions) ↦
              started (new_attempt id now sub student_id setup questions) stored
          | inl squad_changed ↦ draw_refused
          | inl failed ↦ draw_failed
          | inl (drawn draw questions snap) ↦
              started (new_attempt id now sub student_id setup questions) (some draw)
        ]

    -- `setup` is `none` where the config, its assignment or its questions are missing.
    unfoldable pub start_or_resume_quiz :
        Bool
        → QuizTables F
        → ℕ
        → ℕ
        → Option Submission
        → ℕ
        → Option (QuizSetup F)
        → Option SquadDraw
        → StartOutcome F
    unfolding running passed last_id used_count has_capacity create_attempt is_quiz_sent
    start_or_resume_quiz consented db id now latest student_id setup stored =
        if not consented then to_consent else elim latest [
          | none ↦ unavailable
          | some sub ↦
              if not (is_quiz_sent sub.status)
              then unavailable
              else let existing = attempts_of db sub student_id in
                elim (running existing) [
                  | some a ↦ resumed a.id
                  | none ↦ elim (passed existing) [
                    | some a ↦ already_passed a.id
                    | none ↦ elim setup [
                      | none ↦ unavailable
                      | some s ↦
                          let used = used_count existing in
                          if has_capacity
                            (effective_max_attempts s.max_quiz_attempts sub (some student_id)) used
                          then create_attempt id now sub student_id s
                              (squad_for_submission db.squad_tables sub) (ltb 0 used) stored
                          else exhausted (last_id existing)
                    ]
                  ]
                ]
        ]
