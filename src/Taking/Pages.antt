-- ===== src/Taking/Pages.antt =====
-- api/routes/student_quiz.py: the requests of a student who sits an attempt, each at one moment `now`:
-- `show_quiz`, `answer_question`, `submit_quiz`, `request_air_raid_pause`, `resume_after_air_raid` and
-- `report_violation`. The attempt is found, so the 404s are left out.
pub mod Track
pub mod Ended
pub mod Handled
pub mod Served
use submissions_checker.Prelude.{
  ℕ, ◌+◌, ◌*◌, Bool, true, false, not, ◌&&◌, ◌||◌, Option, none, some, List, [], ◌∷◌, ◌++◌, map,
  Codes, ◌==◌, if◌then◌else◌, is_some, ℤ, pos, negsuc, ℤ_eq,
}
use submissions_checker.Quiz.Attempt.{
  QuizAnswer, QuizAttemptStatus, is_terminal, completed, timed_out, violation_fail,
}
use submissions_checker.Quiz.Scoring.{Floats}
use submissions_checker.Quiz.Regrade.{RegradeTables}
use submissions_checker.Taking.{TakenAttempt, Question, multiple_choice, ordering}
use submissions_checker.Taking.Clock.{is_timed_out, current_question, close_open_pause}
use submissions_checker.Taking.Expiry.{advance_expired}
use submissions_checker.Taking.Answer.{Texts, RawAnswer, text, texts, Graded, grade_answer}
use submissions_checker.Taking.Finish.{QuizEffect, grade_and_finalize}
use submissions_checker.Taking.Events.{
  QuizAttemptEvent, assert_attempt_owner, event_type_matches, handle_event,
}
use submissions_checker.Taking.Desk.{
  Form, AlertAnswer, bad_request, unavailable, outside_coverage, no_alert, active, Desk, Page,
  to_consent, to_result, to_quiz, paused_page, step_page, full_page, pause_started, pause_refused,
  event_recorded, PageOutcome, refused, raised, raised_after, shown, raw_of, put, open_question,
  resume_after_air_raid, report_event,
}

module _ (t : Texts) where
  -- `int(str(form.get("index", "-1")))`, and -1 for a ValueError.
  unfoldable pub posted_index : Form → ℤ
  posted_index form = elim (t.int form.index) [ none ↦ negsuc 0 | some n ↦ n ]

  unfoldable pub quiz_answer : ℕ → Form → Question → QuizAnswer
  unfolding raw_of grade_answer
  quiz_answer attempt_id form q =
      let g = grade_answer t q (raw_of form q) in
      record {
        attempt_id = attempt_id;
        question_id = q.id;
        is_correct = some g.is_correct;
        points_earned = some g.points_earned;
        timed_out = false;
      }

  module _ {ℓ} {F : Type ℓ} where
    -- The current question is answered and the attempt moves on.
    unfoldable pub save_answer : ℕ → Form → Question → TakenAttempt F → TakenAttempt F
    unfolding quiz_answer
    save_answer now form q s = record s {
      answers = s.answers ++ quiz_answer s.id form q ∷ [];
      current_index = s.current_index + 1;
      question_started_at = some now;
    }

    -- What a post does once the expired questions are burned.
    unfoldable pub answer_current : ℕ → Form → TakenAttempt F → ℕ → TakenAttempt F
    unfolding posted_index save_answer
    answer_current now form s expired = elim (current_question s) [
      | none ↦ s
      | some q ↦
          if expired == 0 && ℤ_eq (posted_index form) (pos s.current_index)
          then save_answer now form q s
          else s
    ]

    unfoldable pub replace_answers : Form → TakenAttempt F → TakenAttempt F
    unfolding quiz_answer
    replace_answers form s = record s { answers = map (quiz_answer s.id form) s.questions_snapshot }

module _ {ℓ} {F : Type ℓ} where
  unfoldable pub final_status : ℕ → TakenAttempt F → QuizAttemptStatus
  final_status now s =
      if s.violations.force_fail
      then violation_fail
      else if is_timed_out now s
      then timed_out
      else completed

  -- An error after these rows were committed keeps them.
  unfoldable pub after_commit : Desk F → PageOutcome F → PageOutcome F
  after_commit committed raised = raised_after committed
  after_commit committed outcome = outcome

  -- The clock is settled by now: the pause starts only under an alert.
  unfoldable pub start_pause : ℕ → AlertAnswer → Desk F → Desk F → PageOutcome F
  unfolding put
  start_pause now bad_request committed desk = refused committed
  start_pause now active committed desk =
      shown (put (record desk.attempt { paused_at = some now }) desk) pause_started
  start_pause now _ committed desk = shown desk pause_refused

module _ (fl : Floats) where
  open fl use {F}

  unfoldable pub finalize : ℕ → QuizAttemptStatus → Page → Desk F → PageOutcome F
  unfolding grade_and_finalize
  finalize now status page desk =
      elim (grade_and_finalize fl now status desk.tables desk.effects desk.attempt) [
        | none ↦ raised
        | some (s, tables, effects) ↦
            shown (record desk { attempt = s; tables = tables; effects = effects }) page
      ]

  -- A stepped attempt with no question left is finished; otherwise the page is shown.
  unfoldable pub finish_or : ℕ → Page → Page → Desk F → PageOutcome F
  unfolding finalize
  finish_or now closed page desk = elim (current_question desk.attempt) [
    | none ↦ finalize now completed closed desk
    | some q ↦ shown desk page
  ]

  -- The page of a question of a stepped attempt: what has expired is burned first.
  unfoldable pub show_step : ℕ → Desk F → PageOutcome F
  unfolding finish_or put open_question advance_expired after_commit
  show_step now desk =
      let (s, burned) = advance_expired now desk.attempt in
      let committed = if burned == 0 then desk else put s desk in
      elim (current_question s) [
        | none ↦ after_commit committed (finish_or now to_result step_page (put s desk))
        | some q ↦ shown (put (open_question now s) desk) step_page
      ]

  unfoldable pub show_quiz : Bool → ℕ → Desk F → PageOutcome F
  unfolding finalize show_step
  show_quiz consented now desk =
      let s = desk.attempt in
      if not consented
      then shown desk to_consent
      else if is_terminal s.status
      then shown desk to_result
      else if s.violations.force_fail
      then finalize now violation_fail to_result desk
      else if is_some s.paused_at
      then shown desk paused_page
      else if is_timed_out now s
      then finalize now timed_out to_result desk
      else if s.per_question_timing
      then show_step now desk
      else shown desk full_page

  unfoldable pub settle_and_pause : ℕ → AlertAnswer → Desk F → PageOutcome F
  unfolding start_pause finalize put advance_expired after_commit
  settle_and_pause now alert desk =
      let (s, burned) = advance_expired now desk.attempt in
      let committed = if burned == 0 then desk else put s desk in
      elim (current_question s) [
        | none ↦ after_commit committed (finalize now completed pause_refused (put s desk))
        | some q ↦ start_pause now alert committed (put s desk)
      ]

  unfoldable pub request_air_raid_pause : ℕ → AlertAnswer → Desk F → PageOutcome F
  unfolding settle_and_pause start_pause finalize
  request_air_raid_pause now alert desk =
      let s = desk.attempt in
      if is_terminal s.status
      then shown desk pause_refused
      else if is_some s.paused_at
      then shown desk pause_started
      else if is_timed_out now s
      then finalize now timed_out pause_refused desk
      else if s.per_question_timing
      then settle_and_pause now alert desk
      else start_pause now alert desk desk

module _ (fl : Floats) (t : Texts) where
  open fl use {F}

  unfoldable pub answer_question : ℕ → Form → Desk F → PageOutcome F
  unfolding finalize finish_or answer_current put advance_expired
  answer_question now form desk =
      let s = desk.attempt in
      let (advanced, expired) = advance_expired now s in
      if is_terminal s.status
      then shown desk to_result
      else if not s.per_question_timing || is_some s.paused_at
      then shown desk to_quiz
      else if s.violations.force_fail
      then finalize fl now violation_fail to_result desk
      else finish_or fl now to_result to_quiz
          (put (answer_current t now form advanced expired) desk)

  unfoldable pub submit_quiz : ℕ → Form → Desk F → PageOutcome F
  unfolding finalize replace_answers final_status put
  submit_quiz now form desk =
      let s = desk.attempt in
      if is_terminal s.status
      then shown desk to_result
      else if s.per_question_timing || is_some s.paused_at
      then shown desk to_quiz
      else finalize fl now (final_status now s) to_result (put (replace_answers t form s) desk)

-- One request, by the student with this id.
pub data Request : Type 0 where
  show : Bool → Request
  answer : Form → Request
  submit : Form → Request
  pause : AlertAnswer → Request
  resume : Request
  event : Codes → Request

module _ {ℓ} {F : Type ℓ} where
  -- An error of Python rolls the session back.
  unfoldable pub desk_after : Desk F → PageOutcome F → Desk F
  desk_after desk (shown desk' page) = desk'
  desk_after desk (refused desk') = desk'
  desk_after desk (raised_after desk') = desk'
  desk_after desk raised = desk

module _ (fl : Floats) (t : Texts) (is_informational : Codes → Bool) where
  open fl use {F}

  unfoldable pub route : ℕ → Request → Desk F → PageOutcome F
  unfolding show_quiz answer_question submit_quiz request_air_raid_pause resume_after_air_raid
      report_event
  route now (show consented) desk = show_quiz fl consented now desk
  route now (answer form) desk = answer_question fl t now form desk
  route now (submit form) desk = submit_quiz fl t now form desk
  route now (pause alert) desk = request_air_raid_pause fl now alert desk
  route now resume desk = resume_after_air_raid now desk
  route now (event event_type) desk = report_event is_informational now event_type desk

  unfoldable pub handle : ℕ → ℕ → Request → Desk F → PageOutcome F
  unfolding route assert_attempt_owner
  handle student_id now request desk =
      if assert_attempt_owner desk.tables desk.attempt student_id
      then route now request desk
      else refused desk

  -- Requests in the order in which they are served, each with its student and its moment.
  unfoldable pub serve : List (ℕ × ℕ × Request) → Desk F → Desk F
  unfolding handle desk_after
  serve [] desk = desk
  serve ((student_id, now, request) ∷ requests) desk =
      serve requests (desk_after desk (handle student_id now request desk))
