-- ===== src/Taking/Desk.antt =====
-- api/routes/student_quiz.py: what the requests of a student read and leave, and the two that touch the
-- clock and the events alone: `resume_after_air_raid` and `report_violation`.
use submissions_checker.Prelude.{ℕ, Bool, Option, none, some, List, Codes, if◌then◌else◌, is_some}
use submissions_checker.Quiz.Regrade.{RegradeTables}
use submissions_checker.Taking.{TakenAttempt, Question, multiple_choice, ordering}
use submissions_checker.Taking.Clock.{close_open_pause}
use submissions_checker.Taking.Answer.{RawAnswer, text, texts}
use submissions_checker.Taking.Finish.{QuizEffect}
use submissions_checker.Taking.Events.{QuizAttemptEvent, event_type_matches, handle_event}

-- The fields of a form: the posted index ("-1" without it), and for a question the values of
-- `form.get("answer_{id}")`, `form.getlist("answer_{id}")` and `form.get("answer_ordering_{id}")`.
pub record Form : Type 0 where
  pub index : Codes
  pub answer : ℕ → Codes
  pub answers : ℕ → List Codes
  pub answer_ordering : ℕ → Codes

-- What the body of a pause and the provider of alerts say, in the order in which the route asks.
pub data AlertAnswer : Type 0 where
  bad_request unavailable outside_coverage no_alert active : AlertAnswer

-- The attempt with the rows around it.
pub record Desk {ℓ} (F : Type ℓ) : Type ℓ where
  pub attempt : TakenAttempt F
  pub tables : RegradeTables F
  pub effects : List QuizEffect
  pub rows : List QuizAttemptEvent

-- Where the answer of a request sends the browser, or what it shows.
pub data Page : Type 0 where
  to_consent to_result to_quiz paused_page step_page full_page : Page
  pause_started pause_refused event_recorded : Page

-- `refused` stands for an HTTPException (400, 403), with the rows as the last commit left them, and
-- `raised` for an error of Python, `raised_after` where rows were committed before it. The session commits
-- at the end of any other request (get_db).
pub data PageOutcome {ℓ} (F : Type ℓ) : Type ℓ where
  refused : Desk F → PageOutcome F
  raised : PageOutcome F
  raised_after : Desk F → PageOutcome F
  shown : Desk F → Page → PageOutcome F

unfoldable pub raw_of : Form → Question → RawAnswer
raw_of form q = elim q.body [
  | multiple_choice options correct ↦ texts (form.answers q.id)
  | ordering items order ↦ text (form.answer_ordering q.id)
  | _ ↦ text (form.answer q.id)
]

module _ {ℓ} {F : Type ℓ} where
  unfoldable pub put : TakenAttempt F → Desk F → Desk F
  put s desk = record desk { attempt = s }

  -- A question that has no anchor yet gets one when its page is shown.
  unfoldable pub open_question : ℕ → TakenAttempt F → TakenAttempt F
  open_question now s =
      let anchor : Option ℕ = elim s.question_started_at [ none ↦ some now | some q ↦ some q ] in
      record s { question_started_at = anchor }

  unfoldable pub resume_after_air_raid : ℕ → Desk F → PageOutcome F
  unfolding put close_open_pause
  resume_after_air_raid now desk =
      if is_some desk.attempt.paused_at
      then shown (put (close_open_pause now desk.attempt).0 desk) to_quiz
      else shown desk to_quiz

  unfoldable pub report_event : (Codes → Bool) → ℕ → Codes → Desk F → PageOutcome F
  unfolding event_type_matches handle_event
  report_event is_informational now event_type desk =
      let (s, rows, response) =
        handle_event is_informational now event_type desk.attempt desk.rows in
      if event_type_matches event_type
      then shown (record desk { attempt = s; rows = rows }) event_recorded
      else refused desk
