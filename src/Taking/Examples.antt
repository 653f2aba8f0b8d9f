-- ===== src/Taking/Examples.antt =====
-- The theorems of the quiz pages at a stepped attempt of two questions, with fractions for floats.
use submissions_checker.Prelude.{
  ℕ, ◌+◌, ◌-◌, ◌*◌, ◌≤◌, ◌<◌, ◌≡◌, refl, true, false, ◌&&◌, Option, none, some, List, [], ◌∷◌,
  arith, length, count, all, any, Codes, if◌then◌else◌, is_true, ◌==◌, ℤ, pos, inl,
}
use submissions_checker.Submission.{Submission, zip_upload, quiz_sent, failed}
use submissions_checker.Squads.State.{Tables, EntityType}
use submissions_checker.Quiz.Attempt.{in_progress, completed, is_terminal, violation_fail}
use submissions_checker.Quiz.Fractions.{Fraction, fractions}
use submissions_checker.Quiz.Scoring.Bounds.{Fits}
use submissions_checker.Quiz.Scoring.Credit.{Distinct, in_snapshot}
use submissions_checker.Quiz.Grants.{QuizTables, attempts_of, is_exhausted, effective_max_attempts}
use submissions_checker.Quiz.Regrade.{RegradeTables, write_submission}
use submissions_checker.Taking.{
  TakenAttempt, Question, single_choice, true_false, fail, reduce_time, row, entry, second,
}
use submissions_checker.Taking.Clock.{
  close_open_pause, is_timed_out, seconds_remaining, question_seconds_remaining,
}
use submissions_checker.Taking.Clock.Frozen.{unpaused, dropped, close_open_pause-frozen}
use submissions_checker.Taking.Expiry.{drop, advance_expired}
use submissions_checker.Taking.Expiry.Windows.{closed, burned, advance_expired-closed}
use submissions_checker.Taking.Answer.{Texts}
use submissions_checker.Taking.Finish.{
  Finished, QuizEffect, is_quiz_sent, after_fail, grade_and_finalize,
}
use submissions_checker.Taking.Finish.Settled.{grade_and_finalize-Settled}
use submissions_checker.Taking.Finish.Outcome.{is_mine, after_fail-is_exhausted}
use submissions_checker.Taking.Events.{handle_event}
use submissions_checker.Taking.Events.Bounded.{Reported, handle_event-Reported}
use submissions_checker.Taking.Desk.{Form, Desk, active}
use submissions_checker.Taking.Pages.{answer, Request, show, pause, resume, serve}
use submissions_checker.Taking.Pages.Track.{Aligned, OnTrack}
use submissions_checker.Taking.Pages.Ended.{Sound}
use submissions_checker.Taking.Pages.Served.{serve-Sound, serve-terminal}

abbrev first : Question
first = record {
  id = 4;
  points = 2;
  is_required = true;
  time_limit_seconds = some 30;
  body = single_choice ((65 ∷ []) ∷ (66 ∷ []) ∷ []) 1;
}

abbrev second_one : Question
second_one = record {
  id = 7;
  points = 1;
  is_required = false;
  time_limit_seconds = some 20;
  body = true_false true;
}

abbrev start : TakenAttempt Fraction
start = record {
  id = 1;
  submission_id = 7;
  student_id = some 5;
  plugin_config_id = some 2;
  plugin_config_version = some 4;
  pass_threshold_pct = none;
  quiz_then_teacher = false;
  max_quiz_attempts = some 1;
  time_limit_minutes = 10;
  per_question_timing = true;
  rules =
      record { event = 97 ∷ []; threshold = 2; action = fail; penalty_seconds = 60 }
      ∷ record { event = 97 ∷ []; threshold = 1; action = reduce_time; penalty_seconds = 5 }
      ∷ [];
  questions_snapshot = first ∷ second_one ∷ [];
  answers = [];
  violations = record {
    counts = [];
    force_fail = false;
    time_penalty_seconds = none;
    flagged_events = none;
  };
  current_index = 0;
  started_at = 1000 * second;
  question_started_at = some (1000 * second);
  paused_at = none;
  paused_seconds = 0;
  submitted_at = none;
  score = none;
  max_score = none;
  is_passed = none;
  status = in_progress;
}

start-OnTrack : OnTrack start
unfolding entry in_snapshot Aligned is_terminal
start-OnTrack = ground arith

abbrev tables : Tables
tables = record {
  squad_max_size = λ s. none;
  enrolled = λ s i. true;
  student_type = λ i. some EntityType.real;
  has_submissions = λ s i. true;
  has_user = λ i. true;
  squads = [];
  invites = [];
  next_squad = 1;
  next_invite = 1;
  notices = [];
  audits = [];
}

abbrev sub : Submission
sub = record {
  id = 7;
  students_assignment_id = 20;
  source_type = zip_upload;
  quiz_extra_attempts = none;
  status = quiz_sent;
  plugin_config_id = some 2;
  squad_id = none;
}

abbrev around : TakenAttempt Fraction → RegradeTables Fraction
around s = record {
  squad_tables = tables;
  owner_of = λ sa. some 5;
  assignment_of = λ sa. none;
  attempts = row s ∷ [];
  submissions = sub ∷ [];
  overrides = [];
  disputes = [];
  effects = [];
}

abbrev desk : Desk Fraction
desk = record { attempt = start; tables = around start; effects = []; rows = [] }

abbrev digit : Codes → Option ℤ
digit [] = none
digit (c ∷ t) = some (pos (c - 48))

abbrev plain : Texts
plain = record { int = digit; strip = λ t. t; lower = λ t. t; str_of_list = λ ts. [] }

abbrev form : Form
form = record {
  index = 48 ∷ [];
  answer = λ i. 49 ∷ [];
  answers = λ i. [];
  answer_ordering = λ i. [];
}

-- The first question is answered, a pause is taken and ended, and the second question expires.
abbrev requests : List (ℕ × ℕ × Request)
requests =
    (5, 1010 * second, answer form)
    ∷ (5, 1020 * second, pause active)
    ∷ (5, 1500 * second, resume)
    ∷ (5, 1600 * second, show true)
    ∷ []

serve-Sound_example : Sound (serve fractions plain (λ e. false) requests desk).attempt
serve-Sound_example = serve-Sound fractions plain (λ e. false) requests desk (inl start-OnTrack)

-- The attempt of the example, ended without a pass.
abbrev lost : TakenAttempt Fraction
lost = record start {
  is_passed = some false;
  status = completed;
  score = some 0;
  max_score = some 3;
}

completed_terminal : is_terminal completed ≡ true
unfolding is_terminal
completed_terminal = refl

abbrev over : Desk Fraction
over = record { attempt = lost; tables = around lost; effects = []; rows = [] }

serve-terminal_example : (serve fractions plain (λ e. false) requests over).attempt ≡ over.attempt
serve-terminal_example =
    serve-terminal fractions plain (λ e. false) requests over completed_terminal refl

start-Fits :
    Distinct (row start).questions_snapshot × Fits (row start).questions_snapshot start.answers
unfolding row entry in_snapshot
start-Fits = ground arith

grade_and_finalize-Settled_example :
    (s : TakenAttempt Fraction) × (db' : RegradeTables Fraction) × (effects' : List QuizEffect)
    × (x : ℕ) × (m : ℕ) × (grade_and_finalize fractions
          (1700 * second)
          completed
          (around start)
          []
          start
        ≡ some (s, db', effects'))
    × (is_terminal s.status ≡ true)
    × (s.paused_at ≡ none)
    × (s.score ≡ some x)
    × (s.max_score ≡ some m)
    × (x ≤ m)
    × (s.status ≡ (if start.violations.force_fail then violation_fail else completed))
    × ((start.violations.force_fail && is_true s.is_passed) ≡ false)
grade_and_finalize-Settled_example =
    grade_and_finalize-Settled fractions (1700 * second) completed (around start) [] start
      start-Fits.0 start-Fits.1 completed_terminal

abbrev quiz_tables : QuizTables Fraction
quiz_tables = record {
  squad_tables = tables;
  owner_of = λ sa. some 5;
  code_of = λ sa. none;
  plugin_configs = [];
  attempts = row lost ∷ [];
}

lost_rows :
    (all (λ a. is_terminal a.status) (attempts_of quiz_tables sub 5) ≡ true)
    × (any (λ a. is_true a.is_passed) (attempts_of quiz_tables sub 5) ≡ false)
    × (count (λ a. is_mine sub.id 5 a && a.id == lost.id) (around lost).attempts ≡ 1)
    × (is_quiz_sent sub.status ≡ true)
unfolding attempts_of is_terminal row is_quiz_sent
lost_rows = (refl, refl, refl, refl)

after_fail-is_exhausted_example :
    (fin : Finished Fraction) × (after_fail (around lost) sub lost ≡ some fin)
    × (fin.tables ≡ (
        if is_exhausted
          (attempts_of quiz_tables sub 5)
          (effective_max_attempts lost.max_quiz_attempts sub (some 5))
        then write_submission (record sub { status = failed }) (around lost)
        else around lost))
    × (fin.attempts_left ≡ elim (effective_max_attempts lost.max_quiz_attempts sub (some 5)) [
      | none ↦ none
      | some m ↦ some (m - length (attempts_of quiz_tables sub 5))
    ])
after_fail-is_exhausted_example =
    after_fail-is_exhausted quiz_tables (around lost) sub lost 5 refl lost_rows.3 refl refl
      lost_rows.0 lost_rows.1 lost_rows.2

advance_expired-closed_example : advance_expired (1036 * second) start ≡ (
  burned
      (closed (1036 * second) (1000 * second) (drop 0 start.questions_snapshot))
      (1000 * second)
      (drop 0 start.questions_snapshot)
      start,
  closed (1036 * second) (1000 * second) (drop 0 start.questions_snapshot),
)
advance_expired-closed_example =
    advance_expired-closed (1036 * second) (1000 * second) start refl refl

-- The first window is over after its 30 seconds and the grace, and the second one is not.
one_burned : closed (1036 * second) (1000 * second) (first ∷ second_one ∷ []) ≡ 1
unfolding closed
one_burned = refl

abbrev sheltered : TakenAttempt Fraction
sheltered = record start { paused_at = some (1010 * second) }

close_open_pause-frozen_example :
    (is_timed_out (1600 * second + 3) (close_open_pause (1600 * second) sheltered).0
      ≡ is_timed_out
          (1010 * second + dropped (1010 * second) (1600 * second) + 3)
          (unpaused sheltered))
    × (seconds_remaining (1600 * second + 3) (close_open_pause (1600 * second) sheltered).0
        ≡ seconds_remaining
            (1010 * second + dropped (1010 * second) (1600 * second) + 3)
            (unpaused sheltered))
    × (question_seconds_remaining (1600 * second + 3) (close_open_pause (1600 * second) sheltered).0
        ≡ question_seconds_remaining
            (1010 * second + dropped (1010 * second) (1600 * second) + 3)
            (unpaused sheltered))
    × (dropped (1010 * second) (1600 * second) < second)
close_open_pause-frozen_example =
    close_open_pause-frozen sheltered (1010 * second) (1600 * second) 3 refl (omega arith)

handle_event-Reported_example :
    Reported start []
      (handle_event (λ e. false) (1010 * second) (97 ∷ []) start []).0
      (handle_event (λ e. false) (1010 * second) (97 ∷ []) start []).1
      (handle_event (λ e. false) (1010 * second) (97 ∷ []) start []).2.action
handle_event-Reported_example =
    handle_event-Reported (λ e. false) (1010 * second) (97 ∷ []) start [] (omega arith)
