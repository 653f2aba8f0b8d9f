-- ===== src/Taking/Start/Examples.antt =====
-- The theorems on the start of an attempt at the second try of a student, alone and in a squad.
use submissions_checker.Prelude.{
  ℕ, ◌+◌, ◌*◌, ◌≤◌, ◌≡◌, refl, true, false, none, some, List, [], ◌∷◌, all, any, length, is_true,
}
use submissions_checker.Submission.{Submission, zip_upload, quiz_sent}
use submissions_checker.Squads.State.{EntityType, Squad}
use submissions_checker.Quiz.Attempt.{QuizAttempt, completed, is_terminal}
use submissions_checker.Quiz.Completion.{squad_for_submission}
use submissions_checker.Quiz.Fractions.{Fraction}
use submissions_checker.Quiz.Grants.{
  QuizTables, attempts_of, effective_max_attempts, extra_attempts, extras_of,
}
use submissions_checker.Taking.{TakenAttempt, second}
use submissions_checker.Taking.Draw.{
  ConfigQuestion, single_of_choices, select_question_ids, snapshot_questions,
}
use submissions_checker.Taking.Share.{Shuffles, SquadDraw}
use submissions_checker.Taking.Finish.{is_quiz_sent}
use submissions_checker.Taking.Start.{
  QuizSetup, StartOutcome, started, has_capacity, used_count, running, passed, new_attempt,
  draw_questions, create_attempt, start_or_resume_quiz,
}
use submissions_checker.Taking.Start.Capped.{start_or_resume_quiz-capped}

abbrev asked : ℕ → ConfigQuestion
asked limit = record {
  body = single_of_choices (
      record { text = 65 ∷ []; is_correct = false }
      ∷ record { text = 66 ∷ []; is_correct = true }
      ∷ []);
  points = some 2;
  required = false;
  time_limit_seconds = some limit;
}

abbrev setup : QuizSetup Fraction
setup = record {
  config_id = 2;
  version = 4;
  quiz = record {
    questions = asked 30 ∷ asked 40 ∷ asked 50 ∷ [];
    questions_to_send = some 2;
    shuffle_questions = false;
    shuffle_options = false;
    question_time_default_seconds = none;
  };
  max_quiz_attempts = some 2;
  pass_threshold_pct = (3, 5);
  time_limit_minutes = some 10;
  rules = [];
  quiz_then_teacher = false;
}

abbrev same : List ℕ → List ℕ
same xs = xs

abbrev shuffles : Shuffles
shuffles = record { shuffle = same; reshuffle = same; options = λ i. 0 ∷ 1 ∷ []; slice = same }

abbrev sub : Submission
sub = record {
  id = 7;
  students_assignment_id = 20;
  source_type = zip_upload;
  quiz_extra_attempts = none;
  status = quiz_sent;
  plugin_config_id = some 2;
  squad_id = none;
}

abbrev lost : QuizAttempt Fraction
lost = record {
  id = 1;
  submission_id = 7;
  student_id = some 5;
  plugin_config_id = some 2;
  plugin_config_version = some 4;
  config_snapshot = record { pass_threshold_pct = some (3, 5); quiz_then_teacher = false };
  questions_snapshot = [];
  answers = [];
  force_fail = false;
  score = some 0;
  max_score = some 4;
  is_passed = some false;
  status = completed;
}

abbrev db : QuizTables Fraction
db = record {
  squad_tables = record {
    squad_max_size = λ s. none;
    enrolled = λ s i. true;
    student_type = λ i. some EntityType.real;
    has_submissions = λ s i. true;
    has_user = λ i. true;
    squads = [];
    invites = [];
    next_squad = 1;
    next_invite = 1;
    notices = [];
    audits = [];
  };
  owner_of = λ sa. some 5;
  code_of = λ sa. none;
  plugin_configs = [];
  attempts = lost ∷ [];
}

-- The attempt that starts: the first two questions, with the time limit of the first running.
abbrev begun : TakenAttempt Fraction
begun =
    elim (start_or_resume_quiz shuffles true db 2 (1000 * second) (some sub) 5 (some setup) none) [
      | started s draw ↦ s
      | _ ↦ new_attempt 0 0 sub 0 setup []
    ]

begins :
    start_or_resume_quiz shuffles true db 2 (1000 * second) (some sub) 5 (some setup) none
    ≡ started begun none
unfolding start_or_resume_quiz running passed used_count has_capacity create_attempt is_quiz_sent
    effective_max_attempts extra_attempts extras_of attempts_of is_terminal squad_for_submission
    draw_questions select_question_ids snapshot_questions
begins = refl

allowed_two : effective_max_attempts setup.max_quiz_attempts sub (some 5) ≡ some 2
unfolding effective_max_attempts extra_attempts extras_of
allowed_two = refl

start_or_resume_quiz-capped_example :
    (all (λ a. is_terminal a.status) (attempts_of db sub 5) ≡ true)
    × (any (λ a. is_true a.is_passed) (attempts_of db sub 5) ≡ false)
    × (length (attempts_of db sub 5) + 1 ≤ 2)
start_or_resume_quiz-capped_example =
    start_or_resume_quiz-capped shuffles true db 2 (1000 * second) sub 5 setup none none begun 2
      allowed_two begins

-- The same student in a squad whose draw the other member has made.
abbrev shared_draw : SquadDraw
shared_draw = record {
  question_ids = 1 ∷ 0 ∷ [];
  slices = (1 ∷ []) ∷ (0 ∷ []) ∷ [];
  member_order = 5 ∷ 9 ∷ [];
}

abbrev team : Squad
team = record {
  id = 3;
  subject_id = 1;
  created_by_student_id = some 5;
  created_by_user_id = none;
  locked = true;
  members = 5 ∷ 9 ∷ [];
}

abbrev team_db : QuizTables Fraction
team_db = record db { squad_tables = record db.squad_tables { squads = team ∷ [] } }

abbrev team_sub : Submission
team_sub = record sub { squad_id = some 3 }

abbrev team_start : StartOutcome Fraction
team_start =
    start_or_resume_quiz shuffles true team_db 2 (1000 * second) (some team_sub) 5 (some setup)
      (some shared_draw)

abbrev team_begun : TakenAttempt Fraction
team_begun = elim team_start [ started s draw ↦ s | _ ↦ new_attempt 0 0 sub 0 setup [] ]
