-- ===== src/Quiz/Grants.antt =====
-- services/quiz_grants.py: one more attempt at the quiz, given by a teacher.
pub mod Cap
mod Examples
use submissions_checker.Prelude.{
  ℕ, ◌+◌, Bool, true, false, not, ◌&&◌, ◌||◌, Option, none, some, List, [], ◌∷◌, filter, any, leb,
  length, contains, lookup, lookup_code, Codes, Dict, ◌==◌, if◌then◌else◌, is_true, is_some, opt_eq,
  or_zero, sorted,
}
use submissions_checker.Submission.{
  Submission, SubmissionStatus, failed, quiz_sent, transition, quiz_attempt_granted,
}
use submissions_checker.Squads.State.{Squad, Tables}
use submissions_checker.Quiz.Attempt.{QuizAttempt, is_terminal}
use submissions_checker.Quiz.Completion.{squad_for_submission, enrolled_member_ids}

-- A dict keyed by the texts of student ids, `none` for "None".
abbrev pub lookup_key : Option ℕ → List (Option ℕ × ℕ) → Option ℕ
lookup_key k [] = none
lookup_key k ((j, v) ∷ d) = if opt_eq k j then some v else lookup_key k d

abbrev pub insert_key : Option ℕ → ℕ → List (Option ℕ × ℕ) → List (Option ℕ × ℕ)
insert_key k v [] = (k, v) ∷ []
insert_key k v ((j, w) ∷ d) = if opt_eq k j then (j, v) ∷ d else (j, w) ∷ insert_key k v d

abbrev pub extras_of : Submission → List (Option ℕ × ℕ)
extras_of sub = elim sub.quiz_extra_attempts [ none ↦ [] | some extras ↦ extras ]

unfoldable pub extra_attempts : Submission → Option ℕ → ℕ
extra_attempts sub student_id = or_zero (lookup_key student_id (extras_of sub))

unfoldable pub effective_max_attempts : Option ℕ → Submission → Option ℕ → Option ℕ
effective_max_attempts none sub student_id = none
effective_max_attempts (some base) sub student_id = some (base + extra_attempts sub student_id)

unfoldable pub grantable_status : SubmissionStatus → Bool
grantable_status failed = true
grantable_status quiz_sent = true
grantable_status _ = false

-- The rows that the functions read besides the tables of squads: who owns a students_assignment,
-- the code of its assignment, and each plugin config by its id as max_quiz_attempts by code.
pub record QuizTables {ℓ} (F : Type ℓ) : Type ℓ where
  pub squad_tables : Tables
  pub owner_of : ℕ → Option ℕ
  pub code_of : ℕ → Option Codes
  pub plugin_configs : Dict (List (Codes × Option ℕ))
  pub attempts : List (QuizAttempt F)

-- `transition` raises InvalidTransitionError, `grant_extra_attempt` itself a GrantError.
pub data GrantResult : Type 0 where
  granted : ℕ → Submission → GrantResult
  grant_error : GrantResult
  invalid_transition : GrantResult

module _ {ℓ} {F : Type ℓ} where
  unfoldable pub is_exhausted : List (QuizAttempt F) → Option ℕ → Bool
  is_exhausted attempts none = false
  is_exhausted [] (some effective_max) = false
  is_exhausted (a ∷ attempts) (some effective_max) =
      if any (λ b. not (is_terminal b.status)) (a ∷ attempts)
      then false
      else if any (λ b. is_true b.is_passed) (a ∷ attempts)
      then false
      else leb effective_max (length (a ∷ attempts))

  unfoldable pub base_max_attempts : QuizTables F → Submission → Option ℕ
  base_max_attempts db sub = elim sub.plugin_config_id [
    | none ↦ none
    | some config_id ↦ elim (db.code_of sub.students_assignment_id) [
      | none ↦ none
      | some [] ↦ none
      | some (c ∷ code) ↦ elim (lookup config_id db.plugin_configs) [
        | none ↦ none
        | some cfg ↦ elim (lookup_code (c ∷ code) cfg) [ none ↦ none | some value ↦ value ]
      ]
    ]
  ]

  unfoldable pub students_on : QuizTables F → Submission → List ℕ
  students_on db sub = elim (squad_for_submission db.squad_tables sub) [
    | none ↦ (elim (db.owner_of sub.students_assignment_id) [ none ↦ [] | some i ↦ i ∷ [] ])
    | some squad ↦ sorted (enrolled_member_ids db.squad_tables squad)
  ]

  -- This student's rows and the legacy rows without a student.
  unfoldable pub attempts_of : QuizTables F → Submission → ℕ → List (QuizAttempt F)
  attempts_of db sub student_id =
      filter
        (λ a.
          a.submission_id == sub.id
          && (opt_eq a.student_id (some student_id) || not (is_some a.student_id)))
        db.attempts

  unfoldable pub is_grantable : QuizTables F → Submission → ℕ → Option ℕ → Bool
  is_grantable db sub student_id base =
      if not (grantable_status sub.status) || not (is_some base)
      then false
      else is_exhausted (attempts_of db sub student_id)
          (effective_max_attempts base sub (some student_id))

  unfoldable pub grantable_students : QuizTables F → Submission → List ℕ
  grantable_students db sub =
      let base = base_max_attempts db sub in
      if not (is_some base)
      then []
      else filter (λ i. is_grantable db sub i base) (students_on db sub)

  unfoldable pub grant_extra_attempt : QuizTables F → Submission → ℕ → GrantResult
  grant_extra_attempt db sub student_id =
      let base = base_max_attempts db sub in
      let extras = extras_of sub in
      let total = or_zero (lookup_key (some student_id) extras) + 1 in
      let recorded : Submission = record sub {
        quiz_extra_attempts = some (insert_key (some student_id) total extras);
      } in
      if not (contains student_id (students_on db sub)) || not (is_grantable db sub student_id base)
      then grant_error
      else elim (transition recorded quiz_attempt_granted) [
        | none ↦ invalid_transition
        | some moved ↦ granted total moved
      ]
