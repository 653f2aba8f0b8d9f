-- ===== src/Quiz/Dispute.antt =====
-- services/quiz_regrade.py `resolve_dispute`: a teacher's ruling on one report, its siblings, the
-- regrade and everyone who is told.
pub mod Closing
mod Examples
use submissions_checker.Prelude.{
  ℕ, Bool, true, false, not, ◌&&◌, Option, none, some, List, [], ◌∷◌, ◌++◌, map, filter, any, find,
  modify_first, reverse, ◌==◌, if◌then◌else◌, opt_eq, is_some,
}
use submissions_checker.Quiz.Attempt.{QuizAttempt}
use submissions_checker.Quiz.Scoring.{Floats, QuizQuestionOverride}
use submissions_checker.Quiz.Regrade.{
  QuizDisputeStatus, accepted, rejected, is_open, QuizQuestionDispute, AttemptRescore, flipped,
  Effect, push_in_app, outbox_resolved, RegradeTables, add_effect, advance_submission,
  regrade_question,
}

-- `DisputeOutcome`
pub record DisputeOutcome : Type 0 where
  pub accepted_ruling : Bool
  pub rescored : List AttemptRescore
  pub resolved_dispute_ids : List ℕ

-- The columns that a ruling writes on a report.
unfoldable pub ruled : QuizDisputeStatus → ℕ → QuizQuestionDispute → QuizQuestionDispute
ruled st user_id d = record d { status = st; resolved_by_user_id = some user_id }

-- The unique key of quiz_question_overrides.
unfoldable pub same_key : QuizQuestionOverride → QuizQuestionOverride → Bool
same_key o p =
    o.plugin_config_id == p.plugin_config_id
    && o.plugin_config_version == p.plugin_config_version
    && o.question_id == p.question_id

-- INSERT ... ON CONFLICT DO NOTHING
unfoldable pub insert_override :
    QuizQuestionOverride → List QuizQuestionOverride → List QuizQuestionOverride
insert_override o rows = if any (same_key o) rows then rows else rows ++ o ∷ []

-- The WHERE of `siblings`.
unfoldable pub is_sibling : ℕ → ℕ → QuizQuestionDispute → QuizQuestionDispute → Bool
is_sibling config version dispute d =
    opt_eq d.plugin_config_id (some config)
    && opt_eq d.plugin_config_version (some version)
    && d.question_id == dispute.question_id
    && is_open d.status
    && not (d.id == dispute.id)

unfoldable pub rule_siblings :
    ℕ → ℕ → ℕ → QuizQuestionDispute → List QuizQuestionDispute → List QuizQuestionDispute
rule_siblings config version user_id dispute disputes =
    map (λ d. if is_sibling config version dispute d then ruled accepted user_id d else d) disputes

-- The ids that the loop over `siblings` adds to `resolved_ids`.
unfoldable pub sibling_ids : ℕ → ℕ → QuizQuestionDispute → List QuizQuestionDispute → List ℕ
sibling_ids config version dispute disputes =
    map (λ d. d.id) (filter (is_sibling config version dispute) disputes)

module _ {ℓ} {F : Type ℓ} where
  -- The loop over `rescored` that advances the submission of every flipped attempt.
  unfoldable pub advance_flipped : List AttemptRescore → RegradeTables F → Option (RegradeTables F)
  advance_flipped [] db = some db
  advance_flipped (entry ∷ entries) db =
      let rest = λ (d : RegradeTables F). advance_flipped entries d in
      if not (flipped entry)
      then rest db
      else elim (find (λ a. a.id == entry.attempt_id) db.attempts) [
        | none ↦ rest db
        | some attempt ↦ elim (advance_submission db attempt) [ none ↦ none | some d ↦ rest d ]
      ]

  unfoldable pub push : ℕ → ℕ → RegradeTables F → RegradeTables F
  push student_id attempt_id db =
      if db.squad_tables.has_user student_id
      then add_effect (push_in_app student_id attempt_id) db
      else db

  -- The loop of `_notify_students` over the classmates.
  unfoldable pub notify_classmates : ℕ → List AttemptRescore → RegradeTables F → RegradeTables F
  notify_classmates attempt_id [] db = db
  notify_classmates attempt_id (entry ∷ entries) db =
      let told =
        add_effect (outbox_resolved none entry.attempt_id (some entry))
          (push entry.student_id entry.attempt_id db) in
      if entry.attempt_id == attempt_id
      then notify_classmates attempt_id entries db
      else if not (flipped entry)
      then notify_classmates attempt_id entries db
      else notify_classmates attempt_id entries told

  -- `by_attempt.get(...)` takes the last entry of an attempt.
  unfoldable pub notify_students :
      QuizQuestionDispute → List AttemptRescore → RegradeTables F → RegradeTables F
  notify_students dispute rescored db =
      let reporter = find (λ r. r.attempt_id == dispute.attempt_id) (reverse rescored) in
      notify_classmates dispute.attempt_id rescored (
        add_effect (outbox_resolved (some dispute.id) dispute.attempt_id reporter)
          (push dispute.student_id dispute.attempt_id db))

  unfoldable pub write_dispute :
      QuizDisputeStatus → ℕ → QuizQuestionDispute → RegradeTables F → RegradeTables F
  write_dispute st user_id dispute db = record db {
    disputes = map (λ d. if d.id == dispute.id then ruled st user_id d else d) db.disputes;
  }

  unfoldable pub write_siblings :
      ℕ → ℕ → ℕ → QuizQuestionDispute → RegradeTables F → RegradeTables F
  write_siblings config version user_id dispute db = record db {
    overrides =
        insert_override
          (record {
            plugin_config_id = config;
            plugin_config_version = version;
            question_id = dispute.question_id;
            credit_all = true;
          })
          db.overrides;
    disputes = rule_siblings config version user_id dispute db.disputes;
  }

module _ (fl : Floats) where
  open fl use {F}

  -- The branch of an accepted report with a config version.
  unfoldable pub rule_accepted :
      ℕ
      → ℕ
      → QuizQuestionDispute
      → ℕ
      → RegradeTables F
      → Option (RegradeTables F × List AttemptRescore)
  rule_accepted config version dispute user_id db =
      elim (regrade_question fl (write_siblings config version user_id dispute db) config version
        dispute.question_id) [
          | none ↦ none
          | some (regraded, rescored) ↦ elim (advance_flipped rescored regraded) [
            | none ↦ none
            | some advanced ↦ some (advanced, rescored)
          ]
        ]

  -- `none` is an exception, after which the route's transaction is rolled back.
  unfoldable pub resolve_dispute :
      RegradeTables F → QuizQuestionDispute → Bool → ℕ → Option (RegradeTables F × DisputeOutcome)
  resolve_dispute db dispute accept user_id =
      let written = write_dispute (if accept then accepted else rejected) user_id dispute db in
      let plain : RegradeTables F × DisputeOutcome = (
        notify_students dispute [] written,
        record { accepted_ruling = accept; rescored = []; resolved_dispute_ids = dispute.id ∷ [] },
      ) in
      if not accept then some plain else elim dispute.plugin_config_id [
        | none ↦ some plain
        | some config ↦ elim dispute.plugin_config_version [
          | none ↦ some plain
          | some version ↦ elim (rule_accepted config version dispute user_id written) [
            | none ↦ none
            | some (advanced, rescored) ↦ some (
              notify_students dispute rescored advanced,
              record {
                accepted_ruling = accept;
                rescored = rescored;
                resolved_dispute_ids =
                    dispute.id ∷ sibling_ids config version dispute written.disputes;
              },
            )
          ]
        ]
      ]
