-- ===== src/Taking/Events.antt =====
-- api/routes/student_quiz.py `_read_event`, `_record_event` and `report_violation`: an anti-cheat event
-- of the browser, the rule it meets, and its row on the timeline of the attempt. The JSON of the body is
-- read before: `type` is a text here, and the context is dropped.
pub mod Bounded
use submissions_checker.Prelude.{
  ℕ, suc, ◌+◌, ◌-◌, ◌*◌, ◌≡◌, Bool, true, false, not, ◌&&◌, ◌||◌, Option, none, some, List, [], ◌∷◌,
  ◌++◌, length, all, leb, ltb, Codes, codes_eq, lookup_code, insert_code, if◌then◌else◌, is_some,
  or_zero,
}
use submissions_checker.Quiz.Attempt.{QuizAttemptStatus, is_terminal}
use submissions_checker.Quiz.Regrade.{RegradeTables, submission_of}
use submissions_checker.Taking.{
  TakenAttempt, Violations, violations_length, Rule, RuleAction, fail, reduce_time, warn, flag,
  second,
}
use submissions_checker.Taking.Clock.{question_seconds_remaining, seconds_remaining}

pub data QuizEventOutcome : Type 0 where
  ignored_not_in_progress informational ignored_paused ignored_type_cap applied : QuizEventOutcome

-- A row of quiz_attempt_events; an `action` of `none` is the text "none".
pub record QuizAttemptEvent : Type 0 where
  pub event_type : Codes
  pub count_after : Option ℕ
  pub rule_threshold : Option ℕ
  pub action : Option RuleAction
  pub outcome : QuizEventOutcome

pub record EventResponse : Type 0 where
  pub action : Option RuleAction
  pub seconds_remaining : Option ℕ
  pub violation_count : ℕ

abbrev pub max_events_stored_per_attempt : ℕ
max_events_stored_per_attempt = 500

abbrev pub max_distinct_event_types : ℕ
max_distinct_event_types = 32

-- [a-z0-9], and with the underscore, which is 95.
unfoldable pub is_name_start : ℕ → Bool
is_name_start c = (leb 97 c && leb c 122) || (leb 48 c && leb c 57)

unfoldable pub is_name_part : ℕ → Bool
unfolding is_name_start
is_name_part c = is_name_start c || (leb 95 c && leb c 95)

-- `_EVENT_TYPE_RE.fullmatch`: [a-z0-9][a-z0-9_]{0,63}
unfoldable pub event_type_matches : Codes → Bool
unfolding is_name_start is_name_part
event_type_matches [] = false
event_type_matches (c ∷ rest) = is_name_start c && leb (length rest) 63 && all is_name_part rest

unfoldable pub is_in_progress : QuizAttemptStatus → Bool
is_in_progress s = not (is_terminal s)

-- `action != "fail"` and the stored rows at the cap.
unfoldable pub is_fail : Option RuleAction → Bool
is_fail none = false
is_fail (some fail) = true
is_fail (some _) = false

-- `_record_event` on the rows of the attempt.
unfoldable pub record_event : QuizAttemptEvent → List QuizAttemptEvent → List QuizAttemptEvent
unfolding is_fail
record_event event rows =
    if not (is_fail event.action) && leb max_events_stored_per_attempt (length rows)
    then rows
    else rows ++ event ∷ []

-- The first rule that the event meets.
unfoldable pub matching_rule : Codes → ℕ → List Rule → Option Rule
matching_rule event_type n [] = none
matching_rule event_type n (r ∷ rules) =
    if codes_eq r.event event_type && leb r.threshold n
    then some r
    else matching_rule event_type n rules

-- `flagged.append(event_type)`
unfoldable pub flag_event : Codes → Violations → Violations
flag_event event_type v = record v {
  flagged_events = elim v.flagged_events [
    | none ↦ some (event_type ∷ [])
    | some events ↦ some (events ++ event_type ∷ [])
  ];
}

module _ {ℓ} {F : Type ℓ} where
  unfoldable pub assert_attempt_owner : RegradeTables F → TakenAttempt F → ℕ → Bool
  assert_attempt_owner db s student_id = elim (submission_of db s.submission_id) [
    | none ↦ false
    | some sub ↦
        let owner : Option ℕ = elim s.student_id [
          | none ↦ db.owner_of sub.students_assignment_id
          | some i ↦ some i
        ] in
        elim owner [ none ↦ false | some i ↦ leb i student_id && leb student_id i ]
  ]

  -- In a stepped attempt the time is the question's own: its start is walked backwards.
  unfoldable pub walk_anchor : Rule → TakenAttempt F → TakenAttempt F
  walk_anchor r s =
      let anchor : Option ℕ = elim s.question_started_at [
        | none ↦ none
        | some q ↦ some (q - r.penalty_seconds * second)
      ] in
      record s { question_started_at = anchor }

  unfoldable pub add_penalty : Rule → TakenAttempt F → TakenAttempt F
  add_penalty r s = record s {
    violations = record s.violations {
      time_penalty_seconds = some (or_zero s.violations.time_penalty_seconds + r.penalty_seconds);
    };
  }

  -- The branch of a rule that shortens the time.
  unfoldable pub reduce_by : ℕ → Rule → TakenAttempt F → TakenAttempt F × Option ℕ
  unfolding walk_anchor add_penalty
  reduce_by now r s =
      if s.per_question_timing
      then (walk_anchor r s, question_seconds_remaining now (walk_anchor r s))
      else (add_penalty r s, seconds_remaining now (add_penalty r s))

  unfoldable pub apply_action : ℕ → Codes → Rule → TakenAttempt F → TakenAttempt F × Option ℕ
  unfolding reduce_by flag_event
  apply_action now event_type r s = elim r.action [
    | fail ↦ (record s { violations = record s.violations { force_fail = true } }, none)
    | reduce_time ↦ reduce_by now r s
    | warn ↦ (s, none)
    | flag ↦ (record s { violations = flag_event event_type s.violations }, none)
  ]

  unfoldable pub ignored :
      Codes
      → QuizEventOutcome
      → TakenAttempt F
      → List QuizAttemptEvent
      → TakenAttempt F × List QuizAttemptEvent × EventResponse
  unfolding record_event
  ignored event_type outcome s rows = (
    s,
    record_event
        (record {
          event_type = event_type;
          count_after = none;
          rule_threshold = none;
          action = none;
          outcome = outcome;
        })
        rows,
    record { action = none; seconds_remaining = none; violation_count = 0 },
  )

  -- `violations[event_type] = violations.get(event_type, 0) + 1`
  unfoldable pub count_event : Codes → TakenAttempt F → TakenAttempt F × ℕ
  count_event event_type s =
      let n = suc (or_zero (lookup_code event_type s.violations.counts)) in
      (
        record s {
          violations = record s.violations {
            counts = insert_code event_type n s.violations.counts;
          };
        },
        n,
      )

  unfoldable pub apply_event :
      ℕ
      → Codes
      → TakenAttempt F
      → List QuizAttemptEvent
      → TakenAttempt F × List QuizAttemptEvent × EventResponse
  unfolding count_event matching_rule apply_action record_event
  apply_event now event_type s rows =
      let (counted, n) = count_event event_type s in
      elim (matching_rule event_type n s.rules) [
        | none ↦ (
          counted,
          record_event
              (record {
                event_type = event_type;
                count_after = some n;
                rule_threshold = none;
                action = none;
                outcome = applied;
              })
              rows,
          record { action = none; seconds_remaining = none; violation_count = n },
        )
        | some r ↦
            let (acted, remaining) = apply_action now event_type r counted in
            (
              acted,
              record_event
                  (record {
                    event_type = event_type;
                    count_after = some n;
                    rule_threshold = some r.threshold;
                    action = some r.action;
                    outcome = applied;
                  })
                  rows,
              record { action = some r.action; seconds_remaining = remaining; violation_count = n },
            )
      ]

  -- An attempt of the student's own, at the moment `now`, with `is_informational` for the membership in
  -- INFORMATIONAL_EVENT_TYPES.
  unfoldable pub handle_event :
      (Codes → Bool)
      → ℕ
      → Codes
      → TakenAttempt F
      → List QuizAttemptEvent
      → TakenAttempt F × List QuizAttemptEvent × EventResponse
  unfolding ignored apply_event violations_length is_in_progress
  handle_event is_informational now event_type s rows =
      if not (is_in_progress s.status)
      then ignored event_type ignored_not_in_progress s rows
      else if is_informational event_type
      then ignored event_type informational s rows
      else if is_some s.paused_at
      then ignored event_type ignored_paused s rows
      else if not (is_some (lookup_code event_type s.violations.counts))
          && leb max_distinct_event_types (violations_length s.violations)
      then ignored event_type ignored_type_cap s rows
      else apply_event now event_type s rows

-- What the route answers: the 400 of a bad name, the 403 of another student's attempt, or the attempt,
-- its rows and the response.
pub data EventOutcome {ℓ} (F : Type ℓ) : Type ℓ where
  bad_event : EventOutcome F
  forbidden : EventOutcome F
  recorded : TakenAttempt F → List QuizAttemptEvent → EventResponse → EventOutcome F

module _ {ℓ} {F : Type ℓ} where
  unfoldable pub report_violation :
      (Codes → Bool)
      → ℕ
      → RegradeTables F
      → ℕ
      → Codes
      → TakenAttempt F
      → List QuizAttemptEvent
      → EventOutcome F
  unfolding event_type_matches assert_attempt_owner handle_event
  report_violation is_informational now db student_id event_type s rows =
      let (s', rows', response) = handle_event is_informational now event_type s rows in
      if not (event_type_matches event_type)
      then bad_event
      else if not (assert_attempt_owner db s student_id)
      then forbidden
      else recorded s' rows' response
