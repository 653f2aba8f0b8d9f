-- ===== src/Taking/Events/Bounded.antt =====
-- api/routes/student_quiz.py `report_violation`: what an event of the browser may do to an attempt.
use submissions_checker.Prelude.{
  ℕ, suc, ◌+◌, ◌≤◌, ◌≡◌, refl, Bool, true, false, not, ◌&&◌, Option, none, some, List, [], ◌∷◌,
  arith, length, leb, max, Codes, lookup_code, insert_code, if◌then◌else◌, is_some, or_zero, inl,
  inr, Option-cases, Bool-cases, length-append,
}
use submissions_checker.Taking.{TakenAttempt, violations_length, Rule, RuleAction}
use submissions_checker.Taking.Clock.{time_penalty}
use submissions_checker.Taking.Events.{
  QuizAttemptEvent, QuizEventOutcome, applied, ignored_not_in_progress, informational,
  ignored_paused, ignored_type_cap, max_distinct_event_types, max_events_stored_per_attempt,
  is_in_progress, is_fail, record_event, matching_rule, flag_event, walk_anchor, add_penalty,
  reduce_by, apply_action, ignored, count_event, apply_event, handle_event,
}

length-insert_code :
    (k : Codes) (v : ℕ) (d : List (Codes × ℕ))
    → length (insert_code k v d) ≡ (if is_some (lookup_code k d) then length d else suc (length d))
length-insert_code k v [] = refl
length-insert_code k v ((j, w) ∷ d) = ground (arith, length-insert_code k v d)

length-record_event :
    (event : QuizAttemptEvent) (rows : List QuizAttemptEvent)
    → length (record_event event rows)
      ≤ max (length rows) max_events_stored_per_attempt + (if is_fail event.action then 1 else 0)
unfolding record_event
length-record_event event rows = ground (arith, length-append rows (event ∷ []))

module _ {ℓ} {F : Type ℓ} where
  -- What no event changes, and how the counters and the penalties move.
  record Held (s t : TakenAttempt F) : Type ℓ where
    pub same_answers : t.answers ≡ s.answers
    pub same_questions : t.questions_snapshot ≡ s.questions_snapshot
    pub same_score : (t.score ≡ s.score) × (t.max_score ≡ s.max_score)
    pub same_index : t.current_index ≡ s.current_index
    pub same_status : t.status ≡ s.status
    pub same_pause : t.paused_at ≡ s.paused_at
    pub same_counts : t.violations.counts ≡ s.violations.counts
    pub forced : (s.violations.force_fail && not t.violations.force_fail) ≡ false
    pub penalty : time_penalty s ≤ time_penalty t

  apply_action-Held :
      (now : ℕ) (event_type : Codes) (r : Rule) (s : TakenAttempt F)
      → Held s (apply_action now event_type r s).0
  unfolding apply_action reduce_by walk_anchor add_penalty flag_event time_penalty
  apply_action-Held now event_type r s = ground arith

  -- The attempt and the rows that a call leaves, beside those it found: the answers, the
  -- questions, the score, the status and the pause stay; a forced failure stays and the penalty does not shrink; no more event
  -- names are counted than the cap allows; the rows stay below their cap but for one that explains a
  -- failure; and a paused or closed attempt is not changed at all.
  pub record Reported (s : TakenAttempt F) (rows : List QuizAttemptEvent) (s' : TakenAttempt F)
      (rows' : List QuizAttemptEvent) (action : Option RuleAction) : Type ℓ where
    pub same_answers : s'.answers ≡ s.answers
    pub same_questions : s'.questions_snapshot ≡ s.questions_snapshot
    pub same_score : (s'.score ≡ s.score) × (s'.max_score ≡ s.max_score)
    pub same_index : s'.current_index ≡ s.current_index
    pub same_status : s'.status ≡ s.status
    pub same_pause : s'.paused_at ≡ s.paused_at
    pub forced : (s.violations.force_fail && not s'.violations.force_fail) ≡ false
    pub penalty : time_penalty s ≤ time_penalty s'
    pub counted : length s'.violations.counts ≤ max_distinct_event_types
    pub stored :
        length rows'
        ≤ max (length rows) max_events_stored_per_attempt + (if is_fail action then 1 else 0)
    pub suspended : s' ≡ (if is_in_progress s.status && not (is_some s.paused_at) then s' else s)

  apply_event-Reported :
      (now : ℕ) (event_type : Codes) (s : TakenAttempt F) (rows : List QuizAttemptEvent)
      → length s.violations.counts ≤ max_distinct_event_types
      → (is_in_progress s.status && not (is_some s.paused_at)) ≡ true
      → (not (is_some (lookup_code event_type s.violations.counts))
          && leb max_distinct_event_types (violations_length s.violations))
        ≡ false
      → Reported s rows
          (apply_event now event_type s rows).0
          (apply_event now event_type s rows).1
          (apply_event now event_type s rows).2.action
  unfolding apply_event count_event time_penalty violations_length
  apply_event-Reported now event_type s rows h open_ cap =
      let n : ℕ = suc (or_zero (lookup_code event_type s.violations.counts)) in
      elim (Option-cases (matching_rule event_type n s.rules)) [
        | inl e ↦ ground (
          arith,
          e,
          length-insert_code event_type n s.violations.counts,
          length-record_event
              (record {
                event_type = event_type;
                count_after = some n;
                rule_threshold = none;
                action = none;
                outcome = applied;
              })
              rows,
        )
        | inr (r, e) ↦ ground (
          arith,
          e,
          length-insert_code event_type n s.violations.counts,
          apply_action-Held now event_type r (count_event event_type s).0,
          length-record_event
              (record {
                event_type = event_type;
                count_after = some n;
                rule_threshold = some r.threshold;
                action = some r.action;
                outcome = applied;
              })
              rows,
        )
      ]

  ignored-Reported :
      (event_type : Codes) (outcome : QuizEventOutcome) (s : TakenAttempt F)
      (rows : List QuizAttemptEvent)
      → length s.violations.counts ≤ max_distinct_event_types
      → Reported s rows
          (ignored event_type outcome s rows).0
          (ignored event_type outcome s rows).1
          (ignored event_type outcome s rows).2.action
  unfolding ignored is_fail
  ignored-Reported event_type outcome s rows h = ground (
    arith,
    length-record_event
        (record {
          event_type = event_type;
          count_after = none;
          rule_threshold = none;
          action = none;
          outcome = outcome;
        })
        rows,
  )

  -- Whatever the browser reports, on every branch: the answers, the questions, the score, the
  -- status and the pause of the attempt stay; a forced failure stays and the time penalty does not shrink; no more than 32
  -- event names are counted, when no more were counted before; the rows of the timeline stay below
  -- their cap, but for one that explains a failure; and an attempt that is paused or closed is not
  -- changed at all.
  pub handle_event-Reported :
      (is_informational : Codes → Bool) (now : ℕ) (event_type : Codes) (s : TakenAttempt F)
      (rows : List QuizAttemptEvent)
      → length s.violations.counts ≤ max_distinct_event_types
      → Reported s rows
          (handle_event is_informational now event_type s rows).0
          (handle_event is_informational now event_type s rows).1
          (handle_event is_informational now event_type s rows).2.action
  unfolding handle_event
  handle_event-Reported is_informational now event_type s rows h =
      elim (Bool-cases (is_in_progress s.status)) [
        | inr closed ↦ rw closed (ignored-Reported event_type ignored_not_in_progress s rows h)
        | inl going ↦ elim (Bool-cases (is_informational event_type)) [
          | inl info ↦ rw (going, info) (ignored-Reported event_type informational s rows h)
          | inr counts ↦ elim (Bool-cases (is_some s.paused_at)) [
            | inl paused ↦
                rw (going, counts, paused) (ignored-Reported event_type ignored_paused s rows h)
            | inr runs ↦
                elim (Bool-cases (
                  not (is_some (lookup_code event_type s.violations.counts))
                  && leb max_distinct_event_types (violations_length s.violations))) [
                    | inl full ↦
                        rw (going, counts, runs, full)
                          (ignored-Reported event_type ignored_type_cap s rows h)
                    | inr room ↦
                        rw (going, counts, runs, room)
                          (apply_event-Reported now event_type s rows h
                            (ground (arith, going, runs)) room)
                  ]
          ]
        ]
      ]
