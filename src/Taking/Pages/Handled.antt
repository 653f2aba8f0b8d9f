-- ===== src/Taking/Pages/Handled.antt =====
-- api/routes/student_quiz.py: each request leaves an attempt that is under way on its track or closed.
use submissions_checker.Prelude.{
  ℕ, ◌≡◌, refl, Bool, true, Option, some, List, arith, inl, inr, Option-cases, Bool-cases,
  if◌then◌else◌, is_some, Codes, ◌==◌,
}
use submissions_checker.Quiz.Attempt.{is_terminal, completed, timed_out, violation_fail}
use submissions_checker.Quiz.Scoring.{Floats}
use submissions_checker.Taking.{TakenAttempt, RuleAction}
use submissions_checker.Taking.Clock.{current_question, close_open_pause}
use submissions_checker.Taking.Expiry.{advance_expired}
use submissions_checker.Taking.Answer.{Texts}
use submissions_checker.Taking.Events.{QuizAttemptEvent, handle_event, event_type_matches}
use submissions_checker.Taking.Events.Bounded.{Reported, handle_event-Reported}
use submissions_checker.Taking.Pages.Track.{OnTrack, OnTrack-anchor, advance_expired-OnTrack}
use submissions_checker.Taking.Desk.{
  Form, AlertAnswer, Desk, PageOutcome, raised, refused, raised_after, shown, Page, to_result,
  to_quiz, pause_refused, step_page, put, bad_request, unavailable, outside_coverage, no_alert,
  active, resume_after_air_raid, report_event, open_question,
}
use submissions_checker.Taking.Pages.{
  answer_current, replace_answers, finish_or, desk_after, after_commit, answer_question,
  submit_quiz, final_status, show_step, show_quiz, start_pause, settle_and_pause,
  request_air_raid_pause,
}
use submissions_checker.Taking.Pages.Ended.{
  Sound, finalize-Aligned, finalize-Closed, answer_current-OnTrack, Aligned-map,
}

desk_after-after_commit {ℓ} :
    {F : Type ℓ} (committed back : Desk F) (o : PageOutcome F)
    → desk_after back (after_commit committed o) ≡ desk_after committed o
unfolding desk_after after_commit
desk_after-after_commit committed back raised = refl
desk_after-after_commit committed back (refused d) = refl
desk_after-after_commit committed back (raised_after d) = refl
desk_after-after_commit committed back (shown d page) = refl

module _ (fl : Floats) (t : Texts) where
  finish_or-Sound :
      (now : ℕ) (closed page : Page) (desk back : Desk fl.F)
      → OnTrack desk.attempt
      → Sound (desk_after back (finish_or fl now closed page desk)).attempt
  unfolding finish_or desk_after is_terminal
  finish_or-Sound now closed page desk back h =
      elim (Option-cases (current_question desk.attempt)) [
        | inl n ↦
            rw (n, finish_or) (inr (finalize-Closed fl t now completed closed desk back refl h))
        | inr (q, e) ↦ rw (e, finish_or, desk_after) (inl h)
      ]

  show_step-Sound :
      (now : ℕ) (desk back : Desk fl.F)
      → OnTrack desk.attempt
      → Sound (desk_after back (show_step fl now desk)).attempt
  unfolding show_step desk_after put open_question
  show_step-Sound now desk back h =
      let s : TakenAttempt fl.F = (advance_expired now desk.attempt).0 in
      let advanced : OnTrack s = advance_expired-OnTrack now desk.attempt h in
      elim (Option-cases (current_question s)) [
        | inl n ↦
            let burned : ℕ = (advance_expired now desk.attempt).1 in
            let committed : Desk fl.F = if burned == 0 then desk else put s desk in
            rw (n, show_step, desk_after-after_commit committed back _)
              (finish_or-Sound now to_result step_page (put s desk) committed advanced)
        | inr (q, e) ↦ rw (e, show_step, desk_after) (inl (OnTrack-anchor s _ advanced))
      ]

  pub show_quiz-Sound :
      (consented : Bool) (now : ℕ) (desk : Desk fl.F)
      → OnTrack desk.attempt
      → Sound (desk_after desk (show_quiz fl consented now desk)).attempt
  unfolding show_quiz desk_after is_terminal
  show_quiz-Sound consented now desk h = ground (
    arith,
    h,
    h.going,
    finalize-Closed fl t now violation_fail to_result desk desk refl h,
    finalize-Closed fl t now timed_out to_result desk desk refl h,
    show_step-Sound now desk desk h,
  )

  pub answer_question-Sound :
      (now : ℕ) (form : Form) (desk : Desk fl.F)
      → OnTrack desk.attempt
      → Sound (desk_after desk (answer_question fl t now form desk)).attempt
  unfolding answer_question desk_after is_terminal put
  answer_question-Sound now form desk h =
      let advanced = advance_expired now desk.attempt in
      let answered : OnTrack (answer_current t now form advanced.0 advanced.1) =
        answer_current-OnTrack t now form advanced.0 advanced.1
          (advance_expired-OnTrack now desk.attempt h) in
      ground (
        arith,
        h,
        h.going,
        finalize-Closed fl t now violation_fail to_result desk desk refl h,
        finish_or-Sound now to_result to_quiz
            (put (answer_current t now form advanced.0 advanced.1) desk) desk answered,
      )

  final_status-terminal :
      (now : ℕ) (s : TakenAttempt fl.F) → is_terminal (final_status now s) ≡ true
  unfolding final_status is_terminal
  final_status-terminal now s = ground arith

  pub submit_quiz-Sound :
      (now : ℕ) (form : Form) (desk : Desk fl.F)
      → OnTrack desk.attempt
      → Sound (desk_after desk (submit_quiz fl t now form desk)).attempt
  unfolding submit_quiz desk_after put replace_answers
  submit_quiz-Sound now form desk h =
      let s : TakenAttempt fl.F = desk.attempt in
      ground (
        arith,
        h,
        h.going,
        finalize-Aligned fl t now (final_status now s) to_result
            (put (replace_answers t form s) desk) desk (final_status-terminal now s) h.distinct
            (Aligned-map t s.id form s.questions_snapshot),
      )

  paused-OnTrack :
      (s : TakenAttempt fl.F) (p : Option ℕ) → OnTrack s → OnTrack (record s { paused_at = p })
  paused-OnTrack s p h = record {
    going = h.going;
    counted = h.counted;
    distinct = h.distinct;
    aligned = h.aligned;
    index = h.index;
  }

  start_pause-Sound :
      (now : ℕ) (alert : AlertAnswer) (committed desk back : Desk fl.F)
      → OnTrack committed.attempt
      → OnTrack desk.attempt
      → Sound (desk_after back (start_pause now alert committed desk)).attempt
  unfolding start_pause desk_after put
  start_pause-Sound now bad_request committed desk back k h = inl k
  start_pause-Sound now active committed desk back k h =
      inl (paused-OnTrack desk.attempt (some now) h)
  start_pause-Sound now unavailable committed desk back k h = inl h
  start_pause-Sound now outside_coverage committed desk back k h = inl h
  start_pause-Sound now no_alert committed desk back k h = inl h

  settle_and_pause-Sound :
      (now : ℕ) (alert : AlertAnswer) (desk back : Desk fl.F)
      → OnTrack desk.attempt
      → Sound (desk_after back (settle_and_pause fl now alert desk)).attempt
  unfolding settle_and_pause is_terminal put
  settle_and_pause-Sound now alert desk back h =
      let (s, burned) = advance_expired now desk.attempt in
      let advanced : OnTrack s = advance_expired-OnTrack now desk.attempt h in
      let committed : Desk fl.F = if burned == 0 then desk else put s desk in
      let kept : OnTrack committed.attempt = elim (Bool-cases (burned == 0)) [
        | inl none_burned ↦ rw none_burned h
        | inr some_burned ↦ rw some_burned advanced
      ] in
      elim (Option-cases (current_question s)) [
        | inl n ↦
            rw (n, settle_and_pause, desk_after-after_commit committed back _)
              (inr (
                finalize-Closed fl t now completed pause_refused (put s desk) committed refl
                  advanced))
        | inr (q, e) ↦
            rw (e, settle_and_pause)
              (start_pause-Sound now alert committed (put s desk) back kept advanced)
      ]

  pub pause-Sound :
      (now : ℕ) (alert : AlertAnswer) (desk : Desk fl.F)
      → OnTrack desk.attempt
      → Sound (desk_after desk (request_air_raid_pause fl now alert desk)).attempt
  unfolding request_air_raid_pause desk_after is_terminal
  pause-Sound now alert desk h = ground (
    arith,
    h,
    h.going,
    finalize-Closed fl t now timed_out pause_refused desk desk refl h,
    settle_and_pause-Sound now alert desk desk h,
    start_pause-Sound now alert desk desk desk h h,
  )

  close_open_pause_lem :
      (now : ℕ) (s : TakenAttempt fl.F)
      → (let s' = (close_open_pause now s).0 in
          (s'.status ≡ s.status)
          × (s'.violations ≡ s.violations)
          × (s'.questions_snapshot ≡ s.questions_snapshot)
          × (s'.answers ≡ s.answers)
          × (s'.current_index ≡ s.current_index))
  unfolding close_open_pause
  close_open_pause_lem now s = elim (Option-cases s.paused_at) [
    | inl n ↦ ground (arith, n)
    | inr (p, e) ↦ ground (arith, e)
  ]

  close_open_pause-OnTrack :
      (now : ℕ) (s : TakenAttempt fl.F) → OnTrack s → OnTrack (close_open_pause now s).0
  close_open_pause-OnTrack now s h =
      let (status, violations, questions, answers, index) = close_open_pause_lem now s in
      record {
        going = rw status h.going;
        counted = rw violations h.counted;
        distinct = rw questions h.distinct;
        aligned = rw (questions, answers) h.aligned;
        index = rw (answers, index) h.index;
      }

  pub resume-Sound :
      (now : ℕ) (desk : Desk fl.F)
      → OnTrack desk.attempt
      → Sound (desk_after desk (resume_after_air_raid now desk)).attempt
  unfolding resume_after_air_raid desk_after put
  resume-Sound now desk h = elim (Bool-cases (is_some desk.attempt.paused_at)) [
    | inl paused ↦ rw paused (inl (close_open_pause-OnTrack now desk.attempt h))
    | inr runs ↦ rw runs (inl h)
  ]

  Reported-OnTrack :
      (s s' : TakenAttempt fl.F) (rows rows' : List QuizAttemptEvent) (action : Option RuleAction)
      → Reported s rows s' rows' action
      → OnTrack s
      → OnTrack s'
  Reported-OnTrack s s' rows rows' action r h = record {
    going = rw r.same_status h.going;
    counted = r.counted;
    distinct = rw r.same_questions h.distinct;
    aligned = rw (r.same_questions, r.same_answers) h.aligned;
    index = rw (r.same_answers, r.same_index) h.index;
  }

  pub report_event-Sound :
      (is_informational : Codes → Bool) (now : ℕ) (event_type : Codes) (desk : Desk fl.F)
      → OnTrack desk.attempt
      → Sound (desk_after desk (report_event is_informational now event_type desk)).attempt
  unfolding report_event desk_after
  report_event-Sound is_informational now event_type desk h =
      let r = handle_event is_informational now event_type desk.attempt desk.rows in
      let reported : OnTrack r.0 =
        Reported-OnTrack desk.attempt r.0 desk.rows r.1 r.2.action
          (handle_event-Reported is_informational now event_type desk.attempt desk.rows h.counted)
          h in
      elim (Bool-cases (event_type_matches event_type)) [
        | inl ok ↦ rw ok (inl reported)
        | inr bad ↦ rw bad (inl h)
      ]
