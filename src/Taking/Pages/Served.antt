-- ===== src/Taking/Pages/Served.antt =====
-- api/routes/student_quiz.py: what any sequence of requests leaves of an attempt.
use submissions_checker.Prelude.{
  ℕ, ◌≡◌, refl, ◌∙◌, Bool, true, none, List, [], ◌∷◌, arith, inl, inr, Bool-cases, Codes,
}
use submissions_checker.Quiz.Attempt.{is_terminal}
use submissions_checker.Quiz.Scoring.{Floats}
use submissions_checker.Taking.Answer.{Texts}
use submissions_checker.Taking.Events.{handle_event, assert_attempt_owner, ignored, is_in_progress}
use submissions_checker.Taking.Pages.Track.{OnTrack}
use submissions_checker.Taking.Desk.{Desk, put, resume_after_air_raid, report_event}
use submissions_checker.Taking.Pages.{
  answer, desk_after, answer_question, submit_quiz, show_quiz, request_air_raid_pause, Request,
  show, submit, pause, resume, event, route, handle, serve,
}
use submissions_checker.Taking.Pages.Ended.{Sound}
use submissions_checker.Taking.Pages.Handled.{
  show_quiz-Sound, answer_question-Sound, submit_quiz-Sound, pause-Sound, resume-Sound,
  report_event-Sound,
}

module _ (fl : Floats) (t : Texts) (is_informational : Codes → Bool) where
  route-Sound :
      (now : ℕ) (request : Request) (desk : Desk fl.F)
      → OnTrack desk.attempt
      → Sound (desk_after desk (route fl t is_informational now request desk)).attempt
  unfolding route
  route-Sound now (show consented) desk h = show_quiz-Sound fl t consented now desk h
  route-Sound now (answer form) desk h = answer_question-Sound fl t now form desk h
  route-Sound now (submit form) desk h = submit_quiz-Sound fl t now form desk h
  route-Sound now (pause alert) desk h = pause-Sound fl t now alert desk h
  route-Sound now resume desk h = resume-Sound fl t now desk h
  route-Sound now (event event_type) desk h =
      report_event-Sound fl t is_informational now event_type desk h

  -- A closed attempt is not changed by any request.
  route-Closed :
      (now : ℕ) (request : Request) (desk : Desk fl.F)
      → is_terminal desk.attempt.status ≡ true
      → desk.attempt.paused_at ≡ none
      → (desk_after desk (route fl t is_informational now request desk)).attempt ≡ desk.attempt
  unfolding route show_quiz answer_question submit_quiz request_air_raid_pause resume_after_air_raid
      report_event handle_event ignored is_in_progress desk_after put
  route-Closed now (show consented) desk h p = ground (arith, h)
  route-Closed now (answer form) desk h p = ground (arith, h)
  route-Closed now (submit form) desk h p = ground (arith, h)
  route-Closed now (pause alert) desk h p = ground (arith, h)
  route-Closed now resume desk h p = ground (arith, p)
  route-Closed now (event event_type) desk h p = ground (arith, h)

  handle-Closed :
      (student_id now : ℕ) (request : Request) (desk : Desk fl.F)
      → is_terminal desk.attempt.status ≡ true
      → desk.attempt.paused_at ≡ none
      → (desk_after desk (handle fl t is_informational student_id now request desk)).attempt
        ≡ desk.attempt
  unfolding handle desk_after
  handle-Closed student_id now request desk h p =
      elim (Bool-cases (assert_attempt_owner desk.tables desk.attempt student_id)) [
        | inl own ↦ rw own (route-Closed now request desk h p)
        | inr other ↦ rw other refl
      ]

  handle-Sound :
      (student_id now : ℕ) (request : Request) (desk : Desk fl.F)
      → Sound desk.attempt
      → Sound (desk_after desk (handle fl t is_informational student_id now request desk)).attempt
  unfolding handle desk_after
  handle-Sound student_id now request desk (inr c) =
      rw (handle-Closed student_id now request desk c.terminal c.unpaused) (inr c)
  handle-Sound student_id now request desk (inl h) =
      elim (Bool-cases (assert_attempt_owner desk.tables desk.attempt student_id)) [
        | inl own ↦ rw own (route-Sound now request desk h)
        | inr other ↦ rw other (inl h)
      ]

  -- Whatever requests arrive, from whichever students and in whatever order, an attempt that started on
  -- the track stays sound: while it is under way it has one answer for each question before the current
  -- one, in their order, none of which earns more than its question is worth; once it has ended it is
  -- not paused and has a score that is at most its maximum.
  pub serve-Sound :
      (requests : List (ℕ × ℕ × Request)) (desk : Desk fl.F)
      → Sound desk.attempt
      → Sound (serve fl t is_informational requests desk).attempt
  unfolding serve
  serve-Sound [] desk h = h
  serve-Sound ((student_id, now, request) ∷ requests) desk h =
      serve-Sound requests _ (handle-Sound student_id now request desk h)

  -- An attempt that has ended, and is not paused, is what it was after any sequence of requests.
  pub serve-terminal :
      (requests : List (ℕ × ℕ × Request)) (desk : Desk fl.F)
      → is_terminal desk.attempt.status ≡ true
      → desk.attempt.paused_at ≡ none
      → (serve fl t is_informational requests desk).attempt ≡ desk.attempt
  unfolding serve
  serve-terminal [] desk h p = refl
  serve-terminal ((student_id, now, request) ∷ requests) desk h p =
      let same = handle-Closed student_id now request desk h p in
      serve-terminal requests _ (rw same h) (rw same p) ∙ same
