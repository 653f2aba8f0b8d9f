-- ===== src/RateLimit/Examples.antt =====
-- Two attempts in sixty ticks.
use submissions_checker.Prelude.{◌≡◌, refl, true, false, [], ◌∷◌, arith, Codes}
use submissions_checker.RateLimit.{
  SlidingWindowLimiter, pop_old, deque_of, store, prune, is_blocked, record_failure, reset,
}
use submissions_checker.RateLimit.Window.{
  failure, cleared, Reach, fresh, failed, forgiven, is_blocked-recent,
}

abbrev alice : Codes
alice = b'a' ∷ []

abbrev empty : SlidingWindowLimiter
empty = record { max_attempts = 2; window = 60; events = [] }

-- A login clears the first failure; two more follow.
calls :
    Reach 2 60 40 (failure alice 40 ∷ failure alice 20 ∷ cleared alice ∷ failure alice 5 ∷ []) (
      record_failure
        (record_failure (reset (record_failure empty alice 5) alice) alice 20)
        alice
        40)
calls =
    failed alice 40
      (failed alice 20 (forgiven alice (failed alice 5 fresh (ground arith))) (ground arith))
      (ground arith)

is_blocked-recent_example :
    (is_blocked
      (record_failure
        (record_failure (reset (record_failure empty alice 5) alice) alice 20)
        alice
        40)
      alice
      79).0
    ≡ true
is_blocked-recent_example =
    is_blocked-recent 2 60 40 79
      (failure alice 40 ∷ failure alice 20 ∷ cleared alice ∷ failure alice 5 ∷ [])
      (record_failure (record_failure (reset (record_failure empty alice 5) alice) alice 20) alice
        40)
      alice calls (ground arith)

blocked_no_more :
    (is_blocked
      (record_failure
        (record_failure (reset (record_failure empty alice 5) alice) alice 20)
        alice
        40)
      alice
      80).0
    ≡ false
unfolding is_blocked record_failure reset store prune pop_old deque_of
blocked_no_more = refl
