-- ===== src/RateLimit.antt =====
-- core/rate_limit.py: the sliding-window throttle of the credential endpoints. The clock is monotonic and
-- is read once per call: its value is an argument, in ticks; `cutoff = now - window` is compared as
-- `t + window <= now`, which also holds of the first ticks.
pub mod Window
mod Examples
use submissions_checker.Prelude.{
  ℕ, ◌+◌, Bool, not, Option, none, some, List, [], ◌∷◌, ◌++◌, leb, length, filter, if◌then◌else◌,
  Codes, codes_eq, lookup_code, insert_code,
}

pub record SlidingWindowLimiter : Type 0 where
  pub max_attempts : ℕ
  pub window : ℕ
  pub events : List (Codes × List ℕ)

-- The `while` loop of `_prune`: pops from the left.
unfoldable pub pop_old : ℕ → ℕ → List ℕ → List ℕ
pop_old window now [] = []
pop_old window now (t ∷ q) = if leb (t + window) now then pop_old window now q else t ∷ q

-- `self._events.setdefault(key, deque())`
unfoldable pub deque_of : SlidingWindowLimiter → Codes → List ℕ
deque_of l key = elim (lookup_code key l.events) [ none ↦ [] | some q ↦ q ]

unfoldable pub store : SlidingWindowLimiter → Codes → List ℕ → SlidingWindowLimiter
store l key q = record l { events = insert_code key q l.events }

-- The pruned deque, which stays in the dict.
unfoldable pub prune : SlidingWindowLimiter → Codes → ℕ → List ℕ
prune l key now = pop_old l.window now (deque_of l key)

unfoldable pub is_blocked : SlidingWindowLimiter → Codes → ℕ → Bool × SlidingWindowLimiter
is_blocked l key now = let q = prune l key now in (leb l.max_attempts (length q), store l key q)

unfoldable pub record_failure : SlidingWindowLimiter → Codes → ℕ → SlidingWindowLimiter
record_failure l key now = store l key (prune l key now ++ now ∷ [])

-- `self._events.pop(key, None)`
unfoldable pub reset : SlidingWindowLimiter → Codes → SlidingWindowLimiter
reset l key = record l { events = filter (λ e. not (codes_eq key e.0)) l.events }
