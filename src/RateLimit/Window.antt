-- ===== src/RateLimit/Window.antt =====
-- core/rate_limit.py: the limiter against the log of all failures.
use submissions_checker.Prelude.{
  ℕ, ◌+◌, ◌≤◌, ◌≡◌, refl, ◌∙◌, sym, false, not, ◌&&◌, none, List, [], ◌∷◌, ◌++◌, arith, leb, ltb,
  length, filter, All, append-All, length-append, if◌then◌else◌, Codes, codes_eq, codes_eq_iff,
  codes_eq_refl, lookup_code, lookup_code-insert, Bool-cases, inl, inr,
}
use submissions_checker.RateLimit.{
  SlidingWindowLimiter, pop_old, deque_of, store, prune, is_blocked, record_failure, reset,
}

-- What happened, the latest first.
pub data Logged : Type 0 where
  failure : Codes → ℕ → Logged
  cleared : Codes → Logged

-- The failures of a key within the window, since it was last cleared.
abbrev pub recent : ℕ → Codes → ℕ → List Logged → ℕ
recent window key now [] = 0
recent window key now (failure k t ∷ log) =
    (if codes_eq key k && ltb now (t + window) then 1 else 0) + recent window key now log
recent window key now (cleared k ∷ log) = if codes_eq key k then 0 else recent window key now log

-- The limiters that calls at a clock that does not go back can reach, with the log of the calls.
pub data Reach (max window : ℕ) : ℕ → List Logged → SlidingWindowLimiter → Type 0 where
  fresh : Reach max window 0 [] (record { max_attempts = max; window = window; events = [] })
  failed :
      {now : ℕ} {log : List Logged} {l : SlidingWindowLimiter} (key : Codes) (t : ℕ)
      → Reach max window now log l
      → now ≤ t
      → Reach max window t (failure key t ∷ log) (record_failure l key t)
  asked :
      {now : ℕ} {log : List Logged} {l : SlidingWindowLimiter} (key : Codes) (t : ℕ)
      → Reach max window now log l
      → now ≤ t
      → Reach max window t log (is_blocked l key t).1
  forgiven :
      {now : ℕ} {log : List Logged} {l : SlidingWindowLimiter} (key : Codes)
      → Reach max window now log l
      → Reach max window now (cleared key ∷ log) (reset l key)

pop_old-pop_old :
    (w now later : ℕ) (q : List ℕ)
    → now ≤ later
    → pop_old w later (pop_old w now q) ≡ pop_old w later q
unfolding pop_old
pop_old-pop_old w now later [] h = refl
pop_old-pop_old w now later (t ∷ q) h = ground (arith, pop_old-pop_old w now later q h)

pop_old-All : (w now : ℕ) (P : ℕ → Type 0) (q : List ℕ) → All P q → All P (pop_old w now q)
unfolding pop_old
pop_old-All w now P [] h = tt
pop_old-All w now P (t ∷ q) h = elim (Bool-cases (leb (t + w) now)) [
  | inl old ↦ rw old (pop_old-All w now P q h.1)
  | inr young ↦ rw young h
]

All-le : (a b : ℕ) (q : List ℕ) → a ≤ b → All (λ x. x ≤ a) q → All (λ x. x ≤ b) q
All-le a b [] h k = tt
All-le a b (x ∷ q) h k = (ground arith, All-le a b q h k.1)

-- A failure at the end of a deque of older ones.
length-pop_old-append :
    (w t later : ℕ) (q : List ℕ)
    → All (λ x. x ≤ t) q
    → length (pop_old w later (q ++ t ∷ []))
      ≡ (if ltb later (t + w) then 1 else 0) + length (pop_old w later q)
unfolding pop_old
length-pop_old-append w t later [] h = ground arith
length-pop_old-append w t later (x ∷ q) h =
    ground (arith, h.0, length-append q (t ∷ []), length-pop_old-append w t later q h.1)

deque_of-store :
    (l : SlidingWindowLimiter) (j k : Codes) (q : List ℕ)
    → deque_of (store l k q) j ≡ (if codes_eq j k then q else deque_of l j)
unfolding deque_of store
deque_of-store l j k q = ground (arith, lookup_code-insert j k q l.events)

lookup_code-filter :
    (j k : Codes) (d : List (Codes × List ℕ))
    → lookup_code j (filter (λ e. not (codes_eq k e.0)) d)
      ≡ (if codes_eq j k then none else lookup_code j d)
lookup_code-filter j k [] = ground arith
lookup_code-filter j k ((i, q) ∷ d) =
    ground (arith, codes_eq_iff j k, codes_eq_iff k i, codes_eq_iff j i, lookup_code-filter j k d)

deque_of-reset :
    (l : SlidingWindowLimiter) (j k : Codes)
    → deque_of (reset l k) j ≡ (if codes_eq j k then [] else deque_of l j)
unfolding deque_of reset
deque_of-reset l j k = ground (arith, lookup_code-filter j k l.events)

-- The deques hold past failures, as many recent ones as the log has.
record Tracks (max window now : ℕ) (log : List Logged) (l : SlidingWindowLimiter) : Type 0 where
  settings : (l.max_attempts ≡ max) × (l.window ≡ window)
  past : (k : Codes) → All (λ x. x ≤ now) (deque_of l k)
  counts :
      (k : Codes) (later : ℕ)
      → now ≤ later
      → length (pop_old window later (deque_of l k)) ≡ recent window k later log

prune-past :
    (max window now t : ℕ) (log : List Logged) (l : SlidingWindowLimiter) (k : Codes)
    → Tracks max window now log l
    → now ≤ t
    → All (λ x. x ≤ t) (prune l k t)
unfolding prune
prune-past max window now t log l k fit h =
    pop_old-All l.window t (λ x. x ≤ t) (deque_of l k) (All-le now t (deque_of l k) h (fit.past k))

prune-counts :
    (max window now t later : ℕ) (log : List Logged) (l : SlidingWindowLimiter) (k : Codes)
    → Tracks max window now log l
    → now ≤ t
    → t ≤ later
    → length (pop_old window later (prune l k t)) ≡ recent window k later log
unfolding prune pop_old deque_of
prune-counts max window now t later log l k fit h h' =
    let le : now ≤ later = omega arith in
    rw (fit.settings.1, pop_old-pop_old window t later (deque_of l k) h') (fit.counts k later le)

-- Storing a deque under a key leaves what every other key has.
store-Tracks :
    (max window now t : ℕ) (log log' : List Logged) (l : SlidingWindowLimiter) (key : Codes)
    (q : List ℕ)
    → Tracks max window now log l
    → now ≤ t
    → All (λ x. x ≤ t) q
    → ((later : ℕ) → t ≤ later → length (pop_old window later q) ≡ recent window key later log')
    → ((k : Codes) (later : ℕ)
        → codes_eq k key ≡ false
        → recent window k later log' ≡ recent window k later log)
    → Tracks max window t log' (store l key q)
store-Tracks max window now t log log' l key q fit h past counts others = record {
  settings = unfold store in fit.settings;
  past = λ k. elim (Bool-cases (codes_eq k key)) [
    | inl e ↦ rw (deque_of-store l k key q, e) past
    | inr ne ↦ rw (deque_of-store l k key q, ne) (All-le now t (deque_of l k) h (fit.past k))
  ];
  counts = λ k later h'. elim (Bool-cases (codes_eq k key)) [
    | inl e ↦
        let same : k ≡ key = ground (arith, codes_eq_iff k key, e) in
        rw (deque_of-store l k key q, e) (rw same (counts later h'))
    | inr ne ↦
        rw (deque_of-store l k key q, ne)
          (fit.counts k later (omega (arith, h, h')) ∙ sym (others k later ne))
  ];
}

fresh-Tracks :
    (max window : ℕ)
    → Tracks max window 0 [] (record { max_attempts = max; window = window; events = [] })
unfolding deque_of pop_old
fresh-Tracks max window = record {
  settings = (refl, refl);
  past = λ k. tt;
  counts = λ k later h. refl;
}

module _ (max window now : ℕ) (log : List Logged) (l : SlidingWindowLimiter)
    (fit : Tracks max window now log l) where
  record_failure-Tracks :
      (key : Codes) (t : ℕ)
      → now ≤ t
      → Tracks max window t (failure key t ∷ log) (record_failure l key t)
  unfolding record_failure
  record_failure-Tracks key t h =
      let p = prune-past max window now t log l key fit h in
      store-Tracks max window now t log (failure key t ∷ log) l key (prune l key t ++ t ∷ []) fit h
        (append-All (λ x. x ≤ t) (prune l key t) (t ∷ []) p (ground arith, tt))
        (λ later h'. ground (
          arith,
          length-pop_old-append window t later (prune l key t) p,
          prune-counts max window now t later log l key fit h h',
          codes_eq_refl key,
        ))
        (λ k later ne. ground arith)

  is_blocked-Tracks :
      (key : Codes) (t : ℕ) → now ≤ t → Tracks max window t log (is_blocked l key t).1
  unfolding is_blocked
  is_blocked-Tracks key t h =
      store-Tracks max window now t log log l key (prune l key t) fit h
        (prune-past max window now t log l key fit h)
        (λ later h'. prune-counts max window now t later log l key fit h h') (λ k later ne. refl)

  reset-Tracks : (key : Codes) → Tracks max window now (cleared key ∷ log) (reset l key)
  unfolding pop_old
  reset-Tracks key = record {
    settings = unfold reset in fit.settings;
    past = λ k. elim (Bool-cases (codes_eq k key)) [
      | inl e ↦ rw (deque_of-reset l k key, e) tt
      | inr ne ↦ rw (deque_of-reset l k key, ne) (fit.past k)
    ];
    counts = λ k later h. elim (Bool-cases (codes_eq k key)) [
      | inl e ↦ rw (deque_of-reset l k key, e) refl
      | inr ne ↦ rw (deque_of-reset l k key, ne) (fit.counts k later h)
    ];
  }

Reach-Tracks :
    (max window : ℕ) {now : ℕ} {log : List Logged} {l : SlidingWindowLimiter}
    → Reach max window now log l
    → Tracks max window now log l
Reach-Tracks max window fresh = fresh-Tracks max window
Reach-Tracks max window (failed {now = now} {log = log} {l = l} key t r h) =
    record_failure-Tracks max window now log l (Reach-Tracks max window r) key t h
Reach-Tracks max window (asked {now = now} {log = log} {l = l} key t r h) =
    is_blocked-Tracks max window now log l (Reach-Tracks max window r) key t h
Reach-Tracks max window (forgiven {now = now} {log = log} {l = l} key r) =
    reset-Tracks max window now log l (Reach-Tracks max window r) key

-- At any time that is not before the last call, a limiter says that a key is blocked exactly when the
-- log of all calls has at least the allowed number of failures of that key within the window, since the
-- key was last reset.
pub is_blocked-recent :
    (max window now t : ℕ) (log : List Logged) (l : SlidingWindowLimiter) (key : Codes)
    → Reach max window now log l
    → now ≤ t
    → (is_blocked l key t).0 ≡ leb max (recent window key t log)
unfolding is_blocked prune
is_blocked-recent max window now t log l key r h =
    let fit = Reach-Tracks max window r in
    ground (arith, fit.settings.0, fit.settings.1, fit.counts key t h)
