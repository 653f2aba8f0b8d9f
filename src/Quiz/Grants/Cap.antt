-- ===== src/Quiz/Grants/Cap.antt =====
-- services/quiz_grants.py: what a grant does to the cap of the student, and to everyone else's.
use submissions_checker.Prelude.{
  ℕ, ◌+◌, ◌≤◌, ◌<◌, ◌≡◌, refl, true, false, ◌&&◌, Option, none, some, List, [], ◌∷◌, arith,
  contains-filter, length, contains, if◌then◌else◌, opt_eq, or_zero,
}
use submissions_checker.Submission.{Submission, quiz_sent, transition, quiz_attempt_granted}
use submissions_checker.Quiz.Attempt.{QuizAttempt}
use submissions_checker.Quiz.Grants.{
  QuizTables, granted, grant_error, lookup_key, insert_key, extras_of, extra_attempts,
  effective_max_attempts, grantable_status, is_exhausted, base_max_attempts, students_on,
  attempts_of, is_grantable, grantable_students, grant_extra_attempt,
}

opt_eq-eq : (j k : Option ℕ) → opt_eq j k ≡ true → j ≡ k
opt_eq-eq none none h = refl
opt_eq-eq none (some k) h = absurd (ground arith)
opt_eq-eq (some j) none h = absurd (ground arith)
opt_eq-eq (some j) (some k) h = ground arith

opt_eq_refl : (j : Option ℕ) → opt_eq j j ≡ true
opt_eq_refl none = refl
opt_eq_refl (some j) = ground arith

lookup_key-insert_key :
    (j k : Option ℕ) (v : ℕ) (d : List (Option ℕ × ℕ))
    → lookup_key j (insert_key k v d) ≡ (if opt_eq j k then some v else lookup_key j d)
lookup_key-insert_key j k v [] = refl
lookup_key-insert_key j k v ((i, w) ∷ d) = ground (
  arith,
  opt_eq-eq j k,
  opt_eq-eq k i,
  opt_eq-eq j i,
  opt_eq_refl j,
  opt_eq_refl k,
  lookup_key-insert_key j k v d,
)

-- A status that the source calls grantable accepts the event.
transition_granted :
    (sub : Submission)
    → grantable_status sub.status ≡ true
    → transition sub quiz_attempt_granted ≡ some (record sub { status = quiz_sent })
unfolding transition grantable_status
transition_granted sub h = ground arith

module _ {ℓ} {F : Type ℓ} where
  -- The two tests of `grant_extra_attempt` together say that the list of `grantable_students` has the
  -- student.
  contains-grantable_students :
      (db : QuizTables F) (sub : Submission) (i : ℕ)
      → contains i (grantable_students db sub)
        ≡ (contains i (students_on db sub) && is_grantable db sub i (base_max_attempts db sub))
  unfolding grantable_students is_grantable
  contains-grantable_students db sub i = ground (
    arith,
    contains-filter (λ j. is_grantable db sub j (base_max_attempts db sub)) i (students_on db sub),
  )

  -- A student whom `grantable_students` lists is granted one more attempt: the submission is at
  -- QUIZ_SENT, the student's extra attempts are one more and everyone else's are what they were.
  pub grant_extra_attempt-grantable :
      (db : QuizTables F) (sub : Submission) (i : ℕ)
      → contains i (grantable_students db sub) ≡ true
      → (moved : Submission) × (grant_extra_attempt db sub i
          ≡ granted (extra_attempts sub (some i) + 1) moved)
        × (moved.status ≡ quiz_sent)
        × (extra_attempts moved (some i) ≡ extra_attempts sub (some i) + 1)
        × ((j : Option ℕ)
            → opt_eq j (some i) ≡ false
            → extra_attempts moved j ≡ extra_attempts sub j)
  unfolding grant_extra_attempt extra_attempts is_grantable
  grant_extra_attempt-grantable db sub i h =
      let total = or_zero (lookup_key (some i) (extras_of sub)) + 1 in
      let recorded : Submission = record sub {
        quiz_extra_attempts = some (insert_key (some i) total (extras_of sub));
      } in
      let moved : Submission = record recorded { status = quiz_sent } in
      (
        moved,
        ground (arith, contains-grantable_students db sub i, transition_granted recorded),
        refl,
        ground (arith, lookup_key-insert_key (some i) (some i) total (extras_of sub)),
        λ j ne. ground (arith, lookup_key-insert_key j (some i) total (extras_of sub)),
      )

  -- A student whom `grantable_students` does not list is refused with a GrantError.
  pub grant_extra_attempt-refused :
      (db : QuizTables F) (sub : Submission) (i : ℕ)
      → contains i (grantable_students db sub) ≡ false
      → grant_extra_attempt db sub i ≡ grant_error
  unfolding grant_extra_attempt
  grant_extra_attempt-refused db sub i h = ground (arith, contains-grantable_students db sub i)

  is_exhausted-below :
      (attempts : List (QuizAttempt F)) (cap : ℕ)
      → length attempts < cap
      → is_exhausted attempts (some cap) ≡ false
  unfolding is_exhausted
  is_exhausted-below [] cap h = refl
  is_exhausted-below (a ∷ attempts) cap h = ground arith

  granted-moved :
      (db : QuizTables F) (sub moved : Submission) (i total : ℕ)
      → grant_extra_attempt db sub i ≡ granted total moved
      → moved ≡ record sub {
        quiz_extra_attempts =
            some (insert_key (some i) (extra_attempts sub (some i) + 1) (extras_of sub));
        status = quiz_sent;
      }
  unfolding grant_extra_attempt extra_attempts is_grantable
  granted-moved db sub moved i total g =
      let recorded : Submission = record sub {
        quiz_extra_attempts = some (
            insert_key (some i) (or_zero (lookup_key (some i) (extras_of sub)) + 1)
              (extras_of sub));
      } in
      ground (arith, transition_granted recorded)

  -- A grant raises the cap: a student who had used no more attempts than were allowed is not stuck
  -- on an exhausted quiz after it.
  pub grant_extra_attempt-not_exhausted :
      (db : QuizTables F) (sub moved : Submission) (i total base : ℕ)
      → grant_extra_attempt db sub i ≡ granted total moved
      → base_max_attempts db sub ≡ some base
      → length (attempts_of db sub i) ≤ base + extra_attempts sub (some i)
      → is_exhausted
          (attempts_of db moved i)
          (effective_max_attempts (base_max_attempts db moved) moved (some i))
        ≡ false
  unfolding effective_max_attempts base_max_attempts attempts_of extra_attempts
  grant_extra_attempt-not_exhausted db sub moved i total base g b l =
      let extra = extra_attempts sub (some i) in
      rw
        (
          granted-moved db sub moved i total g,
          b,
          lookup_key-insert_key (some i) (some i) (extra + 1) (extras_of sub),
          opt_eq_refl (some i),
        )
        (is_exhausted-below (attempts_of db sub i) (base + (extra + 1)) (ground arith))
