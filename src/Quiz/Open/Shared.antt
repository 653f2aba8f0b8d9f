-- ===== src/Quiz/Open/Shared.antt =====
-- services/quiz_open.py: a squad shares the submission that one of its members opens.
use submissions_checker.Prelude.{
  ℕ, ◌+◌, ◌≡◌, refl, Bool, true, ◌&&◌, Option, some, List, [], ◌∷◌, ◌++◌, arith, find, contains,
  modify_first, is_some, inl, inr, Option-cases, Bool-cases,
}
use submissions_checker.Submission.{Submission, transition, quiz_sent, quiz_only}
use submissions_checker.Squads.State.{
  Squad, Tables, active_squad, squad_of, squad_by_id, seats_student, has_id,
}
use submissions_checker.Squads.Formation.{lock_on_submit}
use submissions_checker.Grading.Rows.{StudentAssignment, AssignmentRows, is_row}
use submissions_checker.Grading.Weighted.Unified.{member_sa_ids-find, member_sa_ids-contains}
use submissions_checker.Quiz.Open.{
  SubjectsAssignment, OpenTables, reused, created, is_reopenable, scope_sa_ids, latest_in,
  latest_submission_for, latest_submission, open_one, squad_in, lock_opt, add_submission,
  open_quiz_submission,
}

find-holds {ℓ} : {A : Type ℓ} (p : A → Bool) (xs : List A) (x : A) → find p xs ≡ some x → p x ≡ true
find-holds p [] x h = absurd (ground arith)
find-holds p (y ∷ xs) x h = elim (Bool-cases (p y)) [
  | inl here ↦ ground (arith, here)
  | inr later ↦ find-holds p xs x (rw later at h)
]

-- The scope of a student has the rows of the members of the active squad.
scope_sa_ids-member :
    (db : Tables) (i j subject_id asg_id : ℕ) (a : AssignmentRows) (own : StudentAssignment)
    (squad : Squad)
    → active_squad db subject_id j ≡ some squad
    → contains i squad.members ≡ true
    → find (is_row i asg_id) a.rows ≡ some own
    → contains own.id (scope_sa_ids db j subject_id asg_id a).0 ≡ true
unfolding scope_sa_ids
scope_sa_ids-member db i j subject_id asg_id a own squad active seated h =
    let (sa, found, listed) = member_sa_ids-contains asg_id squad.members i a seated in
    let still = member_sa_ids-find asg_id squad.members i own a h in
    let same : sa ≡ own = ground (arith, found, still) in ground (arith, active, listed, same)

-- The row of a student is in the own scope, whether or not a squad is active.
scope_sa_ids-own :
    (db : Tables) (i subject_id asg_id : ℕ) (a : AssignmentRows) (own : StudentAssignment)
    → find (is_row i asg_id) a.rows ≡ some own
    → contains own.id (scope_sa_ids db i subject_id asg_id a).0 ≡ true
unfolding scope_sa_ids active_squad seats_student
scope_sa_ids-own db i subject_id asg_id a own h =
    elim (Option-cases (active_squad db subject_id i)) [
      | inl e ↦ ground (arith, e, h)
      | inr (squad, e) ↦
          let seated : contains i squad.members ≡ true =
            ground (arith, find-holds _ db.squads squad e) in
          scope_sa_ids-member db i i subject_id asg_id a own squad e seated h
    ]

-- It stays where it is.
scope_sa_ids-find :
    (db : Tables) (student_id subject_id asg_id j : ℕ) (a : AssignmentRows) (sa : StudentAssignment)
    → find (is_row j asg_id) a.rows ≡ some sa
    → find (is_row j asg_id) (scope_sa_ids db student_id subject_id asg_id a).1.rows ≡ some sa
unfolding scope_sa_ids
scope_sa_ids-find db student_id subject_id asg_id j a sa h =
    elim (Option-cases (active_squad db subject_id student_id)) [
      | inr (squad, e) ↦ rw (e, scope_sa_ids) (member_sa_ids-find asg_id squad.members j sa a h)
      | inl e ↦ elim (Option-cases (find (is_row student_id asg_id) a.rows)) [
        | inl f ↦ ground (arith, e, f)
        | inr (own, f) ↦ ground (arith, e, f)
      ]
    ]

latest_in-append :
    (scope : List ℕ) (subs : List Submission) (sub : Submission)
    → contains sub.students_assignment_id scope ≡ true
    → latest_in scope (subs ++ sub ∷ []) ≡ some sub
unfolding latest_in
latest_in-append scope [] sub h = ground arith
latest_in-append scope (s ∷ subs) sub h = ground (arith, latest_in-append scope subs sub h)

-- Locking the squad of two students makes it the active squad of both.
lock-active :
    (subject_id j : ℕ) (squad : Squad) (squads : List Squad)
    → find (seats_student subject_id j) squads ≡ some squad
    → find (has_id squad.id) squads ≡ some squad
    → find
        (λ s. seats_student subject_id j s && s.locked)
        (modify_first (has_id squad.id) (λ s. record s { locked = true }) squads)
      ≡ some (record squad { locked = true })
unfolding seats_student has_id
lock-active subject_id j squad [] h k = absurd (ground arith)
lock-active subject_id j squad (s ∷ squads) h k = elim (Bool-cases (seats_student subject_id j s)) [
  | inl here ↦ ground (arith, here)
  | inr away ↦
      let seated = find-holds (seats_student subject_id j) (s ∷ squads) squad h in
      ground (arith, away, seated, lock-active subject_id j squad squads)
]

add_submission-facts :
    (db db' : OpenTables) (sa : StudentAssignment) (config_id : ℕ) (squad : Option Squad)
    (sub : Submission)
    → add_submission sa config_id squad db ≡ created sub db'
    → (sub.students_assignment_id ≡ sa.id)
      × (sub.status ≡ quiz_sent)
      × (sub.source_type ≡ quiz_only)
      × (db' ≡ record db {
        squad_tables = lock_opt squad db.squad_tables;
        submissions = db.submissions ++ sub ∷ [];
        next_submission = db.next_submission + 1;
      })
unfolding add_submission transition
add_submission-facts db db' sa config_id squad sub h = ground arith

-- A new submission is added last, and belongs to the row of the student.
created-add_submission :
    (db db' : OpenTables) (sa : StudentAssignment) (i : ℕ) (asg : SubjectsAssignment)
    (sub : Submission)
    → db.assignment_of sa.subjects_assignment_id ≡ some asg
    → open_quiz_submission db sa i ≡ created sub db'
    → (config_id : ℕ) × (add_submission sa config_id
          (squad_in db.squad_tables asg.subject_id i)
          (latest_submission_for db sa.student_id asg.subject_id asg.id).1
        ≡ created sub db')
unfolding open_quiz_submission latest_submission
created-add_submission db db' sa i asg sub known h =
    elim (Option-cases
      (open_one (latest_submission_for db sa.student_id asg.subject_id asg.id).0)) [
        | inr (old, e) ↦ absurd (ground (arith, known, e))
        | inl e ↦ elim (Option-cases (db.latest_config asg.subject_id)) [
          | inl n ↦ absurd (ground (arith, known, e, n, latest_submission_for))
          | inr (config_id, c) ↦ (config_id, ground (arith, known, e, c))
        ]
      ]

open-reuses :
    (db : OpenTables) (mine : StudentAssignment) (j : ℕ) (asg : SubjectsAssignment)
    (sub : Submission) (subs : List Submission)
    → db.assignment_of mine.subjects_assignment_id ≡ some asg
    → db.submissions ≡ subs ++ sub ∷ []
    → contains sub.students_assignment_id
        (scope_sa_ids db.squad_tables mine.student_id asg.subject_id asg.id db.assignments).0
      ≡ true
    → sub.status ≡ quiz_sent
    → open_quiz_submission db mine j
      ≡ reused sub (record db {
        assignments =
            (scope_sa_ids db.squad_tables mine.student_id asg.subject_id asg.id db.assignments).1;
      })
unfolding open_quiz_submission latest_submission latest_submission_for open_one is_reopenable
open-reuses db mine j asg sub subs known last listed going = ground (
  arith,
  known,
  last,
  going,
  latest_in-append
      (scope_sa_ids db.squad_tables mine.student_id asg.subject_id asg.id db.assignments).0 subs sub
      listed,
)

-- Two students share a submission: they are the same, or one squad of the subject seats both.
pub data Together (db : Tables) (subject_id : ℕ) : ℕ → ℕ → Type 0 where
  alone : (i : ℕ) → Together db subject_id i i
  mates :
      {i j : ℕ} (squad : Squad)
      → is_some (db.squad_max_size subject_id) ≡ true
      → squad_of db subject_id i ≡ some squad
      → squad_of db subject_id j ≡ some squad
      → squad_by_id db squad.id ≡ some squad
      → Together db subject_id i j

-- The row of the student who opened is in the scope of everyone who shares the submission.
shared-scope :
    (db : Tables) (i j subject_id asg_id : ℕ) (a : AssignmentRows) (own : StudentAssignment)
    → Together db subject_id i j
    → find (is_row i asg_id) a.rows ≡ some own
    → contains own.id
        (scope_sa_ids (lock_opt (squad_in db subject_id i) db) j subject_id asg_id a).0
      ≡ true
unfolding squad_in lock_opt lock_on_submit squad_of squad_by_id active_squad seats_student
shared-scope db i _ subject_id asg_id a own (alone _) h =
    scope_sa_ids-own (lock_opt (squad_in db subject_id i) db) i subject_id asg_id a own h
shared-scope db i j subject_id asg_id a own (mates squad on seats_i seats_j kept) h =
    let seated : contains i squad.members ≡ true =
      ground (arith, find-holds (seats_student subject_id i) db.squads squad seats_i) in
    let locked = lock-active subject_id j squad db.squads seats_j kept in
    let same : squad_in db subject_id i ≡ some squad = ground (arith, on, seats_i) in
    rw same (
      scope_sa_ids-member (lock_opt (some squad) db) i j subject_id asg_id a own
        (record squad { locked = true }) locked seated h)

-- When a student's first visit adds a submission, it is for the quiz only and its quiz is open, and a
-- second visit, or the visit of a member of the same squad, goes on with that submission and adds none.
-- The two have rows of the assignment.
pub open_quiz_submission-shared :
    (db db' : OpenTables) (sa mine : StudentAssignment) (i j : ℕ) (asg : SubjectsAssignment)
    (sub : Submission)
    → db.assignment_of asg.id ≡ some asg
    → find (is_row i asg.id) db.assignments.rows ≡ some sa
    → find (is_row j asg.id) db.assignments.rows ≡ some mine
    → Together db.squad_tables asg.subject_id i j
    → open_quiz_submission db sa i ≡ created sub db'
    → (sub.source_type ≡ quiz_only)
      × (sub.status ≡ quiz_sent)
      × (db'' : OpenTables) × (open_quiz_submission db' mine j ≡ reused sub db'')
      × (db''.submissions ≡ db'.submissions)
unfolding is_row latest_submission_for
open_quiz_submission-shared db db' sa mine i j asg sub known own other share opens =
    let sa_is : (sa.student_id ≡ i) × (sa.subjects_assignment_id ≡ asg.id) =
      ground (arith, find-holds (is_row i asg.id) db.assignments.rows sa own) in
    let mine_is : (mine.student_id ≡ j) × (mine.subjects_assignment_id ≡ asg.id) =
      ground (arith, find-holds (is_row j asg.id) db.assignments.rows mine other) in
    let (config_id, adds) =
      created-add_submission db db' sa i asg sub (ground (arith, sa_is, known)) opens in
    let (of_row, going, only, leaves) =
      add_submission-facts (latest_submission_for db sa.student_id asg.subject_id asg.id).1 db' sa
        config_id (squad_in db.squad_tables asg.subject_id i) sub adds in
    let kept =
      scope_sa_ids-find db.squad_tables sa.student_id asg.subject_id asg.id i db.assignments sa
        own in
    let scoped =
      shared-scope db.squad_tables i j asg.subject_id asg.id
        (scope_sa_ids db.squad_tables sa.student_id asg.subject_id asg.id db.assignments).1 sa share
        kept in
    (
      only,
      going,
      _,
      open-reuses db' mine j asg sub db.submissions (ground (arith, mine_is, leaves, known))
          (ground (arith, leaves)) (ground (arith, leaves, of_row, mine_is, scoped)) going,
      refl,
    )
