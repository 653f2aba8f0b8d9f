-- ===== src/Squads/Requests.antt =====
-- The requests that reach services/squads.py: api/routes/student_squads.py (create, accept, decline,
-- cancel), the assignment of api/routes/teacher_portal.py, and the lock at the first submission.
use submissions_checker.Prelude.{
  ℕ, not, ◌==◌, if◌then◌else◌, Option, none, some, List, find, is_some,
}
use submissions_checker.Squads.State.{
  Tables, squad_by_id, squad_of, squad_has_pending_invites, has_pending_invites,
}
use submissions_checker.Squads.Formation.{
  Outcome, raised, done, create_with_invites, accept_invite, decline_invite, cancel_invite,
  teacher_assign, lock_on_submit,
}

pub data Verb : Type 0 where
  accept decline cancel : Verb

-- `await db.rollback()` after a raise, `await db.commit()` after a return.
unfoldable pub rolled_back : Tables → Outcome → Tables
rolled_back db (raised reason db') = db
rolled_back db (done db') = db'

-- A refused accept is committed.
unfoldable pub committed : Outcome → Tables
committed (raised reason db') = db'
committed (done db') = db'

unfoldable pub invite_subject_id : Tables → ℕ → Option ℕ
invite_subject_id db invite_id = elim (find (λ inv. inv.id == invite_id) db.invites) [
  | none ↦ none
  | some inv ↦ elim (squad_by_id db inv.squad_id) [ none ↦ none | some s ↦ some s.subject_id ]
]

unfoldable pub create_squad : ℕ → ℕ → List ℕ → Tables → Tables
create_squad subject_id student_id invitee_ids db =
    if not (db.enrolled subject_id student_id)
    then db
    else rolled_back db (create_with_invites subject_id student_id invitee_ids db)

unfoldable pub answer_invite : Verb → ℕ → ℕ → Tables → Tables
answer_invite accept invite_id student_id db = committed (accept_invite invite_id student_id db)
answer_invite decline invite_id student_id db =
    rolled_back db (decline_invite invite_id student_id db)
answer_invite cancel invite_id student_id db =
    rolled_back db (cancel_invite invite_id student_id db)

-- `_answer`: the invite must be of the subject in the URL.
unfoldable pub answer : Verb → ℕ → ℕ → ℕ → Tables → Tables
answer verb subject_id student_id invite_id db =
    if not (db.enrolled subject_id student_id) then db else elim (invite_subject_id db invite_id) [
      | none ↦ db
      | some i ↦ if i == subject_id then answer_invite verb invite_id student_id db else db
    ]

-- `assign_squad`; the rights of the teacher are checked before it.
unfoldable pub assign_squad : ℕ → ℕ → List ℕ → Tables → Tables
assign_squad subject_id teacher_user_id student_ids db =
    rolled_back db (teacher_assign subject_id teacher_user_id student_ids db)

-- The squad of a student who submits (api/routes/student_portal.py) or opens a quiz
-- (services/quiz_open.py) is locked, unless an invitation is pending; only where the subject has squads.
unfoldable pub submit_lock : ℕ → ℕ → Tables → Tables
submit_lock subject_id student_id db =
    if not (is_some (db.squad_max_size subject_id))
    then db
    else if has_pending_invites db subject_id student_id
    then db
    else if squad_has_pending_invites db subject_id student_id
    then db
    else elim (squad_of db subject_id student_id) [ none ↦ db | some s ↦ lock_on_submit s.id db ]

pub data Request : Type 0 where
  create : ℕ → ℕ → List ℕ → Request
  reply : Verb → ℕ → ℕ → ℕ → Request
  assign : ℕ → ℕ → List ℕ → Request
  submit : ℕ → ℕ → Request

unfoldable pub handle : Request → Tables → Tables
handle (create subject_id student_id ids) db = create_squad subject_id student_id ids db
handle (reply verb subject_id student_id invite_id) db =
    answer verb subject_id student_id invite_id db
handle (assign subject_id teacher_id ids) db = assign_squad subject_id teacher_id ids db
handle (submit subject_id student_id) db = submit_lock subject_id student_id db

-- Requests one after another: each takes the row lock or the transaction that it needs alone.
unfoldable pub handle_all : List Request → Tables → Tables
handle_all List.[] db = db
handle_all (List.◌∷◌ r rs) db = handle_all rs (handle r db)
