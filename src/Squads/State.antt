-- ===== src/Squads/State.antt =====
-- The tables that services/squads.py reads and writes (db/models/squad.py, db/models/enums.py), and
-- its lookups.
use submissions_checker.Prelude.{
  ℕ, Bool, true, false, not, ◌&&◌, ◌||◌, Option, none, some, List, ◌==◌, if◌then◌else◌, is_some,
  opt_eq, any, contains, find,
}

pub data SquadInviteStatus : Type 0 where
  pending accepted declined cancelled : SquadInviteStatus

unfoldable pub is_pending : SquadInviteStatus → Bool
is_pending pending = true
is_pending _ = false

pub data EntityType : Type 0 where
  real test : EntityType

-- `SquadError.reason`.
pub data SquadReason : Type 0 where
  disabled not_enrolled test_student already_in_squad has_submissions : SquadReason
  duplicate self_invite too_few too_many not_pending not_yours squad_locked squad_full : SquadReason

-- A row of squads with its rows of squad_members, as student ids. `locked` is
-- `locked_at is not None`.
pub record Squad : Type 0 where
  pub id : ℕ
  pub subject_id : ℕ
  pub created_by_student_id : Option ℕ
  pub created_by_user_id : Option ℕ
  pub locked : Bool
  pub members : List ℕ

pub record SquadInvite : Type 0 where
  pub id : ℕ
  pub squad_id : ℕ
  pub invited_student_id : ℕ
  pub invited_by_student_id : Option ℕ
  pub status : SquadInviteStatus

-- The vocabulary key of an in-app notification, "notif_<key>_title".
pub data NoticeKey : Type 0 where
  invited accepted declined cancelled assigned : NoticeKey

pub record Notice : Type 0 where
  pub student_id : ℕ
  pub key : NoticeKey
  pub subject_id : ℕ

pub data AuditAction : Type 0 where
  squad_create squad_join squad_assign : AuditAction

-- The first five fields are what the functions only read: subjects.squad_max_size, whether
-- subjects_students holds a row, students.type, whether a student has a submission in a subject,
-- and whether a student has a login. The sequences of the two primary keys are `next_squad` and
-- `next_invite`.
pub record Tables : Type 0 where
  pub squad_max_size : ℕ → Option ℕ
  pub enrolled : ℕ → ℕ → Bool
  pub student_type : ℕ → Option EntityType
  pub has_submissions : ℕ → ℕ → Bool
  pub has_user : ℕ → Bool
  pub squads : List Squad
  pub invites : List SquadInvite
  pub next_squad : ℕ
  pub next_invite : ℕ
  pub notices : List Notice
  pub audits : List (AuditAction × ℕ)

-- `WHERE subject_id = ... AND student_id = ...` on squad_members.
unfoldable pub seats_student : ℕ → ℕ → Squad → Bool
seats_student subject_id student_id s = s.subject_id == subject_id && contains student_id s.members

unfoldable pub squad_of : Tables → ℕ → ℕ → Option Squad
unfolding seats_student
squad_of db subject_id student_id = find (seats_student subject_id student_id) db.squads

unfoldable pub has_id : ℕ → Squad → Bool
has_id i s = s.id == i

unfoldable pub squad_by_id : Tables → ℕ → Option Squad
unfolding has_id
squad_by_id db i = find (has_id i) db.squads

unfoldable pub active_squad : Tables → ℕ → ℕ → Option Squad
unfolding seats_student
active_squad db subject_id student_id =
    find (λ s. seats_student subject_id student_id s && s.locked) db.squads

-- `eligibility`; `none` is the source's `None`: the student may form or join a squad.
unfoldable pub eligibility : Tables → ℕ → ℕ → Option SquadReason
unfolding squad_of
eligibility db subject_id student_id =
    if not (is_some (db.squad_max_size subject_id))
    then some disabled
    else if not (db.enrolled subject_id student_id)
    then some not_enrolled
    else if (elim (db.student_type student_id) [ some test ↦ true | _ ↦ false ])
    then some test_student
    else if is_some (squad_of db subject_id student_id)
    then some already_in_squad
    else if db.has_submissions subject_id student_id
    then some has_submissions
    else none

-- `student_id in eligible_student_ids(db, subject_id)`: the set is `enrolled - in_squad -
-- has_submission`, over the students of type REAL.
unfoldable pub eligible_student_ids : Tables → ℕ → ℕ → Bool
unfolding seats_student
eligible_student_ids db subject_id student_id =
    if not (is_some (db.squad_max_size subject_id))
    then false
    else db.enrolled subject_id student_id
      && (elim (db.student_type student_id) [ some real ↦ true | _ ↦ false ])
      && not (any (seats_student subject_id student_id) db.squads)
      && not (db.has_submissions subject_id student_id)

-- A pending invite of this squad.
unfoldable pub pends_for : ℕ → SquadInvite → Bool
unfolding is_pending
pends_for squad_id inv = inv.squad_id == squad_id && is_pending inv.status

unfoldable pub squad_has_pending_invites : Tables → ℕ → ℕ → Bool
unfolding squad_of pends_for
squad_has_pending_invites db subject_id student_id = elim (squad_of db subject_id student_id) [
  | none ↦ false
  | some squad ↦ any (pends_for squad.id) db.invites
]

-- The join of squad_invites with squads, on the subject.
unfoldable pub invite_in_subject : Tables → ℕ → SquadInvite → Bool
unfolding squad_by_id
invite_in_subject db subject_id inv = elim (squad_by_id db inv.squad_id) [
  | none ↦ false
  | some s ↦ s.subject_id == subject_id
]

-- A pending invite in the subject, to or from the student.
unfoldable pub concerns : Tables → ℕ → ℕ → SquadInvite → Bool
unfolding invite_in_subject is_pending
concerns db subject_id student_id inv =
    invite_in_subject db subject_id inv
    && is_pending inv.status
    && (inv.invited_student_id == student_id || opt_eq inv.invited_by_student_id (some student_id))

unfoldable pub has_pending_invites : Tables → ℕ → ℕ → Bool
unfolding concerns
has_pending_invites db subject_id student_id = any (concerns db subject_id student_id) db.invites
