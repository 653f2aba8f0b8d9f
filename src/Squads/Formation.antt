-- ===== src/Squads/Formation.antt =====
-- The formation half of services/squads.py: what each function does to the tables. A raise comes
-- with the tables as they were at that point; the requests decide whether that is committed.
use submissions_checker.Prelude.{
  ℕ, suc, ◌+◌, ◌-◌, Bool, true, false, not, ◌&&◌, ◌||◌, Option, none, some, List, [], ◌∷◌, ◌++◌,
  leb, ltb, ◌==◌, if◌then◌else◌, opt_eq, length, any, contains, find, modify_first, remove_first,
  filter, map,
}
use submissions_checker.Squads.State.{
  SquadInviteStatus, SquadReason, Squad, SquadInvite, NoticeKey, AuditAction, Tables, is_pending,
  has_id, squad_by_id, eligibility, pends_for, concerns, pending, accepted, declined, cancelled,
  disabled, duplicate, self_invite, too_few, too_many, not_pending, not_yours, squad_locked,
  squad_full, invited, assigned, squad_create, squad_join, squad_assign,
}

pub data Outcome : Type 0 where
  raised : SquadReason → Tables → Outcome
  done : Tables → Outcome

-- `_notify_student`: nothing for a student without a login.
unfoldable pub notify_student : ℕ → NoticeKey → ℕ → Tables → Tables
notify_student student_id key subject_id db =
    if db.has_user student_id
    then record db {
      notices =
          db.notices ++ record { student_id = student_id; key = key; subject_id = subject_id } ∷ [];
    }
    else db

unfoldable pub notify_opt : Option ℕ → NoticeKey → ℕ → Tables → Tables
notify_opt none key subject_id db = db
notify_opt (some i) key subject_id db = notify_student i key subject_id db

unfoldable pub notify_all : List ℕ → NoticeKey → ℕ → Tables → Tables
notify_all [] key subject_id db = db
notify_all (i ∷ ids) key subject_id db =
    notify_all ids key subject_id (notify_student i key subject_id db)

unfoldable pub audit : AuditAction → ℕ → Tables → Tables
audit action target_id db = record db { audits = db.audits ++ (action, target_id) ∷ [] }

-- The status of every row that passes the test is written.
unfoldable pub mark_those :
    SquadInviteStatus → (SquadInvite → Bool) → List SquadInvite → List SquadInvite
mark_those st p [] = []
mark_those st p (inv ∷ invs) =
    (if p inv then record inv { status = st } else inv) ∷ mark_those st p invs

unfoldable pub set_status : ℕ → SquadInviteStatus → Tables → Tables
set_status invite_id st db = record db {
  invites = mark_those st (λ inv. inv.id == invite_id) db.invites;
}

-- The test of `_delete_if_empty`.
unfoldable pub is_empty : Tables → Squad → Bool
unfolding pends_for
is_empty db squad =
    leb (length squad.members) 1 && not (any (pends_for squad.id) db.invites) && not squad.locked

-- `db.delete(squad)`; the rows of squad_invites go with it (ON DELETE CASCADE).
unfoldable pub delete_squad : ℕ → Tables → Tables
unfolding has_id
delete_squad i db = record db {
  squads = remove_first (has_id i) db.squads;
  invites = filter (λ inv. not (inv.squad_id == i)) db.invites;
}

unfoldable pub delete_if_empty : ℕ → Tables → Tables
delete_if_empty i db = elim (squad_by_id db i) [
  | none ↦ db
  | some squad ↦ if is_empty db squad then delete_squad i db else db
]

-- One round of the last loop of `_cancel_pending_of`.
unfoldable pub sweep_one : Option ℕ → ℕ → ℕ → Tables → Tables
sweep_one excluded subject_id i db =
    if opt_eq excluded (some i) then db else elim (squad_by_id db i) [
      | none ↦ db
      | some squad ↦
          if is_empty db squad
          then notify_opt squad.created_by_student_id NoticeKey.cancelled subject_id
              (delete_squad i db)
          else db
    ]

unfoldable pub sweep : Option ℕ → ℕ → List ℕ → Tables → Tables
sweep excluded subject_id [] db = db
sweep excluded subject_id (i ∷ ids) db =
    sweep excluded subject_id ids (sweep_one excluded subject_id i db)

-- The keys of the dict `affected`: each squad once, in the order of its first invite.
unfoldable pub affected : List SquadInvite → List ℕ → List ℕ
affected [] seen = seen
affected (inv ∷ invs) seen =
    affected invs (if contains inv.squad_id seen then seen else seen ++ inv.squad_id ∷ [])

unfoldable pub cancels : Tables → ℕ → ℕ → Option ℕ → SquadInvite → Bool
unfolding concerns
cancels db subject_id student_id exclude inv =
    concerns db subject_id student_id inv && not (opt_eq exclude (some inv.id))

unfoldable pub excluded_squad_id : Tables → Option ℕ → Option ℕ
excluded_squad_id db none = none
excluded_squad_id db (some i) = elim (find (λ inv. inv.id == i) db.invites) [
  | none ↦ none
  | some inv ↦ some inv.squad_id
]

unfoldable pub cancel_pending_of : ℕ → ℕ → Option ℕ → Tables → Tables
cancel_pending_of subject_id student_id exclude db =
    let p = cancels db subject_id student_id exclude in
    sweep (excluded_squad_id db exclude) subject_id (affected (filter p db.invites) [])
      (record db { invites = mark_those cancelled p db.invites })

unfoldable pub has_duplicates : List ℕ → Bool
has_duplicates [] = false
has_duplicates (i ∷ ids) = contains i ids || has_duplicates ids

-- The `_require_eligible` calls, in order.
unfoldable pub require_eligible : Tables → ℕ → List ℕ → Option SquadReason
require_eligible db subject_id [] = none
require_eligible db subject_id (i ∷ ids) = elim (eligibility db subject_id i) [
  | some reason ↦ some reason
  | none ↦ require_eligible db subject_id ids
]

-- One SquadInvite and its notification.
unfoldable pub add_invite : ℕ → ℕ → ℕ → ℕ → Tables → Tables
add_invite squad_id creator_id subject_id i db = notify_student i invited subject_id (record db {
  invites =
      db.invites
      ++ record {
        id = db.next_invite;
        squad_id = squad_id;
        invited_student_id = i;
        invited_by_student_id = some creator_id;
        status = pending;
      }
        ∷ [];
  next_invite = suc db.next_invite;
})

-- The loop over the invitees.
unfoldable pub add_invites : ℕ → ℕ → ℕ → List ℕ → Tables → Tables
add_invites squad_id creator_id subject_id [] db = db
add_invites squad_id creator_id subject_id (i ∷ ids) db =
    add_invites squad_id creator_id subject_id ids (add_invite squad_id creator_id subject_id i db)

unfoldable pub add_squad : Squad → Tables → Tables
add_squad squad db = record db { squads = db.squads ++ squad ∷ []; next_squad = suc db.next_squad }

-- The checks of `create_with_invites` before it writes anything.
unfoldable pub refuse_create : Tables → ℕ → ℕ → List ℕ → Option SquadReason
refuse_create db subject_id creator_id ids = elim (db.squad_max_size subject_id) [
  | none ↦ some disabled
  | some size ↦
      if has_duplicates ids
      then some duplicate
      else if contains creator_id ids
      then some self_invite
      else if length ids == 0
      then some too_few
      else if ltb (size - 1) (length ids)
      then some too_many
      else require_eligible db subject_id (creator_id ∷ ids)
]

unfoldable pub create_with_invites : ℕ → ℕ → List ℕ → Tables → Outcome
create_with_invites subject_id creator_id invitee_ids db =
    elim (refuse_create db subject_id creator_id invitee_ids) [
      | some reason ↦ raised reason db
      | none ↦ done (
          audit squad_create db.next_squad (
            add_invites db.next_squad creator_id subject_id invitee_ids (
              add_squad
                (record {
                  id = db.next_squad;
                  subject_id = subject_id;
                  created_by_student_id = some creator_id;
                  created_by_user_id = none;
                  locked = false;
                  members = creator_id ∷ [];
                })
                db)))
    ]

unfoldable pub load_invite : Tables → ℕ → Option SquadInvite
unfolding is_pending
load_invite db invite_id = elim (find (λ inv. inv.id == invite_id) db.invites) [
  | none ↦ none
  | some inv ↦ if is_pending inv.status then some inv else none
]

unfoldable pub max_size_or_zero : Tables → ℕ → ℕ
max_size_or_zero db subject_id = elim (db.squad_max_size subject_id) [ none ↦ 0 | some n ↦ n ]

-- Why an accept is refused after it has been found to be the student's own.
unfoldable pub refuse_accept : Tables → Squad → ℕ → Option SquadReason
refuse_accept db squad student_id = elim (eligibility db squad.subject_id student_id) [
  | some reason ↦ some reason
  | none ↦
      if squad.locked
      then some squad_locked
      else if leb (max_size_or_zero db squad.subject_id) (length squad.members)
      then some squad_full
      else none
]

unfoldable pub add_member : ℕ → ℕ → Tables → Tables
unfolding has_id
add_member squad_id student_id db = record db {
  squads =
      modify_first (has_id squad_id) (λ s. record s { members = s.members ++ student_id ∷ [] })
        db.squads;
}

-- `lock_on_submit`, and the lock of a squad that has become full.
unfoldable pub lock_on_submit : ℕ → Tables → Tables
unfolding has_id
lock_on_submit squad_id db = record db {
  squads = modify_first (has_id squad_id) (λ s. record s { locked = true }) db.squads;
}

-- The rows that `SELECT ... WHERE squad_id = ... AND status = PENDING` returns.
unfoldable pub pending_ids : Tables → ℕ → List ℕ
unfolding pends_for
pending_ids db squad_id = map (λ inv. inv.id) (filter (pends_for squad_id) db.invites)

-- A squad that has become full is locked, and the invitations `others` are cancelled.
unfoldable pub fill : Bool → ℕ → List ℕ → Tables → Tables
fill full squad_id others db =
    if full
    then (let l = lock_on_submit squad_id db in
        record l { invites = mark_those cancelled (λ inv. contains inv.id others) l.invites })
    else db

-- The join. `flushed` are the tables at the last flush, in `_cancel_pending_of`: the session does
-- not autoflush (core/database.py), so the query for the other pending invites reads those, in which
-- the accepted invite is pending still.
unfoldable pub join : SquadInvite → Squad → ℕ → Tables → Tables
join inv squad student_id db =
    let flushed =
      cancel_pending_of squad.subject_id student_id (some inv.id)
        (add_member squad.id student_id db) in
    let marked = set_status inv.id accepted flushed in
    let others = pending_ids flushed squad.id in
    let full = leb (max_size_or_zero db squad.subject_id) (length squad.members + 1) in
    let filled = fill full squad.id others marked in
    notify_opt inv.invited_by_student_id NoticeKey.accepted squad.subject_id
      (audit squad_join squad.id filled)

-- An invite's squad is there, by its foreign key; the `none` below it is not reached.
unfoldable pub accept_invite : ℕ → ℕ → Tables → Outcome
accept_invite invite_id student_id db = elim (load_invite db invite_id) [
  | none ↦ raised not_pending db
  | some inv ↦
      if not (inv.invited_student_id == student_id)
      then raised not_yours db
      else elim (squad_by_id db inv.squad_id) [
        | none ↦ raised not_pending db
        | some squad ↦ elim (refuse_accept db squad student_id) [
          | some reason ↦ raised reason (set_status inv.id cancelled db)
          | none ↦ done (join inv squad student_id db)
        ]
      ]
]

unfoldable pub decline_invite : ℕ → ℕ → Tables → Outcome
decline_invite invite_id student_id db = elim (load_invite db invite_id) [
  | none ↦ raised not_pending db
  | some inv ↦
      if not (inv.invited_student_id == student_id)
      then raised not_yours db
      else elim (squad_by_id db inv.squad_id) [
        | none ↦ raised not_pending db
        | some squad ↦ done (
            delete_if_empty squad.id (
              notify_opt inv.invited_by_student_id NoticeKey.declined squad.subject_id
                (set_status inv.id declined db)))
      ]
]

unfoldable pub cancel_invite : ℕ → ℕ → Tables → Outcome
cancel_invite invite_id student_id db = elim (load_invite db invite_id) [
  | none ↦ raised not_pending db
  | some inv ↦ elim (squad_by_id db inv.squad_id) [
    | none ↦ raised not_pending db
    | some squad ↦
        if not (opt_eq squad.created_by_student_id (some student_id))
        then raised not_yours db
        else done (
            delete_if_empty squad.id (
              notify_student inv.invited_student_id NoticeKey.cancelled squad.subject_id
                (set_status inv.id cancelled db)))
  ]
]

unfoldable pub cancel_pending_of_all : ℕ → List ℕ → Tables → Tables
cancel_pending_of_all subject_id [] db = db
cancel_pending_of_all subject_id (i ∷ ids) db =
    cancel_pending_of_all subject_id ids (cancel_pending_of subject_id i none db)

unfoldable pub refuse_assign : Tables → ℕ → List ℕ → Option SquadReason
refuse_assign db subject_id ids = elim (db.squad_max_size subject_id) [
  | none ↦ some disabled
  | some size ↦
      if has_duplicates ids
      then some duplicate
      else if ltb (length ids) 2
      then some too_few
      else if ltb size (length ids)
      then some too_many
      else require_eligible db subject_id ids
]

unfoldable pub teacher_assign : ℕ → ℕ → List ℕ → Tables → Outcome
teacher_assign subject_id teacher_user_id student_ids db =
    elim (refuse_assign db subject_id student_ids) [
      | some reason ↦ raised reason db
      | none ↦ done (
          audit squad_assign db.next_squad (
            notify_all student_ids assigned subject_id (
              cancel_pending_of_all subject_id student_ids (
                add_squad
                  (record {
                    id = db.next_squad;
                    subject_id = subject_id;
                    created_by_student_id = none;
                    created_by_user_id = some teacher_user_id;
                    locked = true;
                    members = student_ids;
                  })
                  db))))
    ]
