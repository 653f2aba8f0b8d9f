-- ===== src/Squads/Refinement.antt =====
-- Every request of the program is one of the steps that the rules allow.
use mathlib.Core.Path.{subst}
use submissions_checker.Prelude.{
  ℕ, ◌+◌, ◌≤◌, ◌<◌, ◌≡◌, refl, sym, ◌∙◌, inl, inr, Bool, true, false, none, some, List, [], ◌∷◌,
  arith, leb, ◌==◌, if◌then◌else◌, length, contains, find, Bool-cases, Option-cases, opt_eq,
  is_some,
}
use submissions_checker.Squads.State.{
  Squad, SquadInvite, Tables, has_id, seats_student, squad_of, squad_by_id, eligibility,
  squad_has_pending_invites, has_pending_invites, NoticeKey, SquadInviteStatus, squad_create,
  squad_join, squad_assign,
}
use submissions_checker.Squads.Formation.{
  audit, set_status, cancel_pending_of, add_invites, add_squad, add_member, lock_on_submit, fill,
  pending_ids, has_duplicates, require_eligible, refuse_create, refuse_assign, refuse_accept,
  max_size_or_zero, create_with_invites, accept_invite, decline_invite, cancel_invite,
  teacher_assign, load_invite, join as join_squad,
}
use submissions_checker.Squads.Requests.{
  Verb, accept, decline, cancel, Request, create, reply, assign, submit, rolled_back, committed,
  create_squad, answer_invite, answer, invite_subject_id, assign_squad, submit_lock, handle,
}
use submissions_checker.Squads.Pruning.{
  Cleans, Cleans-trans, Cleans-refl, notify_student-Cleans, notify_opt-Cleans, notify_all-Cleans,
  audit-Cleans, set_status-Cleans, add_invites-Cleans, delete_if_empty-Cleans,
  cancel_pending_of-Cleans, cancel_pending_of_all-Cleans,
}
use submissions_checker.Squads.Steps.{
  SquadStep, tidy, form, join, lock, Locks, occurs, seats_in, seats,
}

-- A step that leaves the sizes alone.
pub record Steps (db : Tables) (db' : Tables) : Type 0 where
  pub sizes : db'.squad_max_size ≡ db.squad_max_size
  pub step : SquadStep db.squad_max_size db.squads db'.squads

Cleans-Steps : {db db' : Tables} → Cleans db db' → Steps db db'
Cleans-Steps c = record { sizes = c.sizes; step = tidy c.pruned }

Steps-refl : (db : Tables) → Steps db db
Steps-refl db = Cleans-Steps (Cleans-refl db)

occurs_absent : (i : ℕ) (xs : List ℕ) → contains i xs ≡ false → occurs i xs ≡ 0
unfolding occurs
occurs_absent i [] h = refl
occurs_absent i (x ∷ xs) h = ground (arith, occurs_absent i xs)

seats_absent : (j k : ℕ) (xs : List Squad) → find (seats_student j k) xs ≡ none → seats j k xs ≡ 0
unfolding seats seats_in seats_student
seats_absent j k [] h = refl
seats_absent j k (s ∷ xs) h = ground (arith, seats_absent j k xs, occurs_absent k s.members)

-- An eligible student has no seat, and the subject has a size.
eligibility-seats : (db : Tables) (j k : ℕ) → eligibility db j k ≡ none → seats j k db.squads ≡ 0
unfolding eligibility squad_of
eligibility-seats db j k h = ground (arith, seats_absent j k db.squads)

require_eligible-seats :
    (db : Tables) (j i : ℕ) (ids : List ℕ)
    → require_eligible db j ids ≡ none
    → 0 < occurs i ids
    → seats j i db.squads ≡ 0
unfolding require_eligible occurs
require_eligible-seats db j i [] h o = absurd (omega arith)
require_eligible-seats db j i (x ∷ ids) h o =
    ground (arith, eligibility-seats db j x, require_eligible-seats db j i ids)

has_duplicates-occurs : (i : ℕ) (ids : List ℕ) → has_duplicates ids ≡ false → occurs i ids ≤ 1
unfolding has_duplicates occurs
has_duplicates-occurs i [] h = omega arith
has_duplicates-occurs i (x ∷ ids) h =
    ground (arith, has_duplicates-occurs i ids, occurs_absent x ids)

refuse_create-none :
    (j k : ℕ) (ids : List ℕ) (db : Tables)
    → refuse_create db j k ids ≡ none
    → (n : ℕ) × (db.squad_max_size j ≡ some n) × (1 ≤ n) × (seats j k db.squads ≡ 0)
unfolding refuse_create
refuse_create-none j k ids db h = elim (Option-cases (db.squad_max_size j)) [
  | inl off ↦ absurd (ground arith)
  | inr (n, e) ↦ (
    n,
    e,
    ground arith,
    require_eligible-seats db j k (k ∷ ids) (ground arith) (unfold occurs in ground arith),
  )
]

refuse_assign-none :
    (j : ℕ) (ids : List ℕ) (db : Tables)
    → refuse_assign db j ids ≡ none
    → (n : ℕ) × (db.squad_max_size j ≡ some n)
      × (length ids ≤ n)
      × (has_duplicates ids ≡ false)
      × (require_eligible db j ids ≡ none)
unfolding refuse_assign
refuse_assign-none j ids db h = elim (Option-cases (db.squad_max_size j)) [
  | inl off ↦ absurd (ground arith)
  | inr (n, e) ↦ (n, e, ground arith, ground arith, ground arith)
]

refuse_accept-none :
    (db : Tables) (s : Squad) (st : ℕ)
    → refuse_accept db s st ≡ none
    → (n : ℕ) × (db.squad_max_size s.subject_id ≡ some n)
      × (length s.members < n)
      × (s.locked ≡ false)
      × (eligibility db s.subject_id st ≡ none)
unfolding refuse_accept max_size_or_zero
refuse_accept-none db s st h = elim (Option-cases (eligibility db s.subject_id st)) [
  | inl fit ↦ elim (Option-cases (db.squad_max_size s.subject_id)) [
    | inl off ↦ absurd (ground arith)
    | inr (n, e) ↦ (n, e, ground arith, ground arith, fit)
  ]
  | inr (reason, e) ↦ absurd (ground arith)
]

one-occurs : (i k : ℕ) → occurs i (k ∷ []) ≡ (if k == i then 1 else 0)
unfolding occurs
one-occurs i k = ground arith

pub create_with_invites-Steps :
    (j k : ℕ) (ids : List ℕ) (db : Tables)
    → Steps db (rolled_back db (create_with_invites j k ids db))
unfolding create_with_invites rolled_back
create_with_invites-Steps j k ids db = elim (Option-cases (refuse_create db j k ids)) [
  | inr (reason, e) ↦ rw (e, rolled_back) (Steps-refl db)
  | inl fine ↦
      let (n, size, room, free) = refuse_create-none j k ids db fine in
      let s : Squad = record {
        id = db.next_squad;
        subject_id = j;
        created_by_student_id = some k;
        created_by_user_id = none;
        locked = false;
        members = k ∷ [];
      } in
      let invited = add_invites db.next_squad k j ids (add_squad s db) in
      let c =
        Cleans-trans (add_invites-Cleans db.next_squad k j ids (add_squad s db))
          (audit-Cleans squad_create db.next_squad invited) in
      rw (fine, rolled_back)
        (unfold add_squad in
          record {
            sizes = c.sizes;
            step =
                form s n size room (λ i. ground (arith, one-occurs i k))
                  (λ i o. ground (arith, one-occurs i k)) c.pruned;
          })
]

pub teacher_assign-Steps :
    (j teacher : ℕ) (ids : List ℕ) (db : Tables)
    → Steps db (rolled_back db (teacher_assign j teacher ids db))
unfolding teacher_assign rolled_back
teacher_assign-Steps j teacher ids db = elim (Option-cases (refuse_assign db j ids)) [
  | inr (reason, e) ↦ rw (e, rolled_back) (Steps-refl db)
  | inl fine ↦
      let (n, size, room, distinct, fit) = refuse_assign-none j ids db fine in
      let s : Squad = record {
        id = db.next_squad;
        subject_id = j;
        created_by_student_id = none;
        created_by_user_id = some teacher;
        locked = true;
        members = ids;
      } in
      let c = Cleans-trans (cancel_pending_of_all-Cleans j ids (add_squad s db)) (
        Cleans-trans (notify_all-Cleans ids NoticeKey.assigned j _)
          (audit-Cleans squad_assign db.next_squad _)) in
      rw (fine, rolled_back)
        (unfold add_squad in
          record {
            sizes = c.sizes;
            step =
                form s n size room (λ i. has_duplicates-occurs i ids distinct)
                  (λ i o. require_eligible-seats db j i ids fit o) c.pruned;
          })
]

-- A squad that is found has the id that was asked for.
pub find-id : (i : ℕ) (xs : List Squad) (s : Squad) → find (has_id i) xs ≡ some s → s.id ≡ i
unfolding has_id
find-id i [] s e = absurd (ground arith)
find-id i (x ∷ xs) s e = ground (arith, find-id i xs s)

find-has_id :
    (i : ℕ) (xs : List Squad) {s : Squad}
    → find (has_id i) xs ≡ some s
    → find (has_id s.id) xs ≡ some s
find-has_id i xs {s} e = subst (λ k. find (has_id k) xs ≡ some s) (sym (find-id i xs s e)) e

fill-Locks :
    (full : Bool) (i : ℕ) (others : List ℕ) (db : Tables)
    → Locks db.squads (fill full i others db).squads
      × ((fill full i others db).squad_max_size ≡ db.squad_max_size)
unfolding fill lock_on_submit
fill-Locks true i others db = (inr (i, refl), refl)
fill-Locks false i others db = (inl refl, refl)

join-Steps :
    (inv : SquadInvite) (s : Squad) (st : ℕ) (db : Tables)
    → find (has_id s.id) db.squads ≡ some s
    → refuse_accept db s st ≡ none
    → Steps db (join_squad inv s st db)
unfolding join_squad add_member
join-Steps inv s st db e fine =
    let (n, size, room, open_, fit) = refuse_accept-none db s st fine in
    let added = add_member s.id st db in
    let flushed = cancel_pending_of s.subject_id st (some inv.id) added in
    let marked = set_status inv.id SquadInviteStatus.accepted flushed in
    let full = leb (max_size_or_zero db s.subject_id) (length s.members + 1) in
    let others = pending_ids flushed s.id in
    let filled = fill full s.id others marked in
    let first =
      Cleans-trans (cancel_pending_of-Cleans s.subject_id st (some inv.id) added)
        (set_status-Cleans inv.id SquadInviteStatus.accepted flushed) in
    let last = Cleans-trans (audit-Cleans squad_join s.id filled) (
      notify_opt-Cleans inv.invited_by_student_id NoticeKey.accepted s.subject_id
        (audit squad_join s.id filled)) in
    let (locks, kept) = fill-Locks full s.id others marked in
    record {
      sizes = last.sizes ∙ (kept ∙ first.sizes);
      step =
          join s.id s st n marked.squads filled.squads e open_ size room
            (eligibility-seats db s.subject_id st fit) first.pruned locks last.pruned;
    }

accept_invite-Steps : (i st : ℕ) (db : Tables) → Steps db (committed (accept_invite i st db))
unfolding accept_invite committed
accept_invite-Steps i st db = elim (Option-cases (load_invite db i)) [
  | inl gone ↦ rw (gone, committed) (Steps-refl db)
  | inr (inv, e) ↦ elim (Bool-cases (inv.invited_student_id == st)) [
    | inr other ↦ rw (e, other, committed) (Steps-refl db)
    | inl own ↦ elim (Option-cases (squad_by_id db inv.squad_id)) [
      | inl none_ ↦ rw (e, own, none_, committed) (Steps-refl db)
      | inr (s, es) ↦ elim (Option-cases (refuse_accept db s st)) [
        | inr (reason, er) ↦
            rw (e, own, es, er, committed)
              (Cleans-Steps (set_status-Cleans inv.id SquadInviteStatus.cancelled db))
        | inl fine ↦
            rw (e, own, es, fine, committed)
              (join-Steps inv s st db
                (find-has_id inv.squad_id db.squads (unfold squad_by_id in es)) fine)
      ]
    ]
  ]
]

decline_invite-Steps : (i st : ℕ) (db : Tables) → Steps db (rolled_back db (decline_invite i st db))
unfolding decline_invite rolled_back
decline_invite-Steps i st db = elim (Option-cases (load_invite db i)) [
  | inl gone ↦ rw (gone, rolled_back) (Steps-refl db)
  | inr (inv, e) ↦ elim (Bool-cases (inv.invited_student_id == st)) [
    | inr other ↦ rw (e, other, rolled_back) (Steps-refl db)
    | inl own ↦ elim (Option-cases (squad_by_id db inv.squad_id)) [
      | inl none_ ↦ rw (e, own, none_, rolled_back) (Steps-refl db)
      | inr (s, es) ↦
          rw (e, own, es, rolled_back)
            (Cleans-Steps (
              Cleans-trans (set_status-Cleans inv.id SquadInviteStatus.declined db) (
                Cleans-trans
                  (notify_opt-Cleans inv.invited_by_student_id NoticeKey.declined s.subject_id _)
                  (delete_if_empty-Cleans s.id _))))
    ]
  ]
]

cancel_invite-Steps : (i st : ℕ) (db : Tables) → Steps db (rolled_back db (cancel_invite i st db))
unfolding cancel_invite rolled_back
cancel_invite-Steps i st db = elim (Option-cases (load_invite db i)) [
  | inl gone ↦ rw (gone, rolled_back) (Steps-refl db)
  | inr (inv, e) ↦ elim (Option-cases (squad_by_id db inv.squad_id)) [
    | inl none_ ↦ rw (e, none_, rolled_back) (Steps-refl db)
    | inr (s, es) ↦ elim (Bool-cases (opt_eq s.created_by_student_id (some st))) [
      | inr other ↦ rw (e, es, other, rolled_back) (Steps-refl db)
      | inl own ↦
          rw (e, es, own, rolled_back)
            (Cleans-Steps (
              Cleans-trans (set_status-Cleans inv.id SquadInviteStatus.cancelled db) (
                Cleans-trans
                  (notify_student-Cleans inv.invited_student_id NoticeKey.cancelled s.subject_id _)
                  (delete_if_empty-Cleans s.id _))))
    ]
  ]
]

answer_invite-Steps : (v : Verb) (i st : ℕ) (db : Tables) → Steps db (answer_invite v i st db)
unfolding answer_invite
answer_invite-Steps accept i st db = accept_invite-Steps i st db
answer_invite-Steps decline i st db = decline_invite-Steps i st db
answer_invite-Steps cancel i st db = cancel_invite-Steps i st db

answer-Steps : (v : Verb) (j st i : ℕ) (db : Tables) → Steps db (answer v j st i db)
unfolding answer
answer-Steps v j st i db = elim (Bool-cases (db.enrolled j st)) [
  | inr no_row ↦ rw no_row (Steps-refl db)
  | inl row ↦ elim (Option-cases (invite_subject_id db i)) [
    | inl gone ↦ rw (row, gone) (Steps-refl db)
    | inr (k, e) ↦ elim (Bool-cases (k == j)) [
      | inr other ↦ rw (row, e, other) (Steps-refl db)
      | inl here ↦ rw (row, e, here) (answer_invite-Steps v i st db)
    ]
  ]
]

submit_lock-Steps : (j st : ℕ) (db : Tables) → Steps db (submit_lock j st db)
unfolding submit_lock lock_on_submit
submit_lock-Steps j st db = elim (Bool-cases (is_some (db.squad_max_size j))) [
  | inr off ↦ rw off (Steps-refl db)
  | inl on ↦ elim (Bool-cases (has_pending_invites db j st)) [
    | inl pends ↦ rw (on, pends) (Steps-refl db)
    | inr clear ↦ elim (Bool-cases (squad_has_pending_invites db j st)) [
      | inl pends ↦ rw (on, clear, pends) (Steps-refl db)
      | inr settled ↦ elim (Option-cases (squad_of db j st)) [
        | inl alone ↦ rw (on, clear, settled, alone) (Steps-refl db)
        | inr (s, e) ↦
            rw (on, clear, settled, e) (record { sizes = refl; step = lock (inr (s.id, refl)) })
      ]
    ]
  ]
]

-- Each request, accepted or refused, is one step of the rules on the squads, and never changes the
-- sizes that the subjects allow.
pub handle-Steps : (r : Request) (db : Tables) → Steps db (handle r db)
unfolding handle create_squad assign_squad
handle-Steps (create j k ids) db = elim (Bool-cases (db.enrolled j k)) [
  | inr no_row ↦ rw no_row (Steps-refl db)
  | inl row ↦ rw row (create_with_invites-Steps j k ids db)
]
handle-Steps (reply v j st i) db = answer-Steps v j st i db
handle-Steps (assign j t ids) db = teacher_assign-Steps j t ids db
handle-Steps (submit j st) db = submit_lock-Steps j st db
