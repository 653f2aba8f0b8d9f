-- ===== src/Squads/Invites.antt =====
-- What an accept of services/squads.py leaves behind among the invitations: two outcomes that its
-- comments do not have in mind.
use submissions_checker.Prelude.{
  ℕ, ◌≤◌, ◌+◌, ◌≡◌, refl, ◌∙◌, ap, Bool, true, false, not, ◌&&◌, Option, none, some, List, [], ◌∷◌,
  arith, any, find, leb, map, filter, contains, length, ◌==◌, if◌then◌else◌, Option-cases,
  Bool-cases, inl, inr,
}
use submissions_checker.Squads.State.{
  Squad, SquadInvite, SquadInviteStatus, SquadReason, Tables, NoticeKey, squad_by_id, pends_for,
  is_pending, squad_join,
}
use submissions_checker.Squads.Formation.{
  load_invite, refuse_accept, accept_invite, mark_those, set_status, is_empty, delete_squad,
  sweep_one, sweep, affected, notify_student, notify_opt, audit, pending_ids, cancels,
  excluded_squad_id, cancel_pending_of, add_member, max_size_or_zero, lock_on_submit, fill, join,
}
use submissions_checker.Squads.Requests.{committed}
use submissions_checker.Squads.Refinement.{find-id}

any-mark_those :
    (st : SquadInviteStatus) (j i : ℕ) (invs : List SquadInvite)
    → is_pending st ≡ false
    → any (λ v. pends_for j v && not (v.id == i)) invs ≡ false
    → any (pends_for j) (mark_those st (λ v. v.id == i) invs) ≡ false
unfolding mark_those pends_for
any-mark_those st j i [] h n = refl
any-mark_those st j i (v ∷ invs) h n = ground (arith, any-mark_those st j i invs h)

-- A refused accept of the only pending invitation of an unlocked squad leaves the squad there with
-- its one member and nothing pending: `_delete_if_empty` would delete it, and is not called.
pub refused_accept_strands :
    (db : Tables) (i st : ℕ) (inv : SquadInvite) (s : Squad) (reason : SquadReason)
    → load_invite db i ≡ some inv
    → inv.id ≡ i
    → inv.invited_student_id ≡ st
    → squad_by_id db inv.squad_id ≡ some s
    → length s.members ≤ 1
    → s.locked ≡ false
    → any (λ v. pends_for s.id v && not (v.id == i)) db.invites ≡ false
    → refuse_accept db s st ≡ some reason
    → let after = committed (accept_invite i st db) in
      (squad_by_id after inv.squad_id ≡ some s) × (is_empty after s ≡ true)
unfolding committed accept_invite set_status squad_by_id is_empty
refused_accept_strands db i st inv s reason e ei own es small open_ alone er =
    ground (arith, any-mark_those SquadInviteStatus.cancelled s.id i db.invites)

-- The row of an invitation, by its key.
abbrev row : ℕ → List SquadInvite → Option SquadInvite
row i invs = find (λ v. v.id == i) invs

row-mark_those :
    (st : SquadInviteStatus) (p : SquadInvite → Bool) (i : ℕ) (invs : List SquadInvite)
    (v : SquadInvite)
    → row i invs ≡ some v
    → row i (mark_those st p invs) ≡ some (if p v then record v { status = st } else v)
unfolding mark_those
row-mark_those st p i [] v e = absurd (ground arith)
row-mark_those st p i (x ∷ invs) v e = elim (Bool-cases (x.id == i)) [
  | inl here ↦ ground arith
  | inr later ↦ ground (arith, row-mark_those st p i invs v)
]

row-delete_squad :
    (i j : ℕ) (db : Tables) (v : SquadInvite)
    → (v.squad_id == j) ≡ false
    → row i db.invites ≡ some v
    → row i (delete_squad j db).invites ≡ some v
unfolding delete_squad
row-delete_squad i j db v n e = go db.invites e
  where
    go :
        (invs : List SquadInvite)
        → row i invs ≡ some v
        → row i (filter (λ w. not (w.squad_id == j)) invs) ≡ some v
    go [] h = absurd (ground arith)
    go (x ∷ invs) h = ground (arith, go invs)

invites-notify_student :
    (k : ℕ) (key : NoticeKey) (j : ℕ) (db : Tables)
    → (notify_student k key j db).invites ≡ db.invites
unfolding notify_student
invites-notify_student k key j db = ground arith

invites-notify_opt :
    (o : Option ℕ) (key : NoticeKey) (j : ℕ) (db : Tables)
    → (notify_opt o key j db).invites ≡ db.invites
unfolding notify_opt
invites-notify_opt none key j db = refl
invites-notify_opt (some k) key j db = invites-notify_student k key j db

row-sweep_one :
    (i j k : ℕ) (db : Tables) (v : SquadInvite)
    → row i db.invites ≡ some v
    → row i (sweep_one (some v.squad_id) j k db).invites ≡ some v
unfolding sweep_one
row-sweep_one i j k db v e = elim (Bool-cases (v.squad_id == k)) [
  | inl excluded ↦ ground arith
  | inr other ↦ elim (Option-cases (squad_by_id db k)) [
    | inl gone ↦ ground arith
    | inr (s, es) ↦ ground (
      arith,
      invites-notify_opt s.created_by_student_id NoticeKey.cancelled j (delete_squad k db),
      row-delete_squad i k db v other e,
    )
  ]
]

row-sweep :
    (i j : ℕ) (ks : List ℕ) (db : Tables) (v : SquadInvite)
    → row i db.invites ≡ some v
    → row i (sweep (some v.squad_id) j ks db).invites ≡ some v
unfolding sweep
row-sweep i j [] db v e = e
row-sweep i j (k ∷ ks) db v e =
    row-sweep i j ks (sweep_one (some v.squad_id) j k db) v (row-sweep_one i j k db v e)

excluded-row :
    (i : ℕ) (db : Tables) (v : SquadInvite)
    → row i db.invites ≡ some v
    → excluded_squad_id db (some i) ≡ some v.squad_id
unfolding excluded_squad_id
excluded-row i db v e = ground arith

cancels-excluded :
    (db : Tables) (j st i : ℕ) (v : SquadInvite) → v.id ≡ i → cancels db j st (some i) v ≡ false
unfolding cancels
cancels-excluded db j st i v e = ground arith

row-cancel_pending_of :
    (i j st : ℕ) (db : Tables) (v : SquadInvite)
    → v.id ≡ i
    → row i db.invites ≡ some v
    → row i (cancel_pending_of j st (some i) db).invites ≡ some v
unfolding cancel_pending_of
row-cancel_pending_of i j st db v ei e =
    let p = cancels db j st (some i) in
    let kept = row-mark_those SquadInviteStatus.cancelled p i db.invites v e in
    rw (excluded-row i db v e) (
      row-sweep i j (affected (filter p db.invites) [])
        (record db { invites = mark_those SquadInviteStatus.cancelled p db.invites }) v
        (ground (arith, kept, cancels-excluded db j st i v ei)))

pending_ids-row :
    (i j : ℕ) (invs : List SquadInvite) (v : SquadInvite)
    → row i invs ≡ some v
    → pends_for j v ≡ true
    → contains i (map (λ w. w.id) (filter (pends_for j) invs)) ≡ true
pending_ids-row i j [] v e p = absurd (ground arith)
pending_ids-row i j (x ∷ invs) v e p = ground (arith, pending_ids-row i j invs v)

row-join :
    (db : Tables) (st : ℕ) (inv : SquadInvite) (s : Squad)
    → row inv.id db.invites ≡ some inv
    → pends_for s.id inv ≡ true
    → max_size_or_zero db s.subject_id ≤ length s.members + 1
    → row inv.id (join inv s st db).invites
      ≡ some (record inv { status = SquadInviteStatus.cancelled })
unfolding join fill set_status audit lock_on_submit pending_ids
row-join db st inv s e p full =
    let added = add_member s.id st db in
    let flushed = cancel_pending_of s.subject_id st (some inv.id) added in
    let others = pending_ids flushed s.id in
    let kept : row inv.id flushed.invites ≡ some inv =
      row-cancel_pending_of inv.id s.subject_id st added inv refl (unfold add_member in e) in
    let marked = set_status inv.id SquadInviteStatus.accepted flushed in
    let fulls = leb (max_size_or_zero db s.subject_id) (length s.members + 1) in
    ap (row inv.id) (
      invites-notify_opt inv.invited_by_student_id NoticeKey.accepted s.subject_id
        (audit squad_join s.id (fill fulls s.id others marked)))
    ∙ ground (
      arith,
      kept,
      pending_ids-row inv.id s.id flushed.invites inv kept p,
      row-mark_those SquadInviteStatus.accepted (λ v. v.id == inv.id) inv.id flushed.invites inv
          kept,
      row-mark_those SquadInviteStatus.cancelled (λ v. contains v.id others) inv.id marked.invites
          (record inv { status = SquadInviteStatus.accepted }),
    )

load_invite-row :
    (db : Tables) (i : ℕ) (inv : SquadInvite)
    → load_invite db i ≡ some inv
    → (row i db.invites ≡ some inv) × (is_pending inv.status ≡ true)
unfolding load_invite
load_invite-row db i inv e = elim (Option-cases (row i db.invites)) [
  | inl gone ↦ absurd (ground arith)
  | inr (v, ev) ↦ ground arith
]

-- The accept that is not refused and fills the squad ends with the accepted invitation CANCELLED:
-- the query for the squad's other pending invitations runs before the ACCEPTED of this one is
-- flushed, and returns it.
pub last_accept_cancelled :
    (db : Tables) (st : ℕ) (inv : SquadInvite) (s : Squad)
    → load_invite db inv.id ≡ some inv
    → inv.invited_student_id ≡ st
    → squad_by_id db inv.squad_id ≡ some s
    → refuse_accept db s st ≡ none
    → max_size_or_zero db s.subject_id ≤ length s.members + 1
    → find (λ v. v.id == inv.id) (committed (accept_invite inv.id st db)).invites
      ≡ some (record inv { status = SquadInviteStatus.cancelled })
unfolding accept_invite committed squad_by_id pends_for
last_accept_cancelled db st inv s e own es fine full =
    let (er, ep) = load_invite-row db inv.id inv e in
    let same_id = find-id inv.squad_id db.squads s es in
    ground (arith, row-join db st inv s er (ground arith) full)
