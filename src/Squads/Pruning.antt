-- ===== src/Squads/Pruning.antt =====
-- What the clean-up of services/squads.py (`_cancel_pending_of`, `_delete_if_empty`) can do to the
-- squads: it deletes unlocked squads of one member or none, and writes to no other.
use submissions_checker.Prelude.{
  ℕ, ◌≤◌, ◌≡◌, refl, ◌∙◌, true, false, Option, none, some, List, [], ◌∷◌, opt_eq, length, find,
  remove_first, inl, inr, arith, Bool-cases, Option-cases,
}
use submissions_checker.Squads.State.{
  Squad, NoticeKey, AuditAction, SquadInviteStatus, Tables, has_id, squad_by_id,
}
use submissions_checker.Squads.Formation.{
  notify_student, notify_opt, notify_all, audit, set_status, is_empty, delete_squad,
  delete_if_empty, sweep_one, sweep, cancel_pending_of, cancel_pending_of_all, add_invite,
  add_invites,
}

-- The second list is the first without some squads that were unlocked and had a member at most.
pub data Pruned : List Squad → List Squad → Type 0 where
  same : {xs : List Squad} → Pruned xs xs
  drop :
      {xs ys : List Squad} (i : ℕ) (s : Squad)
      → find (has_id i) xs ≡ some s
      → length s.members ≤ 1
      → s.locked ≡ false
      → Pruned (remove_first (has_id i) xs) ys
      → Pruned xs ys

pub Pruned-trans : {xs ys zs : List Squad} → Pruned xs ys → Pruned ys zs → Pruned xs zs
Pruned-trans same q = q
Pruned-trans (drop i s e l u p) q = drop i s e l u (Pruned-trans p q)

-- The squads are pruned and what the functions only read is as it was.
pub record Cleans (db : Tables) (db' : Tables) : Type 0 where
  pub sizes : db'.squad_max_size ≡ db.squad_max_size
  pub pruned : Pruned db.squads db'.squads

pub Cleans-trans : {a b c : Tables} → Cleans a b → Cleans b c → Cleans a c
Cleans-trans p q = record { sizes = q.sizes ∙ p.sizes; pruned = Pruned-trans p.pruned q.pruned }

pub Cleans-refl : (db : Tables) → Cleans db db
Cleans-refl db = record { sizes = refl; pruned = same }

pub notify_student-Cleans :
    (i : ℕ) (key : NoticeKey) (subject_id : ℕ) (db : Tables)
    → Cleans db (notify_student i key subject_id db)
unfolding notify_student
notify_student-Cleans i key subject_id db = elim (Bool-cases (db.has_user i)) [
  | inl user ↦ rw user (record { sizes = refl; pruned = same })
  | inr nobody ↦ rw nobody (Cleans-refl db)
]

pub notify_opt-Cleans :
    (o : Option ℕ) (key : NoticeKey) (subject_id : ℕ) (db : Tables)
    → Cleans db (notify_opt o key subject_id db)
unfolding notify_opt
notify_opt-Cleans none key subject_id db = Cleans-refl db
notify_opt-Cleans (some i) key subject_id db = notify_student-Cleans i key subject_id db

pub notify_all-Cleans :
    (ids : List ℕ) (key : NoticeKey) (subject_id : ℕ) (db : Tables)
    → Cleans db (notify_all ids key subject_id db)
unfolding notify_all
notify_all-Cleans [] key subject_id db = Cleans-refl db
notify_all-Cleans (i ∷ ids) key subject_id db =
    Cleans-trans (notify_student-Cleans i key subject_id db)
      (notify_all-Cleans ids key subject_id (notify_student i key subject_id db))

pub audit-Cleans : (a : AuditAction) (i : ℕ) (db : Tables) → Cleans db (audit a i db)
unfolding audit
audit-Cleans a i db = record { sizes = refl; pruned = same }

pub set_status-Cleans :
    (i : ℕ) (st : SquadInviteStatus) (db : Tables) → Cleans db (set_status i st db)
unfolding set_status
set_status-Cleans i st db = record { sizes = refl; pruned = same }

add_invite-Cleans :
    (squad_id creator_id subject_id i : ℕ) (db : Tables)
    → Cleans db (add_invite squad_id creator_id subject_id i db)
unfolding add_invite
add_invite-Cleans squad_id creator_id subject_id i db =
    Cleans-trans (record { sizes = refl; pruned = same })
      (notify_student-Cleans i NoticeKey.invited subject_id _)

pub add_invites-Cleans :
    (squad_id creator_id subject_id : ℕ) (ids : List ℕ) (db : Tables)
    → Cleans db (add_invites squad_id creator_id subject_id ids db)
unfolding add_invites
add_invites-Cleans squad_id creator_id subject_id [] db = Cleans-refl db
add_invites-Cleans squad_id creator_id subject_id (i ∷ ids) db =
    Cleans-trans (add_invite-Cleans squad_id creator_id subject_id i db) (
      add_invites-Cleans squad_id creator_id subject_id ids
        (add_invite squad_id creator_id subject_id i db))

delete_squad-Cleans :
    (i : ℕ) (s : Squad) (db : Tables)
    → squad_by_id db i ≡ some s
    → is_empty db s ≡ true
    → Cleans db (delete_squad i db)
unfolding delete_squad squad_by_id is_empty
delete_squad-Cleans i s db e h = record {
  sizes = refl;
  pruned = drop i s e (ground arith) (ground arith) same;
}

pub delete_if_empty-Cleans : (i : ℕ) (db : Tables) → Cleans db (delete_if_empty i db)
unfolding delete_if_empty
delete_if_empty-Cleans i db = elim (Option-cases (squad_by_id db i)) [
  | inl gone ↦ rw (gone, delete_if_empty) (Cleans-refl db)
  | inr (s, e) ↦ elim (Bool-cases (is_empty db s)) [
    | inl empty ↦ rw (e, delete_if_empty, empty) (delete_squad-Cleans i s db e empty)
    | inr kept ↦ rw (e, delete_if_empty, kept) (Cleans-refl db)
  ]
]

sweep_one-Cleans :
    (excluded : Option ℕ) (subject_id i : ℕ) (db : Tables)
    → Cleans db (sweep_one excluded subject_id i db)
unfolding sweep_one
sweep_one-Cleans excluded subject_id i db = elim (Bool-cases (opt_eq excluded (some i))) [
  | inl skipped ↦ rw skipped (Cleans-refl db)
  | inr seen ↦ elim (Option-cases (squad_by_id db i)) [
    | inl gone ↦ rw (seen, gone) (Cleans-refl db)
    | inr (s, e) ↦ elim (Bool-cases (is_empty db s)) [
      | inl empty ↦
          rw (seen, e, empty)
            (Cleans-trans (delete_squad-Cleans i s db e empty) (
              notify_opt-Cleans s.created_by_student_id NoticeKey.cancelled subject_id
                (delete_squad i db)))
      | inr kept ↦ rw (seen, e, kept) (Cleans-refl db)
    ]
  ]
]

sweep-Cleans :
    (excluded : Option ℕ) (subject_id : ℕ) (ids : List ℕ) (db : Tables)
    → Cleans db (sweep excluded subject_id ids db)
unfolding sweep
sweep-Cleans excluded subject_id [] db = Cleans-refl db
sweep-Cleans excluded subject_id (i ∷ ids) db =
    Cleans-trans (sweep_one-Cleans excluded subject_id i db)
      (sweep-Cleans excluded subject_id ids (sweep_one excluded subject_id i db))

pub cancel_pending_of-Cleans :
    (subject_id student_id : ℕ) (exclude : Option ℕ) (db : Tables)
    → Cleans db (cancel_pending_of subject_id student_id exclude db)
unfolding cancel_pending_of
cancel_pending_of-Cleans subject_id student_id exclude db =
    Cleans-trans (record { sizes = refl; pruned = same }) (sweep-Cleans _ subject_id _ _)

pub cancel_pending_of_all-Cleans :
    (subject_id : ℕ) (ids : List ℕ) (db : Tables)
    → Cleans db (cancel_pending_of_all subject_id ids db)
unfolding cancel_pending_of_all
cancel_pending_of_all-Cleans subject_id [] db = Cleans-refl db
cancel_pending_of_all-Cleans subject_id (i ∷ ids) db =
    Cleans-trans (cancel_pending_of-Cleans subject_id i none db)
      (cancel_pending_of_all-Cleans subject_id ids (cancel_pending_of subject_id i none db))
