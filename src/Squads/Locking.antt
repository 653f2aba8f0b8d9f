-- ===== src/Squads/Locking.antt =====
-- "Members are immutable once locked_at is set" (db/models/squad.py), of every step.
use submissions_checker.Prelude.{
  ℕ, ◌≡◌, inl, inr, true, false, Option, some, List, [], ◌∷◌, ◌++◌, arith, find, modify_first,
  remove_first,
}
use submissions_checker.Squads.State.{Squad, has_id}
use submissions_checker.Squads.Pruning.{Pruned, same, drop}
use submissions_checker.Squads.Steps.{
  SquadStep, tidy, form, join, lock, Locks, with_member, as_locked,
}

module _ (k : ℕ) {s : Squad} (locked : s.locked ≡ true) where
  find-remove_first :
      (i : ℕ) (xs : List Squad) (t : Squad)
      → find (has_id i) xs ≡ some t
      → t.locked ≡ false
      → find (has_id k) xs ≡ some s
      → find (has_id k) (remove_first (has_id i) xs) ≡ some s
  unfolding has_id
  find-remove_first i [] t e u h = ground arith
  find-remove_first i (x ∷ xs) t e u h = ground (arith, find-remove_first i xs t)

  find-with_member :
      (i st : ℕ) (xs : List Squad) (t : Squad)
      → find (has_id i) xs ≡ some t
      → t.locked ≡ false
      → find (has_id k) xs ≡ some s
      → find (has_id k) (modify_first (has_id i) (with_member st) xs) ≡ some s
  unfolding has_id
  find-with_member i st [] t e u h = ground arith
  find-with_member i st (x ∷ xs) t e u h = ground (arith, find-with_member i st xs t)

  find-as_locked :
      (i : ℕ) (xs : List Squad)
      → find (has_id k) xs ≡ some s
      → find (has_id k) (modify_first (has_id i) as_locked xs) ≡ some s
  unfolding has_id
  find-as_locked i [] h = ground arith
  find-as_locked i (x ∷ xs) h = ground (arith, find-as_locked i xs)

  find-append :
      (xs ys : List Squad) → find (has_id k) xs ≡ some s → find (has_id k) (xs ++ ys) ≡ some s
  find-append [] ys h = absurd (ground arith)
  find-append (x ∷ xs) ys h = ground (arith, find-append xs ys)

  find-Pruned :
      {xs ys : List Squad}
      → Pruned xs ys
      → find (has_id k) xs ≡ some s
      → find (has_id k) ys ≡ some s
  find-Pruned same h = h
  find-Pruned (drop {xs = xs} i t e l u p) h = find-Pruned p (find-remove_first i xs t e u h)

  find-Locks :
      (xs ys : List Squad) → Locks xs ys → find (has_id k) xs ≡ some s → find (has_id k) ys ≡ some s
  find-Locks xs ys (inl e) h = rw e h
  find-Locks xs ys (inr (i, e)) h = rw e (find-as_locked i xs h)

  -- A locked squad is left exactly as it is: nobody joins it, and it is not deleted.
  pub SquadStep-locked :
      (cap : ℕ → Option ℕ) {xs ys : List Squad}
      → SquadStep cap xs ys
      → find (has_id k) xs ≡ some s
      → find (has_id k) ys ≡ some s
  SquadStep-locked cap (tidy p) h = find-Pruned p h
  SquadStep-locked cap {xs} (form t n c l o z p) h = find-Pruned p (find-append xs (t ∷ []) h)
  SquadStep-locked cap {xs} (join i t st n zs ws e u c l z p m q) h =
      find-Pruned q (find-Locks zs ws m (find-Pruned p (find-with_member i st xs t e u h)))
  SquadStep-locked cap {xs} {ys} (lock m) h = find-Locks xs ys m h
