-- ===== src/Squads/Steps.antt =====
-- What a request may do to the squads, as a relation (the rules at the head of services/squads.py
-- and of db/models/squad.py), and the invariants that every such step keeps.
use submissions_checker.Prelude.{
  ℕ, ◌+◌, ◌≤◌, ◌<◌, ◌≡◌, refl, ◌⊎◌, inl, inr, Bool, true, false, ◌&&◌, Option, some, List, [], ◌∷◌,
  ◌++◌, arith, ◌==◌, if◌then◌else◌, length, length-append, find, modify_first, remove_first, All,
  Bool-cases, modify_first-All, remove_first-All, append-All,
}
use submissions_checker.Squads.State.{Squad, has_id}
use submissions_checker.Squads.Pruning.{Pruned, same, drop}

abbrev pub with_member : ℕ → Squad → Squad
with_member student_id s = record s { members = s.members ++ student_id ∷ [] }

abbrev pub as_locked : Squad → Squad
as_locked s = record s { locked = true }

-- How often a student sits in the squads of a subject.
unfoldable pub occurs : ℕ → List ℕ → ℕ
occurs i [] = 0
occurs i (j ∷ js) = (if j == i then 1 else 0) + occurs i js

unfoldable pub seats_in : ℕ → ℕ → Squad → ℕ
seats_in subject_id student_id s =
    if s.subject_id == subject_id then occurs student_id s.members else 0

unfoldable pub seats : ℕ → ℕ → List Squad → ℕ
seats subject_id student_id [] = 0
seats subject_id student_id (s ∷ xs) =
    seats_in subject_id student_id s + seats subject_id student_id xs

-- No lock, or one.
abbrev pub Locks : List Squad → List Squad → Type 0
Locks xs ys = (ys ≡ xs) ⊎ ((i : ℕ) × (ys ≡ modify_first (has_id i) as_locked xs))

-- `cap` are the subjects' sizes. A student forms a squad alone, a teacher forms one whole, or a
-- student without a seat takes one in a squad that is neither locked nor full; unlocked squads of
-- one member may go at any time.
pub data SquadStep (cap : ℕ → Option ℕ) (xs : List Squad) (ys : List Squad) : Type 0 where
  tidy : Pruned xs ys → SquadStep cap xs ys
  form :
      (s : Squad) (n : ℕ)
      → cap s.subject_id ≡ some n
      → length s.members ≤ n
      → ((i : ℕ) → occurs i s.members ≤ 1)
      → ((i : ℕ) → 0 < occurs i s.members → seats s.subject_id i xs ≡ 0)
      → Pruned (xs ++ s ∷ []) ys
      → SquadStep cap xs ys
  join :
      (i : ℕ) (s : Squad) (student_id n : ℕ) (zs ws : List Squad)
      → find (has_id i) xs ≡ some s
      → s.locked ≡ false
      → cap s.subject_id ≡ some n
      → length s.members < n
      → seats s.subject_id student_id xs ≡ 0
      → Pruned (modify_first (has_id i) (with_member student_id) xs) zs
      → Locks zs ws
      → Pruned ws ys
      → SquadStep cap xs ys
  lock : Locks xs ys → SquadStep cap xs ys

-- The size that the subject allows, where it has one.
abbrev pub Within : (ℕ → Option ℕ) → Squad → Type 0
Within cap s = (n : ℕ) → cap s.subject_id ≡ some n → length s.members ≤ n

-- No squad is larger than its subject allows, and no student has two seats in a subject.
pub record IsFormed (cap : ℕ → Option ℕ) (xs : List Squad) : Type 0 where
  pub capacity : All (Within cap) xs
  pub single : (subject_id student_id : ℕ) → seats subject_id student_id xs ≤ 1

seats-remove_first :
    (subject_id student_id : ℕ) (p : Squad → Bool) (xs : List Squad)
    → seats subject_id student_id (remove_first p xs) ≤ seats subject_id student_id xs
unfolding seats
seats-remove_first j k p [] = omega arith
seats-remove_first j k p (s ∷ xs) = ground (arith, seats-remove_first j k p xs)

seats-append : (j k : ℕ) (xs ys : List Squad) → seats j k (xs ++ ys) ≡ seats j k xs + seats j k ys
unfolding seats
seats-append j k [] ys = omega arith
seats-append j k (s ∷ xs) ys = omega (arith, seats-append j k xs ys)

occurs-append : (i : ℕ) (xs ys : List ℕ) → occurs i (xs ++ ys) ≡ occurs i xs + occurs i ys
unfolding occurs
occurs-append i [] ys = omega arith
occurs-append i (j ∷ xs) ys = omega (arith, occurs-append i xs ys)

seats-lock :
    (j k i : ℕ) (xs : List Squad) → seats j k (modify_first (has_id i) as_locked xs) ≡ seats j k xs
unfolding seats seats_in
seats-lock j k i [] = refl
seats-lock j k i (s ∷ xs) = ground (arith, seats-lock j k i xs)

seats-with_member :
    (j k i st : ℕ) (xs : List Squad) {s : Squad}
    → find (has_id i) xs ≡ some s
    → seats j k (modify_first (has_id i) (with_member st) xs)
      ≡ seats j k xs + (if s.subject_id == j && st == k then 1 else 0)
unfolding seats seats_in occurs
seats-with_member j k i st [] e = absurd (ground arith)
seats-with_member j k i st (t ∷ xs) e = elim (Bool-cases (has_id i t)) [
  | inl this ↦ ground (arith, occurs-append k t.members (st ∷ []))
  | inr later ↦ ground (arith, seats-with_member j k i st xs (rw later at e))
]

Pruned-seats : (j k : ℕ) {xs ys : List Squad} → Pruned xs ys → seats j k ys ≤ seats j k xs
Pruned-seats j k same = omega arith
Pruned-seats j k (drop {xs = xs} i s e l u p) =
    omega (arith, Pruned-seats j k p, seats-remove_first j k (has_id i) xs)

Pruned-All {κ} : (P : Squad → Type κ) {xs ys : List Squad} → Pruned xs ys → All P xs → All P ys
Pruned-All P same h = h
Pruned-All P (drop {xs = xs} i s e l u p) h = Pruned-All P p (remove_first-All P (has_id i) xs h)

Pruned-IsFormed :
    (cap : ℕ → Option ℕ) {xs ys : List Squad} → Pruned xs ys → IsFormed cap xs → IsFormed cap ys
Pruned-IsFormed cap p f = record {
  capacity = Pruned-All (Within cap) p f.capacity;
  single = λ j k. omega (arith, Pruned-seats j k p, f.single j k);
}

Locks-IsFormed :
    (cap : ℕ → Option ℕ) (xs ys : List Squad) → Locks xs ys → IsFormed cap xs → IsFormed cap ys
Locks-IsFormed cap xs ys (inl e) f = rw e f
Locks-IsFormed cap xs ys (inr (i, e)) f = rw e (record {
  capacity = modify_first-All (Within cap) (has_id i) as_locked xs (λ s _ h. h) f.capacity;
  single = λ j k. rw (seats-lock j k i xs) (f.single j k);
})

join-IsFormed :
    (cap : ℕ → Option ℕ) (i : ℕ) (s : Squad) (st n : ℕ) (xs : List Squad)
    → find (has_id i) xs ≡ some s
    → cap s.subject_id ≡ some n
    → length s.members < n
    → seats s.subject_id st xs ≡ 0
    → IsFormed cap xs
    → IsFormed cap (modify_first (has_id i) (with_member st) xs)
join-IsFormed cap i s st n xs e c l z f = record {
  capacity =
      modify_first-All (Within cap) (has_id i) (with_member st) xs
        (λ t et h m em. ground (arith, length-append t.members (st ∷ []))) f.capacity;
  single = λ j k. ground (arith, seats-with_member j k i st xs e, f.single j k);
}

form-IsFormed :
    (cap : ℕ → Option ℕ) (s : Squad) (n : ℕ) (xs : List Squad)
    → cap s.subject_id ≡ some n
    → length s.members ≤ n
    → ((i : ℕ) → occurs i s.members ≤ 1)
    → ((i : ℕ) → 0 < occurs i s.members → seats s.subject_id i xs ≡ 0)
    → IsFormed cap xs
    → IsFormed cap (xs ++ s ∷ [])
unfolding seats seats_in
form-IsFormed cap s n xs c l o z f = record {
  capacity = append-All (Within cap) xs (s ∷ []) f.capacity ((λ m em. ground arith), tt);
  single = λ j k. ground (arith, seats-append j k xs (s ∷ []), f.single j k, o k, z k);
}

-- Every step keeps both halves of the invariant.
pub SquadStep-IsFormed :
    (cap : ℕ → Option ℕ) {xs ys : List Squad}
    → SquadStep cap xs ys
    → IsFormed cap xs
    → IsFormed cap ys
SquadStep-IsFormed cap (tidy p) f = Pruned-IsFormed cap p f
SquadStep-IsFormed cap {xs} (form s n c l o z p) f =
    Pruned-IsFormed cap p (form-IsFormed cap s n xs c l o z f)
SquadStep-IsFormed cap {xs} (join i s st n zs ws e u c l z p k q) f =
    Pruned-IsFormed cap q
      (Locks-IsFormed cap zs ws k (Pruned-IsFormed cap p (join-IsFormed cap i s st n xs e c l z f)))
SquadStep-IsFormed cap {xs} {ys} (lock k) f = Locks-IsFormed cap xs ys k f
