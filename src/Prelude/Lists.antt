-- ===== src/Prelude/Lists.antt =====
-- Lists measured and searched with native numbers, under the library's names where it has them.
use Prim.Native.Nat.{ℕ, suc, ◌+◌, ◌≤◌}
use mathlib.Core.Path.{◌≡◌, refl, subst}
use mathlib.Core.Option.{Option, none, some}
use mathlib.Core.Logic.{inl, inr}
use mathlib.Core.Bool.{Bool, true, false, ◌&&◌, ◌||◌}
use mathlib.Core.List.{List, [], ◌∷◌, ◌++◌}
use native.Mathlib.Omega.{arith}
use submissions_checker.Prelude.Tests.{◌==◌, leb, if◌then◌else◌, Bool-cases}

-- A predicate on every member, by recursion: it computes to tuples.
abbrev pub All {ℓ κ} : {A : Type ℓ} → (A → Type κ) → List A → Type κ
All P [] = Unit
All P (x ∷ xs) = P x × All P xs

module _ {ℓ} {A : Type ℓ} where
  abbrev pub length : List A → ℕ
  length [] = 0
  length (x ∷ xs) = suc (length xs)

  -- Python's `any(p(x) for x in xs)` and `all(...)`.
  abbrev pub any : (A → Bool) → List A → Bool
  any p [] = false
  any p (x ∷ xs) = p x || any p xs

  abbrev pub all : (A → Bool) → List A → Bool
  all p [] = true
  all p (x ∷ xs) = p x && all p xs

  -- `[x for x in xs if p(x)]`
  abbrev pub filter : (A → Bool) → List A → List A
  filter p [] = []
  filter p (x ∷ xs) = let rest = filter p xs in if p x then x ∷ rest else rest

  -- `sum(1 for x in xs if p(x))`
  abbrev pub count : (A → Bool) → List A → ℕ
  count p [] = 0
  count p (x ∷ xs) = let rest = count p xs in if p x then suc rest else rest

  -- `sum(f(x) for x in xs)`
  abbrev pub sum_by : (A → ℕ) → List A → ℕ
  sum_by f [] = 0
  sum_by f (x ∷ xs) = f x + sum_by f xs

  pub length-append : (xs ys : List A) → length (xs ++ ys) ≡ length xs + length ys
  length-append [] ys = omega arith
  length-append (x ∷ xs) ys = omega (arith, length-append xs ys)

  pub sum_by-append : (f : A → ℕ) (xs ys : List A) → sum_by f (xs ++ ys) ≡ sum_by f xs + sum_by f ys
  sum_by-append f [] ys = omega arith
  sum_by-append f (x ∷ xs) ys = omega (arith, sum_by-append f xs ys)

  pub count-le-length : (p : A → Bool) (xs : List A) → count p xs ≤ length xs
  count-le-length p [] = omega arith
  count-le-length p (x ∷ xs) = ground (arith, count-le-length p xs)

  pub length-filter : (p : A → Bool) (xs : List A) → length (filter p xs) ≡ count p xs
  length-filter p [] = refl
  length-filter p (x ∷ xs) = ground (arith, length-filter p xs)

module _ {ℓ} {A : Type ℓ} where
  -- A table row by its key: the first that passes the test.
  abbrev pub find : (A → Bool) → List A → Option A
  find p [] = none
  find p (x ∷ xs) = if p x then some x else find p xs

  abbrev pub modify_first : (A → Bool) → (A → A) → List A → List A
  modify_first p f [] = []
  modify_first p f (x ∷ xs) = if p x then f x ∷ xs else x ∷ modify_first p f xs

  abbrev pub remove_first : (A → Bool) → List A → List A
  remove_first p [] = []
  remove_first p (x ∷ xs) = if p x then xs else x ∷ remove_first p xs

  -- A row that is found is one of the rows.
  pub find-All {κ} :
      (P : A → Type κ) (p : A → Bool) (xs : List A) {x : A} → All P xs → find p xs ≡ some x → P x
  find-All P p [] h e = absurd (ground arith)
  find-All P p (y ∷ xs) h e = elim (Bool-cases (p y)) [
    | inl here ↦ subst P (cc (rw here at e)) h.0
    | inr later ↦ find-All P p xs h.1 (rw later at e)
  ]

  pub modify_first-All {κ} :
      (P : A → Type κ) (p : A → Bool) (f : A → A) (xs : List A)
      → ((x : A) → find p xs ≡ some x → P x → P (f x))
      → All P xs
      → All P (modify_first p f xs)
  modify_first-All P p f [] k h = tt
  modify_first-All P p f (x ∷ xs) k h = elim (Bool-cases (p x)) [
    | inl here ↦ rw here (k x (rw here) h.0, h.1)
    | inr later ↦ rw later (h.0, modify_first-All P p f xs (λ y e. k y (rw later e)) h.1)
  ]

  pub remove_first-All {κ} :
      (P : A → Type κ) (p : A → Bool) (xs : List A) → All P xs → All P (remove_first p xs)
  remove_first-All P p [] h = tt
  remove_first-All P p (x ∷ xs) h = elim (Bool-cases (p x)) [
    | inl here ↦ rw here h.1
    | inr later ↦ rw later (h.0, remove_first-All P p xs h.1)
  ]

  pub append-All {κ} : (P : A → Type κ) (xs ys : List A) → All P xs → All P ys → All P (xs ++ ys)
  append-All P [] ys h k = k
  append-All P (x ∷ xs) ys h k = (h.0, append-All P xs ys h.1 k)

-- `x in xs` for numbers.
abbrev pub contains : ℕ → List ℕ → Bool
contains a [] = false
contains a (x ∷ xs) = a == x || contains a xs

pub contains-filter :
    (p : ℕ → Bool) (i : ℕ) (xs : List ℕ) → contains i (filter p xs) ≡ (contains i xs && p i)
contains-filter p i [] = refl
contains-filter p i (x ∷ xs) = ground (arith, contains-filter p i xs)

-- `sorted(xs)` on numbers.
abbrev pub insert_sorted : ℕ → List ℕ → List ℕ
insert_sorted a [] = a ∷ []
insert_sorted a (x ∷ xs) = if leb a x then a ∷ x ∷ xs else x ∷ insert_sorted a xs

abbrev pub sorted : List ℕ → List ℕ
sorted [] = []
sorted (x ∷ xs) = insert_sorted x (sorted xs)

contains-insert_sorted :
    (i a : ℕ) (xs : List ℕ) → contains i (insert_sorted a xs) ≡ (i == a || contains i xs)
contains-insert_sorted i a [] = refl
contains-insert_sorted i a (x ∷ xs) = ground (arith, contains-insert_sorted i a xs)

pub contains-sorted : (i : ℕ) (xs : List ℕ) → contains i (sorted xs) ≡ contains i xs
contains-sorted i [] = refl
contains-sorted i (x ∷ xs) =
    ground (arith, contains-insert_sorted i x (sorted xs), contains-sorted i xs)
