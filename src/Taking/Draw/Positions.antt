-- ===== src/Taking/Draw/Positions.antt =====
-- api/routes/student_quiz.py `_snapshot_questions`: the positions of the options before and after the
-- shuffle.
use submissions_checker.Prelude.{
  ℕ, zero, suc, ◌+◌, ◌≡◌, refl, ◌<◌, Bool, true, false, none, some, List, [], ◌∷◌, arith, contains,
  Codes, ◌==◌, if◌then◌else◌, inl, inr, Option-cases, Bool-cases, opt_eq, all,
}
use submissions_checker.Quiz.Split.Deal.{occurrences}
use submissions_checker.Taking.Draw.{get_elem?, index_of, remap, pick}

-- No position stands twice, as in a shuffle of `range(n)`.
unfoldable pub distinct : List ℕ → Bool
distinct [] = true
distinct (x ∷ xs) = if contains x xs then false else distinct xs

-- Whether `c` stands at position `j`.
abbrev pub stands_at : List ℕ → ℕ → ℕ → Bool
stands_at xs c j = opt_eq (get_elem? xs j) (some c)

pub stands_at-contains : (xs : List ℕ) (c j : ℕ) → stands_at xs c j ≡ true → contains c xs ≡ true
unfolding get_elem?
stands_at-contains [] c j h = absurd (ground arith)
stands_at-contains (x ∷ xs) c zero h = ground arith
stands_at-contains (x ∷ xs) c (suc j) h = ground (arith, stands_at-contains xs c j h)

pub index_of-stands_at :
    (xs : List ℕ) (c i j : ℕ)
    → distinct xs ≡ true
    → index_of c xs ≡ some i
    → stands_at xs c j ≡ (j == i)
unfolding get_elem? index_of distinct
index_of-stands_at [] c i j d e = absurd (ground arith)
index_of-stands_at (x ∷ xs) c i zero d e = elim (Option-cases (index_of c xs)) [
  | inl n ↦ ground (arith, n)
  | inr (k, f) ↦ ground (arith, f)
]
index_of-stands_at (x ∷ xs) c i (suc j) d e = elim (Bool-cases (stands_at xs c j)) [
  | inl here ↦ elim (Option-cases (index_of c xs)) [
    | inl n ↦ ground (arith, n, stands_at-contains xs c j here)
    | inr (k, f) ↦ ground (arith, f, stands_at-contains xs c j here, index_of-stands_at xs c k j)
  ]
  | inr away ↦ elim (Option-cases (index_of c xs)) [
    | inl n ↦ ground (arith, n)
    | inr (k, f) ↦ ground (arith, f, index_of-stands_at xs c k j)
  ]
]

-- Whether position `j` shows an option that is correct.
abbrev pub shows_correct : List ℕ → List ℕ → ℕ → Bool
shows_correct correct xs j = elim (get_elem? xs j) [ none ↦ false | some o ↦ contains o correct ]

pub pick-get_elem? :
    (options : List Codes) (indices : List ℕ) (shown : List Codes) (j o : ℕ)
    → pick options indices ≡ some shown
    → get_elem? indices j ≡ some o
    → get_elem? shown j ≡ get_elem? options o
unfolding pick get_elem?
pick-get_elem? options [] shown j o p e = absurd (ground arith)
pick-get_elem? options (i ∷ is) shown zero o p e = elim (Option-cases (get_elem? options i)) [
  | inl n ↦ absurd (ground (arith, n))
  | inr (c, f) ↦ elim (Option-cases (pick options is)) [
    | inl n ↦ absurd (ground (arith, f, n))
    | inr (rest, g) ↦ ground (arith, f, g)
  ]
]
pick-get_elem? options (i ∷ is) shown (suc j) o p e = elim (Option-cases (get_elem? options i)) [
  | inl n ↦ absurd (ground (arith, n))
  | inr (c, f) ↦ elim (Option-cases (pick options is)) [
    | inl n ↦ absurd (ground (arith, f, n))
    | inr (rest, g) ↦ ground (arith, f, g, pick-get_elem? options is rest j o g e)
  ]
]

occurrences-remap_below :
    (correct : List ℕ) (i k : ℕ) (xs : List ℕ) → k < i → occurrences k (remap correct i xs) ≡ 0
unfolding remap
occurrences-remap_below correct i k [] h = refl
occurrences-remap_below correct i k (x ∷ xs) h =
    ground (arith, occurrences-remap_below correct (i + 1) k xs)

pub occurrences-remap :
    (correct : List ℕ) (i j k : ℕ) (xs : List ℕ)
    → i + j ≡ k
    → occurrences k (remap correct i xs) ≡ (if shows_correct correct xs j then 1 else 0)
unfolding remap get_elem?
occurrences-remap correct i j k [] e = refl
occurrences-remap correct i zero k (x ∷ xs) e =
    ground (arith, occurrences-remap_below correct (i + 1) k xs)
occurrences-remap correct i (suc j) k (x ∷ xs) e =
    ground (arith, occurrences-remap correct (i + 1) j k xs)

pub index_of-none : (c : ℕ) (xs : List ℕ) → index_of c xs ≡ none → contains c xs ≡ false
unfolding index_of
index_of-none c [] h = refl
index_of-none c (x ∷ xs) h = elim (Option-cases (index_of c xs)) [
  | inl n ↦ ground (arith, n, index_of-none c xs n)
  | inr (k, f) ↦ absurd (ground (arith, f))
]

pub contains-all :
    (c : ℕ) (indices correct : List ℕ)
    → all (λ o. contains o indices) correct ≡ true
    → contains c correct ≡ true
    → contains c indices ≡ true
contains-all c indices [] h k = absurd (ground arith)
contains-all c indices (o ∷ correct) h k = ground (arith, contains-all c indices correct)

occurrences-absent : (k : ℕ) (xs : List ℕ) → contains k xs ≡ false → occurrences k xs ≡ 0
occurrences-absent k [] h = refl
occurrences-absent k (x ∷ xs) h = ground (arith, occurrences-absent k xs)

pub occurrences-distinct :
    (k : ℕ) (xs : List ℕ) → distinct xs ≡ true → occurrences k xs ≡ (if contains k xs then 1 else 0)
unfolding distinct
occurrences-distinct k [] d = refl
occurrences-distinct k (x ∷ xs) d =
    ground (arith, occurrences-distinct k xs, occurrences-absent k xs)
