-- ===== src/Quiz/Split/Deal.antt =====
-- services/quiz_split.py: the slices of a draw are a partition of it, and near-equal.
use native.Mathlib.Nat.{mod-lt, mod-eq_of_lt, mod-add-mod, mod_self, zero-mod}
use submissions_checker.Prelude.{
  ℕ, zero, suc, ◌+◌, ◌%◌, ◌≤◌, ◌<◌, ◌≡◌, refl, sym, ◌∙◌, not, some, List, [], ◌∷◌, ◌++◌, map,
  filter, arith, count, sum_by, length, length-append, ltb, ◌==◌, if◌then◌else◌, Bool-cases, inl,
  inr,
}
use submissions_checker.Quiz.Split.{
  DrawnQuestion, append_at, deal, empty_slices, required_first, split_draw,
}

-- How often an id occurs.
abbrev pub occurrences : ℕ → List ℕ → ℕ
occurrences k xs = count (λ x. k == x) xs

abbrev pub occurrences_in : ℕ → List (List ℕ) → ℕ
occurrences_in k slices = sum_by (occurrences k) slices

occurrences-append_one :
    (k x : ℕ) (xs : List ℕ)
    → occurrences k (xs ++ x ∷ []) ≡ occurrences k xs + occurrences k (x ∷ [])
occurrences-append_one k x [] = ground arith
occurrences-append_one k x (y ∷ ys) = ground (arith, occurrences-append_one k x ys)

occurrences-append_at :
    (k i x : ℕ) (slices : List (List ℕ))
    → i < length slices
    → occurrences_in k (append_at i x slices) ≡ occurrences_in k slices + occurrences k (x ∷ [])
unfolding append_at
occurrences-append_at k i x [] h = absurd (ground arith)
occurrences-append_at k zero x (s ∷ slices) h = ground (arith, occurrences-append_one k x s)
occurrences-append_at k (suc i) x (s ∷ slices) h =
    ground (arith, occurrences-append_at k i x slices (ground arith))

length-append_at :
    (i x : ℕ) (slices : List (List ℕ)) → length (append_at i x slices) ≡ length slices
unfolding append_at
length-append_at i x [] = refl
length-append_at zero x (s ∷ slices) = refl
length-append_at (suc i) x (s ∷ slices) = ground (arith, length-append_at i x slices)

occurrences-deal :
    (k m p : ℕ) (qs : List DrawnQuestion) (slices : List (List ℕ))
    → 0 < m
    → length slices ≡ m
    → occurrences_in k (deal m p qs slices)
      ≡ occurrences_in k slices + occurrences k (map (λ q. q.id) qs)
unfolding deal
occurrences-deal k m p [] slices h l = ground arith
occurrences-deal k m p (q ∷ qs) slices h l =
    let i = p % m in
    let lt : i < m = mod-lt p h in
    ground (
      arith,
      occurrences-deal k m (p + 1) qs (append_at i q.id slices) h
          (length-append_at i q.id slices ∙ l),
      occurrences-append_at k i q.id slices (ground arith),
    )

length-empty_slices : (n : ℕ) → length (empty_slices n) ≡ n
unfolding empty_slices
length-empty_slices zero = refl
length-empty_slices (suc n) = ground (arith, length-empty_slices n)

occurrences-empty_slices : (k n : ℕ) → occurrences_in k (empty_slices n) ≡ 0
unfolding empty_slices
occurrences-empty_slices k zero = refl
occurrences-empty_slices k (suc n) = ground (arith, occurrences-empty_slices k n)

occurrences-append :
    (k : ℕ) (xs ys : List DrawnQuestion)
    → occurrences k (map (λ q. q.id) (xs ++ ys))
      ≡ occurrences k (map (λ q. q.id) xs) + occurrences k (map (λ q. q.id) ys)
occurrences-append k [] ys = ground arith
occurrences-append k (x ∷ xs) ys = ground (arith, occurrences-append k xs ys)

occurrences-filter :
    (k : ℕ) (qs : List DrawnQuestion)
    → occurrences k (map (λ q. q.id) (filter (λ q. q.is_required) qs))
        + occurrences k (map (λ q. q.id) (filter (λ q. not q.is_required) qs))
      ≡ occurrences k (map (λ q. q.id) qs)
occurrences-filter k [] = refl
occurrences-filter k (q ∷ qs) = ground (arith, occurrences-filter k qs)

-- Dealing the required questions first leaves the same questions.
occurrences-required_first :
    (k : ℕ) (qs : List DrawnQuestion)
    → occurrences k (map (λ q. q.id) (required_first qs)) ≡ occurrences k (map (λ q. q.id) qs)
unfolding required_first
occurrences-required_first k qs =
    occurrences-append k (filter (λ q. q.is_required) qs) (filter (λ q. not q.is_required) qs)
    ∙ occurrences-filter k qs

length-deal :
    (m p : ℕ) (qs : List DrawnQuestion) (slices : List (List ℕ))
    → length (deal m p qs slices) ≡ length slices
unfolding deal
length-deal m p [] slices = refl
length-deal m p (q ∷ qs) slices =
    length-deal m (p + 1) qs (append_at (p % m) q.id slices) ∙ length-append_at (p % m) q.id slices

-- The length of the slice at an index.
abbrev pub size_at : ℕ → List (List ℕ) → ℕ
size_at i [] = 0
size_at zero (s ∷ slices) = length s
size_at (suc i) (s ∷ slices) = size_at i slices

size_at-append_at :
    (j i x : ℕ) (slices : List (List ℕ))
    → i < length slices
    → size_at j (append_at i x slices) ≡ size_at j slices + (if j == i then 1 else 0)
unfolding append_at
size_at-append_at j i x [] h = absurd (ground arith)
size_at-append_at zero zero x (s ∷ slices) h = ground (arith, length-append s (x ∷ []))
size_at-append_at (suc j) zero x (s ∷ slices) h = ground arith
size_at-append_at zero (suc i) x (s ∷ slices) h = ground arith
size_at-append_at (suc j) (suc i) x (s ∷ slices) h =
    ground (arith, size_at-append_at j i x slices (ground arith))

-- The first `r` slices have one more than the others.
abbrev Level : ℕ → ℕ → ℕ → List (List ℕ) → Type 0
Level m k r slices = (j : ℕ) → j < m → size_at j slices ≡ k + (if ltb j r then 1 else 0)

suc_mod : (p m : ℕ) → 0 < m → (p + 1) % m ≡ (if p % m + 1 == m then 0 else p % m + 1)
suc_mod p m h = elim (Bool-cases (p % m + 1 == m)) [
  | inl e ↦
      rw e (sym (mod-add-mod p m 1) ∙ (let e' : p % m + 1 ≡ m = ground arith in rw e' (mod_self m)))
  | inr ne ↦
      let lt : p % m < m = mod-lt p h in
      let lt' : p % m + 1 < m = ground arith in rw ne (sym (mod-add-mod p m 1) ∙ mod-eq_of_lt lt')
]

deal-Level :
    (m k p : ℕ) (qs : List DrawnQuestion) (slices : List (List ℕ))
    → 0 < m
    → length slices ≡ m
    → Level m k (p % m) slices
    → (k' : ℕ) × (r : ℕ) × Level m k' r (deal m p qs slices)
unfolding deal
deal-Level m k p [] slices h l lv = (k, p % m, lv)
deal-Level m k p (q ∷ qs) slices h l lv =
    let i = p % m in
    let lt : i < m = mod-lt p h in
    let k' : ℕ = if i + 1 == m then k + 1 else k in
    deal-Level m k' (p + 1) qs (append_at i q.id slices) h (length-append_at i q.id slices ∙ l)
      (λ j hj.
        ground (arith, lv j hj, suc_mod p m h, size_at-append_at j i q.id slices (ground arith)))

size_at-empty_slices : (j n : ℕ) → size_at j (empty_slices n) ≡ 0
unfolding empty_slices
size_at-empty_slices j zero = refl
size_at-empty_slices zero (suc n) = refl
size_at-empty_slices (suc j) (suc n) = size_at-empty_slices j n

-- A draw for at least one member is split into one slice for each member, and every id stands in the
-- slices together as often as in the draw: nothing is lost, nothing is dealt twice.
pub split_draw-partition :
    (questions : List DrawnQuestion) (m : ℕ)
    → 0 < m
    → (slices : List (List ℕ)) × (split_draw questions m ≡ some slices)
      × (length slices ≡ m)
      × ((k : ℕ) → occurrences_in k slices ≡ occurrences k (map (λ q. q.id) questions))
unfolding split_draw
split_draw-partition questions m h = (
  deal m 0 (required_first questions) (empty_slices m),
  ground arith,
  length-deal m 0 (required_first questions) (empty_slices m) ∙ length-empty_slices m,
  λ k. ground (
    arith,
    occurrences-deal k m 0 (required_first questions) (empty_slices m) h (length-empty_slices m),
    occurrences-empty_slices k m,
    occurrences-required_first k questions,
  ),
)

-- The slices of a draw are near-equal: of two members, neither gets more than one question more
-- than the other.
pub split_draw-balanced :
    (questions : List DrawnQuestion) (m i j : ℕ) (slices : List (List ℕ))
    → split_draw questions m ≡ some slices
    → i < m
    → j < m
    → size_at i slices ≤ size_at j slices + 1
unfolding split_draw
split_draw-balanced questions m i j slices e hi hj =
    let dealt = deal m 0 (required_first questions) (empty_slices m) in
    let h : 0 < m = ground arith in
    let same : dealt ≡ slices = ground arith in
    let (k, r, lv) =
      deal-Level m 0 0 (required_first questions) (empty_slices m) h (length-empty_slices m)
        (λ l hl. ground (arith, size_at-empty_slices l m, zero-mod m)) in
    rw (sym same) (ground (arith, lv i hi, lv j hj))
