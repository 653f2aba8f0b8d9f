-- ===== src/Taking/Draw/Sorting.antt =====
-- api/routes/student_quiz.py `_grade_answer`: `sorted(chosen) == sorted(correct)` compares how often
-- each position is chosen.
use submissions_checker.Prelude.{
  ℕ, ◌+◌, ◌≤◌, ◌≡◌, refl, sym, ap, ◌∙◌, true, List, [], ◌∷◌, arith, map, ◌==◌, if◌then◌else◌, inl,
  inr, Bool-cases, codes_eq, codes_eq_refl, codes_eq-eq, ◌↔◌, pos, ℤs_eq, insert_sorted_ℤ, sorted_ℤ,
  insert_sorted, sorted,
}
use submissions_checker.Quiz.Split.Deal.{occurrences}

insert_sorted_ℤ-pos :
    (a : ℕ) (xs : List ℕ) → insert_sorted_ℤ (pos a) (map pos xs) ≡ map pos (insert_sorted a xs)
insert_sorted_ℤ-pos a [] = refl
insert_sorted_ℤ-pos a (x ∷ xs) = ground (arith, insert_sorted_ℤ-pos a xs)

sorted_ℤ-pos : (xs : List ℕ) → sorted_ℤ (map pos xs) ≡ map pos (sorted xs)
sorted_ℤ-pos [] = refl
sorted_ℤ-pos (x ∷ xs) =
    ap (insert_sorted_ℤ (pos x)) (sorted_ℤ-pos xs) ∙ insert_sorted_ℤ-pos x (sorted xs)

ℤs_eq-pos : (xs ys : List ℕ) → ℤs_eq (map pos xs) (map pos ys) ≡ codes_eq xs ys
ℤs_eq-pos [] [] = refl
ℤs_eq-pos [] (y ∷ ys) = refl
ℤs_eq-pos (x ∷ xs) [] = refl
ℤs_eq-pos (x ∷ xs) (y ∷ ys) = ground (arith, ℤs_eq-pos xs ys)

-- The comparison of the grader on positions.
pub ℤs_eq-sorted_ℤ :
    (xs ys : List ℕ)
    → ℤs_eq (sorted_ℤ (map pos xs)) (sorted_ℤ (map pos ys)) ≡ codes_eq (sorted xs) (sorted ys)
ℤs_eq-sorted_ℤ xs ys = rw (sorted_ℤ-pos xs, sorted_ℤ-pos ys) (ℤs_eq-pos (sorted xs) (sorted ys))

insert_sorted_comm :
    (a b : ℕ) (xs : List ℕ)
    → insert_sorted a (insert_sorted b xs) ≡ insert_sorted b (insert_sorted a xs)
insert_sorted_comm a b [] = ground arith
insert_sorted_comm a b (x ∷ xs) = ground (arith, insert_sorted_comm a b xs)

remove_one : ℕ → List ℕ → List ℕ
remove_one a [] = []
remove_one a (x ∷ xs) = if a == x then xs else x ∷ remove_one a xs

sorted-remove_one :
    (a : ℕ) (xs : List ℕ)
    → 1 ≤ occurrences a xs
    → sorted xs ≡ insert_sorted a (sorted (remove_one a xs))
unfolding remove_one
sorted-remove_one a [] h = absurd (ground arith)
sorted-remove_one a (x ∷ xs) h = elim (Bool-cases (a == x)) [
  | inl same ↦ ground (arith, same)
  | inr other ↦ ground (
    arith,
    other,
    sorted-remove_one a xs (ground (arith, other)),
    insert_sorted_comm a x (sorted (remove_one a xs)),
  )
]

occurrences-remove_one :
    (k a : ℕ) (xs : List ℕ)
    → 1 ≤ occurrences a xs
    → occurrences k xs ≡ (if k == a then 1 else 0) + occurrences k (remove_one a xs)
unfolding remove_one
occurrences-remove_one k a [] h = absurd (ground arith)
occurrences-remove_one k a (x ∷ xs) h = ground (arith, occurrences-remove_one k a xs)

same_items-sorted :
    (xs ys : List ℕ) → ((k : ℕ) → occurrences k xs ≡ occurrences k ys) → sorted xs ≡ sorted ys
same_items-sorted [] [] h = refl
same_items-sorted [] (y ∷ ys) h = absurd (ground (arith, h y))
same_items-sorted (x ∷ xs) ys h =
    let there : 1 ≤ occurrences x ys = ground (arith, h x) in
    let rest =
      same_items-sorted xs (remove_one x ys)
        (λ k. ground (arith, h k, occurrences-remove_one k x ys there)) in
    ap (insert_sorted x) rest ∙ sym (sorted-remove_one x ys there)

occurrences-insert_sorted :
    (k a : ℕ) (xs : List ℕ) → occurrences k (insert_sorted a xs) ≡ occurrences k (a ∷ xs)
occurrences-insert_sorted k a [] = refl
occurrences-insert_sorted k a (x ∷ xs) = ground (arith, occurrences-insert_sorted k a xs)

occurrences-sorted : (k : ℕ) (xs : List ℕ) → occurrences k (sorted xs) ≡ occurrences k xs
occurrences-sorted k [] = refl
occurrences-sorted k (x ∷ xs) =
    ground (arith, occurrences-insert_sorted k x (sorted xs), occurrences-sorted k xs)

-- Sorted lists are equal exactly when each item occurs as often in both.
pub codes_eq-sorted :
    (xs ys : List ℕ)
    → (codes_eq (sorted xs) (sorted ys) ≡ true) ↔ ((k : ℕ) → occurrences k xs ≡ occurrences k ys)
codes_eq-sorted xs ys = (
  λ h k. ground (
    arith,
    ap (occurrences k) (codes_eq-eq (sorted xs) (sorted ys) h),
    occurrences-sorted k xs,
    occurrences-sorted k ys,
  ),
  λ h. rw (same_items-sorted xs ys h) (codes_eq_refl (sorted ys)),
)
