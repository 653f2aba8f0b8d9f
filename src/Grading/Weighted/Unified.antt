-- ===== src/Grading/Weighted/Unified.antt =====
-- services/grading.py `finalize_grade` with services/squads.py `member_sa_ids`: a squad has one grade.
use submissions_checker.Prelude.{
  ℕ, ◌+◌, ◌≡◌, refl, sym, Bool, true, false, not, ◌&&◌, ◌||◌, none, some, List, [], ◌∷◌, ◌++◌,
  arith, map, all, any, contains, find, ltb, ◌==◌, if◌then◌else◌, inl, inr, Option-cases,
  Bool-cases,
}
use submissions_checker.Squads.State.{Squad}
use submissions_checker.Grading.Rows.{
  StudentAssignment, AssignmentRows, is_row, add_row, member_sa_ids, write_grade, write_grades,
}
use submissions_checker.Grading.Weighted.{
  GradeFloats, GradedAssignment, GradedSubmission, grade_of, target_sa_ids, finalize_grade,
}

-- The ids of the rows are below the next one and no two are the same.
abbrev pub keyed : List StudentAssignment → Bool
keyed [] = true
keyed (sa ∷ rows) = not (any (λ other. other.id == sa.id) rows) && keyed rows

abbrev pub below : ℕ → List StudentAssignment → Bool
below n rows = all (λ sa. ltb sa.id n) rows

keyed-append :
    (rows : List StudentAssignment) (sa : StudentAssignment)
    → keyed rows ≡ true
    → below sa.id rows ≡ true
    → keyed (rows ++ sa ∷ []) ≡ true
keyed-append [] sa h b = refl
keyed-append (r ∷ rows) sa h b = ground (arith, keyed-append rows sa, any-append rows sa r.id)
  where
    any-append :
        (xs : List StudentAssignment) (x : StudentAssignment) (i : ℕ)
        → any (λ other. other.id == i) (xs ++ x ∷ [])
          ≡ (any (λ other. other.id == i) xs || x.id == i)
    any-append [] x i = ground arith
    any-append (y ∷ ys) x i = ground (arith, any-append ys x i)

below-append :
    (rows : List StudentAssignment) (sa : StudentAssignment) (n : ℕ)
    → below n rows ≡ true
    → sa.id ≡ n
    → below (n + 1) (rows ++ sa ∷ []) ≡ true
below-append [] sa n b e = ground arith
below-append (r ∷ rows) sa n b e = ground (arith, below-append rows sa n)

find-append :
    (p : StudentAssignment → Bool) (rows more : List StudentAssignment) (sa : StudentAssignment)
    → find p rows ≡ some sa
    → find p (rows ++ more) ≡ some sa
find-append p [] more sa h = absurd (ground arith)
find-append p (r ∷ rows) more sa h = ground (arith, find-append p rows more sa)

find-append_none :
    (p : StudentAssignment → Bool) (rows : List StudentAssignment) (sa : StudentAssignment)
    → find p rows ≡ none
    → p sa ≡ true
    → find p (rows ++ sa ∷ []) ≡ some sa
find-append_none p [] sa h e = ground arith
find-append_none p (r ∷ rows) sa h e = ground (arith, find-append_none p rows sa)

-- The rows that `member_sa_ids` leaves are keyed, and keep what was found before.
module _ (asg_id : ℕ) where
  member_sa_ids-keyed :
      (members : List ℕ) (db : AssignmentRows)
      → keyed db.rows ≡ true
      → below db.next_id db.rows ≡ true
      → keyed (member_sa_ids members asg_id db).1.rows ≡ true
  unfolding member_sa_ids
  member_sa_ids-keyed [] db k b = k
  member_sa_ids-keyed (i ∷ members) db k b = elim (Option-cases (find (is_row i asg_id) db.rows)) [
    | inr (sa, e) ↦ rw (e, member_sa_ids) (member_sa_ids-keyed members db k b)
    | inl e ↦
        rw (e, member_sa_ids)
          (member_sa_ids-keyed members (add_row i asg_id db) (add_row-keyed i db k b)
            (add_row-below i db b))
  ]
    where
      add_row-keyed :
          (i : ℕ) (db : AssignmentRows)
          → keyed db.rows ≡ true
          → below db.next_id db.rows ≡ true
          → keyed (add_row i asg_id db).rows ≡ true
      add_row-keyed i db k b = keyed-append db.rows _ k b

      add_row-below :
          (i : ℕ) (db : AssignmentRows)
          → below db.next_id db.rows ≡ true
          → below (add_row i asg_id db).next_id (add_row i asg_id db).rows ≡ true
      add_row-below i db b = below-append db.rows _ db.next_id b refl

  pub member_sa_ids-find :
      (members : List ℕ) (j : ℕ) (sa : StudentAssignment) (db : AssignmentRows)
      → find (is_row j asg_id) db.rows ≡ some sa
      → find (is_row j asg_id) (member_sa_ids members asg_id db).1.rows ≡ some sa
  unfolding member_sa_ids add_row
  member_sa_ids-find [] j sa db h = h
  member_sa_ids-find (i ∷ members) j sa db h =
      elim (Option-cases (find (is_row i asg_id) db.rows)) [
        | inr (r, e) ↦ rw (e, member_sa_ids) (member_sa_ids-find members j sa db h)
        | inl e ↦
            rw (e, member_sa_ids)
              (member_sa_ids-find members j sa (add_row i asg_id db)
                (find-append (is_row j asg_id) db.rows _ sa h))
      ]

  abbrev new_row : ℕ → AssignmentRows → StudentAssignment
  new_row i db = record {
    id = db.next_id;
    student_id = i;
    subjects_assignment_id = asg_id;
    grade = none;
    teacher_scores = none;
  }

  add_row-find :
      (i : ℕ) (db : AssignmentRows)
      → find (is_row i asg_id) db.rows ≡ none
      → find (is_row i asg_id) (add_row i asg_id db).rows ≡ some (new_row i db)
  unfolding add_row is_row
  add_row-find i db e = find-append_none (is_row i asg_id) db.rows (new_row i db) e (own_row i db)
    where
      own_row : (i : ℕ) (db : AssignmentRows) → is_row i asg_id (new_row i db) ≡ true
      own_row i db = ground arith

  -- Every member has a row, and its id is among those that are returned.
  pub member_sa_ids-contains :
      (members : List ℕ) (i : ℕ) (db : AssignmentRows)
      → contains i members ≡ true
      → (sa : StudentAssignment) × (find (is_row i asg_id) (member_sa_ids members asg_id db).1.rows
          ≡ some sa)
        × (contains sa.id (member_sa_ids members asg_id db).0 ≡ true)
  unfolding member_sa_ids
  member_sa_ids-contains [] i db h = absurd (ground arith)
  member_sa_ids-contains (j ∷ members) i db h =
      elim (Option-cases (find (is_row j asg_id) db.rows)) [
        | inr (r, e) ↦ elim (Bool-cases (i == j)) [
          | inl here ↦
              let same : i ≡ j = ground arith in
              let found = member_sa_ids-find members j r db e in
              rw (same, e, member_sa_ids) (r, found, ground arith)
          | inr away ↦
              let (sa, found, listed) = member_sa_ids-contains members i db (ground arith) in
              rw (e, member_sa_ids) (sa, found, ground arith)
        ]
        | inl e ↦ elim (Bool-cases (i == j)) [
          | inl here ↦
              let same : i ≡ j = ground arith in
              let found =
                member_sa_ids-find members j (new_row j db) (add_row j asg_id db)
                  (add_row-find j db e) in
              rw (same, e, member_sa_ids) (new_row j db, found, ground arith)
          | inr away ↦
              let (sa, found, listed) =
                member_sa_ids-contains members i (add_row j asg_id db) (ground arith) in
              rw (e, member_sa_ids) (sa, found, ground arith)
        ]
      ]

-- A row as it is once the rows with these ids have the grade.
abbrev pub marked : ℕ → List ℕ → StudentAssignment → StudentAssignment
marked g ids sa = if contains sa.id ids then record sa { grade = some g } else sa

marked_none :
    (g x : ℕ) (rows : List StudentAssignment)
    → any (λ other. other.id == x) rows ≡ false
    → map (marked g (x ∷ [])) rows ≡ rows
marked_none g x [] h = refl
marked_none g x (r ∷ rows) h = ground (arith, marked_none g x rows)

write_grade-marked :
    (g x : ℕ) (rows : List StudentAssignment)
    → keyed rows ≡ true
    → write_grade g x rows ≡ map (marked g (x ∷ [])) rows
unfolding write_grade
write_grade-marked g x [] k = refl
write_grade-marked g x (r ∷ rows) k =
    ground (arith, write_grade-marked g x rows, marked_none g x rows)

marked-marked :
    (g x : ℕ) (ids : List ℕ) (rows : List StudentAssignment)
    → map (marked g ids) (map (marked g (x ∷ [])) rows) ≡ map (marked g (x ∷ ids)) rows
marked-marked g x ids [] = refl
marked-marked g x ids (r ∷ rows) = ground (arith, marked-marked g x ids rows)

any-marked :
    (g x i : ℕ) (rows : List StudentAssignment)
    → any (λ other. other.id == i) (map (marked g (x ∷ [])) rows)
      ≡ any (λ other. other.id == i) rows
any-marked g x i [] = refl
any-marked g x i (r ∷ rows) = ground (arith, any-marked g x i rows)

keyed-marked :
    (g x : ℕ) (rows : List StudentAssignment) → keyed (map (marked g (x ∷ [])) rows) ≡ keyed rows
keyed-marked g x [] = refl
keyed-marked g x (r ∷ rows) = ground (arith, keyed-marked g x rows, any-marked g x r.id rows)

marked_empty : (g : ℕ) (rows : List StudentAssignment) → map (marked g []) rows ≡ rows
marked_empty g [] = refl
marked_empty g (r ∷ rows) = ground (arith, marked_empty g rows)

write_grades-marked :
    (g : ℕ) (ids : List ℕ) (rows : List StudentAssignment)
    → keyed rows ≡ true
    → write_grades g ids rows ≡ map (marked g ids) rows
unfolding write_grades
write_grades-marked g [] rows k = sym (marked_empty g rows)
write_grades-marked g (x ∷ ids) rows k = ground (
  arith,
  write_grade-marked g x rows k,
  write_grades-marked g ids (map (marked g (x ∷ [])) rows) (ground (arith, keyed-marked g x rows)),
  marked-marked g x ids rows,
)

find-marked :
    (g i asg_id : ℕ) (ids : List ℕ) (sa : StudentAssignment) (rows : List StudentAssignment)
    → find (is_row i asg_id) rows ≡ some sa
    → find (is_row i asg_id) (map (marked g ids) rows) ≡ some (marked g ids sa)
unfolding is_row
find-marked g i asg_id ids sa [] h = absurd (ground arith)
find-marked g i asg_id ids sa (r ∷ rows) h = ground (arith, find-marked g i asg_id ids sa rows)

module _ (gf : GradeFloats) where
  open gf use {percent}
  open percent use {F}

  -- When the submission of a squad gets a grade, every member of the squad has a row for the assignment
  -- afterwards, and it has that grade: a member without a row gets one. The rows are keyed by their ids
  -- before.
  pub finalize_grade-member {ℓ} :
      {G : Type ℓ} (sub : GradedSubmission F G) (db db' : AssignmentRows) (squad : Squad)
      (sa : StudentAssignment) (asg : GradedAssignment F) (g i : ℕ)
      → keyed db.rows ≡ true
      → below db.next_id db.rows ≡ true
      → sub.owner ≡ some (sa, asg)
      → sub.squad ≡ some squad
      → finalize_grade gf sub db ≡ (some g, db')
      → contains i squad.members ≡ true
      → (mine : StudentAssignment) × (find (is_row i asg.id) db'.rows ≡ some mine)
        × (mine.grade ≡ some g)
  unfolding finalize_grade target_sa_ids
  finalize_grade-member sub db db' squad sa asg g i k b owner team run member =
      let (ids, targets) = member_sa_ids squad.members asg.id db in
      let (row, found, listed) = member_sa_ids-contains asg.id squad.members i db member in
      let key : keyed targets.rows ≡ true = member_sa_ids-keyed asg.id squad.members db k b in
      elim (Option-cases (grade_of gf sa asg sub)) [
        | inl n ↦ absurd (ground (arith, owner, n))
        | inr (h, e) ↦
            let same : h ≡ g = ground (arith, owner, e, team) in
            let rows : db'.rows ≡ write_grades g ids targets.rows =
              ground (arith, owner, e, team, same) in
            (
              marked g ids row,
              rw (rows, write_grades-marked g ids targets.rows key)
                  (find-marked g i asg.id ids row targets.rows found),
              ground (arith, listed),
            )
      ]
