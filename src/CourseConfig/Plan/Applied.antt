-- ===== src/CourseConfig/Plan/Applied.antt =====
-- services/config_apply.py: the rows of the assignments after a configuration is applied.
use submissions_checker.Prelude.{
  ◌≡◌, ◌⊎◌, refl, Bool, true, false, not, ◌&&◌, Option, none, some, List, [], ◌∷◌, ◌++◌, arith,
  Codes, codes_eq, codes_eq_refl, codes_eq_iff, lookup_code, if◌then◌else◌, is_some, Option-cases,
  inl, inr,
}
use submissions_checker.CourseConfig.{
  Yaml, AssignmentEntry, AssignmentColumns, Field, diff_assignment, create_assignment,
  apply_assignment_fields,
}
use submissions_checker.CourseConfig.Refreshed.{refreshed, apply_assignment_fields-refreshed}
use submissions_checker.CourseConfig.Plan.{
  Entries, to_create, to_delete, is_listed, update_row, delete_row, delete_all, to_update,
  compute_plan, create_all, update_all, execute_plan,
}

-- No code comes twice, as in a dict.
abbrev pub keyed {ℓ} : {A : Type ℓ} → List (Codes × A) → Bool
keyed [] = true
keyed ((code, a) ∷ d) = not (is_some (lookup_code code d)) && keyed d

to_create_lem :
    {V : Type 0} (c : Codes) (new prev : Entries V)
    → lookup_code c (to_create new prev)
      ≡ (if is_some (lookup_code c prev) then none else lookup_code c new)
unfolding to_create
to_create_lem c [] prev = ground arith
to_create_lem c ((code, a) ∷ new) prev =
    ground (arith, codes_eq_iff c code, to_create_lem c new prev)

to_delete_lem :
    {V : Type 0} (c : Codes) (new prev : Entries V)
    → is_listed c (to_delete new prev)
      ≡ (is_some (lookup_code c prev) && not (is_some (lookup_code c new)))
unfolding to_delete is_listed
to_delete_lem c new [] = refl
to_delete_lem c new ((code, p) ∷ prev) =
    ground (arith, codes_eq_iff c code, to_delete_lem c new prev)

module _ {V : Type 0} where
  lookup_code-update_row :
      (c code : Codes) (f : AssignmentColumns V → AssignmentColumns V)
      (rows : List (Codes × AssignmentColumns V))
      → lookup_code c (update_row code f rows) ≡ (elim (lookup_code c rows) [
        | none ↦ none
        | some row ↦ some (if codes_eq c code then f row else row)
      ])
  unfolding update_row
  lookup_code-update_row c code f [] = refl
  lookup_code-update_row c code f ((d, row) ∷ rows) = ground (
    arith,
    codes_eq_iff c d,
    codes_eq_iff code d,
    codes_eq_iff c code,
    lookup_code-update_row c code f rows,
  )

  lookup_code-delete_row :
      (c code : Codes) (rows : List (Codes × AssignmentColumns V))
      → lookup_code c (delete_row code rows)
        ≡ (if codes_eq c code then none else lookup_code c rows)
  unfolding delete_row
  lookup_code-delete_row c code [] = ground arith
  lookup_code-delete_row c code ((d, row) ∷ rows) = ground (
    arith,
    codes_eq_iff c d,
    codes_eq_iff code d,
    codes_eq_iff c code,
    lookup_code-delete_row c code rows,
  )

  lookup_code-append :
      (c code : Codes) (row : AssignmentColumns V) (rows : List (Codes × AssignmentColumns V))
      → lookup_code c (rows ++ (code, row) ∷ []) ≡ (elim (lookup_code c rows) [
        | some r ↦ some r
        | none ↦ if codes_eq c code then some row else none
      ])
  lookup_code-append c code row [] = refl
  lookup_code-append c code row ((d, r) ∷ rows) = ground (arith, lookup_code-append c code row rows)

  delete_all_lem :
      (has_works : Codes → Bool) (c : Codes) (codes : List Codes)
      (rows rows' : List (Codes × AssignmentColumns V))
      → delete_all has_works codes rows ≡ some rows'
      → lookup_code c rows' ≡ (if is_listed c codes then none else lookup_code c rows)
  unfolding delete_all is_listed
  delete_all_lem has_works c [] rows rows' h = ground arith
  delete_all_lem has_works c (code ∷ codes) rows rows' h = ground (
    arith,
    delete_all_lem has_works c codes (delete_row code rows) rows',
    lookup_code-delete_row c code rows,
  )

  delete_all-some :
      (has_works : Codes → Bool) (codes : List Codes) (rows : List (Codes × AssignmentColumns V))
      → ((c : Codes) → is_listed c codes ≡ true → has_works c ≡ false)
      → (rows' : List (Codes × AssignmentColumns V)) × (delete_all has_works codes rows
          ≡ some rows')
  unfolding delete_all is_listed
  delete_all-some has_works [] rows free = (rows, refl)
  delete_all-some has_works (code ∷ codes) rows free =
      let (rows', e) =
        delete_all-some has_works codes (delete_row code rows) (λ c h. free c (ground arith)) in
      let idle : has_works code ≡ false = free code (ground (arith, codes_eq_refl code)) in
      (rows', ground (arith, e, idle))

module _ (y : Yaml) where
  open y use {V}

  create_all_lem :
      (c : Codes) (entries : Entries V) (rows : List (Codes × AssignmentColumns V))
      → lookup_code c (create_all y entries rows) ≡ (elim (lookup_code c rows) [
        | some row ↦ some row
        | none ↦ elim (lookup_code c entries) [
          | none ↦ none
          | some a ↦ some (create_assignment y c a)
        ]
      ])
  unfolding create_all
  create_all_lem c [] rows = ground arith
  create_all_lem c ((code, a) ∷ entries) rows = ground (
    arith,
    codes_eq_iff c code,
    lookup_code-append c code (create_assignment y code a) rows,
    create_all_lem c entries (rows ++ (code, create_assignment y code a) ∷ []),
  )

  -- A row under both configurations, as the update leaves it.
  abbrev updated : Codes → Entries V → Entries V → AssignmentColumns V → AssignmentColumns V
  updated c new prev row = elim (lookup_code c new) [
    | none ↦ row
    | some a ↦ elim (lookup_code c prev) [
      | none ↦ row
      | some p ↦ apply_assignment_fields y c a (diff_assignment y a p) row
    ]
  ]

  abbrev updated_opt :
      Codes → Entries V → Entries V → Option (AssignmentColumns V) → Option (AssignmentColumns V)
  updated_opt c new prev none = none
  updated_opt c new prev (some row) = some (updated c new prev row)

  list-cases :
      (fields : List Field)
      → (fields ≡ []) ⊎ ((f : Field) × (rest : List Field) × (fields ≡ f ∷ rest))
  list-cases [] = inl refl
  list-cases (f ∷ rest) = inr (f, rest, refl)

  -- One entry that both configurations have: the row of its code is written, and the others stay.
  updates-step :
      (c code : Codes) (a p : AssignmentEntry V) (new prev : Entries V)
      (rows : List (Codes × AssignmentColumns V))
      → lookup_code code prev ≡ some p
      → (rows1 : List (Codes × AssignmentColumns V)) × (update_all y
            (to_update y ((code, a) ∷ new) prev)
            rows
          ≡ update_all y (to_update y new prev) rows1)
        × (lookup_code c rows1 ≡ (elim (lookup_code c rows) [
          | none ↦ none
          | some row ↦ some (
              if codes_eq c code
              then apply_assignment_fields y code a (diff_assignment y a p) row
              else row)
        ]))
  unfolding update_all to_update apply_assignment_fields
  updates-step c code a p new prev rows e = elim (list-cases (diff_assignment y a p)) [
    | inl n ↦ (rows, ground (arith, e, n), ground (arith, n))
    | inr (f, fields, d) ↦ (
      update_row code (apply_assignment_fields y code a (f ∷ fields)) rows,
      ground (arith, e, d),
      ground (
        arith,
        d,
        lookup_code-update_row c code (apply_assignment_fields y code a (f ∷ fields)) rows,
      ),
    )
  ]

  update_all_lem :
      (c : Codes) (new prev : Entries V) (rows : List (Codes × AssignmentColumns V))
      → keyed new ≡ true
      → lookup_code c (update_all y (to_update y new prev) rows)
        ≡ updated_opt c new prev (lookup_code c rows)
  unfolding update_all to_update
  update_all_lem c [] prev rows k = ground arith
  update_all_lem c ((code, a) ∷ new) prev rows k = elim (Option-cases (lookup_code code prev)) [
    | inl n ↦ ground (arith, n, codes_eq_iff c code, update_all_lem c new prev rows)
    | inr (p, e) ↦
        let (rows1, writes, leaves) = updates-step c code a p new prev rows e in
        ground (arith, e, writes, leaves, codes_eq_iff c code, update_all_lem c new prev rows1)
  ]

  -- The columns of a code, once the new configuration is applied over the previous one.
  abbrev pub expected : Codes → Entries V → Entries V → Option (AssignmentColumns V)
  expected c new prev = elim (lookup_code c new) [
    | none ↦ none
    | some a ↦ elim (lookup_code c prev) [
      | none ↦ some (create_assignment y c a)
      | some p ↦ some (refreshed y c a p)
    ]
  ]

  abbrev pub created_from : Codes → Entries V → Option (AssignmentColumns V)
  created_from c entries = elim (lookup_code c entries) [
    | none ↦ none
    | some a ↦ some (create_assignment y c a)
  ]

  execute_plan_lem :
      (has_works : Codes → Bool) (new prev : Entries V)
      (rows rows' : List (Codes × AssignmentColumns V))
      → keyed new ≡ true
      → ((c : Codes) → lookup_code c rows ≡ created_from c prev)
      → execute_plan y has_works (compute_plan y new prev) rows ≡ some rows'
      → (c : Codes) → lookup_code c rows' ≡ expected c new prev
  unfolding execute_plan compute_plan
  execute_plan_lem has_works new prev rows rows' k sync h c =
      let made = create_all y (to_create new prev) rows in
      let written = update_all y (to_update y new prev) made in
      let left : lookup_code c rows' ≡ (
          if is_some (lookup_code c prev) && not (is_some (lookup_code c new))
          then none
          else updated_opt c new prev (lookup_code c made)) =
        ground (
          arith,
          delete_all_lem has_works c (to_delete new prev) written rows' h,
          to_delete_lem c new prev,
          update_all_lem c new prev made k,
        ) in
      let has = create_all_lem c (to_create new prev) rows in
      elim (Option-cases (lookup_code c new)) [
        | inl n ↦ ground (arith, left, has, to_create_lem c new prev, sync c, n)
        | inr (a, e) ↦ elim (Option-cases (lookup_code c prev)) [
          | inl n ↦ ground (arith, left, has, to_create_lem c new prev, sync c, e, n)
          | inr (p, o) ↦
              let again = apply_assignment_fields-refreshed y c a p in
              ground (arith, left, has, sync c, e, o, again)
        ]
      ]

  -- A configuration is applied over rows that the previous one created. When no assignment that it drops
  -- has works, no error is raised, and then an assignment that only the new one has is created from it,
  -- one that it drops is gone, and one that both have gets the columns of the new entry, except that its
  -- config stays the old one where no key but llm_grading differs in the two. The codes of the new one
  -- are distinct.
  pub execute_plan-refreshed :
      (has_works : Codes → Bool) (new prev : Entries V) (rows : List (Codes × AssignmentColumns V))
      → keyed new ≡ true
      → ((c : Codes) → lookup_code c rows ≡ created_from c prev)
      → ((c : Codes)
          → is_some (lookup_code c prev) ≡ true
          → lookup_code c new ≡ none
          → has_works c ≡ false)
      → (rows' : List (Codes × AssignmentColumns V)) × (execute_plan y has_works
            (compute_plan y new prev)
            rows
          ≡ some rows')
        × ((c : Codes) → lookup_code c rows' ≡ expected c new prev)
  unfolding execute_plan compute_plan
  execute_plan-refreshed has_works new prev rows k sync free =
      let made = create_all y (to_create new prev) rows in
      let (rows', e) =
        delete_all-some has_works (to_delete new prev) (update_all y (to_update y new prev) made)
          (λ c h.
            free c (ground (arith, to_delete_lem c new prev))
              (ground (arith, to_delete_lem c new prev))) in
      (rows', e, execute_plan_lem has_works new prev rows rows' k sync e)
