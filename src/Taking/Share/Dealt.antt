-- ===== src/Taking/Share/Dealt.antt =====
-- api/routes/student_quiz.py `_draw_for_member`: a member is asked no question twice, at a first attempt
-- or a later one.
use mathlib.Core.Option.{some-injective}
use submissions_checker.Prelude.{
  ℕ, zero, suc, ◌≤◌, ◌≡◌, Bool, true, false, Option, none, some, List, [], ◌∷◌, arith, inl, inr,
  Option-cases, if◌then◌else◌, length, map, subst,
}
use submissions_checker.Quiz.Split.{split_draw}
use submissions_checker.Quiz.Split.Deal.{occurrences, occurrences_in}
use submissions_checker.Taking.{Question}
use submissions_checker.Taking.Draw.{
  QuizConfig, get_elem?, index_of, select_question_ids, snapshot_questions,
}
use submissions_checker.Taking.Draw.Selected.{IsShuffle, select_question_ids-required}
use submissions_checker.Taking.Share.{
  SquadDraw, SquadSnapshot, drawn, Shuffles, to_drawn, new_draw, stored_draw, member_ids,
  retry_config, draw_slice, draw_for_member,
}
use submissions_checker.Taking.Share.Slices.{
  IsPartition, ids_of, snapshot_questions-ids, stored_draw-IsPartition,
}

-- The slices share out the questions of the draw, and it has none twice.
abbrev pub IsDealt : SquadDraw → Type 0
IsDealt draw = IsPartition draw × ((k : ℕ) → occurrences k draw.question_ids ≤ 1)

-- The draw that is stored, where there is one, is dealt out.
abbrev pub IsDealtIfAny : Option SquadDraw → Type 0
IsDealtIfAny none = Unit
IsDealtIfAny (some d) = IsDealt d

some-IsDealt :
    (stored : Option SquadDraw) (d : SquadDraw) → IsDealtIfAny stored → stored ≡ some d → IsDealt d
some-IsDealt none d h e = absurd (ground arith)
some-IsDealt (some x) d h e = subst IsDealt (some-injective x d e) h

occurrences-get_elem? :
    (k i : ℕ) (slices : List (List ℕ)) (slice : List ℕ)
    → get_elem? slices i ≡ some slice
    → occurrences k slice ≤ occurrences_in k slices
unfolding get_elem?
occurrences-get_elem? k i [] slice e = absurd (ground arith)
occurrences-get_elem? k zero (s ∷ slices) slice e = ground arith
occurrences-get_elem? k (suc i) (s ∷ slices) slice e =
    ground (arith, occurrences-get_elem? k i slices slice e)

module _ (sh : Shuffles) where
  new_draw-ids :
      (cfg : QuizConfig) (members : List ℕ) (draw : SquadDraw)
      → new_draw sh cfg members ≡ some draw
      → draw.question_ids ≡ select_question_ids sh.shuffle sh.reshuffle cfg
  unfolding new_draw
  new_draw-ids cfg members draw h =
      let ids : List ℕ = select_question_ids sh.shuffle sh.reshuffle cfg in
      elim (Option-cases (snapshot_questions cfg sh.options ids)) [
        | inl n ↦ absurd (ground (arith, n))
        | inr (qs, f) ↦ elim (Option-cases (split_draw (map to_drawn qs) (length members))) [
          | inl n ↦ absurd (ground (arith, f, n))
          | inr (slices, g) ↦ ground (arith, f, g)
        ]
      ]

  module _ (shuffles : IsShuffle sh.shuffle) (again : IsShuffle sh.reshuffle) where
    stored_draw-once :
        (cfg : QuizConfig) (members : List ℕ) (stored : Option SquadDraw) (draw : SquadDraw)
        → IsDealtIfAny stored
        → stored_draw sh cfg members stored ≡ some draw
        → (k : ℕ) → occurrences k draw.question_ids ≤ 1
    unfolding stored_draw
    stored_draw-once cfg members none draw keep h k =
        let selected =
          (select_question_ids-required sh.shuffle sh.reshuffle cfg shuffles again).0 in
        ground (arith, new_draw-ids cfg members draw h, selected k)
    stored_draw-once cfg members (some d) draw keep h k = (some-IsDealt (some d) draw keep h).1 k

    member_ids-once :
        (cfg : QuizConfig) (slice : List ℕ) (retry : Bool)
        → IsShuffle sh.slice
        → ((k : ℕ) → occurrences k slice ≤ 1)
        → (k : ℕ) → occurrences k (member_ids sh cfg slice retry) ≤ 1
    unfolding member_ids
    member_ids-once cfg slice true mixes once k =
        let selected =
          (select_question_ids-required sh.shuffle sh.reshuffle (retry_config cfg slice) shuffles
            again).0 in
        ground (arith, selected k)
    member_ids-once cfg slice false mixes once k = ground (arith, once k, mixes.keeps k slice)

    draw_slice-once :
        (cfg : QuizConfig) (retry : Bool) (d draw : SquadDraw) (idx : ℕ) (slice : List ℕ)
        (qs : List Question) (snap : SquadSnapshot)
        → IsShuffle sh.slice
        → ((k : ℕ) → occurrences k slice ≤ 1)
        → draw_slice sh cfg retry d idx slice ≡ drawn draw qs snap
        → (d ≡ draw) × ((k : ℕ) → occurrences k (ids_of qs) ≤ 1)
    unfolding draw_slice
    draw_slice-once cfg retry d draw idx slice qs snap mixes once h =
        let asked : QuizConfig = if retry then retry_config cfg slice else cfg in
        let ids : List ℕ = member_ids sh cfg slice retry in
        elim (Option-cases (snapshot_questions asked sh.options ids)) [
          | inl n ↦ absurd (ground (arith, n))
          | inr (found, f) ↦ (
            ground (arith, f),
            λ k. ground (
              arith,
              f,
              snapshot_questions-ids asked sh.options ids found f,
              member_ids-once cfg slice retry mixes once k,
            ),
          )
        ]

    -- The questions of a member are distinct, and the draw stays dealt.
    pub draw_for_member-IsDealt :
        (cfg : QuizConfig) (members : List ℕ) (student_id : ℕ) (retry : Bool)
        (stored : Option SquadDraw) (draw : SquadDraw) (qs : List Question) (snap : SquadSnapshot)
        → IsShuffle sh.slice
        → IsDealtIfAny stored
        → draw_for_member sh cfg members student_id retry stored ≡ drawn draw qs snap
        → IsDealt draw × ((k : ℕ) → occurrences k (ids_of qs) ≤ 1)
    unfolding draw_for_member
    draw_for_member-IsDealt cfg members student_id retry stored draw qs snap mixes keep h =
        elim (Option-cases (stored_draw sh cfg members stored)) [
          | inl n ↦ absurd (ground (arith, n))
          | inr (d, f) ↦ elim (Option-cases (index_of student_id d.member_order)) [
            | inl n ↦ absurd (ground (arith, f, n))
            | inr (idx, g) ↦ elim (Option-cases (get_elem? d.slices idx)) [
              | inl n ↦ absurd (ground (arith, f, g, n))
              | inr (slice, e) ↦
                  let parts =
                    stored_draw-IsPartition sh cfg members stored d
                      (λ s i. (some-IsDealt stored s keep i).0) f in
                  let distinct = stored_draw-once cfg members stored d keep f in
                  let once : (k : ℕ) → occurrences k slice ≤ 1 = λ k.
                    unfold IsPartition in
                    ground
                      (arith, parts k, distinct k, occurrences-get_elem? k idx d.slices slice e) in
                  let (same, mine) =
                    draw_slice-once cfg retry d draw idx slice qs snap mixes once
                      (ground (arith, f, g, e)) in
                  (subst IsDealt same (parts, distinct), mine)
            ]
          ]
        ]
