-- ===== src/Taking/Share/Slices.antt =====
-- api/routes/student_quiz.py `_draw_for_member`: the members answer slices of one draw.
use submissions_checker.Prelude.{
  ℕ, zero, suc, ◌≡◌, ◌<◌, refl, false, Option, none, some, List, [], ◌∷◌, arith, map, length, inl,
  inr, Option-cases, if◌then◌else◌,
}
use submissions_checker.Quiz.Split.{DrawnQuestion, split_draw}
use submissions_checker.Quiz.Split.Deal.{occurrences, occurrences_in, split_draw-partition}
use submissions_checker.Taking.{Question}
use submissions_checker.Taking.Draw.{
  QuizConfig, get_elem?, index_of, select_question_ids, snapshot_question, snapshot_questions,
  snapshot_body,
}
use submissions_checker.Taking.Draw.Selected.{IsShuffle}
use submissions_checker.Taking.Share.{
  SquadDraw, SquadSnapshot, drawn, Shuffles, to_drawn, new_draw, stored_draw, member_ids,
  draw_slice, draw_for_member,
}

abbrev pub ids_of : List Question → List ℕ
ids_of qs = map (λ q. q.id) qs

snapshot_question-id :
    (cfg : QuizConfig) (options : ℕ → List ℕ) (i : ℕ) (q : Question)
    → snapshot_question cfg options i ≡ some q
    → q.id ≡ i
unfolding snapshot_question
snapshot_question-id cfg options i q h = elim (Option-cases (get_elem? cfg.questions i)) [
  | inl n ↦ absurd (ground (arith, n))
  | inr (c, f) ↦ elim (Option-cases (snapshot_body cfg (options i) c.body)) [
    | inl n ↦ absurd (ground (arith, f, n))
    | inr (b, g) ↦ ground (arith, f, g)
  ]
]

-- A snapshot has the questions that were asked for, in their order.
pub snapshot_questions-ids :
    (cfg : QuizConfig) (options : ℕ → List ℕ) (ids : List ℕ) (qs : List Question)
    → snapshot_questions cfg options ids ≡ some qs
    → ids_of qs ≡ ids
unfolding snapshot_questions
snapshot_questions-ids cfg options [] qs h = ground arith
snapshot_questions-ids cfg options (i ∷ ids) qs h =
    elim (Option-cases (snapshot_question cfg options i)) [
      | inl n ↦ absurd (ground (arith, n))
      | inr (q, f) ↦ elim (Option-cases (snapshot_questions cfg options ids)) [
        | inl n ↦ absurd (ground (arith, f, n))
        | inr (rest, g) ↦ ground (
          arith,
          f,
          g,
          snapshot_question-id cfg options i q f,
          snapshot_questions-ids cfg options ids rest g,
        )
      ]
    ]

-- The slices together have every question of the draw, as often as the draw has it.
unfoldable pub IsPartition : SquadDraw → Type 0
IsPartition draw = (k : ℕ) → occurrences_in k draw.slices ≡ occurrences k draw.question_ids

map-to_drawn : (qs : List Question) → map (λ q. q.id) (map to_drawn qs) ≡ ids_of qs
unfolding to_drawn
map-to_drawn [] = refl
map-to_drawn (q ∷ qs) = ground (arith, map-to_drawn qs)

split_draw-positive :
    (qs : List DrawnQuestion) (m : ℕ) {slices : List (List ℕ)}
    → split_draw qs m ≡ some slices
    → 0 < m
unfolding split_draw
split_draw-positive qs m h = ground arith

module _ (sh : Shuffles) where
  new_draw-IsPartition :
      (cfg : QuizConfig) (members : List ℕ) (draw : SquadDraw)
      → new_draw sh cfg members ≡ some draw
      → IsPartition draw
  unfolding new_draw IsPartition
  new_draw-IsPartition cfg members draw h k =
      let ids : List ℕ = select_question_ids sh.shuffle sh.reshuffle cfg in
      elim (Option-cases (snapshot_questions cfg sh.options ids)) [
        | inl n ↦ absurd (ground (arith, n))
        | inr (qs, f) ↦ elim (Option-cases (split_draw (map to_drawn qs) (length members))) [
          | inl n ↦ absurd (ground (arith, f, n))
          | inr (slices, g) ↦
              let (dealt, made, _, parts) =
                split_draw-partition (map to_drawn qs) (length members)
                  (split_draw-positive (map to_drawn qs) (length members) g) in
              ground (
                arith,
                f,
                g,
                made,
                parts k,
                map-to_drawn qs,
                snapshot_questions-ids cfg sh.options ids qs f,
              )
        ]
      ]

  pub stored_draw-IsPartition :
      (cfg : QuizConfig) (members : List ℕ) (stored : Option SquadDraw) (draw : SquadDraw)
      → ((d : SquadDraw) → stored ≡ some d → IsPartition d)
      → stored_draw sh cfg members stored ≡ some draw
      → IsPartition draw
  unfolding stored_draw
  stored_draw-IsPartition cfg members none draw keep h = new_draw-IsPartition cfg members draw h
  stored_draw-IsPartition cfg members (some d) draw keep h = keep draw h

  index_of-get_elem? : (c i : ℕ) (xs : List ℕ) → index_of c xs ≡ some i → get_elem? xs i ≡ some c
  unfolding index_of get_elem?
  index_of-get_elem? c i [] h = absurd (ground arith)
  index_of-get_elem? c zero (x ∷ xs) h = elim (Option-cases (index_of c xs)) [
    | inl n ↦ ground (arith, n)
    | inr (k, f) ↦ ground (arith, f)
  ]
  index_of-get_elem? c (suc i) (x ∷ xs) h = elim (Option-cases (index_of c xs)) [
    | inl n ↦ absurd (ground (arith, n))
    | inr (k, f) ↦ ground (arith, f, index_of-get_elem? c k xs f)
  ]

  -- What a first attempt gets out of a slice.
  draw_slice-first :
      (cfg : QuizConfig) (d draw : SquadDraw) (idx : ℕ) (slice : List ℕ) (qs : List Question)
      (snap : SquadSnapshot)
      → IsShuffle sh.slice
      → draw_slice sh cfg false d idx slice ≡ drawn draw qs snap
      → (d ≡ draw)
        × (snap.member_index ≡ idx)
        × ((k : ℕ) → occurrences k (ids_of qs) ≡ occurrences k slice)
  unfolding draw_slice member_ids
  draw_slice-first cfg d draw idx slice qs snap shuffles h =
      let mine : List ℕ = if cfg.shuffle_questions then sh.slice slice else slice in
      elim (Option-cases (snapshot_questions cfg sh.options mine)) [
        | inl n ↦ absurd (ground (arith, n))
        | inr (found, f) ↦ (
          ground (arith, f),
          ground (arith, f),
          λ k. ground (
            arith,
            f,
            snapshot_questions-ids cfg sh.options mine found f,
            shuffles.keeps k slice,
          ),
        )
      ]

  -- A member who opens the quiz for the first time answers exactly the questions of one slice of the
  -- squad's draw, the slice at the member's place in the order that the draw froze. The draw is the one
  -- that was stored, where there was one; and if the slices of a stored draw shared out its questions,
  -- with none lost and none dealt twice, so do those of the draw that the submission has afterwards.
  pub draw_for_member-IsPartition :
      (cfg : QuizConfig) (members : List ℕ) (student_id : ℕ) (stored : Option SquadDraw)
      (draw : SquadDraw) (qs : List Question) (snap : SquadSnapshot)
      → IsShuffle sh.slice
      → ((d : SquadDraw) → stored ≡ some d → IsPartition d)
      → draw_for_member sh cfg members student_id false stored ≡ drawn draw qs snap
      → IsPartition draw
        × (stored_draw sh cfg members stored ≡ some draw)
        × (get_elem? draw.member_order snap.member_index ≡ some student_id)
        × ((slice : List ℕ) × (get_elem? draw.slices snap.member_index ≡ some slice)
            × ((k : ℕ) → occurrences k (ids_of qs) ≡ occurrences k slice))
  unfolding draw_for_member
  draw_for_member-IsPartition cfg members student_id stored draw qs snap shuffles keep h =
      elim (Option-cases (stored_draw sh cfg members stored)) [
        | inl n ↦ absurd (ground (arith, n))
        | inr (d, f) ↦ elim (Option-cases (index_of student_id d.member_order)) [
          | inl n ↦ absurd (ground (arith, f, n))
          | inr (idx, g) ↦ elim (Option-cases (get_elem? d.slices idx)) [
            | inl n ↦ absurd (ground (arith, f, g, n))
            | inr (slice, e) ↦
                let once : draw_slice sh cfg false d idx slice ≡ drawn draw qs snap =
                  ground (arith, f, g, e) in
                let (same, at, mine) =
                  draw_slice-first cfg d draw idx slice qs snap shuffles once in
                let place = index_of-get_elem? student_id idx d.member_order g in
                (
                  stored_draw-IsPartition cfg members stored draw keep (ground (arith, f, same)),
                  ground (arith, f, same),
                  ground (arith, place, same, at),
                  (slice, ground (arith, e, same, at), mine),
                )
          ]
        ]
      ]
