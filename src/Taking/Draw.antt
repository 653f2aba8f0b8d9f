-- ===== src/Taking/Draw.antt =====
-- api/routes/student_quiz.py: the questions that an attempt draws from the configuration, and the
-- snapshot that it freezes of them, with the options shuffled. What `random.shuffle` leaves of a
-- list is an argument.
pub mod Selected
pub mod Sorting
pub mod Positions
pub mod Carried
pub mod Shuffled
mod Examples
use submissions_checker.Prelude.{
  ℕ, zero, suc, ◌+◌, ◌-◌, Bool, true, false, not, ◌&&◌, Option, none, some, List, [], ◌∷◌, ◌++◌,
  map, length, contains, filter, Codes, ◌==◌, if◌then◌else◌, or_zero,
}
use submissions_checker.Taking.{
  Question, QuestionBody, single_choice, multiple_choice, ordering, true_false, other,
}

pub record Choice : Type 0 where
  pub text : Codes
  pub is_correct : Bool

-- The keys of a configured question that its type reads, in the two formats of the choices.
pub data ConfigBody : Type 0 where
  single_of_choices : List Choice → ConfigBody
  single_of_options : List Codes → ℕ → ConfigBody
  multiple_of_choices : List Choice → ConfigBody
  multiple_of_options : List Codes → List ℕ → ConfigBody
  ordering_of : List Codes → List ℕ → ConfigBody
  true_false_of : Bool → ConfigBody
  unsupported : ConfigBody

-- An entry of `quiz_cfg["questions"]`. `time_limit_seconds` is `none` without the key, and 0 at a
-- null.
pub record ConfigQuestion : Type 0 where
  pub body : ConfigBody
  pub points : Option ℕ
  pub required : Bool
  pub time_limit_seconds : Option ℕ

pub record QuizConfig : Type 0 where
  pub questions : List ConfigQuestion
  pub questions_to_send : Option ℕ
  pub shuffle_questions : Bool
  pub shuffle_options : Bool
  pub question_time_default_seconds : Option ℕ

-- `next((i for i, c in enumerate(raw_choices) if c.get("is_correct")), 0)`, from index `i`.
unfoldable pub first_correct : ℕ → List Choice → ℕ
first_correct i [] = 0
first_correct i (c ∷ cs) = if c.is_correct then i else first_correct (i + 1) cs

unfoldable pub correct_indices : ℕ → List Choice → List ℕ
correct_indices i [] = []
correct_indices i (c ∷ cs) =
    let rest = correct_indices (i + 1) cs in if c.is_correct then i ∷ rest else rest

unfoldable pub build_question_config : ConfigBody → QuestionBody
unfolding first_correct correct_indices
build_question_config (single_of_choices cs) =
    single_choice (map (λ c. c.text) cs) (first_correct 0 cs)
build_question_config (single_of_options options correct) = single_choice options correct
build_question_config (multiple_of_choices cs) =
    multiple_choice (map (λ c. c.text) cs) (correct_indices 0 cs)
build_question_config (multiple_of_options options correct) = multiple_choice options correct
build_question_config (ordering_of items order) = ordering items order
build_question_config (true_false_of b) = true_false b
build_question_config unsupported = other

-- `xs[i]`; `none` is the IndexError.
unfoldable pub get_elem? {ℓ} : {A : Type ℓ} → List A → ℕ → Option A
get_elem? [] i = none
get_elem? (x ∷ xs) zero = some x
get_elem? (x ∷ xs) (suc i) = get_elem? xs i

-- `indices.index(c)`; `none` is the ValueError.
unfoldable pub index_of : ℕ → List ℕ → Option ℕ
index_of c [] = none
index_of c (x ∷ xs) =
    let later = index_of c xs in
    if c == x then some 0 else elim later [ none ↦ none | some i ↦ some (suc i) ]

-- `[options[i] for i in indices]`
unfoldable pub pick : List Codes → List ℕ → Option (List Codes)
unfolding get_elem?
pick options [] = some []
pick options (i ∷ is) = elim (get_elem? options i) [
  | none ↦ none
  | some o ↦ elim (pick options is) [ none ↦ none | some rest ↦ some (o ∷ rest) ]
]

-- `[i for i, orig in enumerate(indices) if orig in correct]`, from position `i`; it ascends, so that
-- `sorted` leaves it as it is.
unfoldable pub remap : List ℕ → ℕ → List ℕ → List ℕ
remap correct i [] = []
remap correct i (orig ∷ indices) =
    let rest = remap correct (i + 1) indices in if contains orig correct then i ∷ rest else rest

-- The body with its options in the order of `indices`, what `random.shuffle` left of their positions.
unfoldable pub shuffle_body : List ℕ → QuestionBody → Option QuestionBody
unfolding pick index_of remap
shuffle_body indices (single_choice options correct) = elim (pick options indices) [
  | none ↦ none
  | some shuffled ↦ elim (index_of correct indices) [
    | none ↦ none
    | some i ↦ some (single_choice shuffled i)
  ]
]
shuffle_body indices (multiple_choice options correct) = elim (pick options indices) [
  | none ↦ none
  | some shuffled ↦ some (multiple_choice shuffled (remap correct 0 indices))
]
shuffle_body indices (ordering items order) = some (ordering items order)
shuffle_body indices (true_false b) = some (true_false b)
shuffle_body indices other = some other

abbrev pub or_default : Option ℕ → ℕ → ℕ
or_default none d = d
or_default (some n) d = n

-- `int(raw_seconds) if raw_seconds else None`
unfoldable pub limit_of : Option ℕ → Option ℕ → Option ℕ
limit_of none default_seconds = if or_zero default_seconds == 0 then none else default_seconds
limit_of (some n) default_seconds = if n == 0 then none else some n

unfoldable pub snapshot_body : QuizConfig → List ℕ → ConfigBody → Option QuestionBody
unfolding build_question_config shuffle_body
snapshot_body cfg indices body =
    if cfg.shuffle_options
    then shuffle_body indices (build_question_config body)
    else some (build_question_config body)

-- One round of the loop; `indices i` is the shuffle of the options of the question `i`.
unfoldable pub snapshot_question : QuizConfig → (ℕ → List ℕ) → ℕ → Option Question
unfolding get_elem? snapshot_body limit_of
snapshot_question cfg indices i = elim (get_elem? cfg.questions i) [
  | none ↦ none
  | some q ↦ elim (snapshot_body cfg (indices i) q.body) [
    | none ↦ none
    | some body ↦ some (record {
      id = i;
      points = or_default q.points 1;
      is_required = q.required;
      time_limit_seconds = limit_of q.time_limit_seconds cfg.question_time_default_seconds;
      body = body;
    })
  ]
]

-- `none` is the error that one of the questions raised.
unfoldable pub snapshot_questions : QuizConfig → (ℕ → List ℕ) → List ℕ → Option (List Question)
unfolding snapshot_question
snapshot_questions cfg indices [] = some []
snapshot_questions cfg indices (i ∷ ids) = elim (snapshot_question cfg indices i) [
  | none ↦ none
  | some q ↦ elim (snapshot_questions cfg indices ids) [ none ↦ none | some rest ↦ some (q ∷ rest) ]
]

-- `_SUPPORTED_QUESTION_TYPES`
unfoldable pub is_supported : ConfigBody → Bool
is_supported unsupported = false
is_supported _ = true

-- `[i for i, q in indexed if ...]`: the positions of the supported questions that pass the test, from
-- position `i`.
unfoldable pub indexed_ids : (ConfigQuestion → Bool) → ℕ → List ConfigQuestion → List ℕ
unfolding is_supported
indexed_ids test i [] = []
indexed_ids test i (q ∷ qs) =
    let rest = indexed_ids test (i + 1) qs in
    if is_supported q.body && test q then i ∷ rest else rest

unfoldable pub take : ℕ → List ℕ → List ℕ
take zero xs = []
take (suc n) [] = []
take (suc n) (x ∷ xs) = x ∷ take n xs

unfoldable pub required_ids : QuizConfig → List ℕ
unfolding indexed_ids
required_ids cfg = indexed_ids (λ q. q.required) 0 cfg.questions

unfoldable pub optional_ids : QuizConfig → List ℕ
unfolding indexed_ids
optional_ids cfg = indexed_ids (λ q. not q.required) 0 cfg.questions

-- `shuffle` is the first and `reshuffle` the second call of `random.shuffle`.
unfoldable pub select_question_ids : (List ℕ → List ℕ) → (List ℕ → List ℕ) → QuizConfig → List ℕ
unfolding required_ids optional_ids take
select_question_ids shuffle reshuffle cfg =
    let required = required_ids cfg in
    let total = or_default cfg.questions_to_send (length cfg.questions) in
    let optional = if cfg.shuffle_questions then shuffle (optional_ids cfg) else optional_ids cfg in
    let selected = required ++ take (total - length required) optional in
    if cfg.shuffle_questions then reshuffle selected else selected
