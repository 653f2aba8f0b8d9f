-- ===== src/Quiz/Dispute/Closing.antt =====
-- services/quiz_regrade.py `resolve_dispute`: one ruling answers every report on the question.
use submissions_checker.Prelude.{
  ℕ, ◌≡◌, refl, ◌∙◌, ap, Bool, true, false, ◌&&◌, none, some, List, [], ◌∷◌, ◌++◌, arith, map, any,
  all, find, contains, Option-cases, Bool-cases, inl, inr, ◌==◌, if◌then◌else◌, opt_eq, reverse,
}
use submissions_checker.Quiz.Attempt.{QuizAttempt}
use submissions_checker.Quiz.Scoring.{Floats, QuizQuestionOverride, load_question_overrides}
use submissions_checker.Quiz.Scoring.Loaded.{credits, contains-load_question_overrides}
use submissions_checker.Quiz.Regrade.{
  outbox_resolved, QuizDisputeStatus, accepted, rejected, is_open, QuizQuestionDispute,
  AttemptRescore, flipped, RegradeTables, add_effect, advance_submission, write_submission,
  regrade_question,
}
use submissions_checker.Quiz.Dispute.{
  DisputeOutcome, ruled, same_key, insert_override, is_sibling, rule_siblings, advance_flipped,
  push, notify_classmates, notify_students, write_dispute, write_siblings, rule_accepted,
  resolve_dispute,
}

module _ {ℓ} {F : Type ℓ} where
  -- Neither the reports nor the overrides change.
  abbrev Rulings : RegradeTables F → RegradeTables F → Type 0
  Rulings db db' = (db'.disputes ≡ db.disputes) × (db'.overrides ≡ db.overrides)

  advance_submission-Rulings :
      (db db' : RegradeTables F) (a : QuizAttempt F)
      → advance_submission db a ≡ some db'
      → Rulings db db'
  unfolding advance_submission add_effect write_submission
  advance_submission-Rulings db db' a e = ground arith

  advance_flipped-Rulings :
      (entries : List AttemptRescore) (db db' : RegradeTables F)
      → advance_flipped entries db ≡ some db'
      → Rulings db db'
  unfolding advance_flipped
  advance_flipped-Rulings [] db db' e = ground arith
  advance_flipped-Rulings (entry ∷ entries) db db' e = elim (Bool-cases (flipped entry)) [
    | inr f ↦ advance_flipped-Rulings entries db db' (ground (arith, f))
    | inl f ↦ elim (Option-cases (find (λ a. a.id == entry.attempt_id) db.attempts)) [
      | inl n ↦ advance_flipped-Rulings entries db db' (ground (arith, f, n))
      | inr (a, ea) ↦ elim (Option-cases (advance_submission db a)) [
        | inl n ↦ absurd (ground (arith, f, ea, n))
        | inr (d, ed) ↦
            let (p, q) = advance_flipped-Rulings entries d db' (ground (arith, f, ea, ed)) in
            let (r, s) = advance_submission-Rulings db d a ed in (p ∙ r, q ∙ s)
      ]
    ]
  ]

  push-Rulings : (student attempt : ℕ) (db : RegradeTables F) → Rulings db (push student attempt db)
  unfolding push add_effect
  push-Rulings student attempt db = ground arith

  notify_classmates-Rulings :
      (i : ℕ) (entries : List AttemptRescore) (db : RegradeTables F)
      → Rulings db (notify_classmates i entries db)
  unfolding notify_classmates add_effect
  notify_classmates-Rulings i [] db = (refl, refl)
  notify_classmates-Rulings i (entry ∷ entries) db =
      let told =
        add_effect (outbox_resolved none entry.attempt_id (some entry))
          (push entry.student_id entry.attempt_id db) in
      ground (
        arith,
        notify_classmates-Rulings i entries db,
        notify_classmates-Rulings i entries told,
        push-Rulings entry.student_id entry.attempt_id db,
      )

  notify_students-Rulings :
      (dispute : QuizQuestionDispute) (entries : List AttemptRescore) (db : RegradeTables F)
      → Rulings db (notify_students dispute entries db)
  unfolding notify_students add_effect
  notify_students-Rulings dispute entries db =
      let reporter = find (λ r. r.attempt_id == dispute.attempt_id) (reverse entries) in
      let told =
        add_effect (outbox_resolved (some dispute.id) dispute.attempt_id reporter)
          (push dispute.student_id dispute.attempt_id db) in
      let (p, q) = notify_classmates-Rulings dispute.attempt_id entries told in
      let (r, s) = push-Rulings dispute.student_id dispute.attempt_id db in (p ∙ r, q ∙ s)

-- An open report on this question of this config version.
abbrev pub open_report : ℕ → ℕ → ℕ → QuizQuestionDispute → Bool
open_report config version question d =
    opt_eq d.plugin_config_id (some config)
    && opt_eq d.plugin_config_version (some version)
    && d.question_id == question
    && is_open d.status

rule_siblings-closes :
    (config version user : ℕ) (dispute : QuizQuestionDispute) (st : QuizDisputeStatus)
    (ds : List QuizQuestionDispute)
    → is_open st ≡ false
    → any (open_report config version dispute.question_id) (
        rule_siblings config version user dispute
          (map (λ d. if d.id == dispute.id then ruled st user d else d) ds))
      ≡ false
unfolding rule_siblings is_sibling ruled is_open
rule_siblings-closes config version user dispute st [] h = refl
rule_siblings-closes config version user dispute st (d ∷ ds) h =
    ground (arith, rule_siblings-closes config version user dispute st ds h)

any-append_one :
    {A : Type 0} (p : A → Bool) (xs : List A) (x : A) → p x ≡ true → any p (xs ++ x ∷ []) ≡ true
any-append_one p [] x h = ground arith
any-append_one p (y ∷ xs) x h = ground (arith, any-append_one p xs x h)

any-credits :
    (config version question : ℕ) (o : QuizQuestionOverride) (rows : List QuizQuestionOverride)
    → o.plugin_config_id ≡ config
    → o.plugin_config_version ≡ version
    → o.question_id ≡ question
    → all (λ p. p.credit_all) rows ≡ true
    → any (same_key o) rows ≡ true
    → any (credits config version question) rows ≡ true
unfolding same_key
any-credits config version question o [] c v q h m = absurd (ground arith)
any-credits config version question o (p ∷ rows) c v q h m =
    ground (arith, any-credits config version question o rows c v q)

insert_override-credits :
    (config version question : ℕ) (rows : List QuizQuestionOverride)
    → all (λ p. p.credit_all) rows ≡ true
    → let o : QuizQuestionOverride = record {
      plugin_config_id = config;
      plugin_config_version = version;
      question_id = question;
      credit_all = true;
    } in
      any (credits config version question) (insert_override o rows) ≡ true
unfolding insert_override
insert_override-credits config version question rows h =
    let o : QuizQuestionOverride = record {
      plugin_config_id = config;
      plugin_config_version = version;
      question_id = question;
      credit_all = true;
    } in
    ground (
      arith,
      any-credits config version question o rows refl refl refl h,
      any-append_one (credits config version question) rows o (ground arith),
    )

module _ (fl : Floats) where
  open fl use {F}

  regrade_question-Rulings :
      (db db' : RegradeTables F) (config version question : ℕ) (rs : List AttemptRescore)
      → regrade_question fl db config version question ≡ some (db', rs)
      → Rulings db db'
  unfolding regrade_question
  regrade_question-Rulings db db' config version question rs e = ground arith

  rule_accepted-Rulings :
      (config version user : ℕ) (dispute : QuizQuestionDispute) (db db' : RegradeTables F)
      (rs : List AttemptRescore)
      → rule_accepted fl config version dispute user db ≡ some (db', rs)
      → Rulings (write_siblings config version user dispute db) db'
  unfolding rule_accepted
  rule_accepted-Rulings config version user dispute db db' rs e =
      let sib = write_siblings config version user dispute db in
      elim (Option-cases (regrade_question fl sib config version dispute.question_id)) [
        | inl n ↦ absurd (ground (arith, n))
        | inr ((regraded, entries), er) ↦ elim (Option-cases (advance_flipped entries regraded)) [
          | inl n ↦ absurd (ground (arith, er, n))
          | inr (d, ed) ↦
              let (p, q) = advance_flipped-Rulings entries regraded d ed in
              let (r, s) =
                regrade_question-Rulings sib regraded config version dispute.question_id entries
                  er in
              let same : db' ≡ d = ground (arith, er, ed) in rw same (p ∙ r, q ∙ s)
        ]
      ]

  -- After an accepted ruling on a report with a config version, no report on that question of
  -- that version is open, and the overrides that scoring loads for the version have the question,
  -- where every override on record before credits its question.
  pub resolve_dispute-closes :
      (db db' : RegradeTables F) (dispute : QuizQuestionDispute) (user config version : ℕ)
      (out : DisputeOutcome)
      → resolve_dispute fl db dispute true user ≡ some (db', out)
      → dispute.plugin_config_id ≡ some config
      → dispute.plugin_config_version ≡ some version
      → all (λ p. p.credit_all) db.overrides ≡ true
      → (any (open_report config version dispute.question_id) db'.disputes ≡ false)
        × (contains dispute.question_id
              (load_question_overrides db'.overrides (some config) (some version))
            ≡ true)
  unfolding resolve_dispute write_dispute write_siblings
  resolve_dispute-closes db db' dispute user config version out e c v h =
      let written = write_dispute accepted user dispute db in
      elim (Option-cases (rule_accepted fl config version dispute user written)) [
        | inl n ↦ absurd (ground (arith, c, v, n))
        | inr ((advanced, rs), er) ↦
            let (p, q) = rule_accepted-Rulings config version user dispute written advanced rs er in
            let (r, s) = notify_students-Rulings dispute rs advanced in
            let same : db' ≡ notify_students dispute rs advanced = ground (arith, c, v, er) in
            let ds = ap {A = RegradeTables F} (λ d. d.disputes) same ∙ r ∙ p in
            let os = ap {A = RegradeTables F} (λ d. d.overrides) same ∙ s ∙ q in
            (
              rw ds (
                  rule_siblings-closes config version user dispute accepted db.disputes
                    (unfold is_open in refl)),
              rw os (
                  contains-load_question_overrides config version dispute.question_id (
                    insert_override
                      (record {
                        plugin_config_id = config;
                        plugin_config_version = version;
                        question_id = dispute.question_id;
                        credit_all = true;
                      })
                      db.overrides)
                  ∙ insert_override-credits config version dispute.question_id db.overrides h),
            )
      ]

  -- A rejected report changes nothing but its own row: no attempt, no submission, no override, and no
  -- other report.
  pub resolve_dispute-rejected :
      (db : RegradeTables F) (dispute : QuizQuestionDispute) (user : ℕ)
      → (db' : RegradeTables F) × (out : DisputeOutcome) × (resolve_dispute fl db dispute false user
          ≡ some (db', out))
        × (db'.attempts ≡ db.attempts)
        × (db'.submissions ≡ db.submissions)
        × (db'.overrides ≡ db.overrides)
        × (db'.disputes
            ≡ map (λ d. if d.id == dispute.id then ruled rejected user d else d) db.disputes)
  unfolding resolve_dispute write_dispute notify_students notify_classmates add_effect push
  resolve_dispute-rejected db dispute user =
      let written = write_dispute rejected user dispute db in
      let told = notify_students dispute [] written in
      (
        told,
        record { accepted_ruling = false; rescored = []; resolved_dispute_ids = dispute.id ∷ [] },
        refl,
        ground arith,
        ground arith,
        ground arith,
        ground arith,
      )
