-- ===== src/Lib.antt =====
-- A verification library for the submissions checker, the service that takes in programming
-- coursework, examines it and grades it (README.md of the repository). The modelled program is the
-- package src/submissions_checker of the repository, named below without that prefix.
--
-- The parts and how they meet. A submission (db/models/submission.py) lives in the state machine of
-- core/state_machine.py, and services move it with `transition`. Students of a subject may form squads
-- (services/squads.py), one submission of which counts for all; its quiz is complete when every member
-- has passed. A quiz attempt freezes its questions and is scored by services/quiz_scoring.py; a teacher
-- can add an attempt (services/quiz_grants.py) or accept a report that a question is broken
-- (services/quiz_regrade.py), which credits the question to everyone who drew it, scores the attempts
-- again and moves the submissions. Where the teacher grades the work outside the service, the grade is
-- the formula of services/teacher_scores.py, and otherwise the weighted one of services/grading.py.
-- An upload is examined by the tasks that the outbox hands its messages to, and the questions, the
-- limits and the modes come from the configuration that a teacher applies to a subject.
--
-- Which file models what:
--   Prelude        Boolean tests on native numbers, lists measured by them, dicts, code points
--   Submission     core/state_machine.py, db/models/enums.py: `Event` for the event strings, `transition`;
--                  Submission/Lifecycle reads off whole histories
--   Quiz/Attempt   db/models/quiz_template.py, the rows of an attempt and of its answers
--   Quiz/Scoring   services/quiz_scoring.py: load_question_overrides, apply_question_overrides,
--                  score_attempt; below it Bounds, Answers, Credit, Upsert, Fold, Overrides and Loaded are
--                  the proofs
--   Quiz/Split     services/quiz_split.py; Quiz/Split/Deal is about its slices
--   Quiz/Completion  the submission scope of services/squads.py, quiz_complete
--   Quiz/Grants    services/quiz_grants.py; Quiz/Grants/Cap is about the raised cap
--   Quiz/Regrade   services/quiz_regrade.py, regrade_question and _advance_submission, with
--                  is_scored_submission and scores_complete_for of services/quiz_open.py
--   Quiz/Open      services/quiz_open.py, open_quiz_submission, with scope_sa_ids and latest_submission of
--                  services/squads.py; Quiz/Open/Shared is about squads that share a submission
--   Quiz/Dispute   services/quiz_regrade.py, resolve_dispute and who is told
--   Squads/State   db/models/squad.py and the lookups of services/squads.py
--   Squads/Formation  the functions of services/squads.py that write
--   Squads/Requests   api/routes/student_squads.py, assign_squad of api/routes/teacher_portal.py and the
--                  lock at a submission in api/routes/student_portal.py; `handle_all` runs requests
--   Squads/Steps   the abstract rules on squads; Squads/Refinement shows that requests keep to them
--   Grading        services/teacher_scores.py in Grading/TeacherScores; Points, Entry, Grade and
--                  Refused are proofs
--   Gradebook      services/gradebook.py: cell_status, severity_for, compute_cached_stats, and the cells and
--                  columns of build_student_grid; Figures and Cells are proofs
--   RateLimit      core/rate_limit.py, SlidingWindowLimiter; RateLimit/Window compares it with the log
--   CsvExport      utils/csv_export.py
--   Taking         api/routes/student_quiz.py, an attempt that a student sits: `row` is its row as the
--                  services of Quiz see it. Taking/Clock and Taking/Expiry have the clocks, with
--                  microseconds for moments, Taking/Answer `_grade_answer`, Taking/Draw and Taking/Share
--                  the draw of a student and of a squad, Taking/Finish `_grade_and_finalize`,
--                  Taking/Events the anti-cheat events, Taking/Start `start_or_resume_quiz`, and
--                  Taking/Desk and Taking/Pages the handlers; `serve` runs requests, each with its student and moment. The
--                  modules below these are proofs
--   Checks         workers/tasks/check_tasks.py, `_execute_check` and what it calls there; Settles and
--                  Stuck are proofs. Checks/Review is workers/tasks/review_tasks.py, with the states
--                  and outcomes of Checks; Retried is its proof
--   CourseConfig   services/config_apply.py, per assignment: `diff_assignment`, and creating and updating a
--                  row; CourseConfig/Plan has the plan and its execution. Refreshed and Applied are proofs
--   Outbox         workers/scheduled/outbox_processor.py, db/models/outbox.py and `redact_credentials` of
--                  workers/tasks/send_credentials_tasks.py; Safe and Drain are proofs
--   Grading/Weighted  services/grading.py, over Grading/Rows, which has `member_sa_ids` of
--                  services/squads.py; Grading/Weighted/Unified is the proof about squads
--   The modules named Examples run the definitions on small inputs.
--
-- How code corresponds to definitions. A function that changes rows takes the tables and returns them;
-- a raise is a constructor of a result type, or `none`, with the tables as they stood where the caller
-- may commit them. A database table is a list of records in the order of its rows, a read that no
-- modelled code writes is a function. Numbers that the database keeps non-negative are naturals.
-- Loops are recursion on the list that they run over. There is no fuel in any of them; `run_many` of
-- Outbox/Drain counts runs of the job.
--
-- What stands for code that is not in the repository: `Floats` and `Percent` are the float operations
-- that scoring and grading use, with the monotonicity that correct rounding gives them, and exact
-- arithmetic fills them in the examples; `Characters` is Python's isspace, isdigit and decimal value;
-- `Shares` is the rounded percentage of the gradebook; `GradeFloats` adds the arithmetic of the weighted
-- grade; `Texts` is Python's int, strip, lower and str on the text of an answer; `Shuffles` is
-- random.shuffle, and a theorem that needs a permutation says so by `IsShuffle`. The tasks that the outbox
-- hands its messages to are an argument of Outbox. `Yaml` is what PyYAML loads, up to Python's ==.
--
-- Two interleavings are written out. The session does not autoflush (core/database.py), so the query for
-- other invitations in accept_invite reads the tables at the last flush. Requests come one after another:
-- the row locks and the transactions of the routes are taken to serialise them.
--
-- Not modelled: what only renders, sends or stores (templates, mail, Google Classroom, the sandbox, object
-- storage), texts and dates that decide nothing, the queries of the gradebook, the upload of snapshots and
-- the report of a question in a quiz, the region and the alert behind a pause, the other tasks of the
-- workers, the plan and the scoring of a check, and of a course configuration its archive, uploads and
-- checks. `finalize_grade` is an effect where a modelled function calls it, and a definition in
-- Grading/Weighted.
pub mod Prelude
pub mod Submission
pub mod Quiz
pub mod Squads
pub mod Grading
pub mod Gradebook
pub mod RateLimit
pub mod Taking
pub mod Outbox
pub mod CsvExport
pub mod CourseConfig
pub mod Checks
