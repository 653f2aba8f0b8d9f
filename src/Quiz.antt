-- ===== src/Quiz.antt =====
-- The quiz side of the program: attempts, how they are scored (services/quiz_scoring.py), the
-- attempts a teacher adds (services/quiz_grants.py), the draw of a squad (services/quiz_split.py).
pub mod Attempt
pub mod Scoring
pub mod Fractions
pub mod Split
pub mod Completion
pub mod Grants
pub mod Regrade
pub mod Dispute
pub mod Open
