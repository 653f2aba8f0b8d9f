-- ===== src/Grading.antt =====
-- Grades: the points that a teacher types (services/teacher_scores.py).
pub mod Refused
pub mod Rows
pub mod Weighted
pub mod TeacherScores
pub mod Points
pub mod Entry
pub mod Grade
pub mod Examples
