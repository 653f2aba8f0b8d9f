-- ===== src/Squads.antt =====
-- Squads: services/squads.py, the requests of api/routes/student_squads.py that call it, and the
-- tables of db/models/squad.py.
pub mod State
pub mod Formation
pub mod Requests
pub mod Pruning
pub mod Steps
pub mod Locking
pub mod Refinement
pub mod Invariants
pub mod Invites
mod Examples
