-- ===== src/ConstraintSolver.antt =====
-- The bounded search for input overrides that satisfy a constraint set:
-- restscope/request_generation/constraint_solver.py.
pub mod Candidates
pub mod Lineage
pub mod Records
pub mod Pruning
pub mod Search
pub mod Units
pub mod Choices
pub mod Exactness
pub mod Reading
pub mod Solving
pub mod Satisfying
mod Tests
