-- ===== src/Constraints.antt =====
-- restscope/request_generation/constraints.py: the expression trees of same-request constraints, their
-- evaluation on a complete assignment, and the three-valued evaluation that the solver prunes by.
pub mod Values
pub mod Expressions
pub mod Evaluation
pub mod Collecting
mod Tests
pub mod Association
pub mod Normalization
pub mod Classification
pub mod Validation
