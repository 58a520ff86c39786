-- ===== src/Orchestration.antt =====
-- restscope/orchestration: the values of the long-task loop and the Ledger that owns them.
pub mod Models
mod Tests
pub mod Ledger
pub mod Runtime
pub mod Contracts
