-- ===== src/AgentTree.antt =====
-- restscope/harness/agent_control.py: the tree of Agents that one Main Agent owns, with its open
-- slots, cancellation and waiting, and the token budget that the tree shares.
pub mod Budget
pub mod Control
mod Tests
