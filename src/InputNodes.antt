-- ===== src/InputNodes.antt =====
-- The index of the inputs of an operation: restscope/openapi_parser/input_nodes.py.
pub mod Segments
pub mod Encoding
pub mod Schemas
pub mod Building
pub mod Reach
pub mod Closure
pub mod Growing
pub mod Forest
mod Tests
