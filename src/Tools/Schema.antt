-- ===== src/Tools/Schema.antt =====
-- tools/schema.py: validation of the JSON Schema subset.
pub mod Keywords
pub mod Node
pub mod Check
pub mod Objects
pub mod Depth
pub mod Termination
pub mod Conformance
mod Tests
