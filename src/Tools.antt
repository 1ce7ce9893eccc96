-- ===== src/Tools.antt =====
-- The package tools: values, schemas, and the registry with its gate.
pub mod Gate
pub mod Schema
pub mod Types
pub mod Builtins
pub mod Registry
