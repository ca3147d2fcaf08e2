-- ===== src/Schema.antt =====
-- packages/schema_ir: the protobuf schema that is generated from a router.
pub mod Types
pub mod Allocator
pub mod Numbering
pub mod WellKnown
pub mod Reserved
pub mod Text
pub mod Validate
pub mod Zod
pub mod Translate
