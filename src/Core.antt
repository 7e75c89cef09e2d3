-- ===== src/Core.antt =====
-- packages/core: errors, the schema library as a parameter, ids, and the persisted records.
pub mod Errors
pub mod Zod
pub mod Ids
pub mod Normalize
pub mod Enums
pub mod Schema
