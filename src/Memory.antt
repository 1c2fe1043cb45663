-- ===== src/Memory.antt =====
-- The crate `memory_set`: memory areas (memory_set/src/area.rs) and the set of them
-- (memory_set/src/set.rs), over a backend (memory_set/src/backend.rs).
pub mod Errors
pub mod Backend
pub mod Area
pub mod Set
pub mod Format
mod Tests
