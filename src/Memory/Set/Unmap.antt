-- ===== src/Memory/Set/Unmap.antt =====
-- `MemorySet::unmap` over a lawful backend, in three steps: the areas in the range, the area that
-- reaches into it from below, and the one that reaches out of it.
pub mod Retain
pub mod Cut
pub mod Place
pub mod Move
pub mod Before
pub mod After
pub mod Refines
