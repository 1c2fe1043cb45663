-- ===== src/Memory/Set/Safety.antt =====
-- `MemorySet` over a backend of which nothing is known: its calls may fail at any point.
pub mod Retain
pub mod Before
pub mod After
pub mod Unmap
pub mod Map
pub mod Clear
pub mod Protect
pub mod Frames
pub mod Adjust
