-- ===== src/Addr.antt =====
-- The crate `memory_addr`: alignment of raw numbers (memory_addr/src/lib.rs), the trait of address
-- types with its arithmetic (memory_addr/src/addr.rs), address ranges (memory_addr/src/range.rs)
-- and the page iterator (memory_addr/src/iter.rs).
pub mod Align
pub mod MemoryAddr
pub mod AddrRange
pub mod PageIter
pub mod Format
pub mod FrameTracker
pub mod Pointers
mod Tests
