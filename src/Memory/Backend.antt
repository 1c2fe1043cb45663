-- ===== src/Memory/Backend.antt =====
-- The trait `MappingBackend` of memory_set/src/backend.rs, with the feature `RAII`. Its address
-- type is `usize`: by the laws of `MemoryAddr` every address type is a copy of it. A call returns
-- its result and the page table after it.
pub mod Laws
pub mod Table
use axmm_crates.Base.{ℕ, Bool, Option}
use axmm_crates.Base.BTreeMap.{BTreeMap}

pub record MappingBackend : Type 1 where
  pub Self : Type 0
  pub Flags : Type 0
  pub PageTable : Type 0
  pub FrameTrackerRef : Type 0
  pub map : Self → ℕ → ℕ → Flags → PageTable → Option (BTreeMap FrameTrackerRef) × PageTable
  pub unmap : Self → ℕ → ℕ → PageTable → Bool × PageTable
  pub protect : Self → ℕ → ℕ → Flags → PageTable → Bool × PageTable
