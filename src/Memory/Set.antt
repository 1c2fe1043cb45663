-- ===== src/Memory/Set.antt =====
-- `MemorySet` of memory_set/src/set.rs: the areas by their start addresses. A call that changes the
-- set returns its result, the set and the page table.
pub mod Query
pub mod Change
pub mod Protect
pub mod Frames
pub mod Chain
pub mod View
pub mod Unmap
pub mod Safety
pub mod Room
pub mod Stored
pub mod At
pub mod Clear
pub mod Overlay
pub mod Resize
pub mod LeftBoundary
pub mod Boundaries
pub mod Insert
pub mod Map
pub mod Calls
pub mod Closed
pub mod Sound
use axmm_crates.Base.{ℕ, Bool, List, []}
use axmm_crates.Base.BTreeMap
use axmm_crates.Base.BTreeMap.{BTreeMap}
use axmm_crates.Memory.Backend.{MappingBackend}
use axmm_crates.Memory.Area.{MemoryArea}

-- The field `areas` of a `MemorySet`.
abbrev pub MemorySet : MappingBackend → Type 0
MemorySet B = BTreeMap (MemoryArea B)

module _ {B : MappingBackend} where
  abbrev pub new : MemorySet B
  new = []

  abbrev pub len : MemorySet B → ℕ
  len self = BTreeMap.len self

  abbrev pub is_empty : MemorySet B → Bool
  is_empty self = BTreeMap.is_empty self

  abbrev pub iter : MemorySet B → List (MemoryArea B)
  iter self = BTreeMap.values self
