-- ===== src/Memory/Set/Frames.antt =====
-- The calls of `MemorySet` on single frames, of the feature `RAII`.
pub mod Access
use axmm_crates.Base.{ℕ, Option, none, some, Outcome, ret, unwrap, ◌>>=◌, Build}
use axmm_crates.Base.BTreeMap
use axmm_crates.Base.BTreeMap.{BTreeMap}
use axmm_crates.Addr.MemoryAddr
use axmm_crates.Addr.MemoryAddr.{usize_addr, lt_addr, le_addr, max_addr}
use axmm_crates.Memory.Backend.{MappingBackend}
use axmm_crates.Memory.Area
use axmm_crates.Memory.Area.{MemoryArea, start, end}
use axmm_crates.Memory.Set.{MemorySet}
use axmm_crates.Memory.Set.Query.{find, find_mut}

module _ {B : MappingBackend} where
  unfoldable pub find_frame : Build → ℕ → MemorySet B → Outcome (Option B.FrameTrackerRef)
  unfolding find Area.find_frame
  find_frame b vaddr self = elim (find vaddr self) [
    | some area ↦ Area.find_frame b vaddr area
    | none ↦ ret none
  ]

  -- The frame that was there before, and the set.
  unfoldable pub insert_frame :
      Build → ℕ → B.FrameTrackerRef → MemorySet B → Outcome (Option B.FrameTrackerRef × MemorySet B)
  unfolding find_mut Area.insert_frame MemoryAddr.align_down_4k BTreeMap.insert
  insert_frame b vaddr frame self = elim (find_mut vaddr self) [
    | some (k, area) ↦ do
      page ← MemoryAddr.align_down_4k b vaddr
      (old, area') ← Area.insert_frame b page frame area
      ret (old, BTreeMap.insert k area' self)
    | none ↦ ret (none, self)
  ]

  unfoldable pub remap_frame : Build → ℕ → B.FrameTrackerRef → MemorySet B → Outcome (MemorySet B)
  unfolding insert_frame
  remap_frame b vaddr new_frame self = do
    (old, areas) ← insert_frame b vaddr new_frame self
    frame ← unwrap old
    ret areas
