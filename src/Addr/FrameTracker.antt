-- ===== src/Addr/FrameTracker.antt =====
-- The trait `FrameTracker` of memory_addr/src/page.rs and its provided methods.
use axmm_crates.Base.{ℕ, ◌≡◌, ◌≤◌, ◌+◌, sym, ◌⊎◌, List, ret}
use axmm_crates.Base.Memory.{
  Ptr, U8, Memory, Slice, from_raw_parts, length, to_vec, copy_from_slice, Disjoint, copied,
}
use axmm_crates.Addr.MemoryAddr.{PhysAddr}

-- The required items; the two that call an allocator take its state and return it.
pub record FrameTracker : Type 1 where
  pub Self : Type 0
  pub Allocator : Type 0
  pub page_size : ℕ
  pub new : PhysAddr → Self
  pub no_tracking : PhysAddr → Self
  pub alloc_frame : Allocator → Self × Allocator
  pub dealloc_frame : Self → Allocator → Self × Allocator
  pub start : Self → PhysAddr

unfoldable pub size : FrameTracker → ℕ
size F = F.page_size

module _ (F : FrameTracker) where
  unfoldable pub as_ptr : F.Self → Ptr U8
  as_ptr self = record { addr = (F.start self).addr }

  unfoldable pub as_mut_ptr : F.Self → Ptr U8
  as_mut_ptr self = record { addr = (F.start self).addr }

  unfoldable pub as_slice : F.Self → Slice
  unfolding as_ptr
  as_slice self = from_raw_parts (as_ptr self) F.page_size

  unfoldable pub as_mut_slice : F.Self → Slice
  unfolding as_mut_ptr
  as_mut_slice self = from_raw_parts (as_mut_ptr self) F.page_size

  -- As many bytes as a frame has, written through its `as_mut_slice`, are read back through its
  -- `as_slice`, and a frame that lies apart from it has the bytes that it had.
  pub frame_write_read :
      (f g : F.Self) (bytes : List U8) (mem : Memory)
      → length bytes ≡ size F
      → ((F.start f).addr + size F ≤ (F.start g).addr)
        ⊎ ((F.start g).addr + size F ≤ (F.start f).addr)
      → (mem' : Memory) × (copy_from_slice bytes (as_mut_slice f) mem ≡ ret mem')
        × (to_vec (as_slice f) mem' ≡ bytes)
        × (to_vec (as_slice g) mem' ≡ to_vec (as_slice g) mem)
  unfolding as_slice as_mut_slice size Disjoint
  frame_write_read f g bytes mem same apart =
      copied bytes (as_mut_slice f) (as_slice g) mem (sym same) apart
