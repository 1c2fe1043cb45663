-- ===== src/Addr/Pointers.antt =====
-- The conversions between `VirtAddr` and raw pointers of memory_addr/src/addr.rs.
use axmm_crates.Base.{◌≡◌, refl}
use axmm_crates.Base.Memory.{Ptr, U8}
use axmm_crates.Addr.MemoryAddr.{VirtAddr}

module _ {T : Type 0} where
  unfoldable pub from_ptr_of : Ptr T → VirtAddr
  from_ptr_of ptr = record { addr = ptr.addr }

  unfoldable pub from_mut_ptr_of : Ptr T → VirtAddr
  from_mut_ptr_of ptr = record { addr = ptr.addr }

unfoldable pub as_ptr : VirtAddr → Ptr U8
as_ptr self = record { addr = self.addr }

unfoldable pub as_mut_ptr : VirtAddr → Ptr U8
as_mut_ptr self = record { addr = self.addr }

unfoldable pub as_ptr_of : (T : Type 0) → VirtAddr → Ptr T
as_ptr_of T self = record { addr = self.addr }

unfoldable pub as_mut_ptr_of : (T : Type 0) → VirtAddr → Ptr T
as_mut_ptr_of T self = record { addr = self.addr }

-- Every conversion of a virtual address to a pointer, of any type, is undone by each of the two
-- conversions back, and the other way round.
pub pointer_round_trips :
    (T : Type 0) (a : VirtAddr) (p : Ptr T)
    → (from_ptr_of (as_ptr a) ≡ a)
      × (from_mut_ptr_of (as_mut_ptr a) ≡ a)
      × (from_ptr_of (as_ptr_of T a) ≡ a)
      × (from_mut_ptr_of (as_mut_ptr_of T a) ≡ a)
      × (as_ptr_of T (from_ptr_of p) ≡ p)
      × (as_mut_ptr_of T (from_mut_ptr_of p) ≡ p)
unfolding from_ptr_of from_mut_ptr_of as_ptr as_mut_ptr as_ptr_of as_mut_ptr_of
pointer_round_trips T a p = (refl, refl, refl, refl, refl, refl)
