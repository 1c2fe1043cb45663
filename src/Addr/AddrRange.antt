-- ===== src/Addr/AddrRange.antt =====
-- `AddrRange` of memory_addr/src/range.rs: a range of addresses, its start included and its end
-- excluded.
pub mod Build
pub mod Points
use axmm_crates.Base.{
  ℕ, Bool, true, false, ◌&&◌, not, Option, none, some, map, Outcome, ret, panic, assert, ◌>>=◌,
  ◌>>◌, unwrap, if◌then◌else◌,
}
use axmm_crates.Addr.MemoryAddr
use axmm_crates.Addr.MemoryAddr.{
  MemoryAddr, lt_addr, le_addr, VirtAddr, PhysAddr, virt_addr, phys_addr,
}

pub record AddrRange (A : Type 0) : Type 0 where
  pub start : A
  pub end : A

-- `Result<AddrRange, ()>` of `try_from`, and `Range<usize>`
pub data TryFrom (A : Type 0) : Type 0 where
  ok : AddrRange A → TryFrom A
  err : TryFrom A

abbrev pub ok_or : {A : Type 0} → Option (AddrRange A) → TryFrom A
ok_or (some r) = ok r
ok_or none = err

module _ {A : Type 0} ⦃m : MemoryAddr A⦄ where
  unfoldable pub new : A → A → Outcome (AddrRange A)
  new start end = do assert (le_addr start end); ret (record { start = start; end = end })

  unfoldable pub try_new : A → A → Option (AddrRange A)
  try_new start end = if le_addr start end then some (record { start = start; end = end }) else none

  unfoldable pub new_unchecked : A → A → AddrRange A
  new_unchecked start end = record { start = start; end = end }

  unfoldable pub from_start_size : A → ℕ → Outcome (AddrRange A)
  unfolding MemoryAddr.checked_add
  from_start_size start size = elim (MemoryAddr.checked_add start size) [
    | some end ↦ ret (record { start = start; end = end })
    | none ↦ panic
  ]

  unfoldable pub try_from_start_size : A → ℕ → Option (AddrRange A)
  unfolding MemoryAddr.checked_add
  try_from_start_size start size =
      map (λ end. record { start = start; end = end }) (MemoryAddr.checked_add start size)

  unfoldable pub from_start_size_unchecked : A → ℕ → AddrRange A
  unfolding MemoryAddr.wrapping_add
  from_start_size_unchecked start size = record {
    start = start;
    end = MemoryAddr.wrapping_add start size;
  }

  unfoldable pub is_empty : AddrRange A → Bool
  is_empty self = le_addr self.end self.start

  unfoldable pub size : AddrRange A → ℕ
  unfolding MemoryAddr.wrapping_sub_addr
  size self = MemoryAddr.wrapping_sub_addr self.end self.start

  unfoldable pub contains : AddrRange A → A → Bool
  contains self addr = le_addr self.start addr && lt_addr addr self.end

  unfoldable pub contains_range : AddrRange A → AddrRange A → Bool
  contains_range self other = le_addr self.start other.start && le_addr other.end self.end

  unfoldable pub contained_in : AddrRange A → AddrRange A → Bool
  unfolding contains_range
  contained_in self other = contains_range other self

  unfoldable pub overlaps : AddrRange A → AddrRange A → Bool
  overlaps self other = lt_addr self.start other.end && lt_addr other.start self.end

  unfoldable pub to_range : AddrRange A → AddrRange ℕ
  to_range self = record { start = m.into self.start; end = m.into self.end }

  -- `TryFrom<Range<T>>`, with the conversion of the end points.
  unfoldable pub try_from : {T : Type 0} → (T → A) → T → T → TryFrom A
  unfolding try_new
  try_from into start end = ok_or (try_new (into start) (into end))

  -- `addr_range!`, and `va_range!` and `pa_range!` at the two address types: `try_from` and `expect`.
  unfoldable pub addr_range : {T : Type 0} → (T → A) → T → T → Outcome (AddrRange A)
  unfolding try_from
  addr_range into start end = elim (try_from into start end) [ ok r ↦ ret r | err ↦ panic ]

  unfoldable pub default : AddrRange A
  default = record { start = m.from 0; end = m.from 0 }

-- `VirtAddrRange` and `PhysAddrRange`
abbrev pub VirtAddrRange : Type 0
VirtAddrRange = AddrRange VirtAddr

abbrev pub PhysAddrRange : Type 0
PhysAddrRange = AddrRange PhysAddr

unfoldable pub va_range : {T : Type 0} → (T → VirtAddr) → T → T → Outcome VirtAddrRange
unfolding addr_range
va_range into start end = addr_range into start end

unfoldable pub pa_range : {T : Type 0} → (T → PhysAddr) → T → T → Outcome PhysAddrRange
unfolding addr_range
pa_range into start end = addr_range into start end
