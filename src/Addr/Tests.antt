-- ===== src/Addr/Tests.antt =====
-- Runs of memory_addr on concrete addresses, and its theorems at concrete inputs.
use axmm_crates.Base.{
  ℕ, ◌+◌, ◌^◌, ◌<◌, ◌≡◌, ◌↔◌, ◌⊎◌, refl, arith, true, ret, panic, debug, release, some, [], ◌∷◌,
  if◌then◌else◌,
}
use axmm_crates.Base.Word.{IsIsize, negsuc}
use axmm_crates.Addr.Align.{align_down, align_up, is_aligned}
use axmm_crates.Addr.Align.Bounds.{
  IsGreatestBelow, IsLeastAbove, align_down_greatest, align_up_least, align_up_top,
}
use axmm_crates.Addr.MemoryAddr
use axmm_crates.Addr.MemoryAddr.{VirtAddr, virt_addr, MemoryAddr}
use axmm_crates.Addr.MemoryAddr.Arithmetic.{Agree, wrapping_inverse, variants}
use axmm_crates.Addr.MemoryAddr.Signed.{distance, fits_isize, offset_from_exact, offset_from-offset}
use axmm_crates.Addr.AddrRange
use axmm_crates.Addr.AddrRange.{AddrRange}
use axmm_crates.Addr.AddrRange.Build.{IsValid, try_from_total}
use axmm_crates.Addr.AddrRange.Points.{Has, is_empty_iff, overlaps_iff}
use axmm_crates.Addr.Format
use axmm_crates.Addr.Format.{
  virt_addr_formatter, read_range, fmt_range, fmt_addr, upper_hex, read_range-fmt_range,
}
use axmm_crates.Addr.FrameTracker.{FrameTracker, size, as_slice, as_mut_slice, frame_write_read}
use axmm_crates.Base.{◌++◌, inl}
use axmm_crates.Base.Text.{codes}
use axmm_crates.Base.Memory.{Memory, copy_from_slice, to_vec, length}
use axmm_crates.Addr.MemoryAddr.{PhysAddr, phys_addr}
use axmm_crates.Addr.PageIter
use axmm_crates.Addr.PageIter.{PageIter, is_power_of_two, collect}
use axmm_crates.Addr.PageIter.Pages.{pages, yields_pages}

abbrev va : ℕ → VirtAddr
va n = record { addr = n }

abbrev range : ℕ → ℕ → AddrRange VirtAddr
range lo hi = record { start = va lo; end = va hi }

align_down_greatest_example :
    (x : ℕ) × (align_down debug 0x1234 (2 ^ 12) ≡ ret x) × IsGreatestBelow (2 ^ 12) 0x1234 x
align_down_greatest_example = align_down_greatest 12 (omega arith) debug 0x1234 (omega arith)

align_up_least_example :
    (x : ℕ) × (align_up debug 0x1234 (2 ^ 12) ≡ ret x) × IsLeastAbove (2 ^ 12) 0x1234 x
align_up_least_example = align_up_least 12 (omega arith) debug 0x1234 (omega arith)

align_up_top_example :
    (align_up debug 0xffff_ffff_ffff_f000 (2 ^ 12) ≡ panic)
    × ((x : ℕ) × (align_up release 0xffff_ffff_ffff_f000 (2 ^ 12) ≡ ret x)
        × IsLeastAbove (2 ^ 12) 0xffff_ffff_ffff_f000 x)
align_up_top_example = align_up_top 12 (omega arith) 0xffff_ffff_ffff_f000 (omega arith)

offset_from_exact_example :
    MemoryAddr.offset_from (va 0x1000) (va 0x2000)
    ≡ (if fits_isize (distance 0x1000 0x2000) then ret (distance 0x1000 0x2000) else panic)
offset_from_exact_example = offset_from_exact (va 0x1000) (va 0x2000) (omega arith) (omega arith)

offset_from-offset_example :
    (MemoryAddr.offset_from (va 0x1000) (va 0x2000) ≡ ret (negsuc 0xfff))
    ↔ (IsIsize (negsuc 0xfff) × (MemoryAddr.offset (va 0x2000) (negsuc 0xfff) ≡ ret (va 0x1000)))
offset_from-offset_example =
    offset_from-offset (va 0x1000) (va 0x2000) (negsuc 0xfff) (omega arith) (omega arith)

is_empty_iff_example :
    (AddrRange.is_empty (range 0x2000 0x1000) ≡ true)
    ↔ ((a : VirtAddr) → ¬ Has (range 0x2000 0x1000) a)
is_empty_iff_example = is_empty_iff (range 0x2000 0x1000)

overlaps_iff_example :
    (AddrRange.overlaps (range 0x1000 0x2000) (range 0x1fff 0x3000) ≡ true)
    ↔ ((x : VirtAddr) × Has (range 0x1000 0x2000) x × Has (range 0x1fff 0x3000) x)
overlaps_iff_example =
    overlaps_iff (range 0x1000 0x2000) (range 0x1fff 0x3000) (va 0x1000) (va 0x1fff) (omega arith)
      (omega arith)

abbrev two_pages : PageIter VirtAddr
two_pages = record { start = va 0x1000; end = va 0x3000 }

two_pages-new : PageIter.new debug 0x1000 (va 0x1000) (va 0x3000) ≡ ret (some two_pages)
unfolding PageIter.new is_power_of_two is_aligned
two_pages-new = refl

yields_pages_example : collect 3 0x1000 two_pages ≡ ret (some (va 0x1000 ∷ va 0x2000 ∷ []))
unfolding pages
yields_pages_example =
    yields_pages debug 0x1000 (va 0x1000) (va 0x3000) two_pages (omega arith) two_pages-new

variants_example :
    Agree
      (MemoryAddr.overflowing_add (va 0x1000) 0x2000)
      (MemoryAddr.wrapping_add (va 0x1000) 0x2000)
      (MemoryAddr.checked_add (va 0x1000) 0x2000)
      (MemoryAddr.add (va 0x1000) 0x2000)
    × Agree
        (MemoryAddr.overflowing_sub (va 0x1000) 0x2000)
        (MemoryAddr.wrapping_sub (va 0x1000) 0x2000)
        (MemoryAddr.checked_sub (va 0x1000) 0x2000)
        (MemoryAddr.sub (va 0x1000) 0x2000)
    × Agree
        (MemoryAddr.overflowing_sub_addr (va 0x1000) (va 0x3000))
        (MemoryAddr.wrapping_sub_addr (va 0x1000) (va 0x3000))
        (MemoryAddr.checked_sub_addr (va 0x1000) (va 0x3000))
        (MemoryAddr.sub_addr (va 0x1000) (va 0x3000))
    × ((MemoryAddr.op_add debug (va 0x1000) 0x2000 ≡ MemoryAddr.add (va 0x1000) 0x2000)
        × (MemoryAddr.op_add release (va 0x1000) 0x2000
            ≡ ret (MemoryAddr.wrapping_add (va 0x1000) 0x2000)))
    × ((MemoryAddr.op_sub debug (va 0x1000) 0x2000 ≡ MemoryAddr.sub (va 0x1000) 0x2000)
        × (MemoryAddr.op_sub release (va 0x1000) 0x2000
            ≡ ret (MemoryAddr.wrapping_sub (va 0x1000) 0x2000)))
    × ((MemoryAddr.op_sub_addr debug (va 0x1000) (va 0x3000)
          ≡ MemoryAddr.sub_addr (va 0x1000) (va 0x3000))
        × (MemoryAddr.op_sub_addr release (va 0x1000) (va 0x3000)
            ≡ ret (MemoryAddr.wrapping_sub_addr (va 0x1000) (va 0x3000))))
variants_example = variants (va 0x1000) (va 0x3000) 0x2000 (omega arith)

try_from_total_example :
    ((r : AddrRange VirtAddr) × IsValid r
      × (AddrRange.try_from va 0x1000 0x2000 ≡ AddrRange.ok r)
      × (AddrRange.addr_range va 0x1000 0x2000 ≡ ret r)
      × (AddrRange.new (va 0x1000) (va 0x2000) ≡ ret r)
      × (AddrRange.to_range r ≡ record { start = 0x1000; end = 0x2000 })
      × (AddrRange.try_from va (AddrRange.to_range r).start (AddrRange.to_range r).end
          ≡ AddrRange.ok r))
    ⊎ ((0x2000 < 0x1000)
        × (AddrRange.try_from va 0x1000 0x2000 ≡ AddrRange.err)
        × (AddrRange.addr_range va 0x1000 0x2000 ≡ panic)
        × (AddrRange.new (va 0x1000) (va 0x2000) ≡ panic))
try_from_total_example = try_from_total va 0x1000 0x2000 (omega arith)

-- "VA:0x1ABC..VA:0xFFFF)"
read_range-fmt_range_example :
    read_range (fmt_range upper_hex (range 0x1abc 0xffff) ++ codes ")")
    ≡ some (range 0x1abc 0xffff, codes ")")
read_range-fmt_range_example =
    read_range-fmt_range upper_hex (range 0x1abc 0xffff) (codes ")") (omega arith) (omega arith)
      refl

run_fmt_range : fmt_range upper_hex (range 0x1abc 0xffff) ≡ codes "VA:0x1ABC..VA:0xFFFF"
unfolding fmt_range
run_fmt_range = refl

run_fmt_addr : fmt_addr Format.debug (va 0) ≡ codes "VA:0x0"
unfolding fmt_addr
run_fmt_addr = refl

-- Frames of three bytes that are known by their start.
abbrev tracker : FrameTracker
tracker = record {
  Self = PhysAddr;
  Allocator = ℕ;
  page_size = 3;
  new = λ pa. pa;
  no_tracking = λ pa. pa;
  alloc_frame = λ at. (record { addr = at }, at + 3);
  dealloc_frame = λ self at. (self, at);
  start = λ self. self;
}

abbrev frame : ℕ → PhysAddr
frame n = record { addr = n }

frame_write_read_example :
    (mem' : Memory) × (copy_from_slice (1 ∷ 2 ∷ 3 ∷ []) (as_mut_slice tracker (frame 10)) (λ x. x)
      ≡ ret mem')
    × (to_vec (as_slice tracker (frame 10)) mem' ≡ 1 ∷ 2 ∷ 3 ∷ [])
    × (to_vec (as_slice tracker (frame 13)) mem' ≡ to_vec (as_slice tracker (frame 13)) (λ x. x))
unfolding size length
frame_write_read_example =
    frame_write_read tracker (frame 10) (frame 13) (1 ∷ 2 ∷ 3 ∷ []) (λ x. x) refl
      (inl (omega arith))

-- The offset is nearly a whole word.
wrapping_inverse_example :
    (MemoryAddr.wrapping_sub
        (MemoryAddr.wrapping_add (va 0x1000) 0xffffffffffffff00)
        0xffffffffffffff00
      ≡ va 0x1000)
    × (MemoryAddr.wrapping_add
          (MemoryAddr.wrapping_sub (va 0x1000) 0xffffffffffffff00)
          0xffffffffffffff00
        ≡ va 0x1000)
    × (MemoryAddr.wrapping_add (va 0x2000) (MemoryAddr.wrapping_sub_addr (va 0x1000) (va 0x2000))
        ≡ va 0x1000)
wrapping_inverse_example =
    wrapping_inverse (va 0x1000) (va 0x2000) 0xffffffffffffff00 (omega arith) (omega arith)
      (omega arith)
