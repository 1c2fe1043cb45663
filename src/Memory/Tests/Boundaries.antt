-- ===== src/Memory/Tests/Boundaries.antt =====
-- A move of both boundaries of an area, its statistics, and frames that stay, at concrete inputs.
use axmm_crates.Base.{ℕ, ◌+◌, ◌<◌, ◌≡◌, ◌⊎◌, refl, arith, ret, some, none, [], ◌∷◌}
use axmm_crates.Addr.MemoryAddr.{usize_addr}
use axmm_crates.Addr.Align
use axmm_crates.Memory.Backend.Table.{write, table, table-MapsInRange}
use axmm_crates.Memory.Area.{MemoryArea, stat}
use axmm_crates.Base.BTreeMap.{get}
use axmm_crates.Base.{panic, debug, release}
use axmm_crates.Memory.Set.Calls.{unmap_op, apply}
use axmm_crates.Memory.Set.Calls.Kept.{untouched_frames}
use axmm_crates.Memory.Set.Sound.{AreSound}
use axmm_crates.Memory.Set.Frames.{find_frame}
use axmm_crates.Memory.Set.Chain.{IsValid}
use axmm_crates.Memory.Backend.Table
use axmm_crates.Memory.Set.{MemorySet}
use axmm_crates.Base.Text.{codes}
use axmm_crates.Memory.Format.{fmt_set}
use axmm_crates.Memory.Area.Stat.{stat_total}
use axmm_crates.Memory.Set.Protect.{adjust_area}
use axmm_crates.Memory.Set.Boundaries.{Adjusts, Stops, Contradicts, adjust_area_both}
use axmm_crates.Memory.Errors.{done}
use axmm_crates.Memory.Set.View.{view}
use axmm_crates.Memory.Tests.{area, set, set-IsValid, mapped}

-- The second area is extended by a page to the left and by two to the right: the new end is short by
-- the first.
stretched_set :
    adjust_area debug 0x4000 0x3000 0x7000 set mapped
    ≡ ret (
      done,
      (0x1000, area 0x1000 0x3000 1)
          ∷ (0x4000, record (area 0x3000 0x6000 2) { frames = (0x3000, 2) ∷ (0x5000, 2) ∷ [] })
          ∷ [],
      write 0x5000 0x1000 (some 2) (write 0x3000 0x1000 (some 2) mapped),
    )
unfolding adjust_area Table.map Align.is_aligned view
stretched_set = refl

adjust_area_both_example :
    (Adjusts debug (area 0x4000 0x5000 2) 0x3000 0x7000 set mapped
      ⊎ Stops debug (area 0x4000 0x5000 2) 0x3000 0x7000 set mapped)
    ⊎ ((adjust_area debug 0x4000 0x3000 0x7000 set mapped ≡ panic)
        × Contradicts 0x7000 0x5000 0x6000)
unfolding get
adjust_area_both_example =
    adjust_area_both debug (area 0x4000 0x5000 2) 0x3000 0x7000 set mapped
      (record {
        there = refl;
        first_aligned = refl;
        last_aligned = refl;
        order = omega arith;
        first_inside = omega arith;
        last_inside = omega arith;
        last_moves = omega arith;
        word = omega arith;
      })
      set-IsValid

abbrev backed_area : MemoryArea table
backed_area = record (area 0x1800 0x3800 1) { frames = (0x1000, 1) ∷ (0x3000, 1) ∷ [] }

stat_total_example :
    (rss : ℕ) × (stat release backed_area
      ≡ ret (record { start = 0x1800; end = 0x3800; size = 0x2000; rss = rss; swap = 0 }))
    × (rss ≡ 0x2000)
    × (rss + 0x1000 < 0x4800)
stat_total_example =
    stat_total release backed_area
      (record {
        nonempty = omega arith;
        fits = omega arith;
        ascending = omega arith;
        backing = omega arith;
      })
      (omega arith)

-- An area that starts inside a page, with the frames of two pages. When the end of the second is
-- unmapped, the frame of the first is lost, although its last addresses stay.
abbrev kept_set : MemorySet table
kept_set = (0x1ff0, record (area 0x1ff0 0x2010 1) { frames = (0x1000, 7) ∷ (0x2000, 8) ∷ [] }) ∷ []

abbrev shrunk_set : MemorySet table
shrunk_set = (0x1ff0, record (area 0x1ff0 0x2008 1) { frames = (0x2000, 8) ∷ [] }) ∷ []

kept_set-IsValid : IsValid kept_set
kept_set-IsValid = omega arith

kept_set-AreSound : AreSound kept_set
kept_set-AreSound = (
  record {
    nonempty = omega arith;
    fits = omega arith;
    ascending = omega arith;
    backing = omega arith;
  },
  tt,
)

unmap_end :
    apply (unmap_op 0x2008 8) kept_set (view kept_set)
    ≡ ret (done, shrunk_set, write 0x2008 8 none (view kept_set))
unfolding apply Table.change view
unmap_end = refl

untouched_frames_example : find_frame debug 0x2000 shrunk_set ≡ find_frame debug 0x2000 kept_set
unfolding view
untouched_frames_example =
    untouched_frames debug (unmap_op 0x2008 8) kept_set shrunk_set (view kept_set)
      (write 0x2008 8 none (view kept_set)) done 0x2000 table-MapsInRange kept_set-IsValid
      kept_set-AreSound tt unmap_end refl (omega arith) refl (λ miss. absurd (ground (arith, miss)))

run_fmt_set :
    fmt_set {B = table} (λ r. codes "VA:0x0..VA:0x1") (λ flags. codes "R") set
    ≡ codes
        "[MemoryArea { va_range: VA:0x0..VA:0x1, flags: R }, MemoryArea { va_range: VA:0x0..VA:0x1, flags: R }]"
unfolding fmt_set
run_fmt_set = refl
