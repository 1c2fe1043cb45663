-- ===== src/Memory/Set/Calls/Allocate.antt =====
-- `find_free_area`, `MemoryArea::new` and `map`, as a caller that allocates a range uses them.
use axmm_crates.Base.{ℕ, ◌+◌, ◌≤◌, ◌<◌, ◌≡◌, Bool, false, Option, none, some, [], arith, ret}
use axmm_crates.Base.Word.{IsUsize}
use axmm_crates.Addr.MemoryAddr.{usize_addr}
use axmm_crates.Addr.AddrRange.{AddrRange, from_start_size}
use axmm_crates.Memory.Backend.{MappingBackend}
use axmm_crates.Memory.Backend.Laws.{IsLawful}
use axmm_crates.Memory.Area
use axmm_crates.Memory.Area.{MemoryArea, start, end}
use axmm_crates.Memory.Set.{MemorySet}
use axmm_crates.Memory.Set.Change.{map}
use axmm_crates.Memory.Set.Map.{MapsTo, mapped_there, spared_overlaps}
use axmm_crates.Memory.Set.Query.{find_free_area}
use axmm_crates.Memory.Set.Query.Gaps.{FreeFrom}
use axmm_crates.Memory.Set.Query.FreeArea.{find_free_area_sound, find_free_area_first}
use axmm_crates.Memory.Set.Chain.{IsValid}
use axmm_crates.Memory.Set.View.{view}
use axmm_crates.Memory.Set.Unmap.Cut.{Agrees}
use axmm_crates.Memory.Set.Room.{Spares}

module _ {B : MappingBackend} where
  -- The area of a range that ends in a word.
  abbrev area_of : ℕ → ℕ → B.Flags → B.Self → MemoryArea B
  area_of addr n flags backend = record {
    va_range = record { start = addr; end = addr + n };
    frames = [];
    flags = flags;
    backend = backend;
  }

  new-area_of :
      (addr n : ℕ) (flags : B.Flags) (backend : B.Self)
      → IsUsize (addr + n)
      → Area.new addr n none flags backend ≡ ret (area_of addr n flags backend)
  unfolding Area.new from_start_size
  new-area_of addr n flags backend fits = ground arith

  -- Over a lawful backend, from a valid set that agrees with the page table: what `find_free_area`
  -- returns can be mapped at once. `MemoryArea::new` accepts it, and `map` succeeds, with or without
  -- `unmap_overlap`. All the addresses of the range were free.
  pub found_area_maps :
      (entry : B.PageTable → ℕ → Option B.Flags) (hint n : ℕ) (limit : AddrRange ℕ) (addr : ℕ)
      (flags : B.Flags) (backend : B.Self) (b : Bool) (s : MemorySet B) (pt : B.PageTable)
      → IsLawful B entry
      → 0 < n
      → IsUsize hint
      → IsUsize limit.start
      → IsValid s
      → Agrees entry pt s
      → find_free_area hint n limit s ≡ some addr
      → (a : MemoryArea B) × (Area.new addr n none flags backend ≡ ret a)
        × Spares s a
        × MapsTo entry a none (view s) (map a b none s pt)
  found_area_maps entry hint n limit addr flags backend b s pt L pos fit_hint fit_start valid agrees
        found =
      let (above, above_start, word, free, tail) =
        find_free_area_sound hint n limit s addr fit_hint fit_start valid found in
      let a = area_of addr n flags backend in
      (
        a,
        new-area_of addr n flags backend word,
        free,
        mapped_there entry L a (omega arith) word none s pt b valid agrees
            (spared_overlaps a s (omega arith) word valid free),
      )

  -- Over a lawful backend, on a valid set that agrees with the page table, a request for `n` addresses,
  -- not zero, is granted if they are free at some place `y` from the hint on and within a limit that
  -- ends in a word. Three calls grant it: `find_free_area` returns an address, at most `y`,
  -- `MemoryArea::new` makes an area of it, and `map` maps that area.
  pub free_place_maps :
      (entry : B.PageTable → ℕ → Option B.Flags) (hint n : ℕ) (limit : AddrRange ℕ) (y : ℕ)
      (flags : B.Flags) (backend : B.Self) (s : MemorySet B) (pt : B.PageTable)
      → IsLawful B entry
      → 0 < n
      → hint ≤ y
      → limit.start ≤ y
      → y + n ≤ limit.end
      → IsUsize limit.end
      → FreeFrom s y n
      → IsValid s
      → Agrees entry pt s
      → (addr : ℕ) × (a : MemoryArea B) × (find_free_area hint n limit s ≡ some addr)
        × (addr ≤ y)
        × (Area.new addr n none flags backend ≡ ret a)
        × MapsTo entry a none (view s) (map a false none s pt)
  free_place_maps entry hint n limit y flags backend s pt L pos above_hint above_start below_end
        fits_end free valid agrees =
      let (addr, found, least) =
        find_free_area_first hint n limit s y pos above_hint above_start below_end fits_end valid
          free in
      let (a, made, spares, mapped) =
        found_area_maps entry hint n limit addr flags backend false s pt L pos (omega arith)
          (omega arith) valid agrees found in
      (addr, a, found, least, made, mapped)
