-- ===== src/Memory/Area/Laws.antt =====
-- The calls of `MemoryArea` on a valid area: the range, flags and backend that they leave, and the
-- entries of the page table of a lawful backend.
use axmm_crates.Base.{◌∙◌}
use axmm_crates.Base.{ℕ, ◌+◌, ◌-◌, ◌≤◌, ◌<◌, ◌≡◌, refl, Option, none, some, [], arith, ret, ◌⊎◌}
use axmm_crates.Base.BTreeMap
use axmm_crates.Base.BTreeMap.{BTreeMap}
use axmm_crates.Base.Word.{IsUsize, wrapping_add, wrapping_sub}
use axmm_crates.Memory.Errors.{Call, done}
use axmm_crates.Memory.Backend.{MappingBackend}
use axmm_crates.Memory.Backend.Laws.{MappedIn, FreeIn, Sets, IsLawful, unmap_in, map_in, protect_in}
use axmm_crates.Memory.Area.{
  MemoryArea, start, end, size, split, shrink_left, shrink_right, unmap_area, map_area,
  protect_area, retain_frames_in_range, unwrap_or,
}

-- An area that is not empty and ends in a word.
pub record IsValid {B : MappingBackend} (a : MemoryArea B) : Type 0 where
  pub nonempty : start a < end a
  pub fits : IsUsize (end a)

-- `a'` is `a` on the range from `lo` to `hi`, whatever its frames.
pub record IsPart {B : MappingBackend} (a : MemoryArea B) (lo hi : ℕ) (a' : MemoryArea B)
    : Type 0 where
  pub part_start : start a' ≡ lo
  pub part_end : end a' ≡ hi
  pub same_flags : a'.flags ≡ a.flags
  pub same_backend : a'.backend ≡ a.backend

module _ {B : MappingBackend} where
  pub size_lem : (a : MemoryArea B) → IsValid a → size a ≡ end a - start a
  unfolding size
  size_lem a v = omega (arith, v.nonempty, v.fits)

  -- `a` on another range, with other frames.
  abbrev pub resized : ℕ → ℕ → BTreeMap B.FrameTrackerRef → MemoryArea B → MemoryArea B
  resized lo hi frames a = record {
    va_range = record { start = lo; end = hi };
    frames = frames;
    flags = a.flags;
    backend = a.backend;
  }

  pub resized-IsPart :
      (lo hi : ℕ) (frames : BTreeMap B.FrameTrackerRef) (a : MemoryArea B)
      → IsPart a lo hi (resized lo hi frames a)
  resized-IsPart lo hi frames a = record {
    part_start = refl;
    part_end = refl;
    same_flags = refl;
    same_backend = refl;
  }

  -- A part that starts where another part does.
  pub IsPart-trans :
      {a b c : MemoryArea B} {lo mid hi : ℕ}
      → IsPart a lo hi b
      → IsPart b (start b) mid c
      → IsPart a lo mid c
  IsPart-trans p q = record {
    part_start = q.part_start ∙ p.part_start;
    part_end = q.part_end;
    same_flags = q.same_flags ∙ p.same_flags;
    same_backend = q.same_backend ∙ p.same_backend;
  }

  -- Inside a valid area `split` returns the part from the position on and leaves the part below it.
  pub split_inside :
      (pos : ℕ) (a : MemoryArea B)
      → IsValid a
      → start a < pos
      → pos < end a
      → (right left : MemoryArea B) × (split pos a ≡ ret (some right, left))
        × IsPart a pos (end a) right
        × IsPart a (start a) pos left
  unfolding split
  split_inside pos a v lo hi = (
    resized pos (end a) (BTreeMap.range_from pos a.frames) a,
    resized (start a) pos (BTreeMap.range_to pos a.frames) a,
    ground arith,
    resized-IsPart _ _ _ a,
    resized-IsPart _ _ _ a,
  )

  -- Outside, it changes nothing.
  pub split_outside :
      (pos : ℕ) (a : MemoryArea B) → (pos ≤ start a) ⊎ (end a ≤ pos) → split pos a ≡ ret (none, a)
  unfolding split
  split_outside pos a h = ground arith

  -- A call on an area that ends well: it leaves the part from `lo` to `hi` and a page table with `P`.
  abbrev pub Leaves :
      Call (MemoryArea B) B.PageTable → MemoryArea B → ℕ → ℕ → (B.PageTable → Type 0) → Type 0
  Leaves call a lo hi P =
      (a' : MemoryArea B) × (pt' : B.PageTable) × (call ≡ ret (done, a', pt'))
      × IsPart a lo hi a'
      × P pt'

  -- `protect_area` returns, whatever the backend does.
  abbrev pub protected_table : B.Flags → MemoryArea B → B.PageTable → B.PageTable
  protected_table flags a pt = (B.protect a.backend (start a) (size a) flags pt).1

  pub protect_area_lem :
      (flags : B.Flags) (a : MemoryArea B) (pt : B.PageTable)
      → protect_area flags a pt ≡ ret (done, a, protected_table flags a pt)
  unfolding protect_area
  protect_area_lem flags a pt = refl

  module _ (entry : B.PageTable → ℕ → Option B.Flags) (L : IsLawful B entry) where
    -- A valid area that is wholly mapped is unmapped.
    pub unmap_area_lem :
        (a : MemoryArea B) (pt : B.PageTable)
        → IsValid a
        → MappedIn B entry (start a) (end a) pt
        → Leaves (unmap_area a pt) a (start a) (end a) (Sets B entry (start a) (end a) none pt)
    unfolding unmap_area
    unmap_area_lem a pt v mapped =
        let n = size a in
        let law = unmap_in B entry L a.backend (start a) (end a) n pt (omega arith) mapped in
        (_, _, ground (arith, law.0), resized-IsPart (start a) (end a) [] a, law.1)

    -- `shrink_right` of a valid area keeps the first `n` addresses, and unmaps the rest.
    pub shrink_right_lem :
        (n mid : ℕ) (a : MemoryArea B) (pt : B.PageTable)
        → IsValid a
        → 0 < n
        → start a + n ≡ mid
        → mid < end a
        → MappedIn B entry mid (end a) pt
        → Leaves (shrink_right n a pt) a (start a) mid (Sets B entry mid (end a) none pt)
    unfolding shrink_right retain_frames_in_range
    shrink_right_lem n mid a pt v pos e less mapped =
        let k = size a - n in
        let law = unmap_in B entry L a.backend mid (end a) k pt (omega arith) mapped in
        let from : wrapping_add (start a) n ≡ mid = omega arith in
        (
          retain_frames_in_range (resized (start a) (wrapping_sub (end a) k) a.frames a),
          (B.unmap a.backend mid k pt).1,
          ground (arith, law.0, from),
          record {
            part_start = refl;
            part_end = omega arith;
            same_flags = refl;
            same_backend = refl;
          },
          law.1,
        )

    -- `shrink_left` of a valid area keeps the last `n` addresses, and unmaps the rest.
    pub shrink_left_lem :
        (n lo : ℕ) (a : MemoryArea B) (pt : B.PageTable)
        → IsValid a
        → 0 < n
        → lo + n ≡ end a
        → start a < lo
        → MappedIn B entry (start a) lo pt
        → Leaves (shrink_left n a pt) a lo (end a) (Sets B entry (start a) lo none pt)
    unfolding shrink_left retain_frames_in_range
    shrink_left_lem n lo a pt v pos e less mapped =
        let k = size a - n in
        let law = unmap_in B entry L a.backend (start a) lo k pt (omega arith) mapped in
        (
          retain_frames_in_range (resized (wrapping_add (start a) k) (end a) a.frames a),
          (B.unmap a.backend (start a) k pt).1,
          ground (arith, law.0),
          record {
            part_start = omega arith;
            part_end = refl;
            same_flags = refl;
            same_backend = refl;
          },
          law.1,
        )

    -- The page table after `protect_area` of a valid area that is wholly mapped.
    pub protect_area-Sets :
        (flags : B.Flags) (a : MemoryArea B) (pt : B.PageTable)
        → IsValid a
        → MappedIn B entry (start a) (end a) pt
        → Sets B entry (start a) (end a) (some flags) pt (protected_table flags a pt)
    protect_area-Sets flags a pt v mapped =
        protect_in B entry L a.backend (start a) (end a) (size a) flags pt
          (omega (arith, size_lem a v, v.nonempty)) mapped

    -- `map_area` maps a valid area that is wholly free, with the given flags or its own.
    pub map_area_lem :
        (flags : Option B.Flags) (a : MemoryArea B) (pt : B.PageTable)
        → IsValid a
        → FreeIn B entry (start a) (end a) pt
        → Leaves
            (map_area flags a pt)
            a
            (start a)
            (end a)
            (Sets B entry (start a) (end a) (some (unwrap_or flags a.flags)) pt)
    unfolding map_area
    map_area_lem flags a pt v free =
        let n = size a in
        let flag = unwrap_or flags a.flags in
        let law = map_in B entry L a.backend (start a) (end a) n flag pt (omega arith) free in
        (
          _,
          _,
          ground (arith, law.0.1),
          resized-IsPart (start a) (end a) (BTreeMap.extend a.frames law.0.0) a,
          law.1,
        )
