-- ===== src/Memory/Area/Keeps.antt =====
-- That an area has, at the addresses that are not exempt, the frames of a given function. The calls that
-- cut areas keep it.
use axmm_crates.Base.{
  ℕ, ◌-◌, ◌≤◌, ◌<◌, ◌≡◌, sym, subst, inl, inr, Bool, true, false, Option, arith, ◌∙◌, ltb, ◌&&◌,
}
use axmm_crates.Base.Ensures.{
  Ensures, holds, Ensures-both, Ensures-assert, Ensures-if, Ensures-option,
}
use axmm_crates.Base.BTreeMap.{get, insert}
use axmm_crates.Base.BTreeMap.Lookup.{get-insert_other}
use axmm_crates.Base.BTreeMap.Ranges.{get-retain, get-range_from, get-range_to}
use axmm_crates.Base.Word.{wrapping_add, wrapping_sub}
use axmm_crates.Addr.MemoryAddr.{usize_addr}
use axmm_crates.Addr.AddrRange
use axmm_crates.Memory.Backend.{MappingBackend}
use axmm_crates.Memory.Area.{
  MemoryArea, start, end, size, split, shrink_left, shrink_right, set_flags, map_area,
  retain_frames_in_range, unwrap_or,
}
use axmm_crates.Memory.Area.Laws.{resized}
use axmm_crates.Memory.Area.Closed.{After, Both, IsClosed}
use axmm_crates.Memory.Area.Sound.{
  IsSound, size_IsSound, shrink_left-Sound, shrink_right-Sound, set_flags-IsSound, map_area-Sound,
}
use axmm_crates.Memory.Area.Sound.Cut.{split_cases, left_part, right_part}
use axmm_crates.Memory.Backend.Laws.{MapsInRange}

module _ {B : MappingBackend} (frame_of : ℕ → Option B.FrameTrackerRef) (exempt : ℕ → Bool) where
  abbrev pub HasFrames : MemoryArea B → Type 0
  HasFrames a = (p : ℕ) → start a ≤ p → p < end a → exempt p ≡ false → get p a.frames ≡ frame_of p

  -- A sound area with these frames.
  abbrev pub Has : MemoryArea B → Type 0
  Has a = IsSound a × HasFrames a

  retained :
      (lo hi : ℕ) (a : MemoryArea B)
      → start a ≤ lo
      → hi ≤ end a
      → HasFrames a
      → HasFrames (retain_frames_in_range (resized lo hi a.frames a))
  unfolding retain_frames_in_range AddrRange.contains
  retained lo hi a l h has p q r e = ground (
    arith,
    get-retain (λ k. AddrRange.contains (record { start = lo; end = hi }) k) p a.frames,
    has p (omega arith) (omega arith) e,
  )

  shrink_left-HasFrames :
      (n : ℕ) (a : MemoryArea B) (pt : B.PageTable)
      → IsSound a
      → HasFrames a
      → After HasFrames (shrink_left n a pt)
  unfolding shrink_left
  shrink_left-HasFrames n a pt s has =
      let k = size a - n in
      let e = size_IsSound a s in
      Ensures-assert (ltb 0 n && ltb n (size a)) λ h.
        Ensures-if (B.unmap a.backend (start a) k pt).0
          (λ u. holds (
            retained (wrapping_add (start a) k) (end a) a (ground (arith, h, e, s.nonempty, s.fits))
              (omega arith) has))
          (λ u. holds has)

  shrink_right-HasFrames :
      (n : ℕ) (a : MemoryArea B) (pt : B.PageTable)
      → IsSound a
      → HasFrames a
      → After HasFrames (shrink_right n a pt)
  unfolding shrink_right
  shrink_right-HasFrames n a pt s has =
      let k = size a - n in
      let e = size_IsSound a s in
      Ensures-assert (ltb 0 n && ltb n (size a)) λ h.
        Ensures-if (B.unmap a.backend (wrapping_add (start a) n) k pt).0
          (λ u. holds (
            retained (start a) (wrapping_sub (end a) k) a (omega arith)
              (ground (arith, h, e, s.nonempty, s.fits)) has))
          (λ u. holds has)

  split-Has : (pos : ℕ) (a : MemoryArea B) → Has a → Ensures (Both Has) (split pos a)
  split-Has pos a (s, has) = elim (split_cases pos a s) [
    | inl out ↦ subst (Ensures (Both Has)) (sym out) (holds (s, has))
    | inr (lt, gt, parts) ↦ subst (Ensures (Both Has)) (sym parts) (
        holds (
          (
            right_part pos a lt gt s,
            λ p q r e.
                ground
                  (arith, get-range_from 0 pos p a.frames s.ascending, has p (omega arith) r e),
          ),
          (
            left_part pos a lt gt s,
            λ p q r e.
                ground (arith, get-range_to 0 pos p a.frames s.ascending, has p q (omega arith) e),
          ),
        ))
  ]

  set_flags-Has : (flags : B.Flags) (a : MemoryArea B) → Has a → Has (set_flags flags a)
  unfolding set_flags
  set_flags-Has flags a (s, has) = (set_flags-IsSound flags a s, has)

  pub Has-IsClosed : IsClosed Has
  Has-IsClosed = record {
    split_keeps = split-Has;
    shrink_left_keeps = λ n a pt (s, has).
        Ensures-both (shrink_left-Sound n a pt s) (shrink_left-HasFrames n a pt s has);
    shrink_right_keeps = λ n a pt (s, has).
        Ensures-both (shrink_right-Sound n a pt s) (shrink_right-HasFrames n a pt s has);
    set_flags_keeps = set_flags-Has;
  }

  -- All addresses of the area are exempt.
  abbrev pub IsExempt : MemoryArea B → Type 0
  IsExempt a = (p : ℕ) → start a ≤ p → p < end a → exempt p ≡ true

  pub exempt-HasFrames : (a : MemoryArea B) → IsExempt a → HasFrames a
  exempt-HasFrames a x p q r e = absurd (ground (arith, x p q r, e))

  map_area-HasFrames :
      (flags : Option B.Flags) (a : MemoryArea B) (pt : B.PageTable)
      → IsExempt a
      → After HasFrames (map_area flags a pt)
  unfolding map_area
  map_area-HasFrames flags a pt x =
      Ensures-option (B.map a.backend (start a) (size a) (unwrap_or flags a.flags) pt).0
        (λ miss. holds (exempt-HasFrames a x))
        (λ refs hit. holds (λ p q r e. absurd (ground (arith, x p q r, e))))

  pub map_area-Has :
      (flags : Option B.Flags) (a : MemoryArea B) (pt : B.PageTable)
      → MapsInRange B
      → IsExempt a
      → IsSound a
      → After Has (map_area flags a pt)
  map_area-Has flags a pt L x s =
      Ensures-both (map_area-Sound flags a pt L s) (map_area-HasFrames flags a pt x)

  -- A frame at an exempt address.
  pub insert_frame-HasFrames :
      (at : ℕ) (frame : B.FrameTrackerRef) (a : MemoryArea B)
      → exempt at ≡ true
      → HasFrames a
      → HasFrames (record a { frames = insert at frame a.frames })
  insert_frame-HasFrames at frame a x has p q r e =
      get-insert_other p at frame a.frames (λ same. absurd (ground (arith, same, x, e)))
      ∙ has p q r e
