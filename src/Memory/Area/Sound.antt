-- ===== src/Memory/Area/Sound.antt =====
-- What every call of `MemoryArea` keeps true of an area: its range, and that its frames back it.
pub mod Cut
use axmm_crates.Base.{
  ℕ, ◌+◌, ◌-◌, ◌≤◌, ◌<◌, ◌≡◌, sym, subst, lt-cases, Option, none, some, [], ◌∷◌, arith, inl, inr,
  ltb, ◌&&◌, ret,
}
use axmm_crates.Base.{◌⊎◌}
use axmm_crates.Base.Ensures.{Ensures, holds, Ensures-assert, Ensures-if, Ensures-option}
use axmm_crates.Base.BTreeMap
use axmm_crates.Base.BTreeMap.{BTreeMap, retain}
use axmm_crates.Base.BTreeMap.Ranges.{IsAscending, range_from-IsAscending, range_to-IsAscending}
use axmm_crates.Base.BTreeMap.Entries.{
  All, All-both, insert-All, extend-All, range_from-All, range_to-All, retain-All, range_from-from,
  range_to-below, retain-IsAscending, insert-IsAscending, extend-IsAscending,
}
use axmm_crates.Base.Word.{IsUsize, wrapping_add, wrapping_sub}
use axmm_crates.Addr.MemoryAddr.{usize_addr}
use axmm_crates.Addr.AddrRange.{contains, from_start_size}
use axmm_crates.Memory.Errors.{Call}
use axmm_crates.Memory.Backend.{MappingBackend}
use axmm_crates.Memory.Backend.Laws.{Backs, MapsInRange}
use axmm_crates.Memory.Area.{
  MemoryArea, start, end, size, split, shrink_left, shrink_right, extend_left, extend_right,
  unmap_area, map_area, set_flags, retain_frames_in_range, unwrap_or,
}
use axmm_crates.Memory.Area.Closed.{After, Both, IsClosed}
use axmm_crates.Memory.Area.Laws.{size_lem, resized, split_outside}

wider :
    {V : Type 0} (lo hi lo' hi' : ℕ) (m : BTreeMap V)
    → lo' ≤ lo
    → hi ≤ hi'
    → All (Backs lo hi) m
    → All (Backs lo' hi') m
wider lo hi lo' hi' [] p q h = tt
wider lo hi lo' hi' ((k, v) ∷ m) p q h =
    ((omega (arith, h.0), omega (arith, h.0), h.0.2), wider lo hi lo' hi' m p q h.1)

-- The area is not empty and ends in a word, and its frames, in ascending order, are for pages of it.
pub record IsSound {B : MappingBackend} (a : MemoryArea B) : Type 0 where
  pub nonempty : start a < end a
  pub fits : IsUsize (end a)
  pub ascending : IsAscending 0 a.frames
  pub backing : All (Backs (start a) (end a)) a.frames

module _ {B : MappingBackend} where
  -- A call that leaves a sound area, if it returns.
  abbrev pub Sound : Call (MemoryArea B) B.PageTable → Type 0
  Sound = After IsSound

  retained :
      (lo hi : ℕ) (a : MemoryArea B)
      → lo < hi
      → IsUsize hi
      → IsSound a
      → IsSound (retain_frames_in_range (resized lo hi a.frames a))
  unfolding retain_frames_in_range contains
  retained lo hi a order fits s = record {
    nonempty = order;
    fits = fits;
    ascending = retain-IsAscending 0 _ a.frames s.ascending;
    backing = retain-All _ a.frames (λ k v h q. ground (arith, q)) s.backing;
  }

  pub size_IsSound : (a : MemoryArea B) → IsSound a → size a ≡ end a - start a
  size_IsSound a s = size_lem a (record { nonempty = s.nonempty; fits = s.fits })

  pub unmap_area-Sound : (a : MemoryArea B) (pt : B.PageTable) → IsSound a → Sound (unmap_area a pt)
  unfolding unmap_area
  unmap_area-Sound a pt s =
      Ensures-if (B.unmap a.backend (start a) (size a) pt).0
        (λ h. holds (record { nonempty = s.nonempty; fits = s.fits; ascending = tt; backing = tt }))
        (λ h. holds s)

  pub map_area-Sound :
      (flags : Option B.Flags) (a : MemoryArea B) (pt : B.PageTable)
      → MapsInRange B
      → IsSound a
      → Sound (map_area flags a pt)
  unfolding map_area
  map_area-Sound flags a pt L s =
      let flag = unwrap_or flags a.flags in
      let whole : start a + size a ≡ end a = omega (arith, size_IsSound a s, s.nonempty) in
      Ensures-option (B.map a.backend (start a) (size a) flag pt).0 (λ miss. holds s)
        (λ refs hit. holds (record {
          nonempty = s.nonempty;
          fits = s.fits;
          ascending = extend-IsAscending a.frames refs s.ascending;
          backing = extend-All (Backs (start a) (end a)) a.frames refs s.backing (
              subst (λ hi. All (Backs (start a) hi) refs) whole
                (L a.backend (start a) (size a) flag pt refs (omega (arith, whole, s.nonempty))
                  hit));
        }))

  pub set_flags-IsSound :
      (flags : B.Flags) (a : MemoryArea B) → IsSound a → IsSound (set_flags flags a)
  unfolding set_flags
  set_flags-IsSound flags a s = record {
    nonempty = s.nonempty;
    fits = s.fits;
    ascending = s.ascending;
    backing = s.backing;
  }

  -- A frame for a page that meets the area.
  pub insert_frame-IsSound :
      (p : ℕ) (frame : B.FrameTrackerRef) (a : MemoryArea B)
      → Backs (start a) (end a) p frame
      → IsSound a
      → IsSound (record a { frames = BTreeMap.insert p frame a.frames })
  insert_frame-IsSound p frame a meets s = record {
    nonempty = s.nonempty;
    fits = s.fits;
    ascending = insert-IsAscending 0 p frame a.frames (omega arith) s.ascending;
    backing = insert-All (Backs (start a) (end a)) p frame a.frames meets s.backing;
  }

  pub shrink_left-Sound :
      (n : ℕ) (a : MemoryArea B) (pt : B.PageTable) → IsSound a → Sound (shrink_left n a pt)
  unfolding shrink_left
  shrink_left-Sound n a pt s =
      let k = size a - n in
      let e = size_IsSound a s in
      Ensures-assert (ltb 0 n && ltb n (size a)) λ h.
        Ensures-if (B.unmap a.backend (start a) k pt).0
          (λ u. holds (
            retained (wrapping_add (start a) k) (end a) a (ground (arith, h, e, s.nonempty, s.fits))
              s.fits s))
          (λ u. holds s)

  pub shrink_right-Sound :
      (n : ℕ) (a : MemoryArea B) (pt : B.PageTable) → IsSound a → Sound (shrink_right n a pt)
  unfolding shrink_right
  shrink_right-Sound n a pt s =
      let k = size a - n in
      let e = size_IsSound a s in
      Ensures-assert (ltb 0 n && ltb n (size a)) λ h.
        let bounds : (start a < wrapping_sub (end a) k) × (wrapping_sub (end a) k < end a) =
          ground (arith, h, e, s.nonempty, s.fits) in
        Ensures-if (B.unmap a.backend (wrapping_add (start a) n) k pt).0
          (λ u. holds (
            retained (start a) (wrapping_sub (end a) k) a bounds.0 (omega (arith, bounds.1, s.fits))
              s))
          (λ u. holds s)

  pub extend_left-Sound :
      (n first : ℕ) (a : MemoryArea B) (pt : B.PageTable)
      → MapsInRange B
      → IsSound a
      → first + n ≡ end a
      → first < start a
      → Sound (extend_left n a pt)
  unfolding extend_left
  extend_left-Sound n first a pt L s e more =
      let k = n - size a in
      let at = wrapping_sub (start a) k in
      let size_eq = size_IsSound a s in
      let new_start : at ≡ first = omega (arith, size_eq, s.nonempty, s.fits) in
      let sum : first + k ≡ start a = omega (arith, size_eq, s.nonempty) in
      Ensures-assert (ltb 0 n && ltb (size a) n) λ h.
        Ensures-option (B.map a.backend at k a.flags pt).0 (λ miss. holds s)
          (λ refs hit. holds (record {
            nonempty = omega (arith, s.nonempty);
            fits = s.fits;
            ascending = extend-IsAscending a.frames refs s.ascending;
            backing =
                extend-All (Backs at (end a)) a.frames refs
                  (wider (start a) (end a) at (end a) a.frames (omega arith) (omega arith)
                    s.backing)
                  (wider at (at + k) at (end a) refs (omega arith) (omega (arith, s.nonempty))
                    (L a.backend at k a.flags pt refs (omega arith) hit));
          }))

  pub extend_right-Sound :
      (n last : ℕ) (a : MemoryArea B) (pt : B.PageTable)
      → MapsInRange B
      → IsSound a
      → start a + n ≡ last
      → IsUsize last
      → Sound (extend_right n a pt)
  unfolding extend_right
  extend_right-Sound n last a pt L s e word =
      let k = n - size a in
      let at = wrapping_add (start a) (size a) in
      let size_eq = size_IsSound a s in
      let at_end : at ≡ end a = omega (arith, size_eq, s.nonempty, s.fits) in
      Ensures-assert (ltb 0 n && ltb (size a) n) λ h.
        let more : size a < n = ground (arith, h) in
        let new_end : wrapping_add (end a) k ≡ last = omega (arith, size_eq, s.nonempty) in
        let sum : end a + k ≡ last = omega (arith, size_eq, s.nonempty) in
        Ensures-option (B.map a.backend at k a.flags pt).0 (λ miss. holds s)
          (λ refs hit. holds (record {
            nonempty = omega (arith, s.nonempty);
            fits = omega arith;
            ascending = extend-IsAscending a.frames refs s.ascending;
            backing =
                subst (λ hi. All (Backs (start a) hi) (BTreeMap.extend a.frames refs)) (sym new_end)
                  (extend-All (Backs (start a) last) a.frames refs
                    (wider (start a) (end a) (start a) last a.frames (omega arith) (omega arith)
                      s.backing)
                    (wider at (at + k) (start a) last refs (omega (arith, s.nonempty)) (omega arith)
                      (L a.backend at k a.flags pt refs (omega arith) hit)));
          }))
