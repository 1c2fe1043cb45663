-- ===== src/Memory/Set/Sound/Adjust.antt =====
-- `adjust_area` of Set/Protect and `insert_frame` of Set/Frames.
use axmm_crates.Base.{
  ℕ, ◌+◌, ◌-◌, ◌%◌, ◌≤◌, ◌<◌, ◌≡◌, refl, ◌&&◌, some, unwrap, ◌==◌, ltb, arith, Build,
}
use axmm_crates.Base.Ensures.{
  Ensures, holds, panics, Ensures-both, Ensures-any, Ensures-if, Ensures-option, Ensures-unwrap,
  Ensures-assert,
}
use axmm_crates.Base.Word.{IsUsize, checked_sub, wrapping_sub}
use axmm_crates.Base.BTreeMap
use axmm_crates.Base.BTreeMap.{range_through}
use axmm_crates.Base.BTreeMap.Entries.{get-All}
use axmm_crates.Addr.MemoryAddr
use axmm_crates.Addr.MemoryAddr.{usize_addr, lt_addr, le_addr}
use axmm_crates.Addr.MemoryAddr.Pages.{page}
use axmm_crates.Memory.Errors.{Call, MappingResult, ok, err, and_then}
use axmm_crates.Memory.Backend.{MappingBackend}
use axmm_crates.Memory.Area
use axmm_crates.Memory.Area.{MemoryArea, start, end}
use axmm_crates.Memory.Area.Sound.{
  IsSound, Sound, shrink_left-Sound, shrink_right-Sound, extend_left-Sound, extend_right-Sound,
  insert_frame-IsSound, size_IsSound,
}
use axmm_crates.Memory.Backend.Laws.{MapsInRange}
use axmm_crates.Memory.Set.{MemorySet}
use axmm_crates.Memory.Set.Protect.{adjust_left, adjust_right, adjust_area}
use axmm_crates.Memory.Set.Frames.{insert_frame}
use axmm_crates.Memory.Set.Closed.Frame.{insert_frame-AllAre}
use axmm_crates.Memory.Set.Closed.{Each, write_back-Keeps}
use axmm_crates.Memory.Set.Sound.{AreSound, Keeps}

-- The size of a range.
sub_usize : (lo hi : ℕ) → lo ≤ hi → checked_sub hi lo ≡ some (hi - lo)
sub_usize lo hi h = ground arith

module _ {B : MappingBackend} where
  pub insert_frame-AreSound :
      (b : Build) (x : ℕ) (frame : B.FrameTrackerRef) (s : MemorySet B)
      → IsUsize x
      → AreSound s
      → Ensures (λ y. AreSound y.1) (insert_frame b x frame s)
  insert_frame-AreSound b x frame s fits h =
      insert_frame-AllAre IsSound b x frame s fits
        (λ a lo hi sound.
          insert_frame-IsSound (x - x % page) frame a (omega arith, omega arith, omega arith) sound)
        h

  -- The left boundary, wherever it is moved to.
  adjust_left-Sound :
      (first : ℕ) (a : MemoryArea B) (pt : B.PageTable)
      → MapsInRange B
      → IsSound a
      → Sound (adjust_left first a pt)
  unfolding adjust_left MemoryAddr.sub_addr
  adjust_left-Sound first a pt L s =
      Ensures-if (first == start a) (λ same. holds s)
        λ moves.
          Ensures-if (lt_addr first (start a))
            (λ more. rw (sub_usize first (end a) (ground (arith, more, s.nonempty))) (
              extend_left-Sound (end a - first) first a pt L s (ground (arith, more, s.nonempty))
                (ground (arith, more))))
            (λ less.
              Ensures-any (unwrap (checked_sub (end a) first)) λ n. shrink_left-Sound n a pt s)

  -- Where the boundaries are after a success.
  abbrev AtLeftIf :
      ℕ → MemoryArea B → MappingResult (Unit {0}) × MemoryArea B × B.PageTable → Type 0
  AtLeftIf first a (ok u, a', pt) = (start a' ≡ first) × (end a' ≡ end a)
  AtLeftIf first a (err e, a', pt) = Unit

  shrink_left-AtLeftIf :
      (n first : ℕ) (a : MemoryArea B) (pt : B.PageTable)
      → IsSound a
      → first + n ≡ end a
      → Ensures (AtLeftIf first a) (Area.shrink_left n a pt)
  unfolding Area.shrink_left Area.retain_frames_in_range
  shrink_left-AtLeftIf n first a pt s e =
      let size_eq = size_IsSound a s in
      Ensures-assert (ltb 0 n && ltb n (Area.size a)) λ h.
        let less : n < Area.size a = ground (arith, h) in
        Ensures-if (B.unmap a.backend (start a) (Area.size a - n) pt).0
          (λ u. holds (omega (arith, size_eq, s.nonempty, s.fits), refl)) (λ u. holds tt)

  extend_left-AtLeftIf :
      (n first : ℕ) (a : MemoryArea B) (pt : B.PageTable)
      → IsSound a
      → first + n ≡ end a
      → Ensures (AtLeftIf first a) (Area.extend_left n a pt)
  unfolding Area.extend_left
  extend_left-AtLeftIf n first a pt s e =
      let size_eq = size_IsSound a s in
      let k = n - Area.size a in
      Ensures-assert (ltb 0 n && ltb (Area.size a) n) λ h.
        let more : Area.size a < n = ground (arith, h) in
        Ensures-option (B.map a.backend (wrapping_sub (start a) k) k a.flags pt).0
          (λ miss. holds tt) (λ refs hit. holds (omega (arith, size_eq, s.nonempty, s.fits), refl))

  adjust_left-AtLeftIf :
      (first : ℕ) (a : MemoryArea B) (pt : B.PageTable)
      → IsSound a
      → Ensures (AtLeftIf first a) (adjust_left first a pt)
  unfolding adjust_left MemoryAddr.sub_addr
  adjust_left-AtLeftIf first a pt s =
      Ensures-if (first == start a) (λ same. holds (ground (arith, same), refl))
        λ moves.
          Ensures-if (lt_addr first (start a))
            (λ more.
              Ensures-unwrap (checked_sub (end a) first)
                λ n e. extend_left-AtLeftIf n first a pt s (ground (arith, e)))
            (λ less.
              Ensures-unwrap (checked_sub (end a) first)
                λ n e. shrink_left-AtLeftIf n first a pt s (ground (arith, e)))

  adjust_right-Sound :
      (last old_start old_end : ℕ) (a : MemoryArea B) (pt : B.PageTable)
      → MapsInRange B
      → IsUsize (start a + (last - old_start))
      → IsSound a
      → Sound (adjust_right last old_start old_end a pt)
  unfolding adjust_right MemoryAddr.sub_addr
  adjust_right-Sound last old_start old_end a pt L word s =
      Ensures-if (last == old_end) (λ same. holds s)
        λ moves.
          Ensures-if (lt_addr old_end last)
            (λ more.
              Ensures-unwrap (checked_sub last old_start)
                λ n e. extend_right-Sound n (start a + n) a pt L s refl (ground (arith, e, word)))
            (λ less. Ensures-unwrap (checked_sub last old_start) λ n e. shrink_right-Sound n a pt s)

  -- The second call of `adjust_area`, after the first.
  both-Sound :
      (first last : ℕ) (a : MemoryArea B) {call : Call (MemoryArea B) B.PageTable}
      → MapsInRange B
      → IsUsize (first + (last - start a))
      → Ensures (λ x. IsSound x.1 × AtLeftIf first a x) call
      → Sound (and_then call (adjust_right last (start a) (end a)))
  both-Sound first last a L word panics = panics
  both-Sound first last a L word (holds {a = (ok u, a', pt)} h) =
      adjust_right-Sound last (start a) (end a) a' pt L (ground (arith, h.1, word)) h.0
  both-Sound first last a L word (holds {a = (err e, a', pt)} h) = holds h.0

  -- Wherever the boundaries are moved to.
  pub adjust_area-Keeps :
      (b : Build) (k first last : ℕ) (s : MemorySet B) (pt : B.PageTable)
      → MapsInRange B
      → ((a : MemoryArea B) → BTreeMap.get k s ≡ some a → IsUsize (first + (last - start a)))
      → AreSound s
      → Keeps (adjust_area b k first last s pt)
  unfolding adjust_area
  adjust_area-Keeps b k first last s pt L word h = Ensures-unwrap (BTreeMap.get k s) λ a e.
      Ensures-any (MemoryAddr.is_aligned_4k b first) λ first_aligned.
        Ensures-assert first_aligned λ t.
          Ensures-any (MemoryAddr.is_aligned_4k b last) λ last_aligned.
            Ensures-assert last_aligned λ t.
              Ensures-if (le_addr last first) (λ empty. holds h)
                λ order.
                  let sound : IsSound a = get-All (Each IsSound) k a s h e in
                  write_back-Keeps IsSound k s h (
                    both-Sound first last a L (word a e) (
                      Ensures-both (adjust_left-Sound first a pt L sound)
                        (adjust_left-AtLeftIf first a pt sound)))
