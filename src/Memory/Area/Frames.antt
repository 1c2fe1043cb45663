-- ===== src/Memory/Area/Frames.antt =====
-- The frames that the calls of `MemoryArea` leave: a frame stays with the part of the area that has
-- its page.
use axmm_crates.Base.{
  ℕ, ◌+◌, ◌-◌, ◌<◌, ◌≡◌, ◌⊎◌, inl, inr, subst, true, false, none, some, arith, Bool-cases,
  if◌then◌else◌, ret,
}
use axmm_crates.Base.BTreeMap
use axmm_crates.Base.BTreeMap.{get}
use axmm_crates.Base.BTreeMap.Ranges.{
  IsAscending, get-retain, get-range_from, get-range_to, get-extend, range_from-IsAscending,
}
use axmm_crates.Base.Word.{IsUsize, wrapping_add}
use axmm_crates.Addr.MemoryAddr
use axmm_crates.Addr.MemoryAddr.{usize_addr}
use axmm_crates.Addr.AddrRange.{contains}
use axmm_crates.Memory.Errors.{done, err, bad_state}
use axmm_crates.Memory.Backend.{MappingBackend}
use axmm_crates.Memory.Backend.Laws.{inside, between}
use axmm_crates.Memory.Area.{
  MemoryArea, start, end, size, split, shrink_left, unmap_frames, retain_frames_in_range,
}
use axmm_crates.Memory.Area.Laws.{IsValid, IsPart, resized, resized-IsPart, size_lem}

module _ {B : MappingBackend} where
  -- The part of `a` from `lo` to `hi`, with the frames that `a` has there.
  pub record IsFramedPart (a : MemoryArea B) (lo hi : ℕ) (a' : MemoryArea B) : Type 0 where
    pub part : IsPart a lo hi a'
    pub frames_there :
        (k : ℕ) → get k a'.frames ≡ (if between lo hi k then get k a.frames else none)

  -- Every frame of the area is of an address in its range.
  abbrev pub FramesInside : MemoryArea B → Type 0
  FramesInside a = (k : ℕ) → between (start a) (end a) k ≡ false → get k a.frames ≡ none

  -- `split` inside a valid area, whose frames ascend and are in its range, gives each of the two parts
  -- its range and exactly the frames that the area had there.
  pub split_frames :
      (pos : ℕ) (a : MemoryArea B)
      → IsValid a
      → IsAscending 0 a.frames
      → FramesInside a
      → start a < pos
      → pos < end a
      → (right left : MemoryArea B) × (split pos a ≡ ret (some right, left))
        × IsFramedPart a pos (end a) right
        × IsFramedPart a (start a) pos left
  unfolding split
  split_frames pos a v asc there lo hi = (
    resized pos (end a) (BTreeMap.range_from pos a.frames) a,
    resized (start a) pos (BTreeMap.range_to pos a.frames) a,
    ground arith,
    record {
      part = resized-IsPart _ _ _ a;
      frames_there = λ k. ground (arith, get-range_from 0 pos k a.frames asc, there k);
    },
    record {
      part = resized-IsPart _ _ _ a;
      frames_there = λ k. ground (arith, get-range_to 0 pos k a.frames asc, there k);
    },
  )

  retained :
      (lo hi : ℕ) (a : MemoryArea B)
      → IsFramedPart a lo hi (retain_frames_in_range (resized lo hi a.frames a))
  unfolding retain_frames_in_range contains
  retained lo hi a = record {
    part = resized-IsPart lo hi _ a;
    frames_there = λ k.
        get-retain (λ frame. contains {A = ℕ} (record { start = lo; end = hi }) frame) k a.frames;
  }

  -- `unmap_frames` of `n` addresses, which end in a word, from an area whose frames ascend, does what the
  -- backend answers, and leaves its page table. Where the backend unmaps the addresses, the call
  -- succeeds: the frames outside of them stay, those at them are gone, and the area is as it was
  -- otherwise. Where the backend refuses, the call reports `BadState`, and the area is unchanged.
  pub unmap_frames_outcomes :
      (first n : ℕ) (a : MemoryArea B) (pt : B.PageTable)
      → IsUsize (first + n)
      → IsAscending 0 a.frames
      → let (unmapped, pt') = B.unmap a.backend first n pt in
        ((unmapped ≡ false) × (unmap_frames first n a pt ≡ ret (err bad_state, a, pt')))
        ⊎ ((a' : MemoryArea B) × (unmapped ≡ true)
            × (unmap_frames first n a pt ≡ ret (done, a', pt'))
            × IsPart a (start a) (end a) a'
            × ((k : ℕ) → get k a'.frames ≡ (if inside first n k then none else get k a.frames)))
  unfolding unmap_frames MemoryAddr.add
  unmap_frames_outcomes first n a pt fits asc =
      let kept = BTreeMap.range_from (first + n) (BTreeMap.range_from first a.frames) in
      let from_asc = range_from-IsAscending 0 first a.frames asc in
      let kept_asc =
        range_from-IsAscending 0 (first + n) (BTreeMap.range_from first a.frames) from_asc in
      elim (Bool-cases (B.unmap a.backend first n pt).0) [
        | inr miss ↦ inl (miss, ground (arith, miss))
        | inl hit ↦ inr (
          resized (start a) (end a) (BTreeMap.extend (BTreeMap.range_to first a.frames) kept) a,
          hit,
          ground (arith, hit),
          resized-IsPart _ _ _ a,
          λ k. ground (
            arith,
            get-extend 0 k (BTreeMap.range_to first a.frames) kept kept_asc,
            get-range_to 0 first k a.frames asc,
            get-range_from 0 (first + n) k (BTreeMap.range_from first a.frames) from_asc,
            get-range_from 0 first k a.frames asc,
          ),
        )
      ]

  -- `shrink_left` and `shrink_right`, where they succeed, leave the part of the area with its frames.
  pub shrink_left_frames :
      (n lo : ℕ) (a a' : MemoryArea B) (pt pt' : B.PageTable)
      → IsValid a
      → 0 < n
      → lo + n ≡ end a
      → start a < lo
      → shrink_left n a pt ≡ ret (done, a', pt')
      → IsFramedPart a lo (end a) a'
  unfolding shrink_left
  shrink_left_frames n lo a a' pt pt' v pos e less h =
      let k = size a - n in
      let at : wrapping_add (start a) k ≡ lo = omega (arith, v.fits, size_lem a v) in
      let same : retain_frames_in_range (resized (wrapping_add (start a) k) (end a) a.frames a)
          ≡ a' =
        elim (Bool-cases (B.unmap a.backend (start a) k pt).0) [
          | inl hit ↦ ground (arith, hit, h, size_lem a v)
          | inr miss ↦ absurd (ground (arith, miss, h, size_lem a v))
        ] in
      subst (IsFramedPart a lo (end a)) same (
        subst
          (λ m.
            IsFramedPart a m (end a)
              (retain_frames_in_range (resized (wrapping_add (start a) k) (end a) a.frames a)))
          at (retained (wrapping_add (start a) k) (end a) a))
