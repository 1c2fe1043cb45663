-- ===== src/Memory/Area.antt =====
-- `MemoryArea` of memory_set/src/area.rs, with the feature `RAII`: a range of addresses with one
-- set of flags, the frames that back it, and its backend.
pub mod Laws
pub mod Extend
pub mod Tries
pub mod Frames
pub mod Closed
pub mod Sound
pub mod Keeps
pub mod Stat
use axmm_crates.Base.{
  ℕ, suc, ◌-◌, ◌+◌, ◌*◌, Bool, true, false, ◌&&◌, not, Option, none, some, List, [], Outcome, ret,
  panic, assert, debug_assert, ◌>>=◌, ◌>>◌, Build, ltb, if◌then◌else◌,
}
use axmm_crates.Base.Word.{mul_usize, wrapping_add, wrapping_sub}
use axmm_crates.Base.BTreeMap
use axmm_crates.Base.BTreeMap.{BTreeMap}
use axmm_crates.Addr.Align.{page_size_4k}
use axmm_crates.Addr.MemoryAddr
use axmm_crates.Addr.MemoryAddr.{usize_addr}
use axmm_crates.Addr.AddrRange
use axmm_crates.Addr.AddrRange.{AddrRange}
use axmm_crates.Memory.Errors.{MappingError, bad_state, MappingResult, ok, err, done, Call}
use axmm_crates.Memory.Backend.{MappingBackend}

-- `AreaStat`
pub record AreaStat : Type 0 where
  pub start : ℕ
  pub end : ℕ
  pub size : ℕ
  pub rss : ℕ
  pub swap : ℕ

pub record MemoryArea (B : MappingBackend) : Type 0 where
  pub va_range : AddrRange ℕ
  pub frames : BTreeMap B.FrameTrackerRef
  pub flags : B.Flags
  pub backend : B.Self

abbrev pub unwrap_or : {A : Type 0} → Option A → A → A
unwrap_or none d = d
unwrap_or (some a) d = a

module _ {B : MappingBackend} where
  unfoldable pub new :
      ℕ → ℕ → Option (BTreeMap B.FrameTrackerRef) → B.Flags → B.Self → Outcome (MemoryArea B)
  unfolding AddrRange.from_start_size
  new start size frame_alloced flags backend = do
    va_range ← AddrRange.from_start_size start size
    ret (record {
      va_range = va_range;
      frames = unwrap_or frame_alloced [];
      flags = flags;
      backend = backend;
    })

  -- The accessors `start`, `end` and `size`; the others are the fields.
  abbrev pub start : MemoryArea B → ℕ
  start self = self.va_range.start

  abbrev pub end : MemoryArea B → ℕ
  end self = self.va_range.end

  unfoldable pub size : MemoryArea B → ℕ
  unfolding AddrRange.size
  size self = AddrRange.size self.va_range

  unfoldable pub set_flags : B.Flags → MemoryArea B → MemoryArea B
  set_flags new_flags self = record self { flags = new_flags }

  unfoldable pub clone_ : B.Flags → MemoryArea B → MemoryArea B
  unfolding set_flags
  clone_ flags self = set_flags flags self

  abbrev pub frames_count : MemoryArea B → ℕ
  frames_count self = BTreeMap.len self.frames

  unfoldable pub stat : Build → MemoryArea B → Outcome AreaStat
  unfolding size
  stat b self = do
    rss ← mul_usize b (frames_count self) page_size_4k
    ret (record { start = start self; end = end self; size = size self; rss = rss; swap = 0 })

  unfoldable pub retain_frames_in_range : MemoryArea B → MemoryArea B
  unfolding BTreeMap.retain AddrRange.contains
  retain_frames_in_range self = record self {
    frames = BTreeMap.retain (λ frame. AddrRange.contains self.va_range frame) self.frames;
  }

  unfoldable pub set_end : ℕ → MemoryArea B → MemoryArea B
  unfolding retain_frames_in_range
  set_end new_end self =
      retain_frames_in_range
        (record self { va_range = record { start = start self; end = new_end } })

  unfoldable pub map_area :
      Option B.Flags → MemoryArea B → B.PageTable → Call (MemoryArea B) B.PageTable
  unfolding size BTreeMap.extend
  map_area flags self page_table =
      let flag = unwrap_or flags self.flags in
      let (frame_refs, table) = B.map self.backend (start self) (size self) flag page_table in
      elim frame_refs [
        | none ↦ ret (err bad_state, self, table)
        | some refs ↦ ret (done, record self { frames = BTreeMap.extend self.frames refs }, table)
      ]

  unfoldable pub unmap_area : MemoryArea B → B.PageTable → Call (MemoryArea B) B.PageTable
  unfolding size
  unmap_area self page_table =
      let (unmapped, table) = B.unmap self.backend (start self) (size self) page_table in
      if unmapped
      then ret (done, record self { frames = [] }, table)
      else ret (err bad_state, self, table)

  unfoldable pub unmap_frames : ℕ → ℕ → MemoryArea B → B.PageTable → Call (MemoryArea B) B.PageTable
  unfolding BTreeMap.extend BTreeMap.range_from BTreeMap.range_to MemoryAddr.add
  unmap_frames first n self page_table =
      let (unmapped, table) = B.unmap self.backend first n page_table in
      if unmapped
      then (do
        let tail = BTreeMap.range_from first self.frames
        past ← MemoryAddr.add first n
        ret (
          done,
          record self {
            frames =
                BTreeMap.extend (BTreeMap.range_to first self.frames)
                  (BTreeMap.range_from past tail);
          },
          table,
        ))
      else ret (err bad_state, self, table)

  -- The result of the backend is not read.
  unfoldable pub protect_area :
      B.Flags → MemoryArea B → B.PageTable → Call (MemoryArea B) B.PageTable
  unfolding size
  protect_area new_flags self page_table =
      ret (done, self, (B.protect self.backend (start self) (size self) new_flags page_table).1)

  unfoldable pub shrink_left : ℕ → MemoryArea B → B.PageTable → Call (MemoryArea B) B.PageTable
  unfolding size retain_frames_in_range
  shrink_left new_size self page_table = do
    assert (ltb 0 new_size && ltb new_size (size self))
    let unmap_size = size self - new_size
    let (unmapped, table) = B.unmap self.backend (start self) unmap_size page_table
    if unmapped
        then ret (
          done,
          retain_frames_in_range (record self {
            va_range = record { start = wrapping_add (start self) unmap_size; end = end self };
          }),
          table,
        )
        else ret (err bad_state, self, table)

  unfoldable pub shrink_right : ℕ → MemoryArea B → B.PageTable → Call (MemoryArea B) B.PageTable
  unfolding size retain_frames_in_range
  shrink_right new_size self page_table = do
    assert (ltb 0 new_size && ltb new_size (size self))
    let unmap_size = size self - new_size
    let unmap_start = wrapping_add (start self) new_size
    let (unmapped, table) = B.unmap self.backend unmap_start unmap_size page_table
    if unmapped
        then ret (
          done,
          retain_frames_in_range (record self {
            va_range = record { start = start self; end = wrapping_sub (end self) unmap_size };
          }),
          table,
        )
        else ret (err bad_state, self, table)

  unfoldable pub extend_left : ℕ → MemoryArea B → B.PageTable → Call (MemoryArea B) B.PageTable
  unfolding size BTreeMap.extend
  extend_left new_size self page_table = do
    assert (ltb 0 new_size && ltb (size self) new_size)
    let map_size = new_size - size self
    let map_start = wrapping_sub (start self) map_size
    let (map_result, table) = B.map self.backend map_start map_size self.flags page_table
    elim map_result [
      | none ↦ ret (err bad_state, self, table)
      | some new_frames ↦ ret (
        done,
        record self {
          va_range = record { start = map_start; end = end self };
          frames = BTreeMap.extend self.frames new_frames;
        },
        table,
      )
    ]

  unfoldable pub extend_right : ℕ → MemoryArea B → B.PageTable → Call (MemoryArea B) B.PageTable
  unfolding size BTreeMap.extend
  extend_right new_size self page_table = do
    assert (ltb 0 new_size && ltb (size self) new_size)
    let map_size = new_size - size self
    let map_start = wrapping_add (start self) (size self)
    let (map_result, table) = B.map self.backend map_start map_size self.flags page_table
    elim map_result [
      | none ↦ ret (err bad_state, self, table)
      | some new_frames ↦ ret (
        done,
        record self {
          va_range = record { start = start self; end = wrapping_add (end self) map_size };
          frames = BTreeMap.extend self.frames new_frames;
        },
        table,
      )
    ]

  -- The right part, and the area after the call, which is the left part.
  unfoldable pub split : ℕ → MemoryArea B → Outcome (Option (MemoryArea B) × MemoryArea B)
  unfolding new BTreeMap.range_from BTreeMap.range_to
  split pos self =
      if ltb (start self) pos && ltb pos (end self)
      then (do
        new_area ←
            new pos (wrapping_sub (end self) pos) (some (BTreeMap.range_from pos self.frames))
              self.flags self.backend
        ret (
          some new_area,
          record self {
            va_range = record { start = start self; end = pos };
            frames = BTreeMap.range_to pos self.frames;
          },
        ))
      else ret (none, self)

  -- The frame that was there before, and the area after the call.
  unfoldable pub insert_frame :
      Build
      → ℕ
      → B.FrameTrackerRef
      → MemoryArea B
      → Outcome (Option B.FrameTrackerRef × MemoryArea B)
  unfolding BTreeMap.get BTreeMap.insert MemoryAddr.is_aligned_4k
  insert_frame b vaddr frame self = do
    aligned ← MemoryAddr.is_aligned_4k b vaddr
    debug_assert b aligned
    ret (
      BTreeMap.get vaddr self.frames,
      record self { frames = BTreeMap.insert vaddr frame self.frames },
    )

  unfoldable pub find_frame : Build → ℕ → MemoryArea B → Outcome (Option B.FrameTrackerRef)
  unfolding BTreeMap.get MemoryAddr.is_aligned_4k
  find_frame b vaddr self = do
    aligned ← MemoryAddr.is_aligned_4k b vaddr
    debug_assert b aligned
    ret (BTreeMap.get vaddr self.frames)

  -- `new_mmap`, of the feature `mmap`.
  unfoldable pub new_mmap :
      ℕ → ℕ → Option (BTreeMap B.FrameTrackerRef) → B.Flags → B.Self → Outcome (MemoryArea B)
  unfolding AddrRange.from_start_size
  new_mmap start size frame_alloced flags backend = do
    va_range ← AddrRange.from_start_size start size
    ret (record {
      va_range = va_range;
      frames = unwrap_or frame_alloced [];
      flags = flags;
      backend = backend;
    })
