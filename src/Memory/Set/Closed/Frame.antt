-- ===== src/Memory/Set/Closed/Frame.antt =====
-- `insert_frame` of Set/Frames.
use axmm_crates.Base.{
  ℕ, ◌+◌, ◌-◌, ◌%◌, ◌≤◌, ◌<◌, ◌≡◌, subst, Option, none, some, ret, debug_assert, arith, Build,
}
use axmm_crates.Base.Ensures.{Ensures, holds, bind, Ensures-any, Ensures-option}
use axmm_crates.Base.Word.{IsUsize}
use axmm_crates.Base.BTreeMap
use axmm_crates.Base.BTreeMap.{range_through}
use axmm_crates.Base.BTreeMap.Entries.{Of, insert-All, range_through-All, last-All}
use axmm_crates.Addr.MemoryAddr
use axmm_crates.Addr.MemoryAddr.{usize_addr, lt_addr, le_addr}
use axmm_crates.Addr.MemoryAddr.Pages.{page, down_4k}
use axmm_crates.Addr.AddrRange
use axmm_crates.Memory.Backend.{MappingBackend}
use axmm_crates.Memory.Area
use axmm_crates.Memory.Area.{MemoryArea, start, end}
use axmm_crates.Memory.Set.{MemorySet}
use axmm_crates.Memory.Set.Query.{find_mut, filter_entry}
use axmm_crates.Memory.Set.Frames.{insert_frame}
use axmm_crates.Memory.Set.Closed.{Each, AllAre}

-- The start of the page of an address.
page_start : (b : Build) (x : ℕ) → IsUsize x → MemoryAddr.align_down_4k b x ≡ ret (x - x % page)
page_start b x fits =
    let e : x - x % page + x % page ≡ x = omega arith in
    subst (λ y. MemoryAddr.align_down_4k b y ≡ ret (x - x % page)) e
      (down_4k b (x - x % page) (x % page) (omega arith) (omega arith) (omega arith))

module _ {B : MappingBackend} (P : MemoryArea B → Type 0) where
  -- An area that contains the address.
  abbrev Contains : ℕ → ℕ → MemoryArea B → Type 0
  Contains x k a = P a × (start a ≤ x) × (x < end a)

  filter_entry-Contains :
      (x : ℕ) (o : Option (ℕ × MemoryArea B)) → Of (Each P) o → Of (Contains x) (filter_entry x o)
  unfolding AddrRange.contains
  filter_entry-Contains x none h = tt
  filter_entry-Contains x (some (k, a)) h = ground (arith, h)

  find_mut-Contains : (x : ℕ) (s : MemorySet B) → AllAre P s → Of (Contains x) (find_mut x s)
  unfolding find_mut
  find_mut-Contains x s h =
      filter_entry-Contains x _
        (last-All (Each P) (range_through x s) (range_through-All (Each P) x s h))

  -- An area after the insertion of a frame, if it returns.
  area_insert_frame :
      (b : Build) (p : ℕ) (frame : B.FrameTrackerRef) (a : MemoryArea B)
      → P (record a { frames = BTreeMap.insert p frame a.frames })
      → Ensures (λ x. P x.1) (Area.insert_frame b p frame a)
  unfolding Area.insert_frame
  area_insert_frame b p frame a h =
      Ensures-any (MemoryAddr.is_aligned_4k b p)
        λ aligned. Ensures-any (debug_assert b aligned) λ u. holds h

  pub insert_frame-AllAre :
      (b : Build) (x : ℕ) (frame : B.FrameTrackerRef) (s : MemorySet B)
      → IsUsize x
      → ((a : MemoryArea B)
          → start a ≤ x
          → x < end a
          → P a
          → P (record a { frames = BTreeMap.insert (x - x % page) frame a.frames }))
      → AllAre P s
      → Ensures (λ y. AllAre P y.1) (insert_frame b x frame s)
  unfolding insert_frame
  insert_frame-AllAre b x frame s fits rule h =
      Ensures-option (find_mut x s) (λ e. holds h)
        λ (k, a) e.
          let c : Contains x k a = subst (Of (Contains x)) e (find_mut-Contains x s h) in
          rw (page_start b x fits) (
            bind (area_insert_frame b (x - x % page) frame a (rule a c.1 c.2 c.0))
              λ (old, a') kept. holds (insert-All (Each P) k a' s kept h))
