-- ===== src/Memory/Area/Stat.antt =====
-- `stat` of an area whose frames are for pages of it.
use axmm_crates.Base.{ℕ, suc, ◌+◌, ◌-◌, ◌*◌, ◌%◌, ◌≤◌, ◌<◌, ◌≡◌, refl, [], ◌∷◌, arith, ret, Build}
use axmm_crates.Base.BTreeMap.{BTreeMap, len}
use axmm_crates.Base.BTreeMap.Entries.{All}
use axmm_crates.Base.BTreeMap.Ranges.{IsAscending}
use axmm_crates.Base.Word.{usize_mod}
use axmm_crates.Addr.MemoryAddr.Pages.{page}
use axmm_crates.Memory.Backend.{MappingBackend}
use axmm_crates.Memory.Area.{MemoryArea, start, end, stat, frames_count}
use axmm_crates.Memory.Area.Sound.{IsSound, size_IsSound}
use axmm_crates.Memory.Backend.Laws.{Backs}

module _ {V : Type 0} where
  -- Frames that ascend are a page apart.
  page_apart :
      (lo hi k : ℕ) (m : BTreeMap V)
      → k % page ≡ 0
      → All (Backs lo hi) m
      → IsAscending (suc k) m
      → IsAscending (k + page) m
  page_apart lo hi k [] al h a = tt
  page_apart lo hi k ((j, v) ∷ m) al h a = (omega (arith, h.0, a.0), a.1)

  -- The first frame is not below the page of the start.
  from_page :
      (lo hi : ℕ) (m : BTreeMap V)
      → All (Backs lo hi) m
      → IsAscending 0 m
      → IsAscending (lo - lo % page) m
  from_page lo hi [] h a = tt
  from_page lo hi ((j, v) ∷ m) h a = (omega (arith, h.0), a.1)

  frames_fit :
      (lo hi q : ℕ) (m : BTreeMap V)
      → q < hi + page
      → All (Backs lo hi) m
      → IsAscending q m
      → len m * page + q < hi + page
  frames_fit lo hi q [] h b a = omega (arith, h)
  frames_fit lo hi q ((k, v) ∷ m) h b a = omega (
    arith,
    a.0,
    frames_fit lo hi (k + page) m (omega (arith, b.0)) b.1 (page_apart lo hi k m b.0.2 b.1 a.1),
  )

module _ {B : MappingBackend} where
  -- `stat` of a sound area, which ends at least a page below the top of a word, never panics, in either
  -- build. It returns the bounds and the size of the area, and as resident size a page for each frame,
  -- which is at most the pages that have an address of the area.
  pub stat_total :
      (b : Build) (a : MemoryArea B)
      → IsSound a
      → end a + page ≤ usize_mod
      → (rss : ℕ) × (stat b a
          ≡ ret (record {
            start = start a;
            end = end a;
            size = end a - start a;
            rss = rss;
            swap = 0;
          }))
        × (rss ≡ frames_count a * page)
        × (rss + (start a - start a % page) < end a + page)
  unfolding stat
  stat_total b a s top =
      let fit =
        frames_fit (start a) (end a) (start a - start a % page) a.frames (omega (arith, s.nonempty))
          s.backing (from_page (start a) (end a) a.frames s.backing s.ascending) in
      (frames_count a * page, ground (arith, fit, size_IsSound a s), refl, fit)
