-- ===== src/Memory/Set/Query/FirstFit.antt =====
-- All that `MemorySet::find_free_area` may come to.
use axmm_crates.Base.{ℕ, ◌+◌, ◌≤◌, ◌<◌, ◌≡◌, ◌⊎◌, inl, inr, none, some, arith, Option-cases}
use axmm_crates.Base.Word.{IsUsize}
use axmm_crates.Addr.MemoryAddr.{usize_addr}
use axmm_crates.Addr.AddrRange.{AddrRange}
use axmm_crates.Memory.Backend.{MappingBackend}
use axmm_crates.Memory.Set.{MemorySet}
use axmm_crates.Memory.Set.Query.{find_free_area}
use axmm_crates.Memory.Set.Query.Gaps.{FreeFrom}
use axmm_crates.Memory.Set.Query.FreeArea.{SoundAt, find_free_area_sound, find_free_area_first}
use axmm_crates.Memory.Set.Chain.{IsValid}

module _ {B : MappingBackend} (hint n : ℕ) (limit : AddrRange ℕ) (s : MemorySet B) where
  -- A free place for `n` addresses, from the hint on and in the limit.
  pub record Place : Type 0 where
    pub at : ℕ
    pub above_hint : hint ≤ at
    pub above_start : limit.start ≤ at
    pub below_end : at + n ≤ limit.end
    pub free : FreeFrom s at n

  module _ (pos : 0 < n) (fits_start : IsUsize limit.start) (fits_end : IsUsize limit.end)
      (valid : IsValid s) where
    found_at :
        (p : Place) → (addr : ℕ) × (find_free_area hint n limit s ≡ some addr) × (addr ≤ p.at)
    found_at p =
        find_free_area_first hint n limit s p.at pos p.above_hint p.above_start p.below_end fits_end
          valid p.free

    least : (addr : ℕ) → find_free_area hint n limit s ≡ some addr → (p : Place) → addr ≤ p.at
    least addr e p =
        let (found, e', below) = found_at p in
        let same : found ≡ addr = ground (arith, e, e') in omega arith

  -- On a valid set, for a size that is not zero, `find_free_area` has one of two ends. It returns an
  -- address that is sound: at least the hint and the start of the limit, with `n` free addresses from
  -- it on that end in a word, and within the limit or before an address that the set has; it is at
  -- most the address of every free place in the limit. Or it returns `None`, and the limit has no
  -- free place.
  pub find_free_area_outcomes :
      0 < n
      → IsUsize hint
      → IsUsize limit.start
      → IsUsize limit.end
      → IsValid s
      → ((addr : ℕ) × (find_free_area hint n limit s ≡ some addr)
          × SoundAt hint n limit s addr
          × ((p : Place) → addr ≤ p.at))
        ⊎ ((find_free_area hint n limit s ≡ none) × ¬ Place)
  find_free_area_outcomes pos fits_hint fits_start fits_end valid =
      elim (Option-cases (find_free_area hint n limit s)) [
        | inl e ↦ inr (
          e,
          λ p.
              let (addr, e', below) = found_at pos fits_start fits_end valid p in
              ground (arith, e, e'),
        )
        | inr (addr, e) ↦ inl (
          addr,
          e,
          find_free_area_sound hint n limit s addr fits_hint fits_start valid e,
          least pos fits_start fits_end valid addr e,
        )
      ]
