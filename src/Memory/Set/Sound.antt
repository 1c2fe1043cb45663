-- ===== src/Memory/Set/Sound.antt =====
-- The calls of `MemorySet` that cut no area, or add to one, on a set of sound areas. The backend may fail
-- at any call, but returns frames for pages of the range that it maps.
pub mod Adjust
use axmm_crates.Base.{ℕ, [], ◌∷◌}
use axmm_crates.Base.Ensures.{holds, bind}
use axmm_crates.Memory.Backend.{MappingBackend}
use axmm_crates.Memory.Area.Sound.{IsSound, unmap_area-Sound}
use axmm_crates.Memory.Set.{MemorySet}
use axmm_crates.Memory.Set.Change.{clear_areas, clear}
use axmm_crates.Memory.Set.Closed
use axmm_crates.Memory.Set.Closed.{AllAre, Ensures-result, and_then-Keeps}
use axmm_crates.Memory.Errors.{Call}

module _ {B : MappingBackend} where
  abbrev pub AreSound : MemorySet B → Type 0
  AreSound = AllAre IsSound

  abbrev pub Keeps : Call (MemorySet B) B.PageTable → Type 0
  Keeps = Closed.Keeps IsSound

  clear_areas-Keeps : (s : MemorySet B) (pt : B.PageTable) → AreSound s → Keeps (clear_areas s pt)
  unfolding clear_areas
  clear_areas-Keeps [] pt h = holds tt
  clear_areas-Keeps ((k, a) ∷ s) pt h = bind (unmap_area-Sound a pt h.0) λ (result, a', pt') sound.
      Ensures-result result
        (bind (clear_areas-Keeps s pt' h.1) λ (result', s', table) kept. holds (sound, kept))
        (λ e. holds (sound, h.1))

  pub clear-Keeps : (s : MemorySet B) (pt : B.PageTable) → AreSound s → Keeps (clear s pt)
  unfolding clear
  clear-Keeps s pt h = and_then-Keeps IsSound (clear_areas-Keeps s pt h) λ s' pt' kept. holds tt
