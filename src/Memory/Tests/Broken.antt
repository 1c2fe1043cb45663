-- ===== src/Memory/Tests/Broken.antt =====
-- The operations over a backend that refuses every call.
use axmm_crates.Base.{ℕ, ◌≤◌, ◌≡◌, ◌⊎◌, refl, arith, true, false, ret, none, [], ◌∷◌}
use axmm_crates.Addr.MemoryAddr.{usize_addr}
use axmm_crates.Memory.Errors.{err, invalid_param, bad_state}
use axmm_crates.Memory.Backend.{MappingBackend}
use axmm_crates.Base.Word.{usize_mod}
use axmm_crates.Memory.Area.{MemoryArea}
use axmm_crates.Memory.Set.{MemorySet}
use axmm_crates.Memory.Set.Change.{map, unmap}
use axmm_crates.Memory.Set.Safety.Unmap.{UnmapsAny, unmap_any}
use axmm_crates.Memory.Set.Safety.Map.{MapsAny, map_any}
use axmm_crates.Memory.Set.Safety.Protect.{Updates, protect_any}
use axmm_crates.Base.{◌+◌, ◌<◌}
use axmm_crates.Memory.Set.Protect.{protect}
use axmm_crates.Memory.Set.Chain.{IsValid}
use axmm_crates.Memory.Tests.{raise}

-- A backend that refuses all: nothing can be mapped, unmapped or protected.
abbrev broken : MappingBackend
broken = record {
  Self = Unit {0};
  Flags = ℕ;
  PageTable = ℕ;
  FrameTrackerRef = ℕ;
  map = λ b first n flags pt. (none, pt + 1);
  unmap = λ b first n pt. (false, pt + 1);
  protect = λ b first n flags pt. (false, pt + 1);
}

abbrev broken_area : ℕ → ℕ → ℕ → MemoryArea broken
broken_area lo hi flags = record {
  va_range = record { start = lo; end = hi };
  frames = [];
  flags = flags;
  backend = tt;
}

abbrev broken_set : MemorySet broken
broken_set = (0x1000, broken_area 0x1000 0x3000 1) ∷ (0x4000, broken_area 0x4000 0x5000 2) ∷ []

broken_set-IsValid : IsValid broken_set
broken_set-IsValid = omega arith

-- The failure of `shrink_left` loses the second area.
run_unmap_broken :
    unmap 0x3800 0x1000 broken_set 0
    ≡ ret (err bad_state, (0x1000, broken_area 0x1000 0x3000 1) ∷ [], 1)
unfolding unmap
run_unmap_broken = refl

unmap_any_example : UnmapsAny 0x2000 0x2800 broken_set 0
unmap_any_example = unmap_any 0x2000 0x2800 broken_set 0 broken_set-IsValid

map_any_example :
    MapsAny
      (broken_area 0x2000 0x4800 7)
      true
      broken_set
      0
      (map (broken_area 0x2000 0x4800 7) true none broken_set 0)
map_any_example =
    map_any (broken_area 0x2000 0x4800 7) true none broken_set 0 (omega arith) broken_set-IsValid

protect_any_example :
    ((0x2000 + 0x2800 < usize_mod) × Updates raise 0x2000 0x2800 broken_set 0)
    ⊎ ((usize_mod ≤ 0x2000 + 0x2800)
        × (protect 0x2000 0x2800 raise broken_set 0 ≡ ret (err invalid_param, broken_set, 0)))
protect_any_example = protect_any raise 0x2000 0x2800 broken_set 0 (omega arith) broken_set-IsValid
