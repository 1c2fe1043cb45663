-- ===== src/Memory/Area/Extend.antt =====
-- `extend_left` and `extend_right` of a valid area.
use axmm_crates.Base.{ℕ, ◌+◌, ◌-◌, ◌<◌, ◌≡◌, refl, Option, some, arith}
use axmm_crates.Base.BTreeMap
use axmm_crates.Base.Word.{IsUsize, wrapping_add, wrapping_sub}
use axmm_crates.Memory.Backend.{MappingBackend}
use axmm_crates.Memory.Backend.Laws.{FreeIn, Sets, IsLawful, map_in}
use axmm_crates.Memory.Area.{MemoryArea, start, end, size, extend_left, extend_right}
use axmm_crates.Memory.Area.Laws.{IsValid, Leaves}

module _ {B : MappingBackend} (entry : B.PageTable → ℕ → Option B.Flags)
    (L : IsLawful B entry) where
  -- `extend_right` of a valid area to `n` addresses maps the new ones, which have to be free, with
  -- the flags of the area.
  pub extend_right_lem :
      (n hi : ℕ) (a : MemoryArea B) (pt : B.PageTable)
      → IsValid a
      → start a + n ≡ hi
      → end a < hi
      → IsUsize hi
      → FreeIn B entry (end a) hi pt
      → Leaves (extend_right n a pt) a (start a) hi (Sets B entry (end a) hi (some a.flags) pt)
  unfolding extend_right
  extend_right_lem n hi a pt v e more fits free =
      let k = n - size a in
      let law =
        map_in B entry L a.backend (end a) hi k a.flags pt (omega (arith, v.nonempty, v.fits))
          free in
      let from : wrapping_add (start a) (size a) ≡ end a = omega (arith, v.nonempty, v.fits) in
      (
        record {
          va_range = record { start = start a; end = wrapping_add (end a) k };
          frames = BTreeMap.extend a.frames law.0.0;
          flags = a.flags;
          backend = a.backend;
        },
        (B.map a.backend (end a) k a.flags pt).1,
        ground (arith, law.0.1, from, v.nonempty, v.fits),
        record {
          part_start = refl;
          part_end = omega (arith, v.nonempty, v.fits);
          same_flags = refl;
          same_backend = refl;
        },
        law.1,
      )

  -- `extend_left` of a valid area to `n` addresses, likewise.
  pub extend_left_lem :
      (n lo : ℕ) (a : MemoryArea B) (pt : B.PageTable)
      → IsValid a
      → lo + n ≡ end a
      → lo < start a
      → FreeIn B entry lo (start a) pt
      → Leaves (extend_left n a pt) a lo (end a) (Sets B entry lo (start a) (some a.flags) pt)
  unfolding extend_left
  extend_left_lem n lo a pt v e more free =
      let k = n - size a in
      let law =
        map_in B entry L a.backend lo (start a) k a.flags pt (omega (arith, v.nonempty, v.fits))
          free in
      let from : wrapping_sub (start a) k ≡ lo = omega (arith, v.nonempty, v.fits) in
      (
        record {
          va_range = record { start = wrapping_sub (start a) k; end = end a };
          frames = BTreeMap.extend a.frames law.0.0;
          flags = a.flags;
          backend = a.backend;
        },
        (B.map a.backend lo k a.flags pt).1,
        ground (arith, law.0.1, from, v.nonempty, v.fits),
        record { part_start = from; part_end = refl; same_flags = refl; same_backend = refl },
        law.1,
      )
