-- ===== src/Memory/Area/Tries.antt =====
-- The calls of `MemoryArea` over a backend of which nothing is known: each one changes the area as
-- it is meant to, or reports `BadState` and leaves it as it was.
use axmm_crates.Base.{
  ℕ, ◌+◌, ◌-◌, ◌<◌, ◌≡◌, refl, ◌⊎◌, inl, inr, false, Option, [], arith, Bool-cases, Option-cases,
  ret,
}
use axmm_crates.Base.BTreeMap
use axmm_crates.Base.Word.{IsUsize, wrapping_add, wrapping_sub}
use axmm_crates.Memory.Errors.{Call, done, err, bad_state}
use axmm_crates.Memory.Backend.{MappingBackend}
use axmm_crates.Memory.Area.{
  MemoryArea, start, end, size, shrink_left, shrink_right, extend_left, extend_right, unmap_area,
  map_area, retain_frames_in_range, unwrap_or,
}
use axmm_crates.Memory.Area.Laws.{IsValid, IsPart, resized-IsPart, size_lem}

-- The backend refuses to unmap some range.
abbrev pub Refuses : MappingBackend → Type 0
Refuses B =
    (b : B.Self) × (first : ℕ) × (n : ℕ) × (pt : B.PageTable) × ((B.unmap b first n pt).0 ≡ false)

module _ {B : MappingBackend} where
  pub record Succeeds (call : Call (MemoryArea B) B.PageTable) (a : MemoryArea B) (lo hi : ℕ)
      : Type 0 where
    pub area : MemoryArea B
    pub table : B.PageTable
    pub returns : call ≡ ret (done, area, table)
    pub part : IsPart a lo hi area

  pub record Fails (call : Call (MemoryArea B) B.PageTable) (a : MemoryArea B) : Type 0 where
    pub table : B.PageTable
    pub returns : call ≡ ret (err bad_state, a, table)

  abbrev pub Tries : Call (MemoryArea B) B.PageTable → MemoryArea B → ℕ → ℕ → Type 0
  Tries call a lo hi = Succeeds call a lo hi ⊎ Fails call a

  -- `unmap_area` succeeds, or the backend refuses.
  pub unmap_area_tries :
      (a : MemoryArea B) (pt : B.PageTable)
      → Succeeds (unmap_area a pt) a (start a) (end a) ⊎ (Fails (unmap_area a pt) a × Refuses B)
  unfolding unmap_area
  unmap_area_tries a pt =
      let pt' = (B.unmap a.backend (start a) (size a) pt).1 in
      elim (Bool-cases (B.unmap a.backend (start a) (size a) pt).0) [
        | inl hit ↦ inl (record {
          area = record a { frames = [] };
          table = pt';
          returns = ground (arith, hit);
          part = resized-IsPart (start a) (end a) [] a;
        })
        | inr miss ↦ inr (
          record { table = pt'; returns = ground (arith, miss) },
          (a.backend, start a, size a, pt, miss),
        )
      ]

  pub shrink_right-Tries :
      (n mid : ℕ) (a : MemoryArea B) (pt : B.PageTable)
      → IsValid a
      → 0 < n
      → start a + n ≡ mid
      → mid < end a
      → Tries (shrink_right n a pt) a (start a) mid
  unfolding shrink_right retain_frames_in_range
  shrink_right-Tries n mid a pt v pos e less =
      let k = size a - n in
      elim (Bool-cases (B.unmap a.backend (wrapping_add (start a) n) k pt).0) [
        | inl hit ↦ inl (record {
          area =
              retain_frames_in_range
                (record a { va_range = record { start = start a; end = wrapping_sub (end a) k } });
          table = (B.unmap a.backend (wrapping_add (start a) n) k pt).1;
          returns = ground (arith, hit);
          part = record {
            part_start = refl;
            part_end = omega arith;
            same_flags = refl;
            same_backend = refl;
          };
        })
        | inr miss ↦ inr (record {
          table = (B.unmap a.backend (wrapping_add (start a) n) k pt).1;
          returns = ground (arith, miss);
        })
      ]

  pub shrink_left-Tries :
      (n lo : ℕ) (a : MemoryArea B) (pt : B.PageTable)
      → IsValid a
      → 0 < n
      → lo + n ≡ end a
      → start a < lo
      → Tries (shrink_left n a pt) a lo (end a)
  unfolding shrink_left retain_frames_in_range
  shrink_left-Tries n lo a pt v pos e less =
      let k = size a - n in
      elim (Bool-cases (B.unmap a.backend (start a) k pt).0) [
        | inl hit ↦ inl (record {
          area =
              retain_frames_in_range
                (record a { va_range = record { start = wrapping_add (start a) k; end = end a } });
          table = (B.unmap a.backend (start a) k pt).1;
          returns = ground (arith, hit);
          part = record {
            part_start = omega arith;
            part_end = refl;
            same_flags = refl;
            same_backend = refl;
          };
        })
        | inr miss ↦ inr (record {
          table = (B.unmap a.backend (start a) k pt).1;
          returns = ground (arith, miss);
        })
      ]

  pub extend_left-Tries :
      (n first : ℕ) (a : MemoryArea B) (pt : B.PageTable)
      → IsValid a
      → first + n ≡ end a
      → first < start a
      → Tries (extend_left n a pt) a first (end a)
  unfolding extend_left
  extend_left-Tries n first a pt v e more =
      let k = n - size a in
      let at = wrapping_sub (start a) k in
      elim (Option-cases (B.map a.backend at k a.flags pt).0) [
        | inl miss ↦ inr (record {
          table = (B.map a.backend at k a.flags pt).1;
          returns = ground (arith, miss, size_lem a v, v.nonempty);
        })
        | inr (refs, hit) ↦ inl (record {
          area = record a {
            va_range = record { start = at; end = end a };
            frames = BTreeMap.extend a.frames refs;
          };
          table = (B.map a.backend at k a.flags pt).1;
          returns = ground (arith, hit, size_lem a v, v.nonempty);
          part = record {
            part_start = omega (arith, size_lem a v, v.nonempty, v.fits);
            part_end = refl;
            same_flags = refl;
            same_backend = refl;
          };
        })
      ]

  pub map_area-Tries :
      (flags : Option B.Flags) (a : MemoryArea B) (pt : B.PageTable)
      → Tries (map_area flags a pt) a (start a) (end a)
  unfolding map_area
  map_area-Tries flags a pt =
      let flag = unwrap_or flags a.flags in
      elim (Option-cases (B.map a.backend (start a) (size a) flag pt).0) [
        | inl e ↦ inr (record {
          table = (B.map a.backend (start a) (size a) flag pt).1;
          returns = ground (arith, e);
        })
        | inr (refs, e) ↦ inl (record {
          area = record a { frames = BTreeMap.extend a.frames refs };
          table = (B.map a.backend (start a) (size a) flag pt).1;
          returns = ground (arith, e);
          part = resized-IsPart (start a) (end a) (BTreeMap.extend a.frames refs) a;
        })
      ]

  pub extend_right-Tries :
      (n last : ℕ) (a : MemoryArea B) (pt : B.PageTable)
      → IsValid a
      → start a + n ≡ last
      → end a < last
      → IsUsize last
      → Tries (extend_right n a pt) a (start a) last
  unfolding extend_right
  extend_right-Tries n last a pt v e more word =
      let k = n - size a in
      let at = wrapping_add (start a) (size a) in
      elim (Option-cases (B.map a.backend at k a.flags pt).0) [
        | inl miss ↦ inr (record {
          table = (B.map a.backend at k a.flags pt).1;
          returns = ground (arith, miss, size_lem a v, v.nonempty);
        })
        | inr (refs, hit) ↦ inl (record {
          area = record a {
            va_range = record { start = start a; end = wrapping_add (end a) k };
            frames = BTreeMap.extend a.frames refs;
          };
          table = (B.map a.backend at k a.flags pt).1;
          returns = ground (arith, hit, size_lem a v, v.nonempty);
          part = record {
            part_start = refl;
            part_end = omega (arith, size_lem a v, v.nonempty);
            same_flags = refl;
            same_backend = refl;
          };
        })
      ]
