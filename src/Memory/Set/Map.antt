-- ===== src/Memory/Set/Map.antt =====
-- `map` as a whole, against its description: the addresses of the area are added to the set and
-- mapped in the page table, after whatever had them is gone.
use axmm_crates.Base.{
  ℕ, ◌-◌, ◌≤◌, ◌<◌, ◌≡◌, ◌∙◌, ◌⊎◌, inl, inr, Bool, true, false, Option, some, arith, Bool-cases,
  lt-cases, if◌then◌else◌, Outcome, ret,
}
use axmm_crates.Base.Word.{IsUsize}
use axmm_crates.Addr.MemoryAddr.{usize_addr}
use axmm_crates.Addr.AddrRange
use axmm_crates.Memory.Errors.{MappingResult, done, err, invalid_param, already_exists}
use axmm_crates.Memory.Backend.{MappingBackend}
use axmm_crates.Memory.Backend.Laws.{between, IsLawful}
use axmm_crates.Memory.Area.{MemoryArea, start, end, size, unwrap_or}
use axmm_crates.Memory.Area.Laws.{map_area_lem, size_lem}
use axmm_crates.Memory.Set.{MemorySet}
use axmm_crates.Memory.Set.Change.{map, map_new}
use axmm_crates.Memory.Set.Query.{overlaps}
use axmm_crates.Memory.Set.Query.Overlaps.{overlaps_free, overlaps-view}
use axmm_crates.Memory.Set.Chain.{IsValid}
use axmm_crates.Memory.Set.View.{view}
use axmm_crates.Memory.Set.Room.{Spares, insert_new_lem}
use axmm_crates.Memory.Set.Insert.{Meets}
use axmm_crates.Memory.Set.Unmap.Cut.{Agrees}
use axmm_crates.Memory.Set.Unmap.Refines.{Unmapped, unmap_refines}

-- An area whose addresses are all free overlaps with none.
pub spared_overlaps :
    {B : MappingBackend}
    → (a : MemoryArea B) (s : MemorySet B) → start a < end a
    → IsUsize (end a)
    → IsValid s
    → Spares s a
    → overlaps a.va_range s ≡ false
spared_overlaps a s nonempty fits valid spares = elim (Bool-cases (overlaps a.va_range s)) [
  | inr miss ↦ miss
  | inl hit ↦
      let (x, lo, hi, taken) = (overlaps-view a.va_range s nonempty fits valid).0 hit in
      absurd (taken (spares x lo hi))
]

module _ {B : MappingBackend} (entry : B.PageTable → ℕ → Option B.Flags) where
  -- A call of `map` or `map_new` that succeeds on a set with the view `old`.
  pub record MapsTo (a : MemoryArea B) (flags : Option B.Flags) (old : ℕ → Option B.Flags)
      (call : Outcome (MappingResult (Unit {0}) × MemorySet B × B.PageTable)) : Type 0 where
    pub areas : MemorySet B
    pub table : B.PageTable
    pub returns : call ≡ ret (done, areas, table)
    pub valid : IsValid areas
    pub adds :
        (x : ℕ) → view areas x ≡ (if between (start a) (end a) x then some a.flags else old x)
    pub maps :
        (x : ℕ)
        → entry table x
          ≡ (if between (start a) (end a) x then some (unwrap_or flags a.flags) else old x)

  module _ (L : IsLawful B entry) (a : MemoryArea B) (nonempty : start a < end a)
      (fits : IsUsize (end a)) (flags : Option B.Flags) where
    map_new_lem :
        (s : MemorySet B) (pt : B.PageTable)
        → IsValid s
        → Agrees entry pt s
        → Spares s a
        → MapsTo a flags (view s) (map_new a flags s pt)
    unfolding map_new
    map_new_lem s pt valid agrees spares =
        let (a', pt', mapped, part, sets) =
          map_area_lem entry L flags a pt (record { nonempty = nonempty; fits = fits })
            (λ x p q. agrees x ∙ spares x p q) in
        let i =
          insert_new_lem a' (omega (arith, part.part_start, part.part_end)) s
            (omega (arith, part.part_end)) valid
            (λ x p q. spares x (omega (arith, part.part_start)) (omega (arith, part.part_end))) in
        record {
          areas = i.areas;
          table = pt';
          returns = ground (arith, mapped, i.returns);
          valid = i.valid;
          adds = λ x. ground (arith, part, i.adds x);
          maps = λ x. ground (arith, agrees x, sets x);
        }

    module _ (s : MemorySet B) (pt : B.PageTable) where
      pub map_refused :
          overlaps a.va_range s ≡ true → map a false flags s pt ≡ ret (err already_exists, s, pt)
      unfolding map AddrRange.is_empty
      map_refused h = ground arith

      map_there :
          (b : Bool) → overlaps a.va_range s ≡ false → map a b flags s pt ≡ map_new a flags s pt
      unfolding map AddrRange.is_empty
      map_there b h = ground arith

      map_over :
          (u : Unmapped entry (start a) (size a) s pt)
          → overlaps a.va_range s ≡ true
          → map a true flags s pt ≡ map_new a flags u.areas u.table
      unfolding map AddrRange.is_empty
      map_over u h = ground (arith, u.returns)

      -- The range is unmapped first.
      pub mapped_over :
          IsValid s
          → Agrees entry pt s
          → overlaps a.va_range s ≡ true
          → MapsTo a flags (view s) (map a true flags s pt)
      mapped_over valid agrees h =
          let n : size a ≡ end a - start a =
            size_lem a (record { nonempty = nonempty; fits = fits }) in
          let u = unmap_refines entry (start a) (size a) s pt L (omega arith) valid agrees in
          let m =
            map_new_lem u.areas u.table u.valid u.agrees (λ x p q. ground (arith, u.erases x)) in
          record {
            areas = m.areas;
            table = m.table;
            returns = map_over u h ∙ m.returns;
            valid = m.valid;
            adds = λ x. ground (arith, m.adds x, u.erases x);
            maps = λ x. ground (arith, m.maps x, u.erases x);
          }

      pub mapped_there :
          (b : Bool)
          → IsValid s
          → Agrees entry pt s
          → overlaps a.va_range s ≡ false
          → MapsTo a flags (view s) (map a b flags s pt)
      mapped_there b valid agrees h =
          let m =
            map_new_lem s pt valid agrees
              λ x p q. overlaps_free a.va_range s x (omega arith) valid h p q in
          record {
            areas = m.areas;
            table = m.table;
            returns = map_there b h ∙ m.returns;
            valid = m.valid;
            adds = m.adds;
            maps = m.maps;
          }

  pub map_empty :
      (a : MemoryArea B) (b : Bool) (flags : Option B.Flags) (s : MemorySet B) (pt : B.PageTable)
      → end a ≤ start a
      → map a b flags s pt ≡ ret (err invalid_param, s, pt)
  unfolding map AddrRange.is_empty
  map_empty a b flags s pt h = ground arith

  -- Over a lawful backend, from a valid set that agrees with the page table, `map` of an area that
  -- ends in a word never panics, and has exactly one of three ends. An empty area is an error, and so
  -- is, without `unmap_overlap`, one of whose addresses the set has some: nothing changes. Any other
  -- area, one that is not empty, and of whose addresses the set has none unless `unmap_overlap` is set,
  -- is mapped: the set is valid, and has the addresses of the area, with its flags, beside those that
  -- it had elsewhere. The page table maps the addresses of the area with `overwrite_flags`, or with
  -- the flags of the area without them.
  pub map_outcomes :
      (a : MemoryArea B) (b : Bool) (flags : Option B.Flags) (s : MemorySet B) (pt : B.PageTable)
      → IsLawful B entry
      → IsUsize (end a)
      → IsValid s
      → Agrees entry pt s
      → ((end a ≤ start a) × (map a b flags s pt ≡ ret (err invalid_param, s, pt)))
        ⊎ (Meets s a × (b ≡ false) × (map a b flags s pt ≡ ret (err already_exists, s, pt)))
        ⊎ ((start a < end a)
            × ((b ≡ true) ⊎ ¬ Meets s a)
            × MapsTo a flags (view s) (map a b flags s pt))
  map_outcomes a b flags s pt L fits valid agrees = elim (lt-cases (start a) (end a)) [
    | inr void ↦ inl (void, map_empty a b flags s pt void)
    | inl nonempty ↦ elim (Bool-cases (overlaps a.va_range s)) [
      | inr miss ↦
          let apart : ¬ Meets s a = λ meets.
            absurd
              (ground (arith, miss, (overlaps-view a.va_range s nonempty fits valid).1 meets)) in
          inr (
            inr
              (nonempty, inr apart, mapped_there L a nonempty fits flags s pt b valid agrees miss))
      | inl hit ↦ elim (Bool-cases b) [
        | inl over ↦ inr (
            inr (
              nonempty,
              inl over,
              rw over (mapped_over L a nonempty fits flags s pt valid agrees hit),
            ))
        | inr keep ↦ inr (
            inl (
              (overlaps-view a.va_range s nonempty fits valid).0 hit,
              keep,
              rw keep (map_refused L a nonempty fits flags s pt hit),
            ))
      ]
    ]
  ]
