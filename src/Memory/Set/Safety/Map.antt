-- ===== src/Memory/Set/Safety/Map.antt =====
-- `map` where the backend may fail.
use axmm_crates.Base.{
  ℕ, ◌-◌, ◌≤◌, ◌<◌, ◌≡◌, refl, ◌∙◌, ◌⊎◌, inl, inr, Bool, true, false, Option, none, some, arith,
  Bool-cases, lt-cases, if◌then◌else◌, Outcome, ret, panic,
}
use axmm_crates.Base.Word.{IsUsize}
use axmm_crates.Addr.MemoryAddr.{usize_addr}
use axmm_crates.Addr.AddrRange
use axmm_crates.Memory.Errors.{MappingResult, done, err, invalid_param, already_exists, bad_state}
use axmm_crates.Memory.Backend.{MappingBackend}
use axmm_crates.Memory.Backend.Laws.{between}
use axmm_crates.Memory.Area.{MemoryArea, start, end, size}
use axmm_crates.Memory.Area.Laws.{size_lem}
use axmm_crates.Memory.Area.Tries.{Refuses, map_area-Tries}
use axmm_crates.Memory.Set.{MemorySet}
use axmm_crates.Memory.Set.Change.{map, map_new, unmap}
use axmm_crates.Memory.Set.Query.{overlaps}
use axmm_crates.Memory.Set.Query.Overlaps.{overlaps_free, overlaps-view}
use axmm_crates.Memory.Set.Chain.{IsValid}
use axmm_crates.Memory.Set.View.{view}
use axmm_crates.Memory.Set.Room.{Spares, insert_new_lem}
use axmm_crates.Memory.Set.Insert.{Meets}
use axmm_crates.Memory.Set.Map.{map_empty}
use axmm_crates.Memory.Set.Safety.Retain.{IsSub}
use axmm_crates.Memory.Set.Safety.Unmap.{Erases, Breaks, unmap_any}

module _ {B : MappingBackend} (a : MemoryArea B) (s : MemorySet B)
    (call : Outcome (MappingResult (Unit {0}) × MemorySet B × B.PageTable)) where
  -- The call succeeds, and the set is valid with the addresses of the area added.
  pub record Adds : Type 0 where
    pub areas : MemorySet B
    pub table : B.PageTable
    pub returns : call ≡ ret (done, areas, table)
    pub valid : IsValid areas
    pub adds :
        (x : ℕ) → view areas x ≡ (if between (start a) (end a) x then some a.flags else view s x)

  -- It fails, and the set is valid and has gained nothing.
  pub record Loses : Type 0 where
    pub areas : MemorySet B
    pub table : B.PageTable
    pub returns : call ≡ ret (err bad_state, areas, table)
    pub valid : IsValid areas
    pub sub : IsSub areas s

module _ {B : MappingBackend} (a : MemoryArea B) (nonempty : start a < end a)
    (fits : IsUsize (end a)) (flags : Option B.Flags) where
  map_new_any :
      (s : MemorySet B) (pt : B.PageTable)
      → IsValid s
      → Spares s a
      → Adds a s (map_new a flags s pt) ⊎ Loses a s (map_new a flags s pt)
  unfolding map_new
  map_new_any s pt valid spares = elim (map_area-Tries flags a pt) [
    | inl t ↦
        let i =
          insert_new_lem t.area (omega (arith, t.part.part_start, t.part.part_end)) s
            (omega (arith, t.part.part_end)) valid
            (λ x p q.
              spares x (omega (arith, t.part.part_start)) (omega (arith, t.part.part_end))) in
        inl (record {
          areas = i.areas;
          table = t.table;
          returns = ground (arith, t.returns, i.returns);
          valid = i.valid;
          adds = λ x. ground (arith, t.part, i.adds x);
        })
    | inr t ↦ inr (record {
      areas = s;
      table = t.table;
      returns = ground (arith, t.returns);
      valid = valid;
      sub = λ x. inr refl;
    })
  ]

  module _ (s : MemorySet B) (pt : B.PageTable) where
    refused :
        overlaps a.va_range s ≡ true → map a false flags s pt ≡ ret (err already_exists, s, pt)
    unfolding map AddrRange.is_empty
    refused h = ground arith

    there : (b : Bool) → overlaps a.va_range s ≡ false → map a b flags s pt ≡ map_new a flags s pt
    unfolding map AddrRange.is_empty
    there b h = ground arith

    over :
        (u : Erases (start a) (size a) s pt)
        → overlaps a.va_range s ≡ true
        → map a true flags s pt ≡ map_new a flags u.areas u.table
    unfolding map AddrRange.is_empty
    over u h = ground (arith, u.returns)

    over_failed :
        (u : Breaks (start a) (size a) s pt)
        → overlaps a.va_range s ≡ true
        → map a true flags s pt ≡ ret (err bad_state, u.areas, u.table)
    unfolding map AddrRange.is_empty
    over_failed u h = ground (arith, u.returns)

    over_refused :
        unmap (start a) (size a) s pt ≡ panic
        → overlaps a.va_range s ≡ true
        → map a true flags s pt ≡ panic
    unfolding map AddrRange.is_empty
    over_refused e h = ground (arith, e)

    -- The range is unmapped first.
    over_any :
        IsValid s
        → overlaps a.va_range s ≡ true
        → Adds a s (map a true flags s pt)
          ⊎ Loses a s (map a true flags s pt)
          ⊎ ((map a true flags s pt ≡ panic) × Refuses B)
    over_any valid h =
        let n : size a ≡ end a - start a =
          size_lem a (record { nonempty = nonempty; fits = fits }) in
        elim (unmap_any (start a) (size a) s pt valid) [
          | inl u ↦
              elim (map_new_any u.areas u.table u.valid (λ x p q. ground (arith, u.erases x))) [
                | inl m ↦ inl (record {
                  areas = m.areas;
                  table = m.table;
                  returns = over u h ∙ m.returns;
                  valid = m.valid;
                  adds = λ x. ground (arith, m.adds x, u.erases x);
                })
                | inr m ↦ inr (
                    inl (record {
                      areas = m.areas;
                      table = m.table;
                      returns = over u h ∙ m.returns;
                      valid = m.valid;
                      sub = λ x. ground (arith, m.sub x, u.erases x);
                    }))
              ]
          | inr (inl u) ↦ inr (
              inl (record {
                areas = u.areas;
                table = u.table;
                returns = over_failed u h;
                valid = u.valid;
                sub = u.sub;
              }))
          | inr (inr (inl (past, e))) ↦ absurd (omega arith)
          | inr (inr (inr (e, why))) ↦ inr (inr (over_refused e h, why))
        ]
    -- What `map` may come to.

abbrev pub MapsAny :
    {B : MappingBackend}
    → MemoryArea B
    → Bool
    → MemorySet B
    → B.PageTable
    → Outcome (MappingResult (Unit {0}) × MemorySet B × B.PageTable)
    → Type 0
MapsAny {B} a b s pt call =
    ((end a ≤ start a) × (call ≡ ret (err invalid_param, s, pt)))
    ⊎ (Meets s a × (b ≡ false) × (call ≡ ret (err already_exists, s, pt)))
    ⊎ Adds a s call
    ⊎ Loses a s call
    ⊎ ((b ≡ true) × (call ≡ panic) × Refuses B)

module _ {B : MappingBackend} where
  -- Over any backend, `map` of an area that ends in a word, on a valid set, has one of five ends. The
  -- area is empty, or the set has one of its addresses and `unmap_overlap` is false: an error, and
  -- nothing changes. The call succeeds, and the set is valid with the addresses of the area added,
  -- under its flags. It reports `BadState`, and the set is valid and a part of the old one. Or it
  -- panics: then `unmap_overlap` is true, and the backend refuses to unmap some range.
  pub map_any :
      (a : MemoryArea B) (b : Bool) (flags : Option B.Flags) (s : MemorySet B) (pt : B.PageTable)
      → IsUsize (end a)
      → IsValid s
      → MapsAny a b s pt (map a b flags s pt)
  map_any a b flags s pt fits valid = elim (lt-cases (start a) (end a)) [
    | inr void ↦ inl (void, map_empty (λ t x. none) a b flags s pt void)
    | inl nonempty ↦ elim (Bool-cases (overlaps a.va_range s)) [
      | inr miss ↦
          let spares : Spares s a =
            λ x p q. overlaps_free a.va_range s x (omega arith) valid miss p q in
          rw (there a nonempty fits flags s pt b miss)
            (elim (map_new_any a nonempty fits flags s pt valid spares) [
              | inl m ↦ inr (inr (inl m))
              | inr m ↦ inr (inr (inr (inl m)))
            ])
      | inl hit ↦ elim (Bool-cases b) [
        | inr keep ↦ inr (
            inl (
              (overlaps-view a.va_range s nonempty fits valid).0 hit,
              keep,
              rw keep (refused a nonempty fits flags s pt hit),
            ))
        | inl on ↦ rw on (elim (over_any a nonempty fits flags s pt valid hit) [
          | inl m ↦ inr (inr (inl m))
          | inr (inl m) ↦ inr (inr (inr (inl m)))
          | inr (inr (e, why)) ↦ inr (inr (inr (inr (refl, e, why))))
        ])
      ]
    ]
  ]
