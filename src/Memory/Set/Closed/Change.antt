-- ===== src/Memory/Set/Closed/Change.antt =====
-- The calls of Set/Change.
use axmm_crates.Base.{ℕ, subst, Bool, ◌&&◌, not, Option, [], ◌∷◌, ◌==◌}
use axmm_crates.Base.Ensures.{
  Ensures, holds, panics, bind, Ensures-any, Ensures-bool, Ensures-if, Ensures-option,
  Ensures-unwrap, Ensures-assert,
}
use axmm_crates.Base.BTreeMap
use axmm_crates.Base.BTreeMap.Entries.{
  Of, insert-All, remove-All, range_to-All, range_from-All, first-All, last-All,
}
use axmm_crates.Addr.MemoryAddr
use axmm_crates.Addr.MemoryAddr.{usize_addr, lt_addr, le_addr}
use axmm_crates.Addr.AddrRange
use axmm_crates.Addr.AddrRange.{AddrRange}
use axmm_crates.Memory.Backend.{MappingBackend}
use axmm_crates.Memory.Area
use axmm_crates.Memory.Area.{MemoryArea, start, end}
use axmm_crates.Memory.Area.Closed.{After, Both-left, Both-right, IsClosed}
use axmm_crates.Memory.Set.{MemorySet}
use axmm_crates.Memory.Set.Query.{overlaps}
use axmm_crates.Memory.Set.Change.{
  insert_new, insert, delete, retain_outside, shrink_before, shrink_after, unmap, map_new, map,
}
use axmm_crates.Memory.Set.Closed.{
  Each, AllAre, Keeps, Ensures-result, and_then-Keeps, write_back-Keeps,
}

module _ {B : MappingBackend} (P : MemoryArea B → Type 0) where
  insert_new-AllAre :
      (a : MemoryArea B) (s : MemorySet B) → P a → AllAre P s → Ensures (AllAre P) (insert_new a s)
  unfolding insert_new
  insert_new-AllAre a s p h =
      Ensures-option (BTreeMap.get (start a) s)
        (λ none_there. holds (insert-All (Each P) (start a) a s p h)) (λ old e. panics)

  -- The set of a call without a page table.
  pub insert-AllAre :
      (a : MemoryArea B) (b : Bool) (s : MemorySet B)
      → P a
      → AllAre P s
      → Ensures (λ x. AllAre P x.1) (insert a b s)
  unfolding insert
  insert-AllAre a b s p h =
      Ensures-if (AddrRange.is_empty a.va_range) (λ e. holds h)
        λ e.
          Ensures-if (overlaps a.va_range s && not b) (λ e. holds h)
            λ e. bind (insert_new-AllAre a s p h) λ s' h'. holds h'

  pub delete-AllAre : (k : ℕ) (s : MemorySet B) → AllAre P s → AllAre P (delete k s)
  unfolding delete
  delete-AllAre k s h = remove-All (Each P) k s h

module _ {B : MappingBackend} (P : MemoryArea B → Type 0) (closed : IsClosed P) where
  retain_outside-AllAre :
      (range : AddrRange ℕ) (s : MemorySet B) (pt : B.PageTable)
      → AllAre P s
      → Ensures (λ x. AllAre P x.0) (retain_outside range s pt)
  unfolding retain_outside
  retain_outside-AllAre range [] pt h = holds tt
  retain_outside-AllAre range ((k, a) ∷ s) pt h =
      Ensures-bool (AddrRange.contained_in a.va_range range)
        (λ within. Ensures-any (Area.unmap_area a pt) λ (unmapped, a', pt').
          Ensures-result unmapped (retain_outside-AllAre range s pt' h.1) (λ e. panics))
        (λ out. bind (retain_outside-AllAre range s pt h.1) λ (kept, pt') sound. holds (h.0, sound))

  shrink_before-Keeps :
      (first last : ℕ) (s : MemorySet B) (pt : B.PageTable)
      → AllAre P s
      → Keeps P (shrink_before first last s pt)
  unfolding shrink_before
  shrink_before-Keeps first last s pt h =
      Ensures-option (BTreeMap.last (BTreeMap.range_to first s)) (λ e. holds h)
        λ (k, before) e.
          let sound : P before =
            subst (Of (Each P)) e
              (last-All (Each P) (BTreeMap.range_to first s) (range_to-All (Each P) first s h)) in
          Ensures-if (lt_addr first (end before))
            (λ into.
              Ensures-if (le_addr (end before) last)
                (λ inside.
                  Ensures-any (MemoryAddr.sub_addr first k)
                    λ n. write_back-Keeps P k s h (closed.shrink_right_keeps n before pt sound))
                (λ past. bind (closed.split_keeps last before sound) λ (part, left) both.
                  Ensures-unwrap part λ right e. Ensures-any (MemoryAddr.sub_addr first k) λ n.
                    and_then-Keeps P
                      (write_back-Keeps P k s h
                        (closed.shrink_right_keeps n left pt (Both-left P part left both)))
                      λ s' pt' h'. Ensures-assert (start right == last) λ at. holds (
                        insert-All (Each P) last right s' (Both-right P part left right both e)
                          h')))
            (λ outside. holds h)

  shrink_after-Keeps :
      (first last : ℕ) (s : MemorySet B) (pt : B.PageTable)
      → AllAre P s
      → Keeps P (shrink_after first last s pt)
  unfolding shrink_after
  shrink_after-Keeps first last s pt h =
      Ensures-option (BTreeMap.first (BTreeMap.range_from first s)) (λ e. holds h)
        λ (k, after) e.
          let sound : P after = subst (Of (Each P)) e (
            first-All (Each P) (BTreeMap.range_from first s) (range_from-All (Each P) first s h)) in
          let rest = remove-All (Each P) k s h in
          Ensures-if (lt_addr k last)
            (λ into. Ensures-any (MemoryAddr.sub_addr (end after) last) λ n.
              bind (closed.shrink_left_keeps n after pt sound) λ (result, area, pt') kept.
                Ensures-result result
                  (Ensures-assert (start area == last)
                    λ at. holds (insert-All (Each P) last area (BTreeMap.remove k s) kept rest))
                  (λ e. holds rest))
            (λ outside. holds h)

  pub unmap-Keeps :
      (first size : ℕ) (s : MemorySet B) (pt : B.PageTable)
      → AllAre P s
      → Keeps P (unmap first size s pt)
  unfolding unmap
  unmap-Keeps first size s pt h =
      Ensures-option (AddrRange.try_from_start_size first size) (λ e. holds h)
        λ range e.
          Ensures-if (AddrRange.is_empty range) (λ empty. holds h)
            λ full. bind (retain_outside-AllAre range s pt h) λ (areas, pt') kept.
              and_then-Keeps P (shrink_before-Keeps first range.end areas pt' kept)
                (shrink_after-Keeps first range.end)

  map_new-Keeps :
      (a : MemoryArea B) (flags : Option B.Flags) (s : MemorySet B) (pt : B.PageTable)
      → ((pt : B.PageTable) → After P (Area.map_area flags a pt))
      → AllAre P s
      → Keeps P (map_new a flags s pt)
  unfolding map_new
  map_new-Keeps a flags s pt m h = bind (m pt) λ (result, mapped, pt') sound.
      Ensures-result result (bind (insert_new-AllAre P mapped s sound h) λ areas kept. holds kept)
        (λ e. holds h)

  pub map-Keeps :
      (a : MemoryArea B) (b : Bool) (flags : Option B.Flags) (s : MemorySet B) (pt : B.PageTable)
      → ((pt : B.PageTable) → After P (Area.map_area flags a pt))
      → AllAre P s
      → Keeps P (map a b flags s pt)
  unfolding map
  map-Keeps a b flags s pt m h =
      Ensures-if (AddrRange.is_empty a.va_range) (λ empty. holds h)
        λ full.
          Ensures-if (overlaps a.va_range s)
            (λ meets.
              Ensures-if b
                (λ force.
                  and_then-Keeps P (unmap-Keeps (start a) (Area.size a) s pt h)
                    λ s' pt' kept. map_new-Keeps a flags s' pt' m kept)
                (λ gentle. holds h))
            (λ free. map_new-Keeps a flags s pt m h)
