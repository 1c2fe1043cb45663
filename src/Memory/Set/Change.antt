-- ===== src/Memory/Set/Change.antt =====
-- The calls of `MemorySet` that add and remove areas: `insert`, `delete`, `map`, `unmap` and `clear`.
use axmm_crates.Base.{
  ℕ, Bool, true, false, ◌&&◌, not, Option, none, some, [], ◌∷◌, Outcome, ret, panic, assert, unwrap,
  ◌>>=◌, ◌>>◌, ◌==◌, if◌then◌else◌,
}
use axmm_crates.Base.BTreeMap
use axmm_crates.Base.BTreeMap.{BTreeMap}
use axmm_crates.Addr.MemoryAddr
use axmm_crates.Addr.MemoryAddr.{usize_addr, lt_addr, le_addr, max_addr}
use axmm_crates.Addr.AddrRange
use axmm_crates.Addr.AddrRange.{AddrRange}
use axmm_crates.Memory.Errors.{
  invalid_param, already_exists, MappingResult, ok, err, done, Call, and_then,
}
use axmm_crates.Memory.Backend.{MappingBackend}
use axmm_crates.Memory.Area
use axmm_crates.Memory.Area.{MemoryArea, start, end}
use axmm_crates.Memory.Set.{MemorySet}
use axmm_crates.Memory.Set.Query.{overlaps}

module _ {B : MappingBackend} where
  -- `assert!(self.areas.insert(area.start(), area).is_none())`
  unfoldable pub insert_new : MemoryArea B → MemorySet B → Outcome (MemorySet B)
  unfolding BTreeMap.get BTreeMap.insert
  insert_new area self = elim (BTreeMap.get (start area) self) [
    | none ↦ ret (BTreeMap.insert (start area) area self)
    | some old ↦ panic
  ]

  -- The source makes the first test twice.
  unfoldable pub insert :
      MemoryArea B → Bool → MemorySet B → Outcome (MappingResult (Unit {0}) × MemorySet B)
  unfolding AddrRange.is_empty overlaps insert_new
  insert area unmap_overlap self =
      if AddrRange.is_empty area.va_range
      then ret (err invalid_param, self)
      else if overlaps area.va_range self && not unmap_overlap
      then ret (err already_exists, self)
      else do areas ← insert_new area self; ret (done, areas)

  unfoldable pub delete : ℕ → MemorySet B → MemorySet B
  unfolding BTreeMap.remove
  delete vaddr self = BTreeMap.remove vaddr self

  -- The closure of `retain` in `unmap`: an area in the range is unmapped, and its failure panics.
  unfoldable pub retain_outside :
      AddrRange ℕ → MemorySet B → B.PageTable → Outcome (MemorySet B × B.PageTable)
  unfolding AddrRange.contained_in Area.unmap_area
  retain_outside range [] page_table = ret ([], page_table)
  retain_outside range ((k, area) ∷ rest) page_table =
      elim (AddrRange.contained_in area.va_range range) [
        | true ↦ do
          (unmapped, _, table) ← Area.unmap_area area page_table
          elim unmapped [ ok _ ↦ retain_outside range rest table | err _ ↦ panic ]
        | false ↦ do
          (kept, table) ← retain_outside range rest page_table
          ret ((k, area) ∷ kept, table)
      ]

  -- A call on the area `before` that lies under the key `k`, which is written back in every case.
  abbrev pub write_back :
      ℕ → MemorySet B → Call (MemoryArea B) B.PageTable → Call (MemorySet B) B.PageTable
  write_back k self call = do
    (result, area, table) ← call
    ret (result, BTreeMap.insert k area self, table)

  -- The area below `start` that reaches into the range.
  unfoldable pub shrink_before : ℕ → ℕ → MemorySet B → B.PageTable → Call (MemorySet B) B.PageTable
  unfolding BTreeMap.last BTreeMap.range_to Area.split Area.shrink_right MemoryAddr.sub_addr
      BTreeMap.insert
  shrink_before first last self page_table = elim (BTreeMap.last (BTreeMap.range_to first self)) [
    | none ↦ ret (done, self, page_table)
    | some (before_start, before) ↦
        if lt_addr first (end before)
        then if le_addr (end before) last
          then (do
            new_size ← MemoryAddr.sub_addr first before_start
            write_back before_start self (Area.shrink_right new_size before page_table))
          else (do
            (part, left) ← Area.split last before
            right_part ← unwrap part
            new_size ← MemoryAddr.sub_addr first before_start
            and_then (write_back before_start self (Area.shrink_right new_size left page_table))
                λ areas table. do
                  assert (start right_part == last)
                  ret (done, BTreeMap.insert last right_part areas, table))
        else ret (done, self, page_table)
  ]

  -- The area from `start` on that reaches out of the range: it is taken out, and put back under its
  -- new start if the call on it succeeds.
  unfoldable pub shrink_after : ℕ → ℕ → MemorySet B → B.PageTable → Call (MemorySet B) B.PageTable
  unfolding BTreeMap.range_from BTreeMap.remove Area.shrink_left MemoryAddr.sub_addr BTreeMap.insert
  shrink_after first last self page_table = elim (BTreeMap.first (BTreeMap.range_from first self)) [
    | none ↦ ret (done, self, page_table)
    | some (after_start, after) ↦
        if lt_addr after_start last
        then (do
          let areas = BTreeMap.remove after_start self
          new_size ← MemoryAddr.sub_addr (end after) last
          (result, new_area, table) ← Area.shrink_left new_size after page_table
          elim result [
            | err e ↦ ret (err e, areas, table)
            | ok _ ↦ do
              assert (start new_area == last)
              ret (done, BTreeMap.insert last new_area areas, table)
          ])
        else ret (done, self, page_table)
  ]

  unfoldable pub unmap : ℕ → ℕ → MemorySet B → B.PageTable → Call (MemorySet B) B.PageTable
  unfolding AddrRange.try_from_start_size AddrRange.is_empty retain_outside shrink_before
      shrink_after
  unmap first size self page_table = elim (AddrRange.try_from_start_size first size) [
    | none ↦ ret (err invalid_param, self, page_table)
    | some range ↦ if AddrRange.is_empty range then ret (done, self, page_table) else (do
      (areas, table) ← retain_outside range self page_table
      and_then (shrink_before first range.end areas table) (shrink_after first range.end))
  ]

  -- The end of `map`: the area is mapped and inserted.
  unfoldable pub map_new :
      MemoryArea B → Option B.Flags → MemorySet B → B.PageTable → Call (MemorySet B) B.PageTable
  unfolding Area.map_area insert_new
  map_new area overwrite_flags self page_table = do
    (result, mapped, table) ← Area.map_area overwrite_flags area page_table
    elim result [
      | err e ↦ ret (err e, self, table)
      | ok _ ↦ do areas ← insert_new mapped self; ret (done, areas, table)
    ]

  unfoldable pub map :
      MemoryArea B
      → Bool
      → Option B.Flags
      → MemorySet B
      → B.PageTable
      → Call (MemorySet B) B.PageTable
  unfolding AddrRange.is_empty overlaps unmap map_new Area.size
  map area unmap_overlap overwrite_flags self page_table =
      if AddrRange.is_empty area.va_range
      then ret (err invalid_param, self, page_table)
      else if overlaps area.va_range self
      then if unmap_overlap
        then and_then (unmap (start area) (Area.size area) self page_table)
            (map_new area overwrite_flags)
        else ret (err already_exists, self, page_table)
      else map_new area overwrite_flags self page_table

  unfoldable pub clear_areas : MemorySet B → B.PageTable → Call (MemorySet B) B.PageTable
  unfolding Area.unmap_area
  clear_areas [] page_table = ret (done, [], page_table)
  clear_areas ((k, area) ∷ rest) page_table = do
    (result, area', table) ← Area.unmap_area area page_table
    elim result [
      | err e ↦ ret (err e, (k, area') ∷ rest, table)
      | ok _ ↦ do
        (result', rest', table') ← clear_areas rest table
        ret (result', (k, area') ∷ rest', table')
    ]

  unfoldable pub clear : MemorySet B → B.PageTable → Call (MemorySet B) B.PageTable
  unfolding clear_areas
  clear self page_table =
      and_then (clear_areas self page_table) λ areas table. ret (done, [], table)
