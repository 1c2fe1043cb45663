-- ===== src/Memory/Set/Protect.antt =====
-- The calls of `MemorySet` that change areas in place: `protect` and `adjust_area`.
pub mod Pieces
pub mod Round
pub mod Loop
pub mod Refines
pub mod Empty
use axmm_crates.Base.{
  ℕ, true, false, ◌&&◌, Option, none, some, [], ◌∷◌, ◌++◌, Outcome, ret, assert, unwrap, ◌>>=◌,
  ◌>>◌, Build, ◌==◌, if◌then◌else◌,
}
use axmm_crates.Base.BTreeMap
use axmm_crates.Base.BTreeMap.{BTreeMap}
use axmm_crates.Addr.MemoryAddr
use axmm_crates.Addr.MemoryAddr.{usize_addr, lt_addr, le_addr, max_addr}
use axmm_crates.Memory.Errors.{invalid_param, MappingResult, ok, err, done, Call, and_then}
use axmm_crates.Memory.Backend.{MappingBackend}
use axmm_crates.Memory.Area
use axmm_crates.Memory.Area.{MemoryArea, start, end}
use axmm_crates.Memory.Set.{MemorySet}
use axmm_crates.Memory.Set.Change.{write_back}

module _ {B : MappingBackend} where
  -- The flags that `update_flags` gives an area are `new_flags`, and it starts below `last`. The
  -- result, the area, what is to be inserted, and the page table.
  unfoldable pub protect_one :
      ℕ
      → ℕ
      → B.Flags
      → ℕ
      → MemoryArea B
      → B.PageTable
      → Outcome (MappingResult (Unit {0}) × MemoryArea B × MemorySet B × B.PageTable)
  unfolding Area.protect_area Area.set_flags Area.split
  protect_one first last new_flags area_start area page_table =
      if le_addr (end area) first
      then ret (done, area, [], page_table)
      else if le_addr first area_start && le_addr (end area) last
      then (do
        (result, area', table) ← Area.protect_area new_flags area page_table
        elim result [
          | err e ↦ ret (err e, area', [], table)
          | ok _ ↦ ret (done, Area.set_flags new_flags area', [], table)
        ])
      else if lt_addr area_start first && lt_addr last (end area)
      then (do
        (part, left_middle) ← Area.split last area
        right_part ← unwrap part
        (part', left) ← Area.split first left_middle
        middle ← unwrap part'
        (result, middle', table) ← Area.protect_area new_flags middle page_table
        elim result [
          | err e ↦ ret (err e, left, [], table)
          | ok _ ↦
              let middle_part = Area.set_flags new_flags middle' in
              ret (
                done,
                left,
                (start right_part, right_part) ∷ (start middle_part, middle_part) ∷ [],
                table,
              )
        ])
      else if lt_addr last (end area)
      then (do
        (part, left) ← Area.split last area
        right_part ← unwrap part
        (result, left', table) ← Area.protect_area new_flags left page_table
        elim result [
          | err e ↦ ret (err e, left', [], table)
          | ok _ ↦
              ret (done, Area.set_flags new_flags left', (start right_part, right_part) ∷ [], table)
        ])
      else (do
        (part, left) ← Area.split first area
        right ← unwrap part
        (result, right', table) ← Area.protect_area new_flags right page_table
        elim result [
          | err e ↦ ret (err e, left, [], table)
          | ok _ ↦
              let right_part = Area.set_flags new_flags right' in
              ret (done, left, (start right_part, right_part) ∷ [], table)
        ])

  -- The loop over the areas: those that it leaves in the map, and `to_insert`.
  unfoldable pub protect_areas :
      ℕ
      → ℕ
      → (B.Flags → Option B.Flags)
      → MemorySet B
      → B.PageTable
      → Outcome (MappingResult (Unit {0}) × MemorySet B × MemorySet B × B.PageTable)
  unfolding protect_one
  protect_areas first last update_flags [] page_table = ret (done, [], [], page_table)
  protect_areas first last update_flags ((k, area) ∷ rest) page_table =
      elim (update_flags area.flags) [
        | none ↦ do
          (result, rest', to_insert, table) ← protect_areas first last update_flags rest page_table
          ret (result, (k, area) ∷ rest', to_insert, table)
        | some new_flags ↦ elim (le_addr last k) [
          | true ↦ ret (done, (k, area) ∷ rest, [], page_table)
          | false ↦ do
            (result, area', parts, table) ← protect_one first last new_flags k area page_table
            elim result [
              | err e ↦ ret (err e, (k, area') ∷ rest, [], table)
              | ok _ ↦ do
                (result', rest', parts', table') ← protect_areas first last update_flags rest table
                ret (result', (k, area') ∷ rest', parts ++ parts', table')
            ]
        ]
      ]

  unfoldable pub protect :
      ℕ
      → ℕ
      → (B.Flags → Option B.Flags)
      → MemorySet B
      → B.PageTable
      → Call (MemorySet B) B.PageTable
  unfolding MemoryAddr.checked_add protect_areas BTreeMap.extend
  protect first size update_flags self page_table = elim (MemoryAddr.checked_add first size) [
    | none ↦ ret (err invalid_param, self, page_table)
    | some last ↦ do
      (result, areas, to_insert, table) ← protect_areas first last update_flags self page_table
      elim result [
        | err e ↦ ret (err e, areas, table)
        | ok _ ↦ ret (done, BTreeMap.extend areas to_insert, table)
      ]
  ]

  -- The left boundary of `adjust_area`.
  unfoldable pub adjust_left : ℕ → MemoryArea B → B.PageTable → Call (MemoryArea B) B.PageTable
  unfolding MemoryAddr.sub_addr Area.extend_left Area.shrink_left
  adjust_left first area page_table =
      if first == start area
      then ret (done, area, page_table)
      else if lt_addr first (start area)
      then (do
        new_size ← MemoryAddr.sub_addr (end area) first
        Area.extend_left new_size area page_table)
      else (do
        new_size ← MemoryAddr.sub_addr (end area) first
        Area.shrink_left new_size area page_table)

  -- The right boundary, with the bounds that the area had at first.
  unfoldable pub adjust_right :
      ℕ → ℕ → ℕ → MemoryArea B → B.PageTable → Call (MemoryArea B) B.PageTable
  unfolding MemoryAddr.sub_addr Area.extend_right Area.shrink_right
  adjust_right last current_start current_end area page_table =
      if last == current_end
      then ret (done, area, page_table)
      else if lt_addr current_end last
      then (do
        new_size ← MemoryAddr.sub_addr last current_start
        Area.extend_right new_size area page_table)
      else (do
        new_size ← MemoryAddr.sub_addr last current_start
        Area.shrink_right new_size area page_table)

  unfoldable pub adjust_area :
      Build → ℕ → ℕ → ℕ → MemorySet B → B.PageTable → Call (MemorySet B) B.PageTable
  unfolding BTreeMap.get BTreeMap.insert MemoryAddr.is_aligned_4k adjust_left adjust_right
  adjust_area b area_addr first last self page_table = do
    area ← unwrap (BTreeMap.get area_addr self)
    first_aligned ← MemoryAddr.is_aligned_4k b first
    assert first_aligned
    last_aligned ← MemoryAddr.is_aligned_4k b last
    assert last_aligned
    if le_addr last first
        then ret (err invalid_param, self, page_table)
        else write_back area_addr self (
            and_then (adjust_left first area page_table)
              (adjust_right last (start area) (end area)))
