-- ===== src/Memory/Set/Query.antt =====
-- The calls of `MemorySet` that only read it: `overlaps`, `find` and `find_free_area`.
pub mod Overlaps
pub mod Find
pub mod Gaps
pub mod FreeArea
pub mod FirstFit
use axmm_crates.Base.{
  ℕ, ◌-◌, Bool, true, false, ◌&&◌, not, Option, none, some, List, [], ◌∷◌, Outcome, ret, panic,
  assert, unwrap, ◌>>=◌, ◌>>◌, Build, ltb, leb, ◌==◌, max, if◌then◌else◌,
}
use axmm_crates.Base.Word.{checked_add}
use axmm_crates.Base.BTreeMap
use axmm_crates.Base.BTreeMap.{BTreeMap}
use axmm_crates.Addr.MemoryAddr
use axmm_crates.Addr.MemoryAddr.{usize_addr, lt_addr, le_addr, max_addr}
use axmm_crates.Addr.AddrRange
use axmm_crates.Addr.AddrRange.{AddrRange}
use axmm_crates.Memory.Errors.{
  MappingError, invalid_param, already_exists, bad_state, MappingResult, ok, err, done, Call,
  and_then,
}
use axmm_crates.Memory.Backend.{MappingBackend}
use axmm_crates.Memory.Area
use axmm_crates.Memory.Area.{MemoryArea, start, end}
use axmm_crates.Memory.Set.{MemorySet}

-- `last_end.checked_add(size).is_some_and(|end| end <= bound)`
abbrev pub fits_below : Option ℕ → ℕ → Bool
fits_below none bound = false
fits_below (some last) bound = le_addr last bound

module _ {B : MappingBackend} where
  abbrev pub overlaps_entry : Option (ℕ × MemoryArea B) → AddrRange ℕ → Bool
  overlaps_entry none range = false
  overlaps_entry (some (k, area)) range = AddrRange.overlaps area.va_range range

  unfoldable pub overlaps : AddrRange ℕ → MemorySet B → Bool
  unfolding BTreeMap.last BTreeMap.range_to BTreeMap.range_from
  overlaps range self =
      if overlaps_entry (BTreeMap.last (BTreeMap.range_to range.start self)) range
      then true
      else if overlaps_entry (BTreeMap.first (BTreeMap.range_from range.start self)) range
      then true
      else false

  -- `candidate.filter(|a| a.va_range().contains(addr))`
  abbrev pub filter_entry : ℕ → Option (ℕ × MemoryArea B) → Option (ℕ × MemoryArea B)
  filter_entry addr none = none
  filter_entry addr (some (k, a)) = if AddrRange.contains a.va_range addr then some (k, a) else none

  -- The area comes with its key, under which a caller that changes it writes it back.
  unfoldable pub find_mut : ℕ → MemorySet B → Option (ℕ × MemoryArea B)
  unfolding BTreeMap.last BTreeMap.range_through AddrRange.contains
  find_mut addr self = filter_entry addr (BTreeMap.last (BTreeMap.range_through addr self))

  unfoldable pub find : ℕ → MemorySet B → Option (MemoryArea B)
  unfolding BTreeMap.last BTreeMap.range_through AddrRange.contains
  find addr self =
      BTreeMap.value_of (filter_entry addr (BTreeMap.last (BTreeMap.range_through addr self)))

  abbrev pub max_end : ℕ → Option (ℕ × MemoryArea B) → ℕ
  max_end last_end none = last_end
  max_end last_end (some (k, area)) = max_addr last_end (end area)

  -- The loop of `find_free_area`: the start that it returns, or the last end without one.
  unfoldable pub scan_gaps : ℕ → ℕ → MemorySet B → Option ℕ × ℕ
  unfolding MemoryAddr.checked_add
  scan_gaps size last_end [] = (none, last_end)
  scan_gaps size last_end ((addr, area) ∷ rest) =
      let next = scan_gaps size (end area) rest in
      if fits_below (MemoryAddr.checked_add last_end size) addr
      then (some last_end, last_end)
      else next

  unfoldable pub find_free_area : ℕ → ℕ → AddrRange ℕ → MemorySet B → Option ℕ
  unfolding scan_gaps BTreeMap.last BTreeMap.range_to BTreeMap.range_from MemoryAddr.checked_add
  find_free_area hint size limit self =
      let base = max_addr hint limit.start in
      let last_end = max_end base (BTreeMap.last (BTreeMap.range_to base self)) in
      let (found, stop) = scan_gaps size last_end (BTreeMap.range_from last_end self) in
      elim found [
        | some addr ↦ some addr
        | none ↦ if fits_below (MemoryAddr.checked_add stop size) limit.end then some stop else none
      ]
