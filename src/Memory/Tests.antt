-- ===== src/Memory/Tests.antt =====
-- Runs of memory_set over the backend of Memory/Backend/Table.antt, and its theorems at concrete
-- inputs.
mod Calls
mod Boundaries
mod Broken
use axmm_crates.Base.{
  ℕ, ◌<◌, ◌≤◌, ◌≡◌, ◌≢◌, ◌↔◌, ◌⊎◌, refl, arith, true, false, ret, some, none, [], ◌∷◌,
}
use axmm_crates.Base.BTreeMap
use axmm_crates.Addr.MemoryAddr.{usize_addr}
use axmm_crates.Addr.AddrRange
use axmm_crates.Addr.AddrRange.{AddrRange}
use axmm_crates.Memory.Errors.{err, invalid_param, already_exists, bad_state}
use axmm_crates.Memory.Backend.{MappingBackend}
use axmm_crates.Memory.Backend.Laws.{inside}
use axmm_crates.Base.Word.{usize_mod}
use axmm_crates.Memory.Backend.Table
use axmm_crates.Memory.Backend.Table.{PageTable, table, entry, table-IsLawful}
use axmm_crates.Memory.Area
use axmm_crates.Memory.Area.{MemoryArea, start, end}
use axmm_crates.Memory.Area.Laws.{IsPart}
use axmm_crates.Memory.Area.Tries.{Refuses}
use axmm_crates.Memory.Area.Frames.{IsFramedPart, FramesInside, split_frames, unmap_frames_outcomes}
use axmm_crates.Memory.Set.{MemorySet}
use axmm_crates.Memory.Set.Query.{overlaps, find_free_area}
use axmm_crates.Memory.Set.Query.Overlaps.{overlaps-view}
use axmm_crates.Memory.Set.Query.Find.{Found, NotFound, find_outcomes}
use axmm_crates.Memory.Set.Query.Gaps.{FreeFrom}
use axmm_crates.Memory.Set.Query.FreeArea.{SoundAt}
use axmm_crates.Memory.Set.Query.FirstFit.{Place, find_free_area_outcomes}
use axmm_crates.Memory.Set.Change.{insert, delete, map, unmap}
use axmm_crates.Memory.Set.Insert.{Meets, Added, without, insert_outcomes, delete_erases}
use axmm_crates.Memory.Set.Map.{MapsTo, map_outcomes}
use axmm_crates.Memory.Set.Calls.{Op, map_op, unmap_op, protect_op, apply, run}
use axmm_crates.Memory.Set.Calls.Steps.{here, next, call, others, reached_sets_IsValid}
use axmm_crates.Memory.Set.Calls.Returns.{Returns}
use axmm_crates.Memory.Set.Calls.Spec.{Same, ArePlain}
use axmm_crates.Memory.Set.Calls.Runs.{Runs, run_refines, run_unique}
use axmm_crates.Memory.Set.Calls.Allocate.{free_place_maps}
use axmm_crates.Memory.Set.Safety.Unmap.{UnmapsAny, unmap_any}
use axmm_crates.Memory.Set.Safety.Map.{MapsAny, map_any}
use axmm_crates.Memory.Set.Safety.Protect.{Updates, protect_any}
use axmm_crates.Memory.Set.Overlay.{insert_overlay}
use axmm_crates.Memory.Set.Protect.{adjust_area}
use axmm_crates.Memory.Set.Resize.{Adjusted, adjust_area_right}
use axmm_crates.Memory.Set.LeftBoundary.{adjust_area_left}
use axmm_crates.Base.{ltb, ◌+◌, List, Option, panic, debug, if◌then◌else◌}
use axmm_crates.Memory.Errors.{done}
use axmm_crates.Memory.Set.Change.{clear}
use axmm_crates.Memory.Set.Clear.{clear_erases}
use axmm_crates.Memory.Set.Protect.{protect}
use axmm_crates.Memory.Set.Protect.Refines.{Protected, protect_refines}
use axmm_crates.Memory.Set.Protect.Empty.{protect_empty_panics}
use axmm_crates.Memory.Set.At.{area_at}
use axmm_crates.Memory.Set.Frames.{find_frame, insert_frame, remap_frame}
use axmm_crates.Memory.Set.Frames.Access.{Stores, Misplaces, frame_outcomes}
use axmm_crates.Memory.Set.Chain.{IsValid}
use axmm_crates.Memory.Set.View.{view}
use axmm_crates.Memory.Set.Unmap.Refines.{Unmapped, unmap_refines}

abbrev area : ℕ → ℕ → ℕ → MemoryArea table
area lo hi flags = record {
  va_range = record { start = lo; end = hi };
  frames = [];
  flags = flags;
  backend = tt;
}

-- Two areas with a gap between them, and the page table that they describe.
abbrev set : MemorySet table
set = (0x1000, area 0x1000 0x3000 1) ∷ (0x4000, area 0x4000 0x5000 2) ∷ []

set-IsValid : IsValid set
set-IsValid = omega arith

abbrev mapped : PageTable
mapped = view set

unmap_refines_example : Unmapped entry 0x2000 0x2800 set mapped
unmap_refines_example =
    unmap_refines entry 0x2000 0x2800 set mapped table-IsLawful (omega arith) set-IsValid
      (λ x. refl)

abbrev new_area : MemoryArea table
new_area = area 0x2000 0x4800 7

map_outcomes_example :
    ((0x4800 ≤ 0x2000) × (map new_area true none set mapped ≡ ret (err invalid_param, set, mapped)))
    ⊎ (Meets set new_area
        × (true ≡ false)
        × (map new_area true none set mapped ≡ ret (err already_exists, set, mapped)))
    ⊎ ((0x2000 < 0x4800)
        × ((true ≡ true) ⊎ ¬ Meets set new_area)
        × MapsTo entry new_area none (view set) (map new_area true none set mapped))
map_outcomes_example =
    map_outcomes entry new_area true none set mapped table-IsLawful (omega arith) set-IsValid
      (λ x. refl)

overlaps-view_example :
    (overlaps (record { start = 0x3000; end = 0x4001 }) set ≡ true)
    ↔ ((x : ℕ) × (0x3000 ≤ x) × (x < 0x4001) × (view set x ≢ none))
overlaps-view_example =
    overlaps-view (record { start = 0x3000; end = 0x4001 }) set (omega arith) (omega arith)
      set-IsValid

find_outcomes_example : Found 0x2fff set ⊎ NotFound 0x2fff set
find_outcomes_example = find_outcomes 0x2fff set (omega arith) set-IsValid

abbrev limit : AddrRange ℕ
limit = record { start = 0x1000; end = 0x8000 }

run_find_free_area : find_free_area 0x2000 0x1000 limit set ≡ some 0x3000
unfolding find_free_area
run_find_free_area = refl

find_free_area_outcomes_example :
    ((addr : ℕ) × (find_free_area 0x2000 0x1000 limit set ≡ some addr)
      × SoundAt 0x2000 0x1000 limit set addr
      × ((p : Place 0x2000 0x1000 limit set) → addr ≤ p.at))
    ⊎ ((find_free_area 0x2000 0x1000 limit set ≡ none) × ¬ Place 0x2000 0x1000 limit set)
find_free_area_outcomes_example =
    find_free_area_outcomes 0x2000 0x1000 limit set (omega arith) (omega arith) (omega arith)
      (omega arith) set-IsValid

free_at : FreeFrom set 0x5000 0x1000
unfolding view
free_at x p q = ground arith

insert_outcomes_example :
    ((0x4000 ≤ 0x3000) × (insert (area 0x3000 0x4000 7) false set ≡ ret (err invalid_param, set)))
    ⊎ (Meets set (area 0x3000 0x4000 7)
        × (insert (area 0x3000 0x4000 7) false set ≡ ret (err already_exists, set)))
    ⊎ Added (area 0x3000 0x4000 7) set
insert_outcomes_example = insert_outcomes (area 0x3000 0x4000 7) set (omega arith) set-IsValid

delete_erases_example :
    IsValid (delete 0x1000 set)
    × ((x : ℕ) → view (delete 0x1000 set) x ≡ without (BTreeMap.get 0x1000 set) x (view set x))
delete_erases_example = delete_erases 0x1000 set set-IsValid

-- Flags below 9 are raised by 4; others stay.
abbrev raise : ℕ → Option ℕ
raise f = if ltb f 9 then some (f + 4) else none

protect_refines_example : Protected entry raise 0x2000 0x2800 set mapped
protect_refines_example =
    protect_refines entry raise 0x2000 0x2800 set mapped table-IsLawful (omega arith) (omega arith)
      set-IsValid (λ x. refl)

protect_empty_panics_example : protect 0x2000 0 raise set mapped ≡ panic
unfolding BTreeMap.get
protect_empty_panics_example =
    protect_empty_panics 0x2000 raise (area 0x1000 0x3000 1) 5 set mapped set-IsValid refl
      (omega arith) (omega arith) refl

frame_outcomes_example :
    ((view set 0x2345 ≡ none)
      × (insert_frame debug 0x2345 7 set ≡ ret (none, set))
      × (remap_frame debug 0x2345 7 set ≡ panic)
      × (find_frame debug 0x2345 set ≡ ret none))
    ⊎ ((view set 0x2345 ≢ none)
        × (area_at set 0x2000 ≡ area_at set 0x2345)
        × Stores debug 0x2345 0x2000 7 set)
    ⊎ Misplaces debug 0x2345 0x2000 7 set
frame_outcomes_example =
    frame_outcomes debug 0x2000 0x345 7 set refl (omega arith) (omega arith) set-IsValid

clear_erases_example :
    (pt : PageTable) × (clear set mapped ≡ ret (done, [], pt)) × ((x : ℕ) → entry pt x ≡ none)
clear_erases_example = clear_erases entry table-IsLawful set mapped set-IsValid (λ x. refl)

insert_overlay_example :
    ((BTreeMap.get 0x2000 set ≢ none) × (insert new_area true set ≡ panic))
    ⊎ ((areas : MemorySet table) × (insert new_area true set ≡ ret (done, areas)) × ¬ IsValid areas)
unfolding view
insert_overlay_example =
    insert_overlay new_area set (omega arith)
      (0x2000, omega arith, omega arith, λ e. ground (arith, e))

adjust_area_right_example : Adjusted entry debug (area 0x1000 0x3000 1) 0x4000 set mapped
unfolding BTreeMap.get view
adjust_area_right_example =
    adjust_area_right entry debug (area 0x1000 0x3000 1) 0x4000 set mapped table-IsLawful
      set-IsValid (λ x. refl) refl refl refl (omega arith) (omega arith) (λ x p q. ground arith)

adjust_area_left_example :
    (areas : MemorySet table) × (pt : PageTable) × (a' : MemoryArea table) × (adjust_area debug
        0x1000 0x2000 0x3000 set mapped
      ≡ ret (done, areas, pt))
    × (BTreeMap.get 0x1000 areas ≡ some a')
    × IsPart (area 0x1000 0x3000 1) 0x2000 0x3000 a'
    × ¬ IsValid areas
unfolding BTreeMap.get
adjust_area_left_example =
    adjust_area_left entry debug (area 0x1000 0x3000 1) 0x2000 set mapped table-IsLawful set-IsValid
      (λ x. refl) refl refl refl (omega arith) (omega arith)

-- A frame on each side of 0x2000.
abbrev framed : MemoryArea table
framed = record {
  va_range = record { start = 0x1000; end = 0x3000 };
  frames = (0x1000, 7) ∷ (0x2000, 8) ∷ [];
  flags = 1;
  backend = tt;
}

framed-inside : FramesInside framed
unfolding BTreeMap.get
framed-inside k out = ground arith

split_frames_example :
    (right left : MemoryArea table) × (Area.split 0x2000 framed ≡ ret (some right, left))
    × IsFramedPart framed 0x2000 0x3000 right
    × IsFramedPart framed 0x1000 0x2000 left
split_frames_example =
    split_frames 0x2000 framed (record { nonempty = omega arith; fits = omega arith }) (omega arith)
      framed-inside (omega arith) (omega arith)

unmap_frames_outcomes_example :
    let (unmapped, pt') = table.unmap tt 0x1000 0x1000 mapped in
    ((unmapped ≡ false)
      × (Area.unmap_frames 0x1000 0x1000 framed mapped ≡ ret (err bad_state, framed, pt')))
    ⊎ ((a' : MemoryArea table) × (unmapped ≡ true)
        × (Area.unmap_frames 0x1000 0x1000 framed mapped ≡ ret (done, a', pt'))
        × IsPart framed 0x1000 0x3000 a'
        × ((k : ℕ)
            → BTreeMap.get k a'.frames
              ≡ (if inside 0x1000 0x1000 k then none else BTreeMap.get k framed.frames)))
unmap_frames_outcomes_example =
    unmap_frames_outcomes 0x1000 0x1000 framed mapped (omega arith) (omega arith)
