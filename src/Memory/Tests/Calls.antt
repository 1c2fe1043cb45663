-- ===== src/Memory/Tests/Calls.antt =====
-- Sequences of calls at concrete inputs.
use axmm_crates.Base.{ℕ, ◌≤◌, ◌≡◌, ◌⊎◌, refl, arith, false, ret, some, none, [], ◌∷◌}
use axmm_crates.Addr.MemoryAddr.{usize_addr}
use axmm_crates.Addr.AddrRange
use axmm_crates.Addr.AddrRange.{AddrRange}
use axmm_crates.Memory.Errors.{err, already_exists}
use axmm_crates.Memory.Backend.Table
use axmm_crates.Memory.Backend.Table.{
  PageTable, all_mapped, write, table, entry, table-IsLawful, table-MapsInRange,
}
use axmm_crates.Memory.Area
use axmm_crates.Memory.Area.{MemoryArea, start, end, stat}
use axmm_crates.Memory.Area.Tries.{Refuses}
use axmm_crates.Memory.Set.{MemorySet}
use axmm_crates.Memory.Set.Query.{find_free_area}
use axmm_crates.Memory.Set.Change.{map}
use axmm_crates.Memory.Set.Map.{MapsTo}
use axmm_crates.Memory.Set.Calls.{Op, map_op, unmap_op, protect_op, apply, run}
use axmm_crates.Memory.Set.Calls.Steps.{here, next, call, others, reached_sets_IsValid}
use axmm_crates.Memory.Set.Calls.Returns.{Returns}
use axmm_crates.Memory.Set.Calls.Framed.{AreBacked, reached_frames}
use axmm_crates.Memory.Set.Sound.{AreSound}
use axmm_crates.Memory.Area.Sound.{IsSound}
use axmm_crates.Memory.Set.Calls.Spec.{Same, ArePlain}
use axmm_crates.Memory.Set.Calls.Runs.{Runs, run_refines, run_unique}
use axmm_crates.Memory.Set.Calls.Allocate.{free_place_maps}
use axmm_crates.Base.{List, panic}
use axmm_crates.Memory.Errors.{done}
use axmm_crates.Memory.Set.Chain.{IsValid}
use axmm_crates.Memory.Set.View.{view}
use axmm_crates.Memory.Tests.{area, set, set-IsValid, mapped, limit, free_at, raise}

-- An area is mapped, and others empty the page table.
abbrev first_table : PageTable
first_table = (table.map tt 0x1000 0x10 1 (λ x. none)).1

abbrev first_set : MemorySet table
first_set =
    (
      0x1000,
      record {
        va_range = record { start = 0x1000; end = 0x1010 };
        frames = (0x1000, 1) ∷ [];
        flags = 1;
        backend = tt;
      },
    )
    ∷ []

first_map :
    apply (map_op (area 0x1000 0x1010 1) false none) [] (λ x. none)
    ≡ ret (done, first_set, first_table)
unfolding apply Table.map
first_map = refl

reached_sets_IsValid_example :
    IsValid first_set
    × (Returns (unmap_op 0x1004 0x4) first_set (λ x. none)
        ⊎ ((apply (unmap_op 0x1004 0x4) first_set (λ x. none) ≡ panic) × Refuses table))
reached_sets_IsValid_example =
    reached_sets_IsValid (λ x. none) (λ x. none) first_set (unmap_op 0x1004 0x4)
      (next (next here (call (map_op (area 0x1000 0x1010 1) false none) (omega arith) first_map))
        (others (λ x. none)))
      tt

abbrev one_area : MemoryArea table
one_area = area 0x1000 0x1010 1

one_area-IsSound : IsSound one_area
one_area-IsSound = record {
  nonempty = omega arith;
  fits = omega arith;
  ascending = tt;
  backing = tt;
}

reached_frames_example : AreSound first_set × AreBacked first_set
reached_frames_example =
    reached_frames (λ x. none) (λ x. none) first_set table-MapsInRange
      (next (next here (call (map_op one_area false none) one_area-IsSound first_map))
        (others (λ x. none)))

abbrev ops : List (Op table)
ops =
    map_op (area 0x3000 0x4000 5) false none
    ∷ unmap_op 0x2000 0x2800
    ∷ map_op (area 0x1000 0x1001 5) false none
    ∷ protect_op 0 0x8000 raise
    ∷ []

ops-ArePlain : ArePlain ops
ops-ArePlain = ((omega arith, refl), (tt, ((omega arith, refl), (omega arith, tt))))

run_refines_example : Runs entry ops set mapped
run_refines_example =
    run_refines entry ops set mapped table-IsLawful ops-ArePlain set-IsValid (λ x. refl)

free_place_maps_example :
    (addr : ℕ) × (a : MemoryArea table) × (find_free_area 0x2000 0x1000 limit set ≡ some addr)
    × (addr ≤ 0x5000)
    × (Area.new addr 0x1000 none 3 tt ≡ ret a)
    × MapsTo entry a none (view set) (map a false none set mapped)
free_place_maps_example =
    free_place_maps entry 0x2000 0x1000 limit 0x5000 3 tt set mapped table-IsLawful (omega arith)
      (omega arith) (omega arith) (omega arith) (omega arith) free_at set-IsValid (λ x. refl)

-- The same addresses, with the first area cut in two.
abbrev cut_set : MemorySet table
cut_set =
    (0x1000, area 0x1000 0x2000 1)
    ∷ (0x2000, area 0x2000 0x3000 1)
    ∷ (0x4000, area 0x4000 0x5000 2)
    ∷ []

cut_set-IsValid : IsValid cut_set
cut_set-IsValid = omega arith

set-Same : Same (view set) (view cut_set)
unfolding view
set-Same x = ground arith

abbrev protect_all : List (Op table)
protect_all = unmap_op 0x5000 0x100 ∷ map_op (area 0x2000 0x2001 3) false none ∷ []

run-set : run protect_all set mapped ≡ ret (done ∷ err already_exists ∷ [], set, mapped)
unfolding run AddrRange.overlaps
run-set = refl

run-cut_set :
    run protect_all cut_set (view cut_set)
    ≡ ret (done ∷ err already_exists ∷ [], cut_set, view cut_set)
unfolding run AddrRange.overlaps
run-cut_set = refl

run_unique_example :
    (done ∷ err already_exists ∷ [] ≡ done ∷ err already_exists ∷ [])
    × Same (view set) (view cut_set)
run_unique_example =
    run_unique entry protect_all set cut_set mapped (view cut_set) (done ∷ err already_exists ∷ [])
      (done ∷ err already_exists ∷ []) set cut_set mapped (view cut_set) table-IsLawful
      (tt, ((omega arith, refl), tt)) set-IsValid cut_set-IsValid (λ x. refl) (λ x. refl) set-Same
      run-set run-cut_set
