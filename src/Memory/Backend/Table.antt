-- ===== src/Memory/Backend/Table.antt =====
-- A backend with laws: the page table is a function, as in the `MockBackend` of
-- memory_set/src/tests.rs, where it is an array of flags.
use axmm_crates.Base.{
  ℕ, zero, suc, ◌-◌, ◌%◌, ◌+◌, ◌≡◌, refl, inl, inr, subst, Bool-cases, Bool, true, false, ◌&&◌, not,
  Option, none, some, [], ◌∷◌, arith, if◌then◌else◌,
}
use axmm_crates.Base.BTreeMap.{BTreeMap}
use axmm_crates.Base.BTreeMap.Entries.{All}
use axmm_crates.Addr.MemoryAddr.Pages.{page}
use axmm_crates.Memory.Backend.{MappingBackend}
use axmm_crates.Memory.Backend.Laws.{Backs, MapsInRange, inside, IsMapped, IsFree, IsLawful}

abbrev pub PageTable : Type 0
PageTable = ℕ → Option ℕ

abbrev is_mapped : Option ℕ → Bool
is_mapped none = false
is_mapped (some flags) = true

-- Each of the `n` entries from `first` on is mapped, or each is free.
unfoldable pub all_mapped : Bool → ℕ → ℕ → PageTable → Bool
all_mapped want first zero pt = true
all_mapped want first (suc n) pt =
    (if want then is_mapped (pt first) else not (is_mapped (pt first)))
    && all_mapped want (suc first) n pt

abbrev pub write : ℕ → ℕ → Option ℕ → PageTable → PageTable
write first n e pt x = if inside first n x then e else pt x

-- A mapping has one frame, for its first page: the flags.
unfoldable pub map : ℕ → ℕ → ℕ → PageTable → Option (BTreeMap ℕ) × PageTable
unfolding all_mapped
map first n flags pt =
    if all_mapped false first n pt
    then (some ((first - first % page, flags) ∷ []), write first n (some flags) pt)
    else (none, pt)

unfoldable pub change : ℕ → ℕ → Option ℕ → PageTable → Bool × PageTable
unfolding all_mapped
change first n e pt = if all_mapped true first n pt then (true, write first n e pt) else (false, pt)

abbrev pub table : MappingBackend
table = record {
  Self = Unit {0};
  Flags = ℕ;
  PageTable = PageTable;
  FrameTrackerRef = ℕ;
  map = λ b first n flags pt. map first n flags pt;
  unmap = λ b first n pt. change first n none pt;
  protect = λ b first n flags pt. change first n (some flags) pt;
}

abbrev pub entry : PageTable → ℕ → Option ℕ
entry pt x = pt x

all_mapped-true :
    (first n : ℕ) (pt : PageTable)
    → IsMapped table entry first n pt
    → all_mapped true first n pt ≡ true
unfolding all_mapped
all_mapped-true first zero pt h = refl
all_mapped-true first (suc n) pt h = ground (
  arith,
  h first (omega arith) (omega arith),
  all_mapped-true (suc first) n pt (λ x p q. h x (omega arith) (omega arith)),
)

all_mapped-false :
    (first n : ℕ) (pt : PageTable)
    → IsFree table entry first n pt
    → all_mapped false first n pt ≡ true
unfolding all_mapped
all_mapped-false first zero pt h = refl
all_mapped-false first (suc n) pt h = ground (
  arith,
  h first (omega arith) (omega arith),
  all_mapped-false (suc first) n pt (λ x p q. h x (omega arith) (omega arith)),
)

pub table-IsLawful : IsLawful table entry
unfolding map change
table-IsLawful = record {
  unmap_succeeds = λ b first n pt h. ground (arith, all_mapped-true first n pt h);
  entry-unmap = λ b first n pt h x. ground (arith, all_mapped-true first n pt h);
  map_succeeds = λ b first n flags pt h.
      (((first - first % page, flags) ∷ []), ground (arith, all_mapped-false first n pt h));
  entry-map = λ b first n flags pt h x. ground (arith, all_mapped-false first n pt h);
  entry-protect = λ b first n flags pt h x. ground (arith, all_mapped-true first n pt h);
}

pub table-MapsInRange : MapsInRange table
unfolding map
table-MapsInRange b first n flags pt refs more e = elim (Bool-cases (all_mapped false first n pt)) [
  | inl free ↦
      let one : (first - first % page, flags) ∷ [] ≡ refs = ground (arith, free, e) in
      subst (All (Backs first (first + n))) one ((omega arith, omega arith, omega arith), tt)
  | inr taken ↦ absurd (ground (arith, taken, e))
]
