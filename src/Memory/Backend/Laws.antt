-- ===== src/Memory/Backend/Laws.antt =====
-- What the crate relies on in a backend: that `map`, `unmap` and `protect` do to the entries of
-- the page table what their descriptions say, on a range that is wholly free or wholly mapped.
use axmm_crates.Base.{
  ℕ, ◌+◌, ◌%◌, ◌≤◌, ◌<◌, ◌≡◌, ◌≢◌, Bool, true, ◌&&◌, Option, none, some, ltb, leb, if◌then◌else◌,
}
use axmm_crates.Base.BTreeMap.{BTreeMap}
use axmm_crates.Base.BTreeMap.Entries.{All}
use axmm_crates.Addr.MemoryAddr.Pages.{page}
use axmm_crates.Memory.Backend.{MappingBackend}

-- The address `x` lies in the `n` addresses from `first` on.
abbrev pub inside : ℕ → ℕ → ℕ → Bool
inside first n x = leb first x && ltb x (first + n)

module _ (B : MappingBackend) (entry : B.PageTable → ℕ → Option B.Flags) where
  abbrev pub IsMapped : ℕ → ℕ → B.PageTable → Type 0
  IsMapped first n pt = (x : ℕ) → first ≤ x → x < first + n → entry pt x ≢ none

  abbrev pub IsFree : ℕ → ℕ → B.PageTable → Type 0
  IsFree first n pt = (x : ℕ) → first ≤ x → x < first + n → entry pt x ≡ none

  -- `entry pt x` is the flags with which `pt` maps the address `x`, if it does.
  pub record IsLawful : Type 0 where
    pub unmap_succeeds :
        (b : B.Self) (first n : ℕ) (pt : B.PageTable)
        → IsMapped first n pt
        → (B.unmap b first n pt).0 ≡ true
    pub entry-unmap :
        (b : B.Self) (first n : ℕ) (pt : B.PageTable)
        → IsMapped first n pt
        → (x : ℕ)
        → entry (B.unmap b first n pt).1 x ≡ (if inside first n x then none else entry pt x)
    pub map_succeeds :
        (b : B.Self) (first n : ℕ) (flags : B.Flags) (pt : B.PageTable)
        → IsFree first n pt
        → (refs : BTreeMap B.FrameTrackerRef) × ((B.map b first n flags pt).0 ≡ some refs)
    pub entry-map :
        (b : B.Self) (first n : ℕ) (flags : B.Flags) (pt : B.PageTable)
        → IsFree first n pt
        → (x : ℕ)
        → entry (B.map b first n flags pt).1 x
          ≡ (if inside first n x then some flags else entry pt x)
    pub entry-protect :
        (b : B.Self) (first n : ℕ) (flags : B.Flags) (pt : B.PageTable)
        → IsMapped first n pt
        → (x : ℕ)
        → entry (B.protect b first n flags pt).1 x
          ≡ (if inside first n x then some flags else entry pt x)

-- The same by the two ends of the range.
abbrev pub between : ℕ → ℕ → ℕ → Bool
between lo hi x = leb lo x && ltb x hi

module _ (B : MappingBackend) (entry : B.PageTable → ℕ → Option B.Flags) where
  abbrev pub MappedIn : ℕ → ℕ → B.PageTable → Type 0
  MappedIn lo hi pt = (x : ℕ) → lo ≤ x → x < hi → entry pt x ≢ none

  abbrev pub FreeIn : ℕ → ℕ → B.PageTable → Type 0
  FreeIn lo hi pt = (x : ℕ) → lo ≤ x → x < hi → entry pt x ≡ none

  -- `pt'` is `pt` with `e` for the entries from `lo` to `hi`.
  abbrev pub Sets : ℕ → ℕ → Option B.Flags → B.PageTable → B.PageTable → Type 0
  Sets lo hi e pt pt' = (x : ℕ) → entry pt' x ≡ (if between lo hi x then e else entry pt x)

  module _ (L : IsLawful B entry) where
    pub unmap_in :
        (b : B.Self) (lo hi n : ℕ) (pt : B.PageTable)
        → lo + n ≡ hi
        → MappedIn lo hi pt
        → ((B.unmap b lo n pt).0 ≡ true) × Sets lo hi none pt (B.unmap b lo n pt).1
    unmap_in b lo hi n pt e h = rw (← e) (
      L.unmap_succeeds b lo n pt (λ x p q. h x p (rw (← e) q)),
      L.entry-unmap b lo n pt (λ x p q. h x p (rw (← e) q)),
    )

    pub map_in :
        (b : B.Self) (lo hi n : ℕ) (flags : B.Flags) (pt : B.PageTable)
        → lo + n ≡ hi
        → FreeIn lo hi pt
        → ((refs : BTreeMap B.FrameTrackerRef) × ((B.map b lo n flags pt).0 ≡ some refs))
          × Sets lo hi (some flags) pt (B.map b lo n flags pt).1
    map_in b lo hi n flags pt e h = rw (← e) (
      L.map_succeeds b lo n flags pt (λ x p q. h x p (rw (← e) q)),
      L.entry-map b lo n flags pt (λ x p q. h x p (rw (← e) q)),
    )

    pub protect_in :
        (b : B.Self) (lo hi n : ℕ) (flags : B.Flags) (pt : B.PageTable)
        → lo + n ≡ hi
        → MappedIn lo hi pt
        → Sets lo hi (some flags) pt (B.protect b lo n flags pt).1
    protect_in b lo hi n flags pt e h =
        rw (← e) (L.entry-protect b lo n flags pt (λ x p q. h x p (rw (← e) q)))

-- A page, which starts at the key of a frame, has an address of the range from `lo` to `hi`.
abbrev pub Backs : {V : Type 0} → ℕ → ℕ → ℕ → V → Type 0
Backs lo hi k v = (lo < k + page) × (k < hi) × (k % page ≡ 0)

-- The frames that the backend returns are for pages of the range that it maps.
abbrev pub MapsInRange : MappingBackend → Type 0
MapsInRange B =
    (b : B.Self) (first n : ℕ) (flags : B.Flags) (pt : B.PageTable)
    (refs : BTreeMap B.FrameTrackerRef)
    → 0 < n
    → (B.map b first n flags pt).0 ≡ some refs
    → All (Backs first (first + n)) refs
