-- ===== src/Base/BTreeMap/Ranges.antt =====
-- Looking up in a part of a map. The keys of a map ascend.
use axmm_crates.Base.{
  ℕ, suc, ◌≤◌, ◌<◌, ◌≡◌, refl, ap, Bool, none, List, [], ◌∷◌, arith, ltb, leb, if◌then◌else◌, inl,
  inr, lt-cases, lt→ltb, or_else,
}
use axmm_crates.Base.BTreeMap.{BTreeMap, get, insert, extend, retain, range_from, range_to}
use axmm_crates.Base.BTreeMap.Lookup.{get-insert, get-insert_other}

module _ {V : Type 0} where
  -- The keys are at least `lo`, and each is above the one before it.
  abbrev pub IsAscending : ℕ → BTreeMap V → Type 0
  IsAscending lo [] = Unit
  IsAscending lo ((k, v) ∷ m) = (lo ≤ k) × IsAscending (suc k) m

  pub IsAscending-le :
      (lo lo' : ℕ) (m : BTreeMap V) → lo' ≤ lo → IsAscending lo m → IsAscending lo' m
  IsAscending-le lo lo' [] h a = tt
  IsAscending-le lo lo' ((k, v) ∷ m) h a = (omega arith, a.1)

  pub get-below : (k lo : ℕ) (m : BTreeMap V) → k < lo → IsAscending lo m → get k m ≡ none
  unfolding get
  get-below k lo [] h a = refl
  get-below k lo ((j, v) ∷ m) h a = ground (arith, get-below k (suc j) m (omega arith) a.1)

  pub get-retain :
      (p : ℕ → Bool) (k : ℕ) (m : BTreeMap V) → get k (retain p m) ≡ (if p k then get k m else none)
  unfolding get retain
  get-retain p k [] = ground arith
  get-retain p k ((j, v) ∷ m) = ground (arith, get-retain p k m, ap p)

  pub get-range_from :
      (lo x k : ℕ) (m : BTreeMap V)
      → IsAscending lo m
      → get k (range_from x m) ≡ (if leb x k then get k m else none)
  unfolding get range_from
  get-range_from lo x k [] a = ground arith
  get-range_from lo x k ((j, v) ∷ m) a =
      ground (arith, get-range_from (suc j) x k m a.1, get-below k (suc j) m)

  pub get-range_to :
      (lo x k : ℕ) (m : BTreeMap V)
      → IsAscending lo m
      → get k (range_to x m) ≡ (if ltb k x then get k m else none)
  unfolding get range_to
  get-range_to lo x k [] a = ground arith
  get-range_to lo x k ((j, v) ∷ m) a =
      ground (arith, get-range_to (suc j) x k m a.1, get-below k (suc j) m)

  pub range_from-IsAscending :
      (lo x : ℕ) (m : BTreeMap V) → IsAscending lo m → IsAscending lo (range_from x m)
  unfolding range_from
  range_from-IsAscending lo x [] a = tt
  range_from-IsAscending lo x ((j, v) ∷ m) a = elim (lt-cases j x) [
    | inl below ↦
        rw (lt→ltb j x below)
          (range_from-IsAscending lo x m (IsAscending-le (suc j) lo m (omega (arith, a.0)) a.1))
    | inr above ↦ ground (arith, a)
  ]

  pub range_to-IsAscending :
      (lo x : ℕ) (m : BTreeMap V) → IsAscending lo m → IsAscending lo (range_to x m)
  unfolding range_to
  range_to-IsAscending lo x [] a = tt
  range_to-IsAscending lo x ((j, v) ∷ m) a = elim (lt-cases j x) [
    | inl below ↦ rw (lt→ltb j x below) (a.0, range_to-IsAscending (suc j) x m a.1)
    | inr above ↦ ground arith
  ]

  -- Of two entries with one key, the one that is added stays.
  pub get-extend :
      (lo k : ℕ) (m : BTreeMap V) (l : List (ℕ × V))
      → IsAscending lo l
      → get k (extend m l) ≡ or_else (get k l) (get k m)
  unfolding get extend
  get-extend lo k m [] a = refl
  get-extend lo k m ((j, v) ∷ l) a = ground (
    arith,
    get-extend (suc j) k (insert j v m) l a.1,
    get-below k (suc j) l,
    ap (λ i. get i (insert j v m)),
    get-insert j v m,
    get-insert_other k j v m,
  )
