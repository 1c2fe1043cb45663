-- ===== src/Base/BTreeMap.antt =====
-- `alloc::collections::BTreeMap` with addresses for keys: what the crates call of it, on the list
-- of its entries in ascending order of the keys.
pub mod Lookup
pub mod Ranges
pub mod Entries
use Prim.Native.Nat.{ℕ, suc}
use mathlib.Core.Bool.{Bool, true, false}
use mathlib.Core.Option.{Option, none, some}
use mathlib.Core.List.{List, [], ◌∷◌}
use axmm_crates.Base.Tests.{ltb, ◌==◌, if◌then◌else◌}

abbrev pub BTreeMap {ℓ} : Type ℓ → Type ℓ
BTreeMap V = List (ℕ × V)

module _ {ℓ} {V : Type ℓ} where
  abbrev pub len : BTreeMap V → ℕ
  len [] = 0
  len (e ∷ m) = suc (len m)

  abbrev pub is_empty : BTreeMap V → Bool
  is_empty [] = true
  is_empty (e ∷ m) = false

  abbrev pub values : BTreeMap V → List V
  values [] = []
  values ((k, v) ∷ m) = v ∷ values m

  unfoldable pub get : ℕ → BTreeMap V → Option V
  get k [] = none
  get k ((j, v) ∷ m) = if j == k then some v else get k m

  -- The map after `insert`. The method returns what `get` found before. A write through `get_mut` or
  -- `range_mut` is an `insert` at a key that is there.
  unfoldable pub insert : ℕ → V → BTreeMap V → BTreeMap V
  insert k v [] = (k, v) ∷ []
  insert k v ((j, w) ∷ m) =
      if ltb j k then (j, w) ∷ insert k v m else if j == k then (k, v) ∷ m else (k, v) ∷ (j, w) ∷ m

  unfoldable pub remove : ℕ → BTreeMap V → BTreeMap V
  remove k [] = []
  remove k ((j, w) ∷ m) = if j == k then m else (j, w) ∷ remove k m

  -- `extend`, and `append`, which also empties the other map.
  unfoldable pub extend : BTreeMap V → List (ℕ × V) → BTreeMap V
  extend m [] = m
  extend m ((k, v) ∷ l) = extend (insert k v m) l

  -- `retain` with a test of the keys.
  unfoldable pub retain : (ℕ → Bool) → BTreeMap V → BTreeMap V
  retain p [] = []
  retain p ((k, v) ∷ m) = if p k then (k, v) ∷ retain p m else retain p m

  -- `range(k..)`: the entries from `k` on.
  unfoldable pub range_from : ℕ → BTreeMap V → BTreeMap V
  range_from k [] = []
  range_from k ((j, v) ∷ m) = if ltb j k then range_from k m else (j, v) ∷ m

  -- `range(..k)`: the entries below `k`.
  unfoldable pub range_to : ℕ → BTreeMap V → BTreeMap V
  range_to k [] = []
  range_to k ((j, v) ∷ m) = if ltb j k then (j, v) ∷ range_to k m else []

  -- `Iterator::last` and `Iterator::next`
  unfoldable pub last : BTreeMap V → Option (ℕ × V)
  last [] = none
  last (e ∷ m) = elim (last m) [ none ↦ some e | some d ↦ some d ]

  abbrev pub first : BTreeMap V → Option (ℕ × V)
  first [] = none
  first (e ∷ m) = some e

  -- `.map(|(_, a)| a)`
  abbrev pub value_of : Option (ℕ × V) → Option V
  value_of none = none
  value_of (some (k, v)) = some v

  -- `range(..=k)`
  unfoldable pub range_through : ℕ → BTreeMap V → BTreeMap V
  unfolding range_to
  range_through k = range_to (suc k)
