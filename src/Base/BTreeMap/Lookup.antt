-- ===== src/Base/BTreeMap/Lookup.antt =====
-- Looking up what has been inserted.
use axmm_crates.Base.{none, ℕ, ◌≡◌, ◌≢◌, some, [], ◌∷◌, arith}
use axmm_crates.Base.BTreeMap.{BTreeMap, get, insert, remove}

module _ {V : Type 0} where
  pub get-insert : (k : ℕ) (v : V) (m : BTreeMap V) → get k (insert k v m) ≡ some v
  unfolding get insert
  get-insert k v [] = ground arith
  get-insert k v ((j, w) ∷ m) = ground (arith, get-insert k v m)

  pub get-insert_other : (i k : ℕ) (v : V) (m : BTreeMap V) → i ≢ k → get i (insert k v m) ≡ get i m
  unfolding get insert
  get-insert_other i k v [] h = ground arith
  get-insert_other i k v ((j, w) ∷ m) h = ground (arith, get-insert_other i k v m h)

  pub remove-insert :
      (k : ℕ) (v : V) (m : BTreeMap V) → get k m ≡ none → remove k (insert k v m) ≡ m
  unfolding get insert remove
  remove-insert k v [] h = ground arith
  remove-insert k v ((j, w) ∷ m) h = ground (arith, remove-insert k v m)
