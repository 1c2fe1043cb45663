-- ===== src/Base/BTreeMap/Entries.antt =====
-- What holds of every entry of a map stays true of them under the operations of a map.
use axmm_crates.Base.{
  ℕ, suc, ◌≤◌, ◌<◌, ◌≡◌, subst, Bool, true, Option, none, some, List, [], ◌∷◌, ◌++◌, arith, ◌==◌,
  Bool-cases, inl, inr, lt-cases, lt→ltb,
}
use axmm_crates.Base.BTreeMap.{
  BTreeMap, get, insert, remove, extend, retain, range_from, range_to, range_through, first, last,
}
use axmm_crates.Base.BTreeMap.Ranges.{IsAscending, IsAscending-le}

module _ {V : Type 0} where
  abbrev pub All : (ℕ → V → Type 0) → BTreeMap V → Type 0
  All P [] = Unit
  All P ((k, v) ∷ m) = P k v × All P m

  -- Of an entry that may be there.
  abbrev pub Of : (ℕ → V → Type 0) → Option (ℕ × V) → Type 0
  Of P none = Unit
  Of P (some (k, v)) = P k v

  module _ (P : ℕ → V → Type 0) where
    pub insert-All : (k : ℕ) (v : V) (m : BTreeMap V) → P k v → All P m → All P (insert k v m)
    unfolding insert
    insert-All k v [] p h = (p, tt)
    insert-All k v ((j, w) ∷ m) p h = ground (arith, insert-All k v m p h.1)

    pub remove-All : (k : ℕ) (m : BTreeMap V) → All P m → All P (remove k m)
    unfolding remove
    remove-All k [] h = tt
    remove-All k ((j, w) ∷ m) h = ground (arith, remove-All k m h.1)

    pub extend-All : (m : BTreeMap V) (l : List (ℕ × V)) → All P m → All P l → All P (extend m l)
    unfolding extend
    extend-All m [] h g = h
    extend-All m ((k, v) ∷ l) h g = extend-All (insert k v m) l (insert-All k v m g.0 h) g.1

    pub get-All : (k : ℕ) (v : V) (m : BTreeMap V) → All P m → get k m ≡ some v → P k v
    unfolding get
    get-All k v [] h e = absurd (ground (arith, e))
    get-All k v ((j, w) ∷ m) h e = elim (Bool-cases (j == k)) [
      | inl here ↦
          let same : w ≡ v = ground (arith, here, e) in
          let key : j ≡ k = ground (arith, here) in
          subst (λ i. P i v) key (subst (λ x. P j x) same h.0)
      | inr there ↦ get-All k v m h.1 (ground (arith, there, e))
    ]

    pub range_to-All : (x : ℕ) (m : BTreeMap V) → All P m → All P (range_to x m)
    unfolding range_to
    range_to-All x [] h = tt
    range_to-All x ((j, w) ∷ m) h = ground (arith, range_to-All x m h.1)

    pub range_from-All : (x : ℕ) (m : BTreeMap V) → All P m → All P (range_from x m)
    unfolding range_from
    range_from-All x [] h = tt
    range_from-All x ((j, w) ∷ m) h = ground (arith, range_from-All x m h.1)

    pub range_through-All : (x : ℕ) (m : BTreeMap V) → All P m → All P (range_through x m)
    unfolding range_through
    range_through-All x [] h = tt
    range_through-All x ((j, w) ∷ m) h = ground (arith, range_through-All x m h.1)

    pub append-All : (m l : BTreeMap V) → All P m → All P l → All P (m ++ l)
    append-All [] l h g = g
    append-All (e ∷ m) l h g = (h.0, append-All m l h.1 g)

    last-Of :
        (k : ℕ) (v : V) (o : Option (ℕ × V))
        → P k v
        → Of P o
        → Of P (elim o [ none ↦ some (k, v) | some d ↦ some d ])
    last-Of k v none p q = p
    last-Of k v (some d) p q = q

    pub last-All : (m : BTreeMap V) → All P m → Of P (last m)
    unfolding last
    last-All [] h = tt
    last-All ((k, v) ∷ m) h = last-Of k v (last m) h.0 (last-All m h.1)

    pub first-All : (m : BTreeMap V) → All P m → Of P (first m)
    first-All [] h = tt
    first-All ((k, v) ∷ m) h = h.0

  -- A stronger fact of the entries that `retain` keeps.
  pub retain-All :
      {P Q : ℕ → V → Type 0} (p : ℕ → Bool) (m : BTreeMap V)
      → ((k : ℕ) (v : V) → p k ≡ true → Q k v → P k v)
      → All Q m
      → All P (retain p m)
  unfolding retain
  retain-All p [] h q = tt
  retain-All p ((k, v) ∷ m) h q = elim (Bool-cases (p k)) [
    | inl keeps ↦ rw keeps (h k v keeps q.0, retain-All p m h q.1)
    | inr drops ↦ rw drops (retain-All p m h q.1)
  ]

  pub retain-IsAscending :
      (lo : ℕ) (p : ℕ → Bool) (m : BTreeMap V) → IsAscending lo m → IsAscending lo (retain p m)
  unfolding retain
  retain-IsAscending lo p [] a = tt
  retain-IsAscending lo p ((k, v) ∷ m) a = elim (Bool-cases (p k)) [
    | inl keeps ↦ rw keeps (a.0, retain-IsAscending (suc k) p m a.1)
    | inr drops ↦
        rw drops (retain-IsAscending lo p m (IsAscending-le (suc k) lo m (omega (arith, a.0)) a.1))
  ]

  pub insert-IsAscending :
      (lo k : ℕ) (v : V) (m : BTreeMap V)
      → lo ≤ k
      → IsAscending lo m
      → IsAscending lo (insert k v m)
  unfolding insert
  insert-IsAscending lo k v [] h a = (h, tt)
  insert-IsAscending lo k v ((j, w) ∷ m) h a = elim (lt-cases j k) [
    | inl below ↦ rw (lt→ltb j k below) (a.0, insert-IsAscending (suc j) k v m (omega arith) a.1)
    | inr above ↦ elim (Bool-cases (j == k)) [
      | inl here ↦
          let key : j ≡ k = ground (arith, here) in
          subst (λ i. IsAscending lo (insert i v ((j, w) ∷ m))) key (ground (arith, a))
      | inr there ↦ ground (arith, there, a, h)
    ]
  ]

  pub extend-IsAscending :
      (m : BTreeMap V) (l : List (ℕ × V)) → IsAscending 0 m → IsAscending 0 (extend m l)
  unfolding extend
  extend-IsAscending m [] a = a
  extend-IsAscending m ((k, v) ∷ l) a =
      extend-IsAscending (insert k v m) l (insert-IsAscending 0 k v m (omega arith) a)

  IsAscending-All : (x lo : ℕ) (m : BTreeMap V) → x ≤ lo → IsAscending lo m → All (λ k v. x ≤ k) m
  IsAscending-All x lo [] h a = tt
  IsAscending-All x lo ((j, w) ∷ m) h a =
      (omega (arith, a.0), IsAscending-All x (suc j) m (omega (arith, a.0)) a.1)

  -- Every entry of `range_from` lies from `x` on.
  pub range_from-from :
      (lo x : ℕ) (m : BTreeMap V) → IsAscending lo m → All (λ k v. x ≤ k) (range_from x m)
  unfolding range_from
  range_from-from lo x [] a = tt
  range_from-from lo x ((j, w) ∷ m) a = elim (lt-cases j x) [
    | inl below ↦ rw (lt→ltb j x below) (range_from-from (suc j) x m a.1)
    | inr above ↦ ground (arith, IsAscending-All x (suc j) m (omega arith) a.1)
  ]

  pub range_to-below : (x : ℕ) (m : BTreeMap V) → All (λ k v. k < x) (range_to x m)
  unfolding range_to
  range_to-below x [] = tt
  range_to-below x ((j, w) ∷ m) = ground (arith, range_to-below x m)

  pub map-All :
      {P Q : ℕ → V → Type 0} (m : BTreeMap V)
      → ((k : ℕ) (v : V) → P k v → Q k v)
      → All P m
      → All Q m
  map-All [] f h = tt
  map-All ((k, v) ∷ m) f h = (f k v h.0, map-All m f h.1)

  pub All-both :
      {P Q R : ℕ → V → Type 0} (m : BTreeMap V)
      → ((k : ℕ) (v : V) → P k v → Q k v → R k v)
      → All P m
      → All Q m
      → All R m
  All-both [] f h g = tt
  All-both ((k, v) ∷ m) f h g = (f k v h.0 g.0, All-both m f h.1 g.1)
