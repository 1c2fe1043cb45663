-- ===== src/Memory/Set/Chain.antt =====
-- The invariant of a `MemorySet`, and how the calls of its map act on a set that is cut in two.
use axmm_crates.Base.{
  ℕ, suc, ◌-◌, ◌≤◌, ◌<◌, ◌≡◌, refl, ap, ◌⊎◌, inl, inr, max, none, some, [], ◌∷◌, ◌++◌, arith,
  lt-cases, lt→ltb,
}
use axmm_crates.Base.Word.{usize_mod}
use axmm_crates.Base.BTreeMap.{get, insert, remove, range_to, range_from, last}
use axmm_crates.Memory.Backend.{MappingBackend}
use axmm_crates.Memory.Area.{MemoryArea, start, end}
use axmm_crates.Memory.Set.{MemorySet}

-- The greatest address of a word.
abbrev pub top : ℕ
top = usize_mod - 1

module _ {B : MappingBackend} where
  -- The areas of `s` lie between `lo` and `hi`, each under its start, none empty, in ascending order,
  -- and no two of them have a common address.
  abbrev pub Chain : ℕ → MemorySet B → ℕ → Type 0
  Chain lo [] hi = lo ≤ hi
  Chain lo ((k, a) ∷ s) hi = (lo ≤ k) × (k ≡ start a) × (k < end a) × Chain (end a) s hi

  -- The last area may end at the greatest address of a word.
  abbrev pub IsValid : MemorySet B → Type 0
  IsValid s = Chain 0 s top

  pub Chain-le : (lo hi : ℕ) (s : MemorySet B) → Chain lo s hi → lo ≤ hi
  Chain-le lo hi [] c = c
  Chain-le lo hi ((k, a) ∷ s) c = omega (arith, Chain-le (end a) hi s c.3)

  pub Chain-widen :
      (lo hi lo' hi' : ℕ) (s : MemorySet B) → lo' ≤ lo → hi ≤ hi' → Chain lo s hi → Chain lo' s hi'
  Chain-widen lo hi lo' hi' [] p q c = omega arith
  Chain-widen lo hi lo' hi' ((k, a) ∷ s) p q c =
      (omega arith, c.1, c.2, Chain-widen (end a) hi (end a) hi' s (omega arith) q c.3)

  pub Chain-append :
      (lo mid hi : ℕ) (s t : MemorySet B) → Chain lo s mid → Chain mid t hi → Chain lo (s ++ t) hi
  Chain-append lo mid hi [] t c d = Chain-widen mid hi lo hi t c (omega arith) d
  Chain-append lo mid hi ((k, a) ∷ s) t c d = (c.0, c.1, c.2, Chain-append (end a) mid hi s t c.3 d)

  -- An entry under a new key above all of `s` and below all of `t`.
  pub insert-append :
      (lo k hi : ℕ) (v : MemoryArea B) (s t : MemorySet B)
      → Chain lo s k
      → Chain (suc k) t hi
      → insert k v (s ++ t) ≡ s ++ ((k, v) ∷ t)
  unfolding insert
  insert-append lo k hi v [] [] c d = refl
  insert-append lo k hi v [] ((j, b) ∷ t) c d = ground arith
  insert-append lo k hi v ((j, b) ∷ s) t c d =
      rw (lt→ltb j k (omega (arith, Chain-le (end b) k s c.3)))
        (ap (λ r. (j, b) ∷ r) (insert-append (end b) k hi v s t c.3 d))

  -- A write at a key that is there.
  pub insert-append_at :
      (lo k : ℕ) (v w : MemoryArea B) (s t : MemorySet B)
      → Chain lo s k
      → insert k v (s ++ ((k, w) ∷ t)) ≡ s ++ ((k, v) ∷ t)
  unfolding insert
  insert-append_at lo k v w [] t c = ground arith
  insert-append_at lo k v w ((j, b) ∷ s) t c =
      rw (lt→ltb j k (omega (arith, Chain-le (end b) k s c.3)))
        (ap (λ r. (j, b) ∷ r) (insert-append_at (end b) k v w s t c.3))

  pub remove-append :
      (lo k : ℕ) (w : MemoryArea B) (s t : MemorySet B)
      → Chain lo s k
      → remove k (s ++ ((k, w) ∷ t)) ≡ s ++ t
  unfolding remove
  remove-append lo k w [] t c = ground arith
  remove-append lo k w ((j, b) ∷ s) t c =
      ground (arith, Chain-le (end b) k s c.3, remove-append (end b) k w s t c.3)

  pub range_from-append :
      (lo x hi : ℕ) (s t : MemorySet B) → Chain lo s x → Chain x t hi → range_from x (s ++ t) ≡ t
  unfolding range_from
  range_from-append lo x hi [] [] c d = refl
  range_from-append lo x hi [] ((j, b) ∷ t) c d = ground arith
  range_from-append lo x hi ((j, b) ∷ s) t c d =
      rw (lt→ltb j x (omega (arith, Chain-le (end b) x s c.3)))
        (range_from-append (end b) x hi s t c.3 d)

  get-above : (k lo hi : ℕ) (t : MemorySet B) → k < lo → Chain lo t hi → get k t ≡ none
  unfolding get
  get-above k lo hi [] h c = refl
  get-above k lo hi ((j, b) ∷ t) h c = ground (arith, get-above k (end b) hi t (omega arith) c.3)

  pub get-append :
      (lo k hi : ℕ) (s t : MemorySet B) → Chain lo s k → Chain (suc k) t hi → get k (s ++ t) ≡ none
  unfolding get
  get-append lo k hi [] t c d = get-above k (suc k) hi t (omega arith) d
  get-append lo k hi ((j, b) ∷ s) t c d =
      ground (arith, Chain-le (end b) k s c.3, get-append (end b) k hi s t c.3 d)

  pub get-append_at :
      (lo k : ℕ) (w : MemoryArea B) (s t : MemorySet B)
      → Chain lo s k
      → get k (s ++ ((k, w) ∷ t)) ≡ some w
  unfolding get
  get-append_at lo k w [] t c = ground arith
  get-append_at lo k w ((j, b) ∷ s) t c =
      ground (arith, Chain-le (end b) k s c.3, get-append_at (end b) k w s t c.3)

  -- `s` at the address `x`: no area starts below it.
  pub record Unlocated (x lo hi : ℕ) (s : MemorySet B) : Type 0 where
    pub no_last : last (range_to x s) ≡ none
    pub all_above : range_from x s ≡ s
    pub chain : Chain (max x lo) s hi

  -- Or the last one that does is `area`, between `init` and `rest`.
  pub record Located (x lo hi : ℕ) (s : MemorySet B) : Type 0 where
    pub init : MemorySet B
    pub area : MemoryArea B
    pub rest : MemorySet B
    pub is_last : last (range_to x s) ≡ some (start area, area)
    pub rest_above : range_from x s ≡ rest
    pub shape : s ≡ init ++ ((start area, area) ∷ rest)
    pub starts_below : start area < x
    pub nonempty : start area < end area
    pub chain_init : Chain lo init (start area)
    pub chain_rest : Chain (max x (end area)) rest hi

  locate_cons :
      (x lo hi k : ℕ) (a : MemoryArea B) (s : MemorySet B)
      → Chain lo ((k, a) ∷ s) hi
      → k < x
      → Unlocated x (end a) hi s ⊎ Located x (end a) hi s
      → Located x lo hi ((k, a) ∷ s)
  unfolding last range_to range_from
  locate_cons x lo hi k a s c h (inl u) = record {
    init = [];
    area = a;
    rest = s;
    is_last = ground arith;
    rest_above = ground arith;
    shape = ap (λ (t : ℕ). (t, a) ∷ s) c.1;
    starts_below = omega arith;
    nonempty = omega arith;
    chain_init = omega arith;
    chain_rest = u.chain;
  }
  locate_cons x lo hi k a s c h (inr l) = record {
    init = (k, a) ∷ l.init;
    area = l.area;
    rest = l.rest;
    is_last = ground arith;
    rest_above = ground arith;
    shape = ap (λ r. (k, a) ∷ r) l.shape;
    starts_below = l.starts_below;
    nonempty = l.nonempty;
    chain_init = (c.0, c.1, c.2, l.chain_init);
    chain_rest = l.chain_rest;
  }

  pub locate :
      (x lo hi : ℕ) (s : MemorySet B)
      → x ≤ hi
      → Chain lo s hi
      → Unlocated x lo hi s ⊎ Located x lo hi s
  unfolding last range_to range_from
  locate x lo hi [] h c = inl (record { no_last = refl; all_above = refl; chain = omega arith })
  locate x lo hi ((k, a) ∷ s) h c = elim (lt-cases k x) [
    | inl below ↦ inr (locate_cons x lo hi k a s c below (locate x (end a) hi s h c.3))
    | inr above ↦ inl (record {
      no_last = ground arith;
      all_above = ground arith;
      chain = (omega arith, c.1, c.2, c.3);
    })
  ]
