-- ===== src/Memory/Set/Protect/Pieces.antt =====
-- The pieces into which a round of the loop of `protect` cuts an area.
use axmm_crates.Base.{
  ℕ, suc, ◌≤◌, ◌<◌, ◌≡◌, refl, sym, ap, ◌∙◌, ◌&&◌, Option, none, some, [], ◌∷◌, ◌++◌, arith,
  if◌then◌else◌, ret,
}
use mathlib.Core.List.{append_assoc}
use axmm_crates.Base.BTreeMap.{insert, extend}
use axmm_crates.Addr.MemoryAddr.{usize_addr}
use axmm_crates.Memory.Errors.{done}
use axmm_crates.Memory.Backend.{MappingBackend}
use axmm_crates.Memory.Backend.Laws.{between}
use axmm_crates.Memory.Area.{MemoryArea, start, end}
use axmm_crates.Memory.Set.{MemorySet}
use axmm_crates.Memory.Set.Protect.{protect_one}
use axmm_crates.Memory.Set.Chain.{Chain, Chain-append, Chain-widen, insert-append}
use axmm_crates.Memory.Set.View.{view}

module _ {B : MappingBackend} where
  -- An entry that goes right after another.
  pub insert_after :
      (k j hi : ℕ) (a b : MemoryArea B) (init t : MemorySet B)
      → Chain 0 init k
      → k ≡ start a
      → k < end a
      → end a ≤ j
      → Chain (suc j) t hi
      → insert j b (init ++ ((k, a) ∷ t)) ≡ init ++ ((k, a) ∷ (j, b) ∷ t)
  insert_after k j hi a b init t c e nonempty before d =
      ap (insert j b) (sym (append_assoc init ((k, a) ∷ []) t))
      ∙ insert-append 0 j hi b (init ++ ((k, a) ∷ [])) t
          (Chain-append 0 k j init ((k, a) ∷ []) c (omega arith, e, nonempty, before)) d
      ∙ append_assoc init ((k, a) ∷ []) ((j, b) ∷ t)

module _ {B : MappingBackend} (P : Type 0) (entry : B.PageTable → ℕ → Option B.Flags)
    (first last : ℕ) (new_flags : B.Flags) (a : MemoryArea B) (pt : B.PageTable) where
  -- The area left in the map, what is inserted later, and the pieces that the set then has in place
  -- of the area: they have its addresses, those in the range with the new flags.
  pub record Round : Type 0 where
    pub area : MemoryArea B
    pub parts : MemorySet B
    pub table : B.PageTable
    pub pieces : MemorySet B
    pub returns : protect_one first last new_flags (start a) a pt ≡ ret (done, area, parts, table)
    pub kept : (start a ≡ start area) × (start a < end area) × (end area ≤ end a)
    pub chain : Chain (start a) pieces (end a)
    pub placed :
        (hi : ℕ) (init t : MemorySet B)
        → Chain 0 init (start a)
        → Chain (end a) t hi
        → extend (init ++ ((start a, area) ∷ t)) parts ≡ init ++ (pieces ++ t)
    pub flags :
        (x : ℕ)
        → view pieces x ≡ (
            if between (start a) (end a) x
            then some (if between first last x then new_flags else a.flags)
            else none)
    -- Where `P` holds, the page table is known.
    pub sets :
        P
        → (x : ℕ)
        → entry table x ≡ (
            if between (start a) (end a) x && between first last x
            then some new_flags
            else entry pt x)

  -- What the flags of the pieces have to be.
  abbrev pub Reflags : MemorySet B → Type 0
  Reflags pieces =
      (x : ℕ)
      → view pieces x ≡ (
          if between (start a) (end a) x
          then some (if between first last x then new_flags else a.flags)
          else none)

  abbrev pub Resets : B.PageTable → Type 0
  Resets table =
      (x : ℕ)
      → entry table x ≡ (
          if between (start a) (end a) x && between first last x
          then some new_flags
          else entry pt x)

  -- A left piece that stays and a right one that is inserted.
  pub two_pieces :
      (l r : MemoryArea B) (table : B.PageTable)
      → (start a ≡ start l)
        × (start l < end l)
        × (end l ≡ start r)
        × (start r < end r)
        × (end r ≡ end a)
      → protect_one first last new_flags (start a) a pt ≡ ret (done, l, (start r, r) ∷ [], table)
      → Reflags ((start a, l) ∷ (start r, r) ∷ [])
      → (P → Resets table)
      → Round
  unfolding extend
  two_pieces l r table ends returns flags sets = record {
    area = l;
    parts = (start r, r) ∷ [];
    table = table;
    pieces = (start a, l) ∷ (start r, r) ∷ [];
    returns = returns;
    kept = omega arith;
    chain = omega arith;
    placed = λ hi init t c d.
        insert_after (start a) (start r) hi l r init t c ends.0 (omega arith) (omega arith)
          (Chain-widen (end a) hi (suc (start r)) hi t (omega arith) (omega arith) d);
    flags = flags;
    sets = sets;
  }

  -- A left piece that stays, and a right and a middle one that are inserted in this order.
  pub three_pieces :
      (l m r : MemoryArea B) (table : B.PageTable)
      → (start a ≡ start l)
        × (start l < end l)
        × (end l ≡ start m)
        × (start m < end m)
        × (end m ≡ start r)
        × (start r < end r)
        × (end r ≡ end a)
      → protect_one first last new_flags (start a) a pt
        ≡ ret (done, l, (start r, r) ∷ (start m, m) ∷ [], table)
      → Reflags ((start a, l) ∷ (start m, m) ∷ (start r, r) ∷ [])
      → (P → Resets table)
      → Round
  unfolding extend
  three_pieces l m r table ends returns flags sets = record {
    area = l;
    parts = (start r, r) ∷ (start m, m) ∷ [];
    table = table;
    pieces = (start a, l) ∷ (start m, m) ∷ (start r, r) ∷ [];
    returns = returns;
    kept = omega arith;
    chain = omega arith;
    placed = λ hi init t c d.
        let d' = Chain-widen (end a) hi (suc (start r)) hi t (omega arith) (omega arith) d in
        let d'' = Chain-widen (end a) hi (end r) hi t (omega arith) (omega arith) d in
        ap (insert (start m) m)
          (insert_after (start a) (start r) hi l r init t c ends.0 (omega arith) (omega arith) d')
        ∙ insert_after (start a) (start m) hi l m init ((start r, r) ∷ t) c ends.0 (omega arith)
            (omega arith) (omega arith, refl, omega arith, d'');
    flags = flags;
    sets = sets;
  }
