-- ===== src/Memory/Set/Safety/After.antt =====
-- The third step of `unmap`, where the backend may fail.
use axmm_crates.Base.{
  ℕ, ◌-◌, ◌≤◌, ◌<◌, ◌≡◌, refl, sym, subst, ◌⊎◌, inl, inr, false, none, [], ◌∷◌, ◌++◌, arith,
  lt-cases, if◌then◌else◌, ret,
}
use axmm_crates.Base.Word.{usize_mod}
use axmm_crates.Addr.MemoryAddr.{usize_addr}
use axmm_crates.Memory.Errors.{done, err, bad_state}
use axmm_crates.Memory.Backend.{MappingBackend}
use axmm_crates.Memory.Backend.Laws.{between}
use axmm_crates.Memory.Area.{MemoryArea, start, end}
use axmm_crates.Memory.Area.Tries.{shrink_left-Tries}
use axmm_crates.Memory.Set.{MemorySet}
use axmm_crates.Memory.Set.Change.{shrink_after}
use axmm_crates.Memory.Set.Chain.{Chain, Chain-le, range_from-append}
use axmm_crates.Memory.Set.View.{view}
use axmm_crates.Memory.Set.Unmap.Cut.{AllReach}
use axmm_crates.Memory.Set.Unmap.Move.{
  range_from-reaching, remove-reaching, Chain-removed, view-removed, insert-moved, Chain-moved,
  view-moved,
}

module _ {B : MappingBackend} (first last hi : ℕ) where
  -- The step succeeds, and the set has nothing in the range.
  pub record Trims (s : MemorySet B) (pt : B.PageTable) : Type 0 where
    pub low : MemorySet B
    pub high : MemorySet B
    pub table : B.PageTable
    pub returns : shrink_after first last s pt ≡ ret (done, low ++ high, table)
    pub chain_low : Chain 0 low first
    pub chain_high : Chain last high hi
    pub same_outside : (x : ℕ) → between first last x ≡ false → view (low ++ high) x ≡ view s x

  -- Or it fails, and an area that starts in the range is lost whole.
  pub record TrimFails (s : MemorySet B) (pt : B.PageTable) : Type 0 where
    pub lost : MemoryArea B
    pub areas : MemorySet B
    pub table : B.PageTable
    pub returns : shrink_after first last s pt ≡ ret (err bad_state, areas, table)
    pub chain : Chain 0 areas hi
    pub crosses : (first ≤ start lost) × (start lost < last) × (last < end lost)
    pub loses :
        (x : ℕ) → view areas x ≡ (if between (start lost) (end lost) x then none else view s x)

  abbrev pub TriesAfter : MemorySet B → B.PageTable → Type 0
  TriesAfter s pt = Trims s pt ⊎ TrimFails s pt

  module _ (order : first < last) (le_hi : last ≤ hi) (word : hi < usize_mod) (low : MemorySet B)
      (chain_low : Chain 0 low first) where
    module _ (a : MemoryArea B) (rest : MemorySet B) (pt : B.PageTable)
        (chain : Chain first ((start a, a) ∷ rest) hi) where
      Trims-untouched : last ≤ start a → Trims (low ++ ((start a, a) ∷ rest)) pt
      unfolding shrink_after
      Trims-untouched h = record {
        low = low;
        high = (start a, a) ∷ rest;
        table = pt;
        returns = ground (arith, range_from-reaching first last hi low chain_low a rest chain);
        chain_low = chain_low;
        chain_high = (h, refl, chain.2, chain.3);
        same_outside = λ x out. refl;
      }

      tried : start a < last → last < end a → TriesAfter (low ++ ((start a, a) ∷ rest)) pt
      unfolding shrink_after
      tried h reach =
          let here = range_from-reaching first last hi low chain_low a rest chain in
          elim (shrink_left-Tries (end a - last) last a pt
            (record { nonempty = chain.2; fits = omega (arith, Chain-le (end a) hi rest chain.3) })
            (omega arith) (omega arith) h) [
              | inl t ↦
                  let moved =
                    view-moved first last hi low chain_low a rest chain order reach t.area t.part
                      h in
                  inl (record {
                    low = low;
                    high = (last, t.area) ∷ rest;
                    table = t.table;
                    returns = ground (
                      arith,
                      here,
                      t.returns,
                      insert-moved first last hi low chain_low a rest chain order reach t.area
                          t.part,
                      t.part.part_start,
                    );
                    chain_low = chain_low;
                    chain_high =
                        Chain-moved first last hi low chain_low a rest chain order reach t.area
                          t.part;
                    same_outside = λ x out. ground (arith, moved x);
                  })
              | inr t ↦ inr (record {
                lost = a;
                areas = low ++ rest;
                table = t.table;
                returns = ground (
                  arith,
                  here,
                  t.returns,
                  remove-reaching first last hi low chain_low a rest chain,
                );
                chain = Chain-removed first last hi low chain_low a rest chain;
                crosses = (chain.0, h, reach);
                loses = view-removed first last hi low chain_low a rest chain;
              })
            ]

    -- On a set that is cut at the start of the range the step returns.
    pub shrink_after_any :
        (high : MemorySet B) (pt : B.PageTable)
        → Chain first high hi
        → AllReach first last high
        → TriesAfter (low ++ high) pt
    unfolding shrink_after
    shrink_after_any [] pt c reach = inl (record {
      low = low;
      high = [];
      table = pt;
      returns = ground (arith, range_from-append 0 first hi low [] chain_low c);
      chain_low = chain_low;
      chain_high = le_hi;
      same_outside = λ x out. refl;
    })
    shrink_after_any ((k, a) ∷ rest) pt c reach =
        let chain : Chain first ((start a, a) ∷ rest) hi = (omega arith, refl, omega arith, c.3) in
        subst (λ j. TriesAfter (low ++ ((j, a) ∷ rest)) pt) (sym c.1)
          (elim (lt-cases (start a) last) [
            | inl inner ↦ tried a rest pt chain inner reach.0
            | inr outer ↦ inl (Trims-untouched a rest pt chain outer)
          ])
