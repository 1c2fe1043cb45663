-- ===== src/Memory/Set/Unmap/After.antt =====
-- The third step of `unmap`: the area that starts in the range and reaches out of it.
use axmm_crates.Base.{
  ℕ, ◌-◌, ◌≤◌, ◌<◌, ◌≡◌, refl, sym, subst, inl, inr, false, Option, none, [], ◌∷◌, ◌++◌, arith,
  lt-cases, ret,
}
use axmm_crates.Base.Word.{usize_mod}
use axmm_crates.Addr.MemoryAddr.{usize_addr}
use axmm_crates.Memory.Errors.{done}
use axmm_crates.Memory.Backend.{MappingBackend}
use axmm_crates.Memory.Backend.Laws.{between, Sets, IsLawful}
use axmm_crates.Memory.Area.{MemoryArea, start, end, shrink_left}
use axmm_crates.Memory.Area.Laws.{IsPart, shrink_left_lem}
use axmm_crates.Memory.Set.{MemorySet}
use axmm_crates.Memory.Set.Change.{shrink_after}
use axmm_crates.Memory.Set.Chain.{Chain, Chain-le, Chain-widen, range_from-append}
use axmm_crates.Memory.Set.View.{view}
use axmm_crates.Memory.Set.Unmap.Move.{range_from-reaching, insert-moved, Chain-moved, view-moved}
use axmm_crates.Memory.Set.Unmap.Cut.{AllReach, Agrees, mapped_at}

module _ {B : MappingBackend} (entry : B.PageTable → ℕ → Option B.Flags) (first last : ℕ) where
  -- The set has nothing in the range.
  pub record Trimmed (hi : ℕ) (s : MemorySet B) (pt : B.PageTable) : Type 0 where
    pub low : MemorySet B
    pub high : MemorySet B
    pub table : B.PageTable
    pub returns : shrink_after first last s pt ≡ ret (done, low ++ high, table)
    pub chain_low : Chain 0 low first
    pub chain_high : Chain last high hi
    pub agrees : Agrees entry table (low ++ high)
    pub same_outside : (x : ℕ) → between first last x ≡ false → view (low ++ high) x ≡ view s x

module _ {B : MappingBackend} (entry : B.PageTable → ℕ → Option B.Flags) (L : IsLawful B entry)
    (first last hi : ℕ) (order : first < last) (le_hi : last ≤ hi) (word : hi < usize_mod)
    (low : MemorySet B) (chain_low : Chain 0 low first) where
  module _ (a : MemoryArea B) (rest : MemorySet B) (pt : B.PageTable)
      (chain : Chain first ((start a, a) ∷ rest) hi)
      (agrees : Agrees entry pt (low ++ ((start a, a) ∷ rest))) where
    trim_untouched : last ≤ start a → Trimmed entry first last hi (low ++ ((start a, a) ∷ rest)) pt
    unfolding shrink_after
    trim_untouched h = record {
      low = low;
      high = (start a, a) ∷ rest;
      table = pt;
      returns = ground (arith, range_from-reaching first last hi low chain_low a rest chain);
      chain_low = chain_low;
      chain_high = (h, refl, chain.2, chain.3);
      agrees = agrees;
      same_outside = λ x out. refl;
    }

    module _ (h : start a < last) (reach : last < end a) (a' : MemoryArea B) (pt' : B.PageTable)
        (part : IsPart a last (end a) a') (sets : Sets B entry (start a) last none pt pt') where
      trim_of_shrink :
          shrink_left (end a - last) a pt ≡ ret (done, a', pt')
          → Trimmed entry first last hi (low ++ ((start a, a) ∷ rest)) pt
      unfolding shrink_after
      trim_of_shrink shrunk =
          let moved = view-moved first last hi low chain_low a rest chain order reach a' part h in
          record {
            low = low;
            high = (last, a') ∷ rest;
            table = pt';
            returns = ground (
              arith,
              range_from-reaching first last hi low chain_low a rest chain,
              shrunk,
              insert-moved first last hi low chain_low a rest chain order reach a' part,
              part.part_start,
            );
            chain_low = chain_low;
            chain_high = Chain-moved first last hi low chain_low a rest chain order reach a' part;
            agrees = λ x. ground (arith, agrees x, sets x, moved x);
            same_outside = λ x out. ground (arith, moved x);
          }

    trim_shrunk :
        start a < last
        → last < end a
        → Trimmed entry first last hi (low ++ ((start a, a) ∷ rest)) pt
    trim_shrunk h reach =
        let (a', pt', shrunk, part, sets) =
          shrink_left_lem entry L (end a - last) last a pt
            (record { nonempty = chain.2; fits = omega (arith, Chain-le (end a) hi rest chain.3) })
            (omega arith) (omega arith) h
            (λ x p q.
              mapped_at entry hi low a rest pt
                (Chain-widen 0 first 0 (start a) low (omega arith) chain.0 chain_low) agrees x p
                (omega arith)) in
        trim_of_shrink h reach a' pt' part sets shrunk

  -- On a set that is cut at the start of the range and agrees with the page table the step returns,
  -- and leaves nothing in the range.
  pub shrink_after_lem :
      (high : MemorySet B) (pt : B.PageTable)
      → Chain first high hi
      → Agrees entry pt (low ++ high)
      → AllReach first last high
      → Trimmed entry first last hi (low ++ high) pt
  unfolding shrink_after
  shrink_after_lem [] pt c agrees reach = record {
    low = low;
    high = [];
    table = pt;
    returns = ground (arith, range_from-append 0 first hi low [] chain_low c);
    chain_low = chain_low;
    chain_high = le_hi;
    agrees = agrees;
    same_outside = λ x out. refl;
  }
  shrink_after_lem ((k, a) ∷ rest) pt c agrees reach =
      let chain : Chain first ((start a, a) ∷ rest) hi = (omega arith, refl, omega arith, c.3) in
      let agrees' = subst (λ j. Agrees entry pt (low ++ ((j, a) ∷ rest))) c.1 agrees in
      subst (λ j. Trimmed entry first last hi (low ++ ((j, a) ∷ rest)) pt) (sym c.1)
        (elim (lt-cases (start a) last) [
          | inl inner ↦ trim_shrunk a rest pt chain agrees' inner reach.0
          | inr outer ↦ trim_untouched a rest pt chain agrees' outer
        ])
