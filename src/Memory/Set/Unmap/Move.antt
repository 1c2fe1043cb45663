-- ===== src/Memory/Set/Unmap/Move.antt =====
-- The area that starts in a range and reaches out of it, moved to the end of the range.
use axmm_crates.Base.{ℕ, suc, ◌<◌, ◌≡◌, ap, sym, ◌∙◌, none, ◌∷◌, ◌++◌, arith, if◌then◌else◌}
use axmm_crates.Base.BTreeMap.{insert, remove, range_from}
use axmm_crates.Memory.Backend.{MappingBackend}
use axmm_crates.Memory.Backend.Laws.{between}
use axmm_crates.Memory.Area.{MemoryArea, start, end}
use axmm_crates.Memory.Area.Laws.{IsPart}
use axmm_crates.Memory.Set.{MemorySet}
use axmm_crates.Memory.Set.Chain.{
  Chain, Chain-append, Chain-widen, range_from-append, remove-append, insert-append,
}
use axmm_crates.Memory.Set.View.{view, view-cons, view-append, view-below, view-above}

module _ {B : MappingBackend} (first last hi : ℕ) (low : MemorySet B)
    (chain_low : Chain 0 low first) (a : MemoryArea B) (rest : MemorySet B)
    (chain : Chain first ((start a, a) ∷ rest) hi) where
  pub range_from-reaching : range_from first (low ++ ((start a, a) ∷ rest)) ≡ (start a, a) ∷ rest
  range_from-reaching = range_from-append 0 first hi low ((start a, a) ∷ rest) chain_low chain

  pub remove-reaching : remove (start a) (low ++ ((start a, a) ∷ rest)) ≡ low ++ rest
  remove-reaching =
      remove-append 0 (start a) a low rest
        (Chain-widen 0 first 0 (start a) low (omega arith) chain.0 chain_low)

  -- Without the area.
  pub Chain-removed : Chain 0 (low ++ rest) hi
  Chain-removed =
      Chain-append 0 first hi low rest chain_low
        (Chain-widen (end a) hi first hi rest (omega arith) (omega arith) chain.3)

  pub view-removed :
      (x : ℕ)
      → view (low ++ rest) x
        ≡ (if between (start a) (end a) x then none else view (low ++ ((start a, a) ∷ rest)) x)
  view-removed x = ground (
    arith,
    chain,
    view-append low rest x,
    view-append low ((start a, a) ∷ rest) x,
    view-cons (start a) a rest x,
    view-above 0 first low x chain_low,
    view-below (end a) hi rest x chain.3,
  )

  module _ (order : first < last) (reach : last < end a) (a' : MemoryArea B)
      (part : IsPart a last (end a) a') where
    pub insert-moved :
        insert last a' (remove (start a) (low ++ ((start a, a) ∷ rest)))
        ≡ low ++ ((last, a') ∷ rest)
    insert-moved =
        ap (insert last a') remove-reaching
        ∙ insert-append 0 last hi a' low rest
            (Chain-widen 0 first 0 last low (omega arith) (omega arith) chain_low)
            (Chain-widen (end a) hi (suc last) hi rest reach (omega arith) chain.3)

    pub Chain-moved : Chain last ((last, a') ∷ rest) hi
    Chain-moved = (
      omega arith,
      sym part.part_start,
      omega (arith, part.part_end),
      Chain-widen (end a) hi (end a') hi rest (omega (arith, part.part_end)) (omega arith) chain.3,
    )

    pub view-moved :
        start a < last
        → (x : ℕ)
        → view (low ++ ((last, a') ∷ rest)) x
          ≡ (if between (start a) last x then none else view (low ++ ((start a, a) ∷ rest)) x)
    view-moved h x = ground (
      arith,
      part,
      chain,
      view-append low ((last, a') ∷ rest) x,
      view-append low ((start a, a) ∷ rest) x,
      view-cons last a' rest x,
      view-cons (start a) a rest x,
      view-above 0 first low x chain_low,
      view-below (end a) hi rest x chain.3,
    )
