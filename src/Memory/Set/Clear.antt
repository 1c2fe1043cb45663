-- ===== src/Memory/Set/Clear.antt =====
-- `clear`: every area is unmapped, and the set is emptied.
use axmm_crates.Base.{ℕ, ◌≤◌, ◌<◌, ◌≡◌, refl, Option, none, [], ◌∷◌, arith, lt-cases, inl, inr, ret}
use axmm_crates.Base.Word.{usize_mod}
use axmm_crates.Memory.Errors.{done}
use axmm_crates.Memory.Backend.{MappingBackend}
use axmm_crates.Memory.Backend.Laws.{IsLawful, MappedIn}
use axmm_crates.Memory.Area.{start, end}
use axmm_crates.Memory.Area.Laws.{unmap_area_lem}
use axmm_crates.Memory.Set.{MemorySet}
use axmm_crates.Memory.Set.Change.{clear, clear_areas}
use axmm_crates.Memory.Set.Chain.{Chain, Chain-le, IsValid, top}
use axmm_crates.Memory.Set.View.{view, view-below}
use axmm_crates.Memory.Set.Unmap.Retain.{AgreesFrom}
use axmm_crates.Memory.Set.Unmap.Cut.{Agrees}

module _ {B : MappingBackend} (entry : B.PageTable → ℕ → Option B.Flags) where
  record Cleared (lo : ℕ) (s : MemorySet B) (pt : B.PageTable) : Type 0 where
    areas : MemorySet B
    table : B.PageTable
    returns : clear_areas s pt ≡ ret (done, areas, table)
    erased : (x : ℕ) → lo ≤ x → entry table x ≡ none
    untouched : (x : ℕ) → x < lo → entry table x ≡ entry pt x

  module _ (L : IsLawful B entry) where
    clear_areas_lem :
        (lo hi : ℕ) (s : MemorySet B) (pt : B.PageTable)
        → hi < usize_mod
        → Chain lo s hi
        → AgreesFrom entry lo pt s
        → Cleared lo s pt
    unfolding clear_areas view
    clear_areas_lem lo hi [] pt word c agrees = record {
      areas = [];
      table = pt;
      returns = refl;
      erased = agrees;
      untouched = λ x h. refl;
    }
    clear_areas_lem lo hi ((k, a) ∷ s) pt word c agrees =
        let mapped : MappedIn B entry (start a) (end a) pt =
          λ x p q none_at. ground (arith, agrees x (omega arith), none_at) in
        let (a', pt', unmapped, part, sets) =
          unmap_area_lem entry L a pt
            (record { nonempty = omega arith; fits = omega (arith, Chain-le (end a) hi s c.3) })
            mapped in
        let rest =
          clear_areas_lem (end a) hi s pt' word c.3
            (λ x h. ground (arith, sets x, agrees x (omega arith))) in
        record {
          areas = (k, a') ∷ rest.areas;
          table = rest.table;
          returns = ground (arith, unmapped, rest.returns);
          erased = λ x h. elim (lt-cases x (end a)) [
            | inr past ↦ rest.erased x past
            | inl before ↦ ground (
              arith,
              rest.untouched x before,
              sets x,
              agrees x h,
              view-below (end a) hi s x c.3 before,
            )
          ];
          untouched = λ x h. ground (arith, rest.untouched x (omega arith), sets x);
        }

    -- From a valid set that agrees with the page table of a lawful backend, `clear` returns without an
    -- error: the set is empty, and the page table maps no address.
    pub clear_erases :
        (s : MemorySet B) (pt : B.PageTable)
        → IsValid s
        → Agrees entry pt s
        → (pt' : B.PageTable) × (clear s pt ≡ ret (done, [], pt')) × ((x : ℕ) → entry pt' x ≡ none)
    unfolding clear
    clear_erases s pt valid agrees =
        let c = clear_areas_lem 0 top s pt (omega arith) valid (λ x h. agrees x) in
        (c.table, ground (arith, c.returns), λ x. c.erased x (omega arith))
