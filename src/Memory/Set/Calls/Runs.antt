-- ===== src/Memory/Set/Calls/Runs.antt =====
-- Sequences of calls over a lawful backend, against what they promise.
use axmm_crates.Base.{ℕ, ◌≡◌, refl, sym, ◌∙◌, Option, List, [], ◌∷◌, arith, ret}
use axmm_crates.Addr.MemoryAddr.{usize_addr}
use axmm_crates.Memory.Errors.{MappingResult}
use axmm_crates.Memory.Backend.{MappingBackend}
use axmm_crates.Memory.Backend.Laws.{IsLawful}
use axmm_crates.Memory.Set.{MemorySet}
use axmm_crates.Memory.Set.Chain.{IsValid}
use axmm_crates.Memory.Set.View.{view}
use axmm_crates.Memory.Set.Unmap.Cut.{Agrees}
use axmm_crates.Memory.Set.Calls.{Op, run}
use axmm_crates.Memory.Set.Calls.Spec.{Same, ArePlain, Specs, Specs-unique}
use axmm_crates.Memory.Set.Calls.Follows.{follows}

module _ {B : MappingBackend} (entry : B.PageTable → ℕ → Option B.Flags) where
  -- A sequence of calls returns, and does what it promises.
  pub record Runs (ops : List (Op B)) (s : MemorySet B) (pt : B.PageTable) : Type 0 where
    pub results : List (MappingResult (Unit {0}))
    pub areas : MemorySet B
    pub table : B.PageTable
    pub returns : run ops s pt ≡ ret (results, areas, table)
    pub valid : IsValid areas
    pub agrees : Agrees entry table areas
    pub follows : Specs ops (view s) results (view areas)

  -- Over a lawful backend, from a valid set that agrees with the page table, every sequence of plain
  -- calls returns: `map` with no overwriting flags of an area that ends in a word, `unmap`, `protect`
  -- of a range that is not empty, `clear`, and `insert_frame` at an address of a word. The results,
  -- errors included, and the flags of each address at the end are those that `Specs` gives from the
  -- flags of each address alone; the set is valid and agrees with the page table again.
  pub run_refines :
      (ops : List (Op B)) (s : MemorySet B) (pt : B.PageTable)
      → IsLawful B entry
      → ArePlain ops
      → IsValid s
      → Agrees entry pt s
      → Runs ops s pt
  unfolding run
  run_refines [] s pt L plain valid agrees = record {
    results = [];
    areas = s;
    table = pt;
    returns = refl;
    valid = valid;
    agrees = agrees;
    follows = (refl, λ x. refl);
  }
  run_refines (op ∷ ops) s pt L (plain, others) valid agrees =
      let f = follows entry L s pt valid agrees op plain in
      let r = run_refines ops f.areas f.table L others f.valid f.agrees in
      record {
        results = f.result ∷ r.results;
        areas = r.areas;
        table = r.table;
        returns = ground (arith, f.returns, r.returns);
        valid = r.valid;
        agrees = r.agrees;
        follows = (view f.areas, f.follows, r.follows);
      }

  -- Over a lawful backend, two valid sets with the same flags at each address, however these are
  -- divided into areas, each in agreement with its page table, give the same results in a sequence of
  -- the plain calls, and have the same flags at each address at the end.
  pub run_unique :
      (ops : List (Op B)) (s t : MemorySet B) (pt qt : B.PageTable)
      (r q : List (MappingResult (Unit {0}))) (s' t' : MemorySet B) (pt' qt' : B.PageTable)
      → IsLawful B entry
      → ArePlain ops
      → IsValid s
      → IsValid t
      → Agrees entry pt s
      → Agrees entry qt t
      → Same (view s) (view t)
      → run ops s pt ≡ ret (r, s', pt')
      → run ops t qt ≡ ret (q, t', qt')
      → (r ≡ q) × Same (view s') (view t')
  run_unique ops s t pt qt r q s' t' pt' qt' L plain valid_s valid_t agrees_s agrees_t same e f =
      let x = run_refines ops s pt L plain valid_s agrees_s in
      let y = run_refines ops t qt L plain valid_t agrees_t in
      let left : ret (x.results, x.areas, x.table) ≡ ret (r, s', pt') = sym x.returns ∙ e in
      let right : ret (y.results, y.areas, y.table) ≡ ret (q, t', qt') = sym y.returns ∙ f in
      let u =
        Specs-unique ops (view s) (view t) (view x.areas) (view y.areas) x.results y.results same
          x.follows y.follows in
      (ground (arith, left, right, u.0), λ i. ground (arith, left, right, u.1 i))
