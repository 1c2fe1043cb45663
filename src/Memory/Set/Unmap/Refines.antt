-- ===== src/Memory/Set/Unmap/Refines.antt =====
-- `unmap` as a whole, against its description: it erases the range from the map of addresses to
-- flags and from the page table, and nothing else.
use axmm_crates.Base.{
  ℕ, ◌+◌, ◌≤◌, ◌<◌, ◌≡◌, subst, inl, inr, Option, none, ◌++◌, arith, lt-cases, if◌then◌else◌, ret,
}
use axmm_crates.Base.Word.{usize_mod, IsUsize}
use axmm_crates.Addr.MemoryAddr.{usize_addr}
use axmm_crates.Addr.AddrRange.{try_from_start_size, is_empty}
use axmm_crates.Memory.Errors.{done, err, invalid_param}
use axmm_crates.Memory.Backend.{MappingBackend}
use axmm_crates.Memory.Backend.Laws.{inside, IsLawful}
use axmm_crates.Memory.Set.{MemorySet}
use axmm_crates.Memory.Set.Change.{unmap}
use axmm_crates.Memory.Set.Chain.{top, IsValid, Chain-append, Chain-widen}
use axmm_crates.Memory.Set.View.{view, view-append, view-below, view-above}
use axmm_crates.Memory.Set.Unmap.Retain.{Retained, retain_outside_lem}
use axmm_crates.Memory.Set.Unmap.Cut.{Agrees, Cut}
use axmm_crates.Memory.Set.Unmap.Before.{shrink_before_lem}
use axmm_crates.Memory.Set.Unmap.After.{Trimmed, shrink_after_lem}

module _ {B : MappingBackend} (entry : B.PageTable → ℕ → Option B.Flags) where
  -- What `unmap` of the `n` addresses from `first` on does to a set and a page table.
  pub record Unmapped (first n : ℕ) (s : MemorySet B) (pt : B.PageTable) : Type 0 where
    pub areas : MemorySet B
    pub table : B.PageTable
    pub returns : unmap first n s pt ≡ ret (done, areas, table)
    pub valid : IsValid areas
    pub agrees : Agrees entry table areas
    pub erases : (x : ℕ) → view areas x ≡ (if inside first n x then none else view s x)

  -- The end of the range does not fit a word: an error, and nothing changes.
  pub unmap_invalid :
      (first n : ℕ) (s : MemorySet B) (pt : B.PageTable)
      → usize_mod ≤ first + n
      → unmap first n s pt ≡ ret (err invalid_param, s, pt)
  unfolding unmap try_from_start_size
  unmap_invalid first n s pt h = ground arith

  unmap_empty :
      (first : ℕ) (s : MemorySet B) (pt : B.PageTable)
      → IsUsize first
      → IsValid s
      → Agrees entry pt s
      → Unmapped first 0 s pt
  unfolding unmap try_from_start_size is_empty
  unmap_empty first s pt fits valid agrees = record {
    areas = s;
    table = pt;
    returns = ground arith;
    valid = valid;
    agrees = agrees;
    erases = λ x. ground arith;
  }

  module _ (first n : ℕ) (fits : IsUsize (first + n)) (some_size : 0 < n) (s : MemorySet B)
      (pt : B.PageTable) (L : IsLawful B entry) (word : top < usize_mod) where
    steps :
        (r : Retained entry L first (first + n) top word 0 s pt)
        → (c : Cut entry first (first + n) top r.kept r.table)
        → (t : Trimmed entry first (first + n) top (c.below ++ c.above) c.table)
        → unmap first n s pt ≡ ret (done, t.low ++ t.high, t.table)
    unfolding unmap try_from_start_size is_empty
    steps r c t = ground (arith, r.returns, c.returns, t.returns)

    erases :
        (r : Retained entry L first (first + n) top word 0 s pt)
        → (c : Cut entry first (first + n) top r.kept r.table)
        → (t : Trimmed entry first (first + n) top (c.below ++ c.above) c.table) → (x : ℕ)
        → view (t.low ++ t.high) x ≡ (if inside first n x then none else view s x)
    erases r c t x = ground (
      arith,
      r.same_outside x,
      c.same_outside x,
      t.same_outside x,
      view-append t.low t.high x,
      view-above 0 first t.low x t.chain_low,
      view-below (first + n) top t.high x t.chain_high,
    )

    unmap_some : IsValid s → Agrees entry pt s → Unmapped first n s pt
    unmap_some valid agrees =
        let last = first + n in
        let order : first < last = omega arith in
        let le_top : last ≤ top = omega arith in
        let r = retain_outside_lem entry L first last top word 0 s pt valid (λ x h. agrees x) in
        let c =
          shrink_before_lem entry L first last top order le_top word r.kept r.table
            (λ x. r.agrees x (omega arith)) r.none_in r.chain in
        let t =
          shrink_after_lem entry L first last top order le_top word c.below c.chain_below c.above
            c.table c.chain_above c.agrees c.reach in
        record {
          areas = t.low ++ t.high;
          table = t.table;
          returns = steps r c t;
          valid =
              Chain-append 0 first top t.low t.high t.chain_low
                (Chain-widen last top first top t.high (omega arith) (omega arith) t.chain_high);
          agrees = t.agrees;
          erases = erases r c t;
        }

  -- Over a lawful backend, from a valid set that agrees with the page table, `unmap` of a range that
  -- ends in a word returns without an error or a panic. The set is valid and agrees with the page
  -- table again, and its view of the addresses is the old one with the range erased.
  pub unmap_refines :
      (first n : ℕ) (s : MemorySet B) (pt : B.PageTable)
      → IsLawful B entry
      → IsUsize (first + n)
      → IsValid s
      → Agrees entry pt s
      → Unmapped first n s pt
  unmap_refines first n s pt L fits valid agrees = elim (lt-cases 0 n) [
    | inl some_size ↦ unmap_some first n fits some_size s pt L (omega arith) valid agrees
    | inr no_size ↦
        let e : 0 ≡ n = omega arith in
        subst (λ k. Unmapped first k s pt) e (unmap_empty first s pt (omega arith) valid agrees)
  ]
