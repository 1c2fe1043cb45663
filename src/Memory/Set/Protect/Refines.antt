-- ===== src/Memory/Set/Protect/Refines.antt =====
-- `protect` as a whole, against its description: it updates the flags of the mapped addresses of a
-- range, in the set and in the page table.
use axmm_crates.Base.{ℕ, ◌+◌, ◌<◌, ◌≡◌, Option, [], arith, ret}
use axmm_crates.Base.Word.{IsUsize}
use axmm_crates.Addr.MemoryAddr
use axmm_crates.Addr.MemoryAddr.{usize_addr}
use axmm_crates.Memory.Errors.{done}
use axmm_crates.Memory.Backend.{MappingBackend}
use axmm_crates.Memory.Backend.Laws.{inside, IsLawful}
use axmm_crates.Memory.Set.{MemorySet}
use axmm_crates.Memory.Set.Protect.{protect}
use axmm_crates.Memory.Set.Protect.Loop.{Looped, protect_areas_lem, updated}
use axmm_crates.Memory.Set.Chain.{IsValid, top}
use axmm_crates.Memory.Set.View.{view}
use axmm_crates.Memory.Set.Unmap.Cut.{Agrees}

module _ {B : MappingBackend} (entry : B.PageTable → ℕ → Option B.Flags)
    (update_flags : B.Flags → Option B.Flags) where
  -- What `protect` of the `n` addresses from `first` on does to a set and a page table.
  pub record Protected (first n : ℕ) (s : MemorySet B) (pt : B.PageTable) : Type 0 where
    pub areas : MemorySet B
    pub table : B.PageTable
    pub returns : protect first n update_flags s pt ≡ ret (done, areas, table)
    pub valid : IsValid areas
    pub agrees : Agrees entry table areas
    pub updates : (x : ℕ) → view areas x ≡ updated update_flags (inside first n x) (view s x)

  protected :
      (first n : ℕ) (s : MemorySet B) (pt : B.PageTable)
      → IsUsize (first + n)
      → Looped Unit entry first (first + n) update_flags 0 top s pt
      → Protected first n s pt
  unfolding protect MemoryAddr.checked_add
  protected first n s pt fits l = record {
    areas = l.merged;
    table = l.table;
    returns = ground (arith, l.returns, l.placed [] (omega arith));
    valid = l.chain;
    agrees = λ x. l.agrees tt x (omega arith);
    updates = λ x. l.flags x;
  }

  -- Over a lawful backend, from a valid set that agrees with the page table, `protect` of a range
  -- that is not empty and ends in a word returns without an error or a panic. The set is valid and
  -- agrees with the page table again. It has the same addresses as before; those in the range have
  -- the flags that `update_flags` makes of the old ones, where it makes any, and the others have the
  -- old ones.
  pub protect_refines :
      (first n : ℕ) (s : MemorySet B) (pt : B.PageTable)
      → IsLawful B entry
      → 0 < n
      → IsUsize (first + n)
      → IsValid s
      → Agrees entry pt s
      → Protected first n s pt
  protect_refines first n s pt L pos fits valid agrees = protected first n s pt fits (
      protect_areas_lem Unit entry first (first + n) update_flags (λ w. L) top (omega arith)
        (omega arith) 0 s pt valid (λ w x h. agrees x))
