-- ===== src/Memory/Set/Safety/Protect.antt =====
-- `protect` where the backend may do anything: its results are not read.
use axmm_crates.Base.{ℕ, ◌+◌, ◌≤◌, ◌<◌, ◌≡◌, ◌⊎◌, inl, inr, Option, none, [], arith, lt-cases, ret}
use axmm_crates.Base.Word.{usize_mod, IsUsize}
use axmm_crates.Addr.MemoryAddr
use axmm_crates.Addr.MemoryAddr.{usize_addr}
use axmm_crates.Memory.Errors.{done, err, invalid_param}
use axmm_crates.Memory.Backend.{MappingBackend}
use axmm_crates.Memory.Backend.Laws.{inside}
use axmm_crates.Memory.Set.{MemorySet}
use axmm_crates.Memory.Set.Protect.{protect}
use axmm_crates.Memory.Set.Protect.Loop.{Looped, protect_areas_lem, updated}
use axmm_crates.Memory.Set.Chain.{IsValid, top}
use axmm_crates.Memory.Set.View.{view}

module _ {B : MappingBackend} (update_flags : B.Flags → Option B.Flags) (first n : ℕ)
    (s : MemorySet B) (pt : B.PageTable) where
  -- The set after the call.
  pub record Updates : Type 0 where
    pub areas : MemorySet B
    pub table : B.PageTable
    pub returns : protect first n update_flags s pt ≡ ret (done, areas, table)
    pub valid : IsValid areas
    pub updates : (x : ℕ) → view areas x ≡ updated update_flags (inside first n x) (view s x)

  no_entry : B.PageTable → ℕ → Option B.Flags
  no_entry table x = none

  updates_range :
      IsUsize (first + n) → Looped ⊥ no_entry first (first + n) update_flags 0 top s pt → Updates
  unfolding protect MemoryAddr.checked_add
  updates_range fits l = record {
    areas = l.merged;
    table = l.table;
    returns = ground (arith, l.returns, l.placed [] (omega arith));
    valid = l.chain;
    updates = λ x. l.flags x;
  }

  pub protect_invalid :
      usize_mod ≤ first + n → protect first n update_flags s pt ≡ ret (err invalid_param, s, pt)
  unfolding protect MemoryAddr.checked_add
  protect_invalid past = ground arith

  -- Over any backend, `protect` of a range that is not empty, on a valid set, never panics. It reports
  -- `InvalidParam` exactly on a range that ends past a word, and nothing changes. On any other it
  -- succeeds, and the set is valid: it has the same addresses, and those in the range have the flags that
  -- `update_flags` makes of the old ones, where it makes any.
  pub protect_any :
      0 < n
      → IsValid s
      → (IsUsize (first + n) × Updates)
        ⊎ ((usize_mod ≤ first + n)
            × (protect first n update_flags s pt ≡ ret (err invalid_param, s, pt)))
  protect_any pos valid = elim (lt-cases (first + n) usize_mod) [
    | inr past ↦ inr (past, protect_invalid past)
    | inl fits ↦ inl (
      fits,
      updates_range fits (
          protect_areas_lem ⊥ no_entry first (first + n) update_flags (λ w. absurd w) top
            (omega arith) (omega arith) 0 s pt valid (λ w. absurd w)),
    )
  ]
