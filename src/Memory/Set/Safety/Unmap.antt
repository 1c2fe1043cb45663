-- ===== src/Memory/Set/Safety/Unmap.antt =====
-- `unmap` as a whole, where the backend may fail.
use axmm_crates.Base.{
  ℕ, ◌+◌, ◌≤◌, ◌<◌, ◌≡◌, ◌⊎◌, inl, inr, none, ◌++◌, arith, lt-cases, if◌then◌else◌, ret, panic,
}
use axmm_crates.Base.Word.{usize_mod, IsUsize}
use axmm_crates.Addr.MemoryAddr.{usize_addr}
use axmm_crates.Addr.AddrRange.{try_from_start_size, is_empty}
use axmm_crates.Memory.Errors.{done, err, invalid_param, bad_state}
use axmm_crates.Memory.Backend.{MappingBackend}
use axmm_crates.Memory.Backend.Laws.{inside}
use axmm_crates.Memory.Area.Tries.{Refuses}
use axmm_crates.Memory.Set.{MemorySet}
use axmm_crates.Memory.Set.Change.{unmap}
use axmm_crates.Memory.Set.Chain.{top, IsValid, Chain-append, Chain-widen}
use axmm_crates.Memory.Set.View.{view, view-append, view-below, view-above}
use axmm_crates.Memory.Set.Unmap.Refines.{unmap_invalid}
use axmm_crates.Memory.Set.Safety.Retain.{IsSub, Kept, retain_outside_any}
use axmm_crates.Memory.Set.Safety.Before.{Cuts, CutFails, shrink_before_any}
use axmm_crates.Memory.Set.Safety.After.{Trims, TrimFails, shrink_after_any}

module _ {B : MappingBackend} (first n : ℕ) (s : MemorySet B) (pt : B.PageTable) where
  -- The call succeeds, and the set is valid with the range erased.
  pub record Erases : Type 0 where
    pub areas : MemorySet B
    pub table : B.PageTable
    pub returns : unmap first n s pt ≡ ret (done, areas, table)
    pub valid : IsValid areas
    pub erases : (x : ℕ) → view areas x ≡ (if inside first n x then none else view s x)

  -- It fails, and the set is valid and has gained nothing.
  pub record Breaks : Type 0 where
    pub areas : MemorySet B
    pub table : B.PageTable
    pub returns : unmap first n s pt ≡ ret (err bad_state, areas, table)
    pub valid : IsValid areas
    pub sub : IsSub areas s

  abbrev pub UnmapsAny : Type 0
  UnmapsAny =
      Erases
      ⊎ Breaks
      ⊎ ((usize_mod ≤ first + n) × (unmap first n s pt ≡ ret (err invalid_param, s, pt)))
      ⊎ ((unmap first n s pt ≡ panic) × Refuses B)

  unmapped_none : n ≡ 0 → IsUsize (first + n) → IsValid s → Erases
  unfolding unmap try_from_start_size is_empty
  unmapped_none e fits valid = record {
    areas = s;
    table = pt;
    returns = ground arith;
    valid = valid;
    erases = λ x. ground arith;
  }

  module _ (fits : IsUsize (first + n)) (some_size : 0 < n) where
    abbrev last : ℕ
    last = first + n

    module _ (r : Kept first last top 0 s pt) where
      cut_failed : CutFails first last top r.kept r.table → Breaks
      unfolding unmap try_from_start_size is_empty
      cut_failed c = record {
        areas = c.areas;
        table = c.table;
        returns = ground (arith, r.returns, c.returns);
        valid = c.chain;
        sub = λ x. ground (arith, r.sub x, c.sub x);
      }

      module _ (c : Cuts first last top r.kept r.table) where
        trim_failed : TrimFails first last top (c.low ++ c.high) c.table → Breaks
        unfolding unmap try_from_start_size is_empty
        trim_failed t = record {
          areas = t.areas;
          table = t.table;
          returns = ground (arith, r.returns, c.returns, t.returns);
          valid = t.chain;
          sub = λ x. ground (arith, r.sub x, c.sub x, t.loses x);
        }

        trimmed : Trims first last top (c.low ++ c.high) c.table → Erases
        unfolding unmap try_from_start_size is_empty
        trimmed t = record {
          areas = t.low ++ t.high;
          table = t.table;
          returns = ground (arith, r.returns, c.returns, t.returns);
          valid =
              Chain-append 0 first top t.low t.high t.chain_low
                (Chain-widen last top first top t.high (omega arith) (omega arith) t.chain_high);
          erases = λ x. ground (
            arith,
            r.same_outside x,
            c.same_outside x,
            t.same_outside x,
            view-append t.low t.high x,
            view-above 0 first t.low x t.chain_low,
            view-below last top t.high x t.chain_high,
          );
        }

    refused : ((unmap first n s pt ≡ panic) × Refuses B) → UnmapsAny
    refused r = inr (inr (inr r))

    unmap_tries : IsValid s → UnmapsAny
    unfolding unmap try_from_start_size is_empty
    unmap_tries valid = elim (retain_outside_any first last top 0 s pt valid) [
      | inr (e, why) ↦ refused (ground (arith, e), why)
      | inl r ↦
          elim (shrink_before_any first last top (omega arith) (omega arith) (omega arith) r.kept
            r.table r.none_in r.chain) [
              | inr c ↦ inr (inl (cut_failed r c))
              | inl c ↦
                  elim (shrink_after_any first last top (omega arith) (omega arith) (omega arith)
                    c.low c.chain_low c.high c.table c.chain_high c.reach) [
                      | inr t ↦ inr (inl (trim_failed r c t))
                      | inl t ↦ inl (trimmed r c t)
                    ]
            ]
    ]

  -- Over any backend, `unmap` from a valid set has one of four ends. It succeeds, and the set is
  -- valid with the range erased. It reports `BadState`, and the set is valid and a part of the old
  -- one. It reports `InvalidParam` on a range that ends past a word, and nothing changes. Or it
  -- panics, and the backend refuses to unmap some range.
  pub unmap_any : IsValid s → UnmapsAny
  unmap_any valid = elim (lt-cases (first + n) usize_mod) [
    | inr past ↦ inr (inr (inl (past, unmap_invalid (λ pt x. none) first n s pt past)))
    | inl fits ↦ elim (lt-cases 0 n) [
      | inl some_size ↦ unmap_tries fits some_size valid
      | inr no_size ↦ inl (unmapped_none (omega arith) fits valid)
    ]
  ]
