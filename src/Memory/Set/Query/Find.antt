-- ===== src/Memory/Set/Query/Find.antt =====
-- `MemorySet::find` and `find_mut` look at one area. On a valid set it is the one that they look for.
use axmm_crates.Base.{
  ℕ, suc, ◌≤◌, ◌<◌, ◌≡◌, ap, ◌∙◌, ◌⊎◌, inl, inr, max, none, some, ◌∷◌, arith, lt-cases,
  if◌then◌else◌,
}
use axmm_crates.Base.Word.{usize_mod, IsUsize}
use axmm_crates.Base.BTreeMap.{get, range_through}
use axmm_crates.Addr.MemoryAddr.{usize_addr}
use axmm_crates.Addr.AddrRange
use axmm_crates.Memory.Backend.{MappingBackend}
use axmm_crates.Memory.Backend.Laws.{between}
use axmm_crates.Memory.Area.{MemoryArea, start, end}
use axmm_crates.Memory.Set.{MemorySet}
use axmm_crates.Memory.Set.Query.{find, find_mut}
use axmm_crates.Memory.Set.Chain.{
  Chain-widen, Located, Unlocated, locate, IsValid, top, get-append_at,
}
use axmm_crates.Memory.Set.View.{view, view-cons, view-append, view-below, view-above}

module _ {B : MappingBackend} (addr : ℕ) (s : MemorySet B) where
  -- What `find` and `find_mut` say of an address that an area has.
  pub record Found : Type 0 where
    pub area : MemoryArea B
    pub has : (start area ≤ addr) × (addr < end area)
    pub finds : find addr s ≡ some area
    pub finds_mut : find_mut addr s ≡ some (start area, area)
    pub stored : get (start area) s ≡ some area
    pub flags : view s addr ≡ some area.flags

  -- And of one that no area has.
  pub record NotFound : Type 0 where
    pub finds : find addr s ≡ none
    pub finds_mut : find_mut addr s ≡ none
    pub free : view s addr ≡ none

  unlocated_lem : Unlocated (suc addr) 0 usize_mod s → NotFound
  unfolding find find_mut range_through
  unlocated_lem u = record {
    finds = ground (arith, u.no_last);
    finds_mut = ground (arith, u.no_last);
    free = view-below (max (suc addr) 0) usize_mod s addr u.chain (omega arith);
  }

  view-Located :
      (l : Located (suc addr) 0 usize_mod s)
      → view s addr ≡ (if between (start l.area) (end l.area) addr then some l.area.flags else none)
  view-Located l = ground (
    arith,
    l.starts_below,
    ap (λ t. view t addr) l.shape ∙ view-append l.init ((start l.area, l.area) ∷ l.rest) addr,
    view-cons (start l.area) l.area l.rest addr,
    view-above 0 (start l.area) l.init addr l.chain_init,
    view-below (max (suc addr) (end l.area)) usize_mod l.rest addr l.chain_rest (omega arith),
  )

  located_has : (l : Located (suc addr) 0 usize_mod s) → addr < end l.area → Found
  unfolding find find_mut range_through AddrRange.contains
  located_has l h = record {
    area = l.area;
    has = (omega (arith, l.starts_below), h);
    finds = ground (arith, l.is_last, l.starts_below);
    finds_mut = ground (arith, l.is_last, l.starts_below);
    stored =
        ap (get (start l.area)) l.shape
        ∙ get-append_at 0 (start l.area) l.area l.init l.rest l.chain_init;
    flags = ground (arith, view-Located l, l.starts_below);
  }

  located_past : (l : Located (suc addr) 0 usize_mod s) → end l.area ≤ addr → NotFound
  unfolding find find_mut range_through AddrRange.contains
  located_past l h = record {
    finds = ground (arith, l.is_last);
    finds_mut = ground (arith, l.is_last);
    free = ground (arith, view-Located l);
  }

  -- On a valid set, `find` and `find_mut` return the area that has the address, under its start, if
  -- one has it, and nothing else.
  pub find_outcomes : IsUsize addr → IsValid s → Found ⊎ NotFound
  find_outcomes fits valid =
      elim (locate (suc addr) 0 usize_mod s (omega arith)
        (Chain-widen 0 top 0 usize_mod s (omega arith) (omega arith) valid)) [
          | inl u ↦ inr (unlocated_lem u)
          | inr l ↦ elim (lt-cases addr (end l.area)) [
            | inl h ↦ inl (located_has l h)
            | inr h ↦ inr (located_past l h)
          ]
        ]
