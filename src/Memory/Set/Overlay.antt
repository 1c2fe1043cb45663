-- ===== src/Memory/Set/Overlay.antt =====
-- `insert` with `unmap_overlap` set.
use axmm_crates.Base.{
  ℕ, ◌⊎◌, ◌≤◌, ◌<◌, ◌≡◌, ◌≢◌, sym, ap, ◌∙◌, true, none, some, Option-cases, inl, inr, arith, ret,
  panic,
}
use axmm_crates.Base.BTreeMap
use axmm_crates.Base.BTreeMap.{get}
use axmm_crates.Base.BTreeMap.Lookup.{get-insert, remove-insert}
use axmm_crates.Addr.MemoryAddr.{usize_addr}
use axmm_crates.Addr.AddrRange
use axmm_crates.Memory.Errors.{done}
use axmm_crates.Memory.Backend.{MappingBackend}
use axmm_crates.Memory.Area.{MemoryArea, start, end}
use axmm_crates.Memory.Set.{MemorySet}
use axmm_crates.Memory.Set.Change.{insert, insert_new, delete}
use axmm_crates.Memory.Set.Chain.{IsValid}
use axmm_crates.Memory.Set.View.{view}
use axmm_crates.Memory.Set.Insert.{Meets, delete_erases}

module _ {B : MappingBackend} (a : MemoryArea B) (s : MemorySet B) where
  overlaid :
      start a < end a
      → get (start a) s ≡ none
      → insert a true s ≡ ret (done, BTreeMap.insert (start a) a s)
  unfolding insert insert_new AddrRange.is_empty
  overlaid h e = ground (arith, e)

  taken : (b : MemoryArea B) → start a < end a → get (start a) s ≡ some b → insert a true s ≡ panic
  unfolding insert insert_new AddrRange.is_empty
  taken b h e = ground (arith, e)

  -- A valid set with the area under its start had none of its addresses before.
  overlaid-IsValid :
      get (start a) s ≡ none
      → IsValid (BTreeMap.insert (start a) a s)
      → (x : ℕ) → start a ≤ x
      → x < end a
      → view s x ≡ none
  unfolding delete
  overlaid-IsValid e valid x p q =
      let s' = BTreeMap.insert (start a) a s in
      sym (ap (λ t. view t x) (remove-insert (start a) a s e))
      ∙ (delete_erases (start a) s' valid).1 x
      ∙ ground (arith, get-insert (start a) a s)

  -- `insert` with `unmap_overlap` of an area, not empty, of whose addresses the set has some: where
  -- an area of the set has the same start it panics, and otherwise it reports success and leaves a
  -- set that is not valid. It unmaps nothing.
  pub insert_overlay :
      start a < end a
      → Meets s a
      → ((get (start a) s ≢ none) × (insert a true s ≡ panic))
        ⊎ ((areas : MemorySet B) × (insert a true s ≡ ret (done, areas)) × ¬ IsValid areas)
  insert_overlay h (x, p, q, meets) = elim (Option-cases (get (start a) s)) [
    | inl e ↦ inr (
      BTreeMap.insert (start a) a s,
      overlaid h e,
      λ valid. meets (overlaid-IsValid e valid x p q),
    )
    | inr (b, e) ↦ inl (λ e'. ground (arith, e, e'), taken b h e)
  ]
