-- ===== src/Memory/Set/Calls/Steps.antt =====
-- The sets that calls lead to from an empty one, over a backend of which nothing is known and with a
-- page table that others may change between two calls.
use axmm_crates.Base.{ℕ, ◌≡◌, inl, inr, subst, arith, ret, Build}
use axmm_crates.Memory.Errors.{MappingResult}
use axmm_crates.Memory.Backend.{MappingBackend}
use axmm_crates.Memory.Area.{MemoryArea, start}
use axmm_crates.Memory.Set.{MemorySet, new}
use axmm_crates.Memory.Set.Chain.{IsValid}
use axmm_crates.Memory.Set.Calls.{Op, IsProper, apply}
use axmm_crates.Memory.Set.Safety.Adjust.{IsFit, adjust_area_any}
use axmm_crates.Memory.Set.Protect.{adjust_area}
use axmm_crates.Memory.Set.Calls.Returns.{Applies, applies}

module _ (B : MappingBackend) (Q : Op B → Type 0) where
  -- The calls of `Op` are those of which `Q` holds.
  pub data Step : MemorySet B × B.PageTable → MemorySet B × B.PageTable → Type 0 where
    call :
        {s s' : MemorySet B} {pt pt' : B.PageTable} {result : MappingResult (Unit {0})}
        → (op : Op B) → Q op
        → apply op s pt ≡ ret (result, s', pt')
        → Step (s, pt) (s', pt')
    adjust :
        {s s' : MemorySet B} {pt pt' : B.PageTable} {result : MappingResult (Unit {0})}
        → (b : Build) (a : MemoryArea B) (last : ℕ) → IsFit b a last s pt
        → adjust_area b (start a) (start a) last s pt ≡ ret (result, s', pt')
        → Step (s, pt) (s', pt')
    others : {s : MemorySet B} {pt : B.PageTable} → (pt' : B.PageTable) → Step (s, pt) (s, pt')

  pub data Reach (x : MemorySet B × B.PageTable) : MemorySet B × B.PageTable → Type 0 where
    here : Reach x x
    next : {y z : MemorySet B × B.PageTable} → Reach x y → Step y z → Reach x z

module _ {B : MappingBackend} where
  Step-IsValid :
      {Q : Op B → Type 0} {x y : MemorySet B × B.PageTable}
      → ((op : Op B) → Q op → IsProper op)
      → Step B Q x y
      → IsValid x.0
      → IsValid y.0
  Step-IsValid proper (others pt') valid = valid
  Step-IsValid proper (call {s} {s'} {pt} {pt'} {result} op q e) valid =
      elim (applies s pt valid op (proper op q)) [
        | inl r ↦
            let same : r.areas ≡ s' = ground (arith, r.returns, e) in subst IsValid same r.valid
        | inr (panics, why) ↦ absurd (ground (arith, panics, e))
      ]
  Step-IsValid proper (adjust {s} {s'} {pt} {pt'} {result} b a last fit e) valid =
      elim (adjust_area_any b a last s pt fit valid) [
        | inl r ↦
            let same : r.areas ≡ s' = ground (arith, r.returns, e) in subst IsValid same r.valid
        | inr r ↦
            let same : r.areas ≡ s' = ground (arith, r.returns, e) in subst IsValid same r.valid
      ]

  pub Reach-IsValid :
      {Q : Op B → Type 0} {x y : MemorySet B × B.PageTable}
      → ((op : Op B) → Q op → IsProper op)
      → Reach B Q x y
      → IsValid x.0
      → IsValid y.0
  Reach-IsValid proper here valid = valid
  Reach-IsValid proper (next r st) valid = Step-IsValid proper st (Reach-IsValid proper r valid)

  -- Over any backend, a set that calls lead to from an empty one is valid, whatever errors they
  -- reported and whatever others did to the page table between them. The calls are `insert` without
  -- `unmap_overlap` and `map`, of areas that end in a word, `delete`, `unmap`, `protect` of a range that
  -- is not empty, `clear`, `insert_frame` at an address of a word, and `adjust_area` with the start of
  -- an area and a new end on a page boundary above it, up to which the set is free. The next call of
  -- any of these but the last returns a result and a valid set, or it panics and the backend refuses
  -- to unmap some range.
  pub reached_sets_IsValid :
      (pt pt' : B.PageTable) (s : MemorySet B) (op : Op B)
      → Reach B IsProper (new, pt) (s, pt')
      → IsProper op
      → IsValid s × Applies op s pt'
  reached_sets_IsValid pt pt' s op r proper =
      let valid = Reach-IsValid (λ o p. p) r (omega arith) in (valid, applies s pt' valid op proper)
