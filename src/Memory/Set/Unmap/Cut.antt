-- ===== src/Memory/Set/Unmap/Cut.antt =====
-- A set cut at the start of a range, as the second step of `unmap` leaves it.
use axmm_crates.Base.{ℕ, ◌≤◌, ◌<◌, ◌≡◌, false, Option, [], ◌∷◌, ◌++◌, arith, ret}
use axmm_crates.Addr.MemoryAddr.{usize_addr}
use axmm_crates.Memory.Errors.{done}
use axmm_crates.Memory.Backend.{MappingBackend}
use axmm_crates.Memory.Backend.Laws.{between, MappedIn}
use axmm_crates.Memory.Area.{MemoryArea, start, end}
use axmm_crates.Memory.Set.{MemorySet}
use axmm_crates.Memory.Set.Change.{shrink_before}
use axmm_crates.Memory.Set.Chain.{Chain}
use axmm_crates.Memory.Set.View.{view, view-cons, view-append, view-above}
use axmm_crates.Memory.Set.Unmap.Retain.{NoneIn}

module _ {B : MappingBackend} (first last : ℕ) where
  -- Every area of the set ends above the range.
  abbrev pub AllReach : MemorySet B → Type 0
  AllReach [] = Unit
  AllReach ((k, a) ∷ s) = (last < end a) × AllReach s

  pub NoneIn-AllReach :
      (lo hi : ℕ) (s : MemorySet B) → first ≤ lo → Chain lo s hi → NoneIn first last s → AllReach s
  NoneIn-AllReach lo hi [] h c n = tt
  NoneIn-AllReach lo hi ((k, a) ∷ s) h c n =
      (ground (arith, n.0), NoneIn-AllReach (end a) hi s (omega arith) c.3 n.1)

  pub NoneIn-append : (s t : MemorySet B) → NoneIn first last (s ++ t) → NoneIn first last t
  NoneIn-append [] t n = n
  NoneIn-append ((k, a) ∷ s) t n = NoneIn-append s t n.1

module _ {B : MappingBackend} (entry : B.PageTable → ℕ → Option B.Flags) where
  -- The page table maps what the set says.
  abbrev pub Agrees : B.PageTable → MemorySet B → Type 0
  Agrees pt s = (x : ℕ) → entry pt x ≡ view s x

  -- An area between two parts of a set is wholly mapped.
  pub mapped_at :
      (hi : ℕ) (s : MemorySet B) (a : MemoryArea B) (t : MemorySet B) (pt : B.PageTable)
      → Chain 0 s (start a)
      → Agrees pt (s ++ ((start a, a) ∷ t))
      → MappedIn B entry (start a) (end a) pt
  mapped_at hi s a t pt c agrees x p q = ground (
    arith,
    agrees x,
    view-append s ((start a, a) ∷ t) x,
    view-cons (start a) a t x,
    view-above 0 (start a) s x c,
  )

  module _ (first last : ℕ) where
    -- The set is cut at the start of the range.
    pub record Cut (hi : ℕ) (s : MemorySet B) (pt : B.PageTable) : Type 0 where
      pub below : MemorySet B
      pub above : MemorySet B
      pub table : B.PageTable
      pub returns : shrink_before first last s pt ≡ ret (done, below ++ above, table)
      pub chain_below : Chain 0 below first
      pub chain_above : Chain first above hi
      pub agrees : Agrees table (below ++ above)
      pub same_outside : (x : ℕ) → between first last x ≡ false → view (below ++ above) x ≡ view s x
      pub reach : AllReach first last above
