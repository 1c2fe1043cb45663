-- ===== src/Memory/Set/View.antt =====
-- What a `MemorySet` says of each address: the flags of the area that has it, if one does. Here a
-- set is read by its list, with no use of its order.
use axmm_crates.Base.{
  ℕ, ◌≤◌, ◌<◌, ◌≡◌, refl, Option, none, some, [], ◌∷◌, ◌++◌, arith, if◌then◌else◌, or_else,
}
use axmm_crates.Memory.Backend.{MappingBackend}
use axmm_crates.Memory.Backend.Laws.{between}
use axmm_crates.Memory.Area.{MemoryArea, start, end}
use axmm_crates.Memory.Set.{MemorySet}
use axmm_crates.Memory.Set.Chain.{Chain, Chain-le}

module _ {B : MappingBackend} where
  unfoldable pub view : MemorySet B → ℕ → Option B.Flags
  view [] x = none
  view ((k, a) ∷ s) x = if between (start a) (end a) x then some a.flags else view s x

  pub view-cons :
      (k : ℕ) (a : MemoryArea B) (s : MemorySet B) (x : ℕ)
      → view ((k, a) ∷ s) x ≡ (if between (start a) (end a) x then some a.flags else view s x)
  unfolding view
  view-cons k a s x = refl

  pub view-append : (s t : MemorySet B) (x : ℕ) → view (s ++ t) x ≡ or_else (view s x) (view t x)
  unfolding view
  view-append [] t x = refl
  view-append ((k, a) ∷ s) t x = ground (arith, view-append s t x)

  pub view-below : (lo hi : ℕ) (s : MemorySet B) (x : ℕ) → Chain lo s hi → x < lo → view s x ≡ none
  unfolding view
  view-below lo hi [] x c h = refl
  view-below lo hi ((k, a) ∷ s) x c h = ground (arith, view-below (end a) hi s x c.3 (omega arith))

  pub view-above : (lo hi : ℕ) (s : MemorySet B) (x : ℕ) → Chain lo s hi → hi ≤ x → view s x ≡ none
  unfolding view
  view-above lo hi [] x c h = refl
  view-above lo hi ((k, a) ∷ s) x c h =
      ground (arith, Chain-le (end a) hi s c.3, view-above (end a) hi s x c.3 h)
