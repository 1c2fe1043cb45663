-- ===== src/Memory/Set/At.antt =====
-- The area that has an address, by a search of the whole set; and a set with one area replaced by
-- another on the same range.
use axmm_crates.Base.{
  ℕ, ◌≤◌, ◌≡◌, refl, sym, subst, ap, ◌∙◌, inl, inr, true, Option, none, some, [], ◌∷◌, ◌++◌, arith,
  Bool-cases, if◌then◌else◌, or_else,
}
use axmm_crates.Base.Word.{IsUsize}
use axmm_crates.Base.BTreeMap.{get, insert}
use axmm_crates.Addr.MemoryAddr.{usize_addr}
use axmm_crates.Memory.Backend.{MappingBackend}
use axmm_crates.Memory.Backend.Laws.{between}
use axmm_crates.Memory.Area.{MemoryArea, start, end}
use axmm_crates.Memory.Set.{MemorySet}
use axmm_crates.Memory.Set.Query.{find}
use axmm_crates.Memory.Set.Query.Find.{find_outcomes}
use axmm_crates.Memory.Set.Chain.{
  Chain, Chain-le, Chain-append, Chain-widen, IsValid, top, insert-append_at,
}
use axmm_crates.Memory.Set.View.{view, view-append, view-above}
use axmm_crates.Memory.Set.Stored.{Stored, stored}

module _ {B : MappingBackend} where
  unfoldable pub area_at : MemorySet B → ℕ → Option (MemoryArea B)
  area_at [] x = none
  area_at ((k, a) ∷ s) x = if between (start a) (end a) x then some a else area_at s x

  area_at-append :
      (s t : MemorySet B) (x : ℕ) → area_at (s ++ t) x ≡ or_else (area_at s x) (area_at t x)
  unfolding area_at
  area_at-append [] t x = refl
  area_at-append ((k, a) ∷ s) t x = ground (arith, area_at-append s t x)

  -- It has the address.
  pub area_at-has :
      (s : MemorySet B) (x : ℕ) (a : MemoryArea B)
      → area_at s x ≡ some a
      → between (start a) (end a) x ≡ true
  unfolding area_at
  area_at-has [] x a h = absurd (ground (arith, h))
  area_at-has ((k, b) ∷ s) x a h = elim (Bool-cases (between (start b) (end b) x)) [
    | inl within ↦ ground (arith, within, h)
    | inr out ↦ area_at-has s x a (ground (arith, out, h))
  ]

  area_at-above :
      (lo hi : ℕ) (s : MemorySet B) (x : ℕ) → Chain lo s hi → hi ≤ x → area_at s x ≡ none
  unfolding area_at
  area_at-above lo hi [] x c h = refl
  area_at-above lo hi ((k, a) ∷ s) x c h =
      ground (arith, Chain-le (end a) hi s c.3, area_at-above (end a) hi s x c.3 h)

  area_at-none : (s : MemorySet B) (x : ℕ) → view s x ≡ none → area_at s x ≡ none
  unfolding area_at view
  area_at-none [] x h = refl
  area_at-none ((k, a) ∷ s) x h = ground (arith, area_at-none s x)

  area_at-Stored :
      (k : ℕ) (a : MemoryArea B) (s : MemorySet B) (x : ℕ)
      → (l : Stored k 0 top a s) → k ≤ x
      → area_at s x ≡ (if between (start a) (end a) x then some a else area_at l.rest x)
  unfolding area_at
  area_at-Stored k a s x l h = ground (
    arith,
    ap (λ t. area_at t x) l.shape ∙ area_at-append l.init ((k, a) ∷ l.rest) x,
    area_at-above 0 k l.init x l.chain_init h,
  )

  pub find-area_at : (x : ℕ) (s : MemorySet B) → IsUsize x → IsValid s → find x s ≡ area_at s x
  find-area_at x s fits valid = elim (find_outcomes x s fits valid) [
    | inl f ↦
        f.finds
        ∙ sym (
            ground (
              arith,
              f.has,
              area_at-Stored (start f.area) f.area s x
                  (stored (start f.area) 0 top f.area s valid f.stored) f.has.0,
            ))
    | inr f ↦ f.finds ∙ sym (area_at-none s x f.free)
  ]

  -- `b` in place of `a`, on the same range.
  pub record Replaced (a b : MemoryArea B) (s : MemorySet B) : Type 0 where
    pub valid : IsValid (insert (start a) b s)
    pub at :
        (x : ℕ)
        → area_at (insert (start a) b s) x
          ≡ (if between (start a) (end a) x then some b else area_at s x)
    pub was :
        (x : ℕ)
        → between (start a) (end a) x ≡ true
        → (area_at s x ≡ some a) × (view s x ≡ some a.flags)
    pub flags :
        (x : ℕ)
        → view (insert (start a) b s) x
          ≡ (if between (start a) (end a) x then some b.flags else view s x)

  pub replace :
      (a b : MemoryArea B) (s : MemorySet B)
      → IsValid s
      → get (start a) s ≡ some a
      → start b ≡ start a
      → end b ≡ end a
      → Replaced a b s
  unfolding area_at view
  replace a b s valid there same_start same_end =
      let l = stored (start a) 0 top a s valid there in
      let shape =
        ap (insert (start a) b) l.shape
        ∙ insert-append_at 0 (start a) b a l.init l.rest l.chain_init in
      record {
        valid = subst IsValid (sym shape) (
            Chain-append 0 (start a) top l.init ((start a, b) ∷ l.rest) l.chain_init (
              omega arith,
              sym same_start,
              omega (arith, l.nonempty),
              Chain-widen (end a) top (end b) top l.rest (omega arith) (omega arith) l.chain_rest,
            ));
        at = λ x. ground (
          arith,
          ap (λ t. area_at t x) shape ∙ area_at-append l.init ((start a, b) ∷ l.rest) x,
          ap (λ t. area_at t x) l.shape ∙ area_at-append l.init ((start a, a) ∷ l.rest) x,
          area_at-above 0 (start a) l.init x l.chain_init,
        );
        was = λ x h. (
          ground (
            arith,
            ap (λ t. area_at t x) l.shape ∙ area_at-append l.init ((start a, a) ∷ l.rest) x,
            area_at-above 0 (start a) l.init x l.chain_init,
          ),
          ground (
            arith,
            ap (λ t. view t x) l.shape ∙ view-append l.init ((start a, a) ∷ l.rest) x,
            view-above 0 (start a) l.init x l.chain_init,
          ),
        );
        flags = λ x. ground (
          arith,
          ap (λ t. view t x) shape ∙ view-append l.init ((start a, b) ∷ l.rest) x,
          ap (λ t. view t x) l.shape ∙ view-append l.init ((start a, a) ∷ l.rest) x,
          view-above 0 (start a) l.init x l.chain_init,
        );
      }
