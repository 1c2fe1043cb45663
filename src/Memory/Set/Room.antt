-- ===== src/Memory/Set/Room.antt =====
-- The place of an area in a valid set that has none of its addresses, and what `insert_new` makes of it.
use mathlib.Core.List.{append_assoc}
use axmm_crates.Base.{
  ℕ, suc, ◌≤◌, ◌<◌, ◌≡◌, refl, sym, ap, ◌∙◌, inl, inr, max, none, some, [], ◌∷◌, ◌++◌, arith,
  lt-cases, if◌then◌else◌, ret,
}
use axmm_crates.Base.Word.{IsUsize}
use axmm_crates.Base.BTreeMap.{get, insert}
use axmm_crates.Addr.MemoryAddr.{usize_addr}
use axmm_crates.Memory.Backend.{MappingBackend}
use axmm_crates.Memory.Backend.Laws.{between}
use axmm_crates.Memory.Area.{MemoryArea, start, end}
use axmm_crates.Memory.Set.{MemorySet}
use axmm_crates.Memory.Set.Change.{insert_new, delete}
use axmm_crates.Memory.Set.Chain.{
  Chain, Chain-append, Chain-widen, Located, locate, IsValid, top, insert-append, get-append,
  remove-append,
}
use axmm_crates.Memory.Set.View.{view, view-cons, view-append, view-below, view-above}

module _ {B : MappingBackend} where
  -- The set has no area with an address of `a`.
  abbrev pub Spares : MemorySet B → MemoryArea B → Type 0
  Spares s a = (x : ℕ) → start a ≤ x → x < end a → view s x ≡ none

  -- What `insert_new` makes of a set that spares the area.
  pub record Inserted (a : MemoryArea B) (s : MemorySet B) : Type 0 where
    pub areas : MemorySet B
    pub returns : insert_new a s ≡ ret areas
    pub valid : IsValid areas
    pub adds :
        (x : ℕ) → view areas x ≡ (if between (start a) (end a) x then some a.flags else view s x)
    pub undone : delete (start a) areas ≡ s

  pub Chain-free :
      (lo mid hi : ℕ) (t : MemorySet B)
      → Chain lo t hi
      → mid ≤ hi
      → ((x : ℕ) → lo ≤ x → x < mid → view t x ≡ none)
      → Chain mid t hi
  unfolding view
  Chain-free lo mid hi [] c h free = h
  Chain-free lo mid hi ((k, b) ∷ t) c h free = elim (lt-cases k mid) [
    | inl inside ↦ absurd (ground (arith, free k c.0 inside))
    | inr past ↦ (past, c.1, c.2, c.3)
  ]

  module _ (a : MemoryArea B) (nonempty : start a < end a) where
    Inserted-between :
        (s below above : MemorySet B)
        → s ≡ below ++ above
        → Chain 0 below (start a)
        → Chain (end a) above top
        → Inserted a s
    unfolding insert_new delete
    Inserted-between s below above e c d =
        let d' = Chain-widen (end a) top (suc (start a)) top above (omega arith) (omega arith) d in
        record {
          areas = below ++ ((start a, a) ∷ above);
          returns = ground (
            arith,
            ap (get (start a)) e ∙ get-append 0 (start a) top below above c d',
            ap (insert (start a) a) e ∙ insert-append 0 (start a) top a below above c d',
          );
          valid =
              Chain-append 0 (start a) top below ((start a, a) ∷ above) c
                (omega arith, refl, nonempty, d);
          adds = λ x. ground (
            arith,
            ap (λ t. view t x) e ∙ view-append below above x,
            view-append below ((start a, a) ∷ above) x,
            view-cons (start a) a above x,
            view-above 0 (start a) below x c,
            view-below (end a) top above x d,
          );
          undone = remove-append 0 (start a) a below above c ∙ sym e;
        }

    module _ (s : MemorySet B) (l : Located (start a) 0 top s) (fits : IsUsize (end a))
        (spares : Spares s a) where
      view-shape :
          (x : ℕ)
          → start l.area ≤ x
          → view s x
            ≡ (if between (start l.area) (end l.area) x then some l.area.flags else view l.rest x)
      view-shape x h = ground (
        arith,
        ap (λ t. view t x) l.shape ∙ view-append l.init ((start l.area, l.area) ∷ l.rest) x,
        view-cons (start l.area) l.area l.rest x,
        view-above 0 (start l.area) l.init x l.chain_init h,
      )

      ends_before : end l.area ≤ start a
      ends_before = ground (
        arith,
        spares (start a) (omega arith) nonempty,
        view-shape (start a) (omega (arith, l.starts_below)),
        l.starts_below,
      )

      Inserted-after : Inserted a s
      Inserted-after =
          let rest_chain =
            Chain-widen (max (start a) (end l.area)) top (start a) top l.rest (omega arith)
              (omega arith) l.chain_rest in
          Inserted-between s (l.init ++ ((start l.area, l.area) ∷ [])) l.rest
            (l.shape ∙ sym (append_assoc l.init ((start l.area, l.area) ∷ []) l.rest))
            (Chain-append 0 (start l.area) (start a) l.init _ l.chain_init
              (omega arith, refl, l.nonempty, ends_before))
            (Chain-free (start a) (end a) top l.rest rest_chain (omega arith) λ x p q.
              ground
                (arith, spares x p q, view-shape x (omega (arith, l.starts_below)), ends_before))

    -- The area has a place in a valid set that spares it.
    pub insert_new_lem : (s : MemorySet B) → IsUsize (end a) → IsValid s → Spares s a → Inserted a s
    insert_new_lem s fits valid spares = elim (locate (start a) 0 top s (omega arith) valid) [
      | inl u ↦ Inserted-between s [] s refl (omega arith) (
          Chain-free (start a) (end a) top s
            (Chain-widen (max (start a) 0) top (start a) top s (omega arith) (omega arith) u.chain)
            (omega arith) spares)
      | inr l ↦ Inserted-after s l fits spares
    ]
