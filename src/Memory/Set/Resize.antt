-- ===== src/Memory/Set/Resize.antt =====
-- `adjust_area`: a move of the right boundary of an area, and a move of the left one.
use axmm_crates.Base.{
  ℕ, ◌-◌, ◌≤◌, ◌<◌, ◌≡◌, refl, sym, ap, subst, ◌∙◌, inl, inr, Option, none, some, ◌∷◌, arith,
  lt-cases, if◌then◌else◌, or_else, ◌%◌, ret, Build,
}
use axmm_crates.Base.Word.{IsUsize}
use axmm_crates.Base.BTreeMap.{get, insert}
use axmm_crates.Addr.MemoryAddr
use axmm_crates.Addr.MemoryAddr.{usize_addr}
use axmm_crates.Addr.MemoryAddr.Pages.{page, aligned_4k}
use axmm_crates.Memory.Errors.{done}
use axmm_crates.Memory.Backend.{MappingBackend}
use axmm_crates.Memory.Backend.Laws.{between, IsLawful}
use axmm_crates.Memory.Area.{MemoryArea, start, end}
use axmm_crates.Memory.Area.Laws
use axmm_crates.Memory.Area.Laws.{IsPart, Leaves, shrink_right_lem}
use axmm_crates.Memory.Area.Extend.{extend_right_lem}
use axmm_crates.Memory.Set.{MemorySet}
use axmm_crates.Memory.Set.Protect.{adjust_area, adjust_left, adjust_right}
use axmm_crates.Memory.Set.Chain.{
  Chain, Chain-le, Chain-append, Chain-widen, IsValid, top, insert-append_at,
}
use axmm_crates.Memory.Set.View.{view, view-append, view-above, view-below}
use axmm_crates.Memory.Set.Stored.{stored}
use axmm_crates.Memory.Set.Room.{Chain-free}
use axmm_crates.Memory.Set.Unmap.Cut.{Agrees}

module _ {B : MappingBackend} where
  -- `b` in place of `a`, with the same start.
  pub record Resized (a b : MemoryArea B) (s : MemorySet B) : Type 0 where
    pub valid : IsValid (insert (start a) b s)
    pub was : (x : ℕ) → start a ≤ x → x < end a → view s x ≡ some a.flags
    pub flags :
        (x : ℕ)
        → view (insert (start a) b s) x ≡ (
            if between (start a) (end b) x
            then some b.flags
            else if between (start a) (end a) x
            then none
            else view s x)

  pub resize :
      (a b : MemoryArea B) (s : MemorySet B)
      → IsValid s
      → get (start a) s ≡ some a
      → start b ≡ start a
      → start a < end b
      → end b ≤ top
      → ((x : ℕ) → end a ≤ x → x < end b → view s x ≡ none)
      → Resized a b s
  unfolding view
  resize a b s valid there same_start nonempty fits free =
      let l = stored (start a) 0 top a s valid there in
      let shape =
        ap (insert (start a) b) l.shape
        ∙ insert-append_at 0 (start a) b a l.init l.rest l.chain_init in
      let before : (x : ℕ)
          → view s x
            ≡ or_else (view l.init x)
                (if between (start a) (end a) x then some a.flags else view l.rest x) =
        λ x. ap (λ t. view t x) l.shape ∙ view-append l.init ((start a, a) ∷ l.rest) x in
      let rest_chain : Chain (end b) l.rest top = elim (lt-cases (end a) (end b)) [
        | inr less ↦ Chain-widen (end a) top (end b) top l.rest less (omega arith) l.chain_rest
        | inl more ↦ Chain-free (end a) (end b) top l.rest l.chain_rest fits λ x p q.
            ground (
              arith,
              free x p q,
              before x,
              view-above 0 (start a) l.init x l.chain_init,
              l.nonempty,
            )
      ] in
      record {
        valid = subst IsValid (sym shape) (
            Chain-append 0 (start a) top l.init ((start a, b) ∷ l.rest) l.chain_init
              (omega arith, sym same_start, nonempty, rest_chain));
        was = λ x p q. ground (arith, before x, view-above 0 (start a) l.init x l.chain_init p);
        flags = λ x. ground (
          arith,
          before x,
          ap (λ t. view t x) shape ∙ view-append l.init ((start a, b) ∷ l.rest) x,
          view-above 0 (start a) l.init x l.chain_init,
          view-below (end a) top l.rest x l.chain_rest,
          view-below (end b) top l.rest x rest_chain,
          l.nonempty,
        );
      }

module _ {B : MappingBackend} (entry : B.PageTable → ℕ → Option B.Flags) (b : Build)
    (a : MemoryArea B) (last : ℕ) (s : MemorySet B) (pt : B.PageTable) where
  -- What `adjust_area` does with the right boundary.
  pub record Adjusted : Type 0 where
    pub areas : MemorySet B
    pub table : B.PageTable
    pub returns : adjust_area b (start a) (start a) last s pt ≡ ret (done, areas, table)
    pub valid : IsValid areas
    pub agrees : Agrees entry table areas
    pub resizes :
        (x : ℕ)
        → view areas x ≡ (
            if between (start a) last x
            then some a.flags
            else if between (start a) (end a) x
            then none
            else view s x)

  -- The entries that change.
  abbrev Moves : B.PageTable → Type 0
  Moves pt' =
      (x : ℕ)
      → entry pt' x ≡ (
          if between (end a) last x
          then some a.flags
          else if between last (end a) x
          then none
          else entry pt x)

  module _ (L : IsLawful B entry) (nonempty : start a < end a) (fits : end a ≤ top)
      (order : start a < last) (within : last ≤ top) where
    right_lem :
        ((x : ℕ) → start a ≤ x → x < end a → entry pt x ≡ some a.flags)
        → ((x : ℕ) → end a ≤ x → x < last → entry pt x ≡ none)
        → Leaves (adjust_right last (start a) (end a) a pt) a (start a) last Moves
    unfolding adjust_right MemoryAddr.sub_addr
    right_lem mapped free =
        let valid : Laws.IsValid a = record { nonempty = nonempty; fits = omega arith } in
        elim (lt-cases (end a) last) [
          | inl more ↦
              let (a', pt', e, part, sets) =
                extend_right_lem entry L (last - start a) last a pt valid (omega arith) more
                  (omega arith) free in
              (a', pt', ground (arith, e), part, λ x. ground (arith, sets x))
          | inr less ↦ elim (lt-cases last (end a)) [
            | inl fewer ↦
                let (a', pt', e, part, sets) =
                  shrink_right_lem entry L (last - start a) last a pt valid (omega arith)
                    (omega arith) fewer
                    (λ x p q none_at. ground (arith, mapped x (omega arith) q, none_at)) in
                (a', pt', ground (arith, e), part, λ x. ground (arith, sets x))
            | inr same ↦ (
              a,
              pt,
              ground arith,
              record {
                part_start = refl;
                part_end = omega arith;
                same_flags = refl;
                same_backend = refl;
              },
              λ x. ground arith,
            )
          ]
        ]

    returns_lem :
        (a' : MemoryArea B) (pt' : B.PageTable)
        → get (start a) s ≡ some a
        → start a % page ≡ 0
        → last % page ≡ 0
        → adjust_right last (start a) (end a) a pt ≡ ret (done, a', pt')
        → adjust_area b (start a) (start a) last s pt ≡ ret (done, insert (start a) a' s, pt')
    unfolding adjust_area adjust_left
    returns_lem a' pt' there al al' e =
        ground (arith, there, aligned_4k b (start a) al, aligned_4k b last al', e)

    adjusted :
        IsValid s
        → Agrees entry pt s
        → get (start a) s ≡ some a
        → start a % page ≡ 0
        → last % page ≡ 0
        → ((x : ℕ) → end a ≤ x → x < last → view s x ≡ none)
        → Adjusted
    adjusted valid agrees there al al' free =
        let r0 = resize a a s valid there refl nonempty fits (λ x p q. absurd (omega arith)) in
        let (a', pt', e, part, moves) =
          right_lem (λ x p q. agrees x ∙ r0.was x p q) (λ x p q. agrees x ∙ free x p q) in
        let r =
          resize a a' s valid there part.part_start (omega (arith, part.part_end))
            (omega (arith, part.part_end)) (λ x p q. free x p (omega (arith, part.part_end))) in
        record {
          areas = insert (start a) a' s;
          table = pt';
          returns = returns_lem a' pt' there al al' e;
          valid = r.valid;
          agrees = λ x. ground (arith, moves x, agrees x, r.flags x, r0.was x, part);
          resizes = λ x. ground (arith, r.flags x, part);
        }

  -- Over a lawful backend, from a valid set that agrees with the page table, `adjust_area` of an area
  -- that starts on a page boundary, with that start and a new end above it, which is a word on a page
  -- boundary, returns without an error or a
  -- panic, provided that the set has no address between the old end and the new one. The area then
  -- has the addresses up to the new end, with its flags, those between the new end and the old one
  -- are free, and the others stay; the set is valid and agrees with the page table again.
  pub adjust_area_right :
      IsLawful B entry
      → IsValid s
      → Agrees entry pt s
      → get (start a) s ≡ some a
      → start a % page ≡ 0
      → last % page ≡ 0
      → start a < last
      → IsUsize last
      → ((x : ℕ) → end a ≤ x → x < last → view s x ≡ none)
      → Adjusted
  adjust_area_right L valid agrees there al al' order fits free =
      let l = stored (start a) 0 top a s valid there in
      adjusted L (omega (arith, l.nonempty)) (Chain-le (end a) top l.rest l.chain_rest) order
        (omega arith) valid agrees there al al' free
