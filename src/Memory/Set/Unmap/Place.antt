-- ===== src/Memory/Set/Unmap/Place.antt =====
-- The area that starts below a range and may reach into it, in its place in a set, and the set with
-- what is left of it.
use mathlib.Core.List.{append_assoc}
use axmm_crates.Base.{
  ℕ, suc, ◌≤◌, ◌<◌, ◌≡◌, ◌∙◌, max, none, some, [], ◌∷◌, ◌++◌, arith, ap, sym, if◌then◌else◌,
  or_else,
}
use axmm_crates.Base.Word.{usize_mod}
use axmm_crates.Base.BTreeMap.{insert}
use axmm_crates.Memory.Backend.{MappingBackend}
use axmm_crates.Memory.Backend.Laws.{between}
use axmm_crates.Memory.Area.{MemoryArea, start, end}
use axmm_crates.Memory.Area.Laws.{IsValid, IsPart}
use axmm_crates.Memory.Set.{MemorySet}
use axmm_crates.Memory.Set.Chain.{
  Chain, Chain-le, Chain-widen, Chain-append, Located, insert-append, insert-append_at,
}
use axmm_crates.Memory.Set.View.{view, view-cons, view-append, view-below, view-above}
use axmm_crates.Memory.Set.Unmap.Retain.{NoneIn}
use axmm_crates.Memory.Set.Unmap.Cut.{AllReach, NoneIn-append, NoneIn-AllReach}

module _ {B : MappingBackend} where
  pub record Place (first last hi : ℕ) (s : MemorySet B) : Type 0 where
    pub l : Located first 0 hi s
    pub rest_chain : (lo : ℕ) → lo ≤ max first (end l.area) → Chain lo l.rest hi
    pub rest_reach : AllReach first last l.rest
    pub valid : IsValid l.area
    -- The view of `s` around the area.
    pub view_here :
        (x : ℕ)
        → view s x
          ≡ or_else
              (view l.init x)
              (if between (start l.area) (end l.area) x then some l.area.flags else view l.rest x)
    pub init_none : (x : ℕ) → start l.area ≤ x → view l.init x ≡ none
    pub rest_none : (x : ℕ) → x < end l.area → view l.rest x ≡ none

  -- The areas up to the one in the place, with `a'` there.
  abbrev pub below :
      {first last hi : ℕ} {s : MemorySet B} → Place first last hi s → MemoryArea B → MemorySet B
  below p a' = p.l.init ++ ((start p.l.area, a') ∷ [])

  pub place :
      (first last hi : ℕ) (s : MemorySet B)
      → hi < usize_mod
      → NoneIn first last s
      → Located first 0 hi s
      → Place first last hi s
  place first last hi s word none_in l =
      let rest_chain : (lo : ℕ) → lo ≤ max first (end l.area) → Chain lo l.rest hi =
        λ lo h. Chain-widen (max first (end l.area)) hi lo hi l.rest h (omega arith) l.chain_rest in
      record {
        l = l;
        rest_chain = rest_chain;
        rest_reach =
            NoneIn-AllReach first last (max first (end l.area)) hi l.rest (omega arith) l.chain_rest
              (NoneIn-append first last l.init ((start l.area, l.area) ∷ l.rest)
                (rw l.shape at none_in)).1;
        valid = record {
          nonempty = l.nonempty;
          fits = omega (arith, Chain-le (max first (end l.area)) hi l.rest l.chain_rest);
        };
        view_here = λ x. rw l.shape (
            view-append l.init ((start l.area, l.area) ∷ l.rest) x
            ∙ ap (or_else (view l.init x)) (view-cons (start l.area) l.area l.rest x));
        init_none = λ x h. view-above 0 (start l.area) l.init x l.chain_init h;
        rest_none =
            λ x h. view-below (end l.area) hi l.rest x (rest_chain (end l.area) (omega arith)) h;
      }

  module _ {first last hi : ℕ} {s : MemorySet B} (p : Place first last hi s)
      (a' : MemoryArea B) where
    pub view-below_part :
        (t : MemorySet B) (x : ℕ)
        → view (below p a' ++ t) x
          ≡ or_else
              (view p.l.init x)
              (if between (start a') (end a') x then some a'.flags else view t x)
    view-below_part t x = rw (append_assoc p.l.init ((start p.l.area, a') ∷ []) t) (
        view-append p.l.init ((start p.l.area, a') ∷ t) x
        ∙ ap (or_else (view p.l.init x)) (view-cons (start p.l.area) a' t x))

    -- A write at the key of the area.
    pub insert-place : insert (start p.l.area) a' s ≡ below p a' ++ p.l.rest
    insert-place =
        ap (insert (start p.l.area) a') p.l.shape
        ∙ insert-append_at 0 (start p.l.area) a' p.l.area p.l.init p.l.rest p.l.chain_init
        ∙ sym (append_assoc p.l.init ((start p.l.area, a') ∷ []) p.l.rest)

    module _ (part : IsPart p.l.area (start p.l.area) first a') where
      pub Chain-below : Chain 0 (below p a') first
      Chain-below =
          Chain-append 0 (start p.l.area) first p.l.init ((start p.l.area, a') ∷ []) p.l.chain_init
            (omega (arith, part.part_start, part.part_end, p.l.starts_below))

      -- The set with the part of the area below the range.
      pub view-shrunk :
          first < end p.l.area
          → (x : ℕ)
          → view (below p a' ++ p.l.rest) x
            ≡ (if between first (end p.l.area) x then none else view s x)
      view-shrunk h x = ground (
        arith,
        part,
        p.l.starts_below,
        p.view_here x,
        view-below_part p.l.rest x,
        p.init_none x,
        p.rest_none x,
      )

      module _ (order : first < last) (h : last < end p.l.area) (right : MemoryArea B)
          (right_part : IsPart p.l.area last (end p.l.area) right) where
        pub insert-right :
            insert last right (below p a' ++ p.l.rest) ≡ below p a' ++ ((last, right) ∷ p.l.rest)
        insert-right =
            insert-append 0 last hi right (below p a') p.l.rest
              (Chain-widen 0 first 0 last _ (omega arith) (omega arith) Chain-below)
              (p.rest_chain (suc last) (omega arith))

        -- The parts together have the addresses of the area, but for those of the range.
        pub view-split :
            (x : ℕ)
            → view (below p a' ++ ((last, right) ∷ p.l.rest)) x
              ≡ (if between first last x then none else view s x)
        view-split x = ground (
          arith,
          part,
          right_part,
          p.l.starts_below,
          p.view_here x,
          view-below_part ((last, right) ∷ p.l.rest) x,
          view-cons last right p.l.rest x,
          p.init_none x,
          p.rest_none x,
        )

        pub Chain-right : Chain first ((last, right) ∷ p.l.rest) hi
        Chain-right = (
          omega arith,
          omega (arith, right_part.part_start),
          omega (arith, right_part.part_end),
          p.rest_chain (end right) (omega (arith, right_part.part_end)),
        )
