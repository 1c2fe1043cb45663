-- ===== src/Memory/Set/Safety/Before.antt =====
-- The second step of `unmap`, where the backend may fail.
use mathlib.Core.List.{append_assoc}
use axmm_crates.Base.{
  ℕ, ◌-◌, ◌≤◌, ◌<◌, ◌≡◌, refl, ◌∙◌, ◌⊎◌, inl, inr, max, some, [], ◌∷◌, ◌++◌, arith, ap, sym, false,
  lt-cases, ret,
}
use axmm_crates.Base.Word.{usize_mod}
use axmm_crates.Base.BTreeMap.{insert}
use axmm_crates.Addr.MemoryAddr.{usize_addr}
use axmm_crates.Memory.Errors.{done, err, bad_state}
use axmm_crates.Memory.Backend.{MappingBackend}
use axmm_crates.Memory.Backend.Laws.{between}
use axmm_crates.Memory.Area.{MemoryArea, start, end, split, shrink_right}
use axmm_crates.Memory.Area.Laws.{IsValid, IsPart, IsPart-trans, split_inside}
use axmm_crates.Memory.Area.Tries.{Succeeds, Fails, shrink_right-Tries}
use axmm_crates.Memory.Set.{MemorySet}
use axmm_crates.Memory.Set.Change.{shrink_before}
use axmm_crates.Memory.Set.Chain.{Chain, Chain-widen, Chain-append, Unlocated, locate}
use axmm_crates.Memory.Set.View.{view}
use axmm_crates.Memory.Set.Unmap.Retain.{NoneIn}
use axmm_crates.Memory.Set.Unmap.Cut.{AllReach, NoneIn-AllReach}
use axmm_crates.Memory.Set.Unmap.Place.{
  Place, place, below, view-below_part, insert-place, Chain-below, view-shrunk, insert-right,
  view-split, Chain-right,
}
use axmm_crates.Memory.Set.Safety.Retain.{IsSub}

module _ {B : MappingBackend} (first last hi : ℕ) where
  -- The step succeeds and cuts the set.
  pub record Cuts (s : MemorySet B) (pt : B.PageTable) : Type 0 where
    pub low : MemorySet B
    pub high : MemorySet B
    pub table : B.PageTable
    pub returns : shrink_before first last s pt ≡ ret (done, low ++ high, table)
    pub chain_low : Chain 0 low first
    pub chain_high : Chain first high hi
    pub same_outside : (x : ℕ) → between first last x ≡ false → view (low ++ high) x ≡ view s x
    pub sub : IsSub (low ++ high) s
    pub reach : AllReach first last high

  -- Or it fails, and may have lost an area's part above the range.
  pub record CutFails (s : MemorySet B) (pt : B.PageTable) : Type 0 where
    pub areas : MemorySet B
    pub table : B.PageTable
    pub returns : shrink_before first last s pt ≡ ret (err bad_state, areas, table)
    pub chain : Chain 0 areas hi
    pub sub : IsSub areas s

  module _ (order : first < last) (le_hi : last ≤ hi) (word : hi < usize_mod) (s : MemorySet B)
      (pt : B.PageTable) where
    Cuts-Unlocated : NoneIn first last s → Unlocated first 0 hi s → Cuts s pt
    unfolding shrink_before
    Cuts-Unlocated none_in u = record {
      low = [];
      high = s;
      table = pt;
      returns = ground (arith, u.no_last);
      chain_low = omega arith;
      chain_high = Chain-widen (max first 0) hi first hi s (omega arith) (omega arith) u.chain;
      same_outside = λ x h. refl;
      sub = λ x. inr refl;
      reach = NoneIn-AllReach first last (max first 0) hi s (omega arith) u.chain none_in;
    }

    module _ (p : Place first last hi s) where
      Cuts-untouched : end p.l.area ≤ first → Cuts s pt
      unfolding shrink_before
      Cuts-untouched h =
          let here : MemorySet B = (start p.l.area, p.l.area) ∷ [] in
          let e : (p.l.init ++ here) ++ p.l.rest ≡ s =
            append_assoc p.l.init here p.l.rest ∙ sym p.l.shape in
          record {
            low = p.l.init ++ here;
            high = p.l.rest;
            table = pt;
            returns = rw e (ground (arith, p.l.is_last));
            chain_low =
                Chain-append 0 (start p.l.area) first p.l.init here p.l.chain_init
                  (omega (arith, p.l.nonempty));
            chain_high = p.rest_chain first (omega arith);
            same_outside = λ x k. rw e;
            sub = λ x. inr (rw e);
            reach = p.rest_reach;
          }

      -- The area is written back after a failure, whole or without its part above the range.
      failed :
          (a' : MemoryArea B) (table : B.PageTable)
          → start a' ≡ start p.l.area
          → start p.l.area < end a'
          → end a' ≤ end p.l.area
          → a'.flags ≡ p.l.area.flags
          → shrink_before first last s pt ≡ ret (err bad_state, insert (start p.l.area) a' s, table)
          → CutFails s pt
      failed a' table same_start nonempty less same_flags returns = record {
        areas = below p a' ++ p.l.rest;
        table = table;
        returns = returns ∙ ap (λ t. ret (err bad_state, t, table)) (insert-place p a');
        chain =
            Chain-append 0 (end a') hi (below p a') p.l.rest
              (Chain-append 0 (start p.l.area) (end a') p.l.init ((start p.l.area, a') ∷ [])
                p.l.chain_init (omega arith, sym same_start, nonempty, omega arith))
              (p.rest_chain (end a') (omega arith));
        sub = λ x.
            ground
              (arith, p.view_here x, view-below_part p a' p.l.rest x, p.init_none x, p.rest_none x);
      }

      shrunk : first < end p.l.area → end p.l.area ≤ last → Cuts s pt ⊎ CutFails s pt
      unfolding shrink_before
      shrunk h k =
          let a = p.l.area in
          elim (shrink_right-Tries (first - start a) first a pt p.valid
            (omega (arith, p.l.starts_below)) (omega (arith, p.l.starts_below)) h) [
              | inl t ↦ inl (record {
                low = below p t.area;
                high = p.l.rest;
                table = t.table;
                returns =
                    ground (arith, p.l.is_last, t.returns, insert-place p t.area, p.l.starts_below);
                chain_low = Chain-below p t.area t.part;
                chain_high = p.rest_chain first (omega arith);
                same_outside = λ x out. ground (arith, view-shrunk p t.area t.part h x);
                sub = λ x. ground (arith, view-shrunk p t.area t.part h x);
                reach = p.rest_reach;
              })
              | inr t ↦ inr (
                  failed a t.table refl p.l.nonempty (omega arith) refl
                    (ground (arith, p.l.is_last, t.returns, p.l.starts_below)))
            ]

      module _ (h : last < end p.l.area) (right left : MemoryArea B)
          (split_eq : split last p.l.area ≡ ret (some right, left))
          (right_part : IsPart p.l.area last (end p.l.area) right)
          (left_part : IsPart p.l.area (start p.l.area) last left) where
        split-Cuts :
            Succeeds (shrink_right (first - start p.l.area) left pt) left (start left) first
            → Cuts s pt
        unfolding shrink_before
        split-Cuts t =
            let part = IsPart-trans left_part t.part in
            let parts = view-split p t.area part order h right right_part in
            record {
              low = below p t.area;
              high = (last, right) ∷ p.l.rest;
              table = t.table;
              returns = ground (
                arith,
                p.l.is_last,
                p.l.starts_below,
                split_eq,
                t.returns,
                insert-place p t.area,
                insert-right p t.area part order h right right_part,
                right_part.part_start,
              );
              chain_low = Chain-below p t.area part;
              chain_high = Chain-right p t.area part order h right right_part;
              same_outside = λ x out. ground (arith, parts x);
              sub = λ x. ground (arith, parts x);
              reach = (omega (arith, right_part.part_end), p.rest_reach);
            }

        split-Fails : Fails (shrink_right (first - start p.l.area) left pt) left → CutFails s pt
        unfolding shrink_before
        split-Fails t =
            failed left t.table left_part.part_start
              (omega (arith, left_part.part_end, p.l.starts_below))
              (omega (arith, left_part.part_end)) left_part.same_flags
              (ground (arith, p.l.is_last, p.l.starts_below, split_eq, t.returns))

      split_any : last < end p.l.area → Cuts s pt ⊎ CutFails s pt
      split_any h =
          let a = p.l.area in
          let (right, left, split_eq, right_part, left_part) =
            split_inside last a p.valid (omega (arith, p.l.starts_below)) h in
          let left_valid : IsValid left = record {
            nonempty = omega (arith, left_part.part_start, left_part.part_end, p.l.starts_below);
            fits = omega (arith, left_part.part_end);
          } in
          elim (shrink_right-Tries (first - start a) first left pt left_valid
            (omega (arith, p.l.starts_below))
            (omega (arith, p.l.starts_below, left_part.part_start))
            (omega (arith, left_part.part_end))) [
              | inl t ↦ inl (split-Cuts h right left split_eq right_part left_part t)
              | inr t ↦ inr (split-Fails h right left split_eq right_part left_part t)
            ]

    -- On a valid set with no area in the range the step returns, and cuts the set or reports
    -- `BadState`.
    pub shrink_before_any : NoneIn first last s → Chain 0 s hi → Cuts s pt ⊎ CutFails s pt
    shrink_before_any none_in c = elim (locate first 0 hi s (omega arith) c) [
      | inl u ↦ inl (Cuts-Unlocated none_in u)
      | inr l ↦
          let p = place first last hi s word none_in l in
          elim (lt-cases first (end p.l.area)) [
            | inr clear ↦ inl (Cuts-untouched p clear)
            | inl reaches ↦ elim (lt-cases last (end p.l.area)) [
              | inl beyond ↦ split_any p beyond
              | inr within ↦ shrunk p reaches within
            ]
          ]
    ]
