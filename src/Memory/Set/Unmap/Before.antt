-- ===== src/Memory/Set/Unmap/Before.antt =====
-- The second step of `unmap`: the area that starts below the range and reaches into it.
use mathlib.Core.List.{append_assoc}
use axmm_crates.Base.{
  ℕ, ◌-◌, ◌≤◌, ◌<◌, ◌≡◌, refl, ◌∙◌, inl, inr, max, Option, none, some, [], ◌∷◌, ◌++◌, arith, sym,
  subst, lt-cases, ret,
}
use axmm_crates.Base.Word.{usize_mod}
use axmm_crates.Addr.MemoryAddr.{usize_addr}
use axmm_crates.Memory.Errors.{done}
use axmm_crates.Memory.Backend.{MappingBackend}
use axmm_crates.Memory.Backend.Laws.{MappedIn, Sets, IsLawful}
use axmm_crates.Memory.Area.{MemoryArea, start, end, split, shrink_right}
use axmm_crates.Memory.Area.Laws.{IsValid, IsPart, IsPart-trans, split_inside, shrink_right_lem}
use axmm_crates.Memory.Set.{MemorySet}
use axmm_crates.Memory.Set.Change.{shrink_before}
use axmm_crates.Memory.Set.Chain.{Chain, Chain-widen, Chain-append, Unlocated, locate}
use axmm_crates.Memory.Set.Unmap.Retain.{NoneIn}
use axmm_crates.Memory.Set.Unmap.Place.{
  Place, place, below, insert-place, Chain-below, view-shrunk, insert-right, view-split,
  Chain-right,
}
use axmm_crates.Memory.Set.Unmap.Cut.{NoneIn-AllReach, Agrees, mapped_at, Cut}

module _ {B : MappingBackend} (entry : B.PageTable → ℕ → Option B.Flags) (L : IsLawful B entry)
    (first last hi : ℕ) (order : first < last) (le_hi : last ≤ hi) (word : hi < usize_mod)
    (s : MemorySet B) (pt : B.PageTable) (agrees : Agrees entry pt s) where
  Cut-Unlocated : NoneIn first last s → Unlocated first 0 hi s → Cut entry first last hi s pt
  unfolding shrink_before
  Cut-Unlocated none_in u = record {
    below = [];
    above = s;
    table = pt;
    returns = ground (arith, u.no_last);
    chain_below = omega arith;
    chain_above = Chain-widen (max first 0) hi first hi s (omega arith) (omega arith) u.chain;
    agrees = agrees;
    same_outside = λ x h. refl;
    reach = NoneIn-AllReach first last (max first 0) hi s (omega arith) u.chain none_in;
  }

  module _ (p : Place first last hi s) where
    Cut-untouched : end p.l.area ≤ first → Cut entry first last hi s pt
    unfolding shrink_before
    Cut-untouched h =
        let here : MemorySet B = (start p.l.area, p.l.area) ∷ [] in
        let e : (p.l.init ++ here) ++ p.l.rest ≡ s =
          append_assoc p.l.init here p.l.rest ∙ sym p.l.shape in
        record {
          below = p.l.init ++ here;
          above = p.l.rest;
          table = pt;
          returns = rw e (ground (arith, p.l.is_last));
          chain_below =
              Chain-append 0 (start p.l.area) first p.l.init here p.l.chain_init
                (omega (arith, p.l.nonempty));
          chain_above = p.rest_chain first (omega arith);
          agrees = rw e agrees;
          same_outside = λ x k. rw e;
          reach = p.rest_reach;
        }

    area_mapped : MappedIn B entry (start p.l.area) (end p.l.area) pt
    area_mapped =
        mapped_at entry hi p.l.init p.l.area p.l.rest pt p.l.chain_init (rw p.l.shape at agrees)

    Cut-shrunk : first < end p.l.area → end p.l.area ≤ last → Cut entry first last hi s pt
    unfolding shrink_before
    Cut-shrunk h k =
        let a = p.l.area in
        let (a', pt', shrunk, part, sets) =
          shrink_right_lem entry L (first - start a) first a pt p.valid
            (omega (arith, p.l.starts_below)) (omega (arith, p.l.starts_below)) h
            (λ x q r. area_mapped x (omega (arith, p.l.starts_below)) r) in
        record {
          below = below p a';
          above = p.l.rest;
          table = pt';
          returns = ground (arith, p.l.is_last, shrunk, insert-place p a', p.l.starts_below);
          chain_below = Chain-below p a' part;
          chain_above = p.rest_chain first (omega arith);
          agrees = λ x. ground (arith, agrees x, sets x, view-shrunk p a' part h x);
          same_outside = λ x out. ground (arith, view-shrunk p a' part h x);
          reach = p.rest_reach;
        }

    module _ (h : last < end p.l.area) (right left a' : MemoryArea B) (pt' : B.PageTable)
        (right_part : IsPart p.l.area last (end p.l.area) right)
        (part : IsPart p.l.area (start p.l.area) first a')
        (sets : Sets B entry first last none pt pt') where
      split_returns :
          split last p.l.area ≡ ret (some right, left)
          → shrink_right (first - start p.l.area) left pt ≡ ret (done, a', pt')
          → shrink_before first last s pt
            ≡ ret (done, below p a' ++ ((last, right) ∷ p.l.rest), pt')
      unfolding shrink_before
      split_returns split_eq shrunk = ground (
        arith,
        p.l.is_last,
        p.l.starts_below,
        split_eq,
        shrunk,
        insert-place p a',
        insert-right p a' part order h right right_part,
        right_part.part_start,
      )

      Cut-of_split :
          split last p.l.area ≡ ret (some right, left)
          → shrink_right (first - start p.l.area) left pt ≡ ret (done, a', pt')
          → Cut entry first last hi s pt
      Cut-of_split split_eq shrunk =
          let parts = view-split p a' part order h right right_part in
          record {
            below = below p a';
            above = (last, right) ∷ p.l.rest;
            table = pt';
            returns = split_returns split_eq shrunk;
            chain_below = Chain-below p a' part;
            chain_above = Chain-right p a' part order h right right_part;
            agrees = λ x. ground (arith, agrees x, sets x, parts x);
            same_outside = λ x out. ground (arith, parts x);
            reach = (omega (arith, right_part.part_end), p.rest_reach);
          }

    Cut-split : last < end p.l.area → Cut entry first last hi s pt
    Cut-split h =
        let a = p.l.area in
        let (right, left, split_eq, right_part, left_part) =
          split_inside last a p.valid (omega (arith, p.l.starts_below)) h in
        let left_valid : IsValid left = record {
          nonempty = omega (arith, left_part.part_start, left_part.part_end, p.l.starts_below);
          fits = omega (arith, left_part.part_end);
        } in
        let (a', pt', shrunk, part, sets) =
          shrink_right_lem entry L (first - start a) first left pt left_valid
            (omega (arith, p.l.starts_below))
            (omega (arith, p.l.starts_below, left_part.part_start))
            (omega (arith, left_part.part_end))
            (λ x q r.
              area_mapped x (omega (arith, p.l.starts_below))
                (omega (arith, left_part.part_end))) in
        Cut-of_split h right left a' pt' right_part (IsPart-trans left_part part)
          (subst (λ e. Sets B entry first e none pt pt') left_part.part_end sets) split_eq shrunk

  -- On a set that agrees with the page table, and has no area in the range, the step returns and
  -- cuts the set.
  pub shrink_before_lem : NoneIn first last s → Chain 0 s hi → Cut entry first last hi s pt
  shrink_before_lem none_in c = elim (locate first 0 hi s (omega arith) c) [
    | inl u ↦ Cut-Unlocated none_in u
    | inr l ↦
        let p = place first last hi s word none_in l in
        elim (lt-cases first (end p.l.area)) [
          | inr clear ↦ Cut-untouched p clear
          | inl reaches ↦ elim (lt-cases last (end p.l.area)) [
            | inl beyond ↦ Cut-split p beyond
            | inr within ↦ Cut-shrunk p reaches within
          ]
        ]
  ]
