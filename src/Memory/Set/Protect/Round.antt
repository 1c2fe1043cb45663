-- ===== src/Memory/Set/Protect/Round.antt =====
-- One round of the loop of `protect`, on an area that starts below the end of the range.
use axmm_crates.Base.{ℕ, ◌≤◌, ◌<◌, ◌≡◌, refl, inl, inr, Option, some, [], ◌∷◌, arith, lt-cases, ret}
use axmm_crates.Base.BTreeMap.{extend}
use axmm_crates.Addr.MemoryAddr.{usize_addr}
use axmm_crates.Memory.Errors.{done}
use axmm_crates.Memory.Backend.{MappingBackend}
use axmm_crates.Memory.Backend.Laws.{MappedIn, IsLawful}
use axmm_crates.Memory.Area.{MemoryArea, start, end, split, protect_area, set_flags}
use axmm_crates.Memory.Area.Laws.{
  IsValid, IsPart, split_inside, protect_area_lem, protect_area-Sets, protected_table,
}
use axmm_crates.Memory.Set.Protect.{protect_one}
use axmm_crates.Memory.Set.View.{view}
use axmm_crates.Memory.Set.Protect.Pieces.{Round, two_pieces, three_pieces}

module _ {B : MappingBackend} (P : Type 0) (entry : B.PageTable → ℕ → Option B.Flags)
    (first last : ℕ) (new_flags : B.Flags) (a : MemoryArea B) (pt : B.PageTable) where
  module _ (L : P → IsLawful B entry) (order : first < last) (starts : start a < last)
      (valid : IsValid a) (mapped : P → MappedIn B entry (start a) (end a) pt) where
    round_below : end a ≤ first → Round P entry first last new_flags a pt
    unfolding protect_one extend view
    round_below h = record {
      area = a;
      parts = [];
      table = pt;
      pieces = (start a, a) ∷ [];
      returns = ground arith;
      kept = (refl, valid.nonempty, omega arith);
      chain = (omega arith, refl, valid.nonempty, omega arith);
      placed = λ hi init t c d. refl;
      flags = λ x. ground arith;
      sets = λ w x. ground arith;
    }

    round_inside : first ≤ start a → end a ≤ last → Round P entry first last new_flags a pt
    unfolding protect_one extend view set_flags
    round_inside h k = record {
      area = set_flags new_flags a;
      parts = [];
      table = protected_table new_flags a pt;
      pieces = (start a, set_flags new_flags a) ∷ [];
      returns = ground (arith, protect_area_lem new_flags a pt, valid.nonempty);
      kept = (refl, valid.nonempty, omega arith);
      chain = (omega arith, refl, valid.nonempty, omega arith);
      placed = λ hi init t c d. refl;
      flags = λ x. ground arith;
      sets = λ w x. ground (arith, protect_area-Sets entry (L w) new_flags a pt valid (mapped w) x);
    }

    module _ (right left : MemoryArea B) (pt' : B.PageTable) where
      right_returns :
          first ≤ start a
          → last < end a
          → split last a ≡ ret (some right, left)
          → protect_area new_flags left pt ≡ ret (done, left, pt')
          → protect_one first last new_flags (start a) a pt
            ≡ ret (done, set_flags new_flags left, (start right, right) ∷ [], pt')
      unfolding protect_one
      right_returns h k split_eq protected = ground (arith, split_eq, protected)

      left_returns :
          start a < first
          → first < end a
          → end a ≤ last
          → split first a ≡ ret (some right, left)
          → protect_area new_flags right pt ≡ ret (done, right, pt')
          → protect_one first last new_flags (start a) a pt
            ≡ ret (done, left, (start right, set_flags new_flags right) ∷ [], pt')
      unfolding protect_one set_flags
      left_returns h k l split_eq protected = ground (arith, split_eq, protected)

      middle_returns :
          (rest middle : MemoryArea B)
          → start a < first
          → last < end a
          → split last a ≡ ret (some right, rest)
          → split first rest ≡ ret (some middle, left)
          → protect_area new_flags middle pt ≡ ret (done, middle, pt')
          → protect_one first last new_flags (start a) a pt
            ≡ ret (
              done,
              left,
              (start right, right) ∷ (start middle, set_flags new_flags middle) ∷ [],
              pt',
            )
      unfolding protect_one set_flags
      middle_returns rest middle h k split_eq split_eq' protected =
          ground (arith, split_eq, split_eq', protected)

    IsValid-part :
        (p : MemoryArea B) (lo hi : ℕ) → IsPart a lo hi p → lo < hi → hi ≤ end a → IsValid p
    IsValid-part p lo hi part h k = record {
      nonempty = omega (arith, part.part_start, part.part_end);
      fits = omega (arith, part.part_end, valid.fits);
    }

    mapped_part :
        (p : MemoryArea B) (lo hi : ℕ)
        → IsPart a lo hi p
        → start a ≤ lo
        → hi ≤ end a
        → P
        → MappedIn B entry (start p) (end p) pt
    mapped_part p lo hi part h k w x below above =
        mapped w x (omega (arith, part.part_start)) (omega (arith, part.part_end))

    round_right : first ≤ start a → last < end a → Round P entry first last new_flags a pt
    unfolding set_flags view
    round_right h k =
        let (right, left, split_eq, right_part, left_part) = split_inside last a valid starts k in
        let pt' = protected_table new_flags left pt in
        let sets = λ (w : P).
          protect_area-Sets entry (L w) new_flags left pt
            (IsValid-part left (start a) last left_part starts (omega arith))
            (mapped_part left (start a) last left_part (omega arith) (omega arith) w) in
        two_pieces P entry first last new_flags a pt (set_flags new_flags left) right pt'
          (omega (
            arith, left_part.part_start, left_part.part_end, right_part.part_start,
            right_part.part_end,
          ))
          (right_returns right left pt' h k split_eq (protect_area_lem new_flags left pt))
          (λ x. ground (arith, left_part, right_part)) (λ w x. ground (arith, sets w x, left_part))

    round_left :
        start a < first → first < end a → end a ≤ last → Round P entry first last new_flags a pt
    unfolding set_flags view
    round_left h k l =
        let (right, left, split_eq, right_part, left_part) = split_inside first a valid h k in
        let pt' = protected_table new_flags right pt in
        let sets = λ (w : P).
          protect_area-Sets entry (L w) new_flags right pt
            (IsValid-part right first (end a) right_part k (omega arith))
            (mapped_part right first (end a) right_part (omega arith) (omega arith) w) in
        two_pieces P entry first last new_flags a pt left (set_flags new_flags right) pt'
          (omega (
            arith, left_part.part_start, left_part.part_end, right_part.part_start,
            right_part.part_end,
          ))
          (left_returns right left pt' h k l split_eq (protect_area_lem new_flags right pt))
          (λ x. ground (arith, left_part, right_part)) (λ w x. ground (arith, sets w x, right_part))

    round_middle : start a < first → last < end a → Round P entry first last new_flags a pt
    unfolding set_flags view
    round_middle h k =
        let (right, rest, split_eq, right_part, rest_part) = split_inside last a valid starts k in
        let rest_valid = IsValid-part rest (start a) last rest_part starts (omega arith) in
        let (middle, left, split_eq', middle_part, left_part) =
          split_inside first rest rest_valid (omega (arith, rest_part.part_start))
            (omega (arith, rest_part.part_end)) in
        let pt' = protected_table new_flags middle pt in
        let sets = λ (w : P).
          protect_area-Sets entry (L w) new_flags middle pt
            (record {
              nonempty =
                  omega (arith, middle_part.part_start, middle_part.part_end, rest_part.part_end);
              fits = omega (arith, middle_part.part_end, rest_part.part_end, valid.fits);
            })
            (λ x p q.
              mapped w x (omega (arith, middle_part.part_start))
                (omega (arith, middle_part.part_end, rest_part.part_end))) in
        three_pieces P entry first last new_flags a pt left (set_flags new_flags middle) right pt'
          (omega (
            arith, left_part.part_start, left_part.part_end, middle_part.part_start,
            middle_part.part_end, rest_part.part_start, rest_part.part_end, right_part.part_start,
            right_part.part_end,
          ))
          (middle_returns right left pt' rest middle h k split_eq split_eq'
            (protect_area_lem new_flags middle pt))
          (λ x. ground (arith, left_part, middle_part, right_part, rest_part))
          (λ w x. ground (arith, sets w x, middle_part, rest_part))

    -- A round on a valid area returns. Where `P` holds the backend is lawful and the area is mapped.
    pub protect_one_lem : Round P entry first last new_flags a pt
    protect_one_lem = elim (lt-cases first (end a)) [
      | inr below ↦ round_below below
      | inl reaches ↦ elim (lt-cases (start a) first) [
        | inl before ↦ elim (lt-cases last (end a)) [
          | inl past ↦ round_middle before past
          | inr within ↦ round_left before reaches within
        ]
        | inr from ↦ elim (lt-cases last (end a)) [
          | inl past ↦ round_right from past
          | inr within ↦ round_inside from within
        ]
      ]
    ]
