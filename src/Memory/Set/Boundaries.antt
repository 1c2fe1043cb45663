-- ===== src/Memory/Set/Boundaries.antt =====
-- `adjust_area` where both boundaries move, over a backend of which nothing is known.
use axmm_crates.Base.{
  ℕ, ◌+◌, ◌-◌, ◌%◌, ◌≤◌, ◌<◌, ◌≡◌, ◌≢◌, ◌⊎◌, inl, inr, refl, sym, subst, ◌∙◌, arith, lt-cases, some,
  ret, panic, Build,
}
use axmm_crates.Base.Word.{IsUsize}
use axmm_crates.Base.BTreeMap.{get, insert}
use axmm_crates.Addr.MemoryAddr
use axmm_crates.Addr.MemoryAddr.{usize_addr}
use axmm_crates.Addr.MemoryAddr.Pages.{page, aligned_4k}
use axmm_crates.Memory.Errors.{Call, and_then, done, err, bad_state}
use axmm_crates.Memory.Backend.{MappingBackend}
use axmm_crates.Memory.Area.{MemoryArea, start, end}
use axmm_crates.Memory.Area.Laws
use axmm_crates.Memory.Area.Laws.{IsPart, size_lem}
use axmm_crates.Memory.Area.Tries.{
  Succeeds, Tries, shrink_left-Tries, shrink_right-Tries, extend_left-Tries, extend_right-Tries,
}
use axmm_crates.Memory.Set.{MemorySet}
use axmm_crates.Memory.Set.Change.{write_back}
use axmm_crates.Memory.Set.Protect.{adjust_area, adjust_left, adjust_right}
use axmm_crates.Memory.Set.Chain.{Chain-le, IsValid, top}
use axmm_crates.Memory.Set.Stored.{stored}

-- The new size is not on the side of the old one on which the new end is of the old end.
abbrev pub Contradicts : ℕ → ℕ → ℕ → Type 0
Contradicts last old_end new_end =
    ((old_end < last) × (new_end ≤ old_end)) ⊎ ((last < old_end) × (old_end ≤ new_end))

module _ {B : MappingBackend} where
  left-Tries :
      (first : ℕ) (a : MemoryArea B) (pt : B.PageTable)
      → Laws.IsValid a
      → first < end a
      → Tries (adjust_left first a pt) a first (end a)
  unfolding adjust_left MemoryAddr.sub_addr
  left-Tries first a pt v h = elim (lt-cases first (start a)) [
    | inl more ↦
        subst (λ call. Tries call a first (end a)) (sym (ground arith))
          (extend_left-Tries (end a - first) first a pt v (omega arith) more)
    | inr up ↦ elim (lt-cases (start a) first) [
      | inl less ↦
          subst (λ call. Tries call a first (end a)) (sym (ground arith))
            (shrink_left-Tries (end a - first) first a pt v (omega arith) (omega arith) less)
      | inr same ↦ inl (record {
        area = a;
        table = pt;
        returns = ground arith;
        part = record {
          part_start = omega arith;
          part_end = refl;
          same_flags = refl;
          same_backend = refl;
        };
      })
    ]
  ]

  -- The call of an area from `lo` to `old_end`.
  abbrev RightTries : ℕ → ℕ → MemoryArea B → B.PageTable → ℕ → ℕ → Type 0
  RightTries last old_start a pt lo old_end =
      let hi = lo + (last - old_start) in
      Tries (adjust_right last old_start old_end a pt) a lo hi
      ⊎ ((adjust_right last old_start old_end a pt ≡ panic) × Contradicts last old_end hi)

  right-Tries :
      (last old_start : ℕ) (a : MemoryArea B) (pt : B.PageTable)
      → Laws.IsValid a
      → last ≢ end a
      → old_start < last
      → IsUsize (start a + (last - old_start))
      → RightTries last old_start a pt (start a) (end a)
  unfolding adjust_right MemoryAddr.sub_addr
  right-Tries last old_start a pt v moves order word =
      let n = last - old_start in
      let mid = start a + n in
      elim (lt-cases (end a) last) [
        | inl more ↦ elim (lt-cases (end a) mid) [
          | inl fits ↦ inl (
              subst (λ call. Tries call a (start a) mid) (sym (ground arith))
                (extend_right-Tries n mid a pt v refl fits word))
          | inr small ↦ inr (ground (arith, size_lem a v, v.nonempty), inl (more, small))
        ]
        | inr less ↦ elim (lt-cases mid (end a)) [
          | inl fits ↦ inl (
              subst (λ call. Tries call a (start a) mid) (sym (ground (arith, moves)))
                (shrink_right-Tries n mid a pt v (omega arith) refl fits))
          | inr large ↦
              inr
                (ground (arith, size_lem a v, v.nonempty, moves), inr (omega (arith, moves), large))
        ]
      ]

module _ {B : MappingBackend} (b : Build) (a : MemoryArea B) (first last : ℕ) (s : MemorySet B)
    (pt : B.PageTable) where
  abbrev both_calls : Call (MemoryArea B) B.PageTable
  both_calls = and_then (adjust_left first a pt) (adjust_right last (start a) (end a))

  -- The area has the new start, and a new end that is as far from it as `last` is from the old one.
  pub record Adjusts : Type 0 where
    pub area : MemoryArea B
    pub table : B.PageTable
    pub returns :
        adjust_area b (start a) first last s pt ≡ ret (done, insert (start a) area s, table)
    pub part : IsPart a first (first + (last - start a)) area

  -- The backend failed: at the start, and the area is as it was, or at the end, and it has the new start.
  pub record Stops : Type 0 where
    pub area : MemoryArea B
    pub table : B.PageTable
    pub returns :
        adjust_area b (start a) first last s pt
        ≡ ret (err bad_state, insert (start a) area s, table)
    pub part : (area ≡ a) ⊎ IsPart a first (end a) area

  -- The new boundaries are on page boundaries, the end is another than before, and the new range has
  -- an address of the old one.
  pub record IsMove : Type 0 where
    pub there : get (start a) s ≡ some a
    pub first_aligned : first % page ≡ 0
    pub last_aligned : last % page ≡ 0
    pub order : first < last
    pub first_inside : first < end a
    pub last_inside : start a < last
    pub last_moves : last ≢ end a
    pub word : IsUsize (first + (last - start a))

  module _ (m : IsMove) where
    adjusts : adjust_area b (start a) first last s pt ≡ write_back (start a) s both_calls
    unfolding adjust_area
    adjusts =
        let order = m.order in
        ground
          (arith, m.there, aligned_4k b first m.first_aligned, aligned_4k b last m.last_aligned)

    module _ (l : Succeeds (adjust_left first a pt) a first (end a)) where
      right_after : IsValid s → RightTries last (start a) l.area l.table first (end a)
      right_after valid =
          let p = l.part in
          let first_inside = m.first_inside in
          let st = stored (start a) 0 top a s valid m.there in
          let fits = Chain-le (end a) top st.rest st.chain_rest in
          let v : Laws.IsValid l.area = record {
            nonempty = omega (arith, p.part_start, p.part_end);
            fits = omega (arith, p.part_end);
          } in
          subst (λ lo. RightTries last (start a) l.area l.table lo (end a)) p.part_start
            (subst (RightTries last (start a) l.area l.table (start l.area)) p.part_end (
              right-Tries last (start a) l.area l.table v (ground (arith, p.part_end, m.last_moves))
                m.last_inside (ground (arith, p.part_start, m.word))))

      after_right :
          IsValid s
          → (Adjusts ⊎ Stops)
            ⊎ ((adjust_area b (start a) first last s pt ≡ panic)
                × Contradicts last (end a) (first + (last - start a)))
      after_right valid = elim (right_after valid) [
        | inl (inl r) ↦
            let p = l.part in
            let q = r.part in
            inl (
              inl (record {
                area = r.area;
                table = r.table;
                returns = ground (arith, adjusts, l.returns, r.returns);
                part = record {
                  part_start = q.part_start;
                  part_end = q.part_end;
                  same_flags = q.same_flags ∙ p.same_flags;
                  same_backend = q.same_backend ∙ p.same_backend;
                };
              }))
        | inl (inr r) ↦ inl (
            inr (record {
              area = l.area;
              table = r.table;
              returns = ground (arith, adjusts, l.returns, r.returns);
              part = inr l.part;
            }))
        | inr (panics, why) ↦ inr (ground (arith, adjusts, l.returns, panics), why)
      ]

  -- Over any backend, on a valid set, `adjust_area` of an area to a range on page boundaries, which
  -- has an address of the old range and another end, has one of three ends. It reports success, and the
  -- area, under its old key, has the new start, but the end that its size from the old start to the new
  -- end gives it there: it misses the new end by as much as the start moved. It reports `BadState`,
  -- and the area is as it was, or has the new start and the old end. Or it panics, and that end is not
  -- on the side of the old end on which the new one is. The end that results fits a word.
  pub adjust_area_both :
      IsMove
      → IsValid s
      → (Adjusts ⊎ Stops)
        ⊎ ((adjust_area b (start a) first last s pt ≡ panic)
            × Contradicts last (end a) (first + (last - start a)))
  adjust_area_both m valid =
      let st = stored (start a) 0 top a s valid m.there in
      let fits = Chain-le (end a) top st.rest st.chain_rest in
      elim (left-Tries first a pt (record { nonempty = st.nonempty; fits = omega (arith, fits) })
        m.first_inside) [
          | inl l ↦ after_right m l valid
          | inr l ↦ inl (
              inr (record {
                area = a;
                table = l.table;
                returns = ground (arith, adjusts m, l.returns);
                part = inl refl;
              }))
        ]
