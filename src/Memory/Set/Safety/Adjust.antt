-- ===== src/Memory/Set/Safety/Adjust.antt =====
-- `adjust_area` with a new right boundary, where the backend may fail.
use axmm_crates.Base.{
  ℕ, ◌-◌, ◌%◌, ◌≤◌, ◌<◌, ◌≡◌, refl, ◌⊎◌, inl, inr, none, some, arith, lt-cases, if◌then◌else◌, ret,
  Build,
}
use axmm_crates.Base.Word.{IsUsize}
use axmm_crates.Base.BTreeMap.{get, insert}
use axmm_crates.Addr.MemoryAddr
use axmm_crates.Addr.MemoryAddr.{usize_addr}
use axmm_crates.Addr.MemoryAddr.Pages.{page, aligned_4k}
use axmm_crates.Memory.Errors.{done, err, bad_state}
use axmm_crates.Memory.Backend.{MappingBackend}
use axmm_crates.Memory.Backend.Laws.{between}
use axmm_crates.Memory.Area.{MemoryArea, start, end}
use axmm_crates.Memory.Area.Laws
use axmm_crates.Memory.Area.Laws.{resized-IsPart}
use axmm_crates.Memory.Area.Tries.{Succeeds, Fails, Tries, shrink_right-Tries, extend_right-Tries}
use axmm_crates.Memory.Set.{MemorySet}
use axmm_crates.Memory.Set.Protect.{adjust_area, adjust_left, adjust_right}
use axmm_crates.Memory.Set.Chain.{Chain-le, IsValid, top}
use axmm_crates.Memory.Set.View.{view}
use axmm_crates.Memory.Set.Stored.{stored}
use axmm_crates.Memory.Set.Resize.{resize}

module _ {B : MappingBackend} (b : Build) (a : MemoryArea B) (last : ℕ) (s : MemorySet B)
    (pt : B.PageTable) where
  -- The area gets the new end.
  pub record Moves : Type 0 where
    pub areas : MemorySet B
    pub table : B.PageTable
    pub returns : adjust_area b (start a) (start a) last s pt ≡ ret (done, areas, table)
    pub valid : IsValid areas
    pub resizes :
        (x : ℕ)
        → view areas x ≡ (
            if between (start a) last x
            then some a.flags
            else if between (start a) (end a) x
            then none
            else view s x)

  -- Nothing changes.
  pub record Stays : Type 0 where
    pub areas : MemorySet B
    pub table : B.PageTable
    pub returns : adjust_area b (start a) (start a) last s pt ≡ ret (err bad_state, areas, table)
    pub valid : IsValid areas
    pub same : (x : ℕ) → view areas x ≡ view s x

  -- The new end is on a page boundary above the start, and the set is free from the old end to it.
  pub record IsFit : Type 0 where
    pub there : get (start a) s ≡ some a
    pub start_aligned : start a % page ≡ 0
    pub last_aligned : last % page ≡ 0
    pub order : start a < last
    pub word : IsUsize last
    pub free : (x : ℕ) → end a ≤ x → x < last → view s x ≡ none

  module _ (nonempty : start a < end a) (fits : end a ≤ top) (f : IsFit) where
    right-Tries : Tries (adjust_right last (start a) (end a) a pt) a (start a) last
    unfolding adjust_right MemoryAddr.sub_addr
    right-Tries =
        let valid : Laws.IsValid a = record { nonempty = nonempty; fits = omega arith } in
        let order = f.order in
        elim (lt-cases (end a) last) [
          | inl more ↦
              elim (extend_right-Tries (last - start a) last a pt valid (omega arith) more f.word) [
                | inl t ↦ inl (record {
                  area = t.area;
                  table = t.table;
                  returns = ground (arith, t.returns);
                  part = t.part;
                })
                | inr t ↦ inr (record { table = t.table; returns = ground (arith, t.returns) })
              ]
          | inr less ↦ elim (lt-cases last (end a)) [
            | inl fewer ↦
                elim (shrink_right-Tries (last - start a) last a pt valid (omega arith)
                  (omega arith) fewer) [
                    | inl t ↦ inl (record {
                      area = t.area;
                      table = t.table;
                      returns = ground (arith, t.returns);
                      part = t.part;
                    })
                    | inr t ↦ inr (record { table = t.table; returns = ground (arith, t.returns) })
                  ]
            | inr same ↦ inl (record {
              area = a;
              table = pt;
              returns = ground arith;
              part = record {
                part_start = refl;
                part_end = omega arith;
                same_flags = refl;
                same_backend = refl;
              };
            })
          ]
        ]

    moved : IsValid s → Succeeds (adjust_right last (start a) (end a) a pt) a (start a) last → Moves
    unfolding adjust_area adjust_left
    moved valid t =
        let p = t.part in
        let order = f.order in
        let word = f.word in
        let r =
          resize a t.area s valid f.there p.part_start (omega (arith, p.part_end))
            (omega (arith, p.part_end)) (λ x q h. f.free x q (omega (arith, p.part_end))) in
        record {
          areas = insert (start a) t.area s;
          table = t.table;
          returns = ground (
            arith,
            f.there,
            aligned_4k b (start a) f.start_aligned,
            aligned_4k b last f.last_aligned,
            t.returns,
          );
          valid = r.valid;
          resizes = λ x. ground (arith, r.flags x, p);
        }

    stayed : IsValid s → Fails (adjust_right last (start a) (end a) a pt) a → Stays
    unfolding adjust_area adjust_left
    stayed valid t =
        let order = f.order in
        let r = resize a a s valid f.there refl nonempty fits (λ x p q. absurd (omega arith)) in
        record {
          areas = insert (start a) a s;
          table = t.table;
          returns = ground (
            arith,
            f.there,
            aligned_4k b (start a) f.start_aligned,
            aligned_4k b last f.last_aligned,
            t.returns,
          );
          valid = r.valid;
          same = λ x. ground (arith, r.flags x, r.was x);
        }

  -- Over any backend, `adjust_area` with the start of an area and a fit new end never panics: the area
  -- gets the new end, or `BadState` is reported and every address stays as it was.
  pub adjust_area_any : IsFit → IsValid s → Moves ⊎ Stays
  adjust_area_any f valid =
      let l = stored (start a) 0 top a s valid f.there in
      let nonempty : start a < end a = omega (arith, l.nonempty) in
      let fits = Chain-le (end a) top l.rest l.chain_rest in
      elim (right-Tries nonempty fits f) [
        | inl t ↦ inl (moved nonempty fits f valid t)
        | inr t ↦ inr (stayed nonempty fits f valid t)
      ]
