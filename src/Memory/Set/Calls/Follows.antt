-- ===== src/Memory/Set/Calls/Follows.antt =====
-- A single plain call over a lawful backend, against what it promises.
use axmm_crates.Base.{
  ℕ, ◌+◌, ◌<◌, ◌≡◌, refl, sym, subst, ◌∙◌, ◌⊎◌, inl, inr, Bool, true, false, Option, none, [],
  arith, Bool-cases, lt-cases, ret, Build,
}
use axmm_crates.Base.Word.{usize_mod, IsUsize}
use axmm_crates.Addr.MemoryAddr.{usize_addr}
use axmm_crates.Memory.Errors.{MappingResult, done, err, invalid_param, already_exists}
use axmm_crates.Memory.Backend.{MappingBackend}
use axmm_crates.Memory.Backend.Laws.{IsLawful}
use axmm_crates.Memory.Area.{MemoryArea, start, end}
use axmm_crates.Memory.Set.{MemorySet}
use axmm_crates.Memory.Set.Query.{overlaps}
use axmm_crates.Memory.Set.Query.Overlaps.{overlaps_free, overlaps-view}
use axmm_crates.Memory.Set.Chain.{IsValid}
use axmm_crates.Memory.Set.View.{view}
use axmm_crates.Memory.Set.Map.{MapsTo, map_empty, map_refused, mapped_there, mapped_over}
use axmm_crates.Memory.Set.Clear.{clear_erases}
use axmm_crates.Memory.Set.Unmap.Cut.{Agrees}
use axmm_crates.Memory.Set.Unmap.Refines.{unmap_refines, unmap_invalid}
use axmm_crates.Memory.Set.Protect.Refines.{protect_refines}
use axmm_crates.Memory.Set.Safety.Protect.{protect_invalid}
use axmm_crates.Memory.Set.Safety.Frames.{insert_frame_any}
use axmm_crates.Memory.Set.Calls.{
  Op, insert_op, delete_op, map_op, unmap_op, protect_op, clear_op, insert_frame_op, apply,
}
use axmm_crates.Memory.Set.Calls.Spec.{IsPlain, Spec, Takes}

module _ {B : MappingBackend} (entry : B.PageTable → ℕ → Option B.Flags) where
  -- A call does what it promises.
  pub record Follows (op : Op B) (s : MemorySet B) (pt : B.PageTable) : Type 0 where
    pub result : MappingResult (Unit {0})
    pub areas : MemorySet B
    pub table : B.PageTable
    pub returns : apply op s pt ≡ ret (result, areas, table)
    pub valid : IsValid areas
    pub agrees : Agrees entry table areas
    pub follows : Spec op (view s) result (view areas)

  module _ (L : IsLawful B entry) (s : MemorySet B) (pt : B.PageTable) (valid : IsValid s)
      (agrees : Agrees entry pt s) where
    rejects :
        (op : Op B) (result : MappingResult (Unit {0}))
        → apply op s pt ≡ ret (result, s, pt)
        → Spec op (view s) result (view s)
        → Follows op s pt
    rejects op result e follows = record {
      result = result;
      areas = s;
      table = pt;
      returns = e;
      valid = valid;
      agrees = agrees;
      follows = follows;
    }

    maps :
        (a : MemoryArea B) (b : Bool)
        → start a < end a
        → ((b ≡ true) ⊎ ¬ (Takes (view s) a))
        → MapsTo entry a none (view s) (apply (map_op a b none) s pt)
        → Follows (map_op a b none) s pt
    maps a b some_size spares m = record {
      result = done;
      areas = m.areas;
      table = m.table;
      returns = m.returns;
      valid = m.valid;
      agrees = λ x. ground (arith, m.maps x, m.adds x);
      follows = inr (inr (some_size, spares, refl, m.adds));
    }

    map-Follows : (a : MemoryArea B) (b : Bool) → IsUsize (end a) → Follows (map_op a b none) s pt
    unfolding apply
    map-Follows a b fits = elim (lt-cases (start a) (end a)) [
      | inr void ↦
          rejects (map_op a b none) (err invalid_param) (map_empty entry a b none s pt void)
            (inl (void, refl, λ x. refl))
      | inl some_size ↦ elim (Bool-cases (overlaps a.va_range s)) [
        | inr miss ↦
            maps a b some_size
              (inr λ (x, lo, hi, taken).
                taken (overlaps_free a.va_range s x (omega arith) valid miss lo hi))
              (mapped_there entry L a some_size fits none s pt b valid agrees miss)
        | inl hit ↦ elim (Bool-cases b) [
          | inl over ↦ rw over (
              maps a true some_size (inl refl)
                (mapped_over entry L a some_size fits none s pt valid agrees hit))
          | inr keep ↦ rw keep (
              rejects (map_op a false none) (err already_exists)
                (map_refused entry L a some_size fits none s pt hit)
                (inr (
                  inl (
                    some_size,
                    refl,
                    (overlaps-view a.va_range s some_size fits valid).0 hit,
                    refl,
                    λ x. refl,
                  ))))
        ]
      ]
    ]

    unmap-Follows : (first n : ℕ) → Follows (unmap_op first n) s pt
    unfolding apply
    unmap-Follows first n = elim (lt-cases (first + n) usize_mod) [
      | inr past ↦
          rejects (unmap_op first n) (err invalid_param) (unmap_invalid entry first n s pt past)
            (inl (past, refl, λ x. refl))
      | inl fits ↦
          let u = unmap_refines entry first n s pt L fits valid agrees in
          record {
            result = done;
            areas = u.areas;
            table = u.table;
            returns = u.returns;
            valid = u.valid;
            agrees = u.agrees;
            follows = inr (fits, refl, u.erases);
          }
    ]

    protect-Follows :
        (first n : ℕ) (update_flags : B.Flags → Option B.Flags)
        → 0 < n
        → Follows (protect_op first n update_flags) s pt
    unfolding apply
    protect-Follows first n update_flags pos = elim (lt-cases (first + n) usize_mod) [
      | inr past ↦
          rejects (protect_op first n update_flags) (err invalid_param)
            (protect_invalid update_flags first n s pt past) (inl (past, refl, λ x. refl))
      | inl fits ↦
          let p = protect_refines entry update_flags first n s pt L pos fits valid agrees in
          record {
            result = done;
            areas = p.areas;
            table = p.table;
            returns = p.returns;
            valid = p.valid;
            agrees = p.agrees;
            follows = inr (fits, refl, p.updates);
          }
    ]

    clear-Follows : Follows clear_op s pt
    unfolding apply view
    clear-Follows =
        let (pt', e, erased) = clear_erases entry L s pt valid agrees in
        record {
          result = done;
          areas = [];
          table = pt';
          returns = e;
          valid = omega arith;
          agrees = erased;
          follows = (refl, λ x. refl);
        }

    insert_frame-Follows :
        (b : Build) (vaddr : ℕ) (frame : B.FrameTrackerRef)
        → IsUsize vaddr
        → Follows (insert_frame_op b vaddr frame) s pt
    unfolding apply
    insert_frame-Follows b vaddr frame fits =
        let k = insert_frame_any b vaddr frame s fits valid in
        record {
          result = done;
          areas = k.areas;
          table = pt;
          returns = ground (arith, k.returns);
          valid = k.valid;
          agrees = λ x. agrees x ∙ sym (k.same x);
          follows = (refl, k.same);
        }

    pub follows : (op : Op B) → IsPlain op → Follows op s pt
    follows (insert_op a) h = absurd h
    follows (delete_op k) h = absurd h
    follows (map_op a b flags) (fits, e) =
        subst (λ f. Follows (map_op a b f) s pt) (sym e) (map-Follows a b fits)
    follows (unmap_op first n) h = unmap-Follows first n
    follows (protect_op first n update_flags) h = protect-Follows first n update_flags h
    follows clear_op h = clear-Follows
    follows (insert_frame_op b vaddr frame) h = insert_frame-Follows b vaddr frame h
