-- ===== src/Memory/Set/Calls/Returns.antt =====
-- A single call on a valid set, over a backend of which nothing is known.
use axmm_crates.Base.{ℕ, ◌≡◌, ◌⊎◌, inl, inr, refl, Bool, Option, [], arith, ret, panic, Build}
use axmm_crates.Memory.Errors.{MappingResult, done, err, invalid_param, already_exists, bad_state}
use axmm_crates.Memory.Backend.{MappingBackend}
use axmm_crates.Memory.Area.Tries.{Refuses}
use axmm_crates.Memory.Area.{MemoryArea}
use axmm_crates.Memory.Set.{MemorySet}
use axmm_crates.Memory.Set.Change.{delete}
use axmm_crates.Memory.Set.Insert.{insert_outcomes, delete_erases}
use axmm_crates.Memory.Set.Chain.{IsValid}
use axmm_crates.Memory.Set.Calls.{
  Op, insert_op, delete_op, map_op, unmap_op, protect_op, clear_op, insert_frame_op, IsProper,
  apply,
}
use axmm_crates.Memory.Set.Safety.Map.{map_any}
use axmm_crates.Memory.Set.Safety.Unmap.{unmap_any}
use axmm_crates.Memory.Set.Safety.Clear.{clear_any}
use axmm_crates.Memory.Set.Safety.Protect.{protect_any}
use axmm_crates.Memory.Set.Safety.Frames.{insert_frame_any}

module _ {B : MappingBackend} where
  -- A call returns, and the set after it is valid.
  pub record Returns (op : Op B) (s : MemorySet B) (pt : B.PageTable) : Type 0 where
    pub result : MappingResult (Unit {0})
    pub areas : MemorySet B
    pub table : B.PageTable
    pub returns : apply op s pt ≡ ret (result, areas, table)
    pub valid : IsValid areas

  abbrev pub Applies : Op B → MemorySet B → B.PageTable → Type 0
  Applies op s pt = Returns op s pt ⊎ ((apply op s pt ≡ panic) × Refuses B)

  module _ (s : MemorySet B) (pt : B.PageTable) (valid : IsValid s) where
    insert_applies : (a : MemoryArea B) → IsProper (insert_op a) → Returns (insert_op a) s pt
    unfolding apply
    insert_applies a fits = elim (insert_outcomes a s fits valid) [
      | inl (void, e) ↦ record {
        result = err invalid_param;
        areas = s;
        table = pt;
        returns = ground (arith, e);
        valid = valid;
      }
      | inr (inl (meets, e)) ↦ record {
        result = err already_exists;
        areas = s;
        table = pt;
        returns = ground (arith, e);
        valid = valid;
      }
      | inr (inr i) ↦ record {
        result = done;
        areas = i.areas;
        table = pt;
        returns = ground (arith, i.returns);
        valid = i.valid;
      }
    ]

    map-Applies :
        (a : MemoryArea B) (b : Bool) (flags : Option B.Flags)
        → IsProper (map_op a b flags)
        → Applies (map_op a b flags) s pt
    unfolding apply
    map-Applies a b flags fits = elim (map_any a b flags s pt fits valid) [
      | inl (void, e) ↦
          inl (record {
            result = err invalid_param;
            areas = s;
            table = pt;
            returns = e;
            valid = valid;
          })
      | inr (inl (meets, keep, e)) ↦ inl (record {
        result = err already_exists;
        areas = s;
        table = pt;
        returns = e;
        valid = valid;
      })
      | inr (inr (inl m)) ↦ inl (record {
        result = done;
        areas = m.areas;
        table = m.table;
        returns = m.returns;
        valid = m.valid;
      })
      | inr (inr (inr (inl m))) ↦ inl (record {
        result = err bad_state;
        areas = m.areas;
        table = m.table;
        returns = m.returns;
        valid = m.valid;
      })
      | inr (inr (inr (inr (on, e, why)))) ↦ inr (e, why)
    ]

    unmap-Applies : (first n : ℕ) → Applies (unmap_op first n) s pt
    unfolding apply
    unmap-Applies first n = elim (unmap_any first n s pt valid) [
      | inl u ↦ inl (record {
        result = done;
        areas = u.areas;
        table = u.table;
        returns = u.returns;
        valid = u.valid;
      })
      | inr (inl u) ↦ inl (record {
        result = err bad_state;
        areas = u.areas;
        table = u.table;
        returns = u.returns;
        valid = u.valid;
      })
      | inr (inr (inl (past, e))) ↦
          inl (record {
            result = err invalid_param;
            areas = s;
            table = pt;
            returns = e;
            valid = valid;
          })
      | inr (inr (inr r)) ↦ inr r
    ]

    protect_applies :
        (first n : ℕ) (update_flags : B.Flags → Option B.Flags)
        → IsProper {B = B} (protect_op first n update_flags)
        → Returns (protect_op first n update_flags) s pt
    unfolding apply
    protect_applies first n update_flags pos =
        elim (protect_any update_flags first n s pt pos valid) [
          | inl (fits, p) ↦ record {
            result = done;
            areas = p.areas;
            table = p.table;
            returns = p.returns;
            valid = p.valid;
          }
          | inr (past, e) ↦ record {
            result = err invalid_param;
            areas = s;
            table = pt;
            returns = e;
            valid = valid;
          }
        ]

    clear_applies : Returns clear_op s pt
    unfolding apply
    clear_applies = elim (clear_any s pt valid) [
      | inl (pt', e) ↦ record {
        result = done;
        areas = [];
        table = pt';
        returns = e;
        valid = omega arith;
      }
      | inr c ↦ record {
        result = err bad_state;
        areas = c.areas;
        table = c.table;
        returns = c.returns;
        valid = c.valid;
      }
    ]

    insert_frame_applies :
        (b : Build) (vaddr : ℕ) (frame : B.FrameTrackerRef)
        → IsProper {B = B} (insert_frame_op b vaddr frame)
        → Returns (insert_frame_op b vaddr frame) s pt
    unfolding apply
    insert_frame_applies b vaddr frame fits =
        let k = insert_frame_any b vaddr frame s fits valid in
        record {
          result = done;
          areas = k.areas;
          table = pt;
          returns = ground (arith, k.returns);
          valid = k.valid;
        }

    pub applies : (op : Op B) → IsProper op → Applies op s pt
    unfolding apply
    applies (insert_op a) h = inl (insert_applies a h)
    applies (delete_op k) h = inl (record {
      result = done;
      areas = delete k s;
      table = pt;
      returns = refl;
      valid = (delete_erases k s valid).0;
    })
    applies (map_op a b flags) h = map-Applies a b flags h
    applies (unmap_op first n) h = unmap-Applies first n
    applies (protect_op first n update_flags) h = inl (protect_applies first n update_flags h)
    applies clear_op h = inl clear_applies
    applies (insert_frame_op b vaddr frame) h = inl (insert_frame_applies b vaddr frame h)
