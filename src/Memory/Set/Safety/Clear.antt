-- ===== src/Memory/Set/Safety/Clear.antt =====
-- `clear` where the backend may fail.
use axmm_crates.Base.{ℕ, ◌≡◌, refl, sym, subst, ◌⊎◌, inl, inr, [], ◌∷◌, arith, ret}
use axmm_crates.Memory.Errors.{done, err, bad_state}
use axmm_crates.Memory.Backend.{MappingBackend}
use axmm_crates.Memory.Area.{MemoryArea, start, end, unmap_area}
use axmm_crates.Memory.Area.Tries.{Refuses, Succeeds, Fails, unmap_area_tries}
use axmm_crates.Memory.Set.{MemorySet}
use axmm_crates.Memory.Set.Change.{clear, clear_areas}
use axmm_crates.Memory.Set.Chain.{Chain, IsValid, top}
use axmm_crates.Memory.Set.View.{view, view-cons}

module _ {B : MappingBackend} where
  -- The loop stops at an area that the backend refuses to unmap.
  record Stops (lo hi : ℕ) (s : MemorySet B) (pt : B.PageTable) : Type 0 where
    areas : MemorySet B
    table : B.PageTable
    returns : clear_areas s pt ≡ ret (err bad_state, areas, table)
    chain : Chain lo areas hi
    same : (x : ℕ) → view areas x ≡ view s x
    refuses : Refuses B

  record Ends (s : MemorySet B) (pt : B.PageTable) : Type 0 where
    areas : MemorySet B
    table : B.PageTable
    returns : clear_areas s pt ≡ ret (done, areas, table)

  module _ (lo hi k : ℕ) (a : MemoryArea B) (s : MemorySet B) (pt : B.PageTable)
      (c : Chain lo ((k, a) ∷ s) hi) where
    stopped : Fails (unmap_area a pt) a → Refuses B → Stops lo hi ((k, a) ∷ s) pt
    unfolding clear_areas
    stopped f why = record {
      areas = (k, a) ∷ s;
      table = f.table;
      returns = ground (arith, f.returns);
      chain = c;
      same = λ x. refl;
      refuses = why;
    }

    stopped_later :
        (u : Succeeds (unmap_area a pt) a (start a) (end a))
        → Stops (end a) hi s u.table
        → Stops lo hi ((k, a) ∷ s) pt
    unfolding clear_areas
    stopped_later u r = record {
      areas = (k, u.area) ∷ r.areas;
      table = r.table;
      returns = ground (arith, u.returns, r.returns);
      chain = (
        c.0,
        omega (arith, c.1, u.part.part_start),
        omega (arith, c.2, u.part.part_end),
        subst (λ m. Chain m r.areas hi) (sym u.part.part_end) r.chain,
      );
      same = λ x. ground (arith, view-cons k a s x, view-cons k u.area r.areas x, r.same x, u.part);
      refuses = r.refuses;
    }

    ended :
        (u : Succeeds (unmap_area a pt) a (start a) (end a)) → Ends s u.table → Ends ((k, a) ∷ s) pt
    unfolding clear_areas
    ended u r = record {
      areas = (k, u.area) ∷ r.areas;
      table = r.table;
      returns = ground (arith, u.returns, r.returns);
    }

  clear_areas_any :
      (lo hi : ℕ) (s : MemorySet B) (pt : B.PageTable)
      → Chain lo s hi
      → Ends s pt ⊎ Stops lo hi s pt
  unfolding clear_areas
  clear_areas_any lo hi [] pt c = inl (record { areas = []; table = pt; returns = refl })
  clear_areas_any lo hi ((k, a) ∷ s) pt c = elim (unmap_area_tries a pt) [
    | inr (f, why) ↦ inr (stopped lo hi k a s pt c f why)
    | inl u ↦ elim (clear_areas_any (end a) hi s u.table c.3) [
      | inl r ↦ inl (ended lo hi k a s pt c u r)
      | inr r ↦ inr (stopped_later lo hi k a s pt c u r)
    ]
  ]

  -- Where `clear` fails.
  pub record Unchanged (s : MemorySet B) (pt : B.PageTable) : Type 0 where
    pub areas : MemorySet B
    pub table : B.PageTable
    pub returns : clear s pt ≡ ret (err bad_state, areas, table)
    pub valid : IsValid areas
    pub same : (x : ℕ) → view areas x ≡ view s x
    pub refuses : Refuses B

  -- Over any backend, `clear` of a valid set never panics: it empties the set, or the backend refuses
  -- to unmap some range. Then it reports `BadState`, and the set is valid with every address that it
  -- had, under the same flags.
  pub clear_any :
      (s : MemorySet B) (pt : B.PageTable)
      → IsValid s
      → ((pt' : B.PageTable) × (clear s pt ≡ ret (done, [], pt'))) ⊎ Unchanged s pt
  unfolding clear
  clear_any s pt valid = elim (clear_areas_any 0 top s pt valid) [
    | inl r ↦ inl (r.table, ground (arith, r.returns))
    | inr r ↦ inr (record {
      areas = r.areas;
      table = r.table;
      returns = ground (arith, r.returns);
      valid = r.chain;
      same = r.same;
      refuses = r.refuses;
    })
  ]
