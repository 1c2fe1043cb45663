-- ===== src/Memory/Set/Frames/Access.antt =====
-- Round trips between `insert_frame`, `find_frame` and `remap_frame`.
use axmm_crates.Base.{
  ℕ, ◌+◌, ◌%◌, ◌<◌, ◌≡◌, ◌≢◌, refl, sym, ap, ◌∙◌, ◌⊎◌, inl, inr, Option, none, some, arith, Outcome,
  ret, panic, Build, Bool-cases, Option-cases, ◌≤◌, lt-cases,
}
use axmm_crates.Base.Word.{IsUsize}
use axmm_crates.Base.BTreeMap.{get, insert}
use axmm_crates.Base.BTreeMap.Lookup.{get-insert, get-insert_other}
use axmm_crates.Addr.MemoryAddr.{usize_addr}
use axmm_crates.Addr.MemoryAddr.Pages.{page, aligned_4k, down_4k}
use axmm_crates.Memory.Backend.{MappingBackend}
use axmm_crates.Memory.Backend.Laws.{between}
use axmm_crates.Memory.Area
use axmm_crates.Memory.Area.{MemoryArea, start, end}
use axmm_crates.Memory.Set.{MemorySet}
use axmm_crates.Memory.Set.Frames.{find_frame, insert_frame, remap_frame}
use axmm_crates.Memory.Set.Query.Find.{Found, NotFound, find_outcomes}
use axmm_crates.Memory.Set.Chain.{IsValid}
use axmm_crates.Memory.Set.View.{view}
use axmm_crates.Memory.Set.At.{area_at, find-area_at, area_at-has, Replaced, replace}

module _ {B : MappingBackend} (b : Build) where
  -- The frame of a page that an area has, if it has one.
  abbrev pub frame_at : MemorySet B → ℕ → Option B.FrameTrackerRef
  frame_at s p = elim (area_at s p) [ none ↦ none | some a ↦ get p a.frames ]

  found_frame :
      (p : ℕ) (a : MemoryArea B) → p % page ≡ 0 → Area.find_frame b p a ≡ ret (get p a.frames)
  unfolding Area.find_frame
  found_frame p a h = ground (arith, aligned_4k b p h)

  -- `find_frame` at the start of a page.
  pub find_frame_lem :
      (p : ℕ) (s : MemorySet B)
      → p % page ≡ 0
      → IsUsize p
      → IsValid s
      → find_frame b p s ≡ ret (frame_at s p)
  unfolding find_frame
  find_frame_lem p s h fits valid = elim (Option-cases (area_at s p)) [
    | inl e ↦ ground (arith, e, find-area_at p s fits valid)
    | inr (a, e) ↦ ground (arith, e, find-area_at p s fits valid, found_frame p a h)
  ]

  -- What `insert_frame` at an address of the page `p` does to a set.
  pub record Stores (vaddr p : ℕ) (frame : B.FrameTrackerRef) (s : MemorySet B) : Type 0 where
    pub areas : MemorySet B
    pub old : Option B.FrameTrackerRef
    pub inserts : insert_frame b vaddr frame s ≡ ret (old, areas)
    pub remaps :
        remap_frame b vaddr frame s
        ≡ (elim old as (λ _. Outcome (MemorySet B)) [ some _ ↦ ret areas | none ↦ panic ])
    pub was : find_frame b p s ≡ ret old
    pub valid : IsValid areas
    pub now : find_frame b p areas ≡ ret (some frame)
    pub others :
        (q : ℕ) → q % page ≡ 0 → IsUsize q → q ≢ p → find_frame b q areas ≡ find_frame b q s
    pub same_view : (x : ℕ) → view areas x ≡ view s x

  -- What `insert_frame` does at an address of the page `p` that an area has which starts inside the page.
  pub record Misplaces (vaddr p : ℕ) (frame : B.FrameTrackerRef) (s : MemorySet B) : Type 0 where
    pub area : MemoryArea B
    pub areas : MemorySet B
    pub has : area_at s vaddr ≡ some area
    pub below : p < start area
    pub inserts : insert_frame b vaddr frame s ≡ ret (get p area.frames, areas)
    pub remaps :
        remap_frame b vaddr frame s ≡ (elim (get p area.frames) as (λ _. Outcome (MemorySet B)) [
          | some _ ↦ ret areas
          | none ↦ panic
        ])
    pub puts : area_at areas vaddr ≡ some (record area { frames = insert p frame area.frames })
    pub valid : IsValid areas
    pub unseen : (q : ℕ) → q % page ≡ 0 → IsUsize q → find_frame b q areas ≡ find_frame b q s
    pub same_view : (x : ℕ) → view areas x ≡ view s x

  module _ (p off : ℕ) (aligned : p % page ≡ 0) (within : off < page) (fits : IsUsize (p + off))
      (frame : B.FrameTrackerRef) (s : MemorySet B) (valid : IsValid s) where
    -- The area with the frame.
    abbrev pub framed : MemoryArea B → MemoryArea B
    framed a = record a { frames = insert p frame a.frames }

    area_insert_frame :
        (a : MemoryArea B) → Area.insert_frame b p frame a ≡ ret (get p a.frames, framed a)
    unfolding Area.insert_frame
    area_insert_frame a = ground (arith, aligned_4k b p aligned)

    pub insert_frame_found :
        (f : Found (p + off) s)
        → insert_frame b (p + off) frame s
          ≡ ret (get p f.area.frames, insert (start f.area) (framed f.area) s)
    unfolding insert_frame
    insert_frame_found f =
        ground (arith, f.finds_mut, down_4k b p off aligned within fits, area_insert_frame f.area)

    remap_frame_found :
        (f : Found (p + off) s)
        → remap_frame b (p + off) frame s
          ≡ (elim (get p f.area.frames) as (λ _. Outcome (MemorySet B)) [
            | some _ ↦ ret (insert (start f.area) (framed f.area) s)
            | none ↦ panic
          ])
    unfolding remap_frame
    remap_frame_found f = elim (Option-cases (get p f.area.frames)) [
      | inl e ↦ ground (arith, e, insert_frame_found f)
      | inr (old, e) ↦ ground (arith, e, insert_frame_found f)
    ]

    frame_others :
        (f : Found (p + off) s)
        → (r : Replaced f.area (framed f.area) s) → (q : ℕ) → q ≢ p
        → frame_at (insert (start f.area) (framed f.area) s) q ≡ frame_at s q
    frame_others f r q h =
        let a = f.area in
        elim (Bool-cases (between (start a) (end a) q)) [
          | inl inside ↦
              ground
                (arith, inside, r.at q, (r.was q inside).0, get-insert_other q p frame a.frames h)
          | inr outside ↦ ground (arith, outside, r.at q)
        ]

    stores :
        (f : Found (p + off) s) → area_at s p ≡ area_at s (p + off) → Stores (p + off) p frame s
    stores f same =
        let a = f.area in
        let there : area_at s p ≡ some a =
          same ∙ sym (find-area_at (p + off) s fits valid) ∙ f.finds in
        let r = replace a (framed a) s valid f.stored refl refl in
        record {
          areas = insert (start a) (framed a) s;
          old = get p a.frames;
          inserts = insert_frame_found f;
          remaps = remap_frame_found f;
          was = find_frame_lem p s aligned (omega arith) valid ∙ ap ret (ground (arith, there));
          valid = r.valid;
          now =
              find_frame_lem p _ aligned (omega arith) r.valid
              ∙ ap ret
                  (ground (arith, r.at p, area_at-has s p a there, get-insert p frame a.frames));
          others = λ q h k e.
              find_frame_lem q _ h k r.valid
              ∙ ap ret (frame_others f r q e)
              ∙ sym (find_frame_lem q s h k valid);
          same_view = λ x. ground (arith, r.flags x, r.was x);
        }

    misplaces : (f : Found (p + off) s) → p < start f.area → Misplaces (p + off) p frame s
    misplaces f below =
        let a = f.area in
        let r = replace a (framed a) s valid f.stored refl refl in
        record {
          area = a;
          areas = insert (start a) (framed a) s;
          has = sym (find-area_at (p + off) s fits valid) ∙ f.finds;
          below = below;
          inserts = insert_frame_found f;
          remaps = remap_frame_found f;
          puts = ground (arith, r.at (p + off), f.has);
          valid = r.valid;
          unseen = λ q h k.
              find_frame_lem q _ h k r.valid
              ∙ ap ret (elim (Bool-cases (between (start a) (end a) q)) [
                | inl inside ↦ frame_others f r q (ground (arith, inside, below))
                | inr outside ↦ ground (arith, outside, r.at q)
              ])
              ∙ sym (find_frame_lem q s h k valid);
          same_view = λ x. ground (arith, r.flags x, r.was x);
        }

    -- Both addresses are in the area.
    same_area : (f : Found (p + off) s) → start f.area ≤ p → area_at s p ≡ area_at s (p + off)
    same_area f above =
        let a = f.area in
        let r = replace a a s valid f.stored refl refl in
        (r.was p (ground (arith, f.has, above))).0
        ∙ sym (sym (find-area_at (p + off) s fits valid) ∙ f.finds)

    missing :
        NotFound (p + off) s
        → (view s (p + off) ≡ none)
          × (insert_frame b (p + off) frame s ≡ ret (none, s))
          × (remap_frame b (p + off) frame s ≡ panic)
          × (find_frame b (p + off) s ≡ ret none)
    unfolding insert_frame remap_frame find_frame
    missing f =
        (f.free, ground (arith, f.finds_mut), ground (arith, f.finds_mut), ground (arith, f.finds))

  -- At an address of a word that no area of a valid set has, `insert_frame` changes nothing,
  -- `remap_frame` panics and `find_frame` finds nothing. At one that an area has together with the
  -- start of its page, `insert_frame` returns the frame that `find_frame` found there, and
  -- `find_frame` finds the new one afterwards; `remap_frame` does the same and panics where there
  -- was none. At one of an area that starts inside the page, both put the frame into that area, under
  -- the start of the page, and `find_frame` finds at the start of every page what it found before. In
  -- the last two cases the set stays valid, and the frames of the other pages and the flags of all
  -- addresses stay.
  pub frame_outcomes :
      (p off : ℕ) (frame : B.FrameTrackerRef) (s : MemorySet B)
      → p % page ≡ 0
      → off < page
      → IsUsize (p + off)
      → IsValid s
      → ((view s (p + off) ≡ none)
          × (insert_frame b (p + off) frame s ≡ ret (none, s))
          × (remap_frame b (p + off) frame s ≡ panic)
          × (find_frame b (p + off) s ≡ ret none))
        ⊎ ((view s (p + off) ≢ none)
            × (area_at s p ≡ area_at s (p + off))
            × Stores (p + off) p frame s)
        ⊎ Misplaces (p + off) p frame s
  frame_outcomes p off frame s aligned within fits valid =
      elim (find_outcomes (p + off) s fits valid) [
        | inl f ↦ elim (lt-cases p (start f.area)) [
          | inl below ↦ inr (inr (misplaces p off aligned within fits frame s valid f below))
          | inr above ↦
              let same = same_area p off aligned within fits frame s valid f above in
              inr (
                inl (
                  λ e. absurd (ground (arith, e, f.flags)),
                  same,
                  stores p off aligned within fits frame s valid f same,
                ))
        ]
        | inr f ↦ inl (missing p off aligned within fits frame s valid f)
      ]
