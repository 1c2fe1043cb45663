-- ===== src/Memory/Set/Calls/Framed.antt =====
-- The frames of the areas of the sets that calls lead to: the calls are those of Calls/Steps, of areas
-- whose frames are for pages of them.
use axmm_crates.Base.{
  ℕ, ◌+◌, ◌-◌, ◌≤◌, ◌<◌, ◌≡◌, sym, subst, lt-cases, inl, inr, arith, some, ◌∷◌, false,
}
use axmm_crates.Base.{[], ◌∷◌}
use axmm_crates.Base.Ensures.{Ensures-ret, bind, holds}
use axmm_crates.Base.Word.{IsUsize}
use axmm_crates.Base.BTreeMap.Entries.{All, map-All, All-both}
use axmm_crates.Addr.MemoryAddr.Pages.{page}
use axmm_crates.Memory.Backend.{MappingBackend}
use axmm_crates.Memory.Area.{MemoryArea, start, end}
use axmm_crates.Memory.Area.Sound.{IsSound, map_area-Sound}
use axmm_crates.Memory.Area.Sound.Cut.{IsSound-IsClosed}
use axmm_crates.Memory.Backend.Laws.{Backs, MapsInRange}
use axmm_crates.Memory.Set.{MemorySet, new}
use axmm_crates.Memory.Set.Chain.{Chain, IsValid, top}
use axmm_crates.Memory.Set.View.{view}
use axmm_crates.Memory.Set.Calls.{
  Op, insert_op, delete_op, map_op, unmap_op, protect_op, clear_op, insert_frame_op, IsProper,
  apply,
}
use axmm_crates.Memory.Set.Calls.Steps.{call, adjust, others, Reach, here, next, Reach-IsValid}
use axmm_crates.Memory.Set.Closed.Change.{insert-AllAre, delete-AllAre, map-Keeps, unmap-Keeps}
use axmm_crates.Memory.Set.Closed.Protect.{protect-Keeps}
use axmm_crates.Memory.Set.Sound.{AreSound, Keeps, clear-Keeps}
use axmm_crates.Memory.Set.Sound.Adjust.{insert_frame-AreSound, adjust_area-Keeps}

module _ {B : MappingBackend} where
  -- A proper call, whose area is sound.
  abbrev pub IsFramed : Op B → Type 0
  IsFramed (insert_op a) = IsSound a
  IsFramed (map_op a b flags) = IsSound a
  IsFramed (delete_op k) = Unit
  IsFramed (unmap_op first n) = Unit
  IsFramed (protect_op first n update_flags) = 0 < n
  IsFramed clear_op = Unit
  IsFramed (insert_frame_op b vaddr frame) = IsProper {B = B} (insert_frame_op b vaddr frame)

  pub framed-IsProper : (op : Op B) → IsFramed op → IsProper op
  framed-IsProper (insert_op a) s = s.fits
  framed-IsProper (map_op a b flags) s = s.fits
  framed-IsProper (delete_op k) s = s
  framed-IsProper (unmap_op first n) s = s
  framed-IsProper (protect_op first n update_flags) s = s
  framed-IsProper clear_op s = s
  framed-IsProper (insert_frame_op b vaddr frame) s = s

  apply-Keeps :
      (op : Op B) (s : MemorySet B) (pt : B.PageTable)
      → MapsInRange B
      → IsFramed op
      → AreSound s
      → Keeps (apply op s pt)
  unfolding apply
  apply-Keeps (insert_op a) s pt L p h =
      bind (insert-AllAre IsSound a false s p h) λ (result, areas) kept. holds kept
  apply-Keeps (delete_op k) s pt L p h = holds (delete-AllAre IsSound k s h)
  apply-Keeps (map_op a b flags) s pt L p h =
      map-Keeps IsSound IsSound-IsClosed a b flags s pt (λ pt'. map_area-Sound flags a pt' L p) h
  apply-Keeps (unmap_op first n) s pt L p h = unmap-Keeps IsSound IsSound-IsClosed first n s pt h
  apply-Keeps (protect_op first n update_flags) s pt L p h =
      protect-Keeps IsSound IsSound-IsClosed first n update_flags s pt h
  apply-Keeps clear_op s pt L p h = clear-Keeps s pt h
  apply-Keeps (insert_frame_op b vaddr frame) s pt L p h =
      bind (insert_frame-AreSound b vaddr frame s p h) λ (old, areas) kept. holds kept

  Reach-AreSound :
      {x y : MemorySet B × B.PageTable}
      → MapsInRange B
      → Reach B IsFramed x y
      → AreSound x.0
      → AreSound y.0
  Reach-AreSound L here h = h
  Reach-AreSound L (next r (others pt')) h = Reach-AreSound L r h
  Reach-AreSound L (next r (call {s} {pt} op p e)) h =
      Ensures-ret (apply-Keeps op s pt L p (Reach-AreSound L r h)) e
  Reach-AreSound L (next r (adjust {s} {pt} b a last f e)) h =
      let f_order = f.order in
      let f_word = f.word in
      Ensures-ret
        (adjust_area-Keeps b (start a) (start a) last s pt L
          (λ a' e'.
            let same : a' ≡ a = ground (arith, f.there, e') in
            subst (λ v. IsUsize (start a + (last - start v))) (sym same) (omega arith))
          (Reach-AreSound L r h))
        e

  -- An area of a chain from `lo` on, with its flags at each of its addresses.
  Shows : ℕ → MemorySet B → ℕ → MemoryArea B → Type 0
  Shows lo s k a = (lo ≤ start a) × ((x : ℕ) → start a ≤ x → x < end a → view s x ≡ some a.flags)

  Chain-Shows : (lo hi : ℕ) (s : MemorySet B) → Chain lo s hi → All (Shows lo s) s
  unfolding view Shows
  Chain-Shows lo hi [] c = tt
  Chain-Shows lo hi ((k, a) ∷ s) c = (
    (omega (arith, c.0, c.1), λ x p q. ground arith),
    map-All s
        (λ j b shows.
          (omega (arith, shows.0, c.0, c.1, c.2), λ x p q. ground (arith, shows.0, shows.1 x p q)))
        (Chain-Shows (end a) hi s c.3),
  )

  -- Of the page at `p` the set has an address, with the flags.
  abbrev pub HasByte : MemorySet B → B.Flags → ℕ → B.FrameTrackerRef → Type 0
  HasByte s flags p frame = (x : ℕ) × (p ≤ x) × (x < p + page) × (view s x ≡ some flags)

  -- This is so for each frame of each area of the set.
  abbrev pub AreBacked : MemorySet B → Type 0
  AreBacked s = All (λ k a. All (HasByte s a.flags) a.frames) s

  Backs-HasByte :
      (s : MemorySet B) (k : ℕ) (a : MemoryArea B) (p : ℕ) (frame : B.FrameTrackerRef)
      → IsSound a
      → Shows 0 s k a
      → Backs (start a) (end a) p frame
      → HasByte s a.flags p frame
  unfolding Shows
  Backs-HasByte s k a p frame sound shows m = elim (lt-cases p (start a)) [
    | inl below ↦ (start a, omega arith, m.0, shows.1 (start a) (omega arith) sound.nonempty)
    | inr above ↦ (p, omega arith, omega arith, shows.1 p above m.1)
  ]

  backed : (s : MemorySet B) → IsValid s → AreSound s → AreBacked s
  backed s valid sound =
      All-both s
        (λ k a shows here.
          map-All a.frames (λ p frame m. Backs-HasByte s k a p frame here shows m) here.backing)
        (Chain-Shows 0 top s valid) sound

  -- Over any backend that returns frames for pages of the range that it maps and no others, take a set
  -- that calls lead to from an empty one, whatever errors they reported. The calls are those of
  -- `reached_sets_IsValid`, where an area that is given to `insert` or `map` is sound: it is not
  -- empty, it ends in a word, and its frames, in ascending order, are for pages that have an address
  -- of it. Then every area of the set is sound, and of a page of which an area has a frame the set has
  -- an address, with the flags of that area: no frame outlives its page.
  pub reached_frames :
      (pt pt' : B.PageTable) (s : MemorySet B)
      → MapsInRange B
      → Reach B IsFramed (new, pt) (s, pt')
      → AreSound s × AreBacked s
  reached_frames pt pt' s L r =
      let sound = Reach-AreSound L r tt in
      (sound, backed s (Reach-IsValid framed-IsProper r (omega arith)) sound)
