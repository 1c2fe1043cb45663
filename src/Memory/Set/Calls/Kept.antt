-- ===== src/Memory/Set/Calls/Kept.antt =====
-- The frames that a call does not touch.
use axmm_crates.Base.{
  ℕ, ◌-◌, ◌%◌, ◌≤◌, ◌<◌, ◌≡◌, ◌≢◌, refl, sym, subst, ap, ◌∙◌, inl, inr, Bool, true, false, Option,
  none, some, [], ◌∷◌, arith, Bool-cases, Option-cases, ◌==◌, ret, Build,
}
use axmm_crates.Base.Ensures.{Ensures-ret, bind, holds}
use axmm_crates.Base.Word.{IsUsize}
use axmm_crates.Base.BTreeMap.Entries.{All, map-All, All-both}
use axmm_crates.Addr.MemoryAddr.Pages.{page}
use axmm_crates.Memory.Errors.{MappingResult}
use axmm_crates.Memory.Backend.{MappingBackend}
use axmm_crates.Memory.Backend.Laws.{between}
use axmm_crates.Memory.Area.{MemoryArea, start, end}
use axmm_crates.Memory.Area.Sound.{insert_frame-IsSound}
use axmm_crates.Memory.Backend.Laws.{MapsInRange}
use axmm_crates.Memory.Area.Keeps.{
  Has, Has-IsClosed, exempt-HasFrames, map_area-Has, insert_frame-HasFrames,
}
use axmm_crates.Memory.Set.{MemorySet}
use axmm_crates.Memory.Set.Chain.{Chain, IsValid, top}
use axmm_crates.Memory.Set.View.{view}
use axmm_crates.Memory.Set.At.{area_at, area_at-has}
use axmm_crates.Memory.Set.Frames.{find_frame}
use axmm_crates.Memory.Set.Frames.Access.{frame_at, find_frame_lem}
use axmm_crates.Memory.Set.Closed.{AllAre, Keeps}
use axmm_crates.Memory.Set.Closed.Change.{insert-AllAre, delete-AllAre, map-Keeps, unmap-Keeps}
use axmm_crates.Memory.Set.Closed.Protect.{protect-Keeps}
use axmm_crates.Memory.Set.Closed.Frame.{insert_frame-AllAre}
use axmm_crates.Memory.Set.Sound.{AreSound}
use axmm_crates.Memory.Set.Calls.{
  Op, insert_op, delete_op, map_op, unmap_op, protect_op, clear_op, insert_frame_op, apply,
}
use axmm_crates.Memory.Set.Calls.Framed.{IsFramed, framed-IsProper}
use axmm_crates.Memory.Set.Calls.Returns.{applies}

module _ {B : MappingBackend} where
  -- The call may change the frame of the page at `p`: of a new area, of the page that gets a frame, or
  -- of any page, by `clear`.
  abbrev pub touches : Op B → ℕ → Bool
  touches (insert_op a) p = between (start a) (end a) p
  touches (map_op a b flags) p = between (start a) (end a) p
  touches (delete_op k) p = false
  touches (unmap_op first n) p = false
  touches (protect_op first n update_flags) p = false
  touches clear_op p = true
  touches (insert_frame_op b vaddr frame) p = p == (vaddr - vaddr % page)

  apply-Keeps :
      (F : ℕ → Option B.FrameTrackerRef) (op : Op B) (s : MemorySet B) (pt : B.PageTable) (p : ℕ)
      → MapsInRange B
      → IsFramed op
      → touches op p ≡ false
      → AllAre (Has F (touches op)) s
      → Keeps (Has F (touches op)) (apply op s pt)
  unfolding apply
  apply-Keeps F (insert_op a) s pt p L f t h =
      bind
        (insert-AllAre (Has F (touches (insert_op a))) a false s
          (f, exempt-HasFrames F (touches (insert_op a)) a (λ x q r. ground arith)) h)
        λ (result, areas) kept. holds kept
  apply-Keeps F (delete_op k) s pt p L f t h =
      holds (delete-AllAre (Has F (touches (delete_op k))) k s h)
  apply-Keeps F (map_op a b flags) s pt p L f t h =
      let op = map_op a b flags in
      map-Keeps (Has F (touches op)) (Has-IsClosed F (touches op)) a b flags s pt
        (λ pt'. map_area-Has F (touches op) flags a pt' L (λ x q r. ground arith) f) h
  apply-Keeps F (unmap_op first n) s pt p L f t h =
      let op = unmap_op first n in
      unmap-Keeps (Has F (touches op)) (Has-IsClosed F (touches op)) first n s pt h
  apply-Keeps F (protect_op first n update_flags) s pt p L f t h =
      let op = protect_op first n update_flags in
      protect-Keeps (Has F (touches op)) (Has-IsClosed F (touches op)) first n update_flags s pt h
  apply-Keeps F clear_op s pt p L f t h = absurd (ground (arith, t))
  apply-Keeps F (insert_frame_op b vaddr frame) s pt p L f t h =
      let op = insert_frame_op b vaddr frame in
      bind
        (insert_frame-AllAre (Has F (touches op)) b vaddr frame s f
          (λ a lo hi has. (
            insert_frame-IsSound (vaddr - vaddr % page) frame a
                (omega arith, omega arith, omega arith) has.0,
            insert_frame-HasFrames F (touches op) (vaddr - vaddr % page) frame a (ground arith)
                has.1,
          ))
          h)
        λ (old, areas) kept. holds kept

  -- Each area of a chain is the area at each of its addresses, and above the start of the chain.
  IsAt : ℕ → MemorySet B → ℕ → MemoryArea B → Type 0
  IsAt lo s k a = (lo ≤ start a) × ((x : ℕ) → start a ≤ x → x < end a → area_at s x ≡ some a)

  Chain-IsAt : (lo hi : ℕ) (s : MemorySet B) → Chain lo s hi → All (IsAt lo s) s
  unfolding area_at IsAt
  Chain-IsAt lo hi [] c = tt
  Chain-IsAt lo hi ((k, a) ∷ s) c = (
    (omega (arith, c.0, c.1), λ x p q. ground arith),
    map-All s
        (λ j b at. (omega (arith, at.0, c.0, c.1, c.2), λ x p q. ground (arith, at.0, at.1 x p q)))
        (Chain-IsAt (end a) hi s c.3),
  )

  area_at-All :
      (P : MemoryArea B → Type 0) (s : MemorySet B) (x : ℕ) (a : MemoryArea B)
      → AllAre P s
      → area_at s x ≡ some a
      → P a
  unfolding area_at
  area_at-All P [] x a h e = absurd (ground (arith, e))
  area_at-All P ((k, b) ∷ s) x a h e = elim (Bool-cases (between (start b) (end b) x)) [
    | inl here ↦ subst P (ground (arith, here, e)) h.0
    | inr there ↦ area_at-All P s x a h.1 (ground (arith, there, e))
  ]

  view-area_at : (s : MemorySet B) (x : ℕ) → area_at s x ≡ none → view s x ≡ none
  unfolding area_at view
  view-area_at [] x e = refl
  view-area_at ((k, a) ∷ s) x e = ground (arith, view-area_at s x)

  -- The frames that a set has at first.
  first_frames :
      (b : Build) (exempt : ℕ → Bool) (s : MemorySet B)
      → IsValid s
      → AreSound s
      → AllAre (Has (frame_at b s) exempt) s
  unfolding IsAt
  first_frames b exempt s valid sound =
      All-both s (λ k a at h. (h, λ p q r e. ground (arith, at.1 p q r))) (Chain-IsAt 0 top s valid)
        sound

  frame_at_kept :
      (b : Build) (op : Op B) (s s' : MemorySet B) (p : ℕ)
      → touches op p ≡ false
      → AllAre (Has (frame_at b s) (touches op)) s'
      → view s' p ≢ none
      → frame_at b s' p ≡ frame_at b s p
  frame_at_kept b op s s' p t h mapped = elim (Option-cases (area_at s' p)) [
    | inl e ↦ absurd (mapped (view-area_at s' p e))
    | inr (a, e) ↦
        let has = area_at-All (Has (frame_at b s) (touches op)) s' p a h e in
        let within = area_at-has s' p a e in
        ground (arith, e, has.1 p (ground (arith, within)) (ground (arith, within)) t)
  ]

  -- Over any backend that returns frames for pages of the range that it maps and no others, on a valid
  -- set of sound areas, let a proper call, whose area is sound, return, with an error or not. Then at
  -- the start of a page, where the set still has an address, `find_frame` finds what it found before,
  -- unless the call touches the page: `insert` and `map` touch those that start in the area,
  -- `insert_frame` that of its address, and `clear` all. So `unmap`, `protect` and `delete` lose no
  -- frame of a page whose first address stays.
  pub untouched_frames :
      (b : Build) (op : Op B) (s s' : MemorySet B) (pt pt' : B.PageTable)
      (result : MappingResult (Unit {0})) (p : ℕ)
      → MapsInRange B
      → IsValid s
      → AreSound s
      → IsFramed op
      → apply op s pt ≡ ret (result, s', pt')
      → p % page ≡ 0
      → IsUsize p
      → touches op p ≡ false
      → view s' p ≢ none
      → find_frame b p s' ≡ find_frame b p s
  untouched_frames b op s s' pt pt' result p L valid sound f e al word t mapped =
      let kept =
        Ensures-ret
          (apply-Keeps (frame_at b s) op s pt p L f t (first_frames b (touches op) s valid sound))
          e in
      let valid' : IsValid s' = elim (applies s pt valid op (framed-IsProper op f)) [
        | inl r ↦
            let same : r.areas ≡ s' = ground (arith, r.returns, e) in subst IsValid same r.valid
        | inr (panics, why) ↦ absurd (ground (arith, panics, e))
      ] in
      find_frame_lem b p s' al word valid'
      ∙ ap ret (frame_at_kept b op s s' p t kept mapped)
      ∙ sym (find_frame_lem b p s al word valid)
