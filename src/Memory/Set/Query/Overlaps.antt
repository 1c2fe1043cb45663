-- ===== src/Memory/Set/Query/Overlaps.antt =====
-- `MemorySet::overlaps` looks at two areas. On a valid set that is enough.
use axmm_crates.Base.{
  ℕ, ◌≤◌, ◌<◌, ◌≡◌, refl, sym, ap, ◌∙◌, ◌≢◌, ◌↔◌, inl, inr, Bool, true, false, ◌||◌, max, none,
  some, [], ◌∷◌, ◌++◌, arith, Bool-cases, lt-cases,
}
use axmm_crates.Base.Word.{IsUsize}
use axmm_crates.Base.BTreeMap.{first}
use axmm_crates.Addr.MemoryAddr.{usize_addr}
use axmm_crates.Addr.AddrRange
use axmm_crates.Addr.AddrRange.{AddrRange}
use axmm_crates.Memory.Backend.{MappingBackend}
use axmm_crates.Memory.Area.{start, end}
use axmm_crates.Memory.Set.{MemorySet}
use axmm_crates.Memory.Set.Query.{overlaps, overlaps_entry}
use axmm_crates.Memory.Set.Chain.{Chain, Chain-le, Located, locate, IsValid, top}
use axmm_crates.Memory.Set.View.{view}

module _ {B : MappingBackend} (range : AddrRange ℕ) where
  -- Some area of the set overlaps with the range.
  pub any_overlaps : MemorySet B → Bool
  any_overlaps [] = false
  any_overlaps ((k, a) ∷ s) = AddrRange.overlaps a.va_range range || any_overlaps s

  any_overlaps-append :
      (s t : MemorySet B) → any_overlaps (s ++ t) ≡ (any_overlaps s || any_overlaps t)
  unfolding any_overlaps
  any_overlaps-append [] t = refl
  any_overlaps-append ((k, a) ∷ s) t = ground (arith, any_overlaps-append s t)

  any_overlaps-above :
      (lo hi : ℕ) (s : MemorySet B) → Chain lo s hi → range.end ≤ lo → any_overlaps s ≡ false
  unfolding any_overlaps AddrRange.overlaps
  any_overlaps-above lo hi [] c h = refl
  any_overlaps-above lo hi ((k, a) ∷ s) c h =
      ground (arith, any_overlaps-above (end a) hi s c.3 (omega arith))

  any_overlaps-below :
      (lo hi : ℕ) (s : MemorySet B) → Chain lo s hi → hi ≤ range.start → any_overlaps s ≡ false
  unfolding any_overlaps AddrRange.overlaps
  any_overlaps-below lo hi [] c h = refl
  any_overlaps-below lo hi ((k, a) ∷ s) c h =
      ground (arith, Chain-le (end a) hi s c.3, any_overlaps-below (end a) hi s c.3 h)

  -- Of the areas from the start of the range on, the first decides.
  any_overlaps-first :
      (lo hi : ℕ) (s : MemorySet B)
      → Chain lo s hi
      → range.start ≤ lo
      → any_overlaps s ≡ overlaps_entry (first s) range
  unfolding any_overlaps AddrRange.overlaps
  any_overlaps-first lo hi [] c h = refl
  any_overlaps-first lo hi ((k, a) ∷ s) c h = elim (lt-cases (start a) range.end) [
    | inl before ↦ ground arith
    | inr past ↦ ground (arith, any_overlaps-above (end a) hi s c.3 (omega (arith, c.1, c.2)))
  ]

  located_lem :
      (s : MemorySet B) (l : Located range.start 0 top s)
      → any_overlaps s ≡ (
          overlaps_entry (some (start l.area, l.area)) range || overlaps_entry (first l.rest) range)
  unfolding any_overlaps
  located_lem s l =
      ap any_overlaps l.shape
      ∙ any_overlaps-append l.init ((start l.area, l.area) ∷ l.rest)
      ∙ ground (
        arith,
        any_overlaps-below 0 (start l.area) l.init l.chain_init (omega (arith, l.starts_below)),
        any_overlaps-first (max range.start (end l.area)) top l.rest l.chain_rest (omega arith),
      )

  -- On a valid set, `overlaps` finds out whether some area overlaps with the range.
  pub overlaps-eq-any :
      (s : MemorySet B) → IsUsize range.start → IsValid s → overlaps range s ≡ any_overlaps s
  unfolding overlaps
  overlaps-eq-any s fits valid = elim (locate range.start 0 top s (omega arith) valid) [
    | inl u ↦ ground (
      arith,
      u.no_last,
      u.all_above,
      any_overlaps-first (max range.start 0) top s u.chain (omega arith),
    )
    | inr l ↦ ground (arith, l.is_last, l.rest_above, located_lem s l)
  ]

  -- Without an area that overlaps, no area has an address of the range.
  any_overlaps-free :
      (s : MemorySet B) (x : ℕ)
      → any_overlaps s ≡ false
      → range.start ≤ x
      → x < range.end
      → view s x ≡ none
  unfolding any_overlaps AddrRange.overlaps view
  any_overlaps-free [] x h p q = refl
  any_overlaps-free ((k, a) ∷ s) x h p q = ground (arith, any_overlaps-free s x)

  -- With one, some address of the range has an area.
  any_overlaps-taken :
      (lo hi : ℕ) (s : MemorySet B)
      → Chain lo s hi
      → range.start < range.end
      → any_overlaps s ≡ true
      → (x : ℕ) × (range.start ≤ x) × (x < range.end) × (view s x ≢ none)
  unfolding any_overlaps AddrRange.overlaps view
  any_overlaps-taken lo hi [] c h e = absurd (ground arith)
  any_overlaps-taken lo hi ((k, a) ∷ s) c h e =
      elim (Bool-cases (AddrRange.overlaps a.va_range range)) [
        | inl hit ↦
            let x = max (start a) range.start in
            (x, omega arith, ground arith, λ free. ground arith)
        | inr miss ↦
            let (x, p, q, taken) = any_overlaps-taken (end a) hi s c.3 h (ground arith) in
            (x, p, q, λ free. ground arith)
      ]

  -- On a valid set, `overlaps` is true of a range that is not empty exactly if the set has an area
  -- at some address of the range.
  pub overlaps-view :
      (s : MemorySet B)
      → range.start < range.end
      → IsUsize range.end
      → IsValid s
      → (overlaps range s ≡ true)
        ↔ ((x : ℕ) × (range.start ≤ x) × (x < range.end) × (view s x ≢ none))
  overlaps-view s order fits valid =
      let same = overlaps-eq-any s (omega arith) valid in
      (
        λ h. any_overlaps-taken 0 top s valid order (sym same ∙ h),
        λ (x, p, q, taken). elim (Bool-cases (any_overlaps s)) [
          | inl hit ↦ same ∙ hit
          | inr miss ↦ absurd (taken (any_overlaps-free s x miss p q))
        ],
      )

  -- A range that does not overlap is free.
  pub overlaps_free :
      (s : MemorySet B) (x : ℕ)
      → IsUsize range.start
      → IsValid s
      → overlaps range s ≡ false
      → range.start ≤ x
      → x < range.end
      → view s x ≡ none
  overlaps_free s x fits valid h p q =
      any_overlaps-free s x (sym (overlaps-eq-any s fits valid) ∙ h) p q
