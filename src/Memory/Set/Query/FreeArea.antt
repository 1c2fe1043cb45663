-- ===== src/Memory/Set/Query/FreeArea.antt =====
-- `MemorySet::find_free_area` is a first fit: it goes along the gaps of the set.
use mathlib.Core.List.{append_assoc}
use axmm_crates.Base.{
  ℕ, ◌+◌, ◌≤◌, ◌<◌, ◌≡◌, refl, sym, subst, ap, ◌∙◌, ◌≢◌, ◌⊎◌, inl, inr, true, max, Option, none,
  some, [], ◌∷◌, ◌++◌, arith, Option-cases, lt-cases, if◌then◌else◌,
}
use axmm_crates.Base.Word.{usize_mod, IsUsize}
use axmm_crates.Base.BTreeMap.{last, range_to, range_from}
use axmm_crates.Addr.MemoryAddr
use axmm_crates.Addr.MemoryAddr.{usize_addr, max_addr}
use axmm_crates.Addr.AddrRange.{AddrRange}
use axmm_crates.Memory.Backend.{MappingBackend}
use axmm_crates.Memory.Backend.Laws.{between}
use axmm_crates.Memory.Area.{start, end}
use axmm_crates.Memory.Set.{MemorySet}
use axmm_crates.Memory.Set.Query.{scan_gaps, find_free_area, max_end, fits_below}
use axmm_crates.Memory.Set.Chain.{
  Chain, Chain-widen, Located, locate, IsValid, top, Chain-append, range_from-append,
}
use axmm_crates.Memory.Set.View.{view, view-cons, view-append, view-above}
use axmm_crates.Memory.Set.Query.Gaps.{
  fits_lem, fits, FreeFrom, Beyond, scan_gaps_sound, scan_gaps-least,
}

module _ {B : MappingBackend} where
  -- Where the loop starts: at the end of the area that has the base, or at the base.
  record Started (base : ℕ) (s : MemorySet B) : Type 0 where
    lo : ℕ
    rest : MemorySet B
    starts : max_end base (last (range_to base s)) ≡ lo
    scans : range_from lo s ≡ rest
    from : base ≤ lo
    chain : Chain lo rest top
    same : (x : ℕ) → lo ≤ x → view s x ≡ view rest x
    taken : (y : ℕ) → base ≤ y → y < lo → view s y ≢ none

  module _ (base : ℕ) (s : MemorySet B) (fits : IsUsize base) (l : Located base 0 top s) where
    view-started :
        (x : ℕ)
        → start l.area ≤ x
        → view s x
          ≡ (if between (start l.area) (end l.area) x then some l.area.flags else view l.rest x)
    view-started x h = ground (
      arith,
      ap (λ t. view t x) l.shape ∙ view-append l.init ((start l.area, l.area) ∷ l.rest) x,
      view-cons (start l.area) l.area l.rest x,
      view-above 0 (start l.area) l.init x l.chain_init h,
    )

    -- The areas up to the located one lie below the start of the loop.
    scans_rest : range_from (max base (end l.area)) s ≡ l.rest
    scans_rest =
        let lo = max base (end l.area) in
        ap (range_from lo)
          (l.shape ∙ sym (append_assoc l.init ((start l.area, l.area) ∷ []) l.rest))
        ∙ range_from-append 0 lo top (l.init ++ ((start l.area, l.area) ∷ [])) l.rest
            (Chain-append 0 (start l.area) lo l.init _ l.chain_init
              (omega arith, refl, l.nonempty, omega arith))
            l.chain_rest

    Started-at : Started base s
    Started-at = record {
      lo = max base (end l.area);
      rest = l.rest;
      starts = ground (arith, l.is_last);
      scans = scans_rest;
      from = omega arith;
      chain = l.chain_rest;
      same = λ x h. ground (arith, view-started x (omega (arith, l.starts_below)));
      taken = λ y p q e.
          ground (arith, view-started y (omega (arith, l.starts_below)), l.starts_below, e);
    }

  started : (base : ℕ) (s : MemorySet B) → IsUsize base → IsValid s → Started base s
  started base s fits valid = elim (locate base 0 top s (omega arith) valid) [
    | inl u ↦ record {
      lo = base;
      rest = s;
      starts = ground (arith, u.no_last);
      scans = u.all_above;
      from = omega arith;
      chain = Chain-widen (max base 0) top base top s (omega arith) (omega arith) u.chain;
      same = λ x h. refl;
      taken = λ y p q. absurd (omega arith);
    }
    | inr l ↦ Started-at base s fits l
  ]

  module _ (hint n : ℕ) (limit : AddrRange ℕ) (s : MemorySet B) where
    -- What is returned with the result of the loop.
    abbrev returned : Option ℕ → ℕ → Option ℕ
    returned (some at) stop = some at
    returned none stop =
        if fits_below (MemoryAddr.checked_add stop n) limit.end then some stop else none

    abbrev run : ℕ → MemorySet B → Option ℕ
    run lo rest = returned (scan_gaps n lo rest).0 (scan_gaps n lo rest).1

    find_free_area-run : find_free_area hint n limit s ≡ (
        let lo =
          max_end (max_addr hint limit.start) (last (range_to (max_addr hint limit.start) s)) in
        run lo (range_from lo s))
    unfolding find_free_area
    find_free_area-run =
        let lo =
          max_end (max_addr hint limit.start) (last (range_to (max_addr hint limit.start) s)) in
        elim (Option-cases (scan_gaps n lo (range_from lo s)).0) [
          | inl e ↦ ground (arith, e)
          | inr e ↦ ground (arith, e.1)
        ]

    result_lem :
        (st : Started (max_addr hint limit.start) s)
        → find_free_area hint n limit s ≡ run st.lo st.rest
    result_lem st =
        find_free_area-run ∙ ap (λ lo. run lo (range_from lo s)) st.starts ∙ ap (run st.lo) st.scans

  -- The address `at` is fit to be returned.
  abbrev pub SoundAt : ℕ → ℕ → AddrRange ℕ → MemorySet B → ℕ → Type 0
  SoundAt hint n limit s at =
      (hint ≤ at)
      × (limit.start ≤ at)
      × (at + n < usize_mod)
      × FreeFrom s at n
      × ((at + n ≤ limit.end) ⊎ Beyond s (at + n))

  -- From a valid set, an address that `find_free_area` returns is at least the hint and the start of
  -- the limit, and the set has none of the `n` addresses from it on, which end in a word. They end
  -- within the limit, or the set has an address after them: the limit is not tested in that case.
  pub find_free_area_sound :
      (hint n : ℕ) (limit : AddrRange ℕ) (s : MemorySet B) (addr : ℕ)
      → IsUsize hint
      → IsUsize limit.start
      → IsValid s
      → find_free_area hint n limit s ≡ some addr
      → SoundAt hint n limit s addr
  find_free_area_sound hint n limit s addr fit_hint fit_start valid h =
      let st = started (max_addr hint limit.start) s (ground arith) valid in
      let e = sym (result_lem hint n limit s st) ∙ h in
      elim (scan_gaps_sound n st.lo top st.rest st.chain) [
        | inl g ↦
            let same : g.at ≡ addr = ground (arith, g.is_found, e) in
            let above : max_addr hint limit.start ≤ g.at = omega (arith, st.from, g.from) in
            subst (λ at. SoundAt hint n limit s at) same
              (
                ground arith,
                ground arith,
                g.in_word,
                λ x p q. st.same x (omega (arith, g.from)) ∙ g.free x p q,
                inr (
                  g.followed.0,
                  g.followed.1,
                  λ none_at.
                      g.followed.2 (
                        sym (st.same g.followed.0 (omega (arith, g.from, g.followed.1))) ∙ none_at),
                ),
              )
        | inr g ↦
            let stop = (scan_gaps n st.lo st.rest).1 in
            let fit : fits_below (MemoryAddr.checked_add stop n) limit.end ≡ true =
              ground (arith, g.not_found, e) in
            let same : stop ≡ addr = ground (arith, g.not_found, e) in
            let (word, within) = fits_lem stop n limit.end fit in
            let above : max_addr hint limit.start ≤ stop = omega (arith, st.from, g.from) in
            subst (λ at. SoundAt hint n limit s at) same
              (
                ground arith,
                ground arith,
                word,
                λ x p q. st.same x (omega (arith, g.from)) ∙ g.clear x p,
                inl within,
              )
      ]

  -- It is the first fit: where the set has none of `n` addresses within the limit and from the hint
  -- on, it returns an address that is at most the first of them.
  pub find_free_area_first :
      (hint n : ℕ) (limit : AddrRange ℕ) (s : MemorySet B) (y : ℕ)
      → 0 < n
      → hint ≤ y
      → limit.start ≤ y
      → y + n ≤ limit.end
      → IsUsize limit.end
      → IsValid s
      → FreeFrom s y n
      → (addr : ℕ) × (find_free_area hint n limit s ≡ some addr) × (addr ≤ y)
  find_free_area_first hint n limit s y pos above_hint above_start below_end fits_end valid free =
      let st = started (max_addr hint limit.start) s (ground arith) valid in
      let from : st.lo ≤ y = elim (lt-cases y st.lo) [
        | inr from ↦ from
        | inl before ↦
            absurd (st.taken y (ground arith) before (free y (omega arith) (omega arith)))
      ] in
      elim (scan_gaps-least n st.lo top y st.rest st.chain pos from (omega arith)
        (λ x p q. sym (st.same x (omega arith)) ∙ free x p q)) [
          | inl (r, is_found, least) ↦
              (r, result_lem hint n limit s st ∙ ground (arith, is_found), least)
          | inr (not_found, least) ↦ (
            _,
            result_lem hint n limit s st
                ∙ ground (
                  arith,
                  not_found,
                  fits (scan_gaps n st.lo st.rest).1 n limit.end (omega arith) (omega arith),
                ),
            least,
          )
        ]
