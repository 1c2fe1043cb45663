-- ===== src/Memory/Set/Query/Gaps.antt =====
-- The loop of `find_free_area` along the gaps of a set.
use axmm_crates.Base.{
  ℕ, ◌+◌, ◌≤◌, ◌<◌, ◌≡◌, refl, ◌≢◌, ◌⊎◌, inl, inr, true, Option, none, some, [], ◌∷◌, arith,
  Bool-cases, lt-cases,
}
use axmm_crates.Base.Word.{usize_mod}
use axmm_crates.Addr.MemoryAddr
use axmm_crates.Addr.MemoryAddr.{usize_addr, max_addr}
use axmm_crates.Memory.Backend.{MappingBackend}
use axmm_crates.Memory.Area.{end}
use axmm_crates.Memory.Set.{MemorySet}
use axmm_crates.Memory.Set.Query.{scan_gaps, fits_below}
use axmm_crates.Memory.Set.Chain.{Chain}
use axmm_crates.Memory.Set.View.{view, view-below}

pub fits_lem :
    (lo n bound : ℕ)
    → fits_below (MemoryAddr.checked_add lo n) bound ≡ true
    → (lo + n < usize_mod) × (lo + n ≤ bound)
unfolding MemoryAddr.checked_add
fits_lem lo n bound h = (ground arith, ground arith)

pub fits :
    (lo n bound : ℕ)
    → lo + n < usize_mod
    → lo + n ≤ bound
    → fits_below (MemoryAddr.checked_add lo n) bound ≡ true
unfolding MemoryAddr.checked_add
fits lo n bound h k = ground arith

module _ {B : MappingBackend} where
  -- The set has none of the `n` addresses from `first` on.
  abbrev pub FreeFrom : MemorySet B → ℕ → ℕ → Type 0
  FreeFrom s first n = (x : ℕ) → first ≤ x → x < first + n → view s x ≡ none

  -- The set has an address from `e` on.
  abbrev pub Beyond : MemorySet B → ℕ → Type 0
  Beyond s e = (y : ℕ) × (e ≤ y) × (view s y ≢ none)

  -- What the loop says: a gap, or the end of the last area.
  pub record Gap (lo n : ℕ) (s : MemorySet B) (found : Option ℕ) : Type 0 where
    pub at : ℕ
    pub is_found : found ≡ some at
    pub from : lo ≤ at
    pub in_word : at + n < usize_mod
    pub free : FreeFrom s at n
    pub followed : Beyond s (at + n)

  pub record NoGap (lo hi : ℕ) (s : MemorySet B) (found : Option ℕ) (stop : ℕ) : Type 0 where
    pub not_found : found ≡ none
    pub from : lo ≤ stop
    pub to : stop ≤ hi
    pub clear : (x : ℕ) → stop ≤ x → view s x ≡ none

  pub scan_gaps_sound :
      (n lo hi : ℕ) (s : MemorySet B)
      → Chain lo s hi
      → Gap lo n s (scan_gaps n lo s).0 ⊎ NoGap lo hi s (scan_gaps n lo s).0 (scan_gaps n lo s).1
  unfolding scan_gaps view
  scan_gaps_sound n lo hi [] c =
      inr (record { not_found = refl; from = omega arith; to = c; clear = λ x h. refl })
  scan_gaps_sound n lo hi ((k, a) ∷ s) c =
      elim (Bool-cases (fits_below (MemoryAddr.checked_add lo n) k)) [
        | inl fit ↦
            let (word, before) = fits_lem lo n k fit in
            inl (record {
              at = lo;
              is_found = rw fit refl;
              from = omega arith;
              in_word = word;
              free = λ x p q. ground (arith, view-below (end a) hi s x c.3);
              followed = (k, before, λ e. ground arith);
            })
        | inr tight ↦ rw tight (elim (scan_gaps_sound n (end a) hi s c.3) [
          | inl g ↦ inl (record {
            at = g.at;
            is_found = g.is_found;
            from = omega (arith, g.from);
            in_word = g.in_word;
            free = λ x p q. ground (arith, g.free x p q, g.from);
            followed = (g.followed.0, g.followed.1, λ e. ground (arith, g.followed.2));
          })
          | inr g ↦ inr (record {
            not_found = g.not_found;
            from = omega (arith, g.from);
            to = g.to;
            clear = λ x h. ground (arith, g.clear x h, g.from);
          })
        ])
      ]

  pub scan_gaps-least :
      (n lo hi y : ℕ) (s : MemorySet B)
      → Chain lo s hi
      → 0 < n
      → lo ≤ y
      → y + n < usize_mod
      → FreeFrom s y n
      → ((r : ℕ) × ((scan_gaps n lo s).0 ≡ some r) × (r ≤ y))
        ⊎ (((scan_gaps n lo s).0 ≡ none) × ((scan_gaps n lo s).1 ≤ y))
  unfolding scan_gaps view
  scan_gaps-least n lo hi y [] c pos from word free = inr (refl, from)
  scan_gaps-least n lo hi y ((k, a) ∷ s) c pos from word free =
      elim (Bool-cases (fits_below (MemoryAddr.checked_add lo n) k)) [
        | inl fit ↦ inl (lo, rw fit refl, from)
        | inr tight ↦
            let past : k ≤ y = elim (lt-cases y k) [
              | inr h ↦ h
              | inl h ↦ elim (lt-cases k (y + n)) [
                | inl h' ↦ absurd (ground (arith, free k (omega arith) h'))
                | inr h' ↦ absurd (ground (arith, fits lo n k (omega arith) (omega arith)))
              ]
            ] in
            let after : end a ≤ y = ground (arith, free y (omega arith) (omega arith)) in
            rw tight (
              scan_gaps-least n (end a) hi y s c.3 pos after word
                λ x p q. ground (arith, free x p q))
      ]
