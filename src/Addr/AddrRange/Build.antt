-- ===== src/Addr/AddrRange/Build.antt =====
-- What the constructors of `AddrRange` build, and when they fail.
use axmm_crates.Base.{
  ℕ, Bool-cases, inl, inr, refl, ◌+◌, ◌≤◌, ◌<◌, ◌≡◌, ◌⊎◌, Option, none, some, ltb, arith, Outcome,
  ret, panic, if◌then◌else◌,
}
use axmm_crates.Base.Word.{IsUsize, usize_mod}
use axmm_crates.Addr.MemoryAddr.{MemoryAddr, le_addr}
use axmm_crates.Addr.AddrRange.{
  AddrRange, new, try_new, from_start_size, try_from_start_size, from_start_size_unchecked, size,
  ok, err, try_from, addr_range, to_range,
}

-- The range is valid: its start does not exceed its end, and its end is an address of a word.
pub record IsValid {A : Type 0} ⦃m : MemoryAddr A⦄ (r : AddrRange A) : Type 0 where
  pub ordered : m.into r.start ≤ m.into r.end
  pub fits : IsUsize (m.into r.end)

-- `o` holds a range `r`, which is valid, with `P r`; or it is `none`, and `Q` holds.
abbrev pub Built :
    {A : Type 0} ⦃m : MemoryAddr A⦄
    → Option (AddrRange A)
    → (AddrRange A → Type 0)
    → Type 0
    → Type 0
Built none P Q = Q
Built (some r) P Q = IsValid r × P r

abbrev pub or_panic {ℓ} : {A : Type ℓ} → Option A → Outcome A
or_panic none = panic
or_panic (some a) = ret a

module _ {A : Type 0} ⦃m : MemoryAddr A⦄ where
  -- `try_new` builds the valid range of its two end points, or returns `None` where the start exceeds
  -- the end, which lies in a word; `new` panics instead.
  pub try_new_total :
      (start end : A)
      → IsUsize (m.into end)
      → Built
          (try_new start end)
          (λ r. (r.start ≡ start) × (r.end ≡ end))
          (m.into end < m.into start)
        × (new start end ≡ or_panic (try_new start end))
  unfolding try_new new
  try_new_total start end fits = elim (Bool-cases (le_addr start end)) [
    | inl e ↦ rw e (
      (record { ordered = ground (arith, m.cmp-into start end); fits = fits }, (refl, refl)),
      refl,
    )
    | inr e ↦ rw e (ground (arith, m.cmp-into start end), refl)
  ]

  -- `try_from_start_size` builds a valid range of the given size at the given start, or returns `None`
  -- where their sum does not fit a word; `from_start_size` panics instead. Where the sum fits,
  -- `from_start_size_unchecked` builds the same range.
  pub try_from_start_size_total :
      (start : A) (n : ℕ)
      → Built
          (try_from_start_size start n)
          (λ r. (r.start ≡ start) × (size r ≡ n))
          (usize_mod ≤ m.into start + n)
        × (from_start_size start n ≡ or_panic (try_from_start_size start n))
        × (try_from_start_size start n ≡ (
            if ltb (m.into start + n) usize_mod
            then some (from_start_size_unchecked start n)
            else none))
  unfolding try_from_start_size from_start_size from_start_size_unchecked size
  try_from_start_size_total start n = elim (Bool-cases (ltb (m.into start + n) usize_mod)) [
    | inl e ↦ (ground (arith, m.into-from (m.into start + n)), ground arith, ground arith)
    | inr e ↦ (ground arith, ground arith, ground arith)
  ]

  -- A range expression whose end lies in a word: if its start does not exceed its end, `try_from`,
  -- `new` and the macro `addr_range!` all give the same valid range of the two converted end points,
  -- and the range converts back to them. Otherwise `try_from` is an error, and the other two panic.
  pub try_from_total :
      {T : Type 0} (into : T → A) (start end : T)
      → IsUsize (m.into (into end))
      → ((r : AddrRange A) × IsValid r
          × (try_from into start end ≡ ok r)
          × (addr_range into start end ≡ ret r)
          × (new (into start) (into end) ≡ ret r)
          × (to_range r ≡ record { start = m.into (into start); end = m.into (into end) })
          × (try_from m.from (to_range r).start (to_range r).end ≡ ok r))
        ⊎ ((m.into (into end) < m.into (into start))
            × (try_from into start end ≡ err)
            × (addr_range into start end ≡ panic)
            × (new (into start) (into end) ≡ panic))
  unfolding try_from try_new addr_range new to_range
  try_from_total into start end fits = elim (Bool-cases (le_addr (into start) (into end))) [
    | inl e ↦ inl (
      record { start = into start; end = into end },
      record { ordered = ground (arith, e, m.cmp-into (into start) (into end)); fits = fits },
      rw e refl,
      ground (arith, e),
      rw e refl,
      refl,
      ground (arith, e, m.from-into (into start), m.from-into (into end)),
    )
    | inr e ↦ inr (
      ground (arith, e, m.cmp-into (into start) (into end)),
      rw e refl,
      ground (arith, e),
      rw e refl,
    )
  ]
