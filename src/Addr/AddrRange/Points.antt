-- ===== src/Addr/AddrRange/Points.antt =====
-- The tests of `AddrRange` against membership of single addresses.
use axmm_crates.Base.{◌-◌, ◌≤◌, ◌<◌, ◌≡◌, ◌↔◌, inl, inr, true, arith, lt-cases}
use axmm_crates.Addr.MemoryAddr.{MemoryAddr}
use axmm_crates.Addr.AddrRange.{AddrRange, is_empty, size, contains, contained_in, overlaps}
use axmm_crates.Addr.AddrRange.Build.{IsValid}

module _ {A : Type 0} ⦃m : MemoryAddr A⦄ where
  -- `a` is an address of the range `r`.
  abbrev pub Has : AddrRange A → A → Type 0
  Has r a = (m.into r.start ≤ m.into a) × (m.into a < m.into r.end)

  -- `contains` decides membership.
  pub contains_iff : (r : AddrRange A) (a : A) → (contains r a ≡ true) ↔ Has r a
  unfolding contains
  contains_iff r a = (
    λ h. ground (arith, m.cmp-into r.start a, m.cmp-into a r.end),
    λ h. ground (arith, m.cmp-into r.start a, m.cmp-into a r.end),
  )

  -- A range, valid or not, is reported as empty exactly if it has no address.
  pub is_empty_iff : (r : AddrRange A) → (is_empty r ≡ true) ↔ ((a : A) → ¬ Has r a)
  unfolding is_empty
  is_empty_iff r = (
    λ h a k. ground (arith, m.cmp-into r.end r.start),
    λ h. ground (arith, m.cmp-into r.end r.start, h r.start),
  )

  -- A valid range is empty exactly if its size is 0.
  pub is_empty-size : (r : AddrRange A) → IsValid r → (is_empty r ≡ true) ↔ (size r ≡ 0)
  unfolding is_empty size
  is_empty-size r v =
      (λ h. ground (arith, m.cmp-into r.end r.start), λ h. ground (arith, m.cmp-into r.end r.start))

  -- A range with an address is contained in another, by `contained_in`, exactly if the other has
  -- all its addresses.
  pub contained_in_iff :
      (r s : AddrRange A) (a : A)
      → Has r a
      → (contained_in r s ≡ true) ↔ ((x : A) → Has r x → Has s x)
  unfolding contained_in
  contained_in_iff r s a h = (
    λ e x k. ground (arith, m.cmp-into s.start r.start, m.cmp-into r.end s.end),
    λ all.
        let last : A = m.from (m.into r.end - 1) in
        let e : m.into last ≡ m.into r.end - 1 = m.into-from (m.into r.end - 1) in
        ground (
          arith,
          m.cmp-into s.start r.start,
          m.cmp-into r.end s.end,
          all r.start (omega arith),
          all last (rw e (omega arith)),
          e,
        ),
  )

  -- Two ranges with a common address overlap, and two ranges that overlap and have an address each
  -- have a common one.
  pub overlaps_iff :
      (r s : AddrRange A) (a b : A)
      → Has r a
      → Has s b
      → (overlaps r s ≡ true) ↔ ((x : A) × Has r x × Has s x)
  unfolding overlaps
  overlaps_iff r s a b hr hs = (
    λ e. elim (lt-cases (m.into r.start) (m.into s.start)) [
      | inl h ↦ (s.start, ground (arith, m.cmp-into s.start r.end), omega arith)
      | inr h ↦ (r.start, omega arith, ground (arith, m.cmp-into r.start s.end))
    ],
    λ common. ground (arith, m.cmp-into r.start s.end, m.cmp-into s.start r.end),
  )
