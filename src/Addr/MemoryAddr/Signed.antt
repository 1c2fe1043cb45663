-- ===== src/Addr/MemoryAddr/Signed.antt =====
-- The signed operations of `MemoryAddr`: exactness of `offset_from`, and that it and `offset` undo
-- one another.
use axmm_crates.Base.{
  ℕ, suc, ◌+◌, ◌-◌, zero, ◌≡◌, ◌⊎◌, ◌↔◌, ap, ◌∙◌, Bool, arith, ret, panic, ltb, leb, if◌then◌else◌,
}
use axmm_crates.Base.Word.{IsUsize, IsIsize, ℤ, pos, negsuc}
use axmm_crates.Addr.MemoryAddr.{MemoryAddr, offset, wrapping_offset, offset_from}

-- `a - b`, and the test that an `isize` holds it.
abbrev pub distance : ℕ → ℕ → ℤ
distance a b = if leb b a then pos (a - b) else negsuc (b - a - 1)

abbrev pub fits_isize : ℤ → Bool
fits_isize (pos n) = ltb n 0x8000_0000_0000_0000
fits_isize (negsuc n) = ltb n 0x8000_0000_0000_0000

-- `-d`
abbrev pub opposite : ℤ → ℤ
opposite (pos zero) = pos zero
opposite (pos (suc n)) = negsuc n
opposite (negsuc n) = pos (suc n)

module _ {A : Type 0} ⦃m : MemoryAddr A⦄ where
  -- Between two addresses of a word `offset_from` returns their distance if an `isize` holds it, and
  -- panics otherwise.
  pub offset_from_exact :
      (a b : A)
      → IsUsize (m.into a)
      → IsUsize (m.into b)
      → offset_from a b ≡ (
          if fits_isize (distance (m.into a) (m.into b))
          then ret (distance (m.into a) (m.into b))
          else panic)
  unfolding offset_from
  offset_from_exact a b fa fb = ground (arith, m.cmp-into b a)

  -- `offset_from a b` returns `d` exactly if `d` is an `isize` and `b` offset by `d` is `a`, for
  -- addresses of a word.
  pub offset_from-offset :
      (a b : A) (d : ℤ)
      → IsUsize (m.into a)
      → IsUsize (m.into b)
      → (offset_from a b ≡ ret d) ↔ (IsIsize d × (offset b d ≡ ret a))
  unfolding offset
  offset_from-offset a b (pos n) fa fb = (
    λ h. ground (arith, offset_from_exact a b fa fb, m.from-into a),
    λ h. ground (arith, offset_from_exact a b fa fb, m.into-from (m.into b + n)),
  )
  offset_from-offset a b (negsuc n) fa fb = (
    λ h. ground (arith, offset_from_exact a b fa fb, m.from-into a),
    λ h. ground (arith, offset_from_exact a b fa fb, m.into-from (m.into b - suc n)),
  )

  from-eq : (a : A) (n : ℕ) → n ≡ m.into a → m.from n ≡ a
  from-eq a n e = ap m.from e ∙ m.from-into a

  -- From an address of a word, `wrapping_offset` by an `isize` is undone by the opposite offset, and
  -- `offset` panics or returns what `wrapping_offset` does.
  pub wrapping_offset_inverse :
      (a : A) (d : ℤ)
      → IsUsize (m.into a)
      → IsIsize d
      → (wrapping_offset (wrapping_offset a d) (opposite d) ≡ a)
        × ((offset a d ≡ panic) ⊎ (offset a d ≡ ret (wrapping_offset a d)))
  unfolding wrapping_offset offset
  wrapping_offset_inverse a (pos zero) fa fd =
      (from-eq a _ (rw m.into-from (omega arith)), ground arith)
  wrapping_offset_inverse a (pos (suc n)) fa fd =
      (from-eq a _ (rw m.into-from (omega arith)), ground arith)
  wrapping_offset_inverse a (negsuc n) fa fd =
      (from-eq a _ (rw m.into-from (omega arith)), ground arith)
