-- ===== src/Addr/Align/Bounds.antt =====
-- The alignment functions against their descriptions: the greatest aligned address below, the least
-- aligned address above, the remainder.
use native.Mathlib.Nat.{one-le-pow, div-add-mod', mod-lt, mul-mod_left, mul-le-mul_right}
use axmm_crates.Base.{
  ℕ, suc, inl, inr, lt-cases, ap, ◌∙◌, ◌+◌, ◌-◌, ◌*◌, ◌/◌, ◌%◌, ◌^◌, ◌≤◌, ◌<◌, ◌≡◌, arith, ret,
  panic, Build, debug, release, ◌==◌,
}
use axmm_crates.Base.Word.{usize_mod, IsUsize}
use axmm_crates.Addr.Align.{align_down, align_up, align_offset, is_aligned}
use axmm_crates.Addr.Align.Laws.{
  align_down_lem, align_up_lem, align_offset_lem, is_aligned_lem, bit_and-bit_not,
}

-- `x` is a multiple of `p`.
abbrev pub IsMultiple : ℕ → ℕ → Type 0
IsMultiple p x = x % p ≡ 0

-- `x` is the greatest multiple of `p` that is at most `a`.
pub record IsGreatestBelow (p a x : ℕ) : Type 0 where
  pub aligned : IsMultiple p x
  pub below : x ≤ a
  pub greatest : (y : ℕ) → IsMultiple p y → y ≤ a → y ≤ x

-- `x` is the least multiple of `p` that is at least `a`.
pub record IsLeastAbove (p a x : ℕ) : Type 0 where
  pub aligned : IsMultiple p x
  pub above : a ≤ x
  pub least : (y : ℕ) → IsMultiple p y → a ≤ y → x ≤ y

module _ (p : ℕ) (positive : 1 ≤ p) where
  -- A multiple that exceeds another one by less than `p` does not exceed it.
  multiple-le : (x q r : ℕ) → IsMultiple p x → x ≤ q * p + r → r < p → x ≤ q * p
  multiple-le x q r m h fits = elim (lt-cases q (x / p)) [
    | inl more ↦
        absurd (omega (arith, div-add-mod' x p, mul-le-mul_right {m = suc q} {n = x / p} p more))
    | inr less ↦ omega (arith, div-add-mod' x p, mul-le-mul_right {m = x / p} {n = q} p less)
  ]

  pub greatest_below : (a : ℕ) → IsGreatestBelow p a (a / p * p)
  greatest_below a = record {
    aligned = mul-mod_left (a / p) p;
    below = omega (arith, div-add-mod' a p);
    greatest = λ y m h.
        multiple-le y (a / p) (a % p) m (omega (arith, div-add-mod' a p)) (mod-lt a positive);
  }

  pub least_above : (a : ℕ) → IsLeastAbove p a ((a + p - 1) / p * p)
  least_above a = record {
    aligned = mul-mod_left ((a + p - 1) / p) p;
    above = omega (arith, div-add-mod' (a + p - 1) p, mod-lt (a + p - 1) positive);
    least = λ y m h.
        let bound : (a + p - 1) / p * p ≤ y / p * p =
          multiple-le ((a + p - 1) / p * p) (y / p) (p - 1) (mul-mod_left ((a + p - 1) / p) p)
            (omega (arith, div-add-mod' (a + p - 1) p, div-add-mod' y p)) (omega arith) in
        omega (arith, div-add-mod' y p);
  }

module _ (k : ℕ) (small : k < 64) where
  positive : 1 ≤ 2 ^ k
  positive = one-le-pow k 2 (omega arith)

  -- `align_down` by a power of two returns, in either build, the greatest multiple of the alignment
  -- that is at most the address.
  pub align_down_greatest :
      (b : Build) (addr : ℕ)
      → IsUsize addr
      → (x : ℕ) × (align_down b addr (2 ^ k) ≡ ret x) × IsGreatestBelow (2 ^ k) addr x
  align_down_greatest b addr fits = (
    addr / 2 ^ k * 2 ^ k,
    align_down_lem k small b addr fits,
    greatest_below (2 ^ k) positive addr,
  )

  -- `align_up` by a power of two returns, in either build, the least multiple of the alignment that
  -- is at least the address, provided that the sum of the two fits a word.
  pub align_up_least :
      (b : Build) (addr : ℕ)
      → IsUsize (addr + 2 ^ k)
      → (x : ℕ) × (align_up b addr (2 ^ k) ≡ ret x) × IsLeastAbove (2 ^ k) addr x
  align_up_least b addr fits = (
    (addr + 2 ^ k - 1) / 2 ^ k * 2 ^ k,
    align_up_lem k small b addr fits,
    least_above (2 ^ k) positive addr,
  )

  -- At the highest aligned address of a word, whose sum with the alignment is just too large, a build
  -- with overflow checks panics in `align_up`. A build without them returns the least aligned address
  -- at or above it, as the function is described to.
  pub align_up_top :
      (addr : ℕ)
      → addr + 2 ^ k ≡ usize_mod
      → (align_up debug addr (2 ^ k) ≡ panic)
        × ((x : ℕ) × (align_up release addr (2 ^ k) ≡ ret x) × IsLeastAbove (2 ^ k) addr x)
  unfolding align_up
  align_up_top addr top = (
    ground arith,
    (
      (addr + 2 ^ k - 1) / 2 ^ k * 2 ^ k,
      ground (arith, positive, bit_and-bit_not k small (addr + 2 ^ k - 1)),
      least_above (2 ^ k) positive addr,
    ),
  )

  -- `align_offset` and `is_aligned` by a power of two are, in either build, the remainder and the
  -- test that it is zero, and the offset is what `align_down` takes off.
  pub align_offset_remainder :
      (b : Build) (addr : ℕ)
      → IsUsize addr
      → (align_offset b addr (2 ^ k) ≡ ret (addr % 2 ^ k))
        × (is_aligned b addr (2 ^ k) ≡ ret (addr % 2 ^ k == 0))
        × (align_down b addr (2 ^ k) ≡ ret (addr - addr % 2 ^ k))
  align_offset_remainder b addr fits = (
    align_offset_lem k small b addr,
    is_aligned_lem k small b addr,
    align_down_lem k small b addr fits ∙ ap ret (omega (arith, div-add-mod' addr (2 ^ k))),
  )
