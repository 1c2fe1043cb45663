-- ===== src/Addr/Align/Laws.antt =====
-- What the alignment functions compute at a power of two: quotient and remainder.
use native.Mathlib.Nat.{one-le-pow}
use axmm_crates.Base.{
  ℕ, ◌+◌, ◌-◌, ◌*◌, ◌/◌, ◌%◌, ◌^◌, ◌≤◌, ◌<◌, ◌≡◌, arith, ret, Build, bit_and, ◌==◌,
}
use axmm_crates.Base.Word.{usize_mod, IsUsize, bit_not}
use axmm_crates.Base.Bits.{bit_and_low_mask, bit_and_high_mask, pow-mul-pow, pred-mul, le-mul}
use axmm_crates.Addr.Align.{align_down, align_up, align_offset, is_aligned}

module _ (k : ℕ) (small : k < 64) where
  pow_pos : 1 ≤ 2 ^ k
  pow_pos = one-le-pow k 2 (omega arith)

  high_pos : 1 ≤ 2 ^ (64 - k)
  high_pos = one-le-pow (64 - k) 2 (omega arith)

  pow-eq-word : 2 ^ (64 - k) * 2 ^ k ≡ usize_mod
  pow-eq-word = pow-mul-pow (64 - k) k 64 (omega arith)

  pub pow-le-half : 2 * 2 ^ k ≤ usize_mod
  pow-le-half = omega (
    arith,
    pow-mul-pow (63 - k) k 63 (omega arith),
    le-mul (2 ^ (63 - k)) (2 ^ k) (one-le-pow (63 - k) 2 (omega arith)),
  )

  pub bit_and-bit_not : (a : ℕ) → IsUsize a → bit_and a (bit_not (2 ^ k - 1)) ≡ a / 2 ^ k * 2 ^ k
  bit_and-bit_not a fits =
      bit_and_high_mask k (64 - k) a (bit_not (2 ^ k - 1)) (omega (arith, pow-eq-word))
        (omega (arith, pow-eq-word, pow_pos, pred-mul (2 ^ (64 - k)) (2 ^ k) high_pos))

  -- On an address and an alignment of a word, in either build: the address less its remainder.
  pub align_down_lem :
      (b : Build) (addr : ℕ) → IsUsize addr → align_down b addr (2 ^ k) ≡ ret (addr / 2 ^ k * 2 ^ k)
  unfolding align_down
  align_down_lem b addr fits = ground (arith, pow_pos, bit_and-bit_not addr)

  -- The remainder.
  pub align_offset_lem : (b : Build) (addr : ℕ) → align_offset b addr (2 ^ k) ≡ ret (addr % 2 ^ k)
  unfolding align_offset
  align_offset_lem b addr = ground (arith, pow_pos, bit_and_low_mask k addr)

  pub is_aligned_lem : (b : Build) (addr : ℕ) → is_aligned b addr (2 ^ k) ≡ ret (addr % 2 ^ k == 0)
  unfolding is_aligned
  is_aligned_lem b addr = rw (align_offset_lem b addr)

  -- Where the sum fits a word, in either build.
  pub align_up_lem :
      (b : Build) (addr : ℕ)
      → IsUsize (addr + 2 ^ k)
      → align_up b addr (2 ^ k) ≡ ret ((addr + 2 ^ k - 1) / 2 ^ k * 2 ^ k)
  unfolding align_up
  align_up_lem b addr fits = ground (arith, pow_pos, bit_and-bit_not (addr + 2 ^ k - 1))
