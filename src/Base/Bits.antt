-- ===== src/Base/Bits.antt =====
-- `&` with a mask of low bits and with its complement, as arithmetic, at every width.
-- `bit_and` is by definition a recursion on binary digits whose fuel is the first operand, so the
-- laws are proved of that recursion at any fuel that suffices.
use Prim.Native.Nat.{
  ℕ, zero, suc, ◌+◌, ◌-◌, ◌*◌, ◌/◌, ◌%◌, ◌^◌, ◌≤◌, ◌<◌, min, bit_and, digits, bit_and-bitwise,
}
use mathlib.Core.Path.{◌≡◌, sym, ap, ◌∙◌}
use native.Mathlib.Nat.{
  pow-suc, two-pow-succ, one-le-pow, le_refl, div-add-mod', mod-lt, div-lt_iff_lt-mul,
}
use native.Mathlib.Omega.{arith}

abbrev and_fuel : ℕ → ℕ → ℕ → ℕ
and_fuel = digits (λ _. zero) min

-- One more binary place doubles the weight of the quotient.
weight-suc : (q k : ℕ) → q * 2 ^ suc k ≡ 2 * (q * 2 ^ k)
weight-suc q k = omega (arith, ap (λ (t : ℕ). q * t) (pow-suc 2 k))

-- A mask of `k` ones keeps the remainder by `2 ^ k`.
and_fuel-low :
    (n k q r a b : ℕ) → a ≤ n → a ≡ q * 2 ^ k + r → b + 1 ≡ 2 ^ k → r < 2 ^ k → and_fuel n a b ≡ r
and_fuel-low zero k q r a b h ea eb fits = omega arith
and_fuel-low (suc n) k q r zero b h ea eb fits = omega arith
and_fuel-low (suc n) zero q r (suc a) b h ea eb fits =
    omega (arith, and_fuel-low n zero (suc a / 2) 0 (suc a / 2) (b / 2) (omega arith))
and_fuel-low (suc n) (suc k) q r (suc a) b h ea eb fits =
    let e : (suc a / 2 ≡ q * 2 ^ k + r / 2) × (b / 2 + 1 ≡ 2 ^ k) × (r / 2 < 2 ^ k) × (b % 2 ≡ 1) =
      omega (arith, weight-suc q k, two-pow-succ k, one-le-pow k 2) in
    omega (
      arith,
      weight-suc q k,
      two-pow-succ k,
      and_fuel-low n k q (r / 2) (suc a / 2) (b / 2) (omega arith) e.0 e.1 e.2,
    )

-- The complement of that mask, in a word of `k + j` bits, keeps the quotient.
and_fuel-high :
    (n k j q r a b : ℕ)
    → a ≤ n
    → a ≡ q * 2 ^ k + r
    → r < 2 ^ k
    → q < 2 ^ j
    → b ≡ (2 ^ j - 1) * 2 ^ k
    → and_fuel n a b ≡ q * 2 ^ k
and_fuel-high zero k j q r a b h ea fr fq eb = omega arith
and_fuel-high (suc n) k j q r zero b h ea fr fq eb = omega arith
and_fuel-high (suc n) zero j q r (suc a) b h ea fr fq eb =
    omega (arith, and_fuel-low (suc n) j 0 q (suc a) b h, one-le-pow j 2)
and_fuel-high (suc n) (suc k) j q r (suc a) b h ea fr fq eb =
    let e : (suc a / 2 ≡ q * 2 ^ k + r / 2)
        × (r / 2 < 2 ^ k)
        × (b / 2 ≡ (2 ^ j - 1) * 2 ^ k)
        × (b % 2 ≡ 0) =
      omega (arith, weight-suc q k, weight-suc (2 ^ j - 1) k, two-pow-succ k) in
    omega (
      arith,
      weight-suc q k,
      and_fuel-high n k j q (r / 2) (suc a / 2) (b / 2) (omega arith) e.0 e.1 fq e.2,
    )

-- `a & (2^k - 1)`
pub bit_and_low_mask : (k a : ℕ) → bit_and a (2 ^ k - 1) ≡ a % 2 ^ k
bit_and_low_mask k a =
    let p : 1 ≤ 2 ^ k = one-le-pow k 2 (omega arith) in
    bit_and-bitwise a (2 ^ k - 1)
    ∙ and_fuel-low a k (a / 2 ^ k) (a % 2 ^ k) a (2 ^ k - 1) (le_refl a)
        (sym (div-add-mod' a (2 ^ k))) (omega arith) (mod-lt a p)

-- `a & !(2^k - 1)` in a word of `k + j` bits
pub bit_and_high_mask :
    (k j a b : ℕ) → a < 2 ^ j * 2 ^ k → b ≡ (2 ^ j - 1) * 2 ^ k → bit_and a b ≡ a / 2 ^ k * 2 ^ k
bit_and_high_mask k j a b fits eb =
    let p : 1 ≤ 2 ^ k = one-le-pow k 2 (omega arith) in
    bit_and-bitwise a b
    ∙ and_fuel-high a k j (a / 2 ^ k) (a % 2 ^ k) a b (le_refl a) (sym (div-add-mod' a (2 ^ k)))
        (mod-lt a p) ((div-lt_iff_lt-mul p).1 fits) eb

-- A word of `m` bits falls into `j` high and `k` low bits.
pub pow-mul-pow : (j k m : ℕ) → j + k ≡ m → 2 ^ j * 2 ^ k ≡ 2 ^ m
pow-mul-pow j zero m e = let e' : j ≡ m = omega arith in rw e' (omega arith)
pow-mul-pow j (suc k) zero e = absurd (omega arith)
pow-mul-pow j (suc k) (suc m) e =
    omega (arith, weight-suc (2 ^ j) k, two-pow-succ m, pow-mul-pow j k m (omega arith))

pub pred-mul : (t p : ℕ) → 1 ≤ t → (t - 1) * p + p ≡ t * p
pred-mul zero p h = absurd (omega arith)
pred-mul (suc t) p h = let e : suc t - 1 ≡ t = omega arith in rw e (omega arith)

pub le-mul : (t p : ℕ) → 1 ≤ t → p ≤ t * p
le-mul t p h = grind arith
