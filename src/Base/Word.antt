-- ===== src/Base/Word.antt =====
-- `usize` and `isize` on a 64-bit target: the operations of the standard library that the crates
-- call. A `usize` is a number below `usize_mod`. An `isize` is an integer of `Isize`.
use Prim.Native.Nat.{ℕ, suc, ◌+◌, ◌-◌, ◌*◌, ◌%◌, ◌^◌, ◌<◌}
use mathlib.Core.Bool.{Bool, false}
use mathlib.Core.Option.{Option, none, some}
use axmm_crates.Base.Tests.{ltb, leb, if◌then◌else◌}
use axmm_crates.Base.Panic.{Outcome, ret, panic, Build}

abbrev pub usize_mod : ℕ
usize_mod = 2 ^ 64

-- A number that a `usize` can hold.
abbrev pub IsUsize : ℕ → Type 0
IsUsize n = n < usize_mod

abbrev pub checked_add : ℕ → ℕ → Option ℕ
checked_add a b = if ltb (a + b) usize_mod then some (a + b) else none

abbrev pub checked_sub : ℕ → ℕ → Option ℕ
checked_sub a b = if leb b a then some (a - b) else none

abbrev pub wrapping_add : ℕ → ℕ → ℕ
wrapping_add a b = (a + b) % usize_mod

abbrev pub wrapping_sub : ℕ → ℕ → ℕ
wrapping_sub a b = (a + usize_mod - b) % usize_mod

abbrev pub overflowing_add : ℕ → ℕ → ℕ × Bool
overflowing_add a b = (wrapping_add a b, leb usize_mod (a + b))

abbrev pub overflowing_sub : ℕ → ℕ → ℕ × Bool
overflowing_sub a b = (wrapping_sub a b, ltb a b)

-- The operators `+`, `-` and `*`: they panic on overflow under `overflow-checks` and wrap otherwise.
abbrev pub add_usize : Build → ℕ → ℕ → Outcome ℕ
add_usize b x y =
    if ltb (x + y) usize_mod
    then ret (x + y)
    else if b.overflow_checks
    then panic
    else ret (wrapping_add x y)

abbrev pub sub_usize : Build → ℕ → ℕ → Outcome ℕ
sub_usize b x y =
    if leb y x then ret (x - y) else if b.overflow_checks then panic else ret (wrapping_sub x y)

abbrev pub mul_usize : Build → ℕ → ℕ → Outcome ℕ
mul_usize b x y =
    if ltb (x * y) usize_mod
    then ret (x * y)
    else if b.overflow_checks
    then panic
    else ret (x * y % usize_mod)

-- `!x`
abbrev pub bit_not : ℕ → ℕ
bit_not x = usize_mod - 1 - x

-- `negsuc n` is -(n + 1).
pub data ℤ : Type 0 where
  pos : ℕ → ℤ
  negsuc : ℕ → ℤ

-- An integer that an `isize` can hold.
abbrev pub IsIsize : ℤ → Type 0
IsIsize (pos n) = n < 2 ^ 63
IsIsize (negsuc n) = n < 2 ^ 63

-- `usize::checked_add_signed`
abbrev pub checked_add_signed : ℕ → ℤ → Option ℕ
checked_add_signed a (pos n) = checked_add a n
checked_add_signed a (negsuc n) = checked_sub a (suc n)

-- `usize::wrapping_add_signed`
abbrev pub wrapping_add_signed : ℕ → ℤ → ℕ
wrapping_add_signed a (pos n) = wrapping_add a n
wrapping_add_signed a (negsuc n) = wrapping_sub a (suc n)

-- `x as isize`: the two's complement reading.
abbrev pub as_isize : ℕ → ℤ
as_isize x = if ltb x (2 ^ 63) then pos x else negsuc (usize_mod - 1 - x)

-- `x > 0` on `isize`.
abbrev pub is_positive : ℤ → Bool
is_positive (pos n) = ltb 0 n
is_positive (negsuc n) = false
