-- ===== src/Addr/MemoryAddr.antt =====
-- The trait `MemoryAddr` of memory_addr/src/addr.rs and its provided methods, the operators that
-- the macro `def_usize_addr!` generates, and the address types.
pub mod Arithmetic
pub mod Signed
pub mod Pages
pub mod Transfer
use Prim.Native.Nat.{compare, Ordering}
use axmm_crates.Base.{
  ℕ, ◌≡◌, refl, Bool, true, false, xor, Option, map, Outcome, ret, panic, ◌>>=◌, unwrap, Build,
  if◌then◌else◌,
}
use axmm_crates.Base.Word
use axmm_crates.Base.Word.{ℤ, add_usize, sub_usize, as_isize, is_positive}
use axmm_crates.Addr.Align

-- `Copy + From<usize> + Into<usize> + Ord`. The laws are what the address types of the crates give:
-- the two conversions are those of a wrapper, and the derived order is that of the number inside.
pub record MemoryAddr (A : Type 0) : Type 0 where
  pub from : ℕ → A
  pub into : A → ℕ
  pub cmp : A → A → Ordering
  pub into-from : (n : ℕ) → into (from n) ≡ n
  pub from-into : (a : A) → from (into a) ≡ a
  pub cmp-into : (a b : A) → cmp a b ≡ compare (into a) (into b)

-- `usize` is an address type of its own.
instance abbrev pub usize_addr : MemoryAddr ℕ
usize_addr = record {
  from = λ n. n;
  into = λ n. n;
  cmp = compare;
  into-from = λ n. refl;
  from-into = λ n. refl;
  cmp-into = λ a b. refl;
}

-- `def_usize_addr! { pub type PhysAddr; pub type VirtAddr; }`
pub record PhysAddr : Type 0 where
  pub addr : ℕ

pub record VirtAddr : Type 0 where
  pub addr : ℕ

instance abbrev pub phys_addr : MemoryAddr PhysAddr
phys_addr = record {
  from = λ n. record { addr = n };
  into = λ a. a.addr;
  cmp = λ a b. compare a.addr b.addr;
  into-from = λ n. refl;
  from-into = λ a. refl;
  cmp-into = λ a b. refl;
}

instance abbrev pub virt_addr : MemoryAddr VirtAddr
virt_addr = record {
  from = λ n. record { addr = n };
  into = λ a. a.addr;
  cmp = λ a b. compare a.addr b.addr;
  into-from = λ n. refl;
  from-into = λ a. refl;
  cmp-into = λ a b. refl;
}

module _ {A : Type 0} ⦃m : MemoryAddr A⦄ where
  -- `a < b`, `a <= b` and `a.max(b)` by `Ord::cmp`; of equal ones `max` returns the second.
  abbrev pub lt_addr : A → A → Bool
  lt_addr a b = elim (m.cmp a b) [ Ordering.lt ↦ true | _ ↦ false ]

  abbrev pub le_addr : A → A → Bool
  le_addr a b = elim (m.cmp a b) [ Ordering.gt ↦ false | _ ↦ true ]

  abbrev pub max_addr : A → A → A
  max_addr a b = elim (m.cmp a b) [ Ordering.gt ↦ a | _ ↦ b ]

  unfoldable pub align_down : Build → A → ℕ → Outcome A
  align_down b self align = do x ← Align.align_down b (m.into self) align; ret (m.from x)

  unfoldable pub align_up : Build → A → ℕ → Outcome A
  align_up b self align = do x ← Align.align_up b (m.into self) align; ret (m.from x)

  unfoldable pub align_offset : Build → A → ℕ → Outcome ℕ
  align_offset b self align = Align.align_offset b (m.into self) align

  unfoldable pub is_aligned : Build → A → ℕ → Outcome Bool
  is_aligned b self align = Align.is_aligned b (m.into self) align

  unfoldable pub align_down_4k : Build → A → Outcome A
  align_down_4k b self = do x ← Align.align_down b (m.into self) Align.page_size_4k; ret (m.from x)

  unfoldable pub align_up_4k : Build → A → Outcome A
  align_up_4k b self = do x ← Align.align_up b (m.into self) Align.page_size_4k; ret (m.from x)

  unfoldable pub align_offset_4k : Build → A → Outcome ℕ
  align_offset_4k b self = Align.align_offset b (m.into self) Align.page_size_4k

  unfoldable pub is_aligned_4k : Build → A → Outcome Bool
  is_aligned_4k b self = Align.is_aligned b (m.into self) Align.page_size_4k

  unfoldable pub offset : A → ℤ → Outcome A
  offset self by = do x ← unwrap (Word.checked_add_signed (m.into self) by); ret (m.from x)

  unfoldable pub wrapping_offset : A → ℤ → A
  wrapping_offset self by = m.from (Word.wrapping_add_signed (m.into self) by)

  unfoldable pub offset_from : A → A → Outcome ℤ
  offset_from self base =
      let result = as_isize (Word.wrapping_sub (m.into self) (m.into base)) in
      if xor (is_positive result) (lt_addr base self) then panic else ret result

  unfoldable pub add : A → ℕ → Outcome A
  add self rhs = do x ← unwrap (Word.checked_add (m.into self) rhs); ret (m.from x)

  unfoldable pub wrapping_add : A → ℕ → A
  wrapping_add self rhs = m.from (Word.wrapping_add (m.into self) rhs)

  unfoldable pub overflowing_add : A → ℕ → A × Bool
  overflowing_add self rhs =
      let (result, overflow) = Word.overflowing_add (m.into self) rhs in (m.from result, overflow)

  unfoldable pub checked_add : A → ℕ → Option A
  checked_add self rhs = map m.from (Word.checked_add (m.into self) rhs)

  unfoldable pub sub : A → ℕ → Outcome A
  sub self rhs = do x ← unwrap (Word.checked_sub (m.into self) rhs); ret (m.from x)

  unfoldable pub wrapping_sub : A → ℕ → A
  wrapping_sub self rhs = m.from (Word.wrapping_sub (m.into self) rhs)

  unfoldable pub overflowing_sub : A → ℕ → A × Bool
  overflowing_sub self rhs =
      let (result, overflow) = Word.overflowing_sub (m.into self) rhs in (m.from result, overflow)

  unfoldable pub checked_sub : A → ℕ → Option A
  checked_sub self rhs = map m.from (Word.checked_sub (m.into self) rhs)

  unfoldable pub sub_addr : A → A → Outcome ℕ
  sub_addr self rhs = unwrap (Word.checked_sub (m.into self) (m.into rhs))

  unfoldable pub wrapping_sub_addr : A → A → ℕ
  wrapping_sub_addr self rhs = Word.wrapping_sub (m.into self) (m.into rhs)

  unfoldable pub overflowing_sub_addr : A → A → ℕ × Bool
  overflowing_sub_addr self rhs = Word.overflowing_sub (m.into self) (m.into rhs)

  unfoldable pub checked_sub_addr : A → A → Option ℕ
  checked_sub_addr self rhs = Word.checked_sub (m.into self) (m.into rhs)

  -- The operators of the macro: `+` and `-` with a number, `-` of two addresses.
  unfoldable pub op_add : Build → A → ℕ → Outcome A
  op_add b self rhs = do x ← add_usize b (m.into self) rhs; ret (m.from x)

  -- `+=`: the address after it.
  unfoldable pub op_add_assign : Build → A → ℕ → Outcome A
  op_add_assign b self rhs = do x ← add_usize b (m.into self) rhs; ret (m.from x)

  unfoldable pub op_sub : Build → A → ℕ → Outcome A
  op_sub b self rhs = do x ← sub_usize b (m.into self) rhs; ret (m.from x)

  -- `-=`
  unfoldable pub op_sub_assign : Build → A → ℕ → Outcome A
  op_sub_assign b self rhs = do x ← sub_usize b (m.into self) rhs; ret (m.from x)

  unfoldable pub op_sub_addr : Build → A → A → Outcome ℕ
  op_sub_addr b self rhs = sub_usize b (m.into self) (m.into rhs)

-- `pa!` and `va!`
unfoldable pub pa : ℕ → PhysAddr
pa addr = record { addr = addr }

unfoldable pub va : ℕ → VirtAddr
va addr = record { addr = addr }
