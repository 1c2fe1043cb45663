-- ===== src/Addr/MemoryAddr/Arithmetic.antt =====
-- How the variants of each unsigned operation of `MemoryAddr` agree: strict, wrapping, overflowing,
-- checked, and the operators of `def_usize_addr!`.
use axmm_crates.Base.{
  ℕ, ◌≡◌, refl, ap, ◌∙◌, Bool, Option, Outcome, some, none, arith, ret, panic, debug, release,
  if◌then◌else◌,
}
use axmm_crates.Base.Word.{IsUsize}
use axmm_crates.Addr.MemoryAddr.{
  MemoryAddr, add, wrapping_add, overflowing_add, checked_add, sub, wrapping_sub, overflowing_sub,
  checked_sub, sub_addr, wrapping_sub_addr, overflowing_sub_addr, checked_sub_addr, op_add, op_sub,
  op_sub_addr,
}

-- The four variants of one operation give one result: the overflowing one, with a flag; the wrapping
-- one without it; the checked and the strict one where the flag is not set.
abbrev pub Agree : {R : Type 0} → R × Bool → R → Option R → Outcome R → Type 0
Agree (r, overflow) wrapping checked strict =
    (r ≡ wrapping)
    × (checked ≡ (if overflow then none else some r))
    × (strict ≡ (if overflow then panic else ret r))

module _ {A : Type 0} ⦃m : MemoryAddr A⦄ where
  -- On an address and an offset, `overflowing_add` returns the address of `wrapping_add` with a
  -- flag; `checked_add` is `None` and `add` panics exactly if the flag is set, and both give that
  -- address otherwise.
  add_variants :
      (a : A) (n : ℕ)
      → let (w, overflow) = overflowing_add a n in
        (w ≡ wrapping_add a n)
        × (checked_add a n ≡ (if overflow then none else some w))
        × (add a n ≡ (if overflow then panic else ret w))
  unfolding add wrapping_add overflowing_add checked_add
  add_variants a n = (refl, ground arith, ground arith)

  -- The same of the four variants of subtracting an offset from an address of a word.
  sub_variants :
      (a : A) (n : ℕ)
      → IsUsize (m.into a)
      → let (w, overflow) = overflowing_sub a n in
        (w ≡ wrapping_sub a n)
        × (checked_sub a n ≡ (if overflow then none else some w))
        × (sub a n ≡ (if overflow then panic else ret w))
  unfolding sub wrapping_sub overflowing_sub checked_sub
  sub_variants a n fits = (refl, ground arith, ground arith)

  -- The same of the four variants of the distance between two addresses, the first in a word.
  sub_addr_variants :
      (a b : A)
      → IsUsize (m.into a)
      → let (w, overflow) = overflowing_sub_addr a b in
        (w ≡ wrapping_sub_addr a b)
        × (checked_sub_addr a b ≡ (if overflow then none else some w))
        × (sub_addr a b ≡ (if overflow then panic else ret w))
  unfolding sub_addr wrapping_sub_addr overflowing_sub_addr checked_sub_addr
  sub_addr_variants a b fits = (refl, ground arith, ground arith)

  from-eq : (a : A) (n : ℕ) → n ≡ m.into a → m.from n ≡ a
  from-eq a n e = ap m.from e ∙ m.from-into a

  -- On addresses and an offset of a word the wrapping operations undo one another: adding the offset
  -- and subtracting it, in either order, gives the address back, and so does adding to another address
  -- the distance from it.
  pub wrapping_inverse :
      (a b : A) (n : ℕ)
      → IsUsize (m.into a)
      → IsUsize (m.into b)
      → IsUsize n
      → (wrapping_sub (wrapping_add a n) n ≡ a)
        × (wrapping_add (wrapping_sub a n) n ≡ a)
        × (wrapping_add b (wrapping_sub_addr a b) ≡ a)
  unfolding wrapping_add wrapping_sub wrapping_sub_addr
  wrapping_inverse a b n fa fb fn = (
    from-eq a _ (rw m.into-from (omega arith)),
    from-eq a _ (rw m.into-from (omega arith)),
    from-eq a _ (omega arith),
  )

  -- With overflow checks the operators `+` and `-` are `add`, `sub` and `sub_addr`; without them they
  -- are the wrapping methods.
  operators :
      (a b : A) (n : ℕ)
      → IsUsize (m.into a)
      → ((op_add debug a n ≡ add a n) × (op_add release a n ≡ ret (wrapping_add a n)))
        × ((op_sub debug a n ≡ sub a n) × (op_sub release a n ≡ ret (wrapping_sub a n)))
        × ((op_sub_addr debug a b ≡ sub_addr a b)
            × (op_sub_addr release a b ≡ ret (wrapping_sub_addr a b)))
  unfolding op_add add wrapping_add op_sub sub wrapping_sub op_sub_addr sub_addr wrapping_sub_addr
  operators a b n fits =
      ((ground arith, ground arith), (ground arith, ground arith), (ground arith, ground arith))

  -- Of adding an offset to an address, subtracting one from an address of a word, and subtracting an
  -- address from an address of a word, the overflowing variant returns the result of the wrapping one
  -- with a flag; the checked one is `None` and the strict one panics exactly if the flag is set, and
  -- both give that result otherwise. With overflow checks the operators `+` and `-` are the strict
  -- variants; without them they are the wrapping ones.
  pub variants :
      (a b : A) (n : ℕ)
      → IsUsize (m.into a)
      → Agree (overflowing_add a n) (wrapping_add a n) (checked_add a n) (add a n)
        × Agree (overflowing_sub a n) (wrapping_sub a n) (checked_sub a n) (sub a n)
        × Agree
            (overflowing_sub_addr a b)
            (wrapping_sub_addr a b)
            (checked_sub_addr a b)
            (sub_addr a b)
        × ((op_add debug a n ≡ add a n) × (op_add release a n ≡ ret (wrapping_add a n)))
        × ((op_sub debug a n ≡ sub a n) × (op_sub release a n ≡ ret (wrapping_sub a n)))
        × ((op_sub_addr debug a b ≡ sub_addr a b)
            × (op_sub_addr release a b ≡ ret (wrapping_sub_addr a b)))
  unfolding overflowing_add overflowing_sub overflowing_sub_addr
  variants a b n fits =
      let ops = operators a b n fits in
      (add_variants a n, sub_variants a n fits, sub_addr_variants a b fits, ops.0, ops.1, ops.2)
