-- ===== src/Addr/PageIter.antt =====
-- `PageIter` of memory_addr/src/iter.rs. The constant parameter `PAGE_SIZE` of the type is an
-- argument of its operations.
pub mod Pages
use axmm_crates.Base.{
  ℕ, zero, suc, ◌+◌, ◌≡◌, Bool, true, false, ◌&&◌, not, Option, none, some, map, List, [], ◌∷◌,
  Outcome, ret, panic, ◌>>=◌, Build, ◌==◌, if◌then◌else◌, ◌^◌, ◌||◌,
}
use axmm_crates.Addr.MemoryAddr
use axmm_crates.Addr.MemoryAddr.{MemoryAddr, lt_addr}

pub record PageIter (A : Type 0) : Type 0 where
  pub start : A
  pub end : A

-- `usize::is_power_of_two`: `n` is `2 ^ k` for some `k` below the width.
unfoldable pub is_power_below : ℕ → ℕ → Bool
is_power_below zero n = false
is_power_below (suc k) n = n == 2 ^ k || is_power_below k n

unfoldable pub is_power_of_two : ℕ → Bool
unfolding is_power_below
is_power_of_two n = is_power_below 64 n

module _ {A : Type 0} ⦃m : MemoryAddr A⦄ where
  -- The operands of `||` are evaluated in order, and not after one that holds.
  unfoldable pub new : Build → ℕ → A → A → Outcome (Option (PageIter A))
  unfolding MemoryAddr.is_aligned
  new b page_size start end = elim (is_power_of_two page_size) [
    | false ↦ ret none
    | true ↦ do
      first ← MemoryAddr.is_aligned b start page_size
      elim first [
        | false ↦ ret none
        | true ↦ do
          last ← MemoryAddr.is_aligned b end page_size
          ret (if last then some (record { start = start; end = end }) else none)
      ]
  ]

  -- `Iterator::next`: the item, and the iterator after it.
  unfoldable pub next : ℕ → PageIter A → Outcome (Option A × PageIter A)
  unfolding MemoryAddr.add
  next page_size self =
      if lt_addr self.start self.end
      then (do
        start ← MemoryAddr.add self.start page_size
        ret (some self.start, record self { start = start }))
      else ret (none, self)

  -- The items of a `for` loop: calls of `next` until it returns `None`. `none` means that `fuel`
  -- calls were not enough.
  unfoldable pub collect : ℕ → ℕ → PageIter A → Outcome (Option (List A))
  unfolding next
  collect zero page_size self = ret none
  collect (suc fuel) page_size self = do
    (item, rest) ← next page_size self
    elim item [
      | none ↦ ret (some [])
      | some page ↦ do pages ← collect fuel page_size rest; ret (map (λ l. page ∷ l) pages)
    ]
