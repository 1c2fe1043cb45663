-- ===== src/Addr/Align.antt =====
-- The alignment functions of memory_addr/src/lib.rs. Each operator `+` and `-` is that of the
-- build: it panics on overflow under `overflow-checks`, and wraps otherwise.
pub mod Laws
pub mod Bounds
use axmm_crates.Base.{ℕ, Bool, Outcome, ret, ◌>>=◌, Build, bit_and, ◌==◌}
use axmm_crates.Base.Word.{add_usize, sub_usize, bit_not}

-- `PAGE_SIZE_4K`
abbrev pub page_size_4k : ℕ
page_size_4k = 0x1000

unfoldable pub align_down : Build → ℕ → ℕ → Outcome ℕ
align_down b addr align = do mask ← sub_usize b align 1; ret (bit_and addr (bit_not mask))

unfoldable pub align_up : Build → ℕ → ℕ → Outcome ℕ
align_up b addr align = do
  sum ← add_usize b addr align
  top ← sub_usize b sum 1
  mask ← sub_usize b align 1
  ret (bit_and top (bit_not mask))

unfoldable pub align_offset : Build → ℕ → ℕ → Outcome ℕ
align_offset b addr align = do mask ← sub_usize b align 1; ret (bit_and addr mask)

unfoldable pub is_aligned : Build → ℕ → ℕ → Outcome Bool
unfolding align_offset
is_aligned b addr align = do offset ← align_offset b addr align; ret (offset == 0)

unfoldable pub align_down_4k : Build → ℕ → Outcome ℕ
unfolding align_down
align_down_4k b addr = align_down b addr page_size_4k

unfoldable pub align_up_4k : Build → ℕ → Outcome ℕ
unfolding align_up
align_up_4k b addr = align_up b addr page_size_4k

unfoldable pub align_offset_4k : Build → ℕ → Outcome ℕ
unfolding align_offset
align_offset_4k b addr = align_offset b addr page_size_4k

unfoldable pub is_aligned_4k : Build → ℕ → Outcome Bool
unfolding is_aligned
is_aligned_4k b addr = is_aligned b addr page_size_4k
