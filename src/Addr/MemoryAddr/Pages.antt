-- ===== src/Addr/MemoryAddr/Pages.antt =====
-- The `_4k` methods of `MemoryAddr` on an address that is given by its page and the offset in it.
use axmm_crates.Base.{ℕ, ◌+◌, ◌%◌, ◌<◌, ◌≡◌, ap, ◌∙◌, true, arith, ret, Build}
use axmm_crates.Base.Word.{IsUsize}
use axmm_crates.Addr.Align.Laws.{align_down_lem, is_aligned_lem}
use axmm_crates.Addr.MemoryAddr
use axmm_crates.Addr.MemoryAddr.{usize_addr}

-- The number of bytes of a page.
abbrev pub page : ℕ
page = 0x1000

-- The start of a page is aligned.
pub aligned_4k : (b : Build) (p : ℕ) → p % page ≡ 0 → MemoryAddr.is_aligned_4k b p ≡ ret true
unfolding MemoryAddr.is_aligned_4k
aligned_4k b p h = is_aligned_lem 12 (omega arith) b p ∙ ap ret (ground arith)

-- The start of the page of an address.
pub down_4k :
    (b : Build) (p off : ℕ)
    → p % page ≡ 0
    → off < page
    → IsUsize (p + off)
    → MemoryAddr.align_down_4k b (p + off) ≡ ret p
unfolding MemoryAddr.align_down_4k
down_4k b p off h k fits =
    rw (align_down_lem 12 (omega arith) b (p + off) fits) (ap ret (omega arith))
