-- ===== src/Base/Memory.antt =====
-- Memory, pointers and slices of bytes. Memory is a byte for each address, and a pointer is its
-- address: where a pointer comes from is not modelled.
use axmm_crates.Base.{
  ℕ, zero, suc, ◌+◌, ◌≤◌, ◌<◌, ◌≡◌, refl, ap, ◌∙◌, ◌⊎◌, inl, inr, List, [], ◌∷◌, arith, Outcome,
  ret, assert, ◌>>◌, ◌==◌, if◌then◌else◌,
}

-- `*const T` and `*mut T`
pub record Ptr (T : Type 0) : Type 0 where
  pub addr : ℕ

-- `u8`
abbrev pub U8 : Type 0
U8 = ℕ

abbrev pub Memory : Type 0
Memory = ℕ → U8

-- `&[u8]` and `&mut [u8]`
pub record Slice : Type 0 where
  pub ptr : Ptr U8
  pub len : ℕ

-- `slice::from_raw_parts` and `slice::from_raw_parts_mut`
abbrev pub from_raw_parts : Ptr U8 → ℕ → Slice
from_raw_parts ptr len = record { ptr = ptr; len = len }

unfoldable pub length : List U8 → ℕ
length [] = 0
length (c ∷ cs) = suc (length cs)

load : ℕ → ℕ → Memory → List U8
load zero addr mem = []
load (suc n) addr mem = mem addr ∷ load n (suc addr) mem

store : ℕ → List U8 → Memory → Memory
store addr [] mem x = mem x
store addr (c ∷ cs) mem x = let rest = store (suc addr) cs mem x in if addr == x then c else rest

-- The bytes of a slice.
unfoldable pub to_vec : Slice → Memory → List U8
unfolding load
to_vec self mem = load self.len self.ptr.addr mem

-- `copy_from_slice`, which panics if the lengths differ.
unfoldable pub copy_from_slice : List U8 → Slice → Memory → Outcome Memory
unfolding length store
copy_from_slice bytes self mem = do
  assert (self.len == length bytes)
  ret (store self.ptr.addr bytes mem)

store_before :
    (addr : ℕ) (cs : List U8) (mem : Memory) (x : ℕ) → x < addr → store addr cs mem x ≡ mem x
unfolding store
store_before addr [] mem x h = refl
store_before addr (c ∷ cs) mem x h = ground (arith, store_before (suc addr) cs mem x (omega arith))

store_after :
    (addr : ℕ) (cs : List U8) (mem : Memory) (x : ℕ)
    → addr + length cs ≤ x
    → store addr cs mem x ≡ mem x
unfolding store length
store_after addr [] mem x h = refl
store_after addr (c ∷ cs) mem x h = ground (arith, store_after (suc addr) cs mem x (omega arith))

-- A load reads the addresses of its range alone.
load-same :
    (n addr : ℕ) (mem mem' : Memory)
    → ((x : ℕ) → addr ≤ x → x < addr + n → mem' x ≡ mem x)
    → load n addr mem' ≡ load n addr mem
unfolding load
load-same zero addr mem mem' h = refl
load-same (suc n) addr mem mem' h = cc (
  h addr (omega arith) (omega arith),
  load-same n (suc addr) mem mem' (λ x p q. h x (omega arith) (omega arith)),
)

load-store :
    (cs : List U8) (addr : ℕ) (mem : Memory) → load (length cs) addr (store addr cs mem) ≡ cs
unfolding load store length
load-store [] addr mem = refl
load-store (c ∷ cs) addr mem = ground (
  arith,
  load-same (length cs) (suc addr) (store (suc addr) cs mem) (store addr (c ∷ cs) mem)
      (λ x p q. ground arith),
  load-store cs (suc addr) mem,
)

unfoldable pub Disjoint : Slice → Slice → Type 0
Disjoint s t = (s.ptr.addr + s.len ≤ t.ptr.addr) ⊎ (t.ptr.addr + t.len ≤ s.ptr.addr)

-- The bytes copied to a slice are in it, and a slice apart from it has the bytes that it had.
pub copied :
    (bytes : List U8) (s t : Slice) (mem : Memory)
    → s.len ≡ length bytes
    → Disjoint s t
    → (mem' : Memory) × (copy_from_slice bytes s mem ≡ ret mem')
      × (to_vec s mem' ≡ bytes)
      × (to_vec t mem' ≡ to_vec t mem)
unfolding copy_from_slice to_vec Disjoint
copied bytes s t mem same apart =
    let a = s.ptr.addr in
    (
      store a bytes mem,
      ground arith,
      ap (λ n. load n a (store a bytes mem)) same ∙ load-store bytes a mem,
      load-same t.len t.ptr.addr mem (store a bytes mem) λ x p q. elim apart [
        | inl below ↦ store_after a bytes mem x (omega arith)
        | inr above ↦ store_before a bytes mem x (omega arith)
      ],
    )
