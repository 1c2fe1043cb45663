-- ===== src/Memory/Area/Sound/Cut.antt =====
-- `split` of a sound area, and all that cuts one.
use axmm_crates.Base.{ℕ, ◌<◌, ◌≡◌, sym, subst, lt-cases, none, some, arith, inl, inr, ret}
use axmm_crates.Base.{◌⊎◌}
use axmm_crates.Base.Ensures.{Ensures, holds}
use axmm_crates.Base.BTreeMap
use axmm_crates.Base.BTreeMap.{BTreeMap, retain}
use axmm_crates.Base.BTreeMap.Ranges.{range_from-IsAscending, range_to-IsAscending}
use axmm_crates.Base.BTreeMap.Entries.{
  All-both, range_from-All, range_to-All, range_from-from, range_to-below,
}
use axmm_crates.Addr.MemoryAddr.{usize_addr}
use axmm_crates.Addr.AddrRange.{from_start_size}
use axmm_crates.Memory.Backend.{MappingBackend}
use axmm_crates.Memory.Backend.Laws.{Backs}
use axmm_crates.Memory.Area.{MemoryArea, start, end, split}
use axmm_crates.Memory.Area.Closed.{Both, IsClosed}
use axmm_crates.Memory.Area.Laws.{resized, split_outside}
use axmm_crates.Memory.Area.Sound.{
  IsSound, shrink_left-Sound, shrink_right-Sound, set_flags-IsSound,
}

module _ {B : MappingBackend} where
  pub right_part :
      (pos : ℕ) (a : MemoryArea B)
      → pos < end a
      → start a < pos
      → IsSound a
      → IsSound (resized pos (end a) (BTreeMap.range_from pos a.frames) a)
  right_part pos a lt gt s = record {
    nonempty = lt;
    fits = s.fits;
    ascending = range_from-IsAscending 0 pos a.frames s.ascending;
    backing =
        All-both (BTreeMap.range_from pos a.frames) (λ k v p q. (omega arith, q.1, q.2))
          (range_from-from 0 pos a.frames s.ascending)
          (range_from-All (Backs (start a) (end a)) pos a.frames s.backing);
  }

  pub left_part :
      (pos : ℕ) (a : MemoryArea B)
      → pos < end a
      → start a < pos
      → IsSound a
      → IsSound (resized (start a) pos (BTreeMap.range_to pos a.frames) a)
  left_part pos a lt gt s = record {
    nonempty = gt;
    fits = omega (arith, s.fits);
    ascending = range_to-IsAscending 0 pos a.frames s.ascending;
    backing =
        All-both (BTreeMap.range_to pos a.frames) (λ k v p q. (q.0, p, q.2))
          (range_to-below pos a.frames)
          (range_to-All (Backs (start a) (end a)) pos a.frames s.backing);
  }

  -- `split` inside the area, or not.
  pub split_cases :
      (pos : ℕ) (a : MemoryArea B)
      → IsSound a
      → (split pos a ≡ ret (none, a))
        ⊎ ((pos < end a)
            × (start a < pos)
            × (split pos a
                ≡ ret (
                  some (resized pos (end a) (BTreeMap.range_from pos a.frames) a),
                  resized (start a) pos (BTreeMap.range_to pos a.frames) a,
                )))
  unfolding split from_start_size
  split_cases pos a s = elim (lt-cases (start a) pos) [
    | inr low ↦ inl (split_outside pos a (inl low))
    | inl gt ↦ elim (lt-cases pos (end a)) [
      | inr high ↦ inl (split_outside pos a (inr high))
      | inl lt ↦ inr (lt, gt, ground (arith, s.fits))
    ]
  ]

  pub split-Both : (pos : ℕ) (a : MemoryArea B) → IsSound a → Ensures (Both IsSound) (split pos a)
  split-Both pos a s = elim (split_cases pos a s) [
    | inl out ↦ subst (Ensures (Both IsSound)) (sym out) (holds s)
    | inr (lt, gt, parts) ↦
        subst (Ensures (Both IsSound)) (sym parts)
          (holds (right_part pos a lt gt s, left_part pos a lt gt s))
  ]

  pub IsSound-IsClosed : IsClosed (IsSound {B = B})
  IsSound-IsClosed = record {
    split_keeps = split-Both;
    shrink_left_keeps = shrink_left-Sound;
    shrink_right_keeps = shrink_right-Sound;
    set_flags_keeps = set_flags-IsSound;
  }
