-- ===== src/Memory/Area/Closed.antt =====
-- Predicates on areas that the calls of `MemoryArea` keep.
use axmm_crates.Base.{ℕ, ◌≡◌, subst, arith, Option, none, some}
use axmm_crates.Base.Ensures.{Ensures}
use axmm_crates.Memory.Errors.{Call}
use axmm_crates.Memory.Backend.{MappingBackend}
use axmm_crates.Memory.Area.{MemoryArea, split, shrink_left, shrink_right, set_flags}

module _ {B : MappingBackend} (P : MemoryArea B → Type 0) where
  -- Of the area that a call leaves, if it returns.
  abbrev pub After : Call (MemoryArea B) B.PageTable → Type 0
  After = Ensures (λ x. P x.1)

  -- Of both parts of a split, or of the area itself.
  abbrev pub Both : Option (MemoryArea B) × MemoryArea B → Type 0
  Both (none, left) = P left
  Both (some right, left) = P right × P left

  pub Both-left : (part : Option (MemoryArea B)) (left : MemoryArea B) → Both (part, left) → P left
  Both-left none left h = h
  Both-left (some right) left h = h.1

  pub Both-right :
      (part : Option (MemoryArea B)) (left right : MemoryArea B)
      → Both (part, left)
      → part ≡ some right
      → P right
  Both-right none left right h e = absurd (ground (arith, e))
  Both-right (some r) left right h e = subst P (ground (arith, e)) h.0

  -- Kept by the calls that cut areas and set their flags.
  pub record IsClosed : Type 0 where
    pub split_keeps : (pos : ℕ) (a : MemoryArea B) → P a → Ensures Both (split pos a)
    pub shrink_left_keeps :
        (n : ℕ) (a : MemoryArea B) (pt : B.PageTable) → P a → After (shrink_left n a pt)
    pub shrink_right_keeps :
        (n : ℕ) (a : MemoryArea B) (pt : B.PageTable) → P a → After (shrink_right n a pt)
    pub set_flags_keeps : (flags : B.Flags) (a : MemoryArea B) → P a → P (set_flags flags a)
