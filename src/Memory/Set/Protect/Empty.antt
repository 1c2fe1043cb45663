-- ===== src/Memory/Set/Protect/Empty.antt =====
-- `protect` of an empty range that lies strictly inside an area.
use axmm_crates.Base.{
  ℕ, ◌≤◌, ◌<◌, ◌≡◌, ◌∙◌, inl, inr, ap, Option, none, some, [], ◌∷◌, ◌++◌, arith, Option-cases, ret,
  panic,
}
use axmm_crates.Base.Word.{IsUsize}
use axmm_crates.Addr.MemoryAddr
use axmm_crates.Addr.MemoryAddr.{usize_addr}
use axmm_crates.Memory.Errors.{done}
use axmm_crates.Memory.Backend.{MappingBackend}
use axmm_crates.Memory.Area.{MemoryArea, start, end, split}
use axmm_crates.Memory.Area.Laws.{split_inside, split_outside}
use axmm_crates.Memory.Set.{MemorySet}
use axmm_crates.Memory.Set.Stored.{stored}
use axmm_crates.Base.BTreeMap.{get}
use axmm_crates.Memory.Set.Protect.{protect, protect_areas, protect_one}
use axmm_crates.Memory.Set.Chain.{Chain, Chain-le, IsValid, top}

module _ {B : MappingBackend} (first : ℕ) (update_flags : B.Flags → Option B.Flags) where
  module _ (a : MemoryArea B) (new_flags : B.Flags) (pt : B.PageTable) where
    one_panics :
        (right left : MemoryArea B)
        → start a < first
        → first < end a
        → split first a ≡ ret (some right, left)
        → split first left ≡ ret (none, left)
        → protect_one first first new_flags (start a) a pt ≡ panic
    unfolding protect_one
    one_panics right left h k e e' = ground (arith, e, e')

    one_inside :
        start a < first
        → first < end a
        → IsUsize (end a)
        → protect_one first first new_flags (start a) a pt ≡ panic
    one_inside h k fits =
        let (right, left, e, right_part, left_part) =
          split_inside first a (record { nonempty = omega arith; fits = fits }) h k in
        one_panics right left h k e
          (split_outside first left (inr (omega (arith, left_part.part_end))))

    one_before :
        (j : ℕ) (b : MemoryArea B) (flags : B.Flags)
        → end b ≤ first
        → protect_one first first flags j b pt ≡ ret (done, b, [], pt)
    unfolding protect_one
    one_before j b flags h = ground arith

    areas_panic :
        (rest : MemorySet B)
        → update_flags a.flags ≡ some new_flags
        → start a < first
        → first < end a
        → IsUsize (end a)
        → (lo : ℕ) (init : MemorySet B) → Chain lo init (start a)
        → protect_areas first first update_flags (init ++ ((start a, a) ∷ rest)) pt ≡ panic
    unfolding protect_areas
    areas_panic rest e h k fits lo [] c = ground (arith, e, one_inside h k fits)
    areas_panic rest e h k fits lo ((j, b) ∷ init) c =
        let next = areas_panic rest e h k fits (end b) init c.3 in
        let before : end b ≤ first = omega (arith, Chain-le (end b) (start a) init c.3) in
        elim (Option-cases (update_flags b.flags)) [
          | inl skips ↦ ground (arith, skips, next)
          | inr (flags, changes) ↦ ground (arith, changes, next, one_before j b flags before)
        ]

  protect_at :
      (init rest : MemorySet B) (a : MemoryArea B) (new_flags : B.Flags) (s : MemorySet B)
      (pt : B.PageTable)
      → s ≡ init ++ ((start a, a) ∷ rest)
      → update_flags a.flags ≡ some new_flags
      → start a < first
      → first < end a
      → IsUsize (end a)
      → Chain 0 init (start a)
      → protect first 0 update_flags s pt ≡ panic
  unfolding protect MemoryAddr.checked_add
  protect_at init rest a new_flags s pt shape e h k fits c = ground (
    arith,
    ap (λ t. protect_areas first first update_flags t pt) shape
        ∙ areas_panic a new_flags pt rest e h k fits 0 init c,
  )

  -- `protect` with size 0 panics at an address strictly inside an area of a valid set whose flags
  -- `update_flags` would change.
  pub protect_empty_panics :
      (a : MemoryArea B) (new_flags : B.Flags) (s : MemorySet B) (pt : B.PageTable)
      → IsValid s
      → get (start a) s ≡ some a
      → start a < first
      → first < end a
      → update_flags a.flags ≡ some new_flags
      → protect first 0 update_flags s pt ≡ panic
  protect_empty_panics a new_flags s pt valid there h k e =
      let l = stored (start a) 0 top a s valid there in
      protect_at l.init l.rest a new_flags s pt l.shape e h k
        (omega (arith, Chain-le (end a) top l.rest l.chain_rest)) l.chain_init
