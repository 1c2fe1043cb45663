-- ===== src/Memory/Set/Closed/Protect.antt =====
-- The calls of Set/Protect and Set/Frames.
use axmm_crates.Base.{ℕ, ◌&&◌, Option, [], ◌∷◌, Outcome}
use axmm_crates.Base.Ensures.{
  Ensures, holds, bind, Ensures-bool, Ensures-if, Ensures-option, Ensures-unwrap,
}
use axmm_crates.Base.BTreeMap.Entries.{extend-All, append-All}
use axmm_crates.Addr.MemoryAddr
use axmm_crates.Addr.MemoryAddr.{usize_addr, lt_addr, le_addr}
use axmm_crates.Memory.Errors.{MappingResult}
use axmm_crates.Memory.Backend.{MappingBackend}
use axmm_crates.Memory.Area.{MemoryArea, end}
use axmm_crates.Memory.Area.Closed.{Both-left, Both-right, IsClosed}
use axmm_crates.Memory.Set.{MemorySet}
use axmm_crates.Memory.Set.Protect.{protect_one, protect_areas, protect}
use axmm_crates.Memory.Set.Closed.{Each, AllAre, Keeps, Ensures-result}

module _ {B : MappingBackend} (P : MemoryArea B → Type 0) (closed : IsClosed P) where
  -- What `protect_one` and `protect_areas` leave, and what they insert.
  abbrev KeepsOne :
      Outcome (MappingResult (Unit {0}) × MemoryArea B × MemorySet B × B.PageTable) → Type 0
  KeepsOne = Ensures (λ x. P x.1 × AllAre P x.2)

  abbrev KeepsMany :
      Outcome (MappingResult (Unit {0}) × MemorySet B × MemorySet B × B.PageTable) → Type 0
  KeepsMany = Ensures (λ x. AllAre P x.1 × AllAre P x.2)

  protect_one-KeepsOne :
      (first last : ℕ) (flags : B.Flags) (k : ℕ) (a : MemoryArea B) (pt : B.PageTable)
      → P a
      → KeepsOne (protect_one first last flags k a pt)
  unfolding protect_one
  protect_one-KeepsOne first last flags k a pt s =
      Ensures-if (le_addr (end a) first) (λ below. holds (s, tt))
        λ above.
          Ensures-if (le_addr first k && le_addr (end a) last)
            (λ inside. holds (closed.set_flags_keeps flags a s, tt))
            λ not_inside.
              Ensures-if (lt_addr k first && lt_addr last (end a))
                (λ around. bind (closed.split_keeps last a s) λ (part, left_middle) both.
                  Ensures-unwrap part λ right e.
                    bind (closed.split_keeps first left_middle (Both-left P part left_middle both))
                      λ (part', left) both'. Ensures-unwrap part' λ middle e'. holds (
                        Both-left P part' left both',
                        (
                          Both-right P part left_middle right both e,
                          (
                            closed.set_flags_keeps flags middle
                                (Both-right P part' left middle both' e'),
                            tt,
                          ),
                        ),
                      ))
                λ not_around.
                  Ensures-if (lt_addr last (end a))
                    (λ front. bind (closed.split_keeps last a s) λ (part, left) both.
                      Ensures-unwrap part λ right e. holds (
                        closed.set_flags_keeps flags left (Both-left P part left both),
                        (Both-right P part left right both e, tt),
                      ))
                    (λ back. bind (closed.split_keeps first a s) λ (part, left) both.
                      Ensures-unwrap part λ right e. holds (
                        Both-left P part left both,
                        (
                          closed.set_flags_keeps flags right (Both-right P part left right both e),
                          tt,
                        ),
                      ))

  protect_areas-KeepsMany :
      (first last : ℕ) (update_flags : B.Flags → Option B.Flags) (s : MemorySet B)
      (pt : B.PageTable)
      → AllAre P s
      → KeepsMany (protect_areas first last update_flags s pt)
  unfolding protect_areas
  protect_areas-KeepsMany first last update_flags [] pt h = holds (tt, tt)
  protect_areas-KeepsMany first last update_flags ((k, a) ∷ s) pt h =
      Ensures-option (update_flags a.flags)
        (λ same.
          bind (protect_areas-KeepsMany first last update_flags s pt h.1)
            λ (result, s', parts, pt') kept. holds ((h.0, kept.0), kept.1))
        (λ flags e.
          Ensures-bool (le_addr last k) (λ past. holds (h, tt))
            λ reached.
              bind (protect_one-KeepsOne first last flags k a pt h.0)
                λ (result, a', parts, pt') one.
                  Ensures-result result
                    (bind (protect_areas-KeepsMany first last update_flags s pt' h.1)
                      λ (result', s', parts', table) kept.
                        holds ((one.0, kept.0), append-All (Each P) parts parts' one.1 kept.1))
                    (λ e. holds ((one.0, h.1), tt)))

  pub protect-Keeps :
      (first size : ℕ) (update_flags : B.Flags → Option B.Flags) (s : MemorySet B)
      (pt : B.PageTable)
      → AllAre P s
      → Keeps P (protect first size update_flags s pt)
  unfolding protect
  protect-Keeps first size update_flags s pt h =
      Ensures-option (MemoryAddr.checked_add first size) (λ e. holds h)
        λ last e.
          bind (protect_areas-KeepsMany first last update_flags s pt h)
            λ (result, s', parts, pt') kept.
              Ensures-result result (holds (extend-All (Each P) s' parts kept.0 kept.1))
                (λ e. holds kept.0)
