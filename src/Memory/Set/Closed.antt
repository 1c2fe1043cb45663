-- ===== src/Memory/Set/Closed.antt =====
-- A predicate on areas that the calls which cut areas keep holds of each area of a set after every call
-- that only cuts them.
pub mod Change
pub mod Protect
pub mod Frame
use axmm_crates.Base.{ℕ, ◌≡◌, some, Outcome, ret, ◌>>=◌}
use axmm_crates.Base.Ensures.{Ensures, holds, panics, bind}
use axmm_crates.Base.BTreeMap.{insert}
use axmm_crates.Base.BTreeMap.Entries.{All, insert-All}
use axmm_crates.Memory.Errors.{Call, MappingError, MappingResult, ok, err, and_then}
use axmm_crates.Memory.Backend.{MappingBackend}
use axmm_crates.Memory.Area.{MemoryArea}
use axmm_crates.Memory.Area.Closed.{After}
use axmm_crates.Memory.Set.{MemorySet}
use axmm_crates.Memory.Set.Change.{write_back}

pub Ensures-result :
    {A : Type 0} {P : A → Type 0} (result : MappingResult (Unit {0})) {x : Outcome A}
    {f : MappingError → Outcome A}
    → Ensures P x
    → ((e : MappingError) → Ensures P (f e))
    → Ensures P (elim result [ ok _ ↦ x | err e ↦ f e ])
Ensures-result (ok u) hx hf = hx
Ensures-result (err e) hx hf = hf e

module _ {B : MappingBackend} (P : MemoryArea B → Type 0) where
  abbrev pub Each : ℕ → MemoryArea B → Type 0
  Each k a = P a

  -- Of each area of a set.
  abbrev pub AllAre : MemorySet B → Type 0
  AllAre s = All Each s

  -- A call that leaves such a set, if it returns.
  abbrev pub Keeps : Call (MemorySet B) B.PageTable → Type 0
  Keeps = Ensures (λ x. AllAre x.1)

  pub and_then-Keeps :
      {call : Call (MemorySet B) B.PageTable}
      {f : MemorySet B → B.PageTable → Call (MemorySet B) B.PageTable}
      → Keeps call
      → ((s : MemorySet B) (pt : B.PageTable) → AllAre s → Keeps (f s pt))
      → Keeps (and_then call f)
  and_then-Keeps panics k = panics
  and_then-Keeps (holds {a = (ok u, s, pt)} h) k = k s pt h
  and_then-Keeps (holds {a = (err e, s, pt)} h) k = holds h

  pub write_back-Keeps :
      (k : ℕ) (s : MemorySet B) {call : Call (MemoryArea B) B.PageTable}
      → AllAre s
      → After P call
      → Keeps (write_back k s call)
  write_back-Keeps k s h c = bind c λ (result, a, pt) sound. holds (insert-All Each k a s sound h)
