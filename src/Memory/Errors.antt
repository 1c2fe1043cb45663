-- ===== src/Memory/Errors.antt =====
-- `MappingError` and `MappingResult` of memory_set/src/lib.rs, and the form of a call that changes
-- a state.
use axmm_crates.Base.{Outcome, ret, panic}

pub data MappingError : Type 0 where
  invalid_param : MappingError
  already_exists : MappingError
  bad_state : MappingError

-- `MappingResult<A>`
pub data MappingResult (A : Type 0) : Type 0 where
  ok : A → MappingResult A
  err : MappingError → MappingResult A

-- `MappingResult<()>`
abbrev pub done : MappingResult (Unit {0})
done = ok tt

-- A call on two states: it panics, or it returns a result and the states after it. The states are
-- returned with an error too: what was written before it stays written.
abbrev pub Call : Type 0 → Type 0 → Type 0
Call S T = Outcome (MappingResult (Unit {0}) × S × T)

-- `?` after a call: an error ends the caller, with the states as they are.
abbrev pub and_then : {S T : Type 0} → Call S T → (S → T → Call S T) → Call S T
and_then panic k = panic
and_then (ret (ok _, s, t)) k = k s t
and_then (ret (err e, s, t)) k = ret (err e, s, t)
