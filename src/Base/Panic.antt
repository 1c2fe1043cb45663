-- ===== src/Base/Panic.antt =====
-- What a call that may panic gives, and the build options on which a panic depends.
use mathlib.Core.Bool.{Bool, true, false}
use mathlib.Core.Option.{Option, none, some}

-- `ret a`: the call returns `a`. `panic`: it panics, and the caller with it.
pub data Outcome {ℓ} (A : Type ℓ) : Type ℓ where
  ret : A → Outcome A
  panic : Outcome A

infixl 5 ◌>>=◌ ◌>>◌
abbrev pub ◌>>=◌ {ℓ κ} : {A : Type ℓ} {B : Type κ} → Outcome A → (A → Outcome B) → Outcome B
ret a >>= f = f a
panic >>= f = panic

abbrev pub ◌>>◌ {ℓ} : {B : Type ℓ} → Outcome (Unit {0}) → Outcome B → Outcome B
m >> k = m >>= λ _. k

-- `assert!`
abbrev pub assert : Bool → Outcome (Unit {0})
assert true = ret tt
assert false = panic

-- `Option::unwrap` and `Option::expect`
abbrev pub unwrap {ℓ} : {A : Type ℓ} → Option A → Outcome A
unwrap (some a) = ret a
unwrap none = panic

-- `overflow-checks` and `debug-assertions` of the compiled profile: both on in a debug build, both
-- off in a release build.
pub record Build : Type 0 where
  pub overflow_checks : Bool
  pub debug_assertions : Bool

abbrev pub debug : Build
debug = record { overflow_checks = true; debug_assertions = true }

abbrev pub release : Build
release = record { overflow_checks = false; debug_assertions = false }

-- `debug_assert!`
abbrev pub debug_assert : Build → Bool → Outcome (Unit {0})
debug_assert b c = elim b.debug_assertions [ true ↦ assert c | false ↦ ret tt ]
