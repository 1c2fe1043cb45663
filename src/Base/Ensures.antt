-- ===== src/Base/Ensures.antt =====
-- Postconditions of code that may panic, with a rule for each way in which it is composed.
use axmm_crates.Base.Tests.{if◌then◌else◌}
use axmm_crates.Base.Panic.{Outcome, ret, panic, assert, unwrap, ◌>>=◌, ◌>>◌}
use mathlib.Core.Path.{◌≡◌, refl, subst}
use mathlib.Core.Bool.{Bool, true, false}
use mathlib.Core.Option.{Option, none, some}

-- `P` holds of what the code returns, if it does.
pub data Ensures {A : Type 0} (P : A → Type 0) : Outcome A → Type 0 where
  holds : {a : A} → P a → Ensures P (ret a)
  panics : Ensures P panic

pub Ensures-ret :
    {A : Type 0} {P : A → Type 0} {m : Outcome A} {a : A} → Ensures P m → m ≡ ret a → P a
Ensures-ret {P} (holds h) e = subst P (cc) h
Ensures-ret panics e = cc

module _ {A : Type 0} {P : A → Type 0} where
  pub Ensures-both :
      {Q : A → Type 0} {m : Outcome A} → Ensures P m → Ensures Q m → Ensures (λ a. P a × Q a) m
  Ensures-both panics h = panics
  Ensures-both {Q} (holds {a} p) h = holds (p, Ensures-ret {P = Q} h refl)

  pub bind :
      {C : Type 0} {Q : C → Type 0} {m : Outcome A} {f : A → Outcome C}
      → Ensures P m
      → ((a : A) → P a → Ensures Q (f a))
      → Ensures Q (m >>= f)
  bind (holds {a} h) k = k a h
  bind panics k = panics

  -- Of a call about which nothing is needed, and of `unwrap`.
  pub Ensures-any :
      {C : Type 0} (m : Outcome C) {f : C → Outcome A}
      → ((c : C) → Ensures P (f c))
      → Ensures P (m >>= f)
  Ensures-any (ret c) h = h c
  Ensures-any panic h = panics

  pub Ensures-unwrap :
      {C : Type 0} (o : Option C) {f : C → Outcome A}
      → ((c : C) → o ≡ some c → Ensures P (f c))
      → Ensures P (unwrap o >>= f)
  Ensures-unwrap none h = panics
  Ensures-unwrap (some c) h = h c refl

  pub Ensures-assert :
      (c : Bool) {m : Outcome A} → (c ≡ true → Ensures P m) → Ensures P (assert c >> m)
  Ensures-assert true h = h refl
  Ensures-assert false h = panics

  pub Ensures-if :
      (c : Bool) {x y : Outcome A}
      → (c ≡ true → Ensures P x)
      → (c ≡ false → Ensures P y)
      → Ensures P (if c then x else y)
  Ensures-if true hx hy = hx refl
  Ensures-if false hx hy = hy refl

  pub Ensures-option :
      {R : Type 0} (o : Option R) {x : Outcome A} {f : R → Outcome A}
      → (o ≡ none → Ensures P x)
      → ((r : R) → o ≡ some r → Ensures P (f r))
      → Ensures P (elim o [ none ↦ x | some r ↦ f r ])
  Ensures-option none hx hf = hx refl
  Ensures-option (some r) hx hf = hf r refl

  pub Ensures-bool :
      (c : Bool) {x y : Outcome A}
      → (c ≡ true → Ensures P x)
      → (c ≡ false → Ensures P y)
      → Ensures P (elim c [ true ↦ x | false ↦ y ])
  Ensures-bool true hx hy = hx refl
  Ensures-bool false hx hy = hy refl
