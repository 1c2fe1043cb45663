-- ===== src/Addr/MemoryAddr/Transfer.antt =====
-- That the code for an address type can be modelled at `usize`. This rests on the laws that the record
-- `MemoryAddr` has beside the methods of the trait: they make every address type a copy of `usize`.
use native.Mathlib.Nat.{ℕ_set}
use std.Equiv.{iso_to_equiv, ◌≃◌}
use std.Univalence.{ua, ua-glue_path}
use std.HLevel.{prop→path_p}
use mathlib.Core.Path.{PathP}
use Prim.Native.Nat.{compare, Ordering}
use axmm_crates.Base.{ℕ, ◌≡◌, refl, sym, subst, ap, ◌∙◌, fun_ext}
use axmm_crates.Addr.MemoryAddr.{MemoryAddr, usize_addr}

Ordering-IsSet : IsSet Ordering
Ordering-IsSet = hlevel

module _ {A : Type 0} (m : MemoryAddr A) where
  abbrev conversion : A ≃ ℕ
  conversion =
      iso_to_equiv (record { fun = m.into; inv = m.from; rinv = m.into-from; linv = m.from-into })

  -- The same address type, with its order read from the numbers.
  abbrev by_number : MemoryAddr A
  by_number = record m { cmp = λ a b. compare (m.into a) (m.into b); cmp-into = λ a b. refl }

  m-eq-by_number : m ≡ by_number
  m-eq-by_number i = record m {
    cmp = λ a b. m.cmp-into a b i;
    cmp-into = λ a b.
        prop→path_p (λ j. m.cmp-into a b j ≡ compare (m.into a) (m.into b))
          (Ordering-IsSet (compare (m.into a) (m.into b)) (compare (m.into a) (m.into b)))
          (m.cmp-into a b) refl i;
  }

  from_line : (n : ℕ) → PathP (λ i. ua conversion i) (m.from n) n
  from_line n = ua-glue_path conversion (m.into-from n)

  abbrev into_line : (i : 𝕀) → ua conversion i → ℕ
  into_line i v = vproj i v conversion

  -- Along the line of types from `A` to the numbers, the conversions become identities.
  line : PathP (λ i. MemoryAddr (ua conversion i)) by_number usize_addr
  line i = record {
    from = λ n. from_line n i;
    into = into_line i;
    cmp = λ v w. compare (into_line i v) (into_line i w);
    into-from =
        prop→path_p (λ j. (n : ℕ) → into_line j (from_line n j) ≡ n)
          (λ f g. fun_ext λ n. ℕ_set n n (f n) (g n)) m.into-from (λ n. refl) i;
    from-into =
        prop→path_p (λ j. (v : ua conversion j) → from_line (into_line j v) j ≡ v)
          (λ f g. fun_ext λ n. ℕ_set n n (f n) (g n)) m.from-into (λ n. refl) i;
    cmp-into = λ v w. refl;
  }

-- The address types with their interface, as one type.
abbrev pub AddressType : Type 1
AddressType = (A : Type 0) × MemoryAddr A

MemoryAddr-usize : (A : Type 0) (m : MemoryAddr A) → ◌≡◌ {A = AddressType} (A, m) (ℕ, usize_addr)
MemoryAddr-usize A m = ap (λ x. (A, x)) (m-eq-by_number m) ∙ (λ i. (ua (conversion m) i, line m i))

-- Any two types with the conversions, the order and the laws of the record are equal with these.
pub address_types_unique :
    (A B : Type 0) (m : MemoryAddr A) (n : MemoryAddr B) → ◌≡◌ {A = AddressType} (A, m) (B, n)
address_types_unique A B m n = MemoryAddr-usize A m ∙ sym (MemoryAddr-usize B n)

-- A proof of a property of `usize` is carried to every address type.
pub usize_suffices {ℓ} :
    (P : AddressType → Type ℓ) → P (ℕ, usize_addr) → (A : Type 0) (m : MemoryAddr A) → P (A, m)
usize_suffices P h A m = subst P (sym (MemoryAddr-usize A m)) h
