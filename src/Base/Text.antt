-- ===== src/Base/Text.antt =====
-- Text as a list of bytes: numbers in hexadecimal as `core::fmt` writes them, and how such text is
-- read back.
use Prim.Native.Char.{code}
use Prim.Native.String.{String}
use mathlib.Core.List.{append_assoc}
use native.Mathlib.Nat.{pow-suc}
use axmm_crates.Base.{
  ℕ, zero, suc, ◌+◌, ◌-◌, ◌*◌, ◌/◌, ◌%◌, ◌^◌, ◌<◌, ◌≡◌, refl, ap, ◌∙◌, inl, inr, Bool, ◌&&◌, Option,
  none, some, List, [], ◌∷◌, ◌++◌, arith, ltb, leb, ◌==◌, if◌then◌else◌, lt-cases, lt→ltb,
  Option-cases,
}
use axmm_crates.Base.Word.{IsUsize}

abbrev pub Text : Type 0
Text = List ℕ

abbrev pub codes : String → Text
codes String.[] = []
codes (String.◌∷◌ c s) = code c ∷ codes s

-- The digits above nine are `a` to `f`, or `A` to `F`.
abbrev pub hex_digit : Bool → ℕ → ℕ
hex_digit upper d = if ltb d 10 then 48 + d else if upper then 55 + d else 87 + d

-- A number of up to `fuel` digits.
unfoldable pub hex_digits : ℕ → Bool → ℕ → Text
hex_digits zero upper n = []
hex_digits (suc fuel) upper n =
    let rest = hex_digits fuel upper (n / 16) in
    if ltb n 16 then hex_digit upper n ∷ [] else rest ++ (hex_digit upper (n % 16) ∷ [])

-- `{:#x}` and `{:#X}` of a `usize`, which has at most 16 digits.
unfoldable pub fmt_hex : Bool → ℕ → Text
unfolding hex_digits
fmt_hex upper n = codes "0x" ++ hex_digits 16 upper n

-- The value of a digit of either case.
abbrev pub digit_value : ℕ → Option ℕ
digit_value c =
    if leb 48 c && leb c 57
    then some (c - 48)
    else if leb 97 c && leb c 102
    then some (c - 87)
    else if leb 65 c && leb c 70
    then some (c - 55)
    else none

-- Digits are read up to the first byte that is none.
unfoldable pub read_digits : ℕ → Text → ℕ × Text
read_digits acc [] = (acc, [])
read_digits acc (c ∷ t) = elim (digit_value c) [
  | none ↦ (acc, c ∷ t)
  | some d ↦ read_digits (acc * 16 + d) t
]

-- One byte, with the value of its digit.
abbrev read_on : ℕ → ℕ → Text → Option ℕ → ℕ × Text
read_on acc c t none = (acc, c ∷ t)
read_on acc c t (some d) = read_digits (acc * 16 + d) t

read_digits-cons :
    (acc c : ℕ) (t : Text) → read_digits acc (c ∷ t) ≡ read_on acc c t (digit_value c)
unfolding read_digits
read_digits-cons acc c t = elim (Option-cases (digit_value c)) [
  | inl e ↦ ground (arith, e)
  | inr (d, e) ↦ ground (arith, e)
]

-- `t` does not begin with a digit.
abbrev pub IsStopped : Text → Type 0
IsStopped [] = Unit
IsStopped (c ∷ t) = digit_value c ≡ none

digit_value-hex_digit : (upper : Bool) (d : ℕ) → d < 16 → digit_value (hex_digit upper d) ≡ some d
digit_value-hex_digit upper d h = ground arith

read_digits-one :
    (upper : Bool) (acc d : ℕ) (t : Text)
    → d < 16
    → read_digits acc (hex_digit upper d ∷ t) ≡ read_digits (acc * 16 + d) t
read_digits-one upper acc d t h =
    read_digits-cons acc (hex_digit upper d) t
    ∙ ap (read_on acc (hex_digit upper d) t) (digit_value-hex_digit upper d h)

read_digits-hex_digits :
    (fuel : ℕ) (upper : Bool) (n : ℕ) (t : Text)
    → n < 16 ^ fuel
    → read_digits 0 (hex_digits fuel upper n ++ t) ≡ read_digits n t
unfolding hex_digits
read_digits-hex_digits zero upper n t h = let e : 0 ≡ n = omega arith in ap (λ m. read_digits m t) e
read_digits-hex_digits (suc fuel) upper n t h = elim (lt-cases n 16) [
  | inl small ↦
      let value : 0 * 16 + n ≡ n = omega arith in
      rw (lt→ltb n 16 small) (read_digits-one upper 0 n t small ∙ ap (λ m. read_digits m t) value)
  | inr large ↦
      let less : n / 16 < 16 ^ fuel = omega (arith, pow-suc 16 fuel) in
      let value : n / 16 * 16 + n % 16 ≡ n = omega arith in
      ground (
        arith,
        append_assoc (hex_digits fuel upper (n / 16)) (hex_digit upper (n % 16) ∷ []) t,
        read_digits-hex_digits fuel upper (n / 16) (hex_digit upper (n % 16) ∷ t) less,
        read_digits-one upper (n / 16) (n % 16) t,
        ap (λ m. read_digits m t) value,
      )
]

read_digits-stopped : (n : ℕ) (t : Text) → IsStopped t → read_digits n t ≡ (n, t)
unfolding read_digits
read_digits-stopped n [] h = refl
read_digits-stopped n (c ∷ t) h = read_digits-cons n c t ∙ ap (read_on n c t) h

pub read_digits-fmt :
    (upper : Bool) (n : ℕ) (t : Text)
    → IsUsize n
    → IsStopped t
    → read_digits 0 (hex_digits 16 upper n ++ t) ≡ (n, t)
read_digits-fmt upper n t fits stop =
    read_digits-hex_digits 16 upper n t (omega arith) ∙ read_digits-stopped n t stop

-- The text after an expected one.
unfoldable pub skip : Text → Text → Option Text
skip [] t = some t
skip (c ∷ p) [] = none
skip (c ∷ p) (d ∷ t) = let rest = skip p t in if c == d then rest else none

pub skip-append : (p t : Text) → skip p (p ++ t) ≡ some t
unfolding skip
skip-append [] t = refl
skip-append (c ∷ p) t = ground (arith, skip-append p t)
