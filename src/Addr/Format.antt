-- ===== src/Addr/Format.antt =====
-- The text of addresses and ranges: `def_usize_addr_formatter!` of memory_addr/src/addr.rs, the
-- formatters of memory_addr/src/range.rs, and how that text is read back. A formatter returns what
-- it writes.
use axmm_crates.Base.{Bool, true, false, Option, none, some, ◌++◌, ◌≡◌, refl, ap, ◌∙◌, arith}
use axmm_crates.Base.Word.{IsUsize}
use axmm_crates.Base.Text.{
  Text, codes, fmt_hex, hex_digits, read_digits, read_digits-fmt, IsStopped, skip, skip-append,
}
use axmm_crates.Addr.MemoryAddr.{MemoryAddr, PhysAddr, VirtAddr, phys_addr, virt_addr}
use axmm_crates.Addr.AddrRange.{AddrRange}
use mathlib.Core.List.{append_assoc}

-- `$name = $format`: the text before the `{}` of the format.
pub record UsizeAddrFormatter (A : Type 0) : Type 0 where
  pub prefix : Text

-- `PhysAddr = "PA:{}"; VirtAddr = "VA:{}";`
instance abbrev pub phys_addr_formatter : UsizeAddrFormatter PhysAddr
phys_addr_formatter = record { prefix = codes "PA:" }

instance abbrev pub virt_addr_formatter : UsizeAddrFormatter VirtAddr
virt_addr_formatter = record { prefix = codes "VA:" }

-- The three traits that the macro implements, and `AddrRange` with them.
pub data Style : Type 0 where
  debug : Style
  lower_hex : Style
  upper_hex : Style

module _ {A : Type 0} ⦃m : MemoryAddr A⦄ ⦃f : UsizeAddrFormatter A⦄ where
  unfoldable pub fmt_addr : Style → A → Text
  unfolding fmt_hex
  fmt_addr debug self = f.prefix ++ fmt_hex false (m.into self)
  fmt_addr lower_hex self = f.prefix ++ fmt_hex false (m.into self)
  fmt_addr upper_hex self = f.prefix ++ fmt_hex true (m.into self)

  unfoldable pub fmt_range : Style → AddrRange A → Text
  unfolding fmt_addr
  fmt_range style self = fmt_addr style self.start ++ (codes ".." ++ fmt_addr style self.end)

  -- A reader of such text: the address, and the text after it.
  unfoldable pub read_addr : Text → Option (A × Text)
  unfolding skip read_digits
  read_addr t = elim (skip f.prefix t) [
    | none ↦ none
    | some t' ↦ elim (skip (codes "0x") t') [
      | none ↦ none
      | some t'' ↦ let (n, rest) = read_digits 0 t'' in some (m.from n, rest)
    ]
  ]

  abbrev with_end : A → Option (A × Text) → Option (AddrRange A × Text)
  with_end start none = none
  with_end start (some (end, rest)) = some (record { start = start; end = end }, rest)

  abbrev with_dots : A → Option Text → Option (AddrRange A × Text)
  with_dots start none = none
  with_dots start (some t) = with_end start (read_addr t)

  abbrev with_start : Option (A × Text) → Option (AddrRange A × Text)
  with_start none = none
  with_start (some (start, t)) = with_dots start (skip (codes "..") t)

  -- A range, and the text after it.
  unfoldable pub read_range : Text → Option (AddrRange A × Text)
  read_range t = with_start (read_addr t)

  read_addr-fmt_hex :
      (upper : Bool) (a : A) (t : Text)
      → IsUsize (m.into a)
      → IsStopped t
      → read_addr ((f.prefix ++ fmt_hex upper (m.into a)) ++ t) ≡ some (a, t)
  unfolding read_addr fmt_hex
  read_addr-fmt_hex upper a t fits stop =
      let digits = hex_digits 16 upper (m.into a) in
      ground (
        arith,
        append_assoc f.prefix (codes "0x" ++ digits) t,
        append_assoc (codes "0x") digits t,
        skip-append f.prefix (codes "0x" ++ digits ++ t),
        skip-append (codes "0x") (digits ++ t),
        read_digits-fmt upper (m.into a) t fits stop,
        m.from-into a,
      )

  -- The text of an address, in each of the three styles, is read back as the address.
  pub read_addr-fmt_addr :
      (style : Style) (a : A) (t : Text)
      → IsUsize (m.into a)
      → IsStopped t
      → read_addr (fmt_addr style a ++ t) ≡ some (a, t)
  unfolding fmt_addr
  read_addr-fmt_addr debug a t fits stop = read_addr-fmt_hex false a t fits stop
  read_addr-fmt_addr lower_hex a t fits stop = read_addr-fmt_hex false a t fits stop
  read_addr-fmt_addr upper_hex a t fits stop = read_addr-fmt_hex true a t fits stop

  -- The text of a range of addresses of a word, in each of the three styles, determines the range: it
  -- is read back as it was, with what follows it, if that does not begin with a digit.
  pub read_range-fmt_range :
      (style : Style) (range : AddrRange A) (t : Text)
      → IsUsize (m.into range.start)
      → IsUsize (m.into range.end)
      → IsStopped t
      → read_range (fmt_range style range ++ t) ≡ some (range, t)
  unfolding read_range fmt_range
  read_range-fmt_range style range t fits_start fits_end stop =
      let first = fmt_addr style range.start in
      let last = fmt_addr style range.end in
      ap read_range (append_assoc first (codes ".." ++ last) t)
      ∙ ap with_start
          (read_addr-fmt_addr style range.start (codes ".." ++ last ++ t) fits_start refl)
      ∙ ap (with_dots range.start) (skip-append (codes "..") (last ++ t))
      ∙ ap (with_end range.start) (read_addr-fmt_addr style range.end t fits_end stop)
