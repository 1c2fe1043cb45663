-- ===== src/Memory/Format.antt =====
-- The `Debug` text of areas and sets (memory_set/src/area.rs and memory_set/src/set.rs), without the
-- alternate flag. A formatter returns what it writes. The texts of ranges and flags, which the address
-- type and the backend give, are parameters.
use axmm_crates.Base.{ℕ, [], ◌∷◌, List, ◌++◌}
use axmm_crates.Base.Text.{Text, codes}
use axmm_crates.Addr.AddrRange.{AddrRange}
use axmm_crates.Memory.Backend.{MappingBackend}
use axmm_crates.Memory.Area.{MemoryArea}
use axmm_crates.Memory.Set.{MemorySet}

-- The fields of `debug_struct`, after the first: each with its name.
abbrev fields : List (Text × Text) → Text
fields [] = []
fields ((name, text) ∷ rest) = codes ", " ++ (name ++ (codes ": " ++ (text ++ fields rest)))

abbrev debug_struct : Text → Text × Text → List (Text × Text) → Text
debug_struct name (field, text) rest =
    name ++ (codes " { " ++ (field ++ (codes ": " ++ (text ++ (fields rest ++ codes " }")))))

-- The entries of `debug_list`, after the first.
abbrev entries : List Text → Text
entries [] = []
entries (text ∷ rest) = codes ", " ++ (text ++ entries rest)

abbrev debug_list : List Text → Text
debug_list [] = codes "[]"
debug_list (text ∷ rest) = codes "[" ++ (text ++ (entries rest ++ codes "]"))

module _ {B : MappingBackend} (debug_range : AddrRange ℕ → Text)
    (debug_flags : B.Flags → Text) where
  unfoldable pub fmt_area : MemoryArea B → Text
  fmt_area self =
      debug_struct (codes "MemoryArea") (codes "va_range", debug_range self.va_range)
        ((codes "flags", debug_flags self.flags) ∷ [])

  abbrev area_texts : MemorySet B → List Text
  area_texts [] = []
  area_texts ((k, area) ∷ rest) = fmt_area area ∷ area_texts rest

  unfoldable pub fmt_set : MemorySet B → Text
  unfolding fmt_area
  fmt_set self = debug_list (area_texts self)
