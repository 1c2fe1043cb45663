-- ===== src/Memory/Set/Unmap/Retain.antt =====
-- The first step of `unmap`: areas that lie in the range are unmapped and removed.
use axmm_crates.Base.{
  ℕ, ◌≤◌, ◌<◌, ◌≡◌, refl, ◌⊎◌, inl, inr, true, false, Option, none, [], ◌∷◌, arith, Bool-cases, ret,
}
use axmm_crates.Base.Word.{usize_mod}
use axmm_crates.Addr.MemoryAddr.{usize_addr}
use axmm_crates.Addr.AddrRange.{AddrRange, contained_in}
use axmm_crates.Memory.Errors.{done}
use axmm_crates.Memory.Backend.{MappingBackend}
use axmm_crates.Memory.Backend.Laws.{between, MappedIn, Sets, IsLawful}
use axmm_crates.Memory.Area.{MemoryArea, start, end, unmap_area}
use axmm_crates.Memory.Area.Laws.{IsValid, unmap_area_lem}
use axmm_crates.Memory.Set.{MemorySet}
use axmm_crates.Memory.Set.Change.{retain_outside}
use axmm_crates.Memory.Set.Chain.{Chain, Chain-le, Chain-widen}
use axmm_crates.Memory.Set.View.{view, view-cons, view-below}

module _ {B : MappingBackend} (first last : ℕ) where
  -- No area of the set lies in the range.
  abbrev pub NoneIn : MemorySet B → Type 0
  NoneIn [] = Unit
  NoneIn ((k, a) ∷ s) = ((start a < first) ⊎ (last < end a)) × NoneIn s

module _ {B : MappingBackend} (entry : B.PageTable → ℕ → Option B.Flags) where
  -- From `lo` on the page table maps what the set says.
  abbrev pub AgreesFrom : ℕ → B.PageTable → MemorySet B → Type 0
  AgreesFrom lo pt s = (x : ℕ) → lo ≤ x → entry pt x ≡ view s x

  module _ (L : IsLawful B entry) (first last hi : ℕ) (word : hi < usize_mod) where
    abbrev pub range : AddrRange ℕ
    range = record { start = first; end = last }

    pub record Retained (lo : ℕ) (s : MemorySet B) (pt : B.PageTable) : Type 0 where
      pub kept : MemorySet B
      pub table : B.PageTable
      pub returns : retain_outside range s pt ≡ ret (kept, table)
      pub chain : Chain lo kept hi
      pub agrees : AgreesFrom lo table kept
      pub untouched : (x : ℕ) → x < lo → entry table x ≡ entry pt x
      pub same_outside : (x : ℕ) → between first last x ≡ false → view kept x ≡ view s x
      pub none_in : NoneIn first last kept

    outside_of :
        (a : MemoryArea B)
        → contained_in a.va_range range ≡ false
        → (start a < first) ⊎ (last < end a)
    unfolding contained_in
    outside_of a out = ground arith

    pub head-IsValid :
        (lo k : ℕ) (a : MemoryArea B) (s : MemorySet B) → Chain lo ((k, a) ∷ s) hi → IsValid a
    head-IsValid lo k a s c = record {
      nonempty = omega arith;
      fits = omega (arith, Chain-le (end a) hi s c.3);
    }

    -- An area at the head of the set is wholly mapped.
    pub mapped_head :
        (lo k : ℕ) (a : MemoryArea B) (s : MemorySet B) (pt : B.PageTable)
        → lo ≤ start a
        → AgreesFrom lo pt ((k, a) ∷ s)
        → MappedIn B entry (start a) (end a) pt
    mapped_head lo k a s pt h agrees x p q =
        ground (arith, agrees x (omega arith), view-cons k a s x)

    Retained-keep :
        (lo k : ℕ) (a : MemoryArea B) (s : MemorySet B) (pt : B.PageTable)
        → Chain lo ((k, a) ∷ s) hi
        → AgreesFrom lo pt ((k, a) ∷ s)
        → contained_in a.va_range range ≡ false
        → Retained (end a) s pt
        → Retained lo ((k, a) ∷ s) pt
    unfolding retain_outside
    Retained-keep lo k a s pt c agrees out r = record {
      kept = (k, a) ∷ r.kept;
      table = r.table;
      returns = ground (arith, out, r.returns);
      chain = (c.0, c.1, c.2, r.chain);
      agrees = λ x h. ground (
        arith,
        agrees x h,
        view-cons k a s x,
        view-cons k a r.kept x,
        r.agrees x,
        r.untouched x,
        view-below (end a) hi s x c.3,
        view-below (end a) hi r.kept x r.chain,
      );
      untouched = λ x h. r.untouched x (omega arith);
      same_outside =
          λ x h. ground (arith, view-cons k a s x, view-cons k a r.kept x, r.same_outside x h);
      none_in = (outside_of a out, r.none_in);
    }

    Retained-drop :
        (lo k : ℕ) (a : MemoryArea B) (s : MemorySet B) (pt pt' : B.PageTable)
        → Chain lo ((k, a) ∷ s) hi
        → AgreesFrom lo pt ((k, a) ∷ s)
        → contained_in a.va_range range ≡ true
        → (a' : MemoryArea B) → unmap_area a pt ≡ ret (done, a', pt')
        → Sets B entry (start a) (end a) none pt pt'
        → Retained (end a) s pt'
        → Retained lo ((k, a) ∷ s) pt
    unfolding retain_outside contained_in
    Retained-drop lo k a s pt pt' c agrees within a' unmapped sets r = record {
      kept = r.kept;
      table = r.table;
      returns = ground (arith, within, unmapped, r.returns);
      chain = Chain-widen (end a) hi lo hi r.kept (omega arith) (omega arith) r.chain;
      agrees = λ x h. ground (
        arith,
        agrees x h,
        sets x,
        view-cons k a s x,
        r.agrees x,
        r.untouched x,
        view-below (end a) hi s x c.3,
        view-below (end a) hi r.kept x r.chain,
      );
      untouched = λ x h. ground (arith, r.untouched x, sets x);
      same_outside = λ x h. ground (arith, view-cons k a s x, r.same_outside x h);
      none_in = r.none_in;
    }

    -- On a set that agrees with the page table the step returns, and leaves what `Retained` says.
    pub retain_outside_lem :
        (lo : ℕ) (s : MemorySet B) (pt : B.PageTable)
        → Chain lo s hi
        → AgreesFrom lo pt s
        → Retained lo s pt
    unfolding retain_outside
    retain_outside_lem lo [] pt c agrees = record {
      kept = [];
      table = pt;
      returns = refl;
      chain = c;
      agrees = agrees;
      untouched = λ x h. refl;
      same_outside = λ x h. refl;
      none_in = tt;
    }
    retain_outside_lem lo ((k, a) ∷ s) pt c agrees =
        elim (Bool-cases (contained_in a.va_range range)) [
          | inl within ↦
              let (a', pt', unmapped, part, sets) =
                unmap_area_lem entry L a pt (head-IsValid lo k a s c)
                  (mapped_head lo k a s pt (omega arith) agrees) in
              Retained-drop lo k a s pt pt' c agrees within a' unmapped sets (
                retain_outside_lem (end a) s pt' c.3
                  (λ x h. ground (arith, sets x, agrees x (omega arith), view-cons k a s x)))
          | inr out ↦ Retained-keep lo k a s pt c agrees out (
              retain_outside_lem (end a) s pt c.3
                (λ x h. ground (arith, agrees x (omega arith), view-cons k a s x)))
        ]
