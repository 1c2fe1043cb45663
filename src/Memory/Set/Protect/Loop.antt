-- ===== src/Memory/Set/Protect/Loop.antt =====
-- The loop of `protect`: what it leaves in the map, and the set after the insertions that follow.
use mathlib.Core.List.{append_assoc}
use axmm_crates.Base.{
  ℕ, ◌≤◌, ◌<◌, ◌≡◌, refl, sym, ap, subst, ◌∙◌, inl, inr, Bool, Option, none, some, List, [], ◌∷◌,
  ◌++◌, arith, lt-cases, Option-cases, if◌then◌else◌, ret,
}
use axmm_crates.Base.Word.{usize_mod}
use axmm_crates.Base.BTreeMap.{insert, extend}
use axmm_crates.Addr.MemoryAddr.{usize_addr}
use axmm_crates.Memory.Errors.{done}
use axmm_crates.Memory.Backend.{MappingBackend}
use axmm_crates.Memory.Backend.Laws.{between, IsLawful}
use axmm_crates.Memory.Area.{MemoryArea, start, end, unwrap_or}
use axmm_crates.Memory.Set.{MemorySet}
use axmm_crates.Memory.Set.Protect.{protect_areas}
use axmm_crates.Memory.Set.Protect.Round.{protect_one_lem}
use axmm_crates.Memory.Set.Protect.Pieces.{Round}
use axmm_crates.Memory.Set.Chain.{Chain, Chain-append, Chain-le, Chain-widen}
use axmm_crates.Memory.Set.View.{view, view-cons, view-append, view-below}
use axmm_crates.Memory.Set.Unmap.Retain.{AgreesFrom}

extend-append : {V : Type 0} (m l l' : List (ℕ × V)) → extend m (l ++ l') ≡ extend (extend m l) l'
unfolding extend
extend-append m [] l' = refl
extend-append m ((k, v) ∷ l) l' = extend-append (insert k v m) l l'

-- The flags of an address, in the range or not.
abbrev pub updated : {F : Type 0} → (F → Option F) → Bool → Option F → Option F
updated update b none = none
updated update b (some f) = some (if b then unwrap_or (update f) f else f)

module _ {B : MappingBackend} (P : Type 0) (entry : B.PageTable → ℕ → Option B.Flags)
    (first last : ℕ) (update_flags : B.Flags → Option B.Flags) where
  pub record Looped (lo hi : ℕ) (s : MemorySet B) (pt : B.PageTable) : Type 0 where
    pub kept : MemorySet B
    pub parts : MemorySet B
    pub table : B.PageTable
    pub merged : MemorySet B
    pub returns : protect_areas first last update_flags s pt ≡ ret (done, kept, parts, table)
    pub chain_kept : Chain lo kept hi
    pub chain : Chain lo merged hi
    pub placed :
        (init : MemorySet B) → Chain 0 init lo → extend (init ++ kept) parts ≡ init ++ merged
    pub flags : (x : ℕ) → view merged x ≡ updated update_flags (between first last x) (view s x)
    -- Where `P` holds, the page table is known.
    pub agrees : P → AgreesFrom entry lo table merged
    pub untouched : P → (x : ℕ) → x < lo → entry table x ≡ entry pt x

  module _ (lo hi : ℕ) (a : MemoryArea B) (s : MemorySet B) (pt : B.PageTable) (from : lo ≤ start a)
      (nonempty : start a < end a) (c : Chain (end a) s hi)
      (agrees : P → AgreesFrom entry lo pt ((start a, a) ∷ s)) where
    view-head :
        (x : ℕ)
        → view ((start a, a) ∷ s) x
          ≡ (if between (start a) (end a) x then some a.flags else view s x)
    view-head x = view-cons (start a) a s x

    Looped-skip :
        update_flags a.flags ≡ none → Looped (end a) hi s pt → Looped lo hi ((start a, a) ∷ s) pt
    unfolding protect_areas
    Looped-skip e l = record {
      kept = (start a, a) ∷ l.kept;
      parts = l.parts;
      table = l.table;
      merged = (start a, a) ∷ l.merged;
      returns = ground (arith, e, l.returns);
      chain_kept = (from, refl, nonempty, l.chain_kept);
      chain = (from, refl, nonempty, l.chain);
      placed = λ init d.
          ap (λ m. extend m l.parts) (sym (append_assoc init ((start a, a) ∷ []) l.kept))
          ∙ l.placed (init ++ ((start a, a) ∷ [])) (
              Chain-append 0 lo (end a) init ((start a, a) ∷ []) d
                (from, refl, nonempty, omega arith))
          ∙ append_assoc init ((start a, a) ∷ []) l.merged;
      flags = λ x. ground (arith, view-head x, view-cons (start a) a l.merged x, l.flags x, e);
      agrees = λ w x h. ground (
        arith,
        agrees w x h,
        view-head x,
        view-cons (start a) a l.merged x,
        l.agrees w x,
        l.untouched w x,
        view-below (end a) hi s x c,
        view-below (end a) hi l.merged x l.chain,
      );
      untouched = λ w x h. l.untouched w x (omega arith);
    }

    Looped-past :
        (new_flags : B.Flags)
        → update_flags a.flags ≡ some new_flags
        → last ≤ start a
        → Looped lo hi ((start a, a) ∷ s) pt
    unfolding protect_areas extend
    Looped-past new_flags e h = record {
      kept = (start a, a) ∷ s;
      parts = [];
      table = pt;
      merged = (start a, a) ∷ s;
      returns = ground (arith, e);
      chain_kept = (from, refl, nonempty, c);
      chain = (from, refl, nonempty, c);
      placed = λ init d. refl;
      flags = λ x. ground (arith, view-head x, view-below (end a) hi s x c);
      agrees = agrees;
      untouched = λ w x k. refl;
    }

    agrees_after :
        (new_flags : B.Flags)
        → (r : Round P entry first last new_flags a pt) → (l : Looped (end a) hi s r.table) → P
        → AgreesFrom entry lo l.table (r.pieces ++ l.merged)
    agrees_after new_flags r l w x k = elim (lt-cases x (end a)) [
      | inr past ↦ ground (arith, l.agrees w x past, view-append r.pieces l.merged x, r.flags x)
      | inl before ↦
          l.untouched w x before
          ∙ ground (
            arith,
            agrees w x k,
            view-head x,
            view-append r.pieces l.merged x,
            r.flags x,
            r.sets w x,
            view-below (end a) hi s x c before,
            view-below (end a) hi l.merged x l.chain before,
          )
    ]

    Looped-round :
        (new_flags : B.Flags)
        → update_flags a.flags ≡ some new_flags
        → start a < last
        → (r : Round P entry first last new_flags a pt) → Looped (end a) hi s r.table
        → Looped lo hi ((start a, a) ∷ s) pt
    unfolding protect_areas
    Looped-round new_flags e h r l = record {
      kept = (start a, r.area) ∷ l.kept;
      parts = r.parts ++ l.parts;
      table = l.table;
      merged = r.pieces ++ l.merged;
      returns = ground (arith, e, r.returns, l.returns);
      chain_kept = (
        from,
        r.kept.0,
        r.kept.1,
        Chain-widen (end a) hi (end r.area) hi l.kept r.kept.2 (omega arith) l.chain_kept,
      );
      chain =
          Chain-append lo (end a) hi r.pieces l.merged
            (Chain-widen (start a) (end a) lo (end a) r.pieces from (omega arith) r.chain) l.chain;
      placed = λ init d.
          let d' = Chain-widen 0 lo 0 (start a) init (omega arith) from d in
          extend-append (init ++ ((start a, r.area) ∷ l.kept)) r.parts l.parts
          ∙ ap (λ m. extend m l.parts)
              (r.placed hi init l.kept d' l.chain_kept ∙ sym (append_assoc init r.pieces l.kept))
          ∙ l.placed (init ++ r.pieces) (Chain-append 0 (start a) (end a) init r.pieces d' r.chain)
          ∙ append_assoc init r.pieces l.merged;
      flags = λ x.
          ground (arith, e, view-head x, view-append r.pieces l.merged x, r.flags x, l.flags x);
      agrees = agrees_after new_flags r l;
      untouched = λ w x k. ground (arith, l.untouched w x (omega arith), r.sets w x);
    }

  module _ (L : P → IsLawful B entry) (hi : ℕ) (order : first < last) (word : hi < usize_mod) where
    Looped-cons :
        (lo : ℕ) (a : MemoryArea B) (s : MemorySet B) (pt : B.PageTable)
        → lo ≤ start a
        → start a < end a
        → Chain (end a) s hi
        → (P → AgreesFrom entry lo pt ((start a, a) ∷ s))
        → ((pt' : B.PageTable) → (P → AgreesFrom entry (end a) pt' s) → Looped (end a) hi s pt')
        → Looped lo hi ((start a, a) ∷ s) pt
    Looped-cons lo a s pt from nonempty c agrees rest = elim (Option-cases (update_flags a.flags)) [
      | inl e ↦
          Looped-skip lo hi a s pt from nonempty c agrees e
            (rest pt λ w x h. ground (arith, agrees w x (omega arith), view-cons (start a) a s x))
      | inr (new_flags, e) ↦ elim (lt-cases (start a) last) [
        | inr past ↦ Looped-past lo hi a s pt from nonempty c agrees new_flags e past
        | inl before ↦
            let r =
              protect_one_lem P entry first last new_flags a pt L order before
                (record { nonempty = nonempty; fits = omega (arith, Chain-le (end a) hi s c) })
                (λ w x p q none_at.
                  ground (arith, agrees w x (omega arith), view-cons (start a) a s x, none_at)) in
            Looped-round lo hi a s pt from nonempty c agrees new_flags e before r (
              rest r.table λ w x h.
                ground (arith, agrees w x (omega arith), r.sets w x, view-cons (start a) a s x))
      ]
    ]

    -- The loop returns from a valid set. Where `P` holds the backend is lawful, and the set agrees with
    -- the page table before and after.
    pub protect_areas_lem :
        (lo : ℕ) (s : MemorySet B) (pt : B.PageTable)
        → Chain lo s hi
        → (P → AgreesFrom entry lo pt s)
        → Looped lo hi s pt
    unfolding protect_areas extend view
    protect_areas_lem lo [] pt c agrees = record {
      kept = [];
      parts = [];
      table = pt;
      merged = [];
      returns = refl;
      chain_kept = c;
      chain = c;
      placed = λ init d. refl;
      flags = λ x. refl;
      agrees = agrees;
      untouched = λ w x h. refl;
    }
    protect_areas_lem lo ((k, a) ∷ s) pt c agrees =
        subst (λ j. Looped lo hi ((j, a) ∷ s) pt) (sym c.1)
          (Looped-cons lo a s pt (omega arith) (omega arith) c.3 agrees
            λ pt' h. protect_areas_lem (end a) s pt' c.3 h)
