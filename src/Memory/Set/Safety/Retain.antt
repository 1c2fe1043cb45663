-- ===== src/Memory/Set/Safety/Retain.antt =====
-- The first step of `unmap`, where the backend may refuse.
use axmm_crates.Base.{
  ℕ, ◌≡◌, refl, ◌⊎◌, inl, inr, true, false, none, [], ◌∷◌, arith, Bool-cases, ret, panic,
}
use axmm_crates.Addr.MemoryAddr.{usize_addr}
use axmm_crates.Addr.AddrRange.{AddrRange, contained_in}
use axmm_crates.Memory.Backend.{MappingBackend}
use axmm_crates.Memory.Backend.Laws.{between}
use axmm_crates.Memory.Area.{MemoryArea, start, end, unmap_area}
use axmm_crates.Memory.Area.Tries.{Refuses, Succeeds, Fails, unmap_area_tries}
use axmm_crates.Memory.Set.{MemorySet}
use axmm_crates.Memory.Set.Change.{retain_outside}
use axmm_crates.Memory.Set.Chain.{Chain, Chain-widen}
use axmm_crates.Memory.Set.View.{view, view-cons, view-below}
use axmm_crates.Memory.Set.Unmap.Retain.{NoneIn}

-- `AddrRange { start, end }`
abbrev pub range_of : ℕ → ℕ → AddrRange ℕ
range_of first last = record { start = first; end = last }

module _ {B : MappingBackend} where
  -- `s'` has no address that `s` has not, and has those that it has with the same flags.
  abbrev pub IsSub : MemorySet B → MemorySet B → Type 0
  IsSub s' s = (x : ℕ) → (view s' x ≡ none) ⊎ (view s' x ≡ view s x)

module _ {B : MappingBackend} (first last hi : ℕ) where
  pub record Kept (lo : ℕ) (s : MemorySet B) (pt : B.PageTable) : Type 0 where
    pub kept : MemorySet B
    pub table : B.PageTable
    pub returns : retain_outside (range_of first last) s pt ≡ ret (kept, table)
    pub chain : Chain lo kept hi
    pub same_outside : (x : ℕ) → between first last x ≡ false → view kept x ≡ view s x
    pub sub : IsSub kept s
    pub none_in : NoneIn first last kept

  abbrev pub Retains : ℕ → MemorySet B → B.PageTable → Type 0
  Retains lo s pt = Kept lo s pt ⊎ ((retain_outside (range_of first last) s pt ≡ panic) × Refuses B)

  module _ (lo k : ℕ) (a : MemoryArea B) (s : MemorySet B) (pt : B.PageTable)
      (c : Chain lo ((k, a) ∷ s) hi) where
    kept_cons :
        contained_in a.va_range (range_of first last) ≡ false
        → Retains (end a) s pt
        → Retains lo ((k, a) ∷ s) pt
    unfolding retain_outside contained_in
    kept_cons out (inr (e, refused)) = inr (ground (arith, out, e), refused)
    kept_cons out (inl r) = inl (record {
      kept = (k, a) ∷ r.kept;
      table = r.table;
      returns = ground (arith, out, r.returns);
      chain = (c.0, c.1, c.2, r.chain);
      same_outside =
          λ x h. ground (arith, view-cons k a s x, view-cons k a r.kept x, r.same_outside x h);
      sub = λ x. ground (arith, view-cons k a s x, view-cons k a r.kept x, r.sub x);
      none_in = (ground (arith, out), r.none_in);
    })

    dropped :
        contained_in a.va_range (range_of first last) ≡ true
        → (u : Succeeds (unmap_area a pt) a (start a) (end a)) → Retains (end a) s u.table
        → Retains lo ((k, a) ∷ s) pt
    unfolding retain_outside contained_in
    dropped within u (inr (e, refused)) = inr (ground (arith, within, u.returns, e), refused)
    dropped within u (inl r) = inl (record {
      kept = r.kept;
      table = r.table;
      returns = ground (arith, within, u.returns, r.returns);
      chain = Chain-widen (end a) hi lo hi r.kept (omega arith) (omega arith) r.chain;
      same_outside = λ x h. ground (arith, view-cons k a s x, r.same_outside x h);
      sub = λ x. ground (arith, view-cons k a s x, r.sub x, view-below (end a) hi r.kept x r.chain);
      none_in = r.none_in;
    })

    refused_head :
        contained_in a.va_range (range_of first last) ≡ true
        → Fails (unmap_area a pt) a
        → retain_outside (range_of first last) ((k, a) ∷ s) pt ≡ panic
    unfolding retain_outside
    refused_head within f = ground (arith, within, f.returns)

  pub retain_outside_any :
      (lo : ℕ) (s : MemorySet B) (pt : B.PageTable) → Chain lo s hi → Retains lo s pt
  unfolding retain_outside view
  retain_outside_any lo [] pt c = inl (record {
    kept = [];
    table = pt;
    returns = refl;
    chain = c;
    same_outside = λ x h. refl;
    sub = λ x. inl refl;
    none_in = tt;
  })
  retain_outside_any lo ((k, a) ∷ s) pt c =
      elim (Bool-cases (contained_in a.va_range (range_of first last))) [
        | inr out ↦ kept_cons lo k a s pt c out (retain_outside_any (end a) s pt c.3)
        | inl within ↦ elim (unmap_area_tries a pt) [
          | inl u ↦ dropped lo k a s pt c within u (retain_outside_any (end a) s u.table c.3)
          | inr (f, refused) ↦ inr (refused_head lo k a s pt c within f, refused)
        ]
      ]
