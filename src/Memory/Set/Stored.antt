-- ===== src/Memory/Set/Stored.antt =====
-- A set around the area that it has under a key.
use axmm_crates.Base.{
  ℕ, ◌<◌, ◌≡◌, refl, subst, ap, inl, inr, some, [], ◌∷◌, ◌++◌, arith, ◌==◌, Bool-cases,
}
use axmm_crates.Base.BTreeMap.{get}
use axmm_crates.Memory.Backend.{MappingBackend}
use axmm_crates.Memory.Area.{MemoryArea, start, end}
use axmm_crates.Memory.Set.{MemorySet}
use axmm_crates.Memory.Set.Chain.{Chain}

module _ {B : MappingBackend} where
  pub record Stored (k lo hi : ℕ) (a : MemoryArea B) (s : MemorySet B) : Type 0 where
    pub init : MemorySet B
    pub rest : MemorySet B
    pub shape : s ≡ init ++ ((k, a) ∷ rest)
    pub starts : k ≡ start a
    pub nonempty : k < end a
    pub chain_init : Chain lo init k
    pub chain_rest : Chain (end a) rest hi

  pub stored :
      (k lo hi : ℕ) (a : MemoryArea B) (s : MemorySet B)
      → Chain lo s hi
      → get k s ≡ some a
      → Stored k lo hi a s
  unfolding get
  stored k lo hi a [] c e = absurd (ground (arith, e))
  stored k lo hi a ((j, b) ∷ s) c e = elim (Bool-cases (j == k)) [
    | inl here ↦
        let same : b ≡ a = ground (arith, here, e) in
        let key : j ≡ k = ground (arith, here) in
        subst (λ v. Stored k lo hi v ((j, b) ∷ s)) same
          (subst (λ i. Stored i lo hi b ((j, b) ∷ s)) key
            (record {
              init = [];
              rest = s;
              shape = refl;
              starts = c.1;
              nonempty = c.2;
              chain_init = c.0;
              chain_rest = c.3;
            }))
    | inr there ↦
        let l = stored k (end b) hi a s c.3 (ground (arith, there, e)) in
        record {
          init = (j, b) ∷ l.init;
          rest = l.rest;
          shape = ap (λ t. (j, b) ∷ t) l.shape;
          starts = l.starts;
          nonempty = l.nonempty;
          chain_init = (c.0, c.1, c.2, l.chain_init);
          chain_rest = l.chain_rest;
        }
  ]
