-- ===== src/Memory/Set/Calls/Spec.antt =====
-- What the calls promise, in terms of the addresses alone: a map from addresses to flags, with no
-- areas, no frames and no page table.
use axmm_crates.Base.{
  ℕ, ◌+◌, ◌≤◌, ◌<◌, ◌≡◌, sym, ap, ◌∙◌, ◌≢◌, ◌⊎◌, inl, inr, true, false, Option, none, some, List,
  [], ◌∷◌, arith, if◌then◌else◌,
}
use axmm_crates.Base.Word.{usize_mod, IsUsize}
use axmm_crates.Memory.Errors.{MappingResult, done, err, invalid_param, already_exists}
use axmm_crates.Memory.Backend.{MappingBackend}
use axmm_crates.Memory.Backend.Laws.{inside, between}
use axmm_crates.Memory.Area.{MemoryArea, start, end}
use axmm_crates.Memory.Set.Calls.{
  Op, insert_op, delete_op, map_op, unmap_op, protect_op, clear_op, insert_frame_op,
}
use axmm_crates.Memory.Set.Protect.Loop.{updated}

-- The flags of the addresses.
abbrev pub View : Type 0 → Type 0
View F = ℕ → Option F

abbrev pub Same : {F : Type 0} → View F → View F → Type 0
Same v v' = (x : ℕ) → v' x ≡ v x

module _ {B : MappingBackend} where
  abbrev pub Takes : View B.Flags → MemoryArea B → Type 0
  Takes v a = (x : ℕ) × (start a ≤ x) × (x < end a) × (v x ≢ none)

  -- The calls that keep a set and a page table in agreement.
  abbrev pub IsPlain : Op B → Type 0
  IsPlain (insert_op a) = ⊥
  IsPlain (delete_op k) = ⊥
  IsPlain (map_op a b flags) = IsUsize (end a) × (flags ≡ none)
  IsPlain (unmap_op first n) = Unit
  IsPlain (protect_op first n update_flags) = 0 < n
  IsPlain clear_op = Unit
  IsPlain (insert_frame_op b vaddr frame) = IsUsize vaddr

  abbrev pub ArePlain : List (Op B) → Type 0
  ArePlain [] = Unit
  ArePlain (op ∷ ops) = IsPlain op × ArePlain ops

  -- The result of a plain call on `v`, and the map after it.
  abbrev pub Spec : Op B → View B.Flags → MappingResult (Unit {0}) → View B.Flags → Type 0
  Spec (insert_op a) v result v' = ⊥
  Spec (delete_op k) v result v' = ⊥
  Spec (map_op a b flags) v result v' =
      ((end a ≤ start a) × (result ≡ err invalid_param) × Same v v')
      ⊎ ((start a < end a) × (b ≡ false) × Takes v a × (result ≡ err already_exists) × Same v v')
      ⊎ ((start a < end a)
          × ((b ≡ true) ⊎ ¬ (Takes v a))
          × (result ≡ done)
          × ((x : ℕ) → v' x ≡ (if between (start a) (end a) x then some a.flags else v x)))
  Spec (unmap_op first n) v result v' =
      ((usize_mod ≤ first + n) × (result ≡ err invalid_param) × Same v v')
      ⊎ (IsUsize (first + n)
          × (result ≡ done)
          × ((x : ℕ) → v' x ≡ (if inside first n x then none else v x)))
  Spec (protect_op first n update_flags) v result v' =
      ((usize_mod ≤ first + n) × (result ≡ err invalid_param) × Same v v')
      ⊎ (IsUsize (first + n)
          × (result ≡ done)
          × ((x : ℕ) → v' x ≡ updated update_flags (inside first n x) (v x)))
  Spec clear_op v result v' = (result ≡ done) × ((x : ℕ) → v' x ≡ none)
  Spec (insert_frame_op b vaddr frame) v result v' = (result ≡ done) × Same v v'

  -- The results of a sequence of calls.
  abbrev pub Specs :
      List (Op B) → View B.Flags → List (MappingResult (Unit {0})) → View B.Flags → Type 0
  Specs [] v results v' = (results ≡ []) × Same v v'
  Specs (op ∷ ops) v [] v' = ⊥
  Specs (op ∷ ops) v (result ∷ results) v' =
      (u : View B.Flags) × Spec op v result u × Specs ops u results v'

  -- The description leaves no choice.
  pub Spec-unique :
      (op : Op B) (v w v' w' : View B.Flags) (r q : MappingResult (Unit {0}))
      → Same v w
      → Spec op v r v'
      → Spec op w q w'
      → (r ≡ q) × Same v' w'
  Spec-unique (insert_op a) v w v' w' r q e void other = absurd void
  Spec-unique (delete_op k) v w v' w' r q e void other = absurd void
  Spec-unique (map_op a b flags) v w v' w' r q e (inl (void, x, same)) (inl (void', y, same')) =
      (x ∙ sym y, λ i. same' i ∙ e i ∙ sym (same i))
  Spec-unique (map_op a b flags) v w v' w' r q e (inl (void, x, same)) (inr (inl c)) =
      absurd (omega (arith, c.0))
  Spec-unique (map_op a b flags) v w v' w' r q e (inl (void, x, same)) (inr (inr c)) =
      absurd (omega (arith, c.0))
  Spec-unique (map_op a b flags) v w v' w' r q e (inr (inl c)) (inl (void, y, same)) =
      absurd (omega (arith, c.0))
  Spec-unique (map_op a b flags) v w v' w' r q e (inr (inr c)) (inl (void, y, same)) =
      absurd (omega (arith, c.0))
  Spec-unique (map_op a b flags) v w v' w' r q e (inr (inl (i, k, takes, x, same)))
        (inr (inl (i', k', takes', y, same'))) =
      (x ∙ sym y, λ j. same' j ∙ e j ∙ sym (same j))
  Spec-unique (map_op a b flags) v w v' w' r q e (inr (inl (i, k, takes, x, same)))
        (inr (inr (i', inl on, y, adds))) =
      absurd (ground arith)
  Spec-unique (map_op a b flags) v w v' w' r q e (inr (inl (i, k, (z, lo, hi, taken), x, same)))
        (inr (inr (i', inr spares, y, adds))) =
      absurd (spares (z, lo, hi, λ h. taken (sym (e z) ∙ h)))
  Spec-unique (map_op a b flags) v w v' w' r q e (inr (inr (i, inl on, x, adds)))
        (inr (inl (i', k, takes, y, same))) =
      absurd (ground arith)
  Spec-unique (map_op a b flags) v w v' w' r q e (inr (inr (i, inr spares, x, adds)))
        (inr (inl (i', k, (z, lo, hi, taken), y, same))) =
      absurd (spares (z, lo, hi, λ h. taken (e z ∙ h)))
  Spec-unique (map_op a b flags) v w v' w' r q e (inr (inr (i, f, x, adds)))
        (inr (inr (i', f', y, adds'))) =
      (x ∙ sym y, λ j. ground (arith, adds j, adds' j, e j))
  Spec-unique (unmap_op first n) v w v' w' r q e (inl (past, x, same)) (inl (past', y, same')) =
      (x ∙ sym y, λ i. same' i ∙ e i ∙ sym (same i))
  Spec-unique (unmap_op first n) v w v' w' r q e (inl c) (inr d) = absurd (omega (arith, c.0, d.0))
  Spec-unique (unmap_op first n) v w v' w' r q e (inr c) (inl d) = absurd (omega (arith, c.0, d.0))
  Spec-unique (unmap_op first n) v w v' w' r q e (inr (fits, x, f)) (inr (fits', y, g)) =
      (x ∙ sym y, λ i. ground (arith, f i, g i, e i))
  Spec-unique (protect_op first n up) v w v' w' r q e (inl (past, x, same))
        (inl (past', y, same')) =
      (x ∙ sym y, λ i. same' i ∙ e i ∙ sym (same i))
  Spec-unique (protect_op first n up) v w v' w' r q e (inl c) (inr d) =
      absurd (omega (arith, c.0, d.0))
  Spec-unique (protect_op first n up) v w v' w' r q e (inr c) (inl d) =
      absurd (omega (arith, c.0, d.0))
  Spec-unique (protect_op first n up) v w v' w' r q e (inr (fits, x, f)) (inr (fits', y, g)) =
      (x ∙ sym y, λ i. g i ∙ ap (updated up (inside first n i)) (e i) ∙ sym (f i))
  Spec-unique clear_op v w v' w' r q e (x, f) (y, g) = (x ∙ sym y, λ i. g i ∙ sym (f i))
  Spec-unique (insert_frame_op b vaddr frame) v w v' w' r q e (x, f) (y, g) =
      (x ∙ sym y, λ i. g i ∙ e i ∙ sym (f i))

  pub Specs-unique :
      (ops : List (Op B)) (v w v' w' : View B.Flags) (r q : List (MappingResult (Unit {0})))
      → Same v w
      → Specs ops v r v'
      → Specs ops w q w'
      → (r ≡ q) × Same v' w'
  Specs-unique [] v w v' w' r q e (x, f) (y, g) = (x ∙ sym y, λ i. g i ∙ e i ∙ sym (f i))
  Specs-unique (op ∷ ops) v w v' w' [] q e void other = absurd void
  Specs-unique (op ∷ ops) v w v' w' (r ∷ rs) [] e other void = absurd void
  Specs-unique (op ∷ ops) v w v' w' (r ∷ rs) (q ∷ qs) e (u, first, rest) (u', first', rest') =
      let one = Spec-unique op v w u u' r q e first first' in
      let others = Specs-unique ops u u' v' w' rs qs one.1 rest rest' in
      (ground (arith, one.0, others.0), others.1)
