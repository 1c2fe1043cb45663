-- ===== src/Memory/Set/Insert.antt =====
-- `insert` and `delete` of memory_set/src/set.rs, which change the areas and no page table.
use axmm_crates.Base.{
  ◌==◌, ℕ, ◌≤◌, ◌<◌, ◌≡◌, refl, sym, ◌≢◌, ◌⊎◌, inl, inr, true, false, Option, none, some, [], ◌∷◌,
  arith, Bool-cases, lt-cases, if◌then◌else◌, ret,
}
use axmm_crates.Base.Word.{IsUsize}
use axmm_crates.Base.BTreeMap.{get, remove}
use axmm_crates.Addr.MemoryAddr.{usize_addr}
use axmm_crates.Addr.AddrRange
use axmm_crates.Memory.Errors.{done, err, invalid_param, already_exists}
use axmm_crates.Memory.Backend.{MappingBackend}
use axmm_crates.Memory.Backend.Laws.{between}
use axmm_crates.Memory.Area.{MemoryArea, start, end}
use axmm_crates.Memory.Set.{MemorySet}
use axmm_crates.Memory.Set.Change.{insert, delete}
use axmm_crates.Memory.Set.Query.{overlaps}
use axmm_crates.Memory.Set.Query.Overlaps.{overlaps_free, overlaps-view}
use axmm_crates.Memory.Set.Chain.{Chain, Chain-widen, IsValid, top}
use axmm_crates.Memory.Set.View.{view, view-below}
use axmm_crates.Memory.Set.Room.{Inserted, insert_new_lem}

module _ {B : MappingBackend} where
  -- Some area of the set has an address of `a`.
  abbrev pub Meets : MemorySet B → MemoryArea B → Type 0
  Meets s a = (x : ℕ) × (start a ≤ x) × (x < end a) × (view s x ≢ none)

  -- The set after `insert`, valid, with the addresses of the area added.
  pub record Added (a : MemoryArea B) (s : MemorySet B) : Type 0 where
    pub areas : MemorySet B
    pub returns : insert a false s ≡ ret (done, areas)
    pub valid : IsValid areas
    pub adds :
        (x : ℕ) → view areas x ≡ (if between (start a) (end a) x then some a.flags else view s x)
    pub undone : delete (start a) areas ≡ s

  module _ (a : MemoryArea B) (s : MemorySet B) (nonempty : start a < end a) where
    refused : overlaps a.va_range s ≡ true → insert a false s ≡ ret (err already_exists, s)
    unfolding insert AddrRange.is_empty
    refused h = ground arith

    added : overlaps a.va_range s ≡ false → Inserted a s → Added a s
    unfolding insert AddrRange.is_empty
    added h i = record {
      areas = i.areas;
      returns = ground (arith, i.returns);
      valid = i.valid;
      adds = i.adds;
      undone = i.undone;
    }

  empty :
      (a : MemoryArea B) (s : MemorySet B)
      → end a ≤ start a
      → insert a false s ≡ ret (err invalid_param, s)
  unfolding insert AddrRange.is_empty
  empty a s h = ground arith

  -- `insert` without `unmap_overlap` of an area that ends in a word, on a valid set, never panics. An
  -- empty area is an error, and so is one of whose addresses the set has some: nothing changes. Any
  -- other is added to the set, which stays valid, and `delete` of its start takes it out again.
  pub insert_outcomes :
      (a : MemoryArea B) (s : MemorySet B)
      → IsUsize (end a)
      → IsValid s
      → ((end a ≤ start a) × (insert a false s ≡ ret (err invalid_param, s)))
        ⊎ (Meets s a × (insert a false s ≡ ret (err already_exists, s)))
        ⊎ Added a s
  insert_outcomes a s fits valid = elim (lt-cases (start a) (end a)) [
    | inr void ↦ inl (void, empty a s void)
    | inl nonempty ↦ elim (Bool-cases (overlaps a.va_range s)) [
      | inl hit ↦
          inr
            (inl ((overlaps-view a.va_range s nonempty fits valid).0 hit, refused a s nonempty hit))
      | inr miss ↦ inr (
          inr (
            added a s nonempty miss (
              insert_new_lem a nonempty s fits valid
                λ x p q. overlaps_free a.va_range s x (omega arith) valid miss p q)))
    ]
  ]

  -- What `view` says after the area under a key has been taken out.
  abbrev pub without : Option (MemoryArea B) → ℕ → Option B.Flags → Option B.Flags
  without none x o = o
  without (some a) x o = if between (start a) (end a) x then none else o

  remove-Chain : (k lo hi : ℕ) (s : MemorySet B) → Chain lo s hi → Chain lo (remove k s) hi
  unfolding remove
  remove-Chain k lo hi [] c = c
  remove-Chain k lo hi ((j, b) ∷ s) c = elim (Bool-cases (j == k)) [
    | inl here ↦ rw here (Chain-widen (end b) hi lo hi s (omega arith) (omega arith) c.3)
    | inr there ↦ rw there (c.0, c.1, c.2, remove-Chain k (end b) hi s c.3)
  ]

  get-Chain :
      (k lo hi : ℕ) (s : MemorySet B) (x : ℕ)
      → Chain lo s hi
      → x < lo
      → (o : Option B.Flags) → without (get k s) x o ≡ o
  unfolding get
  get-Chain k lo hi [] x c h o = refl
  get-Chain k lo hi ((j, b) ∷ s) x c h o =
      ground (arith, get-Chain k (end b) hi s x c.3 (omega arith) o)

  view-remove :
      (k lo hi : ℕ) (s : MemorySet B) (x : ℕ)
      → Chain lo s hi
      → view (remove k s) x ≡ without (get k s) x (view s x)
  unfolding remove get view
  view-remove k lo hi [] x c = refl
  view-remove k lo hi ((j, b) ∷ s) x c = elim (Bool-cases (j == k)) [
    | inl here ↦ rw here (ground (arith, view-below (end b) hi s x c.3))
    | inr there ↦ rw there elim (Bool-cases (between (start b) (end b) x)) [
      | inl within ↦ rw within (sym (get-Chain k (end b) hi s x c.3 (ground arith) (some b.flags)))
      | inr out ↦ rw out (view-remove k (end b) hi s x c.3)
    ]
  ]

  -- `delete` keeps a set valid, and takes from it the addresses of the area that starts at the key,
  -- if one does.
  pub delete_erases :
      (k : ℕ) (s : MemorySet B)
      → IsValid s
      → IsValid (delete k s) × ((x : ℕ) → view (delete k s) x ≡ without (get k s) x (view s x))
  unfolding delete
  delete_erases k s valid = (remove-Chain k 0 top s valid, λ x. view-remove k 0 top s x valid)
