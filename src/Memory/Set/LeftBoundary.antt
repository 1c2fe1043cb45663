-- ===== src/Memory/Set/LeftBoundary.antt =====
-- `adjust_area` with a new left boundary.
use axmm_crates.Base.{ℕ, ◌-◌, ◌<◌, ◌≡◌, refl, Option, some, arith, ◌%◌, ret, Build}
use axmm_crates.Base.Word.{IsUsize}
use axmm_crates.Base.BTreeMap.{get, insert}
use axmm_crates.Base.BTreeMap.Lookup.{get-insert}
use axmm_crates.Addr.MemoryAddr
use axmm_crates.Addr.MemoryAddr.{usize_addr}
use axmm_crates.Addr.MemoryAddr.Pages.{page, aligned_4k}
use axmm_crates.Memory.Errors.{done}
use axmm_crates.Memory.Backend.{MappingBackend}
use axmm_crates.Memory.Backend.Laws.{IsLawful}
use axmm_crates.Memory.Area.{MemoryArea, start, end, shrink_left}
use axmm_crates.Memory.Area.Laws.{IsPart, shrink_left_lem}
use axmm_crates.Memory.Set.{MemorySet}
use axmm_crates.Memory.Set.Protect.{adjust_area, adjust_left, adjust_right}
use axmm_crates.Memory.Set.Chain.{Chain-le, IsValid, top}
use axmm_crates.Memory.Set.Stored.{stored}
use axmm_crates.Memory.Set.Resize.{resize}
use axmm_crates.Memory.Set.Unmap.Cut.{Agrees}

module _ {B : MappingBackend} (entry : B.PageTable → ℕ → Option B.Flags) (b : Build)
    (a : MemoryArea B) (first : ℕ) (s : MemorySet B) (pt : B.PageTable) where
  left_returns :
      (a' : MemoryArea B) (pt' : B.PageTable)
      → get (start a) s ≡ some a
      → first % page ≡ 0
      → end a % page ≡ 0
      → start a < first
      → first < end a
      → IsUsize (end a)
      → shrink_left (end a - first) a pt ≡ ret (done, a', pt')
      → adjust_area b (start a) first (end a) s pt ≡ ret (done, insert (start a) a' s, pt')
  unfolding adjust_area adjust_left adjust_right MemoryAddr.sub_addr
  left_returns a' pt' there al al' h k fits e =
      ground (arith, there, aligned_4k b first al, aligned_4k b (end a) al', e)

  -- Over a lawful backend, from a valid set that agrees with the page table, `adjust_area` that moves
  -- the start of an area, whose end is on a page boundary and stays, up to a page boundary inside it
  -- reports success. The area has the new start and the same end and flags, but the set has it under
  -- its old start still, and is not valid.
  pub adjust_area_left :
      IsLawful B entry
      → IsValid s
      → Agrees entry pt s
      → get (start a) s ≡ some a
      → first % page ≡ 0
      → end a % page ≡ 0
      → start a < first
      → first < end a
      → (areas : MemorySet B) × (table : B.PageTable) × (a' : MemoryArea B) × (adjust_area b
            (start a)
            first
            (end a)
            s
            pt
          ≡ ret (done, areas, table))
        × (get (start a) areas ≡ some a')
        × IsPart a first (end a) a'
        × ¬ IsValid areas
  adjust_area_left L valid agrees there al al' h k =
      let l = stored (start a) 0 top a s valid there in
      let fits : IsUsize (end a) = omega (arith, Chain-le (end a) top l.rest l.chain_rest) in
      let r0 =
        resize a a s valid there refl (omega arith) (omega arith) (λ x p q. absurd (omega arith)) in
      let (a', pt', e, part, _) =
        shrink_left_lem entry L (end a - first) first a pt
          (record { nonempty = omega arith; fits = fits }) (omega arith) (omega arith) h
          (λ x p q none_at. ground (arith, agrees x, r0.was x p, none_at)) in
      (
        insert (start a) a' s,
        pt',
        a',
        left_returns a' pt' there al al' h k fits e,
        get-insert (start a) a' s,
        part,
        λ valid'.
            let l' =
              stored (start a) 0 top a' (insert (start a) a' s) valid'
                (get-insert (start a) a' s) in
            omega (arith, l'.starts, part.part_start),
      )
