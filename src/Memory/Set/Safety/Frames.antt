-- ===== src/Memory/Set/Safety/Frames.antt =====
-- `insert_frame` at any address of a word.
use axmm_crates.Base.{
  ℕ, ◌+◌, ◌-◌, ◌%◌, ◌<◌, ◌≡◌, refl, subst, inl, inr, Option, none, arith, ret, Build,
}
use axmm_crates.Base.Word.{IsUsize}
use axmm_crates.Base.BTreeMap.{get, insert}
use axmm_crates.Addr.MemoryAddr.{usize_addr}
use axmm_crates.Addr.MemoryAddr.Pages.{page}
use axmm_crates.Memory.Backend.{MappingBackend}
use axmm_crates.Memory.Area.{start}
use axmm_crates.Memory.Set.{MemorySet}
use axmm_crates.Memory.Set.Frames.{insert_frame}
use axmm_crates.Memory.Set.Frames.Access.{framed, insert_frame_found}
use axmm_crates.Memory.Set.Query.Find.{Found, NotFound, find_outcomes}
use axmm_crates.Memory.Set.Chain.{IsValid}
use axmm_crates.Memory.Set.View.{view}
use axmm_crates.Memory.Set.At.{replace}

module _ {B : MappingBackend} (b : Build) (vaddr : ℕ) (frame : B.FrameTrackerRef)
    (s : MemorySet B) where
  -- The call returns, and the set is valid with the same addresses and flags.
  pub record Keeps : Type 0 where
    pub old : Option B.FrameTrackerRef
    pub areas : MemorySet B
    pub returns : insert_frame b vaddr frame s ≡ ret (old, areas)
    pub valid : IsValid areas
    pub same : (x : ℕ) → view areas x ≡ view s x

  missing : IsValid s → NotFound vaddr s → Keeps
  unfolding insert_frame
  missing valid f = record {
    old = none;
    areas = s;
    returns = ground (arith, f.finds_mut);
    valid = valid;
    same = λ x. refl;
  }

module _ {B : MappingBackend} (b : Build) (p off : ℕ) (aligned : p % page ≡ 0) (within : off < page)
    (fits : IsUsize (p + off)) (frame : B.FrameTrackerRef) (s : MemorySet B)
    (valid : IsValid s) where
  kept : Found (p + off) s → Keeps b (p + off) frame s
  kept f =
      let r =
        replace f.area (framed b p off aligned within fits frame s valid f.area) s valid f.stored
          refl refl in
      record {
        old = get p f.area.frames;
        areas = insert (start f.area) (framed b p off aligned within fits frame s valid f.area) s;
        returns = insert_frame_found b p off aligned within fits frame s valid f;
        valid = r.valid;
        same = λ x. ground (arith, r.flags x, r.was x);
      }

module _ {B : MappingBackend} where
  -- On a valid set, `insert_frame` at an address of a word returns, and changes no area's range or
  -- flags.
  pub insert_frame_any :
      (b : Build) (vaddr : ℕ) (frame : B.FrameTrackerRef) (s : MemorySet B)
      → IsUsize vaddr
      → IsValid s
      → Keeps b vaddr frame s
  insert_frame_any b vaddr frame s fits valid =
      let off = vaddr % page in
      let p = vaddr - off in
      let e : p + off ≡ vaddr = omega arith in
      subst (λ x. Keeps b x frame s) e
        (elim (find_outcomes (p + off) s (omega arith) valid) [
          | inr f ↦ missing b (p + off) frame s valid f
          | inl f ↦ kept b p off (omega arith) (omega arith) (omega arith) frame s valid f
        ])
