-- ===== src/Memory/Set/Calls.antt =====
-- The calls that change a `MemorySet`, as data, so that sequences of them can be run. `adjust_area`
-- is not among them, nor `insert` with `unmap_overlap`: a valid set need not stay valid under them.
pub mod Returns
pub mod Steps
pub mod Framed
pub mod Kept
pub mod Spec
pub mod Follows
pub mod Runs
pub mod Allocate
use axmm_crates.Base.{ℕ, ◌+◌, ◌<◌, Bool, false, Option, List, [], ◌∷◌, Outcome, ret, ◌>>=◌, Build}
use axmm_crates.Base.Word.{IsUsize}
use axmm_crates.Memory.Errors.{MappingResult, done, Call}
use axmm_crates.Memory.Backend.{MappingBackend}
use axmm_crates.Memory.Area.{MemoryArea, end}
use axmm_crates.Memory.Set.{MemorySet}
use axmm_crates.Memory.Set.Change.{insert, delete, map, unmap, clear}
use axmm_crates.Memory.Set.Protect.{protect}
use axmm_crates.Memory.Set.Frames.{insert_frame}

pub data Op (B : MappingBackend) : Type 0 where
  insert_op : MemoryArea B → Op B
  delete_op : ℕ → Op B
  map_op : MemoryArea B → Bool → Option B.Flags → Op B
  unmap_op : ℕ → ℕ → Op B
  protect_op : ℕ → ℕ → (B.Flags → Option B.Flags) → Op B
  clear_op : Op B
  insert_frame_op : Build → ℕ → B.FrameTrackerRef → Op B

module _ {B : MappingBackend} where
  -- The areas and the addresses fit a word, and `protect` has a range that is not empty.
  abbrev pub IsProper : Op B → Type 0
  IsProper (insert_op a) = IsUsize (end a)
  IsProper (delete_op k) = Unit
  IsProper (map_op a b flags) = IsUsize (end a)
  IsProper (unmap_op first n) = Unit
  IsProper (protect_op first n update_flags) = 0 < n
  IsProper clear_op = Unit
  IsProper (insert_frame_op b vaddr frame) = IsUsize vaddr

  unfoldable pub apply : Op B → MemorySet B → B.PageTable → Call (MemorySet B) B.PageTable
  unfolding insert delete map unmap protect clear insert_frame
  apply (insert_op a) s pt = do (result, areas) ← insert a false s; ret (result, areas, pt)
  apply (delete_op k) s pt = ret (done, delete k s, pt)
  apply (map_op a b flags) s pt = map a b flags s pt
  apply (unmap_op first n) s pt = unmap first n s pt
  apply (protect_op first n update_flags) s pt = protect first n update_flags s pt
  apply clear_op s pt = clear s pt
  apply (insert_frame_op b vaddr frame) s pt = do
    (old, areas) ← insert_frame b vaddr frame s
    ret (done, areas, pt)

  -- A caller that goes on after an error: the results, and the states at the end.
  unfoldable pub run :
      List (Op B)
      → MemorySet B
      → B.PageTable
      → Outcome (List (MappingResult (Unit {0})) × MemorySet B × B.PageTable)
  unfolding apply
  run [] s pt = ret ([], s, pt)
  run (op ∷ ops) s pt = do
    (result, areas, table) ← apply op s pt
    (results, areas', table') ← run ops areas table
    ret (result ∷ results, areas', table')
