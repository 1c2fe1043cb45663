-- ===== src/Lib.antt =====
-- The crates memory_addr and memory_set: physical and virtual addresses, ranges of them, and the set
-- of mapped areas of an address space.
--
-- The parts and how they interact. `memory_addr` has alignment functions on numbers
-- (memory_addr/src/lib.rs), the trait `MemoryAddr` of address types whose methods call them
-- (memory_addr/src/addr.rs), ranges of addresses (memory_addr/src/range.rs) and an iterator over
-- the pages of a range (memory_addr/src/iter.rs). `memory_set` keeps in a `MemorySet`
-- (memory_set/src/set.rs) the areas of an address space by their start addresses. An area
-- (memory_set/src/area.rs) has a range, flags, frames and a backend (memory_set/src/backend.rs),
-- and its calls go through the backend to the page table.
--
-- The files.
--   Base: the names that all files share; outcomes that may panic, and the options of a build
--     (Base/Panic), postconditions of them (Base/Ensures), words of 64 bits (Base/Word), powers of two and masks (Base/Bits), the ordered
--     map of the Rust library as a sorted list (Base/BTreeMap), text with the hexadecimal numbers of
--     `core::fmt` (Base/Text), and memory, pointers and slices of bytes (Base/Memory).
--   Addr/Align: the functions of memory_addr/src/lib.rs, by name.
--   Addr/MemoryAddr: the trait is a record with the laws of the two conversions and of the order;
--     its provided methods keep their names. `op_add`, `op_sub`, `op_sub_addr`, `op_add_assign` and
--     `op_sub_assign` are the operators of the macro `def_usize_addr!`.
--     The laws are not in the trait; the address types of the crate have them. MemoryAddr/Transfer
--     says in what sense they make an address type no more than `usize`.
--   Addr/AddrRange and Addr/PageIter: ranges and the iterator, by the names of the methods. The
--     macros `addr_range!`, `va_range!` and `pa_range!` are definitions of the same names.
--   Addr/Format: the formatters of addresses, which `def_usize_addr_formatter!` makes, and of ranges.
--     `read_addr` and `read_range` are no code of the crate: they say what the text determines.
--   Addr/Pointers: the conversions between `VirtAddr` and pointers. Addr/FrameTracker: the trait
--     `FrameTracker` (memory_addr/src/page.rs); what the kernel implements is a field of the record.
--   Memory/Errors: `MappingError`, `MappingResult`, and a call that changes two states.
--   Memory/Backend: the trait is a record; Backend/Laws states what the crate relies on in an
--     implementation, and Backend/Table is one that has it.
--   Memory/Area: the methods of `MemoryArea`, by name. `split` returns both parts. Area/Laws is
--     about lawful backends, Area/Tries about all, Area/Frames about the frames of an area, Area/Closed
--     names what the calls that cut areas keep, Area/Sound and Area/Keeps are two such predicates, on
--     the frames, and Area/Stat is about `stat`.
--   Memory/Set: a `MemorySet` is its ordered map. Query has the calls that only read, Change has
--     `insert`, `delete`, `map`, `unmap` and `clear`, Protect has `protect` and `adjust_area`, and
--     Frames the calls on frames. The loops and cases of a long method are definitions of their own:
--     `retain_outside`, `shrink_before` and `shrink_after` are the three steps of `unmap`,
--     `protect_areas` and `protect_one` the loop of `protect` and one round of it, `scan_gaps` the
--     loop of `find_free_area`.
--   Set/Chain has the invariant of a set, Set/View the abstract one: a map from addresses to
--     flags. Set/Insert, Set/Overlay, Set/Map, Set/Clear, Set/Resize, Set/LeftBoundary, and the
--     modules under Set/Unmap, Set/Query, Set/Protect and Set/Frames relate the operations to it,
--     by the lemmas of Set/Room, Set/Stored, Set/At, Unmap/Place and Unmap/Move on the place of an
--     area in a set. These are about lawful backends.
--   Set/Safety: the same operations over a backend of which nothing is known, and which may fail at
--     any call.
--   Set/Boundaries: `adjust_area` where both boundaries move, over such a backend. Set/Closed: a
--     predicate on areas that is kept by the calls that cut them is kept by the operations of a set.
--     Set/Sound has the other operations, on sound areas, where the backend may fail but returns
--     frames for pages of the range that it maps.
--   Set/Calls: the operations as data, `Op`, so that sequences of them can be run. Calls/Returns and
--     Calls/Steps have single calls and the sets that calls lead to, with any backend and with others
--     who write the page table between two calls; Calls/Framed has the frames of those
--     sets, and Calls/Kept those that a call does not touch. Calls/Spec says what each call promises of the
--     flags of the addresses, and Calls/Follows and Calls/Runs relate single calls and sequences to
--     it. Calls/Allocate is about a caller that allocates.
--   Memory/Format: the `Debug` text of areas and sets, without the alternate flag; the texts of ranges
--     and flags are arguments.
--   Addr/Tests and Memory/Tests: runs, and the theorems at concrete inputs.
--
-- State and errors. A call that changes a set or an area takes the old one and the page table and
-- returns its result with the new ones, with an error too: what was written before the error stays
-- written. A panic is an outcome of its own. Where the source panics in a build with overflow checks
-- or debug assertions only, the build is an argument.
--
-- Bounds. An address is a natural number; a word has 64 bits, and a theorem says where it needs an
-- address to fit one. A valid set ends at most at the greatest address of a word. The test of a
-- power of two tries all 64 exponents. Collecting a `PageIter` runs on fuel: one step more than the
-- number of pages is enough. A `usize` is written with 16 digits at most, which is the fuel of
-- `hex_digits`.
--
-- Not modelled: where a pointer comes from, beside its address; the code that is commented
-- out in memory_addr/src/page.rs; and the tests. The feature RAII is on. The address type of
-- `memory_set` is `usize`, of which every type with these laws is a copy.
-- `insert` with `unmap_overlap` and moves of a left boundary by `adjust_area` are modelled, but are no
-- steps of Calls/Steps: a valid set need not stay valid under them.
pub mod Base
pub mod Addr
pub mod Memory
