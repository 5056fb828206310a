-- ===== src/Tests/Runtime.antt =====
-- Witnesses of the theorems on the runtime.
use supreme_doodle.Common.{
  ℕ, ◌+◌, ◌<◌, ◌≡◌, ◌↔◌, refl, Option, none, some, List, [], ◌∷◌, inl, inr, arith, ltb, Bool-cases,
  true, if◌then◌else◌,
}
use supreme_doodle.Runtime.{
  State, Library, Block, Frame, FrameInfo, Event, live_root, allocated, deallocated, done,
  set_contains, write_bytes, bytes32, load_metadata, state_code, white, log_events,
  runtime_allocate, runtime_deallocate, runtime_gc_poll, object_base, overrun, fault,
}
use supreme_doodle.Runtime.Metadata.{object_overlaps_state, allocated_at}
use supreme_doodle.Runtime.Blocks.{All, Apart, Allocates, Valid, allocates, here, next, deallocates}
use supreme_doodle.Runtime.Reached.{Reach-Valid, deallocate-allocate}
use supreme_doodle.Runtime.Roots.{Among, IsRoot, gc_poll-IsRoot}

abbrev known : FrameInfo
known = record { frame_size = 24; num_slots = 2; slot = λ i. 8 + i }

-- A bump allocator: it starts above the ends of all live blocks and fails beyond `2 ^ 64`.
abbrev top : List Block → ℕ
top [] = 16
top (b ∷ bs) = b.base + b.size + top bs

unfoldable bump : List Block → ℕ → Option ℕ
bump bs n = if ltb (top bs + n) 18446744073709551616 then some (top bs) else none

abbrev library : Library (Unit {0})
library = record {
  operator_new = bump;
  generate_table = tt;
  lookup_return_address =
      λ table pc. elim table [ none ↦ none | some t ↦ if ltb pc 100 then some known else none ];
}

abbrev process : State (Unit {0})
process = record {
  memory = λ a. 0;
  blocks = [];
  table = some tt;
  gc_white_set = [];
  gc_gray_worklist = [];
  log = [];
}

bump-some :
    (bs : List Block) (n a : ℕ) → bump bs n ≡ some a → (a ≡ top bs) × (a + n < 18446744073709551616)
unfolding bump
bump-some bs n a h = elim (Bool-cases (ltb (top bs + n) 18446744073709551616)) [
  | inl e ↦ ground arith
  | inr e ↦ ground arith
]

top-Apart : (bs : List Block) (a n : ℕ) → top bs < a + 1 → All (Apart a n) bs
top-Apart [] a n h = tt
top-Apart (b ∷ bs) a n h = (inr (omega arith), top-Apart bs a n (omega arith))

library-Allocates : Allocates library
library-Allocates = record {
  fits = λ bs n a h. omega (arith, (bump-some bs n a h).1);
  apart = λ bs n a h. top-Apart bs a n (omega (arith, (bump-some bs n a h).0));
}

allocates_twelve : runtime_allocate library 12 process ≡ done 20 (allocated_at 16 12 process)
unfolding runtime_allocate bump
allocates_twelve = refl

-- an object of two bytes has no room for the metadata
allocates_two : runtime_allocate library 2 process ≡ fault overrun
unfolding runtime_allocate bump
allocates_two = refl

object_overlaps_state_example :
    (base : ℕ) × (20 ≡ base + 4)
    × (load_metadata (allocated_at 16 12 process).memory base
        ≡ record { object_size = 12; state = state_code white })
    × (load_metadata (write_bytes (allocated_at 16 12 process).memory 20 (bytes32 2)) base
        ≡ record { object_size = 12; state = 2 })
object_overlaps_state_example =
    object_overlaps_state library 12 process 20 (allocated_at 16 12 process) 2 allocates_twelve
      (omega arith) (omega arith)

process-Valid : Valid process
process-Valid = record { disjoint = tt; tracked = tt }

Reach-Valid_example : Valid (allocated_at 16 12 process)
Reach-Valid_example =
    Reach-Valid library library-Allocates
      (next here (allocates 12 20 (omega arith) allocates_twelve)) process-Valid

abbrev freed : State (Unit {0})
freed = record (allocated_at 16 12 process) {
  blocks = [];
  log = allocated 20 12 ∷ deallocated 20 ∷ [];
}

frees_twelve : runtime_deallocate 20 (allocated_at 16 12 process) ≡ done tt freed
unfolding runtime_deallocate
frees_twelve = refl

deallocate-allocate_example :
    (u : State (Unit {0})) × (runtime_deallocate 20 (allocated_at 16 12 process) ≡ done tt u)
    × (u.blocks ≡ [])
    × (set_contains (object_base 20) freed.gc_white_set ≡ true)
deallocate-allocate_example =
    deallocate-allocate library library-Allocates 12 20 process (allocated_at 16 12 process) freed
      allocates_twelve (next here (deallocates 20 frees_twelve))

abbrev caller : Frame
caller = record { pc = 40; sp = 1000; proc = none }

abbrev start_routine : Frame
start_routine = record { pc = 400; sp = 2000; proc = some ("_start", 4) }

gc_poll-IsRoot_example :
    (es : List Event) × (runtime_gc_poll library 40 400 caller (start_routine ∷ []) process
      ≡ done tt (log_events es process))
    × ((a o v : ℕ)
        → Among (live_root a o v) es ↔ (
            (g : Frame) × Among g (caller ∷ start_routine ∷ [])
            × IsRoot
                (library.lookup_return_address process.table)
                process.memory
                g
                (live_root a o v)))
gc_poll-IsRoot_example = gc_poll-IsRoot library 40 400 caller (start_routine ∷ []) process
