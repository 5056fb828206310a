-- ===== src/Runtime.antt =====
-- runtime/runtime.cpp: the allocation of objects with their metadata, and the poll that reports the live roots.
-- Addresses and bytes are numbers. `operator new`, the table of stack maps and the frames that libunwind walks are
-- not the runtime's, so they are parameters.
pub mod Bytes
pub mod Metadata
pub mod Blocks
pub mod Reached
pub mod Roots
use supreme_doodle.Common.{
  ℕ, zero, suc, ◌+◌, ◌-◌, ◌^◌, Bool, true, false, Option, none, some, List, [], ◌∷◌, ◌++◌, String,
  ◌==◌, ltb, if◌then◌else◌,
}
use Prim.Native.Nat.{◌*◌, ◌/◌, ◌%◌}

-- `object_gc_state`, whose underlying type is `int`
pub data GcState : Type 0 where
  white gray black : GcState

abbrev pub state_code : GcState → ℕ
state_code white = 0
state_code gray = 1
state_code black = 2

-- `object_metadata`, packed: its eight bytes are the size and then the state, four bytes each
pub record ObjectMetadata : Type 0 where
  pub object_size : ℕ
  pub state : ℕ

abbrev pub sizeof_gc_state : ℕ
sizeof_gc_state = 4

abbrev pub sizeof_metadata : ℕ
sizeof_metadata = 8

-- four bytes, the low one first
abbrev pub bytes32 : ℕ → List ℕ
bytes32 n = n % 256 ∷ n / 256 % 256 ∷ n / 65536 % 256 ∷ n / 16777216 % 256 ∷ []

abbrev pub load32 : (ℕ → ℕ) → ℕ → ℕ
load32 m a = m a + 256 * m (a + 1) + 65536 * m (a + 2) + 16777216 * m (a + 3)

abbrev pub load64 : (ℕ → ℕ) → ℕ → ℕ
load64 m a = load32 m a + 4294967296 * load32 m (a + 4)

unfoldable pub write_bytes : (ℕ → ℕ) → ℕ → List ℕ → ℕ → ℕ
write_bytes m a [] x = m x
write_bytes m a (b ∷ bs) x = if a == x then b else write_bytes m (a + 1) bs x

abbrev pub load_metadata : (ℕ → ℕ) → ℕ → ObjectMetadata
load_metadata m a = record { object_size = load32 m a; state = load32 m (a + 4) }

unfoldable pub store_metadata : (ℕ → ℕ) → ℕ → ObjectMetadata → ℕ → ℕ
unfolding write_bytes
store_metadata m a d = write_bytes m a (bytes32 d.object_size ++ bytes32 d.state)

-- a block that `operator new` returned and that was not freed
pub record Block : Type 0 where
  pub base : ℕ
  pub size : ℕ

-- What the code reads of a `frame_info_t`: `slot` gives the offset of each slot, modulo `2 ^ 64`.
pub record FrameInfo : Type 0 where
  pub frame_size : ℕ
  pub num_slots : ℕ
  pub slot : ℕ → ℕ

-- A frame of the cursor: the registers, and the name and offset that `unw_get_proc_name` finds.
pub record Frame : Type 0 where
  pub pc : ℕ
  pub sp : ℕ
  pub proc : Option (String × ℕ)

-- a line of the error stream
pub data Event : Type 0 where
  allocated : ℕ → ℕ → Event
  deallocated : ℕ → Event
  poll_begin : ℕ → ℕ → Event
  known_frame : String → ℕ → ℕ → Event
  unknown_frame : ℕ → Event
  frame_line : ℕ → ℕ → ℕ → ℕ → Event
  live_root : ℕ → ℕ → ℕ → Event
  poll_end : Event
  inspected : ℕ → Event
  starting : Event
  table_line : Event
  entering : Event
  exit_line : ℕ → Event

-- The process: the bytes, the live blocks, the globals of the runtime and the error stream.
pub record State (Table : Type 0) : Type 0 where
  pub memory : ℕ → ℕ
  pub blocks : List Block
  pub table : Option Table
  pub gc_white_set : List ℕ
  pub gc_gray_worklist : List ℕ
  pub log : List Event

-- `operator_new` is given the live blocks and the size; `generate_table` is applied to `__LLVM_StackMaps`.
pub record Library (Table : Type 0) : Type 0 where
  pub operator_new : List Block → ℕ → Option ℕ
  pub generate_table : Table
  pub lookup_return_address : Option Table → ℕ → Option FrameInfo

-- `assertion`: the panic on a failed allocation; `overrun`: a write beyond the end of a block; `bad_free`:
-- what is freed is not a block.
pub data RuntimeFault : Type 0 where
  assertion overrun bad_free : RuntimeFault

pub data RuntimeResult (Table A : Type 0) : Type 0 where
  done : A → State Table → RuntimeResult Table A
  fault : RuntimeFault → RuntimeResult Table A

abbrev pub set_contains : ℕ → List ℕ → Bool
set_contains a [] = false
set_contains a (b ∷ bs) = if a == b then true else set_contains a bs

-- `unordered_set::insert`
abbrev pub set_insert : ℕ → List ℕ → List ℕ
set_insert a as_ = if set_contains a as_ then as_ else (a ∷ as_)

-- the live blocks without the one that starts at an address, if there is one
unfoldable pub free : ℕ → List Block → Option (List Block)
free a [] = none
free a (b ∷ bs) =
    let rest = free a bs in
    if a == b.base then some bs else elim rest [ none ↦ none | some cs ↦ some (b ∷ cs) ]

-- `ptr - sizeof(object_gc_state)`, modulo `2 ^ 64`
abbrev pub object_base : ℕ → ℕ
object_base ptr = (ptr + 18446744073709551612) % 18446744073709551616

-- the address of a slot, the sum being modulo `2 ^ 64`
abbrev pub slot_address : ℕ → ℕ → ℕ
slot_address sp offset = (sp + offset) % 18446744073709551616

-- the loop over the slots, from a slot on, of which so many are left
unfoldable pub report_slots : (ℕ → ℕ) → FrameInfo → ℕ → ℕ → ℕ → List Event
report_slots m info sp i zero = []
report_slots m info sp i (suc left) =
    live_root (slot_address sp (info.slot i)) (info.slot i)
      (load64 m (slot_address sp (info.slot i)))
    ∷ report_slots m info sp (i + 1) left

abbrev pub proc_line : Frame → Event
proc_line f = elim f.proc [
  | some (sym, offset) ↦ known_frame sym offset f.pc
  | none ↦ unknown_frame f.pc
]

-- `frameSize - 8` is unsigned
abbrev pub base_pointer : ℕ → ℕ → ℕ
base_pointer sp size = (sp + (size + 18446744073709551608)) % 18446744073709551616

-- one round of the loop over the frames
unfoldable pub report_frame : (ℕ → Option FrameInfo) → (ℕ → ℕ) → Frame → List Event
unfolding report_slots
report_frame lookup m f = proc_line f ∷ elim (lookup f.pc) [
  | none ↦ []
  | some info ↦
      frame_line info.frame_size info.num_slots f.sp (base_pointer f.sp info.frame_size)
      ∷ report_slots m info f.sp 0 info.num_slots
]

-- the `do` loop, from a frame on, with the frames to which `unw_step` goes
unfoldable pub report_frames : (ℕ → Option FrameInfo) → (ℕ → ℕ) → Frame → List Frame → List Event
unfolding report_frame
report_frames lookup m f [] = report_frame lookup m f
report_frames lookup m f (g ∷ gs) = report_frame lookup m f ++ report_frames lookup m g gs

module _ {Table : Type 0} where
  abbrev pub log_events : List Event → State Table → State Table
  log_events es s = record s { log = s.log ++ es }

  unfoldable pub runtime_allocate : Library Table → ℕ → State Table → RuntimeResult Table ℕ
  unfolding store_metadata
  runtime_allocate lib size s = elim (lib.operator_new s.blocks (sizeof_gc_state + size)) [
    | none ↦ fault assertion
    | some base ↦
        if ltb (sizeof_gc_state + size) sizeof_metadata
        then fault overrun
        else done (base + sizeof_gc_state) (record s {
          memory =
              store_metadata s.memory base
                (record { object_size = size; state = state_code white });
          blocks = record { base = base; size = sizeof_gc_state + size } ∷ s.blocks;
          gc_white_set = set_insert base s.gc_white_set;
          log = s.log ++ allocated (base + sizeof_gc_state) size ∷ [];
        })
  ]

  unfoldable pub runtime_deallocate : ℕ → State Table → RuntimeResult Table (Unit {0})
  unfolding free
  runtime_deallocate ptr s = elim (free (object_base ptr) s.blocks) [
    | none ↦ fault bad_free
    | some rest ↦ done tt (record s { blocks = rest; log = s.log ++ deallocated ptr ∷ [] })
  ]

  -- `first` and `second` are what `__builtin_return_address` gives.
  unfoldable pub runtime_gc_poll :
      Library Table → ℕ → ℕ → Frame → List Frame → State Table → RuntimeResult Table (Unit {0})
  unfolding report_frames
  runtime_gc_poll lib first second f fs s = done tt (
      log_events
        (poll_begin first second ∷ report_frames (lib.lookup_return_address s.table) s.memory f fs
          ++ poll_end ∷ [])
        s)

  unfoldable pub runtime_inspect_ptr : ℕ → State Table → RuntimeResult Table (Unit {0})
  runtime_inspect_ptr ptr s = done tt (log_events (inspected ptr ∷ []) s)

  abbrev pub run_then :
      {A B : Type 0}
      → RuntimeResult Table A
      → (A → State Table → RuntimeResult Table B)
      → RuntimeResult Table B
  run_then (done a s) k = k a s
  run_then (fault f) k = fault f

  -- `program` is `program_entry`, with the code that it returns. The runtime returns 0 whatever that is.
  unfoldable pub main :
      Library Table → (State Table → RuntimeResult Table ℕ) → State Table → RuntimeResult Table ℕ
  main lib program s =
      run_then
        (program (
          log_events (table_line ∷ entering ∷ [])
            (record (log_events (starting ∷ []) s) { table = some lib.generate_table })))
        (λ rc t. done 0 (log_events (exit_line rc ∷ []) t))
