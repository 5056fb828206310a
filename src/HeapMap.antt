-- ===== src/HeapMap.antt =====
-- compiler/passes/HeapMapPass.cpp: the pass over the structure types of a module, which counts those with a
-- pointer into the heap. A type of LLVM is given by what the pass tells apart: a pointer with its address
-- space, a structure with its elements, or any other type, arrays among them. The layout of structures is a
-- parameter.
pub mod Paths
use supreme_doodle.Common.{
  ℕ, ◌+◌, Bool, true, false, ◌||◌, Option, none, some, List, [], ◌∷◌, ◌==◌, if◌then◌else◌,
}

mutual
  pub data IrType : Type 0 where
    ir_pointer : ℕ → IrType
    ir_struct : StructType → IrType
    ir_array : ℕ → IrType → IrType
    ir_scalar : IrType

  pub data IrTypes : Type 0 where
    no_elements : IrTypes
    element : IrType → IrTypes → IrTypes

  -- A structure that is opaque has no elements.
  pub data StructType : Type 0 where
    opaque : StructType
    body : IrTypes → StructType

-- `getStructLayout` and `getMemberOffsets`; `none` is the failed assertion of LLVM on a structure that has no size, as
-- an opaque one
abbrev pub Layout : Type 0
Layout = StructType → Option (ℕ → ℕ)

unfoldable mutual
  -- `processStructType`, whose offset and root are passed on and not used
  pub process_struct_type : Layout → StructType → StructType → ℕ → Option Bool
  process_struct_type layout root opaque curr_offset = elim (layout opaque) [
    | none ↦ none
    | some offsets ↦ some false
  ]
  process_struct_type layout root (body ts) curr_offset = elim (layout (body ts)) [
    | none ↦ none
    | some offsets ↦ process_elements layout root offsets ts 0 false
  ]

  -- its loop over the elements, from an index on
  pub process_elements : Layout → StructType → (ℕ → ℕ) → IrTypes → ℕ → Bool → Option Bool
  process_elements layout root offsets no_elements idx processed = some processed
  process_elements layout root offsets (element t ts) idx processed =
      elim (process_element layout root offsets t idx processed) [
        | none ↦ none
        | some found ↦ process_elements layout root offsets ts (idx + 1) found
      ]

  pub process_element : Layout → StructType → (ℕ → ℕ) → IrType → ℕ → Bool → Option Bool
  process_element layout root offsets (ir_pointer space) idx processed =
      some (if space == 1 then true else processed)
  process_element layout root offsets (ir_struct st) idx processed =
      elim (process_struct_type layout root st (offsets idx)) [
        | none ↦ none
        | some nested ↦ some (processed || nested)
      ]
  process_element layout root offsets (ir_array n t) idx processed = some processed
  process_element layout root offsets ir_scalar idx processed = some processed

-- `NumHeapMaps` and `NumStructScanned`
pub record Statistics : Type 0 where
  pub num_heap_maps : ℕ
  pub num_struct_scanned : ℕ

-- the counters after a structure type
abbrev pub count_struct : Bool → Statistics → Statistics
count_struct processed s = record {
  num_heap_maps = if processed then s.num_heap_maps + 1 else s.num_heap_maps;
  num_struct_scanned = s.num_struct_scanned + 1;
}

-- `scanStructType`, over the structure types that the finder has
unfoldable pub scan_struct_type : Layout → List StructType → Statistics → Option Statistics
unfolding process_struct_type
scan_struct_type layout [] s = some s
scan_struct_type layout (st ∷ sts) s = elim (process_struct_type layout st st 0) [
  | none ↦ none
  | some processed ↦ scan_struct_type layout sts (count_struct processed s)
]
