-- ===== src/Tests/HeapMap.antt =====
-- Runs of the pass over structure types, and a witness of its theorem.
use supreme_doodle.Common.{ℕ, ◌≡◌, ◌⊎◌, refl, none, some, List, [], ◌∷◌}
use supreme_doodle.HeapMap.{
  StructType, opaque, body, ir_pointer, ir_struct, ir_array, ir_scalar, no_elements, element,
  Layout, Statistics, scan_struct_type, process_struct_type,
}
use supreme_doodle.HeapMap.Paths.{Counts, AnyLacksLayout, IsAdded, scan_struct_type-Counts}

abbrev packed : Layout
packed opaque = none
packed (body ts) = some (λ i. 8)

-- an integer and a pointer into address space 1
abbrev cell : StructType
cell = body (element ir_scalar (element (ir_pointer 1) no_elements))

-- a structure that holds one of these, and one that holds an array of pointers into address space 1
abbrev nested : StructType
nested = body (element (ir_pointer 0) (element (ir_struct cell) no_elements))

abbrev row : StructType
row = body (element (ir_array 4 (ir_pointer 1)) no_elements)

abbrev at_start : Statistics
at_start = record { num_heap_maps = 0; num_struct_scanned = 0 }

abbrev found : List StructType
found = cell ∷ nested ∷ row ∷ []

abbrev counted : Statistics
counted = record { num_heap_maps = 2; num_struct_scanned = 3 }

scan_run : scan_struct_type packed found at_start ≡ some counted
unfolding scan_struct_type process_struct_type
scan_run = refl

opaque_run : scan_struct_type packed (cell ∷ opaque ∷ []) at_start ≡ none
unfolding scan_struct_type process_struct_type
opaque_run = refl

scan_struct_type-Counts_example :
    ((scan_struct_type packed found at_start ≡ none) × AnyLacksLayout packed found)
    ⊎ ((s' : Statistics) × (n : ℕ) × (scan_struct_type packed found at_start ≡ some s')
        × Counts found n
        × IsAdded found n at_start s')
scan_struct_type-Counts_example = scan_struct_type-Counts packed found at_start
