-- ===== src/HeapMap/Paths.antt =====
-- compiler/passes/HeapMapPass.cpp: which structure types the pass counts.
use supreme_doodle.Common.{
  ℕ, ◌+◌, ◌≡◌, ◌↔◌, refl, sym, ◌⊎◌, inl, inr, Bool, true, false, ◌||◌, Option, none, some, List, [],
  ◌∷◌, arith, length, Bool-cases, ◌==◌, ==_iff, if◌then◌else◌,
}
use mathlib.Core.Path.{subst}
use supreme_doodle.HeapMap.{
  IrType, IrTypes, StructType, opaque, body, ir_pointer, ir_struct, ir_array, ir_scalar,
  no_elements, element, Layout, process_elements, process_element, process_struct_type, Statistics,
  count_struct, scan_struct_type,
}

-- A pointer into address space 1 is among the elements of a structure, or of a structure that is nested in it.
pub data HasHeapPointer : IrTypes → Type 0 where
  at_pointer : {ts : IrTypes} → HasHeapPointer (element (ir_pointer 1) ts)
  inside : {us ts : IrTypes} → HasHeapPointer us → HasHeapPointer (element (ir_struct (body us)) ts)
  later : {t : IrType} {ts : IrTypes} → HasHeapPointer ts → HasHeapPointer (element t ts)

abbrev pub HasPointer : StructType → Type 0
HasPointer opaque = ⊥
HasPointer (body ts) = HasHeapPointer ts

abbrev IsPointer : IrType → Type 0
IsPointer (ir_pointer space) = space ≡ 1
IsPointer (ir_struct st) = HasPointer st
IsPointer (ir_array n t) = ⊥
IsPointer ir_scalar = ⊥

pointer-inv :
    (t : IrType) (ts : IrTypes) → HasHeapPointer (element t ts) → IsPointer t ⊎ HasHeapPointer ts
pointer-inv _ ts at_pointer = inl refl
pointer-inv _ ts (inside h) = inl h
pointer-inv t ts (later h) = inr h

pointer-intro : (t : IrType) (ts : IrTypes) → IsPointer t → HasHeapPointer (element t ts)
pointer-intro (ir_pointer space) ts e =
    subst (λ n. HasHeapPointer (element (ir_pointer n) ts)) (sym e) at_pointer
pointer-intro (ir_struct opaque) ts h = absurd h
pointer-intro (ir_struct (body us)) ts h = inside h
pointer-intro (ir_array n t) ts h = absurd h
pointer-intro ir_scalar ts h = absurd h

module _ (layout : Layout) where
  -- A structure, or one that is nested in it, has no layout.
  unfoldable mutual
    pub LacksLayout : StructType → Type 0
    LacksLayout opaque = layout opaque ≡ none
    LacksLayout (body ts) = (layout (body ts) ≡ none) ⊎ AnyLacks ts

    pub AnyLacks : IrTypes → Type 0
    AnyLacks no_elements = ⊥
    AnyLacks (element t ts) = TypeLacks t ⊎ AnyLacks ts

    pub TypeLacks : IrType → Type 0
    TypeLacks (ir_pointer space) = ⊥
    TypeLacks (ir_struct st) = LacksLayout st
    TypeLacks (ir_array n t) = ⊥
    TypeLacks ir_scalar = ⊥

  abbrev StructRead : StructType → Option Bool → Type 0
  StructRead st none = LacksLayout st
  StructRead st (some b) = (b ≡ true) ↔ HasPointer st

  abbrev ElementsRead : IrTypes → Bool → Option Bool → Type 0
  ElementsRead ts processed none = AnyLacks ts
  ElementsRead ts processed (some b) = (b ≡ true) ↔ ((processed ≡ true) ⊎ HasHeapPointer ts)

  abbrev ElementRead : IrType → Bool → Option Bool → Type 0
  ElementRead t processed none = TypeLacks t
  ElementRead t processed (some b) = (b ≡ true) ↔ ((processed ≡ true) ⊎ IsPointer t)

  element-Read :
      (t : IrType) (ts : IrTypes) (processed : Bool) (o : Option Bool) (k : Bool → Option Bool)
      → ElementRead t processed o
      → ((b : Bool) → ElementsRead ts b (k b))
      → ElementsRead
          (element t ts)
          processed
          (elim o as (λ x. Option Bool) [ none ↦ none | some b ↦ k b ])
  unfolding LacksLayout
  element-Read t ts processed none k r rest = inl r
  element-Read t ts processed (some b) k r rest = last (k b) (rest b)
    where
      last : (o : Option Bool) → ElementsRead ts b o → ElementsRead (element t ts) processed o
      last none l = inr l
      last (some c) q = (
        λ e. elim (q.0 e) [
          | inl f ↦ elim (r.0 f) [ inl g ↦ inl g | inr h ↦ inr (pointer-intro t ts h) ]
          | inr h ↦ inr (later h)
        ],
        λ h. elim h [
          | inl f ↦ q.1 (inl (r.1 (inl f)))
          | inr p ↦ elim (pointer-inv t ts p) [
            | inl g ↦ q.1 (inl (r.1 (inr g)))
            | inr g ↦ q.1 (inr g)
          ]
        ],
      )

  nested-Read :
      (st : StructType) (processed : Bool) (o : Option Bool)
      → StructRead st o
      → ElementRead
          (ir_struct st)
          processed
          (elim o as (λ x. Option Bool) [ none ↦ none | some b ↦ some (processed || b) ])
  unfolding LacksLayout
  nested-Read st processed none r = r
  nested-Read st true (some b) r = (λ e. inl refl, λ h. refl)
  nested-Read st false (some b) r = (λ e. inr (r.0 e), λ h. elim h [ inl f ↦ cc | inr p ↦ r.1 p ])

  opaque-Read :
      (o : Option (ℕ → ℕ))
      → layout opaque ≡ o
      → StructRead opaque (elim o as (λ x. Option Bool) [ none ↦ none | some offsets ↦ some false ])
  unfolding LacksLayout
  opaque-Read none e = e
  opaque-Read (some offsets) e = (λ f. cc, λ h. absurd h)

  body-Read :
      (ts : IrTypes) (o : Option (ℕ → ℕ)) (k : (ℕ → ℕ) → Option Bool)
      → layout (body ts) ≡ o
      → ((offsets : ℕ → ℕ) → ElementsRead ts false (k offsets))
      → StructRead
          (body ts)
          (elim o as (λ x. Option Bool) [ none ↦ none | some offsets ↦ k offsets ])
  unfolding LacksLayout
  body-Read ts none k e r = inl e
  body-Read ts (some offsets) k e r = whole (k offsets) (r offsets)
    where
      whole : (p : Option Bool) → ElementsRead ts false p → StructRead (body ts) p
      whole none l = inr l
      whole (some b) q = (λ f. elim (q.0 f) [ inl g ↦ cc | inr h ↦ h ], λ h. q.1 (inr h))

  empty : HasHeapPointer no_elements → ⊥
  empty h = elim h [ ]

  space-Read :
      (space : ℕ) (processed : Bool)
      → ElementRead (ir_pointer space) processed (some (if space == 1 then true else processed))
  space-Read space processed = elim (Bool-cases (space == 1)) [
    | inl e ↦ (λ f. inr ((==_iff space 1).0 e), λ h. rw (e) refl)
    | inr e ↦ (
      λ f. inl (rw e at f),
      λ h. elim h [ inl f ↦ rw (e) f | inr f ↦ let clash = (==_iff space 1).1 f in cc ],
    )
  ]

  module _ (root : StructType) where
    mutual
      unfolding process_struct_type LacksLayout

      struct-Read :
          (st : StructType) (offset : ℕ) → StructRead st (process_struct_type layout root st offset)
      struct-Read opaque offset = opaque-Read (layout opaque) refl
      struct-Read (body ts) offset =
          body-Read ts (layout (body ts))
            (λ offsets. process_elements layout root offsets ts 0 false) refl
            (λ offsets. elements-Read ts offsets 0 false)

      elements-Read :
          (ts : IrTypes) (offsets : ℕ → ℕ) (idx : ℕ) (processed : Bool)
          → ElementsRead ts processed (process_elements layout root offsets ts idx processed)
      elements-Read no_elements offsets idx processed =
          (λ e. inl e, λ h. elim h [ inl e ↦ e | inr p ↦ absurd (empty p) ])
      elements-Read (element t ts) offsets idx processed =
          element-Read t ts processed (process_element layout root offsets t idx processed)
            (λ b. process_elements layout root offsets ts (idx + 1) b)
            (type-Read t offsets idx processed) (λ b. elements-Read ts offsets (idx + 1) b)

      type-Read :
          (t : IrType) (offsets : ℕ → ℕ) (idx : ℕ) (processed : Bool)
          → ElementRead t processed (process_element layout root offsets t idx processed)
      type-Read (ir_pointer space) offsets idx processed = space-Read space processed
      type-Read (ir_struct st) offsets idx processed =
          nested-Read st processed (process_struct_type layout root st (offsets idx))
            (struct-Read st (offsets idx))
      type-Read (ir_array n t) offsets idx processed =
          (λ e. inl e, λ h. elim h [ inl e ↦ e | inr p ↦ absurd p ])
      type-Read ir_scalar offsets idx processed =
          (λ e. inl e, λ h. elim h [ inl e ↦ e | inr p ↦ absurd p ])

-- How many of these structures have a pointer into address space 1 at any depth.
pub data Counts : List StructType → ℕ → Type 0 where
  no_types : Counts [] 0
  one_more :
      {st : StructType} {sts : List StructType} {n : ℕ}
      → HasPointer st
      → Counts sts n
      → Counts (st ∷ sts) (n + 1)
  not_one :
      {st : StructType} {sts : List StructType} {n : ℕ}
      → ¬ HasPointer st
      → Counts sts n
      → Counts (st ∷ sts) n

-- One of these structures, or one that is nested in it, has no layout.
unfoldable pub AnyLacksLayout : Layout → List StructType → Type 0
AnyLacksLayout layout [] = ⊥
AnyLacksLayout layout (st ∷ sts) = LacksLayout layout st ⊎ AnyLacksLayout layout sts

-- The counters go up by these.
abbrev pub IsAdded : List StructType → ℕ → Statistics → Statistics → Type 0
IsAdded sts n s s' =
    (s'.num_heap_maps ≡ s.num_heap_maps + n)
    × (s'.num_struct_scanned ≡ s.num_struct_scanned + length sts)

module _ (layout : Layout) where
  abbrev ScanRead : List StructType → Statistics → Option Statistics → Type 0
  ScanRead sts s none = AnyLacksLayout layout sts
  ScanRead sts s (some s') = (n : ℕ) × Counts sts n × IsAdded sts n s s'

  struct-then :
      (st : StructType) (sts : List StructType) (s : Statistics) (o : Option Bool)
      (k : Bool → Option Statistics)
      → StructRead layout st o
      → ((b : Bool) → ScanRead sts (count_struct b s) (k b))
      → ScanRead (st ∷ sts) s (elim o as (λ x. Option Statistics) [ none ↦ none | some b ↦ k b ])
  unfolding AnyLacksLayout
  struct-then st sts s none k r rest = inl r
  struct-then st sts s (some true) k r rest = counted (k true) (rest true)
    where
      counted :
          (o : Option Statistics) → ScanRead sts (count_struct true s) o → ScanRead (st ∷ sts) s o
      counted none l = inr l
      counted (some s') (n, cs, (maps, scanned)) =
          (n + 1, one_more (r.0 refl) cs, (omega arith, omega arith))
  struct-then st sts s (some false) k r rest = passed (k false) (rest false)
    where
      passed :
          (o : Option Statistics) → ScanRead sts (count_struct false s) o → ScanRead (st ∷ sts) s o
      passed none l = inr l
      passed (some s') (n, cs, (maps, scanned)) =
          (n, not_one (λ h. let e = r.1 h in cc) cs, (omega arith, omega arith))

  scan-Read :
      (sts : List StructType) (s : Statistics) → ScanRead sts s (scan_struct_type layout sts s)
  unfolding scan_struct_type
  scan-Read [] s = (0, no_types, (omega arith, omega arith))
  scan-Read (st ∷ sts) s =
      struct-then st sts s (process_struct_type layout st st 0)
        (λ b. scan_struct_type layout sts (count_struct b s)) (struct-Read layout st st 0)
        (λ b. scan-Read sts (count_struct b s))

-- The scan stops only where one of the structures, or one that is nested in it, has no layout. In every other case it
-- adds to the first counter the number of the structures that have a pointer into address space 1 at any depth of
-- nested structures, not looking into arrays, and to the second the number of all.
pub scan_struct_type-Counts :
    (layout : Layout) (sts : List StructType) (s : Statistics)
    → ((scan_struct_type layout sts s ≡ none) × AnyLacksLayout layout sts)
      ⊎ ((s' : Statistics) × (n : ℕ) × (scan_struct_type layout sts s ≡ some s')
          × Counts sts n
          × IsAdded sts n s s')
scan_struct_type-Counts layout sts s =
    read (scan_struct_type layout sts s) refl (scan-Read layout sts s)
  where
    read :
        (o : Option Statistics)
        → scan_struct_type layout sts s ≡ o
        → ScanRead layout sts s o
        → ((scan_struct_type layout sts s ≡ none) × AnyLacksLayout layout sts)
          ⊎ ((s' : Statistics) × (n : ℕ) × (scan_struct_type layout sts s ≡ some s')
              × Counts sts n
              × IsAdded sts n s s')
    read none e r = inl (e, r)
    read (some s') e (n, cs, (maps, scanned)) = inr (s', n, e, cs, (maps, scanned))
