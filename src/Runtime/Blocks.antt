-- ===== src/Runtime/Blocks.antt =====
-- runtime/runtime.cpp: the live blocks over every sequence of calls and of stores of the program into its objects.
use supreme_doodle.Common.{
  ℕ, ◌+◌, ◌<◌, ◌≤◌, ◌≡◌, refl, ◌∙◌, sym, ap, ◌⊎◌, inl, inr, some, List, [], ◌∷◌, ◌++◌, arith,
  length, Option-cases, Bool-cases, true, ◌==◌,
}
use mathlib.Core.Path.{subst}
use supreme_doodle.Runtime.{
  State, Library, done, Block, Frame, write_bytes, bytes32, load32, store_metadata, set_insert,
  set_contains, free, runtime_allocate, runtime_deallocate, runtime_gc_poll, runtime_inspect_ptr,
}
use supreme_doodle.Runtime.Bytes.{load32-outside, load32-write_bytes}
use supreme_doodle.Runtime.Metadata.{allocated_at}

-- what holds of each block of a list, and being one of the list
abbrev pub All : (Block → Type 0) → List Block → Type 0
All P [] = Unit
All P (b ∷ bs) = P b × All P bs

abbrev pub In : Block → List Block → Type 0
In b [] = ⊥
In b (c ∷ cs) = (b ≡ c) ⊎ In b cs

module _ (P : Block → Type 0) where
  pub All-at : (bs : List Block) (b : Block) → In b bs → All P bs → P b
  All-at [] b i h = absurd i
  All-at (c ∷ cs) b (inl e) h = subst P (sym e) h.0
  All-at (c ∷ cs) b (inr i) h = All-at cs b i h.1

pub All-map :
    (P Q : Block → Type 0) (bs : List Block)
    → ((b : Block) → In b bs → P b → Q b)
    → All P bs
    → All Q bs
All-map P Q [] f h = tt
All-map P Q (b ∷ bs) f h = (f b (inl refl) h.0, All-map P Q bs (λ c i p. f c (inr i) p) h.1)

-- Two blocks have no byte in common.
abbrev pub Apart : ℕ → ℕ → Block → Type 0
Apart a n b = (a + n ≤ b.base) ⊎ (b.base + b.size ≤ a)

abbrev pub Disjoint : List Block → Type 0
Disjoint [] = Unit
Disjoint (b ∷ bs) = All (Apart b.base b.size) bs × Disjoint bs

pub Disjoint-at :
    (bs : List Block) (b c : Block)
    → Disjoint bs
    → In b bs
    → In c bs
    → (b ≡ c) ⊎ Apart b.base b.size c
Disjoint-at [] b c d i j = absurd i
Disjoint-at (x ∷ xs) b c d (inl e) (inl f) = inl (e ∙ sym f)
Disjoint-at (x ∷ xs) b c d (inl e) (inr j) =
    inr (
      subst (λ (y : Block). Apart y.base y.size c) (sym e)
        (All-at (Apart x.base x.size) xs c j d.0))
Disjoint-at (x ∷ xs) b c d (inr i) (inl f) =
    let other : Apart x.base x.size b = All-at (Apart x.base x.size) xs b i d.0 in
    let turned : Apart c.base c.size b =
      subst (λ (y : Block). Apart y.base y.size b) (sym f) other in
    inr (elim turned [ inl l ↦ inr l | inr l ↦ inl l ])
Disjoint-at (x ∷ xs) b c d (inr i) (inr j) = Disjoint-at xs b c d.1 i j

-- What is documented of `operator new`: a block below `2 ^ 64` that is apart from the live ones.
pub record Allocates {Table : Type 0} (lib : Library Table) : Type 0 where
  pub fits :
      (bs : List Block) (n a : ℕ) → lib.operator_new bs n ≡ some a → a + n ≤ 18446744073709551616
  pub apart : (bs : List Block) (n a : ℕ) → lib.operator_new bs n ≡ some a → All (Apart a n) bs

-- A block has room for the metadata, starts with the size of its object, and is in the white set.
pub record Tracked (m : ℕ → ℕ) (white_set : List ℕ) (b : Block) : Type 0 where
  pub room : 8 ≤ b.size
  pub sized : load32 m b.base + 4 ≡ b.size
  pub is_white : set_contains b.base white_set ≡ true

pub record Valid {Table : Type 0} (s : State Table) : Type 0 where
  pub disjoint : Disjoint s.blocks
  pub tracked : All (Tracked s.memory s.gc_white_set) s.blocks

-- A call of the runtime, or a store of the program into an object: four bytes of the block are before the object.
pub data Step {Table : Type 0} (lib : Library Table) (s t : State Table) : Type 0 where
  allocates :
      (size obj : ℕ) → size < 4294967296 → runtime_allocate lib size s ≡ done obj t → Step lib s t
  deallocates : (ptr : ℕ) → runtime_deallocate ptr s ≡ done tt t → Step lib s t
  polls :
      (a b : ℕ) (f : Frame) (fs : List Frame)
      → runtime_gc_poll lib a b f fs s ≡ done tt t
      → Step lib s t
  inspects : (ptr : ℕ) → runtime_inspect_ptr ptr s ≡ done tt t → Step lib s t
  stores :
      (b : Block) (i : ℕ) (bytes : List ℕ)
      → In b s.blocks
      → 4 + i + length bytes ≤ b.size
      → t ≡ record s { memory = write_bytes s.memory (b.base + 4 + i) bytes }
      → Step lib s t

pub data Reach {Table : Type 0} (lib : Library Table) (s : State Table) : State Table → Type 0 where
  here : Reach lib s s
  next : {t u : State Table} → Reach lib s t → Step lib t u → Reach lib s u

pub set_insert-contains : (a : ℕ) (xs : List ℕ) → set_contains a (set_insert a xs) ≡ true
set_insert-contains a xs = ground (arith, Bool-cases (set_contains a xs))

pub set_insert-keeps :
    (a x : ℕ) (xs : List ℕ) → set_contains x xs ≡ true → set_contains x (set_insert a xs) ≡ true
set_insert-keeps a x xs h = ground (arith, Bool-cases (set_contains a xs))

-- what is left after a block is freed: the rest of the list, or its head and what is left of the rest
free-inv :
    (a : ℕ) (b : Block) (bs cs : List Block)
    → free a (b ∷ bs) ≡ some cs
    → (bs ≡ cs) ⊎ ((ds : List Block) × (free a bs ≡ some ds) × (b ∷ ds ≡ cs))
unfolding free
free-inv a b bs cs h = elim (Bool-cases (a == b.base)) [
  | inl same ↦ inl (ground arith)
  | inr other ↦ elim (Option-cases (free a bs)) [
    | inl e ↦ ground arith
    | inr (ds, e) ↦ inr (ds, e, ground arith)
  ]
]

pub free-All :
    (P : Block → Type 0) (a : ℕ) (bs cs : List Block) → free a bs ≡ some cs → All P bs → All P cs
unfolding free
free-All P a [] cs e h = cc
free-All P a (b ∷ bs) cs e h = elim (free-inv a b bs cs e) [
  | inl same ↦ subst (All P) same h.1
  | inr (ds, f, same) ↦
      let kept : All P (b ∷ ds) = (h.0, free-All P a bs ds f h.1) in subst (All P) same kept
]

pub free-Disjoint : (a : ℕ) (bs cs : List Block) → free a bs ≡ some cs → Disjoint bs → Disjoint cs
unfolding free
free-Disjoint a [] cs e h = cc
free-Disjoint a (b ∷ bs) cs e h = elim (free-inv a b bs cs e) [
  | inl same ↦ subst Disjoint same h.1
  | inr (ds, f, same) ↦
      let kept : Disjoint (b ∷ ds) =
        (free-All (Apart b.base b.size) a bs ds f h.0, free-Disjoint a bs ds f h.1) in
      subst Disjoint same kept
]

module _ {Table : Type 0} (lib : Library Table) (spec : Allocates lib) where
  pub allocated_at-Valid :
      (size base : ℕ) (s : State Table)
      → lib.operator_new s.blocks (4 + size) ≡ some base
      → 4 ≤ size
      → size < 4294967296
      → Valid s
      → Valid (allocated_at base size s)
  unfolding store_metadata
  allocated_at-Valid size base s given room small v = record {
    disjoint = (apart_from, v.disjoint);
    tracked = (
      new,
      All-map (Tracked s.memory s.gc_white_set) (Tracked t.memory t.gc_white_set) s.blocks old
          v.tracked,
    );
  }
    where
      t : State Table
      t = allocated_at base size s

      apart_from : All (Apart base (4 + size)) s.blocks
      apart_from = spec.apart s.blocks (4 + size) base given

      new : Tracked t.memory t.gc_white_set (record { base = base; size = 4 + size })
      new = record {
        room = omega arith;
        sized = omega (arith, load32-write_bytes s.memory base size (bytes32 0) small);
        is_white = set_insert-contains base s.gc_white_set;
      }

      old :
          (b : Block)
          → In b s.blocks
          → Tracked s.memory s.gc_white_set b
          → Tracked t.memory t.gc_white_set b
      old b i k =
          let apart : Apart base (4 + size) b =
            All-at (Apart base (4 + size)) s.blocks b i apart_from in
          record {
            room = k.room;
            sized =
                ap (λ n. n + 4)
                  (load32-outside (bytes32 size ++ bytes32 0) s.memory base b.base (elim apart [
                    | inl l ↦ inr (omega arith)
                    | inr l ↦ inl (omega (arith, k.room))
                  ]))
                ∙ k.sized;
            is_white = set_insert-keeps base b.base s.gc_white_set k.is_white;
          }
