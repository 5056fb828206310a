-- ===== src/Runtime/Reached.antt =====
-- runtime/runtime.cpp: what holds in every state that calls of the runtime and stores of the program reach.
use supreme_doodle.Common.{
  ℕ, ◌+◌, ◌≤◌, ◌≡◌, refl, ◌∙◌, sym, ap, inl, inr, some, List, [], ◌∷◌, ◌++◌, arith, length,
  Option-cases, true,
}
use mathlib.Core.Path.{subst}
use supreme_doodle.Runtime.{
  State, Library, done, fault, RuntimeFault, Block, write_bytes, set_contains, free,
  runtime_allocate, runtime_deallocate, runtime_gc_poll, runtime_inspect_ptr, object_base,
  deallocated, bad_free,
}
use supreme_doodle.Runtime.Bytes.{load32-outside}
use supreme_doodle.Runtime.Metadata.{runtime_allocate-Allocation}
use supreme_doodle.Runtime.Blocks.{
  In, Disjoint, Allocates, Tracked, Valid, Step, Reach, allocates, deallocates, polls, inspects,
  stores, here, next, All-map, free-All, free-Disjoint, Disjoint-at, allocated_at-Valid,
  set_insert-contains, set_insert-keeps,
}

module _ {Table : Type 0} where
  -- What a call that only writes to the error stream leaves.
  abbrev SameHeap : State Table → State Table → Type 0
  SameHeap s t = (t.blocks ≡ s.blocks) × (t.memory ≡ s.memory) × (t.gc_white_set ≡ s.gc_white_set)

  SameHeap-Valid : (s t : State Table) → SameHeap s t → Valid s → Valid t
  SameHeap-Valid s t (b, m, w) v = record {
    disjoint = subst Disjoint (sym b) v.disjoint;
    tracked = rw (b, m, w) v.tracked;
  }

  done_state : {s t : State Table} → done tt s ≡ done tt t → s ≡ t
  done_state h = cc

  fault-ne-done : {f : RuntimeFault} {t : State Table} → fault f ≡ done tt t → ⊥
  fault-ne-done h = cc

  deallocated_at : ℕ → List Block → State Table → State Table
  deallocated_at ptr rest s = record s { blocks = rest; log = s.log ++ deallocated ptr ∷ [] }

  runtime_deallocate-inv :
      (ptr : ℕ) (s t : State Table)
      → runtime_deallocate ptr s ≡ done tt t
      → (rest : List Block) × (free (object_base ptr) s.blocks ≡ some rest)
        × (t ≡ deallocated_at ptr rest s)
  unfolding runtime_deallocate deallocated_at
  runtime_deallocate-inv ptr s t h = elim (Option-cases (free (object_base ptr) s.blocks)) [
    | inl e ↦
        let run : runtime_deallocate ptr s ≡ fault bad_free = rw (e, runtime_deallocate) in
        absurd (fault-ne-done (sym run ∙ h))
    | inr (rest, e) ↦
        let run : runtime_deallocate ptr s ≡ done tt (deallocated_at ptr rest s) =
          rw (e, runtime_deallocate) in
        (rest, e, sym (done_state (sym run ∙ h)))
  ]

  stored-Tracked :
      (s : State Table) (b : Block) (i : ℕ) (bytes : List ℕ)
      → In b s.blocks
      → 4 + i + length bytes ≤ b.size
      → Disjoint s.blocks
      → (c : Block) → In c s.blocks
      → Tracked s.memory s.gc_white_set c
      → Tracked (write_bytes s.memory (b.base + 4 + i) bytes) s.gc_white_set c
  stored-Tracked s b i bytes at l d c at_c k = record {
    room = k.room;
    is_white = k.is_white;
    sized =
        ap (λ n. n + 4)
          (load32-outside bytes s.memory (b.base + 4 + i) c.base
            (elim (Disjoint-at s.blocks b c d at at_c) [
              | inl e ↦ inl (omega (arith, ap (λ (x : Block). x.base) e))
              | inr (inl x) ↦ inr (omega arith)
              | inr (inr x) ↦ inl (omega (arith, k.room))
            ]))
        ∙ k.sized;
  }

module _ {Table : Type 0} (lib : Library Table) (spec : Allocates lib) where
  Step-Valid : (s t : State Table) → Step lib s t → Valid s → Valid t
  unfolding runtime_gc_poll runtime_inspect_ptr deallocated_at
  Step-Valid s t (allocates size obj small h) v =
      let a = runtime_allocate-Allocation lib size s obj t h in
      subst Valid (sym a.last) (allocated_at-Valid lib spec size a.base s a.given a.room small v)
  Step-Valid s t (deallocates ptr h) v =
      let (rest, freed, last) = runtime_deallocate-inv ptr s t h in
      let left : Valid (deallocated_at ptr rest s) = record {
        disjoint = free-Disjoint (object_base ptr) s.blocks rest freed v.disjoint;
        tracked =
            free-All (Tracked s.memory s.gc_white_set) (object_base ptr) s.blocks rest freed
              v.tracked;
      } in
      subst Valid (sym last) left
  Step-Valid s t (polls a b f fs h) v =
      subst Valid (done_state h) (SameHeap-Valid s _ (refl, refl, refl) v)
  Step-Valid s t (inspects ptr h) v =
      subst Valid (done_state h) (SameHeap-Valid s _ (refl, refl, refl) v)
  Step-Valid s t (stores b i bytes at l e) v =
      let left : Valid (record s { memory = write_bytes s.memory (b.base + 4 + i) bytes }) =
        record {
          disjoint = v.disjoint;
          tracked =
              All-map (Tracked s.memory s.gc_white_set)
                (Tracked (write_bytes s.memory (b.base + 4 + i) bytes) s.gc_white_set) s.blocks
                (stored-Tracked s b i bytes at l v.disjoint) v.tracked;
        } in
      subst Valid (sym e) left

  -- From a state in which the live blocks are apart and tracked, with an allocator that gives blocks apart
  -- from the live ones, any calls of the runtime and stores of the program into its objects keep it so: each
  -- live block has room for its metadata, starts with the size of its object and is in the white set.
  pub Reach-Valid : {s t : State Table} → Reach lib s t → Valid s → Valid t
  Reach-Valid here v = v
  Reach-Valid (next r st) v = Step-Valid _ _ st (Reach-Valid r v)

  IsWhite : ℕ → State Table → Type 0
  IsWhite a s = set_contains a s.gc_white_set ≡ true

  Step-IsWhite : (a : ℕ) (s t : State Table) → Step lib s t → IsWhite a s → IsWhite a t
  unfolding runtime_gc_poll runtime_inspect_ptr deallocated_at IsWhite
  Step-IsWhite a s t (allocates size obj small h) w =
      let r = runtime_allocate-Allocation lib size s obj t h in
      subst (IsWhite a) (sym r.last) (set_insert-keeps r.base a s.gc_white_set w)
  Step-IsWhite a s t (deallocates ptr h) w =
      let (rest, freed, last) = runtime_deallocate-inv ptr s t h in subst (IsWhite a) (sym last) w
  Step-IsWhite a s t (polls x y f fs h) w = subst (IsWhite a) (done_state h) w
  Step-IsWhite a s t (inspects ptr h) w = subst (IsWhite a) (done_state h) w
  Step-IsWhite a s t (stores b i bytes at l e) w = subst (IsWhite a) (sym e) w

  Reach-IsWhite : (a : ℕ) {s t : State Table} → Reach lib s t → IsWhite a s → IsWhite a t
  Reach-IsWhite a here w = w
  Reach-IsWhite a (next r st) w = Step-IsWhite a _ _ st (Reach-IsWhite a r w)

  free-head :
      (a size : ℕ) (bs : List Block) → free a (record { base = a; size = size } ∷ bs) ≡ some bs
  unfolding free
  free-head a size bs = ground arith

  -- With an allocator that gives blocks apart from the live ones, an object that was just allocated can be freed
  -- again, which leaves the blocks as they were before the allocation. But in every state that is reached
  -- after the allocation, whether the object was freed or not, the white set holds the address of its metadata.
  pub deallocate-allocate :
      (size obj : ℕ) (s t v : State Table)
      → runtime_allocate lib size s ≡ done obj t
      → Reach lib t v
      → (u : State Table) × (runtime_deallocate obj t ≡ done tt u)
        × (u.blocks ≡ s.blocks)
        × (set_contains (object_base obj) v.gc_white_set ≡ true)
  unfolding runtime_deallocate IsWhite deallocated_at
  deallocate-allocate size obj s t v h r =
      let a = runtime_allocate-Allocation lib size s obj t h in
      let below = spec.fits s.blocks (4 + size) a.base a.given in
      let at_base : object_base obj ≡ a.base = omega (arith, a.object, below, a.room) in
      let found : free (object_base obj) t.blocks ≡ some s.blocks =
        ap (λ x. free x t.blocks) at_base
        ∙ ap (λ (x : State Table). free a.base x.blocks) a.last
        ∙ free-head a.base (4 + size) s.blocks in
      let is_white : set_contains (object_base obj) t.gc_white_set ≡ true =
        ap (λ x. set_contains x t.gc_white_set) at_base
        ∙ ap (λ (x : State Table). set_contains a.base x.gc_white_set) a.last
        ∙ set_insert-contains a.base s.gc_white_set in
      (
        deallocated_at obj s.blocks t,
        rw (found, runtime_deallocate),
        refl,
        Reach-IsWhite (object_base obj) r is_white,
      )
