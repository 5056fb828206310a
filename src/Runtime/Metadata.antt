-- ===== src/Runtime/Metadata.antt =====
-- runtime/runtime.cpp: the metadata of an object, which begins four bytes before the object and is eight
-- bytes long.
use supreme_doodle.Common.{
  ℕ, ◌+◌, ◌<◌, ◌≤◌, ◌≡◌, ◌∙◌, sym, ap, inl, inr, none, some, [], ◌∷◌, ◌++◌, arith, append-nil, ltb,
  Option-cases, Bool-cases, true, false,
}
use supreme_doodle.Runtime.{
  ObjectMetadata, State, Library, done, fault, allocated, write_bytes, bytes32, load32,
  load_metadata, store_metadata, state_code, white, set_insert, runtime_allocate, assertion,
  overrun, RuntimeFault,
}
use supreme_doodle.Runtime.Bytes.{load32-outside, load32-write_bytes, load32-second}

-- the state after an allocation at an address
abbrev pub allocated_at : {Table : Type 0} → ℕ → ℕ → State Table → State Table
allocated_at base size s = record s {
  memory = store_metadata s.memory base (record { object_size = size; state = state_code white });
  blocks = record { base = base; size = 4 + size } ∷ s.blocks;
  gc_white_set = set_insert base s.gc_white_set;
  log = s.log ++ allocated (base + 4) size ∷ [];
}

-- What an allocation that succeeds has done.
pub record Allocation {Table : Type 0} (lib : Library Table) (size : ℕ) (s : State Table) (obj : ℕ)
    (t : State Table) : Type 0 where
  pub base : ℕ
  pub given : lib.operator_new s.blocks (4 + size) ≡ some base
  pub object : obj ≡ base + 4
  pub room : 4 ≤ size
  pub last : t ≡ allocated_at base size s

abbrev metadata : ℕ → ℕ → ObjectMetadata
metadata n code = record { object_size = n; state = code }

module _ {Table : Type 0} where
  fault-ne-done :
      {A : Type 0} {f : RuntimeFault} {a : A} {t : State Table} → (fault f) ≡ (done a t) → ⊥
  fault-ne-done h = cc

  done_value : {a b : ℕ} {s t : State Table} → done a s ≡ done b t → a ≡ b
  done_value h = cc

  done_state : {a b : ℕ} {s t : State Table} → done a s ≡ done b t → s ≡ t
  done_state h = cc

module _ {Table : Type 0} (lib : Library Table) (size : ℕ) (s : State Table) where
  runtime_allocate-none :
      lib.operator_new s.blocks (4 + size) ≡ none → runtime_allocate lib size s ≡ fault assertion
  unfolding runtime_allocate
  runtime_allocate-none e = rw (e, runtime_allocate)

  runtime_allocate-overrun :
      (base : ℕ)
      → lib.operator_new s.blocks (4 + size) ≡ some base
      → ltb (4 + size) 8 ≡ true
      → runtime_allocate lib size s ≡ fault overrun
  unfolding runtime_allocate
  runtime_allocate-overrun base e f = rw (e, f, runtime_allocate)

  pub runtime_allocate-done :
      (base : ℕ)
      → lib.operator_new s.blocks (4 + size) ≡ some base
      → ltb (4 + size) 8 ≡ false
      → runtime_allocate lib size s ≡ done (base + 4) (allocated_at base size s)
  unfolding runtime_allocate
  runtime_allocate-done base e f = rw (e, f, runtime_allocate)

  pub runtime_allocate-Allocation :
      (obj : ℕ) (t : State Table)
      → runtime_allocate lib size s ≡ done obj t
      → Allocation lib size s obj t
  runtime_allocate-Allocation obj t h = elim (Option-cases (lib.operator_new s.blocks (4 + size))) [
    | inl e ↦ absurd (fault-ne-done (sym (runtime_allocate-none e) ∙ h))
    | inr (base, e) ↦ elim (Bool-cases (ltb (4 + size) 8)) [
      | inl f ↦ absurd (fault-ne-done (sym (runtime_allocate-overrun base e f) ∙ h))
      | inr f ↦
          let both : done (base + 4) (allocated_at base size s) ≡ done obj t =
            sym (runtime_allocate-done base e f) ∙ h in
          record {
            base = base;
            given = e;
            object = sym (done_value both);
            room = ground arith;
            last = sym (done_state both);
          }
    ]
  ]

load-store_metadata :
    (m : ℕ → ℕ) (a size code : ℕ)
    → size < 4294967296
    → code < 4294967296
    → load_metadata (store_metadata m a (record { object_size = size; state = code })) a
      ≡ record { object_size = size; state = code }
unfolding store_metadata
load-store_metadata m a size code h k =
    ap (λ n. metadata n (load32 (write_bytes m a (bytes32 size ++ bytes32 code)) (a + 4)))
      (load32-write_bytes m a size (bytes32 code) h)
    ∙ ap (metadata size) (load32-second m a size code k)

load-overwritten :
    (m : ℕ → ℕ) (a size v : ℕ)
    → load32 m a ≡ size
    → v < 4294967296
    → load_metadata (write_bytes m (a + 4) (bytes32 v)) a ≡ record { object_size = size; state = v }
load-overwritten m a size v h k =
    ap (λ n. metadata n (load32 (write_bytes m (a + 4) (bytes32 v)) (a + 4)))
      (load32-outside (bytes32 v) m (a + 4) a (inl (omega arith)) ∙ h)
    ∙ ap (metadata size) (
        ap (λ bs. load32 (write_bytes m (a + 4) bs) (a + 4)) (sym (append-nil (bytes32 v)))
        ∙ load32-write_bytes m (a + 4) v [] k)

-- After an allocation that succeeds the four bytes before the object are the low bytes of the metadata, which
-- reads as the size and white. But its state is the first four bytes of the object: once the program stores
-- a word at the object, the state that is read is that word.
pub object_overlaps_state :
    {Table : Type 0} (lib : Library Table) (size : ℕ) (s : State Table) (obj : ℕ) (t : State Table)
    (v : ℕ)
    → runtime_allocate lib size s ≡ done obj t
    → size < 4294967296
    → v < 4294967296
    → (base : ℕ) × (obj ≡ base + 4)
      × (load_metadata t.memory base ≡ record { object_size = size; state = state_code white })
      × (load_metadata (write_bytes t.memory obj (bytes32 v)) base
          ≡ record { object_size = size; state = v })
unfolding store_metadata
object_overlaps_state lib size s obj t v h small word =
    let a = runtime_allocate-Allocation lib size s obj t h in
    let stored : load_metadata t.memory a.base
        ≡ record { object_size = size; state = state_code white } =
      ap (λ (u : State _). load_metadata u.memory a.base) a.last
      ∙ load-store_metadata s.memory a.base size 0 small (omega arith) in
    (
      a.base,
      a.object,
      stored,
      ap (λ o. load_metadata (write_bytes t.memory o (bytes32 v)) a.base) a.object
          ∙ load-overwritten t.memory a.base size v
              (ap (λ (d : ObjectMetadata). d.object_size) stored) word,
    )
