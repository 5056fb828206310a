-- ===== src/Runtime/Bytes.antt =====
-- runtime/runtime.cpp: the bytes of the memory, written and read.
use supreme_doodle.Common.{
  ℕ, zero, suc, ◌+◌, ◌<◌, ◌≤◌, ◌≡◌, refl, ◌∙◌, sym, ap, ◌⊎◌, inl, inr, some, List, [], ◌∷◌, ◌++◌,
  arith, length, get_elem?, append-nil,
}
use Prim.Native.Nat.{◌*◌, ◌/◌, ◌%◌}
use supreme_doodle.Runtime.{write_bytes, bytes32, load32}

pub write_bytes-outside :
    (bs : List ℕ) (m : ℕ → ℕ) (a x : ℕ) → (x < a) ⊎ (a + length bs ≤ x) → write_bytes m a bs x ≡ m x
unfolding write_bytes
write_bytes-outside [] m a x h = refl
write_bytes-outside (b ∷ bs) m a x h = elim h [
  | inl l ↦ ground (arith, write_bytes-outside bs m (a + 1) x (inl (omega arith)))
  | inr l ↦ ground (arith, write_bytes-outside bs m (a + 1) x (inr (omega arith)))
]

pub write_bytes-inside :
    (bs : List ℕ) (m : ℕ → ℕ) (a i b : ℕ) → get_elem? bs i ≡ some b → write_bytes m a bs (a + i) ≡ b
unfolding write_bytes
write_bytes-inside [] m a i b h = cc
write_bytes-inside (c ∷ bs) m a zero b h = ground arith
write_bytes-inside (c ∷ bs) m a (suc i) b h =
    let moved : a + suc i ≡ a + 1 + i = omega arith in
    ground (arith, write_bytes-inside bs m (a + 1) i b h, ap (write_bytes m (a + 1) bs) moved)

-- four bytes make up the number whose bytes they are
bytes_sum :
    (n : ℕ)
    → n < 4294967296
    → n % 256 + 256 * (n / 256 % 256) + 65536 * (n / 65536 % 256) + 16777216 * (n / 16777216 % 256)
      ≡ n
bytes_sum n h = omega arith

pub load32-write_bytes :
    (m : ℕ → ℕ) (a n : ℕ) (rest : List ℕ)
    → n < 4294967296
    → load32 (write_bytes m a (bytes32 n ++ rest)) a ≡ n
unfolding write_bytes
load32-write_bytes m a n rest h = ground (arith, bytes_sum n h)

pub load32-outside :
    (bs : List ℕ) (m : ℕ → ℕ) (a x : ℕ)
    → (x + 4 ≤ a) ⊎ (a + length bs ≤ x)
    → load32 (write_bytes m a bs) x ≡ load32 m x
load32-outside bs m a x h =
    let e : write_bytes m a bs x ≡ m x =
      write_bytes-outside bs m a x (elim h [ inl k ↦ inl (omega arith) | inr k ↦ inr k ]) in
    omega (arith, e, apart 1 (omega arith), apart 2 (omega arith), apart 3 (omega arith))
  where
    apart : (i : ℕ) → i < 4 → write_bytes m a bs (x + i) ≡ m (x + i)
    apart i l =
        write_bytes-outside bs m a (x + i)
          (elim h [ inl k ↦ inl (omega arith) | inr k ↦ inr (omega arith) ])

write_bytes-append :
    (bs cs : List ℕ) (m : ℕ → ℕ) (a x : ℕ)
    → write_bytes m a (bs ++ cs) x ≡ write_bytes (write_bytes m (a + length bs) cs) a bs x
unfolding write_bytes
write_bytes-append [] cs m a x = ap (λ i. write_bytes m i cs x) (omega arith)
write_bytes-append (b ∷ bs) cs m a x =
    let moved : a + length (b ∷ bs) ≡ a + 1 + length bs = omega arith in
    ground (
      arith,
      write_bytes-append bs cs m (a + 1) x,
      ap (λ i. write_bytes (write_bytes m i cs) (a + 1) bs x) moved,
    )

-- the second of two words that are written one after the other
pub load32-second :
    (m : ℕ → ℕ) (a n k : ℕ)
    → k < 4294967296
    → load32 (write_bytes m a (bytes32 n ++ bytes32 k)) (a + 4) ≡ k
load32-second m a n k h =
    ap (λ (f : ℕ → ℕ). load32 f (a + 4)) (λ i x. write_bytes-append (bytes32 n) (bytes32 k) m a x i)
    ∙ load32-outside (bytes32 n) (write_bytes m (a + 4) (bytes32 k)) a (a + 4) (inr (omega arith))
    ∙ ap (λ bs. load32 (write_bytes m (a + 4) bs) (a + 4)) (sym (append-nil (bytes32 k)))
    ∙ load32-write_bytes m (a + 4) k [] h
