-- ===== src/Memory.antt =====
-- A buffer of bytes, as the memory from its first byte on, with `memcpy` into it.
use native.Mathlib.Nat.{add-zero, zero-add}
use tes_0mq.Base.{
  ℕ, zero, suc, ◌+◌, ◌<◌, ◌≤◌, ◌≡◌, refl, ap, ap₂, ◌∙◌, ◌==◌, if◌then◌else◌, arith, List, [], ◌∷◌,
  ◌++◌, subst, length, ne→==, ==-refl,
}

abbrev pub Memory : Type 0
Memory = ℕ → ℕ

-- The bytes `bs` at offset `i`.
pub copy : Memory → ℕ → List ℕ → Memory
copy m i [] = m
copy m i (b ∷ bs) = copy (λ k. if k == i then b else m k) (i + 1) bs

-- The `n` bytes at offset `i`.
unfoldable pub read : Memory → ℕ → ℕ → List ℕ
read m i zero = []
read m i (suc n) = m i ∷ read m (i + 1) n

-- A copy leaves the bytes before it alone.
copy-before : (m : Memory) (i k : ℕ) (bs : List ℕ) → k < i → copy m i bs k ≡ m k
unfolding copy
copy-before m i k [] h = refl
copy-before m i k (b ∷ bs) h =
    copy-before (λ j. if j == i then b else m j) (i + 1) k bs (omega arith)
    ∙ rw (ne→== k i (omega arith))

pub read-copy_before :
    (m : Memory) (i j n : ℕ) (bs : List ℕ) → j + n ≤ i → read (copy m i bs) j n ≡ read m j n
unfolding read
read-copy_before m i j zero bs h = refl
read-copy_before m i j (suc n) bs h =
    ap₂ ◌∷◌ (copy-before m i j bs (omega arith)) (read-copy_before m i (j + 1) n bs (omega arith))

pub read-copy_self : (m : Memory) (i : ℕ) (bs : List ℕ) → read (copy m i bs) i (length bs) ≡ bs
unfolding read copy
read-copy_self m i [] = refl
read-copy_self m i (b ∷ bs) =
    ap₂ ◌∷◌
      (copy-before (λ j. if j == i then b else m j) (i + 1) i bs (omega arith) ∙ rw (==-refl i))
      (read-copy_self (λ j. if j == i then b else m j) (i + 1) bs)

pub read-add : (m : Memory) (i n k : ℕ) → read m i (n + k) ≡ read m i n ++ read m (i + n) k
unfolding read
read-add m i zero k = rw (zero-add, add-zero)
read-add m i (suc n) k =
    let e : suc n + k ≡ suc (n + k) = omega arith in
    let shift : i + 1 + n ≡ i + suc n = omega arith in rw (e, read-add m (i + 1) n k, shift)

-- What is read after a copy to the end of what was read before.
pub read-copy_end :
    (m : Memory) (i n : ℕ) (bs : List ℕ)
    → read (copy m (i + n) bs) i (n + length bs) ≡ read m i n ++ bs
read-copy_end m i n bs =
    read-add (copy m (i + n) bs) i n (length bs)
    ∙ rw (read-copy_before m (i + n) i n bs (omega arith), read-copy_self m (i + n) bs)

pub read-copy :
    (m : Memory) (n : ℕ) (bs : List ℕ) → read (copy m n bs) 0 (n + length bs) ≡ read m 0 n ++ bs
read-copy m n bs =
    subst (λ k. read (copy m k bs) 0 (n + length bs) ≡ read m 0 n ++ bs) (zero-add n)
      (read-copy_end m 0 n bs)

-- A copy leaves the bytes after it alone.
copy-after : (m : Memory) (i k : ℕ) (bs : List ℕ) → i + length bs ≤ k → copy m i bs k ≡ m k
unfolding copy
copy-after m i k [] h = refl
copy-after m i k (b ∷ bs) h =
    copy-after (λ j. if j == i then b else m j) (i + 1) k bs (omega arith)
    ∙ rw (ne→== k i (omega arith))

pub read-copy_after :
    (m : Memory) (i j n : ℕ) (bs : List ℕ) → i + length bs ≤ j → read (copy m i bs) j n ≡ read m j n
unfolding read
read-copy_after m i j zero bs h = refl
read-copy_after m i j (suc n) bs h =
    ap₂ ◌∷◌ (copy-after m i j bs (omega arith)) (read-copy_after m i (j + 1) n bs (omega arith))

pub length-read : (m : Memory) (i n : ℕ) → length (read m i n) ≡ n
unfolding read
length-read m i zero = refl
length-read m i (suc n) = ap suc (length-read m (i + 1) n)
