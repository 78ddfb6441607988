-- ===== src/Capture/Buffer/Cyclic.antt =====
-- The bytes of the buffer from an offset on, around its end.

use tes_0mq.Base.{
  ℕ, zero, suc, ◌+◌, ◌-◌, ◌<◌, ◌≤◌, ◌≡◌, sym, ap, ap₂, ◌∙◌, ◌==◌, leb, if◌then◌else◌, arith, List,
  [], ◌++◌, length, length-append, append-nil, append_assoc, Bool-cases, inl, inr,
}
use tes_0mq.Memory.{Memory, read, read-add, length-read}
use tes_0mq.Capture.Buffer.{bufsize}

-- `n` bytes from `i` on, the buffer being a circle.
pub around : Memory → ℕ → ℕ → List ℕ
around m i n =
    if leb (i + n) bufsize then read m i n else read m i (bufsize - i) ++ read m 0 (i + n - bufsize)

pub around-straight : (m : Memory) (i n : ℕ) → i + n ≤ bufsize → around m i n ≡ read m i n
unfolding around
around-straight m i n h = ground arith

-- However the bytes lie.
pub length-around : (m : Memory) (i n : ℕ) → i ≤ bufsize → length (around m i n) ≡ n
unfolding around
length-around m i n h = elim (Bool-cases (leb (i + n) bufsize)) [
  | inl e ↦ rw e (length-read m i n)
  | inr e ↦
      let lt : bufsize < i + n = ground arith in
      rw e (
        omega (
          arith,
          length-append (read m i (bufsize - i)) (read m 0 (i + n - bufsize)),
          length-read m i (bufsize - i),
          length-read m 0 (i + n - bufsize),
        ))
]

pub around-none : (m : Memory) (i : ℕ) → i ≤ bufsize → around m i 0 ≡ []
unfolding read
around-none m i h = around-straight m i 0 (omega arith)

around-over :
    (m : Memory) (i n : ℕ)
    → bufsize < i + n
    → around m i n ≡ read m i (bufsize - i) ++ read m 0 (i + n - bufsize)
unfolding around
around-over m i n h = ground arith

-- Also where nothing is left after the end.
pub around-wrapped :
    (m : Memory) (i n k : ℕ)
    → i + n ≡ bufsize + k
    → i ≤ bufsize
    → around m i n ≡ read m i (bufsize - i) ++ read m 0 k
unfolding read
around-wrapped m i n zero e h =
    let s : n ≡ bufsize - i = omega arith in
    rw (around-straight m i n (omega arith), append-nil) (ap (read m i) s)
around-wrapped m i n (suc k) e h =
    let s : i + n - bufsize ≡ suc k = omega arith in
    around-over m i n (omega arith) ∙ ap (λ l. read m i (bufsize - i) ++ read m 0 l) s

module _ (m : Memory) (i a n : ℕ) where
  split-end : i + a ≡ bufsize → n ≤ bufsize → around m i (a + n) ≡ read m i a ++ around m 0 n
  split-end e k =
      let s : bufsize - i ≡ a = omega arith in
      around-wrapped m i (a + n) n (omega arith) (omega arith)
      ∙ ap₂ ◌++◌ (ap (read m i) s) (sym (around-straight m 0 n (omega arith)))

  split-straight : i + a + n ≤ bufsize → around m i (a + n) ≡ read m i a ++ around m (i + a) n
  split-straight h =
      around-straight m i (a + n) (omega arith)
      ∙ (read-add m i a n ∙ ap (λ l. read m i a ++ l) (sym (around-straight m (i + a) n h)))

  split-over :
      i + a ≤ bufsize → bufsize < i + a + n → around m i (a + n) ≡ read m i a ++ around m (i + a) n
  split-over h k =
      let s : bufsize - i ≡ a + (bufsize - (i + a)) = omega arith in
      around-wrapped m i (a + n) (i + a + n - bufsize) (omega arith) (omega arith)
      ∙ (ap (λ l. l ++ read m 0 (i + a + n - bufsize))
            (ap (read m i) s ∙ read-add m i a (bufsize - (i + a)))
          ∙ (append_assoc (read m i a) (read m (i + a) (bufsize - (i + a)))
                (read m 0 (i + a + n - bufsize))
              ∙ ap (λ l. read m i a ++ l)
                  (sym (around-wrapped m (i + a) n (i + a + n - bufsize) (omega arith) h))))

  -- The first `a` bytes, up to the end at most, and the rest, from the start if they reach the end.
  pub around-split :
      i + a ≤ bufsize
      → n ≤ bufsize
      → around m i (a + n) ≡ read m i a ++ around m (if i + a == bufsize then 0 else i + a) n
  around-split h k = elim (Bool-cases (i + a == bufsize)) [
    | inl e ↦ rw e (split-end (ground arith) k)
    | inr ne ↦ rw ne (elim (Bool-cases (leb (i + a + n) bufsize)) [
      | inl s ↦ split-straight (ground arith)
      | inr o ↦ split-over h (ground arith)
    ])
  ]
