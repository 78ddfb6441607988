-- ===== src/Capture/Buffer/Order.antt =====
-- `s_queue_aiobuf` loses no byte and keeps the order, whatever the system answers.
use tes_0mq.Base.{
  ℕ, ◌+◌, ◌-◌, ◌<◌, ◌≤◌, ◌≡◌, refl, sym, ap, ◌∙◌, ◌⊎◌, inl, inr, ◌||◌, ltb, leb, ◌==◌,
  if◌then◌else◌, arith, length, length-append, Returns, Returns-check, List, ◌++◌, append_assoc,
  ne→==, eq→==, Returns-mono,
}
use native.Mathlib.Decide.{ℕ_discrete}
use tes_0mq.Memory.{read, length-read}
use tes_0mq.Capture.Buffer.{
  bufsize, minsize, Answers, Job, in_progress, nothing, failed, Buf, submit, next_tail, next_batch,
  released, prepare,
}
use tes_0mq.Capture.Buffer.Cyclic.{around, around-split}

-- Where the cursor and the tail stand.
pub record Placed (b : Buf) : Type 0 where
  pub cur_in : b.cur < bufsize
  pub tail_in : b.tail < bufsize
  pub end_in : b.tail + b.enqueued ≤ bufsize
  pub place :
      (b.tail + b.enqueued + b.waiting ≡ b.cur)
      ⊎ (b.tail + b.enqueued + b.waiting ≡ b.cur + bufsize)
  pub full : b.enqueued + b.waiting ≤ bufsize
  pub idle : (0 < b.enqueued) ⊎ (b.waiting < bufsize)

-- The last `aio_write` was of the batch enqueued, to the end of the file.
abbrev pub Asked : Buf → Type 0
Asked b =
    (b.enqueued ≡ 0)
    ⊎ ((b.aio_buf ≡ b.tail) × (b.aio_nbytes ≡ b.enqueued) × (b.aio_offset ≡ b.size))

pub record Inv (b : Buf) : Type 0 where
  pub placed : Placed b
  pub asked : Asked b
  pub sized : b.size ≡ length b.written

-- The bytes that are in the buffer and not reported written.
abbrev pub unwritten : Buf → List ℕ
unwritten b = around b.mem b.tail (b.enqueued + b.waiting)

-- Without a batch enqueued, there is less than a batch to wait.
abbrev pub Brief : Buf → Type 0
Brief b = (0 < b.enqueued) ⊎ (b.waiting < minsize)

-- Everything that was given to the buffer, in order.
abbrev pub given : Buf → List ℕ
given b = b.written ++ unwritten b

-- The outcome keeps the order, the bytes, the cursor, and makes no less room.
pub record Kept (b : Buf) (x : Job × Buf) : Type 0 where
  pub inv : Inv x.1
  pub same : given x.1 ≡ given b
  pub brief : Brief x.1
  pub less : x.1.enqueued + x.1.waiting ≤ b.enqueued + b.waiting

-- With the bytes of the batch reported written.
abbrev pub credited : Buf → Buf
credited b = record b { written = b.written ++ read b.mem b.tail b.enqueued }

next_batch-le : (b : Buf) → Placed b → next_batch b ≤ b.waiting
next_batch-le b v = ground arith

given-released : (b : Buf) → Placed b → given (released (credited b)) ≡ given b
given-released b v =
    let le = next_batch-le b v in
    let s : next_batch b + (b.waiting - next_batch b) ≡ b.waiting = omega arith in
    ap (λ n. (b.written ++ read b.mem b.tail b.enqueued) ++ around b.mem (next_tail b) n) s
    ∙ (append_assoc b.written (read b.mem b.tail b.enqueued) (around b.mem (next_tail b) b.waiting)
        ∙ ap (λ l. b.written ++ l)
            (sym (around-split b.mem b.tail b.enqueued b.waiting v.end_in (omega (arith, v.full)))))

released-Placed : (b : Buf) → Placed b → Placed (released (credited b))
released-Placed b v = ground arith

sized-released :
    (b : Buf)
    → b.size ≡ length b.written
    → (released (credited b)).size ≡ length (credited b).written
sized-released b e = omega (
  arith,
  length-append b.written (read b.mem b.tail b.enqueued),
  length-read b.mem b.tail b.enqueued,
)

-- The batch enqueued reaches the end of the buffer, or all of the rest.
abbrev pub Split : Buf → Type 0
Split b = (b.waiting ≡ 0) ⊎ (b.tail + b.enqueued ≡ bufsize)

-- What a run that gets as far as `aio_write` answers, with `n` bytes enqueued and `w` waiting.
pub record Submitted (a : Answers) (n : ℕ) (w : ℕ) (x : Job × Buf) : Type 0 where
  pub batch : x.1.enqueued ≡ n
  pub rest : x.1.waiting ≡ w
  pub answer :
      ((x.0 ≡ nothing) × (n + w ≡ 0))
      ⊎ ((x.0 ≡ (if a.accepted then in_progress else failed)) × (0 < n))

-- That of `prepare`.
pub record Prepared (a : Answers) (b : Buf) (x : Job × Buf) : Type 0 where
  pub submitted : Submitted a (next_batch b) (b.waiting - next_batch b) x
  pub split : Split x.1

module _ (a : Answers) where
  submit_empty :
      (b : Buf)
      → Placed b
      → b.size ≡ length b.written
      → b.enqueued ≡ 0
      → b.waiting ≡ 0
      → Returns
          (λ x. Kept b x × Submitted a b.enqueued b.waiting x × (x.1.tail ≡ b.tail))
          (submit a b)
  unfolding submit
  submit_empty b v s z w =
      rw
        (ne→== b.tail bufsize (omega (arith, v.tail_in)), eq→== b.enqueued 0 z, eq→== b.waiting 0 w)
        (
          record {
            inv = record { placed = v; asked = inl z; sized = s };
            same = refl;
            brief = inr (omega arith);
            less = omega arith;
          },
          record { batch = refl; rest = refl; answer = inl (refl, omega arith) },
          refl,
        )

  submit_batch :
      (b : Buf)
      → Placed b
      → b.size ≡ length b.written
      → 0 < b.enqueued
      → Returns
          (λ x. Kept b x × Submitted a b.enqueued b.waiting x × (x.1.tail ≡ b.tail))
          (submit a b)
  unfolding submit
  submit_batch b v s p =
      rw (ne→== b.tail bufsize (omega (arith, v.tail_in)), ne→== b.enqueued 0 (omega arith))
        (
          record {
            inv = record {
              placed = record {
                cur_in = v.cur_in;
                tail_in = v.tail_in;
                end_in = v.end_in;
                place = v.place;
                full = v.full;
                idle = v.idle;
              };
              asked = inr (refl, refl, refl);
              sized = s;
            };
            same = refl;
            brief = inl p;
            less = omega arith;
          },
          record { batch = refl; rest = refl; answer = inr (refl, p) },
          refl,
        )

  pub submit-Kept :
      (b : Buf)
      → Placed b
      → b.size ≡ length b.written
      → (b.enqueued ≡ 0 → b.waiting ≡ 0)
      → Returns
          (λ x. Kept b x × Submitted a b.enqueued b.waiting x × (x.1.tail ≡ b.tail))
          (submit a b)
  submit-Kept b v s e = elim (ℕ_discrete b.enqueued 0) [
    | yes z ↦ submit_empty b v s z (e z)
    | no nz ↦ submit_batch b v s (omega arith)
  ]

  released-Split :
      (b : Buf) (x : Job × Buf)
      → Placed b
      → Submitted a (next_batch b) (b.waiting - next_batch b) x
      → x.1.tail ≡ next_tail b
      → Split x.1
  released-Split b x v s t = ground (arith, v, s.batch, s.rest)

  pub prepare-Kept :
      (b : Buf)
      → Placed b
      → b.size ≡ length b.written
      → Returns (λ x. Kept b x × Prepared a b x) (prepare a (credited b))
  unfolding prepare
  prepare-Kept b v s =
      let r = released-Placed b v in
      let le = next_batch-le b v in
      let s' = sized-released b s in
      Returns-check _ (ltb (next_tail b) bufsize) _ (ground arith) (
        Returns-check _ (leb (next_batch b) b.waiting) _ (ground arith) (
          Returns-check _ (b.waiting - next_batch b == 0 || next_tail b + next_batch b == bufsize) _
            (ground arith)
            (Returns-mono
              (λ x.
                Kept (released (credited b)) x
                × Submitted a (next_batch b) (b.waiting - next_batch b) x
                × (x.1.tail ≡ next_tail b))
              (λ x. Kept b x × Prepared a b x) _
              (submit-Kept (released (credited b)) r s' (ground arith))
              (λ x (k, w, t). (
                record {
                  inv = k.inv;
                  same = k.same ∙ given-released b v;
                  brief = k.brief;
                  less = omega (arith, k.less);
                },
                record { submitted = w; split = released-Split b x v w t },
              )))))
