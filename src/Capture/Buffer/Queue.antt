-- ===== src/Capture/Buffer/Queue.antt =====
-- `s_queue_aiobuf` as a whole.
use native.Mathlib.Decide.{ℕ_discrete}
use tes_0mq.Base.{
  ℕ, ◌+◌, ◌-◌, ◌-◌, List, length, take-all, drop-all, ◌<◌, ◌≡◌, refl, sym, ap, ap₂, ◌∙◌, subst, ◌⊎◌,
  inl, inr, Bool, ltb, ◌==◌, arith, ok, Returns, Returns-check, Returns-if, Returns-mono, ◌++◌,
  append-nil, ne→==, eq→==,
}
use tes_0mq.Memory.{read}
use tes_0mq.Capture.Buffer.{
  Status, pending, complete, broken, cancelled, Returned, wrote, again, refused, Answers, Job,
  in_progress, failed, short, Buf, submit, prepare, credit, settle, queue_job, queue, put_at, zeros,
}
use tes_0mq.Capture.Buffer.Order.{Inv, Kept, Submitted, Prepared, submit-Kept, prepare-Kept}

-- A job that is over, and was not cancelled.
abbrev pub Settled : Status → Type 0
Settled complete = Unit
Settled broken = Unit
Settled cancelled = ⊥
Settled pending = ⊥

-- A write at the end of the file.
put_at-end : (o : ℕ) (bs file : List ℕ) → o ≡ length file → put_at o bs file ≡ file ++ bs
unfolding put_at
put_at-end o bs file e =
    let gap : o - length file ≡ 0 = omega (arith, e) in
    ap₂ ◌++◌ (take-all o file (omega (arith, e))) (
      ap₂ ◌++◌ (ap zeros gap)
        (ap (λ l. bs ++ l) (drop-all (o + length bs) file (omega (arith, e))) ∙ append-nil bs))

module _ (a : Answers) (b : Buf) (v : Inv b) where
  credit_none : b.enqueued ≡ 0 → b.written ++ read b.mem b.tail b.enqueued ≡ b.written
  unfolding read
  credit_none e = ap (λ n. b.written ++ read b.mem b.tail n) e ∙ append-nil b.written

  -- With no batch enqueued.
  pub prepare_first : b.enqueued ≡ 0 → Returns (λ x. Kept b x × Prepared a b x) (prepare a b)
  prepare_first e =
      subst (λ w. Returns (λ x. Kept b x × Prepared a b x) (prepare a (record b { written = w })))
        (credit_none e) (prepare-Kept a b v.placed v.sized)

  module _ (pos : 0 < b.enqueued) where
    asked_batch : (b.aio_buf ≡ b.tail) × (b.aio_nbytes ≡ b.enqueued) × (b.aio_offset ≡ b.size)
    asked_batch = elim v.asked [ inl z ↦ absurd (omega arith) | inr e ↦ e ]

    -- With the batch before written whole.
    pub prepare_next :
        Returns
          (λ x. Kept b x × Prepared a b x)
          (prepare a (record b {
            written = put_at b.aio_offset (read b.mem b.aio_buf b.aio_nbytes) b.written;
          }))
    prepare_next =
        let e = asked_batch in
        let r : b.written ++ read b.mem b.tail b.enqueued
            ≡ put_at b.aio_offset (read b.mem b.aio_buf b.aio_nbytes) b.written =
          ap (λ l. b.written ++ l) (ap₂ (read b.mem) (sym e.0) (sym e.1))
          ∙ sym (
              put_at-end b.aio_offset (read b.mem b.aio_buf b.aio_nbytes) b.written
                (e.2 ∙ v.sized)) in
        subst (λ l. Returns (λ x. Kept b x × Prepared a b x) (prepare a (record b { written = l })))
          r (prepare-Kept a b v.placed v.sized)

    submit_again :
        Returns
          (λ x. Kept b x × Submitted a b.enqueued b.waiting x × (x.1.tail ≡ b.tail))
          (submit a b)
    submit_again = submit-Kept a b v.placed v.sized (λ z. absurd (omega arith))

    -- Nothing has changed.
    Kept-refl : (j : Job) → Kept b (j, b)
    Kept-refl j = record { inv = v; same = refl; brief = inl pos; less = omega arith }

    submit_lem : Returns (Kept b) (submit a b)
    submit_lem =
        Returns-mono (λ x. Kept b x × Submitted a b.enqueued b.waiting x × (x.1.tail ≡ b.tail))
          (Kept b) _ submit_again (λ x k. k.0)

    credit-Kept : (r : Returned) → Returns (Kept b) (credit r a b)
    unfolding credit
    credit-Kept (wrote n) =
        Returns-if (Kept b) (n == b.enqueued) _ _
          (λ _. Returns-mono (λ x. Kept b x × Prepared a b x) (Kept b) _ prepare_next (λ x k. k.0))
          (λ _. Returns-check (Kept b) (ltb 0 b.enqueued) _ (ground arith) (Kept-refl short))
    credit-Kept again = submit_lem
    credit-Kept refused = Kept-refl failed

    settle-Kept : (s : Status) → Settled s → Returns (Kept b) (settle s a b)
    unfolding settle
    settle-Kept complete d = credit-Kept (a.returned b.aio_nbytes)
    settle-Kept broken d = Kept-refl failed
    settle-Kept cancelled d = absurd d
    settle-Kept pending d = absurd d

    queue_job-Kept :
        (s : Status) (force : Bool)
        → (s ≡ pending) ⊎ Settled s
        → Settled a.after
        → Returns (Kept b) (queue_job s a force b)
    unfolding queue_job
    queue_job-Kept pending force d e =
        Returns-if (Kept b) force _ _
          (λ _.
            Returns-if (Kept b) a.suspended _ (ok (failed, b)) (λ _. settle-Kept a.after e)
              (λ _. Kept-refl failed))
          (λ _. Kept-refl in_progress)
    queue_job-Kept complete force d e = settle-Kept complete tt
    queue_job-Kept broken force d e = settle-Kept broken tt
    queue_job-Kept cancelled force (inl d) e = cc
    queue_job-Kept cancelled force (inr d) e = absurd d

-- `s_queue_aiobuf`, on a buffer in order, fails no assertion and keeps the buffer in order, whatever
-- the system answers: what is reported written, and then what is in the buffer, stay together the bytes
-- that were given to it, in order and each once, and the free room does not shrink. It is taken for
-- granted that no job is cancelled, and that none is still in progress after `aio_suspend`.
pub queue-Kept :
    (a : Answers) (force : Bool) (b : Buf)
    → Inv b
    → (a.status ≡ pending) ⊎ Settled a.status
    → Settled a.after
    → Returns (Kept b) (queue a force b)
unfolding queue
queue-Kept a force b v d e = elim (ℕ_discrete b.enqueued 0) [
  | yes z ↦ simp (eq→== b.enqueued 0 z) (
      Returns-mono (λ x. Kept b x × Prepared a b x) (Kept b) _ (prepare_first a b v z) (λ x k. k.0))
  | no nz ↦ simp (ne→== b.enqueued 0 nz) (queue_job-Kept a b v (omega arith) a.status force d e)
]
