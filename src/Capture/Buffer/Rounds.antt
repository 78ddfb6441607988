-- ===== src/Capture/Buffer/Rounds.antt =====
-- The rounds of `s_try_queue_aiobuf` that wait for room, where every write succeeds.
use native.Mathlib.Decide.{ℕ_discrete}
use tes_0mq.Base.{
  ℕ, zero, suc, ◌+◌, ◌-◌, ◌<◌, ◌≤◌, ◌≡◌, refl, ◌∙◌, ◌⊎◌, inl, inr, true, false, not, ◌&&◌, leb,
  arith, Returns, Returns-if, Returns-mono, Returns-bind, ne→==, eq→==,
}
use tes_0mq.Packet.{mtu}
use tes_0mq.Capture.Buffer.{
  bufsize, Status, pending, complete, wrote, Answers, Job, in_progress, nothing, Buf, credit,
  settle, queue_job, queue, has_room, going, force_room,
}
use tes_0mq.Capture.Buffer.Order.{Placed, Inv, Kept, Split, Prepared}
use tes_0mq.Capture.Buffer.Queue.{prepare_first, prepare_next}

-- The system writes what it is asked to, at once or by the time it is waited for.
pub record Works (a : Answers) : Type 0 where
  pub status : (a.status ≡ pending) ⊎ (a.status ≡ complete)
  pub suspended : a.suspended ≡ true
  pub after : a.after ≡ complete
  pub returned : (n : ℕ) → a.returned n ≡ wrote n
  pub accepted : a.accepted ≡ true

-- Nothing is left, or a batch is being written.
pub record Fine (x : Job × Buf) : Type 0 where
  pub answer :
      ((x.0 ≡ nothing) × (x.1.enqueued + x.1.waiting ≡ 0))
      ⊎ ((x.0 ≡ in_progress) × (0 < x.1.enqueued))

-- How many rounds that wait there are at most until nothing is left.
abbrev pub Near : ℕ → Buf → Type 0
Near zero b = b.enqueued + b.waiting ≡ 0
Near (suc zero) b = b.waiting ≡ 0
Near (suc (suc zero)) b = Split b
Near (suc (suc (suc k))) b = Unit

module _ (a : Answers) (w : Works a) where
  pub Prepared-Fine : (b : Buf) (x : Job × Buf) → Prepared a b x → Fine x
  Prepared-Fine b x p =
      let s = p.submitted in
      record { answer = ground (arith, s.batch, s.rest, s.answer, w.accepted) }

  -- What a round that gets to `prepare` leaves.
  pub Near-next :
      (k : ℕ) (b : Buf) (x : Job × Buf) → Placed b → Near (suc k) b → Prepared a b x → Near k x.1
  Near-next zero b x v n p = let s = p.submitted in ground (arith, v, s.batch, s.rest)
  Near-next (suc zero) b x v n p = let s = p.submitted in ground (arith, v, s.batch, s.rest)
  Near-next (suc (suc zero)) b x v n p = p.split
  Near-next (suc (suc (suc k))) b x v n p = tt

  module _ (b : Buf) (v : Inv b) where
    module _ (pos : 0 < b.enqueued) where
      whole : b.aio_nbytes ≡ b.enqueued
      whole = elim v.asked [ inl z ↦ absurd (omega arith) | inr e ↦ e.1 ]

      credit_whole : Returns (λ x. Kept b x × Prepared a b x) (credit (a.returned b.aio_nbytes) a b)
      unfolding credit
      credit_whole =
          simp (w.returned b.aio_nbytes, eq→== b.aio_nbytes b.enqueued whole)
            (prepare_next a b v pos)

      settled_whole :
          (s : Status) → s ≡ complete → Returns (λ x. Kept b x × Prepared a b x) (settle s a b)
      unfolding settle
      settled_whole s e = rw e credit_whole

      forced_whole :
          (s : Status)
          → (s ≡ pending) ⊎ (s ≡ complete)
          → Returns (λ x. Kept b x × Prepared a b x) (queue_job s a true b)
      unfolding queue_job settle
      forced_whole s (inl e) = rw e (simp (w.suspended, w.after) credit_whole)
      forced_whole s (inr e) = rw e credit_whole

      tried :
          (s : Status)
          → (s ≡ pending) ⊎ (s ≡ complete)
          → Returns (λ x. Kept b x × Fine x) (queue_job s a false b)
      unfolding queue_job settle
      tried s (inl e) = rw e (
        record { inv = v; same = refl; brief = inl pos; less = omega arith },
        record { answer = inr (refl, pos) },
      )
      tried s (inr e) = rw e (
          Returns-mono (λ x. Kept b x × Prepared a b x) (λ x. Kept b x × Fine x) _ credit_whole
            (λ x (k, p). (k, Prepared-Fine b x p)))

    -- A call that waits starts the next batch.
    pub queue-forced : Returns (λ x. Kept b x × Prepared a b x) (queue a true b)
    unfolding queue
    queue-forced = elim (ℕ_discrete b.enqueued 0) [
      | yes z ↦ simp (eq→== b.enqueued 0 z) (prepare_first a b v z)
      | no nz ↦ simp (ne→== b.enqueued 0 nz) (forced_whole (omega arith) a.status w.status)
    ]

    -- A call that does not wait may leave the batch before as it is.
    pub queue-tried : Returns (λ x. Kept b x × Fine x) (queue a false b)
    unfolding queue
    queue-tried = elim (ℕ_discrete b.enqueued 0) [
      | yes z ↦ simp (eq→== b.enqueued 0 z) (
          Returns-mono (λ x. Kept b x × Prepared a b x) (λ x. Kept b x × Fine x) _
            (prepare_first a b v z) (λ x (k, p). (k, Prepared-Fine b x p)))
      | no nz ↦ simp (ne→== b.enqueued 0 nz) (tried (omega arith) a.status w.status)
    ]

-- What follows a call, by the buffer before.
pub record Ready (b : Buf) (x : Job × Buf) : Type 0 where
  pub kept : Kept b x
  pub fine : Fine x
  pub room : has_room x.1 ≡ true

pub Kept-step : (b : Buf) (x y : Job × Buf) → Kept b x → Kept x.1 y → Kept b y
Kept-step b x y k l = record {
  inv = l.inv;
  same = l.same ∙ k.same;
  brief = l.brief;
  less = omega (arith, k.less, l.less);
}

module _ (answers : ℕ → Answers) (w : (k : ℕ) → Works (answers k)) (b : Buf) where
  pub stop :
      (x : Job × Buf) → Kept b x → Fine x → (not (has_room x.1) && going x.0) ≡ false → Ready b x
  stop x k f e = record { kept = k; fine = f; room = ground (arith, f.answer) }

  -- Three rounds are enough.
  pub force_room-Ready :
      (fuel i n : ℕ) (x : Job × Buf)
      → n ≤ fuel
      → Near n x.1
      → Kept b x
      → Fine x
      → Returns (Ready b) (force_room fuel answers i x)
  unfolding force_room
  force_room-Ready zero i zero (j, c) h near k f =
      let e : leb (c.enqueued + c.waiting) (bufsize - mtu) ≡ true = ground arith in
      rw e (stop (j, c) k f (rw e))
  force_room-Ready zero i (suc n) (j, c) h near k f = absurd (omega arith)
  force_room-Ready (suc fuel) i zero (j, c) h near k f =
      let e : leb (c.enqueued + c.waiting) (bufsize - mtu) ≡ true = ground arith in
      rw e (stop (j, c) k f (rw e))
  force_room-Ready (suc fuel) i (suc n) (j, c) h near k f =
      Returns-if (Ready b) (not (has_room c) && going j) _ _
        (λ t.
          Returns-bind (λ x. Kept c x × Prepared (answers i) c x) (Ready b) _
            (force_room fuel answers (i + 1)) (queue-forced (answers i) (w i) c k.inv)
            (λ x (l, p).
              force_room-Ready fuel (i + 1) n x (omega arith)
                (Near-next (answers i) (w i) n c x k.inv.placed near p) (Kept-step b (j, c) x k l)
                (Prepared-Fine (answers i) (w i) c x p)))
        (λ t. stop (j, c) k f t)
