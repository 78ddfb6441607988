-- ===== src/Capture/Buffer/Flush.antt =====
-- `s_flush` where every write succeeds, and the file that a run of frames leaves.
use tes_0mq.Base.{
  ℕ, zero, suc, ◌+◌, ◌<◌, ◌≤◌, ◌≡◌, refl, sym, ap, ◌∙◌, inl, inr, true, false, if◌then◌else◌, arith,
  Outcome, ok, ◌>>=◌, Returns, Returns-if, Returns-mono, Returns-bind, All, List, [], ◌∷◌, ◌++◌,
  length, append-nil, append_assoc,
}
use tes_0mq.Packet.{mtu}
use tes_0mq.Memory.{Memory}
use tes_0mq.Capture.Buffer.{Answers, Job, nothing, Buf, has_room, going, try_queue, flush}
use tes_0mq.Capture.Buffer.Cyclic.{around, around-none}
use tes_0mq.Capture.Buffer.Order.{Placed, Inv, Brief, Kept, Prepared, given}
use tes_0mq.Capture.Buffer.Rounds.{
  Works, Fine, Near, Prepared-Fine, Near-next, Kept-step, queue-forced,
}
use tes_0mq.Capture.Buffer.Append.{Added, try_queue-Added}

-- Everything given before is in the file.
pub record Flushed (b : Buf) (x : Job × Buf) : Type 0 where
  pub job : x.0 ≡ nothing
  pub empty : x.1.enqueued + x.1.waiting ≡ 0
  pub all : x.1.written ≡ given b
  pub sized : x.1.size ≡ length (given b)
  pub inv : Inv x.1
  pub brief : Brief x.1

flush_done : (b : Buf) (x : Job × Buf) → Kept b x → Fine x → going x.0 ≡ false → Flushed b x
flush_done b (j, c) k f e =
    let z : (j ≡ nothing) × (c.enqueued + c.waiting ≡ 0) = ground (arith, f.answer) in
    let s : c.written ≡ given c = sym (
      ap (λ n. c.written ++ around c.mem c.tail n) z.1
      ∙ (ap (λ l. c.written ++ l) (around-none c.mem c.tail (omega (arith, k.inv.placed.tail_in)))
          ∙ append-nil c.written)) in
    record {
      job = z.0;
      empty = z.1;
      all = s ∙ k.same;
      sized = k.inv.sized ∙ ap length (s ∙ k.same);
      inv = k.inv;
      brief = k.brief;
    }

-- What a round leaves where it is not the last.
flush-round :
    (a : Answers) (n : ℕ) (c : Buf) (x : Job × Buf)
    → Works a
    → Placed c
    → Near n c
    → Prepared a c x
    → going x.0 ≡ true
    → (m : ℕ) × (n ≡ suc m) × Near m x.1
flush-round a zero c x w v near p e = absurd (ground (arith, v, p.submitted.answer))
flush-round a (suc n) c x w v near p e = (n, refl, Near-next a w n c x v near p)

module _ (answers : ℕ → Answers) (w : (k : ℕ) → Works (answers k)) (b : Buf) where
  flush_lem :
      (fuel i n : ℕ) (j : Job) (c : Buf)
      → n < fuel
      → Near n c
      → Kept b (j, c)
      → Returns (Flushed b) (flush fuel answers i c)
  unfolding flush
  flush_lem zero i n j c h near k = absurd (omega arith)
  flush_lem (suc fuel) i n j c h near k =
      Returns-bind (λ x. Kept c x × Prepared (answers i) c x) (Flushed b) _
        (λ (j', c'). if going j' then flush fuel answers (i + 1) c' else ok (j', c'))
        (queue-forced (answers i) (w i) c k.inv)
        (λ (j', c') (l, p).
          let both = Kept-step b (j, c) (j', c') k l in
          let f = Prepared-Fine (answers i) (w i) c (j', c') p in
          Returns-if (Flushed b) (going j') _ _
            (λ t.
              let (m, e, near') =
                flush-round (answers i) n c (j', c') (w i) k.inv.placed near p t in
              flush_lem fuel (i + 1) m j' c' (omega arith) near' both)
            (λ t. flush_done b (j', c') both f t))

-- `s_flush` ends, after four rounds at most, with nothing left in the buffer, and the file then holds
-- exactly the bytes that were given to the buffer, in order, and is as long as they are. It is taken for
-- granted that the buffer is in order and that the system writes what it is asked to.
pub flush-Flushed :
    (fuel : ℕ) (answers : ℕ → Answers) (b : Buf)
    → 4 ≤ fuel
    → ((k : ℕ) → Works (answers k))
    → Inv b
    → Brief b
    → Returns (Flushed b) (flush fuel answers 0 b)
flush-Flushed fuel answers b h w v br =
    flush_lem answers w b fuel 0 3 nothing b (omega arith) tt
      (record { inv = v; same = refl; brief = br; less = omega arith })

-- A buffer after `s_init_aiobuf`, or after `s_close_aiobuf`.
abbrev pub empty_buf : Memory → Buf
empty_buf m = record {
  mem = m;
  cur = 0;
  tail = 0;
  waiting = 0;
  enqueued = 0;
  size = 0;
  aio_offset = 0;
  aio_buf = 0;
  aio_nbytes = 0;
  written = [];
}

pub empty_buf-Inv : (m : Memory) → Inv (empty_buf m)
empty_buf-Inv m = record {
  placed = record {
    cur_in = omega arith;
    tail_in = omega arith;
    end_in = omega arith;
    place = inl (omega arith);
    full = omega arith;
    idle = inr (omega arith);
  };
  asked = inl refl;
  sized = refl;
}

-- `s_try_queue_aiobuf` for each of a list of frames.
pub append_all : ℕ → (ℕ → ℕ → Answers) → List (List ℕ) → Buf → Outcome Buf
append_all fuel answers [] b = ok b
append_all fuel answers (bs ∷ frames) b =
    try_queue fuel (answers 0) bs b >>= (λ x. append_all fuel (λ k. answers (k + 1)) frames x.1)

abbrev pub concat : List (List ℕ) → List ℕ
concat [] = []
concat (bs ∷ frames) = bs ++ concat frames

-- Neither empty nor longer than the longest frame.
abbrev pub Sendable : List ℕ → Type 0
Sendable bs = (0 < length bs) × (length bs ≤ mtu)

-- What a run of frames leaves.
pub record Stored (b : Buf) (frames : List (List ℕ)) (c : Buf) : Type 0 where
  pub inv : Inv c
  pub brief : Brief c
  pub room : has_room c ≡ true
  pub same : given c ≡ given b ++ concat frames

append_all-Stored :
    (fuel : ℕ) (answers : ℕ → ℕ → Answers) (frames : List (List ℕ)) (b : Buf)
    → 3 ≤ fuel
    → ((i k : ℕ) → Works (answers i k))
    → All Sendable frames
    → Inv b
    → Brief b
    → has_room b ≡ true
    → Returns (Stored b frames) (append_all fuel answers frames b)
unfolding append_all
append_all-Stored fuel answers [] b h w s v br r = record {
  inv = v;
  brief = br;
  room = r;
  same = sym (append-nil (given b));
}
append_all-Stored fuel answers (bs ∷ frames) b h w s v br r =
    Returns-bind (Added b bs) (Stored b (bs ∷ frames)) (try_queue fuel (answers 0) bs b)
      (λ x. append_all fuel (λ k. answers (k + 1)) frames x.1)
      (try_queue-Added fuel (answers 0) b bs h (w 0) v br r s.0.0 s.0.1)
      (λ x a.
        Returns-mono (Stored x.1 frames) (Stored b (bs ∷ frames)) _
          (append_all-Stored fuel (λ k. answers (k + 1)) frames x.1 h (λ i. w (i + 1)) s.1 a.inv
            a.brief a.room)
          (λ c d. record {
            inv = d.inv;
            brief = d.brief;
            room = d.room;
            same =
                d.same
                ∙ (ap (λ l. l ++ concat frames) a.same ∙ append_assoc (given b) bs (concat frames));
          }))

-- A file opened anew, given any frames by `s_try_queue_aiobuf` and then flushed, holds these frames one
-- after the other, whatever batches they were written in and however often they went around the end of
-- the buffer. No assertion fails, and both loops end. It is taken for granted that no frame is empty or
-- longer than the longest frame, and that the system writes what it is asked to.
pub flush-append_all :
    (fuel : ℕ) (answers : ℕ → ℕ → Answers) (last : ℕ → Answers) (frames : List (List ℕ))
    (m : Memory)
    → 4 ≤ fuel
    → ((i k : ℕ) → Works (answers i k))
    → ((k : ℕ) → Works (last k))
    → All Sendable frames
    → Returns
        (λ x. (x.0 ≡ nothing) × (x.1.written ≡ concat frames) × (x.1.size ≡ length (concat frames)))
        (append_all fuel answers frames (empty_buf m) >>= (λ b. flush fuel last 0 b))
flush-append_all fuel answers last frames m h w l s =
    let e : given (empty_buf m) ≡ [] = around-none m 0 (omega arith) in
    Returns-bind (Stored (empty_buf m) frames) _ (append_all fuel answers frames (empty_buf m))
      (λ b. flush fuel last 0 b)
      (append_all-Stored fuel answers frames (empty_buf m) (omega arith) w s (empty_buf-Inv m)
        (inr (omega arith)) (ground arith))
      (λ b d. Returns-mono (Flushed b) _ _ (flush-Flushed fuel last b h l d.inv d.brief) (λ x f.
        let all : given b ≡ concat frames = d.same ∙ ap (λ k. k ++ concat frames) e in
        (f.job, f.all ∙ all, f.sized ∙ ap length all)))
