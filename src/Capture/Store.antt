-- ===== src/Capture/Store.antt =====
-- The files of a job as buffers of `tesd_task_cap.c`, which are `Faithful` where every write succeeds.
use tes_0mq.Base.{
  ℕ, ◌+◌, ◌<◌, ◌≤◌, ◌≡◌, inl, inr, Bool, true, false, ◌==◌, if◌then◌else◌, arith, Outcome, ok,
  ◌>>=◌, Returns, Returns-bind, List, [], length, length-append, Bool-cases, ==-refl,
}
use tes_0mq.Packet.{mtu}
use tes_0mq.Capture.{
  Dset, fidx, midx, tidx, ridx, bdat, mdat, tdat, edat, dset_no, Files, Added, Faithful,
}
use tes_0mq.Capture.Buffer.{Answers, Job, failed, short, Buf, has_room, try_queue, flush}
use tes_0mq.Capture.Buffer.Order.{Inv, Brief, given}
use tes_0mq.Capture.Buffer.Cyclic.{around, around-none, length-around}
use tes_0mq.Capture.Buffer.Rounds.{Works}
use tes_0mq.Capture.Buffer.Append.{try_queue-Added}
use tes_0mq.Capture.Buffer.Append as Append
use tes_0mq.Capture.Buffer.Flush.{empty_buf, empty_buf-Inv, Flushed, flush-Flushed}

-- `aio` of `struct s_data_t`, and how many calls were made so far.
pub record Bufs : Type 0 where
  pub aio : Dset → Buf
  pub calls : ℕ

-- `jobrc < 0`
abbrev pub is_error : Job → Bool
is_error failed = true
is_error short = true
is_error _ = false

abbrev pub with_buf : Dset → Buf → Bufs → Bufs
with_buf d b s = record {
  aio = λ k. if dset_no k == dset_no d then b else s.aio k;
  calls = s.calls + 1;
}

-- The answers of the system by call, and by round in a call.
module _ (fuel : ℕ) (answers : ℕ → ℕ → Answers) where
  pub put_buf : Dset → List ℕ → Bufs → Outcome (Bool × Bufs)
  put_buf d bs s =
      try_queue fuel (answers s.calls) bs (s.aio d) >>= (λ (j, b). ok (is_error j, with_buf d b s))

  -- One file of `s_flush`, and all of them.
  pub flush_buf : Dset → Bufs → Outcome Bufs
  flush_buf d s = flush fuel (answers s.calls) 0 (s.aio d) >>= (λ (j, b). ok (with_buf d b s))

  pub flush_bufs : Bufs → Outcome Bufs
  flush_bufs s = flush_buf fidx s >>= (λ s. flush_buf midx s >>= (λ s. flush_buf tidx s >>= (λ s.
      flush_buf ridx s >>= (λ s.
        flush_buf bdat s
        >>= (λ s. flush_buf mdat s >>= (λ s. flush_buf tdat s >>= (λ s. flush_buf edat s)))))))

-- `s_close`, where the files were opened.
pub close_bufs : Bufs → Bufs
close_bufs s = record { aio = λ k. empty_buf (s.aio k).mem; calls = s.calls }

-- `stats_write` and `conv_data` are what the functions of these names return.
abbrev pub buf_files : ℕ → (ℕ → ℕ → Answers) → (Bufs → ℕ) → (Bufs → ℕ) → Files Bufs
buf_files fuel answers stats_write conv_data = record {
  put = put_buf fuel answers;
  offset = λ d s. (s.aio d).size + (s.aio d).waiting + (s.aio d).enqueued;
  flush = flush_bufs fuel answers;
  close = close_bufs;
  stats_write = stats_write;
  conv_data = conv_data;
}

-- Each buffer is in order and has room for a whole frame.
pub record GoodBuf (b : Buf) : Type 0 where
  pub inv : Inv b
  pub brief : Brief b
  pub room : has_room b ≡ true

abbrev pub GoodBufs : Bufs → Type 0
GoodBufs s = (d : Dset) → GoodBuf (s.aio d)

pub with_buf-GoodBufs :
    (d : Dset) (b : Buf) (s : Bufs) → GoodBufs s → GoodBuf b → GoodBufs (with_buf d b s)
with_buf-GoodBufs d b s g h k = elim (Bool-cases (dset_no k == dset_no d)) [
  | inl e ↦ rw e h
  | inr e ↦ rw e (g k)
]

pub close_bufs-GoodBufs : (s : Bufs) → GoodBufs (close_bufs s)
unfolding close_bufs
close_bufs-GoodBufs s d = record {
  inv = empty_buf-Inv (s.aio d).mem;
  brief = inr (omega arith);
  room = ground arith;
}

pub content-close_bufs : (d : Dset) (s : Bufs) → given ((close_bufs s).aio d) ≡ []
unfolding close_bufs
content-close_bufs d s = around-none (s.aio d).mem 0 (omega arith)

pub length-given : (b : Buf) → Inv b → b.size + b.waiting + b.enqueued ≡ length (given b)
length-given b v = omega (
  arith,
  v.sized,
  length-append b.written (around b.mem b.tail (b.enqueued + b.waiting)),
  length-around b.mem b.tail (b.enqueued + b.waiting) (omega (arith, v.placed.tail_in)),
)

module _ (fuel : ℕ) (answers : ℕ → ℕ → Answers) (h : 4 ≤ fuel)
    (w : (i k : ℕ) → Works (answers i k)) where
  -- Where every write succeeds and each buffer is in order with room for a whole frame, a call of
  -- `s_try_queue_aiobuf` with bytes that are not empty and not longer than the longest frame adds them to the
  -- end of what was given to its own file and leaves the other files alone, without an error, and each
  -- buffer is in order with room for a whole frame again.
  pub put_buf-Added :
      (d : Dset) (bs : List ℕ) (s : Bufs)
      → GoodBufs s
      → 0 < length bs
      → length bs ≤ mtu
      → Returns
          (λ (e, s'). (e ≡ false) × GoodBufs s' × Added (λ k t. given (t.aio k)) d bs s s')
          (put_buf fuel answers d bs s)
  unfolding put_buf
  put_buf-Added d bs s g pos le =
      Returns-bind (Append.Added (s.aio d) bs) _ (try_queue fuel (answers s.calls) bs (s.aio d))
        (λ (j, b). ok (is_error j, with_buf d b s))
        (try_queue-Added fuel (answers s.calls) (s.aio d) bs (omega arith) (w s.calls) (g d).inv
          (g d).brief (g d).room pos le)
        (λ (j, b) a. (
          ground (arith, a.no_error),
          with_buf-GoodBufs d b s g (record { inv = a.inv; brief = a.brief; room = a.room }),
          record { here = rw (==-refl (dset_no d)) a.same; elsewhere = λ k e. rw e },
        ))

  flush_buf-GoodBufs :
      (d : Dset) (s : Bufs) → GoodBufs s → Returns GoodBufs (flush_buf fuel answers d s)
  unfolding flush_buf
  flush_buf-GoodBufs d s g =
      Returns-bind (Flushed (s.aio d)) GoodBufs (flush fuel (answers s.calls) 0 (s.aio d))
        (λ (j, b). ok (with_buf d b s))
        (flush-Flushed fuel (answers s.calls) (s.aio d) h (w s.calls) (g d).inv (g d).brief)
        (λ (j, b) f.
          with_buf-GoodBufs d b s g
            (record { inv = f.inv; brief = f.brief; room = ground (arith, f.empty) }))

  flush_then :
      (d : Dset) (s : Bufs) (m : Bufs → Outcome Bufs)
      → GoodBufs s
      → ((s : Bufs) → GoodBufs s → Returns GoodBufs (m s))
      → Returns GoodBufs (flush_buf fuel answers d s >>= m)
  flush_then d s m g k =
      Returns-bind GoodBufs GoodBufs (flush_buf fuel answers d s) m (flush_buf-GoodBufs d s g) k

  pub flush_bufs-GoodBufs : (s : Bufs) → GoodBufs s → Returns GoodBufs (flush_bufs fuel answers s)
  unfolding flush_bufs
  flush_bufs-GoodBufs s g = flush_then fidx s _ g (λ s g. flush_then midx s _ g (λ s g.
      flush_then tidx s _ g (λ s g. flush_then ridx s _ g (λ s g. flush_then bdat s _ g (λ s g.
        flush_then mdat s _ g
          (λ s g. flush_then tdat s _ g (λ s g. flush_buf-GoodBufs edat s g)))))))

  -- The buffers keep the promise that the packet handler relies on.
  abbrev pub faithful_bufs :
      (stats_write conv_data : Bufs → ℕ) → Faithful (buf_files fuel answers stats_write conv_data)
  faithful_bufs stats_write conv_data = record {
    Good = GoodBufs;
    content = λ k t. given (t.aio k);
    put-Added = put_buf-Added;
    offset-length = λ d s g. length-given (s.aio d) (g d).inv;
    flush-Good = flush_bufs-GoodBufs;
    close-Good = λ s g. close_bufs-GoodBufs s;
    content-close = content-close_bufs;
  }
