-- ===== src/Tests/Capture.antt =====
-- The theorems on the buffers and the requests of the capture task at concrete inputs.
use tes_0mq.Base.{
  ℕ, ◌≡◌, refl, inl, inr, true, false, arith, abort, ◌>>=◌, Returns, List, [], ◌∷◌, length,
}
use tes_0mq.Capture.{no_stats, no_stream, no_tick}
use tes_0mq.Capture.Buffer.{
  pending, complete, broken, wrote, Answers, nothing, Buf, queue, try_queue, flush,
}
use tes_0mq.Capture.Buffer.Order.{Inv, Kept}
use tes_0mq.Capture.Buffer.Queue.{queue-Kept}
use tes_0mq.Capture.Buffer.Rounds.{Works}
use tes_0mq.Capture.Buffer.Flush.{empty_buf, empty_buf-Inv, append_all, flush-append_all}
use tes_0mq.Capture.Buffer.Failing.{try_queue-fails}
use tes_0mq.Capture.Store.{Bufs, GoodBufs}
use tes_0mq.Capture.Request.{Req, System, is_req_valid, may_open, req_hn}
use tes_0mq.Capture.Request as Request
use tes_0mq.Capture.Request.Kinds.{Agrees, is_req_valid-Agrees}
use tes_0mq.Capture.Request.Reactions.{Idle, req_hn-stale}

-- The system writes what it is asked to.
abbrev pub writes : Answers
writes = record {
  status = pending;
  suspended = true;
  after = complete;
  returned = wrote;
  accepted = true;
}

pub writes-Works : Works writes
writes-Works = record {
  status = inl refl;
  suspended = refl;
  after = refl;
  returned = λ n. refl;
  accepted = refl;
}

abbrev two_frames : List (List ℕ)
two_frames = (1 ∷ 2 ∷ []) ∷ (3 ∷ []) ∷ []

flush-append_all_example :
    Returns
      (λ x.
        (x.0 ≡ nothing)
        × (x.1.written ≡ 1 ∷ 2 ∷ 3 ∷ [])
        × (x.1.size ≡ length {A = ℕ} (1 ∷ 2 ∷ 3 ∷ [])))
      (append_all 4 (λ i k. writes) two_frames (empty_buf (λ i. 0))
        >>= (λ b. flush 4 (λ k. writes) 0 b))
flush-append_all_example =
    flush-append_all 4 (λ i k. writes) (λ k. writes) two_frames (λ i. 0) (omega arith)
      (λ i k. writes-Works) (λ k. writes-Works) (omega arith)

-- Two bytes are being written, and a third waits.
abbrev busy : Buf
busy = record {
  mem = λ i. i;
  cur = 3;
  tail = 0;
  waiting = 1;
  enqueued = 2;
  size = 0;
  aio_offset = 0;
  aio_buf = 0;
  aio_nbytes = 2;
  written = [];
}

busy-Inv : Inv busy
busy-Inv = record {
  placed = record {
    cur_in = omega arith;
    tail_in = omega arith;
    end_in = omega arith;
    place = inl (omega arith);
    full = omega arith;
    idle = inl (omega arith);
  };
  asked = inr (refl, refl, refl);
  sized = refl;
}

queue-Kept_example : Returns (Kept busy) (queue writes true busy)
queue-Kept_example = queue-Kept writes true busy busy-Inv (inl refl) tt

-- The buffer is nearly full, and the write of it fails.
abbrev failing : Answers
failing = record writes { status = broken }

abbrev full : Buf
full = record busy { cur = 10484260; enqueued = 10484260; waiting = 0; aio_nbytes = 10484260 }

try_queue-fails_example : try_queue 3 (λ k. failing) (1 ∷ 2 ∷ 3 ∷ 4 ∷ 5 ∷ []) full ≡ abort
try_queue-fails_example =
    try_queue-fails 3 (λ k. failing) full (1 ∷ 2 ∷ 3 ∷ 4 ∷ 5 ∷ []) refl (omega arith) (omega arith)

abbrev pub bufs : Bufs
bufs = record { aio = λ k. empty_buf (λ i. 0); calls = 0 }

pub bufs-Good : GoodBufs bufs
bufs-Good d = record { inv = empty_buf-Inv (λ i. 0); brief = inr (omega arith); room = refl }

-- A request for the status, and one for five ticks.
abbrev status : Req
status = record {
  basefname = true;
  measurement = true;
  min_ticks = 0;
  min_events = 0;
  ovrwtmode = 1;
  capmode = 0;
}

abbrev five_ticks : Req
five_ticks = record status { min_ticks = 5 }

is_req_valid-Agrees_example : Agrees five_ticks (is_req_valid true five_ticks)
is_req_valid-Agrees_example = is_req_valid-Agrees five_ticks

-- A statistics file of which only a part can be read.
abbrev system : System
system = record {
  allocated = true;
  filenames = 0;
  conv_data = 0;
  stats_read = (4, record no_stats { ticks = 3 });
  open_files = 0;
  stat_exists = true;
  unlinked = true;
}

abbrev no_job : Request.Job
no_job = record {
  cap = record {
    st = no_stats;
    stream = no_stream;
    tick = no_tick;
    prev_esize = 0;
    prev_etype = 0;
    min_ticks = 0;
    min_events = 0;
    noconvert = false;
    recording = false;
    replies = [];
  };
  named = false;
  active = false;
}

no_job-Idle : Idle no_job
unfolding may_open
no_job-Idle = record { recording = refl; active = refl; fresh = refl }

req_hn-stale_example : (req_hn system status no_job >>= (λ j'. req_hn system five_ticks j')) ≡ abort
unfolding is_req_valid
req_hn-stale_example =
    req_hn-stale system system status five_ticks no_job no_job-Idle refl refl refl refl
      (λ e. absurd (omega arith)) (omega arith) refl refl refl
