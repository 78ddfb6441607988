-- ===== src/Avgtr.antt =====
-- src/bin/tesd_task_avgtr.c: the task that records one average trace for a client who asks for it.
-- `replies` holds the messages to the client and `ended` the timers cancelled, the last one first.
pub mod Replies
pub mod Recording
use tes_0mq.Base.{
  ℕ, ◌+◌, ◌-◌, ◌*◌, ◌%◌, ◌^◌, Bool, true, false, not, ◌&&◌, ltb, leb, ◌==◌, if◌then◌else◌, Outcome,
  ok, abort, hang, ◌>>=◌, ◌>>◌, check, List, [], ◌∷◌, Option, none, some,
}
use tes_0mq.Packet.{Packet, is_trace_avg, is_header, pseq, trace_size, hdr_len, bytes}
use tes_0mq.Packet.Valid.{Errs, any}
use tes_0mq.Memory.{Memory, copy, read}
use tes_0mq.Ring.{Ring}
use tes_0mq.Task.{Task, Handlers, PktFn, Rc, fine, sleep, error, activate, deactivate}

abbrev pub avgtr_maxsize : ℕ
avgtr_maxsize = 65528

-- TES_AVGTR_REQ_OK with the trace, and TES_AVGTR_REQ_EINV, ETOUT and EERR.
pub data Reply : Type 0 where
  trace : List ℕ → Reply
  malformed timed_out dropped : Reply

pub record Avgtr : Type 0 where
  pub timer : ℕ
  pub size : ℕ
  pub cur_size : ℕ
  pub recording : Bool
  pub buf : Memory
  pub replies : List Reply
  pub ended : List ℕ

-- (uint16_t)(flen - TESPKT_HDR_LEN)
abbrev pub paylen : ℕ → ℕ
paylen fl = (fl + 2 ^ 16 - hdr_len) % 2 ^ 16

pub start : Packet → Avgtr → Avgtr
start p d =
    if not d.recording && is_header p then record d { recording = true; size = trace_size p } else d

-- From the label `done`: the timer is cancelled, the reply sent and the state reset.
pub finish : Reply → Avgtr → Avgtr
finish reply d = record d {
  recording = false;
  cur_size = 0;
  size = 0;
  replies = reply ∷ d.replies;
  ended = d.timer ∷ d.ended;
}

-- The bound is computed in 32 bits unsigned.
pub append : Packet → ℕ → Avgtr → Outcome (Rc × Avgtr)
append p fl d =
    let d' = record d {
      buf = copy d.buf d.cur_size (bytes p hdr_len (paylen fl));
      cur_size = (d.cur_size + paylen fl) % 2 ^ 16;
    } in
    check (leb d.cur_size ((2 ^ 32 + avgtr_maxsize - paylen fl) % 2 ^ 32))
    >> ok (
        if d'.cur_size == d'.size
        then (sleep, finish (trace (read d'.buf 0 d'.size)) d')
        else (fine, d'))

-- A frame while a trace is recorded; `prev` is `prev_pseq_tr`, of the last trace frame before it.
pub receive : ℕ → Packet → ℕ → Errs → Avgtr → Outcome (Rc × Avgtr)
receive prev p fl err d =
    if any err
    then ok (sleep, finish dropped d)
    else if ltb 0 d.cur_size && not ((pseq p + 2 ^ 16 - prev) % 2 ^ 16 == 1)
    then ok (sleep, finish dropped d)
    else append p fl d

pub step : ℕ → Packet → ℕ → Errs → Avgtr → Outcome (Rc × Avgtr)
step prev p fl err d =
    let d1 = start p d in
    if is_trace_avg p
    then if d1.recording then receive prev p fl err d1 else ok (fine, d1)
    else ok (fine, d)

pub pkt_hn : PktFn Avgtr
pkt_hn p fl missed err t =
    step t.prev_pseq_tr p fl err t.dat >>= (λ (rc, d). ok (rc, record t { dat = d }))

pub handlers : Handlers Avgtr
handlers = record { pkt_handler = pkt_hn; data_wakeup = none; data_sleep = none }

abbrev pub say : Reply → Task Avgtr → Task Avgtr
say reply t = record t { dat = record (t.dat) { replies = reply ∷ (t.dat).replies } }

module _ (reader_ok : ℕ → Bool) where
  -- The status of `task_deactivate` is dropped.
  pub timeout_hn : Task Avgtr → Outcome (Task Avgtr)
  timeout_hn t = deactivate handlers reader_ok t >>= (λ x. ok (say timed_out x.1))

module _ (rings : ℕ → Ring) (start_timer : ℕ → Option ℕ) where
  abbrev wake : ℕ → Task Avgtr → Outcome (Rc × Task Avgtr)
  wake tid t =
      check (not (t.dat).recording)
      >> (activate handlers rings (record t { dat = record (t.dat) { timer = tid } })
          >>= (λ x. ok (fine, x.1)))

  -- The timeout that `zsock_recv` has read; `start_timer` is `zloop_timer`, by milliseconds.
  pub req_hn : ℕ → Task Avgtr → Outcome (Rc × Task Avgtr)
  req_hn timeout t =
      if timeout == 0
      then ok (fine, say malformed t)
      else elim (start_timer (1000 * timeout % 2 ^ 32)) [
        | none ↦ ok (error, t)
        | some tid ↦ wake tid t
      ]
