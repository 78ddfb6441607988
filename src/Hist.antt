-- ===== src/Hist.antt =====
-- src/bin/tesd_task_hist.c: the task that puts the MCA frames of a histogram together and publishes
-- it. `sent` holds the messages that went out, the last one first; `accepts` is whether `zmq_send`
-- takes a message after those.
pub mod Assertions
pub mod Assembly
pub mod Heads
pub mod Stream
pub mod EmptyHeader
use tes_0mq.Base.{
  ℕ, ◌+◌, ◌-◌, ◌%◌, ◌^◌, Bool, true, false, not, ltb, leb, ◌==◌, if◌then◌else◌, Outcome, ok, abort,
  hang, ◌>>=◌, ◌>>◌, check, List, [], ◌∷◌, some, none,
}
use tes_0mq.Packet.{
  Packet, is_mca, is_header, pseq, mca_nbins, mca_nbins_tot, mca_size, hdr_len, bytes,
}
use tes_0mq.Packet.Valid.{Errs, any}
use tes_0mq.Memory.{Memory, copy, read}
use tes_0mq.Task.{Task, Handlers, PktFn, Rc, fine, sleep, error}

abbrev pub hist_maxsize : ℕ
hist_maxsize = 65576

pub record Hist : Type 0 where
  pub nbins : ℕ
  pub cur_nbins : ℕ
  pub size : ℕ
  pub cur_size : ℕ
  pub discard : Bool
  pub buf : Memory
  pub sent : List (List ℕ)

pub clear : Hist → Hist
clear d = record d { nbins = 0; cur_nbins = 0; size = 0; cur_size = 0; discard = false }

-- A header frame drops the histogram before it, unless that was complete.
pub reset : Hist → Hist
reset d =
    let d1 = if ltb 0 d.cur_nbins then record d { discard = true } else d in
    if d1.discard then clear d1 else d1

-- (uint16_t)(flen - TESPKT_HDR_LEN)
abbrev pub paylen : ℕ → ℕ
paylen fl = (fl + 2 ^ 16 - hdr_len) % 2 ^ 16

module _ (accepts : List (List ℕ) → List ℕ → Bool) where
  -- All bins are there: the histogram goes out.
  pub publish : Hist → Outcome (Rc × Hist)
  unfolding clear
  publish d =
      let message = read d.buf 0 d.cur_size in
      check (d.cur_size == d.size)
      >> ok (
          if accepts d.sent message
          then (fine, clear (record d { sent = message ∷ d.sent }))
          else (error, d))

  pub append : Packet → ℕ → Hist → Outcome (Rc × Hist)
  append p fl d =
      let d' = record d {
        buf = copy d.buf d.cur_size (bytes p hdr_len (paylen fl));
        cur_size = (d.cur_size + paylen fl) % 2 ^ 32;
      } in
      check (leb d.cur_size (hist_maxsize - paylen fl))
      >> (if d'.cur_nbins == d'.nbins
          then publish d'
          else check (ltb d'.cur_size d'.size) >> ok (fine, d'))

  -- From the assertion that the frame is wanted to the end of the handler.
  pub accumulate : Packet → ℕ → Hist → Outcome (Rc × Hist)
  accumulate p fl d =
      let d' = record d { cur_nbins = (d.cur_nbins + mca_nbins p) % 2 ^ 16 } in
      check (not d.discard)
      >> (if ltb d'.nbins d'.cur_nbins
          then ok (fine, record d' { discard = true })
          else append p fl d')

  pub header : Packet → ℕ → Hist → Outcome (Rc × Hist)
  header p fl d =
      let d2 = reset d in
      check (d2.nbins == 0)
      >> check (d2.size == 0)
      >> check (d2.cur_nbins == 0)
      >> check (d2.cur_size == 0)
      >> check (not d2.discard)
      >> accumulate p fl (record d2 { nbins = mca_nbins_tot p; size = mca_size p })

  -- `prev` is `prev_pseq_mca`, of the last MCA frame before this one.
  pub continuation : ℕ → Packet → ℕ → Hist → Outcome (Rc × Hist)
  continuation prev p fl d =
      if d.discard
      then ok (fine, d)
      else if (pseq p + 2 ^ 16 - prev) % 2 ^ 16 == 1
      then accumulate p fl d
      else ok (fine, record d { discard = true })

  pub step : ℕ → Packet → ℕ → Errs → Hist → Outcome (Rc × Hist)
  step prev p fl err d =
      if any err
      then ok (fine, d)
      else if is_mca p
      then if is_header p then header p fl d else continuation prev p fl d
      else ok (fine, d)

  pub pkt_hn : PktFn Hist
  pkt_hn p fl missed err t =
      step t.prev_pseq_mca p fl err t.dat >>= (λ (rc, d). ok (rc, record t { dat = d }))

-- The static data is zero, and waits for a header.
pub init : Memory → Hist
init m = record {
  nbins = 0;
  cur_nbins = 0;
  size = 0;
  cur_size = 0;
  discard = true;
  buf = m;
  sent = [];
}

pub wakeup : Hist → Outcome (Bool × Hist)
unfolding clear
wakeup d = ok (true, record (clear d) { discard = true })

pub handlers : (List (List ℕ) → List ℕ → Bool) → Handlers Hist
handlers accepts = record {
  pkt_handler = pkt_hn accepts;
  data_wakeup = some wakeup;
  data_sleep = none;
}
