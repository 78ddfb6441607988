-- ===== src/Tests/Captured.antt =====
-- The theorems on the packet handler of the capture task at concrete frames, with the buffers for files.
use tes_0mq.Base.{
  ◌%◌, ◌^◌, ap, sym, length, ◌≡◌, refl, true, false, arith, ok, Returns, List, [], ◌∷◌,
}
use tes_0mq.Packet.{
  is_event, is_trace, is_trace_dp, is_trace_long, is_header, is_mca, etype_t, etype_pkt, etype_tr,
}
use tes_0mq.Capture.{Files, Faithful, no_stats, no_stream, no_tick, Cap}
use tes_0mq.Capture.Buffer.Cyclic.{around-none}
use tes_0mq.Capture.Store.{Bufs, buf_files, faithful_bufs}
use tes_0mq.Capture.Frames.{update_stream, dropped, capture_frame, pkt_hn}
use tes_0mq.Capture.Frames.Streaming.{Countable}
use tes_0mq.Capture.Frames.Keeps.{Inv}
use tes_0mq.Capture.Frames.Captured.{Captured, capture_frame-Captured}
use tes_0mq.Capture.Frames.Over.{Handled, pkt_hn-Handled}
use tes_0mq.Capture.Frames.Job.{Arrival, Recorded, capture_all, capture_all-Recorded}
use tes_0mq.Capture.Frames.Slips.{header_lost}
use tes_0mq.Tests.Frames.{avg_header, avg_rest}
use tes_0mq.Tests.Capture.{writes, writes-Works, bufs, bufs-Good}

abbrev files : Files Bufs
files = buf_files 4 (λ i k. writes) (λ s. 0) (λ s. 0)

abbrev promise : Faithful files
promise = faithful_bufs 4 (λ i k. writes) (omega arith) (λ i k. writes-Works) (λ s. 0) (λ s. 0)

-- A capture of at least one tick, which has begun.
abbrev job : Cap
job = record {
  st = record no_stats { ticks = 1 };
  stream = no_stream;
  tick = no_tick;
  prev_esize = 0;
  prev_etype = 0;
  min_ticks = 1;
  min_events = 0;
  noconvert = true;
  recording = true;
  replies = [];
}

job-Inv : Inv files promise job bufs
job-Inv = record {
  good = bufs-Good;
  well = refl;
  at = λ h. absurd (omega arith);
  entries = ap (λ l. length l % 2 ^ 64) (sym (around-none (λ i. 0) 0 (omega arith)));
}

header-Countable : Countable files promise avg_header
unfolding is_trace_long is_trace is_trace_dp is_event etype_t etype_pkt etype_tr
header-Countable m t l = absurd (cc)

capture_frame-Captured_example :
    Returns
      (Captured files promise avg_header 16 2 false job bufs)
      (capture_frame files 0 avg_header 16 2 false job bufs)
capture_frame-Captured_example =
    capture_frame-Captured files promise avg_header 16 2 (omega arith) (omega arith) 0 false job
      bufs job-Inv (λ b. header-Countable)

pkt_hn-Handled_example :
    Returns
      (Handled files promise avg_header 2 false job bufs)
      (pkt_hn files 0 avg_header 40 2 false job bufs)
pkt_hn-Handled_example =
    pkt_hn-Handled files promise 0 avg_header 40 2 false job bufs job-Inv (omega arith)
      (omega arith) (λ b. header-Countable)

-- The trace is whole after the second frame; a bad frame of three bytes follows.
abbrev arrivals : List Arrival
arrivals =
    record { packet = avg_header; size = 16; missed = 0; bad = false; stack = 0 }
    ∷ record { packet = avg_rest; size = 8; missed = 0; bad = false; stack = 0 }
    ∷ record { packet = avg_rest; size = 3; missed = 1; bad = true; stack = 7 }
    ∷ []

rest-Countable : Countable files promise avg_rest
unfolding is_trace_long is_trace is_trace_dp is_event etype_t etype_pkt etype_tr
rest-Countable m t l = absurd (cc)

capture_all-Recorded_example :
    Returns (Recorded files promise arrivals job bufs) (capture_all files arrivals job bufs)
capture_all-Recorded_example = capture_all-Recorded files promise arrivals job bufs job-Inv (
  (omega arith, omega arith, λ b. header-Countable),
  (
    (omega arith, omega arith, λ b. rest-Countable),
    ((omega arith, omega arith, λ b. absurd (cc)), tt),
  ),
)

-- A trace of which 100 bytes are there is interrupted by the header of the next.
abbrev halfway : Cap
halfway = record job { stream = record no_stream { size = 500; cur_size = 100; is_event = true } }

header_lost_example :
    update_stream files avg_header 16 3 halfway bufs
    ≡ ok (false, record halfway { stream = dropped halfway.stream }, bufs)
unfolding is_trace_long is_trace is_trace_dp is_event etype_t etype_pkt etype_tr is_mca is_header
header_lost_example = header_lost files avg_header 16 3 halfway bufs refl (omega arith) refl refl
