-- ===== src/Tests/Avgtr.antt =====
-- The theorems on the average trace task at concrete frames.
use tes_0mq.Base.{◌≡◌, refl, true, false, arith, abort, Returns, [], ◌∷◌, some}
use tes_0mq.Packet.{
  flen, esize, pseq, is_event, is_header, is_trace, is_trace_avg, is_trace_dp, is_tick, is_peak,
  is_area, etype_t, etype_pkt, etype_tr, trace_size, payloads,
}
use tes_0mq.Packet.Valid.{is_valid}
use tes_0mq.Ring.{Ring}
use tes_0mq.Task.{Task, Frontend}
use tes_0mq.Avgtr.{Avgtr, timeout_hn, req_hn}
use tes_0mq.Avgtr.Replies.{timeout_then_request_aborts}
use tes_0mq.Avgtr.Recording.{Replied, Continues, run, run_replies}
use tes_0mq.Tests.Frames.{avg_header, avg_rest, peak_frame}

-- A request is there, with timer 3.
abbrev asked : Avgtr
asked = record {
  timer = 3;
  size = 0;
  cur_size = 0;
  recording = false;
  buf = λ i. 0;
  replies = [];
  ended = [];
}

-- The header has been received.
abbrev begun : Avgtr
begun = record asked { recording = true; size = 24; cur_size = 16 }

abbrev frontend : Frontend
frontend = record { handler = true; automute = true; nsubs = 0; reading = false }

abbrev task : Task Avgtr
task = record {
  dat = begun;
  frontends = frontend ∷ [];
  heads = λ k. 0;
  prev_fseq = 8;
  prev_pseq_mca = 0;
  prev_pseq_tr = 0;
  just_activated = false;
  failed = false;
  busy = false;
  active = true;
}

abbrev ring : Ring
ring = record { num_slots = 8; head = 0; cur = 0; tail = 1; buf = λ i. peak_frame; len = λ i. 40 }

timeout_then_request_aborts_example :
    Returns
      (λ t'. ((t'.dat).recording ≡ true) × (req_hn (λ k. ring) (λ ms. some 4) 10 t' ≡ abort))
      (timeout_hn (λ i. true) task)
timeout_then_request_aborts_example =
    timeout_then_request_aborts (λ i. true) (λ k. ring) (λ ms. some 4) 4 10 task frontend refl refl
      refl (omega arith) refl

run_replies_example :
    Returns
      (Replied [] (payloads (avg_header ∷ avg_rest ∷ [])))
      (run 0 (avg_header ∷ avg_rest ∷ []) asked)
unfolding flen pseq esize is_event is_header is_trace is_trace_avg is_trace_dp is_tick is_peak
    is_area etype_t etype_pkt etype_tr trace_size is_valid Continues
run_replies_example =
    run_replies 0 avg_header (avg_rest ∷ []) asked refl refl refl refl refl (omega arith)
      (omega arith) (refl, refl, refl, omega arith, refl)
