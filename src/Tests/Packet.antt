-- ===== src/Tests/Packet.antt =====
-- The theorems on tespkt.h at concrete frames.
use tes_0mq.Base.{◌↔◌, ◌+◌, ◌≤◌, ◌≡◌, refl, true, arith}
use tes_0mq.Packet.{
  etype_t, etype_pkt, is_tick, is_peak, flen, esize, true_esize, event_nums, ehdr, is_event,
  is_trace,
}
use tes_0mq.Packet.Kinds.{Agrees, kind, kind-Agrees, tick}
use tes_0mq.Packet.Valid.{Errs, no_errs, is_valid}
use tes_0mq.Packet.Valid.Spec.{is_valid_iff, WellFormed}
use tes_0mq.Packet.Events.{ehdr_in_frame}
use tes_0mq.Tests.Frames.{tick_frame, peak_frame}

kind-Agrees_example : Agrees tick_frame tick
unfolding kind is_event etype_t
kind-Agrees_example = kind-Agrees tick_frame

is_valid_iff_example : (is_valid tick_frame ≡ no_errs) ↔ WellFormed tick_frame tick
unfolding kind is_event etype_t
is_valid_iff_example = is_valid_iff tick_frame

ehdr_in_frame_example : ehdr peak_frame 1 + 8 ≤ flen peak_frame
unfolding is_valid is_event is_trace event_nums is_tick etype_t is_peak etype_pkt flen esize
    true_esize
ehdr_in_frame_example = ehdr_in_frame peak_frame 2 1 refl refl refl refl (omega arith)

-- A bad length and a bad event size.
abbrev two_errs : Errs
two_errs = record no_errs { eth_len = true; evt_size = true }
