-- ===== src/Capture/Frames/Slips.antt =====
-- Where `task_cap_pkt_hn` does not do what its comments say.
use tes_0mq.Base.{ℕ, ◌<◌, ◌≤◌, ◌≡◌, true, false, ◌||◌, arith, ok}
use tes_0mq.Packet.{Packet, is_header, is_mca, is_tick, is_trace_long, esize}
use tes_0mq.Capture.{Files, Cap}
use tes_0mq.Capture.Frames.{
  is_changed, note_event, continues, starts, interrupts, dropped, stream_ok, may_interrupt,
  follow_stream, update_stream,
}

-- A header frame of a trace or a histogram that arrives while another stream is not complete interrupts
-- it, and does not start its own: nothing is written to the indices, no stream is being received after it,
-- and the frames that continue it are discarded.
pub header_lost :
    {S : Type 0} (F : Files S) (p : Packet) (n missed : ℕ) (d : Cap) (s : S)
    → stream_ok d.stream ≡ true
    → 0 < d.stream.size
    → is_header p ≡ true
    → (is_mca p || is_trace_long p) ≡ true
    → update_stream F p n missed d s ≡ ok (false, record d { stream = dropped d.stream }, s)
unfolding update_stream follow_stream interrupts continues starts may_interrupt
header_lost F p n missed d s w pos h k = ground arith

-- The size of an event is kept in eight bits and compared with sixteen: after any event frame, an event
-- frame of 256 units or more is marked as different from the one before, also where the two are alike.
pub always_changed :
    (p q : Packet) (d : Cap)
    → is_mca p ≡ false
    → is_tick p ≡ false
    → 1 < d.st.frames
    → 256 ≤ esize p
    → is_changed false p (note_event q d) ≡ true
unfolding is_changed note_event
always_changed p q d m t f e = ground arith
