-- ===== src/Capture/Frames/Turns.antt =====
-- How a frame stands to the stream that is being received, as `task_cap_pkt_hn` tells it.
use tes_0mq.Base.{ℕ, ◌<◌, ◌≡◌, sym, inl, inr, true, false, not, ◌&&◌, ◌||◌, ◌==◌, arith, Bool-cases}
use tes_0mq.Packet.{Packet, is_event, is_header, is_mca, is_tick, is_trace, is_trace_long}
use tes_0mq.Capture.{Stream}
use tes_0mq.Capture.Frames.{choose, continues, starts, interrupts, started, may_interrupt}
use tes_0mq.Capture.Frames.Aside.{stream_file, choose-trace, choose-mca}

pub interrupted :
    (p : Packet) (missed : ℕ) (c : Stream)
    → interrupts p missed c ≡ true
    → (starts p c ≡ false) × (continues p missed c ≡ false)
unfolding interrupts starts
interrupted p missed c h = ground arith

pub not_tick : (p : Packet) → (is_mca p || is_trace_long p) ≡ true → is_tick p ≡ false
unfolding is_mca is_trace_long is_trace is_event is_tick
not_tick p h = ground arith

pub starting :
    (p : Packet) (c : Stream)
    → starts p c ≡ true
    → ((is_trace_long p || is_mca p) ≡ true) × (c.size ≡ 0)
unfolding starts
starting p c h = ground arith

pub started-file :
    (p : Packet) (at : ℕ) (c : Stream)
    → (is_trace_long p || is_mca p) ≡ true
    → stream_file (started p at c) ≡ choose false p
unfolding started choose
started-file p at c k = elim (Bool-cases (is_trace_long p)) [
  | inl t ↦ rw t (sym (choose-trace p t))
  | inr f ↦ rw f (sym (choose-mca p (ground arith)))
]

pub continuing :
    (p : Packet) (missed : ℕ) (c : Stream)
    → continues p missed c ≡ true
    → (starts p c ≡ false)
      × ((is_trace_long p || is_mca p) ≡ true)
      × (0 < c.size)
      × ((missed == 0) ≡ true)
unfolding continues starts
continuing p missed c h = ground arith

pub continuing-file :
    (p : Packet) (missed : ℕ) (c : Stream)
    → continues p missed c ≡ true
    → stream_file c ≡ choose false p
unfolding continues
continuing-file p missed c h = elim (Bool-cases c.is_event) [
  | inl t ↦ rw t (sym (choose-trace p (ground arith)))
  | inr f ↦ rw f (sym (choose-mca p (ground arith)))
]

pub left_alone :
    (p : Packet) (missed : ℕ) (c : Stream)
    → continues p missed c ≡ false
    → interrupts p missed c ≡ false
    → c.size ≡ 0
unfolding interrupts
left_alone p missed c co i = ground arith

pub no_header :
    (p : Packet) (c : Stream)
    → starts p c ≡ false
    → (is_trace_long p || is_mca p) ≡ true
    → c.size ≡ 0
    → (not (is_header p) && c.size == 0) ≡ true
unfolding starts
no_header p c st k z = ground arith

pub interrupting :
    (p : Packet) (missed : ℕ) (c : Stream)
    → interrupts p missed c ≡ true
    → may_interrupt p missed c ≡ true
unfolding interrupts continues may_interrupt
interrupting p missed c i = ground arith
