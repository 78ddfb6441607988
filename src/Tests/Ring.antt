-- ===== src/Tests/Ring.antt =====
-- The theorems on the rings at a concrete ring.
use tes_0mq.Base.{◌+◌, ◌≡◌, arith}
use tes_0mq.Ring.{Ring, pending, done, total, next_buf, release_done_buf}
use tes_0mq.Ring.Window.{InWindow, steps_on, releases_done, here, next, Reach-InWindow}
use tes_0mq.Ring.Desc.{Desc, IsDesc}
use tes_0mq.Tests.Frames.{peak_frame}

-- Four of eight slots, the first of them done.
abbrev ring : Ring
ring = record { num_slots = 8; head = 6; cur = 7; tail = 2; buf = λ i. peak_frame; len = λ i. 40 }

ring-InWindow : InWindow ring
ring-InWindow = record {
  slots_32 = omega arith;
  head_in = omega arith;
  cur_in = omega arith;
  tail_in = omega arith;
  order = omega arith;
}

Reach-InWindow_example :
    InWindow (release_done_buf (next_buf ring).0)
    × (done (release_done_buf (next_buf ring).0) + pending (release_done_buf (next_buf ring).0)
        ≡ total (release_done_buf (next_buf ring).0))
Reach-InWindow_example =
    Reach-InWindow ring-InWindow (next (next here (steps_on (omega arith))) releases_done)

-- Rings 2 to 5, of which the second is current.
abbrev desc : Desc
desc = record { first_rx = 2; last_rx = 5; cur_rx = 3 }

desc-IsDesc : IsDesc desc
desc-IsDesc = record {
  ordered = omega arith;
  last_16 = omega arith;
  cur_low = omega arith;
  cur_high = omega arith;
}
