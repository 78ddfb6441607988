-- ===== src/Tests/Task.antt =====
-- The theorems on tasks at concrete rings and tasks.
use tes_0mq.Base.{
  ℕ, ◌+◌, ◌≡◌, refl, inr, true, false, ◌==◌, if◌then◌else◌, none, arith, ok, Ends, [], ◌∷◌,
}
use tes_0mq.Packet.{Packet, fseq}
use tes_0mq.Ring.{Ring}
use tes_0mq.Task.{Task, Handlers, Frontend, fine}
use tes_0mq.Task.Scan.{next_ring}
use tes_0mq.Task.Scan.Nearest.{Nearest, next_ring-Nearest}
use tes_0mq.Task.Scan.First.{next_ring_stalls}
use tes_0mq.Task.Signal.{sig_hn, wakeup}
use tes_0mq.Task.Signal.Settles.{Settled, sig_hn-Settled}
use tes_0mq.Tests.Frames.{tick_frame, peak_frame}

-- A task that counts its frames.
abbrev counting : Handlers ℕ
counting = record {
  pkt_handler = λ p len missed err t. ok (fine, record t { dat = t.dat + 1 });
  data_wakeup = none;
  data_sleep = none;
}

-- One frame in a ring of eight slots.
abbrev holding : Packet → Ring
holding p = record { num_slots = 8; head = 0; cur = 0; tail = 1; buf = λ i. p; len = λ i. 2048 }

abbrev empty : Ring
empty = record {
  num_slots = 8;
  head = 1;
  cur = 1;
  tail = 1;
  buf = λ i. peak_frame;
  len = λ i. 2048;
}

-- A tick (sequence 7) in ring 2, a peak (sequence 8) in the others.
abbrev rings : ℕ → Ring
rings k = if k == 2 then holding tick_frame else holding peak_frame

-- The same with nothing in ring 0.
abbrev rings_without_0 : ℕ → Ring
rings_without_0 k = if k == 0 then empty else rings k

abbrev frontend : Frontend
frontend = record { handler = true; automute = true; nsubs = 2; reading = true }

abbrev idle : Task ℕ
idle = record {
  dat = 0;
  frontends = frontend ∷ [];
  heads = λ k. 0;
  prev_fseq = 6;
  prev_pseq_mca = 0;
  prev_pseq_tr = 0;
  just_activated = false;
  failed = false;
  busy = false;
  active = true;
}

abbrev woken : Task ℕ
woken = record idle { just_activated = true; heads = λ k. if k == 0 then 1 else 0 }

next_ring-Nearest_example :
    ((next_ring rings idle).0 ≡ idle)
    × Nearest rings idle (next_ring rings idle).1 (next_ring rings idle).2
next_ring-Nearest_example = next_ring-Nearest rings idle refl

next_ring_stalls_example :
    ((next_ring rings_without_0 woken).1 ≡ none) × ((next_ring rings_without_0 woken).0 ≡ woken)
unfolding fseq
next_ring_stalls_example =
    next_ring_stalls rings_without_0 woken refl refl
      (inr (omega arith), inr (omega arith), inr (omega arith))

sig_hn-Settled_example :
    Ends
      (λ x. Settled counting (λ i. true) (λ r. holding peak_frame) x.1 × (x.1.busy ≡ false))
      (sig_hn counting (λ i. true) (λ r. holding peak_frame) wakeup idle)
sig_hn-Settled_example =
    sig_hn-Settled counting (λ i. true) (λ r. holding peak_frame) (λ p len missed e t k. refl)
      (λ d. tt) (λ k lt. (omega arith, omega arith)) idle (λ k lt. omega arith) refl refl
