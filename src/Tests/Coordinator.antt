-- ===== src/Tests/Coordinator.antt =====
-- The theorem on the arrival of packets, with two tasks at different slots and one asleep.
use tes_0mq.Base.{ℕ, ◌<◌, refl, inl, inr, true, false, arith, Returns, List, [], ◌∷◌}
use tes_0mq.Ring.{Ring}
use tes_0mq.Coordinator.{View, Stats, new_pkts_hn}
use tes_0mq.Coordinator.Safety.{Freed}
use tes_0mq.Coordinator.Arrivals.{new_pkts_hn-Freed}
use tes_0mq.Tests.Frames.{peak_frame}

abbrev ring : Ring
ring = record { num_slots = 8; head = 6; cur = 6; tail = 2; buf = λ i. peak_frame; len = λ i. 40 }

abbrev views : List View
views =
    record { active = true; busy = false; heads = λ r. 1 }
    ∷ record { active = true; busy = true; heads = λ r. 7 }
    ∷ record { active = false; busy = false; heads = λ r. 4 }
    ∷ []

abbrev stats : Stats
stats = record { received = 0; missed = 0; polled = 0; skipped = 0 }

new_pkts_hn-Freed_example :
    Returns
      (λ x. (k : ℕ) → k < 4 → Freed k views ring (x.2 k))
      (new_pkts_hn (λ i. true) views (λ k. ring) stats)
new_pkts_hn-Freed_example =
    new_pkts_hn-Freed (λ i. true) views (λ k. ring) stats
      (λ k lt. record {
        slots_32 = omega arith;
        head_in = omega arith;
        cur_in = omega arith;
        tail_in = omega arith;
        order = omega arith;
      })
      (λ k lt. (inr (omega arith, omega arith), (inr (omega arith, omega arith), (inl refl, tt))))
