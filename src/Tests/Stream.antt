-- ===== src/Tests/Stream.antt =====
-- The histogram task from a wake-up on, at concrete frames.
use tes_0mq.Base.{ℕ, Bool, true, false, List, [], ◌∷◌}
use tes_0mq.Packet.Valid.{no_errs}
use tes_0mq.Hist.{Hist}
use tes_0mq.Hist.Stream.{Arrival}
use tes_0mq.Tests.Frames.{mca_header, peak_frame}

abbrev always : List (List ℕ) → List ℕ → Bool
always sent message = true

abbrev waiting_one : Hist
waiting_one = record {
  nbins = 4;
  cur_nbins = 2;
  size = 56;
  cur_size = 48;
  discard = false;
  buf = λ i. 0;
  sent = [];
}

-- The header twice, the second time after a loss, and a frame that is none of the task's.
abbrev arrivals : List Arrival
arrivals =
    record { prev = 8; frame = mca_header; len = 72; err = no_errs }
    ∷ record { prev = 0; frame = mca_header; len = 72; err = no_errs }
    ∷ record { prev = 0; frame = peak_frame; len = 40; err = no_errs }
    ∷ []
