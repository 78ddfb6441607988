-- ===== src/Tests/Hist.antt =====
-- The theorems on the histogram task at concrete frames.
use tes_0mq.Base.{ℕ, ◌≡◌, refl, inl, Bool, true, false, arith, ok, abort, Returns, List, [], ◌∷◌}
use tes_0mq.Packet.{
  flen, pseq, is_mca, is_header, is_event, mca_nbins, mca_nbins_tot, mca_size, mca_mfreq, payloads,
}
use tes_0mq.Packet.Valid.{no_errs, is_valid}
use tes_0mq.Ring.{Ring}
use tes_0mq.Task.{Task, fine}
use tes_0mq.Hist.{Hist, step}
use tes_0mq.Hist.EmptyHeader.{empty_header_aborts}
use tes_0mq.Hist.Assembly.{run, Continues, Sent, run_publishes}
use tes_0mq.Tests.Frames.{mca_header, mca_rest, mca_empty}

abbrev always : List (List ℕ) → List ℕ → Bool
always sent message = true

abbrev waiting_one : Hist
waiting_one = record {
  nbins = 0;
  cur_nbins = 0;
  size = 0;
  cur_size = 0;
  discard = true;
  buf = λ i. 0;
  sent = [];
}

empty_header_aborts_example :
    (d' : Hist) × (step always 8 mca_empty 64 no_errs waiting_one ≡ ok (fine, d'))
    × (step always 9 mca_header 72 no_errs d' ≡ abort)
unfolding flen is_mca is_header is_valid is_event mca_nbins_tot mca_size mca_mfreq
empty_header_aborts_example =
    empty_header_aborts always mca_empty mca_header waiting_one 8 9 72 refl refl refl refl
      (omega arith) (inl refl) refl refl

run_publishes_example :
    Returns
      (Sent [] (payloads (mca_header ∷ mca_rest ∷ [])))
      (run always 8 (mca_header ∷ mca_rest ∷ []) waiting_one)
unfolding flen is_mca is_header is_valid is_event mca_nbins mca_nbins_tot mca_size mca_mfreq pseq
    Continues
run_publishes_example =
    run_publishes always 8 mca_header (mca_rest ∷ []) waiting_one (inl refl) refl refl refl
      (omega arith) (omega arith) (omega arith) (refl, refl, refl, refl, omega arith, refl) refl

-- A ring of eight slots that holds the header.
abbrev ring : Ring
ring = record { num_slots = 8; head = 0; cur = 0; tail = 1; buf = λ i. mca_header; len = λ i. 72 }

abbrev task : Task Hist
task = record {
  dat = waiting_one;
  frontends = [];
  heads = λ k. 0;
  prev_fseq = 8;
  prev_pseq_mca = 0;
  prev_pseq_tr = 0;
  just_activated = false;
  failed = false;
  busy = false;
  active = true;
}
