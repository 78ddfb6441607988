-- ===== src/Hist/EmptyHeader.antt =====
-- A header frame without bins, which `tespkt_is_valid` lets through.
use tes_0mq.Base.{ℕ, ◌<◌, ◌≤◌, ◌≡◌, Bool, true, ◌∙◌, arith, ok, abort, List, sym, subst}
use tes_0mq.Packet.{
  Packet, flen, is_mca, is_header, mca_nbins, mca_nbins_tot, mca_size, hdr_len, bytes,
}
use tes_0mq.Packet.Valid.{no_errs, is_valid}
use tes_0mq.Memory.{copy}
use tes_0mq.Task.{fine}
use tes_0mq.Hist.{Hist, clear, reset, accumulate, append, header, step}
use tes_0mq.Hist.Assertions.{McaFrame, mca_frame, max_bins, IsReady, header-fresh, fresh}

module _ (accepts : List (List ℕ) → List ℕ → Bool) (p : Packet) (d : Hist) where
  -- The state that such a frame leaves: a histogram begun, with no bin received.
  abbrev begun : Hist
  begun = record (clear d) {
    nbins = mca_nbins_tot p;
    size = mca_size p;
    buf = copy d.buf 0 (bytes p hdr_len 40);
    cur_size = 40;
  }

  no_bins : flen p ≡ 64 → is_header p ≡ true → mca_nbins p ≡ 0
  unfolding mca_nbins
  no_bins e ih = ground arith

  accumulate-begun :
      McaFrame p
      → flen p ≡ 64
      → is_header p ≡ true
      → mca_nbins_tot p ≤ max_bins
      → accumulate accepts p 64 (fresh p d) ≡ ok (fine, begun)
  unfolding accumulate append clear mca_size
  accumulate-begun f e ih small = ground (arith, no_bins e ih)

  -- The header is taken, without a complaint.
  step-begun :
      (prev : ℕ)
      → is_valid p ≡ no_errs
      → is_mca p ≡ true
      → is_header p ≡ true
      → flen p ≡ 64
      → mca_nbins_tot p ≤ max_bins
      → IsReady d
      → step accepts prev p 64 no_errs d ≡ ok (fine, begun)
  unfolding step
  step-begun prev v m ih e small r =
      rw (m, ih)
        (subst (λ n. header accepts p n d ≡ ok (fine, begun)) e
          (header-fresh accepts p d r
            ∙ subst (λ n. accumulate accepts p n (fresh p d) ≡ ok (fine, begun)) (sym e)
                (accumulate-begun (mca_frame p v m) e ih small)))

  -- And the next one stops the process.
  header-begun : (q : Packet) (fl : ℕ) → 0 < mca_nbins_tot p → header accepts q fl begun ≡ abort
  unfolding header reset clear
  header-begun q fl pos = ground arith

-- A valid MCA header frame that is 64 bytes long has no bins. It is taken for the start of a
-- histogram, at most 16384 bins long, by a task that is ready for it, but counts for nothing: if the
-- next frame of the histogram is another header, the task does not see that one was begun, and the
-- assertion that nothing is there ends the process.
pub empty_header_aborts :
    (accepts : List (List ℕ) → List ℕ → Bool) (p q : Packet) (d : Hist) (prev prev' fl : ℕ)
    → is_valid p ≡ no_errs
    → is_mca p ≡ true
    → is_header p ≡ true
    → flen p ≡ 64
    → mca_nbins_tot p ≤ max_bins
    → IsReady d
    → is_mca q ≡ true
    → is_header q ≡ true
    → (d' : Hist) × (step accepts prev p 64 no_errs d ≡ ok (fine, d'))
      × (step accepts prev' q fl no_errs d' ≡ abort)
unfolding step
empty_header_aborts accepts p q d prev prev' fl v m ih e small r mq hq = (
  begun accepts p d,
  step-begun accepts p d prev v m ih e small r,
  rw (mq, hq) (header-begun accepts p d q fl (ground (arith, mca_frame p v m))),
)
