-- ===== src/Jitter/Bins.antt =====
-- The bins and the channels of the histograms.
use tes_0mq.Base.{ℕ, zero, suc, ◌+◌, ◌-◌, ◌<◌, ◌≤◌, ◌≡◌, ltb, if◌then◌else◌, arith}
use tes_0mq.Jitter.{nbins, bin_offset, Point, bin_of, channel}

-- The histograms are those of the channels other than the reference, in order.
pub channel_lem : (ref h : ℕ) → channel ref h ≡ (if ltb h ref then h else h + 1)
unfolding channel
channel_lem ref zero = ground arith
channel_lem ref (suc h) = let e = channel_lem ref h in ground arith

-- The bin of a point, by its delays since the reference before it and until the reference after it, is
-- always one of the histogram, and a point that is neither in the middle nor past an end shares its bin
-- only with points of the same side that are as far from the nearer reference.
pub bin_of-near :
    (v w : Point)
    → (bin_of v < nbins)
      × (bin_of v ≡ bin_of w
          → (v.until < v.since
              → 0 < v.until
              → v.until < bin_offset
              → (w.until < w.since) × (w.until ≡ v.until))
            × (v.since ≤ v.until
                → 0 < v.since
                → v.since < bin_offset - 1
                → (w.since ≤ w.until) × (w.since ≡ v.since)))
unfolding bin_of
bin_of-near v w = (
  ground arith,
  λ e. (λ a b c. (ground arith, ground arith), λ a b c. (ground arith, ground arith)),
)
