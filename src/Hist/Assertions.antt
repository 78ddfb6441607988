-- ===== src/Hist/Assertions.antt =====
-- The histogram task fails no assertion and does not write past its buffer, on frames that keep to
-- two rules that `tespkt_is_valid` does not check.
use tes_0mq.Base.{
  ℕ, ◌+◌, ◌-◌, ◌*◌, ◌%◌, ◌^◌, ◌<◌, ◌≤◌, ◌≡◌, ◌≢◌, refl, ◌⊎◌, inl, inr, Bool, true, false, not, ltb,
  ◌==◌, if◌then◌else◌, arith, ok, Returns, Returns-check, Returns-if, List, false≢true, sym, ◌∙◌,
}
use tes_0mq.Packet.{
  Packet, flen, pseq, is_mca, is_header, mca_nbins, mca_nbins_tot, mca_size, hdr_len, mtu,
}
use tes_0mq.Packet.Kinds.{
  Kind, tick, peak, area, pulse, mca, other, trace, kind, Agrees, kind-Agrees,
}
use tes_0mq.Packet.Valid.{Errs, no_errs, any, is_valid}
use tes_0mq.Packet.Valid.Spec.{WellFormed, is_valid_iff, McaHeader}
use tes_0mq.Task.{Rc, fine, error}
use tes_0mq.Hist.{Hist, clear, reset, accumulate, append, publish, header, continuation, step}

-- What is known of an MCA frame that is valid.
pub record McaFrame (p : Packet) : Type 0 where
  pub whole : flen p % 8 ≡ 0
  pub above : hdr_len < flen p
  pub below : flen p ≤ mtu
  pub head : McaHeader p

mca_of_kind : (p : Packet) (k : Kind) → Agrees p k → WellFormed p k → is_mca p ≡ true → McaFrame p
mca_of_kind p mca a w e = record { whole = w.0; above = w.1; below = w.2; head = w.3 }
mca_of_kind p tick a w e = cc (a.mca_eq)
mca_of_kind p peak a w e = cc (a.mca_eq)
mca_of_kind p area a w e = cc (a.mca_eq)
mca_of_kind p pulse a w e = cc (a.mca_eq)
mca_of_kind p other a w e = cc (a.mca_eq)
mca_of_kind p (trace t) a w e = ground arith

pub mca_frame : (p : Packet) → is_valid p ≡ no_errs → is_mca p ≡ true → McaFrame p
mca_frame p v m = mca_of_kind p (kind p) (kind-Agrees p) ((is_valid_iff p).0 v) m

abbrev pub max_bins : ℕ
max_bins = 16384

abbrev pub Idle : Hist → Type 0
Idle d = (d.nbins ≡ 0) × (d.cur_nbins ≡ 0) × (d.size ≡ 0) × (d.cur_size ≡ 0) × (d.discard ≡ false)

abbrev pub Building : Hist → Type 0
Building d =
    (0 < d.cur_nbins)
    × (d.cur_nbins < d.nbins)
    × (d.nbins ≤ max_bins)
    × (d.cur_size ≡ 40 + 4 * d.cur_nbins)
    × (d.size ≡ 40 + 4 * d.nbins)
    × (d.discard ≡ false)

-- Between frames: waiting for a header, or between two histograms, or inside one.
abbrev pub IsReady : Hist → Type 0
IsReady d = (d.discard ≡ true) ⊎ (Idle d ⊎ Building d)

-- A header announces no more bins than the buffer holds, and brings at least one.
abbrev pub FitsBuffer : Packet → Type 0
FitsBuffer p = (is_header p ≡ false) ⊎ ((flen p ≢ 64) × (mca_nbins_tot p ≤ max_bins))

abbrev pub Next : Rc × Hist → Type 0
Next x = (x.0 ≡ error) ⊎ IsReady x.1

reset-clear : (d : Hist) → IsReady d → reset d ≡ clear d
unfolding reset clear
reset-clear d r = ground arith

-- The header starts from nothing, whatever was there.
abbrev pub fresh : Packet → Hist → Hist
fresh p d = record (clear d) { nbins = mca_nbins_tot p; size = mca_size p }

-- Either case of a header comes down to the same.
pub header-fresh :
    (accepts : List (List ℕ) → List ℕ → Bool) (p : Packet) (d : Hist)
    → IsReady d
    → header accepts p (flen p) d ≡ accumulate accepts p (flen p) (fresh p d)
unfolding header clear
header-fresh accepts p d r = rw (reset-clear d r)

module _ (accepts : List (List ℕ) → List ℕ → Bool) (p : Packet) (f : McaFrame p) where
  publish-Next : (d : Hist) → d.cur_size ≡ d.size → Returns Next (publish accepts d)
  unfolding publish clear
  publish-Next d e = ground arith

  append-Next :
      (d : Hist)
      → d.discard ≡ false
      → d.nbins ≤ max_bins
      → 0 < d.cur_nbins
      → d.cur_nbins ≤ d.nbins
      → d.size ≡ 40 + 4 * d.nbins
      → d.cur_size + (flen p - hdr_len) ≡ 40 + 4 * d.cur_nbins
      → Returns Next (append accepts p (flen p) d)
  unfolding append publish clear
  append-Next d nd nb pos le sz cs = ground arith

  -- Either the frame brings too many bins, or the sizes agree.
  abbrev Sizes : Hist → ℕ → Type 0
  Sizes d new =
      (d.nbins < new)
      ⊎ ((d.nbins ≤ max_bins)
          × (0 < new)
          × (d.size ≡ 40 + 4 * d.nbins)
          × (d.cur_size + (flen p - hdr_len) ≡ 40 + 4 * new))

  accumulate-Next :
      (d : Hist)
      → d.discard ≡ false
      → Sizes d ((d.cur_nbins + mca_nbins p) % 2 ^ 16)
      → Returns Next (accumulate accepts p (flen p) d)
  unfolding accumulate
  accumulate-Next d nd sizes = Returns-check Next (not d.discard) _ (ground arith) (
      Returns-if Next (ltb d.nbins ((d.cur_nbins + mca_nbins p) % 2 ^ 16)) _ _
        (λ over. inr (inl refl))
        (λ fits.
          append-Next (record d { cur_nbins = (d.cur_nbins + mca_nbins p) % 2 ^ 16 }) nd
            (ground arith) (ground arith) (ground arith) (ground arith) (ground arith)))

  -- The bins of a frame, and the bytes that they take.
  pub bins_of_continuation :
      is_header p ≡ false
      → (mca_nbins p * 4 + hdr_len ≡ flen p) × (0 < mca_nbins p) × (mca_nbins p < 400)
  unfolding mca_nbins
  bins_of_continuation nh = ground arith

  pub bins_of_header :
      is_header p ≡ true
      → flen p ≢ 64
      → ((mca_nbins p * 4 + 64 ≡ flen p) × (0 < mca_nbins p) × (mca_nbins p < 400))
        ⊎ ((max_bins < mca_nbins p) × (mca_nbins p < 2 ^ 16))
  unfolding mca_nbins
  bins_of_header ih ne = ground arith

  continuation-Sizes :
      (d : Hist)
      → is_header p ≡ false
      → d.discard ≡ false
      → IsReady d
      → Sizes d ((d.cur_nbins + mca_nbins p) % 2 ^ 16)
  continuation-Sizes d nh live r = ground (arith, bins_of_continuation nh)

  continuation-Next :
      (prev : ℕ) (d : Hist)
      → is_header p ≡ false
      → IsReady d
      → Returns Next (continuation accepts prev p (flen p) d)
  unfolding continuation
  continuation-Next prev d nh r =
      Returns-if Next d.discard _ _ (λ dis. inr (inl dis))
        (λ live.
          Returns-if Next ((pseq p + 2 ^ 16 - prev) % 2 ^ 16 == 1) _
            (ok (fine, record d { discard = true }))
            (λ seq. accumulate-Next d live (continuation-Sizes d nh live r))
            (λ gap. inr (inl refl)))

  header-Next :
      (d : Hist)
      → is_header p ≡ true
      → FitsBuffer p
      → IsReady d
      → Returns Next (header accepts p (flen p) d)
  unfolding clear mca_size
  header-Next d ih fits r =
      rw (header-fresh accepts p d r)
        (accumulate-Next (fresh p d) refl (ground (arith, bins_of_header ih)))

-- A frame with an error, or no MCA frame, or one that is valid, as long as it says and fits.
abbrev pub Tame : Packet → ℕ → Errs → Type 0
Tame p fl err =
    (any err ≡ true)
    ⊎ ((is_mca p ≡ false) ⊎ ((is_valid p ≡ no_errs) × (fl ≡ flen p) × FitsBuffer p))

-- The histogram task, ready, fails no assertion on a frame that has an error, or is no MCA frame, or is
-- valid and of the length that it says, and, if it is a header, announces at most 16384 bins and brings
-- one at least: the copy stays inside the buffer, the sizes agree when all bins are there, and a header
-- finds no histogram begun. It is ready for the next frame after it, unless the publishing has failed.
pub step-Next :
    (accepts : List (List ℕ) → List ℕ → Bool) (prev : ℕ) (p : Packet) (fl : ℕ) (err : Errs)
    (d : Hist)
    → Tame p fl err
    → IsReady d
    → Returns Next (step accepts prev p fl err d)
unfolding step
step-Next accepts prev p fl err d tame r =
    Returns-if Next (any err) _ _ (λ bad. inr r)
      (λ good. Returns-if Next (is_mca p) _ _ (λ m. mca_case m (clean good m tame)) (λ nm. inr r))
  where
    clean :
        any err ≡ false
        → is_mca p ≡ true
        → Tame p fl err
        → (is_valid p ≡ no_errs) × (fl ≡ flen p) × FitsBuffer p
    clean good m (inl bad) = absurd (false≢true (sym good ∙ bad))
    clean good m (inr (inl nm)) = absurd (false≢true (sym nm ∙ m))
    clean good m (inr (inr v)) = v

    mca_case :
        is_mca p ≡ true
        → (is_valid p ≡ no_errs) × (fl ≡ flen p) × FitsBuffer p
        → Returns Next
            (if is_header p then header accepts p fl d else continuation accepts prev p fl d)
    mca_case m (v, e, fits) = rw e (
        Returns-if Next (is_header p) _ _
          (λ ih. header-Next accepts p (mca_frame p v m) d ih fits r)
          (λ nh. continuation-Next accepts p (mca_frame p v m) prev d nh r))
