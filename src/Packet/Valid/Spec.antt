-- ===== src/Packet/Valid/Spec.antt =====
-- What `tespkt_is_valid` accepts, by the kind of the frame.
use tes_0mq.Base.{◌+◌, ◌-◌, ◌*◌, ◌%◌, ◌<◌, ◌≤◌, ◌≡◌, ◌≢◌, ◌⊎◌, ◌↔◌, false, arith}
use tes_0mq.Packet.{
  Packet, flen, esize, is_header, trace_size, mca_nbins_tot, mca_size, mca_mfreq, hdr_len, mtu,
}
use tes_0mq.Packet.Kinds.{
  Kind, tick, peak, area, pulse, mca, other, trace, sgl, avg, dp, dptr, kind, Agrees, kind-Agrees,
}
use tes_0mq.Packet.Valid.{no_errs, is_valid}

-- Whole events fill the payload.
abbrev pub WholeEvents : Packet → Type 0
WholeEvents p = (esize p ≢ 0) × ((flen p - hdr_len) % (esize p * 8) ≡ 0)

-- A trace header announces at least the bytes that it brings.
abbrev pub TraceHeader : Packet → Type 0
TraceHeader p = (is_header p ≡ false) ⊎ ((trace_size p ≢ 0) × (flen p ≤ hdr_len + trace_size p))

abbrev pub McaHeader : Packet → Type 0
McaHeader p =
    (is_header p ≡ false) ⊎ ((flen p ≤ hdr_len + mca_size p) × (mca_mfreq p < mca_nbins_tot p))

abbrev pub OfKind : Packet → Kind → Type 0
OfKind p tick = (esize p ≡ 3) × (flen p ≡ 48)
OfKind p peak = esize p ≡ 1
OfKind p area = esize p ≡ 1
OfKind p pulse = WholeEvents p
OfKind p (trace sgl) = (esize p ≡ 1) × TraceHeader p
OfKind p (trace avg) = (esize p ≡ 1) × TraceHeader p
OfKind p (trace dp) = WholeEvents p × TraceHeader p
OfKind p (trace dptr) = (esize p ≡ 1) × TraceHeader p
OfKind p mca = McaHeader p
OfKind p other = ⊥

abbrev pub WellFormed : Packet → Kind → Type 0
WellFormed p k = (flen p % 8 ≡ 0) × (hdr_len < flen p) × (flen p ≤ mtu) × OfKind p k

module _ (p : Packet) where
  valid→WellFormed : (k : Kind) → Agrees p k → is_valid p ≡ no_errs → WellFormed p k
  unfolding is_valid
  valid→WellFormed tick a e = ground arith
  valid→WellFormed peak a e = ground arith
  valid→WellFormed area a e = ground arith
  valid→WellFormed pulse a e = ground arith
  valid→WellFormed (trace sgl) a e = ground arith
  valid→WellFormed (trace avg) a e = ground arith
  valid→WellFormed (trace dp) a e = ground arith
  valid→WellFormed (trace dptr) a e = ground arith
  valid→WellFormed mca a e = ground arith
  valid→WellFormed other a e = ground arith

  WellFormed→valid : (k : Kind) → Agrees p k → WellFormed p k → is_valid p ≡ no_errs
  unfolding is_valid
  WellFormed→valid tick a e = ground arith
  WellFormed→valid peak a e = ground arith
  WellFormed→valid area a e = ground arith
  WellFormed→valid pulse a e = ground arith
  WellFormed→valid (trace sgl) a e = ground arith
  WellFormed→valid (trace avg) a e = ground arith
  WellFormed→valid (trace dp) a e = ground arith
  WellFormed→valid (trace dptr) a e = ground arith
  WellFormed→valid mca a e = ground arith
  WellFormed→valid other a e = ground arith

-- `tespkt_is_valid` returns no error exactly for the well-formed frames: the length is a multiple of
-- 8, above the header's and within the MTU, and by kind: a tick has event size 3 and 24 bytes of
-- payload; a peak, an area and a trace but the dot product have event size 1; a pulse and a dot
-- product hold a whole number of events; a trace header announces at least its own bytes; an MCA
-- header does too, and its most frequent bin exists. Frames of another ether type are refused.
pub is_valid_iff : (p : Packet) → (is_valid p ≡ no_errs) ↔ WellFormed p (kind p)
is_valid_iff p =
    (valid→WellFormed p (kind p) (kind-Agrees p), WellFormed→valid p (kind p) (kind-Agrees p))
