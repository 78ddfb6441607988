-- ===== src/Packet/Events.antt =====
-- tespkt.h: the events of a frame that `tespkt_is_valid` accepts lie inside it.
use tes_0mq.Base.{ℕ, ◌+◌, ◌-◌, ◌*◌, ◌/◌, ◌%◌, ◌<◌, ◌≤◌, ◌≡◌, ◌≢◌, true, false, arith, ok, abort}
use tes_0mq.Packet.{
  Packet, flen, esize, true_esize, is_event, is_trace, event_nums, ehdr, hdr_len, mtu,
}
use tes_0mq.Packet.Kinds.{
  Kind, tick, peak, area, pulse, mca, other, trace, kind, Agrees, kind-Agrees,
}
use tes_0mq.Packet.Valid.{no_errs, is_valid}
use tes_0mq.Packet.Valid.Spec.{WellFormed, WholeEvents, is_valid_iff}

-- The payload of a valid event frame that is no trace is made of whole events.
whole_of_kind :
    (p : Packet) (k : Kind)
    → Agrees p k
    → WellFormed p k
    → is_event p ≡ true
    → is_trace p ≡ false
    → WholeEvents p
whole_of_kind p tick a w e t = ground arith
whole_of_kind p peak a w e t = ground arith
whole_of_kind p area a w e t = ground arith
whole_of_kind p pulse a w e t = ground arith
whole_of_kind p (trace k) a w e t = ground arith
whole_of_kind p mca a w e t = ground arith
whole_of_kind p other a w e t = ground arith

-- A quotient that is exact, and small enough for the event size not to wrap.
module _ (f s : ℕ) (pos : s ≢ 0) (lo : 24 < f) (hi : f ≤ 1496) (e : (f - 24) % (s * 8) ≡ 0) where
  small : s * 8 < 2000
  small = grind arith

  exact : (f - 24) / (s * 8) * (s * 8) + 24 ≡ f
  exact = grind arith

true_esize_small : (p : Packet) → esize p * 8 < 2000 → true_esize p ≡ esize p * 8
unfolding true_esize
true_esize_small p h = omega arith

event_nums_of_whole :
    (p : Packet)
    → is_trace p ≡ false
    → hdr_len < flen p
    → flen p ≤ mtu
    → WholeEvents p
    → (event_nums p ≡ ok ((flen p - hdr_len) / (esize p * 8)))
      × ((flen p - hdr_len) / (esize p * 8) * true_esize p + hdr_len ≡ flen p)
unfolding event_nums
event_nums_of_whole p t lo hi w =
    let s = small (flen p) (esize p) w.0 lo hi w.1 in
    let q = exact (flen p) (esize p) w.0 lo hi w.1 in
    let ts = true_esize_small p s in (rw (t, ts) (ground (arith, quotient_le)), rw ts q)
  where
    quotient_le : (flen p - 24) / (esize p * 8) ≤ flen p - 24
    quotient_le = grind arith

-- The number of those events is the quotient.
pub event_nums_quotient :
    (p : Packet)
    → is_valid p ≡ no_errs
    → is_event p ≡ true
    → is_trace p ≡ false
    → event_nums p ≡ ok ((flen p - hdr_len) / (esize p * 8))
event_nums_quotient p v e t =
    let w = (is_valid_iff p).0 v in
    (event_nums_of_whole p t w.1 w.2 (whole_of_kind p (kind p) (kind-Agrees p) w e t)).0

-- In a frame that `tespkt_is_valid` accepts and that is an event frame but no trace,
-- `tespkt_event_nums` does not divide by zero, and its events with the header make up the frame.
pub event_nums_valid :
    (p : Packet)
    → is_valid p ≡ no_errs
    → is_event p ≡ true
    → is_trace p ≡ false
    → (n : ℕ) × (event_nums p ≡ ok n) × (n * true_esize p + hdr_len ≡ flen p)
event_nums_valid p v e t =
    let w = (is_valid_iff p).0 v in
    let whole = whole_of_kind p (kind p) (kind-Agrees p) w e t in
    let r = event_nums_of_whole p t w.1 w.2 whole in ((flen p - hdr_len) / (esize p * 8), r.0, r.1)

-- In a product, one more round fits below the whole.
round-le : (i n t f : ℕ) → i < n → 8 ≤ t → n * t + hdr_len ≡ f → hdr_len + i * t + 8 ≤ f
round-le i n t f lt small whole = grind arith

true_esize_pos : (p : Packet) → WholeEvents p → hdr_len < flen p → flen p ≤ mtu → 8 ≤ true_esize p
true_esize_pos p w lo hi =
    omega (arith, true_esize_small p (small (flen p) (esize p) w.0 lo hi w.1))

-- In a frame that `tespkt_is_valid` accepts and that is an event frame but no trace, the 8-byte
-- header of each event, of those that `tespkt_event_nums` counts, lies inside the frame.
pub ehdr_in_frame :
    (p : Packet) (n i : ℕ)
    → is_valid p ≡ no_errs
    → is_event p ≡ true
    → is_trace p ≡ false
    → event_nums p ≡ ok n
    → i < n
    → ehdr p i + 8 ≤ flen p
unfolding ehdr
ehdr_in_frame p n i v e t en lt =
    let w = (is_valid_iff p).0 v in
    let whole = whole_of_kind p (kind p) (kind-Agrees p) w e t in
    let r = event_nums_valid p v e t in
    let same : n ≡ r.0 = cc (r.1) in
    round-le i n (true_esize p) (flen p) lt (true_esize_pos p whole w.1 w.2) (rw same r.2)

-- The divisor is zero, and the call traps, on a frame that is no trace and whose event size field
-- is a multiple of 8192, among them every MCA frame that leaves this field zero.
pub event_nums_trap : (p : Packet) → is_trace p ≡ false → esize p % 8192 ≡ 0 → event_nums p ≡ abort
unfolding event_nums true_esize
event_nums_trap p t z = ground arith
