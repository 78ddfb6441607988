-- ===== src/Packet/Kinds.antt =====
-- tespkt.h: the frame predicates against one classification of frames.
use tes_0mq.Base.{ℕ, ◌<◌, ◌≡◌, Bool, true, false, not, ◌&&◌, ◌||◌, ◌==◌, if◌then◌else◌, arith}
use tes_0mq.Packet.{
  Packet, is_mca, is_event, is_tick, is_peak, is_area, is_pulse, is_trace, is_trace_sgl,
  is_trace_avg, is_trace_dp, is_trace_dptr, is_trace_long, is_multipeak, etype_t, etype_pkt,
  etype_tr,
}

pub data TraceKind : Type 0 where
  sgl avg dp dptr : TraceKind

pub data Kind : Type 0 where
  tick peak area pulse mca other : Kind
  trace : TraceKind → Kind

abbrev pub trace_kind : ℕ → TraceKind
trace_kind t = if t == 0 then sgl else if t == 1 then avg else if t == 2 then dp else dptr

abbrev pub event_kind : ℕ → ℕ → ℕ → Kind
event_kind t pkt tr =
    if t == 1
    then tick
    else if pkt == 0
    then peak
    else if pkt == 1
    then area
    else if pkt == 2
    then pulse
    else trace (trace_kind tr)

-- What a frame is: the ether type, then the bits T, PKT and TR of the event type.
unfoldable pub kind : Packet → Kind
kind p =
    if is_event p
    then event_kind (etype_t p) (etype_pkt p) (etype_tr p)
    else if is_mca p
    then mca
    else other

abbrev pub kind_eq : Kind → Kind → Bool
kind_eq tick tick = true
kind_eq peak peak = true
kind_eq area area = true
kind_eq pulse pulse = true
kind_eq mca mca = true
kind_eq other other = true
kind_eq (trace sgl) (trace sgl) = true
kind_eq (trace avg) (trace avg) = true
kind_eq (trace dp) (trace dp) = true
kind_eq (trace dptr) (trace dptr) = true
kind_eq _ _ = false

abbrev pub kind_is_trace : Kind → Bool
kind_is_trace (trace t) = true
kind_is_trace _ = false

-- The predicates of tespkt.h, as functions of the kind.
pub record Agrees (p : Packet) (k : Kind) : Type 0 where
  pub tick_eq : is_tick p ≡ kind_eq k tick
  pub peak_eq : is_peak p ≡ kind_eq k peak
  pub area_eq : is_area p ≡ kind_eq k area
  pub pulse_eq : is_pulse p ≡ kind_eq k pulse
  pub trace_eq : is_trace p ≡ kind_is_trace k
  pub sgl_eq : is_trace_sgl p ≡ kind_eq k (trace sgl)
  pub avg_eq : is_trace_avg p ≡ kind_eq k (trace avg)
  pub dp_eq : is_trace_dp p ≡ kind_eq k (trace dp)
  pub dptr_eq : is_trace_dptr p ≡ kind_eq k (trace dptr)
  pub long_eq : is_trace_long p ≡ (kind_is_trace k && not (kind_eq k (trace dp)))
  pub multipeak_eq :
      is_multipeak p ≡ (kind_eq k pulse || (kind_is_trace k && not (kind_eq k (trace avg))))
  pub mca_eq : is_mca p ≡ kind_eq k mca
  pub event_eq : is_event p ≡ not (kind_eq k mca || kind_eq k other)

-- The bit fields are small: two bits for PKT and TR, one for T.
etype_bounds : (p : Packet) → (etype_t p < 2) × (etype_pkt p < 4) × (etype_tr p < 4)
unfolding etype_t etype_pkt etype_tr
etype_bounds p = omega arith

-- A frame is not both an event and an MCA frame.
pub is_mca_of_is_event : (p : Packet) → is_event p ≡ true → is_mca p ≡ false
unfolding is_mca is_event
is_mca_of_is_event p h = ground arith

-- The thirteen predicates of tespkt.h are functions of one classification of the frame: each holds
-- of its own kind and of no other, `is_trace` of the four trace kinds, `is_trace_long` of those but
-- the dot product, and `is_multipeak` of pulses and of the traces but the average, and
-- `is_event` of every kind but `mca` and `other`. So a frame may be neither an event nor an MCA frame, and
-- `is_multipeak` does not ask for a header.
pub kind-Agrees : (p : Packet) → Agrees p (kind p)
unfolding kind is_tick is_peak is_area is_pulse is_trace is_trace_sgl is_trace_avg is_trace_dp
    is_trace_dptr is_trace_long is_multipeak
kind-Agrees p = record {
  tick_eq = ground (arith, etype_bounds p, is_mca_of_is_event p);
  peak_eq = ground (arith, etype_bounds p, is_mca_of_is_event p);
  area_eq = ground (arith, etype_bounds p, is_mca_of_is_event p);
  pulse_eq = ground (arith, etype_bounds p, is_mca_of_is_event p);
  trace_eq = ground (arith, etype_bounds p, is_mca_of_is_event p);
  sgl_eq = ground (arith, etype_bounds p, is_mca_of_is_event p);
  avg_eq = ground (arith, etype_bounds p, is_mca_of_is_event p);
  dp_eq = ground (arith, etype_bounds p, is_mca_of_is_event p);
  dptr_eq = ground (arith, etype_bounds p, is_mca_of_is_event p);
  long_eq = ground (arith, etype_bounds p, is_mca_of_is_event p);
  multipeak_eq = ground (arith, etype_bounds p, is_mca_of_is_event p);
  mca_eq = ground (arith, etype_bounds p, is_mca_of_is_event p);
  event_eq = ground (arith, etype_bounds p, is_mca_of_is_event p);
}
