-- ===== src/Info/Counts.antt =====
-- What the info task counts, by the kind of the frame.
use tes_0mq.Base.{
  ℕ, ◌-◌, ◌*◌, ◌%◌, ◌^◌, ◌<◌, ◌≡◌, Bool, true, false, if◌then◌else◌, arith, ok, abort, ◌⊎◌, ◌/◌,
  inl, inr,
}
use tes_0mq.Packet.{Packet, flen, esize, is_header, is_mca, is_event, is_trace, event_nums, hdr_len}
use tes_0mq.Packet.Kinds.{
  Kind, tick, peak, area, pulse, mca, other, trace, sgl, avg, dp, dptr, kind, Agrees, kind-Agrees,
}
use tes_0mq.Packet.Valid.{no_errs, is_valid}
use tes_0mq.Packet.Events.{event_nums_quotient, event_nums_trap}
use tes_0mq.Info.{Info, add64, classify, step}

abbrev pub one : Bool → ℕ
one b = if b then 1 else 0

-- The counters after a frame of a kind, that is a header or not, with `n` events.
abbrev pub tally : Kind → Bool → ℕ → Info → Info
tally tick head n i = record i { ticks = add64 i.ticks 1 }
tally mca head n i = record i { mcas = add64 i.mcas 1 }
tally (trace dp) head n i = record i { traces = add64 i.traces 1 }
tally (trace k) head n i = record i { traces = add64 i.traces (one head) }
tally k head n i = record i { events = add64 i.events n }

abbrev pub arrived : ℕ → Info → Info
arrived missed i = record i { received = add64 i.received 1; missed = add64 i.missed missed }

abbrev pub Is64 : Info → Type 0
Is64 i = (i.traces < 2 ^ 64) × (i.events < 2 ^ 64)

module _ (p : Packet) (i : Info) (w : Is64 i) where
  classify-event :
      (k : Kind) (n : ℕ)
      → Agrees p k
      → is_event p ≡ true
      → (is_trace p ≡ false → event_nums p ≡ ok n)
      → classify p no_errs i ≡ ok (tally k (is_header p) n i)
  unfolding classify event_nums
  classify-event tick n a e h = ground arith
  classify-event peak n a e h = ground (arith, h)
  classify-event area n a e h = ground (arith, h)
  classify-event pulse n a e h = ground (arith, h)
  classify-event (trace sgl) n a e h = ground arith
  classify-event (trace avg) n a e h = ground arith
  classify-event (trace dp) n a e h = ground arith
  classify-event (trace dptr) n a e h = ground arith
  classify-event mca n a e h = ground arith
  classify-event other n a e h = ground arith

  classify-mca :
      (k : Kind) (n : ℕ)
      → Agrees p k
      → is_mca p ≡ true
      → is_header p ≡ true
      → classify p no_errs i ≡ ok (tally k (is_header p) n i)
  unfolding classify
  classify-mca tick n a e h = ground arith
  classify-mca peak n a e h = ground arith
  classify-mca area n a e h = ground arith
  classify-mca pulse n a e h = ground arith
  classify-mca (trace t) n a e h = ground arith
  classify-mca mca n a e h = ground arith
  classify-mca other n a e h = ground arith

-- A frame that is no header of either kind is left to the count of events, if it is no event frame.
classify-rest :
    (p : Packet) (k : Kind) (i : Info)
    → Agrees p k
    → is_mca p ≡ true
    → is_header p ≡ false
    → event_nums p ≡ abort
    → classify p no_errs i ≡ abort
unfolding classify
classify-rest p tick i a m h t = ground arith
classify-rest p peak i a m h t = ground arith
classify-rest p area i a m h t = ground arith
classify-rest p pulse i a m h t = ground arith
classify-rest p (trace s) i a m h t = ground arith
classify-rest p mca i a m h t = ground arith
classify-rest p other i a m h t = ground arith

no_trace : (p : Packet) (k : Kind) → Agrees p k → is_mca p ≡ true → is_trace p ≡ false
no_trace p tick a m = a.trace_eq
no_trace p peak a m = a.trace_eq
no_trace p area a m = a.trace_eq
no_trace p pulse a m = a.trace_eq
no_trace p mca a m = a.trace_eq
no_trace p other a m = a.trace_eq
no_trace p (trace s) a m = ground arith

-- A valid event frame, or a valid MCA header, adds one to the frames received and what was missed to
-- the frames missed, modulo 2 ^ 64, and beside that counts once by its kind: as a tick, as an MCA
-- histogram, as a trace for a dot product or the header of another trace, and for nothing more if it
-- continues a trace; a frame of peaks, areas or pulses adds the number of its events.
pub step-tally :
    (p : Packet) (missed : ℕ) (i : Info)
    → is_valid p ≡ no_errs
    → (is_event p ≡ true) ⊎ ((is_mca p ≡ true) × (is_header p ≡ true))
    → Is64 i
    → step p missed no_errs i
      ≡ ok (tally (kind p) (is_header p) ((flen p - hdr_len) / (esize p * 8)) (arrived missed i))
unfolding step
step-tally p missed i v (inl e) w =
    classify-event p (arrived missed i) w (kind p) ((flen p - hdr_len) / (esize p * 8))
      (kind-Agrees p) e (event_nums_quotient p v e)
step-tally p missed i v (inr (m, h)) w =
    classify-mca p (arrived missed i) w (kind p) ((flen p - hdr_len) / (esize p * 8))
      (kind-Agrees p) m h

-- An MCA frame that is no header and whose event size field is a multiple of 8192, zero for instance,
-- goes on to the count of events if it has no error, and the division by its event size ends the
-- process.
pub mca_continuation_traps :
    (p : Packet) (missed : ℕ) (i : Info)
    → is_mca p ≡ true
    → is_header p ≡ false
    → esize p % 8192 ≡ 0
    → step p missed no_errs i ≡ abort
unfolding step
mca_continuation_traps p missed i m h z =
    classify-rest p (kind p) (arrived missed i) (kind-Agrees p) m h
      (event_nums_trap p (no_trace p (kind p) (kind-Agrees p) m) z)
