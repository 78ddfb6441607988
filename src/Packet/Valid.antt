-- ===== src/Packet/Valid.antt =====
-- tespkt.h: `tespkt_is_valid`. The error mask is a record with a field for each flag TES_E*.
pub mod Spec
use tes_0mq.Base.{
  ℕ, ◌+◌, ◌-◌, ◌*◌, ◌/◌, ◌%◌, ◌^◌, ◌<◌, ◌≤◌, ◌≡◌, ◌≢◌, refl, ◌⊎◌, inl, inr, ◌↔◌, Bool, true, false,
  not, ◌&&◌, ◌||◌, ltb, leb, ◌==◌, if◌then◌else◌, arith, Bool-cases, ap,
}
use tes_0mq.Packet.{
  Packet, flen, esize, is_mca, is_event, is_tick, is_peak, is_area, is_pulse, is_trace, is_trace_dp,
  is_header, trace_size, mca_nbins_tot, mca_size, mca_mfreq, hdr_len, tick_hdr_len, mtu,
}

pub record Errs : Type 0 where
  pub eth_type : Bool
  pub eth_len : Bool
  pub evt_type : Bool
  pub evt_size : Bool
  pub tr_size : Bool
  pub mca_bytes : Bool
  pub mca_bins : Bool

abbrev pub no_errs : Errs
no_errs = record {
  eth_type = false;
  eth_len = false;
  evt_type = false;
  evt_size = false;
  tr_size = false;
  mca_bytes = false;
  mca_bins = false;
}

-- `if (err)`.
abbrev pub any : Errs → Bool
any e =
    e.eth_type
    || (e.eth_len || (e.evt_type || (e.evt_size || (e.tr_size || (e.mca_bytes || e.mca_bins)))))

-- `|a - b| % m != 0`, which is `(a - b) % m != 0` in `int`.
abbrev sub_mod_ne : ℕ → ℕ → ℕ → Bool
sub_mod_ne a b m = if leb b a then not ((a - b) % m == 0) else not ((b - a) % m == 0)

-- The flags TES_EETHLEN, TES_EEVTSIZE and TES_ETRSIZE of an event frame, by kind.
pub tick_errs : Packet → Errs → Errs
tick_errs p e = record e {
  evt_size = e.evt_size || not (esize p == 3);
  eth_len = e.eth_len || not (flen p == hdr_len + tick_hdr_len);
}

pub trace_errs : Packet → Errs → Errs
trace_errs p e = record e {
  tr_size =
      e.tr_size || (is_header p && (trace_size p == 0 || ltb (hdr_len + trace_size p) (flen p)));
  evt_size = e.evt_size || (not (is_trace_dp p) && not (esize p == 1));
}

pub event_errs : Packet → Errs → Errs
unfolding tick_errs trace_errs
event_errs p e0 =
    let e = record e0 {
      evt_size = e0.evt_size || esize p == 0;
      eth_len = e0.eth_len || (not (esize p == 0) && sub_mod_ne (flen p) hdr_len (esize p * 8));
    } in
    if is_tick p
    then tick_errs p e
    else if is_peak p || is_area p
    then record e { evt_size = e.evt_size || not (esize p == 1) }
    else if is_trace p
    then trace_errs p e
    else if is_pulse p
    then e
    else record e { evt_type = true }

-- `(uint32_t)flen - TESPKT_HDR_LEN > histsize` wraps below the header length.
pub mca_errs : Packet → Errs → Errs
mca_errs p e =
    if is_header p
    then record e {
      mca_bytes =
          e.mca_bytes
          || (if leb hdr_len (flen p)
              then ltb (mca_size p) (flen p - hdr_len)
              else ltb (mca_size p) (2 ^ 32 + flen p - hdr_len));
      mca_bins = e.mca_bins || leb (mca_nbins_tot p) (mca_mfreq p);
    }
    else e

unfoldable pub is_valid : Packet → Errs
unfolding event_errs mca_errs
is_valid p =
    let e = record no_errs {
      eth_len = not (flen p % 8 == 0) || (ltb mtu (flen p) || leb (flen p) hdr_len);
    } in
    if is_event p
    then event_errs p e
    else if is_mca p
    then mca_errs p e
    else record e { eth_type = true }
