-- ===== src/Capture/Request/Kinds.antt =====
-- What a request to capture asks for.
use tes_0mq.Base.{
  ℕ, ◌<◌, ◌≤◌, ◌≡◌, ◌≢◌, Bool, true, false, ◌&&◌, ◌||◌, leb, ltb, ◌==◌, if◌then◌else◌, Option, none,
  some, arith,
}
use tes_0mq.Capture.{req_ok, req_einv}
use tes_0mq.Capture.Request.{
  Req, Checked, is_req_valid, ovrwt_none, cap_auto, cap_caponly, cap_convonly,
}

pub data Kind : Type 0 where
  status_only convert capture capture_convert : Kind

-- By the mode, and by whether any ticks or events are asked for.
abbrev pub kind_of_mode : ℕ → Bool → Option Kind
kind_of_mode mode wanted =
    if mode == cap_auto
    then some (if wanted then capture_convert else status_only)
    else if mode == cap_caponly
    then if wanted then some capture else none
    else if mode == cap_convonly
    then if wanted then none else some convert
    else none

abbrev pub kind_of : Req → Option Kind
kind_of r =
    if r.basefname && leb r.ovrwtmode 2
    then kind_of_mode r.capmode (ltb 0 r.min_ticks || ltb 0 r.min_events)
    else none

abbrev pub captures : Kind → Bool
captures capture = true
captures capture_convert = true
captures _ = false

abbrev pub converts : Kind → Bool
converts convert = true
converts capture_convert = true
converts _ = false

-- The kind that `s_is_req_valid` has found.
abbrev pub kind_found : Checked → Option Kind
kind_found v =
    if v.status == req_ok
    then some (
        if v.nocapture
        then if v.noconvert then status_only else convert
        else if v.noconvert
        then capture
        else capture_convert)
    else none

pub record Agrees (r : Req) (v : Checked) : Type 0 where
  pub same : kind_found v ≡ kind_of r
  pub refused : v.status ≢ req_ok → v.status ≡ req_einv
  pub overwrite : v.status ≡ req_ok → v.nooverwrite ≡ (r.ovrwtmode == ovrwt_none)
  pub ticks : r.min_ticks ≤ v.min_ticks
  pub some_ticks : v.status ≡ req_ok → v.nocapture ≡ false → 0 < v.min_ticks

-- Where memory can be allocated, `s_is_req_valid` accepts a request exactly where it names a file, its
-- mode of overwriting is known, and its mode and what it asks for make one of four kinds: a query of the
-- status, a conversion, a capture, or a capture and a conversion; it refuses every other as malformed.
-- The flags it sets are those of the kind and of the mode of overwriting, and a capture is of at least
-- one tick, and of at least the ticks asked for.
pub is_req_valid-Agrees : (r : Req) → Agrees r (is_req_valid true r)
unfolding is_req_valid
is_req_valid-Agrees r = record {
  same = ground arith;
  refused = ground arith;
  overwrite = ground arith;
  ticks = ground arith;
  some_ticks = ground arith;
}
