-- ===== src/Capture/Request.antt =====
-- `s_is_req_valid`, `s_open` and `task_cap_req_hn` of src/bin/tesd_task_cap.c. What the paths, the files and
-- the conversion come to is a parameter.
pub mod Kinds
pub mod Reactions
use tes_0mq.Base.{
  ℕ, ◌+◌, ◌<◌, ◌≤◌, ◌≡◌, ◌≢◌, Bool, true, false, not, ◌&&◌, ◌||◌, ltb, leb, ◌==◌, if◌then◌else◌,
  Outcome, ok, abort, ◌>>=◌, ◌>>◌, check, List, [], ◌∷◌,
}
use tes_0mq.Capture.{req_ok, req_einv, Stats, no_stats, Stream, no_stream, Tick, no_tick, Cap}

abbrev pub req_efail : ℕ
req_efail = 4

-- TES_H5_OVRWT_*.
abbrev pub ovrwt_none : ℕ
ovrwt_none = 0

abbrev pub ovrwt_relink : ℕ
ovrwt_relink = 1

abbrev pub ovrwt_file : ℕ
ovrwt_file = 2

-- TES_CAP_*.
abbrev pub cap_auto : ℕ
cap_auto = 0

abbrev pub cap_caponly : ℕ
cap_caponly = 1

abbrev pub cap_convonly : ℕ
cap_convonly = 2

-- What a client sends: whether there is a file name and a measurement, the least ticks and events, and
-- the modes.
pub record Req : Type 0 where
  pub basefname : Bool
  pub measurement : Bool
  pub min_ticks : ℕ
  pub min_events : ℕ
  pub ovrwtmode : ℕ
  pub capmode : ℕ

-- The return of `s_is_req_valid`, and what it sets.
pub record Checked : Type 0 where
  pub status : ℕ
  pub min_ticks : ℕ
  pub nocapture : Bool
  pub noconvert : Bool
  pub nooverwrite : Bool

abbrev pub refusal : ℕ → Req → Checked
refusal status r = record {
  status = status;
  min_ticks = r.min_ticks;
  nocapture = false;
  noconvert = false;
  nooverwrite = false;
}

-- `min_ticks`, with its default.
abbrev pub least_ticks : Req → ℕ
least_ticks r = if not (r.min_events == 0) && r.min_ticks == 0 then 1 else r.min_ticks

-- `s_is_req_valid`. `allocated` is whether `malloc` succeeds; the flags that a refusal leaves as
-- they were are not read after it.
unfoldable pub is_req_valid : Bool → Req → Checked
is_req_valid allocated r =
    let ticks = least_ticks r in
    let nocapture = ticks == 0 in
    if not r.basefname
    then refusal req_einv r
    else if not r.measurement && not allocated
    then refusal req_efail r
    else if not
        (r.ovrwtmode == ovrwt_none || (r.ovrwtmode == ovrwt_relink || r.ovrwtmode == ovrwt_file))
    then refusal req_einv r
    else if not (r.capmode == cap_auto || (r.capmode == cap_caponly || r.capmode == cap_convonly))
    then refusal req_einv r
    else if (r.capmode == cap_convonly && not nocapture) || (r.capmode == cap_caponly && nocapture)
    then (let v = refusal req_einv r in record v { min_ticks = ticks; nocapture = nocapture })
    else record {
      status = req_ok;
      min_ticks = ticks;
      nocapture = nocapture;
      noconvert = (nocapture && not (r.capmode == cap_convonly)) || r.capmode == cap_caponly;
      nooverwrite = r.ovrwtmode == ovrwt_none;
    }

-- What the system answers: the return of `s_task_construct_filenames`, of `s_conv_data`, of `s_stats_read`
-- with what `st` holds then, of the opening of the files, whether there is a statistics file, and whether it is
-- deleted.
pub record System : Type 0 where
  pub allocated : Bool
  pub filenames : ℕ
  pub conv_data : ℕ
  pub stats_read : ℕ × Stats
  pub open_files : ℕ
  pub stat_exists : Bool
  pub unlinked : Bool

-- The job, and whether `basefname` is set, which is how a job in progress is told.
pub record Job : Type 0 where
  pub cap : Cap
  pub named : Bool
  pub active : Bool

-- `s_send_err`.
pub send_err : ℕ → Job → Job
send_err status j =
    let c = j.cap in
    record j { cap = record c { replies = (status, no_stats) ∷ c.replies }; named = false }

-- `s_stats_send`.
pub stats_send : ℕ → Job → Job
stats_send status j =
    let c = j.cap in
    record j {
      cap = record c {
        st = no_stats;
        stream = no_stream;
        tick = no_tick;
        recording = false;
        replies = (status, c.st) ∷ c.replies;
      };
      named = false;
    }

-- The assertions of `s_open`.
unfoldable pub may_open : Cap → Bool
may_open c =
    (c.st.ticks == 0 && (c.st.events == 0 && (c.st.traces == 0 && c.st.hists == 0)))
    && ((c.st.frames == 0 && (c.st.frames_lost == 0 && c.st.frames_dropped == 0))
        && (c.stream.size == 0 && (c.stream.cur_size == 0 && c.tick.nframes == 0)))

-- A query of the status, or a conversion.
pub query : System → Bool → Job → Job
query y noconvert j =
    if not noconvert && not (y.conv_data == req_ok)
    then send_err y.conv_data j
    else let c = j.cap in
      let j' = record j { cap = record c { st = y.stats_read.1 } } in
      if y.stats_read.0 == req_ok then stats_send req_ok j' else send_err y.stats_read.0 j'

-- A capture, up to `task_activate`.
pub begin : System → Job → Outcome Job
begin y j =
    check (may_open j.cap)
    >> (if not (y.open_files == req_ok)
        then ok (send_err y.open_files j)
        else if y.stat_exists && not y.unlinked
        then ok (send_err req_efail j)
        else ok (record j { active = true }))

-- What is received, once it is checked.
abbrev pub taken : System → Req → Job → Job
taken y r j =
    let v = is_req_valid y.allocated r in
    let c = j.cap in
    record j {
      cap = record c {
        min_ticks = v.min_ticks;
        min_events = r.min_events;
        noconvert = v.noconvert;
      };
      named = r.basefname;
    }

-- `task_cap_req_hn`.
pub req_hn : System → Req → Job → Outcome Job
req_hn y r j =
    let v = is_req_valid y.allocated r in
    check (not j.cap.recording)
    >> (if not (v.status == req_ok)
        then ok (send_err v.status (taken y r j))
        else if not (y.filenames == req_ok)
        then ok (send_err y.filenames (taken y r j))
        else if v.nocapture
        then ok (query y v.noconvert (taken y r j))
        else begin y (taken y r j))
