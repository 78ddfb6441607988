-- ===== src/Capture/Request/Reactions.antt =====
-- What `task_cap_req_hn` does with a request.
use tes_0mq.Base.{
  ◌+◌, ◌<◌, ◌≡◌, ◌≢◌, Bool, true, false, not, ◌&&◌, ◌==◌, if◌then◌else◌, arith, abort, ◌>>=◌,
  length,
}
use tes_0mq.Capture.{req_ok}
use tes_0mq.Capture.Request.{
  Req, System, Job, is_req_valid, send_err, may_open, query, begin, req_hn,
}

-- Whether a request starts a capture.
abbrev pub accepted : System → Req → Bool
accepted y r =
    let v = is_req_valid y.allocated r in
    (v.status == req_ok && (y.filenames == req_ok && not v.nocapture))
    && (y.open_files == req_ok && not (y.stat_exists && not y.unlinked))

-- No job is in progress, and the counters, the stream and the tick are cleared, which `s_open` asserts.
pub record Idle (j : Job) : Type 0 where
  pub recording : j.cap.recording ≡ false
  pub active : j.active ≡ false
  pub fresh : may_open j.cap ≡ true

pub record Reacted (y : System) (r : Req) (j j' : Job) : Type 0 where
  pub active : j'.active ≡ accepted y r
  pub named : j'.named ≡ accepted y r
  pub replies : length j'.cap.replies ≡ length j.cap.replies + (if accepted y r then 0 else 1)
  pub recording : j'.cap.recording ≡ false
  pub again :
      accepted y r ≡ false
      → ((is_req_valid y.allocated r).nocapture ≡ true → y.stats_read.0 ≡ req_ok)
      → Idle j'

-- A statistics file that is too short is read, as far as it goes, into the counters of the task, and an
-- error is sent that leaves them there. The assertions of the next request to capture then fail: a query
-- of the status whose read ends with an error and with a number of ticks other than zero is answered, but
-- every valid request for a capture after it, whose names are fine, ends the process.
pub req_hn-stale :
    (y y' : System) (r r' : Req) (j : Job)
    → Idle j
    → (is_req_valid y.allocated r).status ≡ req_ok
    → (is_req_valid y.allocated r).nocapture ≡ true
    → (is_req_valid y.allocated r).noconvert ≡ true
    → y.filenames ≡ req_ok
    → y.stats_read.0 ≢ req_ok
    → 0 < y.stats_read.1.ticks
    → (is_req_valid y'.allocated r').status ≡ req_ok
    → (is_req_valid y'.allocated r').nocapture ≡ false
    → y'.filenames ≡ req_ok
    → (req_hn y r j >>= (λ j'. req_hn y' r' j')) ≡ abort
unfolding req_hn query begin may_open send_err
req_hn-stale y y' r r' j i v nc nv f e pos v' c' f' = ground (arith, i.recording)
