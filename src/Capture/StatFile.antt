-- ===== src/Capture/StatFile.antt =====
-- `s_stats_read` and `s_stats_write` of src/bin/tesd_task_cap.c. What open, read, write and close answer is a
-- parameter.
pub mod Bytes
pub mod Kept
use tes_0mq.Base.{
  ℕ, ◌+◌, ◌≡◌, refl, Bool, true, false, ◌==◌, if◌then◌else◌, Outcome, ok, ◌>>◌, check, Option, none,
  some, List, [], ◌∷◌, ◌++◌, length, take, drop,
}
use tes_0mq.Capture.{Stats, req_ok}
use tes_0mq.Capture.Request.{req_efail}
use tes_0mq.Capture.Index.{le_bytes, from_le}
use tes_0mq.Capture.Paths.{Text}

-- TES_CAP_REQ_EFIN and STAT_LEN.
abbrev pub req_efin : ℕ
req_efin = 7

abbrev pub stat_len : ℕ
stat_len = 64

-- `open` for reading, and for writing with O_CREAT and O_EXCL, gives a descriptor or fails. `read` gives what is
-- read and `write` how much is written, nothing for a return of -1.
pub record Disk (S : Type 0) : Type 0 where
  pub open_read : Text → S → Option ℕ × S
  pub open_new : Text → S → Option ℕ × S
  pub read : ℕ → ℕ → S → List ℕ × S
  pub write : ℕ → List ℕ → S → ℕ × S
  pub close : ℕ → S → S

-- `st` with its member `errors`, and `statfd`, which is none for -1.
pub record StatJob : Type 0 where
  pub st : Stats
  pub errors : ℕ
  pub statfd : Option ℕ

-- `struct s_stats_t` in memory, and what is found there.
unfoldable pub stats_bytes : StatJob → List ℕ
stats_bytes x =
    le_bytes 8 x.st.ticks
    ++ (le_bytes 8 x.st.events
        ++ (le_bytes 8 x.st.traces
            ++ (le_bytes 8 x.st.hists
                ++ (le_bytes 8 x.st.frames
                    ++ (le_bytes 8 x.st.frames_lost
                        ++ (le_bytes 8 x.st.frames_dropped ++ le_bytes 8 x.errors))))))

-- Word `i` of the bytes.
abbrev pub word : ℕ → List ℕ → ℕ
word i bs = from_le (take 8 (drop i bs))

unfoldable pub stats_of : List ℕ → Stats
stats_of bs = record {
  ticks = word 0 bs;
  events = word 8 bs;
  traces = word 16 bs;
  hists = word 24 bs;
  frames = word 32 bs;
  frames_lost = word 40 bs;
  frames_dropped = word 48 bs;
}

-- What is read is copied over the start of the counters.
unfoldable pub overwritten : StatJob → List ℕ → StatJob
overwritten x bs =
    let all = bs ++ drop (length bs) (stats_bytes x) in
    record { st = stats_of all; errors = word 56 all; statfd = none }

abbrev pub is_closed : Option ℕ → Bool
is_closed none = true
is_closed (some fd) = false

module _ {S : Type 0} (D : Disk S) where
  -- `s_stats_read` from what `open` has returned.
  unfoldable pub read_open : StatJob → Option ℕ × S → ℕ × StatJob × S
  read_open x (none, s) = (req_efail, x, s)
  read_open x (some fd, s) =
      let (bs, s') = D.read fd stat_len s in
      ((if length bs == stat_len then req_ok else req_efail), overwritten x bs, D.close fd s')

  unfoldable pub stats_read : Text → StatJob → S → Outcome (ℕ × StatJob × S)
  stats_read name x s = check (is_closed x.statfd) >> ok (read_open x (D.open_read name s))

  -- `s_stats_write` from what `open` has returned.
  unfoldable pub write_open : StatJob → Option ℕ × S → ℕ × StatJob × S
  write_open x (none, s) = (req_efin, x, s)
  write_open x (some fd, s) =
      let (n, s') = D.write fd (stats_bytes x) s in
      ((if n == stat_len then req_ok else req_efin), x, D.close fd s')

  unfoldable pub stats_write : Text → StatJob → S → Outcome (ℕ × StatJob × S)
  stats_write name x s = check (is_closed x.statfd) >> ok (write_open x (D.open_new name s))
