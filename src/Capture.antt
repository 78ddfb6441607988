-- ===== src/Capture.antt =====
-- src/bin/tesd_task_cap.c: the task that captures frames to files. The eight files of a job stand behind
-- the interface `Files`; what opens, converts and counts them on the disk is a parameter there. File
-- offsets do not wrap, and the log messages are left out.
pub mod Buffer
pub mod Request
pub mod Index
pub mod Frames
pub mod Store
pub mod Conversion
pub mod Paths
pub mod StatFile
use tes_0mq.Base.{
  ℕ, zero, suc, ◌+◌, ◌-◌, ◌*◌, ◌/◌, ◌%◌, ◌^◌, Bool, true, false, not, ◌&&◌, ◌||◌, ltb, leb, ◌==◌,
  if◌then◌else◌, Outcome, Returns, List, [], ◌∷◌, ◌++◌, ◌≡◌, ◌<◌, ◌≤◌, length,
}
use tes_0mq.Packet.{mtu}

-- DSET_*, the files of a job.
pub data Dset : Type 0 where
  fidx midx tidx ridx bdat mdat tdat edat : Dset

abbrev pub dset_no : Dset → ℕ
dset_no fidx = 0
dset_no midx = 1
dset_no tidx = 2
dset_no ridx = 3
dset_no bdat = 4
dset_no mdat = 5
dset_no tdat = 6
dset_no edat = 7

-- The operations on the files. `put` is `s_try_queue_aiobuf`, with whether it reports an error, and
-- `offset` is `size + bufzone.waiting + bufzone.enqueued`. `flush` is `s_flush` and `close` is `s_close`.
-- `stats_write` and `conv_data` are what the functions of these names return.
pub record Files (S : Type 0) : Type 0 where
  pub put : Dset → List ℕ → S → Outcome (Bool × S)
  pub offset : Dset → S → ℕ
  pub flush : S → Outcome S
  pub close : S → S
  pub stats_write : S → ℕ
  pub conv_data : S → ℕ

-- What a call of `put` that succeeds does: it adds to the end of its file and leaves the others alone.
pub record Added {S : Type 0} (content : Dset → S → List ℕ) (d : Dset) (bs : List ℕ) (s s' : S)
    : Type 0 where
  pub here : content d s' ≡ content d s ++ bs
  pub elsewhere : (k : Dset) → (dset_no k == dset_no d) ≡ false → content k s' ≡ content k s

-- Files that take whatever is given to them.
pub record Faithful {S : Type 0} (F : Files S) : Type 1 where
  pub Good : S → Type 0
  pub content : Dset → S → List ℕ
  pub put-Added :
      (d : Dset) (bs : List ℕ) (s : S)
      → Good s
      → 0 < length bs
      → length bs ≤ mtu
      → Returns (λ (e, s'). (e ≡ false) × Good s' × Added content d bs s s') (F.put d bs s)
  pub offset-length : (d : Dset) (s : S) → Good s → F.offset d s ≡ length (content d s)
  pub flush-Good : (s : S) → Good s → Returns Good (F.flush s)
  pub close-Good : (s : S) → Good s → Good (F.close s)
  pub content-close : (d : Dset) (s : S) → content d (F.close s) ≡ []

-- TES_CAP_REQ_*.
abbrev pub req_ok : ℕ
req_ok = 0

abbrev pub req_einv : ℕ
req_einv = 1

abbrev pub req_ewrt : ℕ
req_ewrt = 5

-- `struct s_stats_t` as far as it is sent to the client.
pub record Stats : Type 0 where
  pub ticks : ℕ
  pub events : ℕ
  pub traces : ℕ
  pub hists : ℕ
  pub frames : ℕ
  pub frames_lost : ℕ
  pub frames_dropped : ℕ

abbrev pub no_stats : Stats
no_stats = record {
  ticks = 0;
  events = 0;
  traces = 0;
  hists = 0;
  frames = 0;
  frames_lost = 0;
  frames_dropped = 0;
}

-- `cur_stream`, the multi-frame trace or histogram that is being received.
pub record Stream : Type 0 where
  pub start : ℕ
  pub span : ℕ
  pub size : ℕ
  pub cur_size : ℕ
  pub is_event : Bool
  pub discard : Bool

abbrev pub no_stream : Stream
no_stream = record {
  start = 0;
  span = 0;
  size = 0;
  cur_size = 0;
  is_event = false;
  discard = false;
}

-- `cur_tick`.
pub record Tick : Type 0 where
  pub start_frame : ℕ
  pub stop_frame : ℕ
  pub nframes : ℕ

abbrev pub no_tick : Tick
no_tick = record { start_frame = 0; stop_frame = 0; nframes = 0 }

-- `struct s_data_t`, without the files and their names. `replies` holds what was sent, the last first.
pub record Cap : Type 0 where
  pub st : Stats
  pub stream : Stream
  pub tick : Tick
  pub prev_esize : ℕ
  pub prev_etype : ℕ
  pub min_ticks : ℕ
  pub min_events : ℕ
  pub noconvert : Bool
  pub recording : Bool
  pub replies : List (ℕ × Stats)

-- A 64-bit counter.
abbrev pub count : ℕ → ℕ → ℕ
count n k = (n + k) % 2 ^ 64
