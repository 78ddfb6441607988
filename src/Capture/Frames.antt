-- ===== src/Capture/Frames.antt =====
-- `task_cap_pkt_hn` of src/bin/tesd_task_cap.c, part by part.
pub mod Aside
pub mod Turns
pub mod Streaming
pub mod Following
pub mod Turned
pub mod Keeps
pub mod Captured
pub mod Over
pub mod Job
pub mod Slips
use tes_0mq.Base.{
  ℕ, zero, suc, ◌+◌, ◌-◌, ◌*◌, ◌/◌, ◌%◌, ◌^◌, Bool, true, false, not, ◌&&◌, ◌||◌, ltb, leb, ◌==◌,
  if◌then◌else◌, Outcome, ok, abort, hang, ◌>>=◌, ◌>>◌, check, List, [], ◌∷◌, ◌++◌,
}
use tes_0mq.Packet.{
  Packet, hdr_len, is_header, is_mca, is_tick, is_trace_long, esize, etype_pkt, etype_tr,
  trace_size, mca_size, event_nums, bytes,
}
use tes_0mq.Task.{Rc, fine, sleep}
use tes_0mq.Capture.{
  Dset, fidx, midx, tidx, ridx, bdat, mdat, tdat, edat, Files, req_ok, req_ewrt, Stats, no_stats,
  Stream, no_stream, Tick, no_tick, Cap, count,
}
use tes_0mq.Capture.Index.{Entry, fidx_bytes, tidx_bytes, sidx_bytes}

-- FTYPE_*, with `linear_etype`.
pub linear_etype : Packet → ℕ
linear_etype p = if etype_pkt p == 3 then 3 + etype_tr p else etype_pkt p

pub frame_type : Bool → Packet → ℕ
frame_type bad p =
    if bad then 9 else if is_mca p then 8 else if is_tick p then 7 else linear_etype p

-- The file for the payload.
pub choose : Bool → Packet → Dset
choose bad p = if bad then bdat else if is_mca p then mdat else if is_tick p then tdat else edat

-- Whether the entry says that an event frame differs from the one before.
pub is_changed : Bool → Packet → Cap → Bool
is_changed bad p d =
    not (bad || (is_mca p || is_tick p))
    && (ltb 1 d.st.frames
        && (not (d.prev_etype == linear_etype p) || not (d.prev_esize == esize p)))

-- `st.frames - 1`, in 32 bits.
abbrev pub frame_no : Cap → ℕ
frame_no d = (d.st.frames + 2 ^ 64 - 1) % 2 ^ 32

-- An event frame: what it leaves for the next one, and the index of the tick. `prev_esize` has 8 bits.
pub note_event : Packet → Cap → Cap
note_event p d =
    let t = d.tick in
    record d {
      prev_esize = esize p % 2 ^ 8;
      prev_etype = linear_etype p;
      tick =
          if t.nframes == 0
          then record t { start_frame = frame_no d; nframes = (t.nframes + 1) % 2 ^ 32 }
          else record t { stop_frame = frame_no d; nframes = (t.nframes + 1) % 2 ^ 32 };
    }

abbrev pub new_tick : Cap → Cap
new_tick d = let t = d.tick in record d { tick = record t { nframes = 0 } }

abbrev pub count_frame : ℕ → Cap → Cap
count_frame missed d =
    let st = d.st in
    record d {
      st = record st { frames = count st.frames 1; frames_lost = count st.frames_lost missed };
    }

-- How a frame stands to the stream that is being received.
pub continues : Packet → ℕ → Stream → Bool
continues p missed s =
    ((is_trace_long p && s.is_event) || (is_mca p && not s.is_event))
    && (ltb 0 s.size && (not (is_header p) && missed == 0))

pub starts : Packet → Stream → Bool
starts p s = (is_trace_long p || is_mca p) && (is_header p && s.size == 0)

pub interrupts : Packet → ℕ → Stream → Bool
interrupts p missed s = not (continues p missed s) && ltb 0 s.size

abbrev pub dropped : Stream → Stream
dropped s = record s { discard = true; size = 0; cur_size = 0 }

-- A stream that starts at an offset into its file.
pub started : Packet → ℕ → Stream → Stream
started p at s = record s {
  size = if is_trace_long p then trace_size p else mca_size p;
  is_event = is_trace_long p;
  discard = false;
  start = at;
}

-- The assertions on the stream before the frame.
abbrev pub stream_ok : Stream → Bool
stream_ok s =
    if ltb 0 s.size
    then ltb 0 s.cur_size && (ltb s.cur_size s.size && not s.discard)
    else s.cur_size == 0

-- The assertion where the frame interrupts.
pub may_interrupt : Packet → ℕ → Stream → Bool
may_interrupt p missed s =
    is_header p
    || (ltb 0 missed
        || ((is_trace_long p && not s.is_event)
            || ((is_mca p && s.is_event) || (not (is_trace_long p) && not (is_mca p)))))

module _ {S : Type 0} (F : Files S) where
  -- The indices of the ticks and of the event before.
  pub index_tick : Bool → Packet → Cap → S → Outcome (Bool × Cap × S)
  index_tick bad p d s =
      if bad || is_mca p
      then ok (false, d, s)
      else if is_tick p
      then if ltb 0 d.st.ticks
        then F.put tidx (tidx_bytes d.tick) s >>= (λ (e, s'). ok (e, new_tick d, s'))
        else ok (false, new_tick d, s)
      else ok (false, note_event p d, s)

  -- A stream that is complete: its index is written, and it is counted.
  pub complete_stream : Packet → Cap → S → Outcome (Bool × Cap × S)
  complete_stream p d s =
      let st = d.st in
      let c = d.stream in
      let done = record c { span = c.size; size = 0; cur_size = 0 } in
      F.put (if is_trace_long p then ridx else midx) (sidx_bytes done) s >>= (λ (e, s'). ok (
        e,
        record d {
          st =
              if is_trace_long p
              then record st { events = count st.events 1; traces = count st.traces 1 }
              else record st { hists = count st.hists 1 };
          stream = done;
        },
        s',
      ))

  -- The bytes of a frame are added to its stream.
  pub extend_stream : Packet → ℕ → Cap → S → Outcome (Bool × Cap × S)
  extend_stream p n d s =
      let c = d.stream in
      let total = c.cur_size + n in
      if ltb c.size total
      then ok (false, record d { stream = dropped c }, s)
      else if total == c.size
      then complete_stream p (record d { stream = record c { cur_size = total } }) s
      else ok (false, record d { stream = record c { cur_size = total } }, s)

  -- A frame that is neither of a trace nor of a histogram.
  pub plain_frame : Packet → Cap → S → Outcome (Bool × Cap × S)
  plain_frame p d s =
      let st = d.st in
      if is_tick p
      then ok (
        ltb d.min_ticks (count st.ticks 1) && leb d.min_events st.events,
        record d { st = record st { ticks = count st.ticks 1 } },
        s,
      )
      else event_nums p
        >>= (λ n. ok (false, record d { st = record st { events = count st.events n } }, s))

  -- What follows where the stream is started, continued, or neither; the stream before is the argument
  -- `before`, and `d` is the state once an interrupted stream is dropped.
  pub follow_stream : Packet → ℕ → ℕ → Stream → Cap → S → Outcome (Bool × Cap × S)
  follow_stream p n missed before d s =
      let c = d.stream in
      if starts p before
      then extend_stream p n (record d { stream = started p (F.offset (choose false p) s) c }) s
      else if continues p missed before
      then check (not c.discard && missed == 0) >> extend_stream p n d s
      else if is_mca p || is_trace_long p
      then if interrupts p missed before
        then ok (false, d, s)
        else check (not (is_header p) && c.size == 0)
          >> ok (false, record d { stream = record c { discard = true } }, s)
      else plain_frame p d s

  -- The statistics and the index of the stream.
  pub update_stream : Packet → ℕ → ℕ → Cap → S → Outcome (Bool × Cap × S)
  update_stream p n missed d s =
      check (stream_ok d.stream)
      >> (if interrupts p missed d.stream
          then check (may_interrupt p missed d.stream)
            >> follow_stream p n missed d.stream (record d { stream = dropped d.stream }) s
          else follow_stream p n missed d.stream d s)

  -- From the label `done`: the payload and the entry of the frame, and whether either write failed.
  pub write_frame : Packet → ℕ → Dset → Entry → Cap → S → Outcome (Bool × S)
  write_frame p n dset e d s = F.put dset (bytes p hdr_len n) s >>= (λ (e1, s1).
      F.put fidx (fidx_bytes e) s1 >>= (λ (e2, s2).
        check (d.st.frames * 16 % 2 ^ 64 == F.offset fidx s2 % 2 ^ 64) >> ok (e1 || e2, s2)))

  -- The status of a job that is over.
  pub final_status : Cap → S → ℕ
  final_status d s =
      let written = F.stats_write s in
      if ltb d.st.ticks d.min_ticks || ltb d.st.events d.min_events
      then req_ewrt
      else if written == req_ok && not d.noconvert
      then F.conv_data s
      else written

  -- The end of a job, with `s_stats_send`.
  pub finish : Cap → S → Outcome (Rc × Cap × S)
  finish d s = F.flush s >>= (λ s'.
      let s'' = F.close s' in
      ok (
        sleep,
        record d {
          st = no_stats;
          stream = no_stream;
          tick = no_tick;
          recording = false;
          replies = (final_status d s'', d.st) ∷ d.replies;
        },
        s'',
      ))

  -- The entry of a frame, before the stream is looked at.
  pub new_entry : ℕ → Packet → ℕ → ℕ → Bool → Cap → S → Entry
  new_entry stack p n missed bad d s = record {
    start = F.offset (choose bad p) s;
    span = n;
    esize = esize p;
    changed = is_changed bad p d;
    pt = frame_type bad p;
    hdr = false;
    seq = ltb 0 missed;
    stack = stack;
  }

  -- A frame of a capture that has begun, up to the check whether it is done.
  pub capture_frame : ℕ → Packet → ℕ → ℕ → Bool → Cap → S → Outcome (Bool × Cap × S)
  capture_frame stack p n missed bad d s =
      let d0 = count_frame missed d in
      index_tick bad p d0 s >>= (λ (e1, d1, s1).
        let entry = record (new_entry stack p n missed bad d0 s1) {
          hdr = not bad && starts p d1.stream;
        } in
        (if bad then ok (false, d1, s1) else update_stream p n missed d1 s1) >>= (λ (e2, d2, s2).
          write_frame p n (choose bad p) entry d2 s2
          >>= (λ (e3, s3). ok (e1 || (e2 || e3), d2, s3))))

  -- `task_cap_pkt_hn`, with NO_BAD_FRAMES, SAVE_HEADERS and SINGLE_FILE undefined, as they are.
  pub pkt_hn : ℕ → Packet → ℕ → ℕ → Bool → Cap → S → Outcome (Rc × Cap × S)
  pkt_hn stack p fl missed bad d s =
      let d0 = record d { recording = d.recording || is_tick p } in
      if not d0.recording
      then ok (fine, d, s)
      else capture_frame stack p ((fl + 2 ^ 16 - hdr_len) % 2 ^ 16) missed bad d0 s
        >>= (λ (over, d1, s1). if over then finish d1 s1 else ok (fine, d1, s1))
