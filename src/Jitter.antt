-- ===== src/Jitter.antt =====
-- src/bin/tesd_task_jitter.c: the task that publishes histograms of the delays between the events of a
-- reference channel and those of the other. `sent` holds the histograms that went out, the last one first;
-- `accepts` is whether `zmq_send` takes one after those.
pub mod Bins
pub mod Points
pub mod Looped
pub mod Published
pub mod Keeps
use tes_0mq.Base.{
  ℕ, zero, suc, ◌+◌, ◌-◌, ◌%◌, ◌^◌, Bool, true, false, not, ◌&&◌, ◌||◌, ltb, leb, ◌==◌,
  if◌then◌else◌, Outcome, ok, abort, hang, ◌>>=◌, ◌>>◌, check, Option, none, some, List, [], ◌∷◌,
}
use tes_0mq.Packet.{
  Packet, is_tick, is_event, is_trace_long, is_header, event_nums, event_toff, evt_ch,
}
use tes_0mq.Task.{Rc, fine, error}

abbrev pub max_points : ℕ
max_points = 16

-- TES_JITTER_NHISTS, TES_JITTER_NBINS and BIN_OFFSET.
abbrev pub nhists : ℕ
nhists = 1

abbrev pub nbins : ℕ
nbins = 1022

abbrev pub bin_offset : ℕ
bin_offset = 511

-- UINT16_MAX
abbrev pub max_delay : ℕ
max_delay = 65535

pub record Conf : Type 0 where
  pub ticks : ℕ
  pub ref_ch : ℕ

-- `hid` is -1 for the point that is next.
pub record Point : Type 0 where
  pub since : ℕ
  pub until : ℕ
  pub hid : Option ℕ

abbrev pub no_point : Point
no_point = record { since = 0; until = 0; hid = some 0 }

-- `ref` and `chs` are the channels in the headers of the histogram, `bins` its bins.
pub record Histogram : Type 0 where
  pub ref : ℕ
  pub chs : ℕ → ℕ
  pub bins : ℕ → ℕ → ℕ

pub record Jitter : Type 0 where
  pub cur_conf : Conf
  pub conf : Conf
  pub hist : Histogram
  pub ticks : ℕ
  pub points : ℕ → Point
  pub npts : ℕ
  pub publishing : Bool
  pub sent : List Histogram

abbrev pub put_point : ℕ → Point → (ℕ → Point) → ℕ → Point
put_point p v points k = if k == p then v else points k

abbrev pub has_none : Option ℕ → Bool
has_none none = true
has_none (some h) = false

abbrev pub is_ghost : Point → Bool
is_ghost v = has_none v.hid

-- The sum of two delays, which saturates.
pub add_delay : ℕ → ℕ → ℕ
add_delay a delay = if ltb max_delay (a + delay) then max_delay else a + delay

abbrev pub add_to_since : ℕ → Point → Point
add_to_since delay v = record v { since = add_delay v.since delay }

abbrev pub add_to_until : ℕ → Point → Point
add_to_until delay v = record v { until = add_delay v.until delay }

-- The loop over the first `n` points.
pub add_to_first : ℕ → ℕ → (ℕ → Point) → ℕ → Point
add_to_first zero delay points = points
add_to_first (suc n) delay points =
    let before = add_to_first n delay points in put_point n (add_to_until delay (before n)) before

-- The bin of a point. Below the offset the difference stops at 0, as the bin does.
pub bin_of : Point → ℕ
bin_of v =
    if ltb v.until v.since
    then bin_offset - v.until
    else if leb nbins (v.since + bin_offset)
    then nbins - 1
    else v.since + bin_offset

abbrev pub count_in : ℕ → ℕ → (ℕ → ℕ → ℕ) → ℕ → ℕ → ℕ
count_in h b bins k c = if k == h && c == b then (bins k c + 1) % 2 ^ 32 else bins k c

-- With the assertions on the histogram of the point.
pub save_in : Option ℕ → ℕ → (ℕ → ℕ → ℕ) → Outcome (ℕ → ℕ → ℕ)
save_in none b bins = abort
save_in (some h) b bins = check (ltb h nhists) >> ok (count_in h b bins)

-- The loop of `s_save_points` over the first `n` points.
pub save_first : ℕ → (ℕ → Point) → (ℕ → ℕ → ℕ) → Outcome (ℕ → ℕ → ℕ)
save_first zero points bins = ok bins
save_first (suc n) points bins =
    save_first n points bins >>= (λ before. save_in (points n).hid (bin_of (points n)) before)

abbrev pub ghost : Point
ghost = record { since = 0; until = 0; hid = none }

-- `s_save_points`.
pub save_points : Jitter → Outcome Jitter
save_points d =
    let h = d.hist in
    save_first (d.npts - 1) d.points h.bins >>= (λ counted. ok (record d {
      hist = record h { bins = counted };
      points = put_point 0 ghost d.points;
      npts = 1;
    }))

-- The channel of histogram `h`: the counter of the loop skips the reference channel.
pub channel : ℕ → ℕ → ℕ
channel ref zero = if 0 == ref then 1 else 0
channel ref (suc h) = let ch = channel ref h + 1 in if ch == ref then ch + 1 else ch

-- `s_prep_next`.
pub prep_next : Jitter → Outcome Jitter
prep_next d =
    let empty : Histogram = record {
      ref = d.conf.ref_ch;
      chs = channel d.conf.ref_ch;
      bins = λ k c. 0;
    } in
    let d' = record d { cur_conf = d.conf; hist = empty; ticks = 0 } in
    if d.publishing
    then check (ltb 0 d.npts)
      >> (check (is_ghost (d.points (d.npts - 1)))
          >> ok (record d' {
            points = put_point 0 (d.points (d.npts - 1)) d.points;
            npts = 1;
            ticks = 1;
          }))
    else check (d.npts == 0) >> ok d'

-- A request: the channel and the ticks of the configuration that is applied next.
pub req_hn : ℕ → ℕ → Jitter → Jitter
req_hn ref_ch ticks d =
    if ticks == 0 || ltb nhists ref_ch
    then d
    else record d { conf = record { ticks = ticks; ref_ch = ref_ch } }

-- The point that is next becomes one of channel `ch`, and a new one follows it.
pub new_point : ℕ → Jitter → Jitter
new_point ch d =
    let entry = d.points (d.npts - 1) in
    let named = record entry { hid = some (if ltb d.cur_conf.ref_ch ch then ch - 1 else ch) } in
    if ltb d.npts (max_points - 1)
    then record d {
      points =
          put_point d.npts (record entry { until = 0; hid = none })
            (put_point (d.npts - 1) named d.points);
      npts = d.npts + 1;
    }
    else d

-- An event after its delay is added where it is due: `is_ref` and `make_new` of the source.
pub after_delay : Bool → Bool → ℕ → Jitter → Outcome Jitter
after_delay is_ref make_new ch d = (if is_ref then save_points d else ok d) >>= (λ d'.
    check (ltb 0 d'.npts)
    >> (if make_new then check (not (ch == d'.cur_conf.ref_ch)) >> ok (new_point ch d') else ok d'))

abbrev pub add_delays : Bool → ℕ → Jitter → Jitter
add_delays is_ref delay d =
    let points = add_to_first (d.npts - 1) delay d.points in
    record d {
      points =
          if is_ref
          then points
          else put_point (d.npts - 1) (add_to_since delay (points (d.npts - 1))) points;
    }

-- One event; true where the handler returns in the loop.
pub one_event : Packet → Bool → ℕ → Jitter → Outcome (Bool × Jitter)
one_event p first_only e d =
    let ch = evt_ch p e in
    let is_ref = ch == d.cur_conf.ref_ch && not (is_tick p) in
    check (not first_only || e == 0)
    >> (if not is_ref && d.npts == 0
        then ok (true, d)
        else after_delay is_ref (not is_ref && not (is_tick p)) ch
            (add_delays is_ref (event_toff p e) d)
          >>= (λ d'. ok (false, d')))

-- The loop over `n` events, from event `e` on.
pub events : ℕ → ℕ → Packet → Bool → Jitter → Outcome (Bool × Jitter)
events zero e p first_only d = ok (false, d)
events (suc n) e p first_only d =
    one_event p first_only e d
    >>= (λ (stop, d'). if stop then ok (true, d') else events n (e + 1) p first_only d')

abbrev pub ticked : Packet → Jitter → Jitter
ticked p d = if is_tick p then record d { ticks = (d.ticks + 1) % 2 ^ 64 } else d

module _ (accepts : List Histogram → Histogram → Bool) where
  -- From the test whether the histogram is due.
  pub publish : Jitter → Outcome (Rc × Jitter)
  publish d =
      if d.ticks == (d.cur_conf.ticks + 1) % 2 ^ 64
      then if accepts d.sent d.hist
        then prep_next (record d { sent = d.hist ∷ d.sent })
          >>= (λ d'. check (leb d'.ticks d'.cur_conf.ticks) >> ok (fine, d'))
        else ok (error, d)
      else check (leb d.ticks d.cur_conf.ticks) >> ok (fine, d)

  -- `task_jitter_pkt_hn`.
  pub pkt_hn : Packet → Bool → Jitter → Outcome (Rc × Jitter)
  pkt_hn p bad d =
      let d0 = record d { publishing = d.publishing || is_tick p } in
      check (ltb 0 d.cur_conf.ticks)
      >> (check (ltb d.npts max_points)
          >> (if (not d0.publishing || (bad || not (is_event p)))
                || (is_trace_long p && not (is_header p))
              then ok (fine, d0)
              else event_nums p >>= (λ n.
                events n 0 p (is_tick p || is_trace_long p) (ticked p d0)
                >>= (λ (stop, d'). if stop then ok (fine, d') else publish d'))))

-- `task_jitter_init` and `task_jitter_wakeup`.
abbrev pub init_conf : Conf
init_conf = record { ticks = 5; ref_ch = 0 }

pub wakeup : Jitter → Outcome Jitter
wakeup d = prep_next (record d { points = λ k. no_point; publishing = false; npts = 0 })
