-- ===== src/Capture/Frames/Over.antt =====
-- `task_cap_pkt_hn` as a whole, and a run of frames, where no write fails.
use tes_0mq.Base.{
  ℕ, ◌+◌, ◌-◌, ◌%◌, ◌^◌, ◌<◌, ◌≤◌, ◌≡◌, refl, sym, ap, ◌∙◌, subst, Bool, true, false, false≢true,
  not, ◌&&◌, ◌||◌, ltb, leb, ◌==◌, if◌then◌else◌, arith, ok, Returns, Returns-bind, Returns-if,
  List, ◌∷◌, length,
}
use tes_0mq.Packet.{Packet, hdr_len, mtu, is_tick}
use tes_0mq.Task.{Rc, fine, sleep}
use tes_0mq.Capture.{fidx, Files, Faithful, req_ok, Stats, no_stats, no_stream, no_tick, Cap, count}
use tes_0mq.Capture.Frames.{capture_frame, final_status, finish, pkt_hn}
use tes_0mq.Capture.Frames.Streaming.{Countable}
use tes_0mq.Capture.Frames.Keeps.{Inv}
use tes_0mq.Capture.Frames.Captured.{Captured, tallied, capture_frame-Captured}

-- Whether a frame ends the job.
abbrev pub is_last : Packet → Bool → Cap → Bool
is_last p bad d =
    (d.recording || is_tick p)
    && (not bad
        && (is_tick p && (ltb d.min_ticks (count d.st.ticks 1) && leb d.min_events d.st.events)))

module _ {S : Type 0} (F : Files S) (L : Faithful F) where
  -- The state is that of a task with no job.
  pub record Cleared (d : Cap) : Type 0 where
    pub st : d.st ≡ no_stats
    pub stream : d.stream ≡ no_stream
    pub tick : d.tick ≡ no_tick
    pub recording : d.recording ≡ false

  -- A job that is over is answered with its statistics, the last frame included, and its status is that of the
  -- last steps.
  pub record Answered (missed : ℕ) (d d' : Cap) (s' : S) : Type 0 where
    pub cleared : Cleared d'
    pub ticks : d.min_ticks < count d.st.ticks 1
    pub events : d.min_events ≤ d.st.events
    pub reply : d'.replies ≡ (
        (
          if F.stats_write s' == req_ok && not d.noconvert
              then F.conv_data s'
              else F.stats_write s',
          tallied missed d.st,
        )
        ∷ d.replies)

  pub record Handled (p : Packet) (missed : ℕ) (bad : Bool) (d : Cap) (s : S) (x : Rc × Cap × S)
      : Type 0 where
    pub inv : Inv F L x.1 x.2
    pub rc : x.0 ≡ (if is_last p bad d then sleep else fine)
    pub waits : (d.recording || is_tick p) ≡ false → (x.1 ≡ d) × (x.2 ≡ s)
    pub answered : is_last p bad d ≡ true → Answered missed d x.1 x.2

  abbrev final_of : Cap → S → ℕ
  final_of d s =
      if F.stats_write s == req_ok && not d.noconvert then F.conv_data s else F.stats_write s

  replied :
      (d d1 : Cap) (s : S)
      → d1.min_ticks ≡ d.min_ticks
      → d1.min_events ≡ d.min_events
      → d1.noconvert ≡ d.noconvert
      → d1.replies ≡ d.replies
      → d.min_ticks < d1.st.ticks
      → d.min_events ≤ d1.st.events
      → ◌≡◌ {A = List (ℕ × Stats)} ((final_status F d1 s, d1.st) ∷ d1.replies) (
          (
            if F.stats_write s == req_ok && not d.noconvert then F.conv_data s else F.stats_write s,
            d1.st,
          )
          ∷ d.replies)
  unfolding final_status
  replied d d1 s e1 e2 e3 e4 h k =
      let w : (ltb d1.st.ticks d1.min_ticks || ltb d1.st.events d1.min_events) ≡ false =
        ground arith in
      simp (w, e3, e4) refl

  finished :
      (p : Packet) (n missed : ℕ) (bad r : Bool) (d d1 : Cap) (s s1 : S)
      → (d.recording || is_tick p) ≡ true
      → Captured F L p n missed bad (record d { recording = r }) s (true, d1, s1)
      → Returns (Handled p missed bad d s) (finish F d1 s1)
  unfolding finish
  finished p n missed bad r d d1 s s1 e c =
      let last : is_last p bad d ≡ true = ground (arith, c.over) in
      let tally : d1.st ≡ tallied missed d.st = c.counted (ground arith) (ground arith) in
      let ticks : d1.st.ticks ≡ count d.st.ticks 1 = ap (λ (st : Stats). st.ticks) tally in
      let events : d1.st.events ≡ d.st.events = ap (λ (st : Stats). st.events) tally in
      let more : d.min_ticks < d1.st.ticks = ground arith in
      let enough : d.min_events ≤ d1.st.events = ground arith in
      Returns-bind L.Good (Handled p missed bad d s) (F.flush s1) _ (L.flush-Good s1 c.inv.good)
        (λ s' g. record {
          inv = record {
            good = L.close-Good s' g;
            well = refl;
            at = λ h. absurd (omega arith);
            entries = ap (λ l. length l % 2 ^ 64) (sym (L.content-close fidx s'));
          };
          rc = rw last;
          waits = λ f. absurd (false≢true (sym f ∙ e));
          answered = λ _. record {
            cleared = record { st = refl; stream = refl; tick = refl; recording = refl };
            ticks = subst (λ k. d.min_ticks < k) ticks more;
            events = subst (λ k. d.min_events ≤ k) events enough;
            reply =
                replied d d1 (F.close s') c.job.ticks c.job.events c.job.noconvert c.job.replies
                  more enough
                ∙ ap (λ st. (final_of d (F.close s'), st) ∷ d.replies) tally;
          };
        })

  -- `task_cap_pkt_hn`, on a frame longer than its header and no longer than the longest frame, fails no
  -- assertion and keeps the state and the files in order. Before the first tick it does nothing. It ends
  -- the job, and puts the task to sleep, exactly where a frame without errors is a tick, by which there are
  -- more ticks than the client asked for and no fewer events. The job is then answered with its statistics,
  -- all of them: those before the frame, with the frame counted, as a tick, and the frames lost before it; and with the status of the statistics file or, where that is
  -- fine and was asked for, of the conversion; the task is left with no job and empty files. It is taken
  -- for granted that the files keep their promise, and that the events of a frame without errors, where
  -- they have to be counted, can be.
  pub pkt_hn-Handled :
      (stack : ℕ) (p : Packet) (fl missed : ℕ) (bad : Bool) (d : Cap) (s : S)
      → Inv F L d s
      → hdr_len < fl
      → fl ≤ mtu
      → (bad ≡ false → Countable F L p)
      → Returns (Handled p missed bad d s) (pkt_hn F stack p fl missed bad d s)
  unfolding pkt_hn
  pkt_hn-Handled stack p fl missed bad d s v lo hi ev =
      let d0 = record d { recording = d.recording || is_tick p } in
      let n = (fl + 2 ^ 16 - hdr_len) % 2 ^ 16 in
      Returns-if (Handled p missed bad d s) (not (d.recording || is_tick p)) _ _
        (λ t. record {
          inv = v;
          rc = ground arith;
          waits = λ _. (refl, refl);
          answered = λ k. absurd (ground arith);
        })
        (λ t.
          Returns-bind (Captured F L p n missed bad d0 s) (Handled p missed bad d s)
            (capture_frame F stack p n missed bad d0 s)
            (λ (over, d1, s1). if over then finish F d1 s1 else ok (fine, d1, s1))
            (capture_frame-Captured F L p n missed (omega arith) (omega arith) stack bad d0 s
              (record { good = v.good; well = v.well; at = v.at; entries = v.entries }) ev)
            (λ (over, d1, s1) c.
              Returns-if (Handled p missed bad d s) over _ _
                (λ o.
                  finished p n missed bad (d.recording || is_tick p) d d1 s s1 (ground arith)
                    (subst (λ b. Captured F L p n missed bad d0 s (b, d1, s1)) o c))
                (λ o. record {
                  inv = c.inv;
                  rc = ground (arith, c.over);
                  waits = λ f. absurd (ground arith);
                  answered = λ k. absurd (ground (arith, c.over));
                })))
