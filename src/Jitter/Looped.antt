-- ===== src/Jitter/Looped.antt =====
-- The loop of `task_jitter_pkt_hn` over the events of a frame.

use tes_0mq.Base.{
  ℕ, zero, suc, ◌+◌, ◌<◌, ◌≤◌, ◌≡◌, refl, sym, ◌∙◌, subst, ◌⊎◌, inr, Bool, true, false, false≢true,
  not, ◌&&◌, ◌||◌, ◌==◌, arith, Returns, Returns-bind, Returns-check, Returns-if, Returns-mono,
}
use tes_0mq.Packet.{Packet, is_tick, event_toff, evt_ch}
use tes_0mq.Jitter.{Conf, Jitter, add_delays, after_delay, one_event, events}
use tes_0mq.Jitter.Points.{Tracked, SameConf, Stepped, add_delays-Tracked, after_delay-Stepped}

-- What the events of a frame leave: the handler goes on only with points.
pub record Looped (d : Jitter) (x : Bool × Jitter) : Type 0 where
  pub tracked : Tracked x.1
  pub same : SameConf d x.1
  pub stopped : x.0 ≡ true → x.1.npts ≡ 0
  pub going : x.0 ≡ false → 0 < x.1.npts

module _ (p : Packet) (first_only : Bool) (total : ℕ)
    (ch : (e : ℕ) → e < total → evt_ch p e < 2) where
  Looped-then : (d d' : Jitter) (x : Bool × Jitter) → SameConf d d' → Looped d' x → Looped d x
  Looped-then d d' x s l = record {
    tracked = l.tracked;
    same = record {
      cur = l.same.cur ∙ s.cur;
      conf = l.same.conf ∙ s.conf;
      ticks = l.same.ticks ∙ s.ticks;
      publishing = l.same.publishing ∙ s.publishing;
      sent = l.same.sent ∙ s.sent;
    };
    stopped = l.stopped;
    going = l.going;
  }

  one_event-Looped :
      (e : ℕ) (d : Jitter)
      → Tracked d
      → d.cur_conf.ref_ch < 2
      → (first_only ≡ true → e ≡ 0)
      → e < total
      → Returns (Looped d) (one_event p first_only e d)
  unfolding one_event
  one_event-Looped e d t r f lt =
      let c = evt_ch p e in
      let is_ref = c == d.cur_conf.ref_ch && not (is_tick p) in
      let d1 = add_delays is_ref (event_toff p e) d in
      Returns-check (Looped d) (not first_only || e == 0) _ (ground (arith, f)) (
        Returns-if (Looped d) (not is_ref && d.npts == 0) _ _
          (λ s. record {
            tracked = t;
            same = record { cur = refl; conf = refl; ticks = refl; publishing = refl; sent = refl };
            stopped = λ _. ground arith;
            going = λ b. absurd (false≢true (sym b));
          })
          (λ s.
            Returns-bind (Stepped d1) (Looped d)
              (after_delay is_ref (not is_ref && not (is_tick p)) c d1) _
              (after_delay-Stepped c d1 (add_delays-Tracked is_ref (event_toff p e) d t) (ch e lt) r
                is_ref (not is_ref && not (is_tick p)) (λ n. ground arith) (λ n. ground arith)
                (λ n. ground arith))
              (λ d' q. record {
                tracked = q.tracked;
                same = record {
                  cur = q.same.cur;
                  conf = q.same.conf;
                  ticks = q.same.ticks;
                  publishing = q.same.publishing;
                  sent = q.same.sent;
                };
                stopped = λ b. absurd (false≢true b);
                going = λ _. q.some_points;
              })))

  pub events-Looped :
      (n e : ℕ) (d : Jitter)
      → Tracked d
      → d.cur_conf.ref_ch < 2
      → (first_only ≡ true → e + n ≤ 1)
      → e + n ≤ total
      → (0 < n) ⊎ (0 < d.npts)
      → Returns (Looped d) (events n e p first_only d)
  unfolding events
  events-Looped zero e d t r f most h = record {
    tracked = t;
    same = record { cur = refl; conf = refl; ticks = refl; publishing = refl; sent = refl };
    stopped = λ b. absurd (false≢true b);
    going = λ _. omega (arith, h);
  }
  events-Looped (suc n) e d t r f most h =
      Returns-bind (Looped d) (Looped d) (one_event p first_only e d) _
        (one_event-Looped e d t r (λ b. omega (arith, f b)) (omega arith))
        (λ (stop, d') l.
          Returns-if (Looped d) stop _ _
            (λ b. record {
              tracked = l.tracked;
              same = l.same;
              stopped = λ _. l.stopped b;
              going = λ c. absurd (false≢true (sym c));
            })
            (λ b.
              Returns-mono (Looped d') (Looped d) _
                (events-Looped n (e + 1) d' l.tracked
                  (subst (λ (c : Conf). c.ref_ch < 2) (sym l.same.cur) r) (λ c. omega (arith, f c))
                  (omega arith) (inr (l.going b)))
                (λ x m. Looped-then d d' x l.same m)))
