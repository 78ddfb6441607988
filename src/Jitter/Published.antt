-- ===== src/Jitter/Published.antt =====
-- The end of `task_jitter_pkt_hn`, where a histogram goes out.

use tes_0mq.Base.{
  ◌+◌, ◌-◌, ◌%◌, ◌^◌, ◌<◌, ◌≤◌, ◌≡◌, refl, sym, ap, ◌∙◌, subst, ◌⊎◌, inl, inr, Bool, true, false,
  false≢true, ltb, leb, ◌==◌, arith, ok, Returns, Returns-bind, Returns-check, Returns-if, List,
  ◌∷◌,
}
use tes_0mq.Task.{Rc, fine, error}
use tes_0mq.Jitter.{Conf, Histogram, Jitter, is_ghost, has_none, prep_next, publish}
use tes_0mq.Jitter.Points.{Tracked, SameConf}

-- The configuration is one that a request can set.
pub record Fit (c : Conf) : Type 0 where
  pub ticks : 0 < c.ticks
  pub small : c.ticks < 2 ^ 64 - 1
  pub ref : c.ref_ch < 2

pub record Inv (d : Jitter) : Type 0 where
  pub tracked : Tracked d
  pub cur : Fit d.cur_conf
  pub conf : Fit d.conf
  pub idle : d.publishing ≡ false → d.npts ≡ 0
  pub ticks : 0 < d.npts → d.ticks ≤ d.cur_conf.ticks

-- A histogram that is begun while the task is publishing.
prep_next-Inv :
    (d : Jitter)
    → Tracked d
    → Fit d.conf
    → 0 < d.npts
    → d.publishing ≡ true
    → Returns (λ x. Inv x × (x.sent ≡ d.sent) × (x.cur_conf ≡ d.conf) × (x.ticks ≡ 1)) (prep_next d)
unfolding prep_next
prep_next-Inv d t f pos p = simp p (
    Returns-check _ (ltb 0 d.npts) _ (ground arith) (
      Returns-check _ (is_ghost (d.points (d.npts - 1))) _ (ap has_none (t.last pos)) (
        record {
          tracked = record {
            few = omega arith;
            last = λ _. t.last pos;
            others = λ k h. absurd (omega arith);
          };
          cur = f;
          conf = f;
          idle = λ e. absurd (cc);
          ticks = λ _. omega (arith, f.ticks);
        },
        refl,
        refl,
        refl,
      )))

module _ (accepts : List Histogram → Histogram → Bool) where
  -- What is left of `d'` at the end, where `d` is the state before the events. The histogram goes out exactly where it
  -- is due, unless sending fails, and the settings that a client asked for are applied then.
  pub record Left (d d' : Jitter) (x : Rc × Jitter) : Type 0 where
    pub inv : x.0 ≡ fine → Inv x.1
    pub sent :
        ((x.1.sent ≡ d.sent)
          × (x.1.cur_conf ≡ d.cur_conf)
          × (x.0 ≡ fine → (d.ticks == d.cur_conf.ticks + 1) ≡ false))
        ⊎ ((x.1.sent ≡ d'.hist ∷ d.sent)
            × (x.1.cur_conf ≡ d.conf)
            × (x.1.ticks ≡ 1)
            × (d.ticks ≡ d.cur_conf.ticks + 1))

  pub publish-Left :
      (d d' : Jitter)
      → Fit d.cur_conf
      → Fit d.conf
      → Tracked d'
      → SameConf d d'
      → 0 < d'.npts
      → d.publishing ≡ true
      → d.ticks ≤ d.cur_conf.ticks + 1
      → Returns (Left d d') (publish accepts d')
  unfolding publish
  publish-Left d d' fc f t s pos going le =
      let tc : d'.cur_conf.ticks ≡ d.cur_conf.ticks = ap (λ (c : Conf). c.ticks) s.cur in
      let due : (d'.ticks == (d'.cur_conf.ticks + 1) % 2 ^ 64) ≡ true
          → d.ticks ≡ d.cur_conf.ticks + 1 =
        λ e. ground (arith, s.ticks, tc, fc.small) in
      Returns-if (Left d d') (d'.ticks == (d'.cur_conf.ticks + 1) % 2 ^ 64) _ _
        (λ e.
          Returns-if (Left d d') (accepts d'.sent d'.hist) _ (ok (error, d'))
            (λ a.
              Returns-bind
                (λ x. Inv x × (x.sent ≡ d'.hist ∷ d'.sent) × (x.cur_conf ≡ d'.conf) × (x.ticks ≡ 1))
                (Left d d') (prep_next (record d' { sent = d'.hist ∷ d'.sent })) _
                (prep_next-Inv (record d' { sent = d'.hist ∷ d'.sent })
                  (record { few = t.few; last = t.last; others = t.others })
                  (subst Fit (sym s.conf) f) pos (s.publishing ∙ going))
                (λ x (v, se, co, ti).
                  Returns-check (Left d d') (leb x.ticks x.cur_conf.ticks) _
                    (ground (arith, v.cur.ticks))
                    (record {
                      inv = λ _. v;
                      sent = inr (se ∙ ap (λ l. d'.hist ∷ l) s.sent, co ∙ s.conf, ti, due e);
                    })))
            (λ a. record { inv = λ q. absurd (cc); sent = inl (s.sent, s.cur, λ q. absurd (cc)) }))
        (λ e.
          let le' : d'.ticks ≤ d'.cur_conf.ticks =
            ground (arith, s.ticks, ap (λ (c : Conf). c.ticks) s.cur, fc.small) in
          Returns-check (Left d d') (leb d'.ticks d'.cur_conf.ticks) _ (ground arith) (record {
            inv = λ _. record {
              tracked = t;
              cur = subst Fit (sym s.cur) fc;
              conf = subst Fit (sym s.conf) f;
              idle = λ q. absurd (false≢true (sym q ∙ (s.publishing ∙ going)));
              ticks = λ _. le';
            };
            sent = inl (s.sent, s.cur, λ q. ground (arith, s.ticks, tc, fc.small));
          }))
