-- ===== src/Jitter/Keeps.antt =====
-- `task_jitter_pkt_hn` as a whole.
use tes_0mq.Base.{
  ℕ, ◌+◌, ◌≡◌, ◌⊎◌, Bool, true, false, not, ◌&&◌, ◌||◌, ◌==◌, Outcome, ok, abort, hang, List, ◌∷◌,
}
use tes_0mq.Packet.{Packet, is_tick, is_event, is_trace_long, is_header}
use tes_0mq.Task.{Rc, fine}
use tes_0mq.Jitter.{Histogram, Jitter, events, ticked}
use tes_0mq.Jitter.Looped.{Looped}
use tes_0mq.Jitter.Published.{Inv}

module _ (accepts : List Histogram → Histogram → Bool) where
  -- Whether the events of a frame are looked at.
  abbrev takes : Packet → Bool → Jitter → Bool
  takes p bad d =
      ((d.publishing || is_tick p) && (not bad && is_event p))
      && (not (is_trace_long p) || is_header p)

  -- The loop over the events of the frame, from the state in which a tick has been counted.
  abbrev run : Packet → ℕ → Jitter → Outcome (Bool × Jitter)
  run p n d =
      events n 0 p (is_tick p || is_trace_long p)
        (ticked p (record d { publishing = d.publishing || is_tick p }))

  -- What the handler leaves. A histogram goes out only once the ticks are one more than is asked for, with all that
  -- was counted in it and the events of this frame; and where it is due then and the loop over the events
  -- has not been left, it goes out unless sending fails. The settings that a client asked for are then
  -- applied, and the ticks start again at 1.
  pub record Kept (p : Packet) (n : ℕ) (bad : Bool) (d : Jitter) (x : Rc × Jitter) : Type 0 where
    pub inv : x.0 ≡ fine → Inv x.1
    pub sent :
        ((x.1.sent ≡ d.sent)
          × (x.1.cur_conf ≡ d.cur_conf)
          × ((d' : Jitter)
              → takes p bad d ≡ true
              → run p n d ≡ ok (false, d')
              → x.0 ≡ fine
              → ((ticked p d).ticks == d.cur_conf.ticks + 1) ≡ false))
        ⊎ ((d' : Jitter) × (run p n d ≡ ok (false, d'))
            × (x.1.sent ≡ d'.hist ∷ d.sent)
            × (x.1.cur_conf ≡ d.conf)
            × (x.1.ticks ≡ 1)
            × ((ticked p d).ticks ≡ d.cur_conf.ticks + 1))

  abbrev left_loop : Outcome (Bool × Jitter) → Bool
  left_loop (ok (stop, d)) = stop
  left_loop abort = true
  left_loop hang = true
