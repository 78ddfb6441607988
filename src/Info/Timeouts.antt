-- ===== src/Info/Timeouts.antt =====
-- The end of the period for which the info task counts.
use tes_0mq.Base.{ℕ, ◌≡◌, Bool, true, false, arith, Returns, [], ◌∷◌}
use tes_0mq.Task.{Task, Frontend, deactivate, unmute}
use tes_0mq.Info.{no_info, Client, stats, handlers, timeout_hn}

-- When the timer of a request goes off, in a task with one frontend that has a handler, whose reader
-- comes back on, the counters go to the client in one message, all of them are 0 again, and the task
-- is put to sleep.
pub timeout_reports :
    (reader_ok : ℕ → Bool) (t : Task Client) (f : Frontend)
    → t.frontends ≡ f ∷ []
    → f.handler ≡ true
    → reader_ok 0 ≡ true
    → Returns
        (λ t'.
          ((t'.dat).replies ≡ stats (t.dat).info ∷ (t.dat).replies)
          × ((t'.dat).info ≡ no_info)
          × (t'.active ≡ false))
        (timeout_hn reader_ok t)
unfolding timeout_hn deactivate handlers unmute
timeout_reports reader_ok t f one has good = ground arith
