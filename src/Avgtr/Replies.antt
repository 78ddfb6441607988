-- ===== src/Avgtr/Replies.antt =====
-- The replies of the average trace task.
use tes_0mq.Base.{
  ℕ, ◌*◌, ◌%◌, ◌^◌, ◌≡◌, ◌≢◌, ◌⊎◌, Bool, true, false, arith, abort, Ends, Returns, [], ◌∷◌, Option,
  some,
}
use tes_0mq.Packet.{Packet, trace_size}
use tes_0mq.Packet.Valid.{Errs}
use tes_0mq.Ring.{Ring}
use tes_0mq.Task.{Task, Rc, fine, sleep, deactivate, unmute, Frontend}
use tes_0mq.Avgtr.{Avgtr, Reply, start, finish, append, receive, step, handlers, timeout_hn, req_hn}

-- Either the trace goes on and nothing is sent, or the task sleeps after one reply, with its timer
-- cancelled and nothing kept.
abbrev pub Answers : Avgtr → Rc × Avgtr → Type 0
Answers d x =
    ((x.0 ≡ fine) × (x.1.replies ≡ d.replies) × (x.1.ended ≡ d.ended))
    ⊎ ((x.0 ≡ sleep)
        × (x.1.recording ≡ false)
        × (x.1.cur_size ≡ 0)
        × (x.1.size ≡ 0)
        × (x.1.ended ≡ d.timer ∷ d.ended)
        × ((r : Reply) × (x.1.replies ≡ r ∷ d.replies)))

append-Answers : (p : Packet) (fl : ℕ) (d : Avgtr) → Ends (Answers d) (append p fl d)
unfolding append finish
append-Answers p fl d = ground arith

receive-Answers :
    (prev : ℕ) (p : Packet) (fl : ℕ) (err : Errs) (d : Avgtr)
    → Ends (Answers d) (receive prev p fl err d)
unfolding receive finish
receive-Answers prev p fl err d = ground (arith, append-Answers p fl d)

-- The packet handler answers at most once per frame: it returns 0, and then has sent nothing and
-- left the timer alone, or TASK_SLEEP, and then has sent one reply, cancelled the timer of the
-- request and reset its state; or it fails the assertion on the size.
pub step-Answers :
    (prev : ℕ) (p : Packet) (fl : ℕ) (err : Errs) (d : Avgtr)
    → Ends (Answers d) (step prev p fl err d)
unfolding step start
step-Answers prev p fl err d = ground (
  arith,
  receive-Answers prev p fl err d,
  receive-Answers prev p fl err (record d { recording = true; size = trace_size p }),
)

-- A request that times out while a trace is recorded leaves the recording begun, in a task with one
-- frontend that has a handler, as this one: the timeout handler returns, and the next request, with
-- a timeout and a timer, fails the assertion that no trace is recorded, which ends the process.
pub timeout_then_request_aborts :
    (reader_ok : ℕ → Bool) (rings : ℕ → Ring) (start_timer : ℕ → Option ℕ) (tid timeout : ℕ)
    (t : Task Avgtr) (f : Frontend)
    → t.frontends ≡ f ∷ []
    → f.handler ≡ true
    → (t.dat).recording ≡ true
    → timeout ≢ 0
    → start_timer (1000 * timeout % 2 ^ 32) ≡ some tid
    → Returns
        (λ t'. ((t'.dat).recording ≡ true) × (req_hn rings start_timer timeout t' ≡ abort))
        (timeout_hn reader_ok t)
unfolding req_hn timeout_hn deactivate handlers unmute
timeout_then_request_aborts reader_ok rings start_timer tid timeout t f one has rec ne timer =
    ground arith
