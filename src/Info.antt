-- ===== src/Info.antt =====
-- src/bin/tesd_task_info.c: the task that counts the frames of a period for a client who asks for it.
-- `replies` holds the messages to the client, the last one first.
pub mod Counts
pub mod Timeouts
use tes_0mq.Base.{
  ℕ, ◌+◌, ◌*◌, ◌%◌, ◌^◌, Bool, ◌&&◌, ◌||◌, ◌==◌, if◌then◌else◌, Outcome, ok, abort, hang, ◌>>=◌,
  List, [], ◌∷◌, Option, none, some,
}
use tes_0mq.Packet.{Packet, is_header, is_mca, is_tick, is_trace_long, is_trace_dp, event_nums}
use tes_0mq.Packet.Valid.{Errs, any}
use tes_0mq.Ring.{Ring}
use tes_0mq.Task.{Task, Handlers, PktFn, Rc, fine, error, activate, deactivate}

pub record Info : Type 0 where
  pub received : ℕ
  pub missed : ℕ
  pub bad : ℕ
  pub ticks : ℕ
  pub mcas : ℕ
  pub traces : ℕ
  pub events : ℕ

abbrev pub no_info : Info
no_info = record { received = 0; missed = 0; bad = 0; ticks = 0; mcas = 0; traces = 0; events = 0 }

-- TES_INFO_REQ_OK with the counters, and TES_INFO_REQ_EINV.
pub data Reply : Type 0 where
  stats : Info → Reply
  malformed : Reply

pub record Client : Type 0 where
  pub info : Info
  pub replies : List Reply

abbrev pub add64 : ℕ → ℕ → ℕ
add64 a b = (a + b) % 2 ^ 64

pub is_tr_header : Packet → Bool
is_tr_header p = is_trace_long p && is_header p || is_trace_dp p

-- The chain of tests of the handler.
pub classify : Packet → Errs → Info → Outcome Info
unfolding is_tr_header
classify p err i =
    if any err
    then ok (record i { bad = add64 i.bad 1 })
    else if is_tick p
    then ok (record i { ticks = add64 i.ticks 1 })
    else if is_mca p && is_header p
    then ok (record i { mcas = add64 i.mcas 1 })
    else if is_tr_header p
    then ok (record i { traces = add64 i.traces 1 })
    else event_nums p >>= (λ n. ok (record i { events = add64 i.events n }))

pub step : Packet → ℕ → Errs → Info → Outcome Info
step p missed err i =
    classify p err (record i { received = add64 i.received 1; missed = add64 i.missed missed })

pub pkt_hn : PktFn Client
pkt_hn p fl missed err t =
    step p missed err (t.dat).info
    >>= (λ i. ok (fine, record t { dat = record (t.dat) { info = i } }))

pub handlers : Handlers Client
handlers = record { pkt_handler = pkt_hn; data_wakeup = none; data_sleep = none }

abbrev pub say : Reply → Client → Client
say reply c = record c { replies = reply ∷ c.replies }

-- The status of `task_deactivate` is dropped.
pub timeout_hn : (ℕ → Bool) → Task Client → Outcome (Task Client)
timeout_hn reader_ok t = deactivate handlers reader_ok t >>= (λ x.
    ok (record (x.1) { dat = record (say (stats (x.1.dat).info) (x.1.dat)) { info = no_info } }))

module _ (rings : ℕ → Ring) (start_timer : ℕ → Option ℕ) where
  -- The timeout that `zsock_recv` has read; `start_timer` is `zloop_timer`, by milliseconds.
  pub req_hn : ℕ → Task Client → Outcome (Rc × Task Client)
  req_hn timeout t =
      if timeout == 0
      then ok (fine, record t { dat = say malformed t.dat })
      else elim (start_timer (1000 * timeout % 2 ^ 32)) [
        | none ↦ ok (error, t)
        | some tid ↦ activate handlers rings t >>= (λ x. ok (fine, x.1))
      ]
