-- ===== src/Task/Signal.antt =====
-- src/bin/tesd_tasks.c: `s_sig_hn`, what a task does on a signal of the coordinator.
pub mod Settles
use tes_0mq.Base.{
  ℕ, zero, suc, Bool, true, false, if◌then◌else◌, Outcome, ok, abort, hang, ◌>>=◌, ◌>>◌, check, not,
  Option, none, some,
}
use tes_0mq.Ring.{Ring}
use tes_0mq.Task.{Task, Handlers, Rc, fine, sleep, error, num_rings, deactivate}
use tes_0mq.Task.Scan.{next_ring}
use tes_0mq.Task.Dispatch.{dispatch}

-- SIG_STOP and SIG_WAKEUP.
pub data Signal : Type 0 where
  stop wakeup : Signal

module _ {ℓ} {D : Type ℓ} where
  abbrev pub not_first : Task D → Task D
  not_first t = record t { just_activated = false }

  -- What the handler asked for: the loop goes on only after 0. A failure of `task_deactivate` is
  -- overwritten by the `break`, so it sets no error.
  abbrev pub after :
      (Task D → Outcome (Task D))
      → (Task D → Outcome (Rc × Task D))
      → Rc × Task D
      → Outcome (Task D)
  after again halt (fine, t) = again (not_first t)
  after again halt (sleep, t) = halt (not_first t) >>= λ (x : Rc × Task D). ok x.1
  after again halt (error, t) = ok (record (not_first t) { failed = true })

module _ {ℓ} {D : Type ℓ} (h : Handlers D) (reader_ok : ℕ → Bool) (rings : ℕ → Ring) where
  -- `while (1)`, on fuel.
  pub rounds : ℕ → Task D → Outcome (Task D)
  rounds zero t = hang
  rounds (suc fuel) t =
      let again = λ (u : Task D). rounds fuel u in
      let x = next_ring rings t in
      elim x.1 [
        | none ↦ ok x.0
        | some r ↦ dispatch h rings r x.0 >>= after again (deactivate h reader_ok)
      ]

  -- A round that goes on has emptied a ring: one round more than there are rings is enough.
  abbrev pub enough : ℕ
  enough = suc num_rings

  abbrev finish : Task D → Outcome (Rc × Task D)
  finish t = ok (if t.failed then error else fine, record t { busy = false })

  -- The return of -1 is `error`; SIG_STOP ends the task's loop too.
  pub sig_hn : Signal → Task D → Outcome (Rc × Task D)
  unfolding rounds
  sig_hn stop t = check (not t.busy) >> ok (error, record t { busy = true })
  sig_hn wakeup t =
      check (not t.busy)
      >> (if t.active
          then rounds enough (record t { busy = true }) >>= finish
          else ok (fine, record t { busy = false }))
