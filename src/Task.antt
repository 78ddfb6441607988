-- ===== src/Task.antt =====
-- src/bin/tesd_tasks.h and tesd_tasks.c: a task, its activation, and what its loop does on a signal.
-- `D` is the task's own data. The lists of threads, sockets and cpus of `s_task_shim` are left out.
pub mod Scan
pub mod Dispatch
pub mod Signal
pub mod Subs
use tes_0mq.Base.{
  ℕ, zero, suc, ◌+◌, ◌-◌, Bool, true, false, if◌then◌else◌, ◌==◌, ltb, Outcome, ok, abort, hang,
  ◌>>=◌, ◌>>◌, check, List, [], ◌∷◌, Option, none, some,
}
use tes_0mq.Packet.{Packet}
use tes_0mq.Packet.Valid.{Errs}
use tes_0mq.Ring.{Ring}

-- 0, TASK_SLEEP and TASK_ERROR.
pub data Rc : Type 0 where
  fine sleep error : Rc

-- `_task_endpoint_t`: `handler` says whether one is set, `reading` whether it is registered with
-- the task's loop.
pub record Frontend : Type 0 where
  pub handler : Bool
  pub automute : Bool
  pub nsubs : ℕ
  pub reading : Bool

abbrev pub num_rings : ℕ
num_rings = 4

-- `_task_t`, without its thread.
pub record Task {ℓ} (D : Type ℓ) : Type ℓ where
  pub dat : D
  pub frontends : List Frontend
  pub heads : ℕ → ℕ
  pub prev_fseq : ℕ
  pub prev_pseq_mca : ℕ
  pub prev_pseq_tr : ℕ
  pub just_activated : Bool
  pub failed : Bool
  pub busy : Bool
  pub active : Bool

-- `task_pkt_fn`: the frame, its length, the frames missed before it, its errors and the task.
abbrev pub PktFn {ℓ} : Type ℓ → Type ℓ
PktFn D = Packet → ℕ → ℕ → Errs → Task D → Outcome (Rc × Task D)

-- `task_data_fn`, over the task's data: true for a return of 0.
abbrev pub DataFn {ℓ} : Type ℓ → Type ℓ
DataFn D = D → Outcome (Bool × D)

pub record Handlers {ℓ} (D : Type ℓ) : Type ℓ where
  pub pkt_handler : PktFn D
  pub data_wakeup : Option (DataFn D)
  pub data_sleep : Option (DataFn D)

-- The hook, where one is set.
abbrev pub run_hook {ℓ} : {D : Type ℓ} → Option (DataFn D) → D → Outcome (Bool × D)
run_hook none d = ok (true, d)
run_hook (some f) d = f d

abbrev pub mute : List Frontend → List Frontend
mute [] = []
mute (f ∷ fs) = (if f.automute then record f { reading = false } else f) ∷ mute fs

-- The frontends with their readers registered again, and whether all calls of `zloop_reader` went
-- well; `reader_ok i` is what it says for frontend `i`. The first failure ends the loop.
unfoldable pub unmute : (ℕ → Bool) → ℕ → List Frontend → Outcome (Bool × List Frontend)
unmute reader_ok i [] = ok (true, [])
unmute reader_ok i (f ∷ fs) =
    let rest = unmute reader_ok (i + 1) fs in
    if f.automute
    then check f.handler
      >> (if reader_ok i
          then rest >>= (λ (done, gs). ok (done, record f { reading = true } ∷ gs))
          else ok (false, f ∷ fs))
    else rest >>= (λ (done, gs). ok (done, f ∷ gs))

module _ {ℓ} {D : Type ℓ} (h : Handlers D) (rings : ℕ → Ring) where
  abbrev activated : Task D → Bool × D → Outcome (Rc × Task D)
  activated t (good, d) =
      if good
      then ok (
        fine,
        record t {
          dat = d;
          frontends = mute t.frontends;
          heads = λ r. (rings r).head;
          active = true;
          just_activated = true;
        },
      )
      else ok (error, record t { dat = d })

  unfoldable pub activate : Task D → Outcome (Rc × Task D)
  activate t = run_hook h.data_wakeup t.dat >>= activated t

module _ {ℓ} {D : Type ℓ} (h : Handlers D) (reader_ok : ℕ → Bool) where
  abbrev pub unmuted : Task D → Bool × List Frontend → Outcome (Rc × Task D)
  unmuted t (good, fs) =
      if good
      then ok (fine, record t { frontends = fs; active = false })
      else ok (error, record t { frontends = fs })

  abbrev pub slept : Task D → Bool × D → Outcome (Rc × Task D)
  slept t (good, d) =
      if good
      then unmute reader_ok 0 t.frontends >>= unmuted (record t { dat = d })
      else ok (error, record t { dat = d })

  unfoldable pub deactivate : Task D → Outcome (Rc × Task D)
  deactivate t = run_hook h.data_sleep t.dat >>= slept t
