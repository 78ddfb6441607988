-- ===== src/Daemon/Handshake.antt =====
-- What the parent learns of the daemon that `daemonize` starts.
use tes_0mq.Base.{
  ℕ, ◌≡◌, refl, ap, Bool, true, false, not, ◌&&◌, ◌==◌, if◌then◌else◌, arith, Outcome, ok, abort,
  hang, Option, none, some,
}
use tes_0mq.Base.Int.{ℤ}
use tes_0mq.Daemon.{
  is_minus_one, Forks, received, wait_sig, send_sig, exit_status, Setup, pid_ok, start_of, set_up,
  by_status, Parent, exits, returns_error, Daemon, daemon, daemonize,
}
use tes_0mq.Daemon.Agreement.{
  is_readable, wait_lem, in_order, is_exited, is_killed, exit_status-exited, exit_status-killed,
}

-- There is no initializer, or it has returned, and not -1.
abbrev pub init_ok : Option (Outcome ℤ) → Bool
init_ok none = true
init_ok (some (ok rc)) = not (is_minus_one rc)
init_ok (some abort) = false
init_ok (some hang) = false

-- There is to be no pid file, or it can be opened.
abbrev pub pidfile_ok : Option (Bool × Bool) → Bool
pidfile_ok none = true
pidfile_ok (some (opened, wrote)) = opened

-- All steps of the daemon succeed, apart from the writing of the pid.
abbrev pub is_set_up : Setup → Option (Outcome ℤ) → Bool
is_set_up u init = (u.chdir && init_ok init) && (u.reopened && pidfile_ok u.pidfile)

-- What the parent learns.
pub record Announced (y : Forks) (u : Setup) (init : Option (Outcome ℤ)) (r : Parent × Daemon)
    : Type 0 where
  pub exits_then :
      is_exited y.waited ≡ true → r.0 ≡ exits → (r.1.running ≡ true) × (in_order y ≡ true)
  pub runs_then :
      r.1.running ≡ true
      → (is_set_up u init ≡ true) × (u.detached ≡ true) × (y.fork1 ≡ true) × (y.sends ≡ true)
  pub then_exits :
      is_exited y.waited ≡ true
      → r.1.running ≡ true
      → (is_readable y.polled && y.reads) ≡ true
      → r.0 ≡ exits
  pub then_runs : in_order y ≡ true → (u.detached && is_set_up u init) ≡ true → r.1.running ≡ true
  pub killed_then : is_killed y.waited ≡ true → y.fork1 ≡ true → r.0 ≡ exits

pid_same : (p : Option (Bool × Bool)) → pid_ok p ≡ pidfile_ok p
unfolding pid_ok
pid_same none = refl
pid_same (some (opened, wrote)) = refl

abbrev is_exits : Parent → Bool
is_exits exits = true
is_exits returns_error = false

is_exits-by_status : (n : ℕ) → is_exits (by_status n) ≡ (n == 0)
unfolding by_status
is_exits-by_status n = ground arith

exits_lem : (p : Parent) → is_exits p ≡ true → p ≡ exits
exits_lem exits h = refl
exits_lem returns_error h = absurd (cc)

module _ (y : Forks) (u : Setup) where
  daemon-runs :
      (init : Option (Outcome ℤ)) → (daemon y u init).running ≡ (is_set_up u init && y.sends)
  unfolding daemon set_up start_of
  daemon-runs none = ground (arith, pid_same u.pidfile)
  daemon-runs (some (ok rc)) = ground (arith, pid_same u.pidfile)
  daemon-runs (some abort) = ground arith
  daemon-runs (some hang) = ground arith

  daemon-says :
      (init : Option (Outcome ℤ))
      → received y.reads (daemon y u init).sent ≡ (y.reads && (daemon y u init).running)
  unfolding daemon set_up start_of received send_sig
  daemon-says none = ground arith
  daemon-says (some (ok rc)) = ground arith
  daemon-says (some abort) = ground arith
  daemon-says (some hang) = ground arith

  -- Where waitpid returns and the first child has exited, the parent of `daemonize` exits successfully only if the
  -- daemon runs, and the parent of a daemon that runs exits successfully if it hears of that in time. Where
  -- a signal has ended the first child it exits successfully whatever has become of the daemon. The daemon
  -- runs only if it is detached, chdir, each freopen and the opening of the pid file have succeeded, the
  -- initializer has returned anything but -1, and it has said so; whether the pid is written does not
  -- matter. Where all these calls succeed the daemon runs.
  pub daemonize-Announced : (init : Option (Outcome ℤ)) → Announced y u init (daemonize y u init)
  unfolding daemonize
  daemonize-Announced init =
      let c = daemon y u init in
      let w = wait_lem y.polled y.reads c.sent in
      let e1 = exit_status-exited y.waited 1 in
      let k1 = exit_status-killed y.waited 1 in
      let e2 = exit_status-exited y.waited (if wait_sig y.polled y.reads c.sent then 0 else 1) in
      let k2 = exit_status-killed y.waited (if wait_sig y.polled y.reads c.sent then 0 else 1) in
      let b1 = is_exits-by_status (exit_status y.waited 1) in
      let b2 =
        is_exits-by_status
          (exit_status y.waited (if wait_sig y.polled y.reads c.sent then 0 else 1)) in
      record {
        exits_then = λ h e.
            ground
              (arith, ap is_exits e, e1 h, e2 h, b1, b2, w, daemon-says init, daemon-runs init);
        runs_then = λ e. ground (arith, daemon-runs init);
        then_exits = λ h e i. exits_lem _ (ground (arith, e1 h, e2 h, b1, b2, w, daemon-says init));
        then_runs = λ e i. ground (arith, daemon-runs init);
        killed_then = λ h e. exits_lem _ (ground (arith, k1 h, k2 h, b1, b2));
      }
