-- ===== src/Tests/Daemon.antt =====
-- The theorems on src/lib/daemon_ng.c at concrete answers of the system.
use tes_0mq.Base.{ℕ, ◌+◌, ◌≡◌, true, Outcome, ok, Option, some, List, [], ◌∷◌, arith}
use tes_0mq.Base.Int.{ℤ, pos}
use tes_0mq.Daemon.{Forks, exited, readable, fork_and_run, Setup, daemonize}
use tes_0mq.Daemon.Agreement.{Agreed, fork_and_run-Agreed}
use tes_0mq.Daemon.Handshake.{Announced, daemonize-Announced}
use tes_0mq.Daemon.Fds.{close_nonstd_fds, closes, contains, close_nonstd_fds-closes}

abbrev forks : Forks
forks = record {
  fork1 = true;
  pipe = true;
  fork2 = true;
  polled = readable;
  reads = true;
  sends = true;
  waited = exited;
}

abbrev init : ℕ → Outcome (ℤ × ℕ)
init n = ok (pos 0, n + 1)

fork_and_run-Agreed_example : Agreed forks (init 4) (fork_and_run forks init init 4)
fork_and_run-Agreed_example = fork_and_run-Agreed forks init init 4

abbrev setup : Setup
setup = record { detached = true; chdir = true; reopened = true; pidfile = some (true, true) }

daemonize-Announced_example :
    Announced forks setup (some (ok (pos 0))) (daemonize forks setup (some (ok (pos 0))))
daemonize-Announced_example = daemonize-Announced forks setup (some (ok (pos 0)))

abbrev listed : Option (List ℕ)
listed = some (0 ∷ 0 ∷ 0 ∷ 1 ∷ 2 ∷ 3 ∷ 4 ∷ 7 ∷ [])

close_nonstd_fds-closes_example :
    contains (close_nonstd_fds 1024 3 listed) 7 ≡ closes 1024 3 listed 7
close_nonstd_fds-closes_example = close_nonstd_fds-closes 1024 3 7 listed (omega arith)
