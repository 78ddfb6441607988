-- ===== src/Daemon.antt =====
-- src/lib/daemon_ng.c: processes in the background. What the calls of the system answer is a parameter. The
-- three processes of a start are written one after the other; the pipe from the second child to the first
-- holds what has been sent by the time the first one reads it, which is all if it waits for the other.
pub mod Fds
pub mod Agreement
pub mod Handshake
use tes_0mq.Base.{
  ℕ, ◌*◌, ◌/◌, ◌%◌, Bool, true, false, not, ◌&&◌, ◌==◌, if◌then◌else◌, Outcome, ok, abort, hang,
  Option, none, some,
}
use tes_0mq.Base.Int.{ℤ, pos, negsuc}

-- DAEMON_OK_MSG, DAEMON_ERR_MSG and DAEMON_TIMEOUT.
abbrev pub ok_msg : ℕ
ok_msg = b'0'

abbrev pub err_msg : ℕ
err_msg = b'1'

abbrev pub daemon_timeout : ℕ
daemon_timeout = 3000

abbrev pub minus_one : ℤ
minus_one = negsuc 0

abbrev pub is_minus_one : ℤ → Bool
is_minus_one (pos n) = false
is_minus_one (negsuc n) = n == 0

-- What poll answers.
pub data Polled : Type 0 where
  late poll_failed readable : Polled

-- What waitpid answers in the parent: that the first child has exited, that a signal has ended it, or an error, which
-- leaves in `rc` what was there.
pub data Waited : Type 0 where
  exited killed : Waited
  not_waited : ℕ → Waited

-- WEXITSTATUS (rc), where the first child exits with `status` if it does.
pub exit_status : Waited → ℕ → ℕ
exit_status exited status = status
exit_status killed status = 0
exit_status (not_waited rc) status = rc / 256 % 256

-- What the calls answer. `sends` is whether the second child can write to the pipe.
pub record Forks : Type 0 where
  pub fork1 : Bool
  pub pipe : Bool
  pub fork2 : Bool
  pub polled : Polled
  pub reads : Bool
  pub sends : Bool
  pub waited : Waited

-- The timeout that is given to poll, in milliseconds, for one in seconds.
pub wait_ms : ℤ → ℤ
wait_ms (pos n) = if n == 0 then pos daemon_timeout else pos (n * 1000)
wait_ms (negsuc n) = minus_one

-- The byte that is read is the one for success. `none` where the other end is closed and nothing has been sent.
pub received : Bool → Option ℕ → Bool
received reads none = false
received reads (some b) = reads && b == ok_msg

-- `s_wait_sig`, whether it returns 0.
pub wait_sig : Polled → Bool → Option ℕ → Bool
wait_sig late reads sent = false
wait_sig poll_failed reads sent = false
wait_sig readable reads sent = received reads sent

-- `s_send_sig`: what is in the pipe after it.
pub send_sig : Bool → ℕ → Option ℕ
send_sig sends b = if sends then some b else none

-- What becomes of the second child: what it sends, whether it goes on to the action, and what it leaves,
-- if no assertion ends it.
pub record Second (T : Type 0) : Type 0 where
  pub sent : Option ℕ
  pub acted : Bool
  pub left : Option T

abbrev pub unborn : {T : Type 0} → T → Second T
unborn t = record { sent = none; acted = false; left = some t }

left_of : {T : Type 0} → Outcome (ℤ × T) → Option T
left_of (ok (rc, t)) = some t
left_of abort = none
left_of hang = none

module _ {T : Type 0} (y : Forks) (act : T → Outcome (ℤ × T)) where
  -- The second child of `fork_and_run`, once the initializer has returned, or not.
  pub second : Outcome (ℤ × T) → Second T
  second (ok (rc, t)) =
      if is_minus_one rc
      then record { sent = send_sig y.sends err_msg; acted = false; left = some t }
      else if y.sends
      then record { sent = some ok_msg; acted = true; left = left_of (act t) }
      else record { sent = none; acted = false; left = some t }
  second abort = record { sent = none; acted = false; left = none }
  second hang = record { sent = none; acted = false; left = none }

  -- `fork_and_run`: what the parent returns, and the second child. The first child exits with EXIT_SUCCESS or
  -- EXIT_FAILURE, 0 or 1, if it does.
  unfoldable pub fork_and_run : (T → Outcome (ℤ × T)) → T → ℤ × Second T
  fork_and_run init t =
      if not y.fork1
      then (minus_one, unborn t)
      else if not (y.pipe && y.fork2)
      then (pos (exit_status y.waited 1), unborn t)
      else let c = second (init t) in
        (pos (exit_status y.waited (if wait_sig y.polled y.reads c.sent then 0 else 1)), c)

-- What the calls of the daemon itself answer: chdir, each freopen, and the opening of the pid file and whether all
-- of the pid is written to it, which is `none` where there is to be none.
pub record Setup : Type 0 where
  pub detached : Bool
  pub chdir : Bool
  pub reopened : Bool
  pub pidfile : Option (Bool × Bool)

-- Whether the daemon goes on after the pid file: a write that fails, or is short, is only warned of.
pub pid_ok : Option (Bool × Bool) → Bool
pid_ok none = true
pid_ok (some (opened, wrote)) = opened

-- What the initializer comes to, if there is one.
pub data Start : Type 0 where
  went refused lost : Start

pub start_of : Option (Outcome ℤ) → Start
start_of none = went
start_of (some (ok rc)) = if is_minus_one rc then refused else went
start_of (some abort) = lost
start_of (some hang) = lost

-- What `daemonize` comes to in the parent and in the daemon.
pub data Parent : Type 0 where
  returns_error exits : Parent

pub record Daemon : Type 0 where
  pub sent : Option ℕ
  pub running : Bool

abbrev pub no_daemon : Daemon
no_daemon = record { sent = none; running = false }

abbrev pub refuses : Forks → Daemon
refuses y = record { sent = send_sig y.sends err_msg; running = false }

-- The second child of `daemonize` once the initializer has returned, or not.
pub set_up : Forks → Setup → Start → Daemon
set_up y u went =
    if not u.reopened
    then refuses y
    else if not (pid_ok u.pidfile)
    then refuses y
    else record { sent = send_sig y.sends ok_msg; running = y.sends }
set_up y u refused = refuses y
set_up y u lost = no_daemon

-- The second child of `daemonize`.
pub daemon : Forks → Setup → Option (Outcome ℤ) → Daemon
daemon y u init = if not u.chdir then refuses y else set_up y u (start_of init)

-- What the parent does by the status of the first child.
pub by_status : ℕ → Parent
by_status status = if status == 0 then exits else returns_error

-- `daemonize`.
pub daemonize : Forks → Setup → Option (Outcome ℤ) → Parent × Daemon
daemonize y u init =
    if not y.fork1
    then (returns_error, no_daemon)
    else if not (y.pipe && (u.detached && y.fork2))
    then (by_status (exit_status y.waited 1), no_daemon)
    else let c = daemon y u init in
      (by_status (exit_status y.waited (if wait_sig y.polled y.reads c.sent then 0 else 1)), c)
