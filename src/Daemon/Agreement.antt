-- ===== src/Daemon/Agreement.antt =====
-- What the parent learns of the two children of `fork_and_run`.
use tes_0mq.Base.{
  ℕ, ◌≡◌, refl, ap, if◌then◌else◌, Bool, true, false, ◌&&◌, arith, Outcome, ok, abort, hang, Option,
}
use tes_0mq.Base.Int.{ℤ, pos, negsuc}
use tes_0mq.Daemon.{
  minus_one, is_minus_one, Polled, late, poll_failed, readable, Forks, Waited, exited, killed,
  not_waited, exit_status, received, wait_sig, send_sig, Second, second, fork_and_run,
}

-- The initializer returns, and not -1.
abbrev pub Initialized : {T : Type 0} → Outcome (ℤ × T) → Type 0
Initialized (ok (rc, t)) = is_minus_one rc ≡ false
Initialized abort = ⊥
Initialized hang = ⊥

abbrev pub is_readable : Polled → Bool
is_readable late = false
is_readable poll_failed = false
is_readable readable = true

pub wait_lem :
    (p : Polled) (r : Bool) (b : Option ℕ) → wait_sig p r b ≡ (is_readable p && received r b)
unfolding wait_sig
wait_lem late r b = refl
wait_lem poll_failed r b = refl
wait_lem readable r b = refl

abbrev pub is_exited : Waited → Bool
is_exited exited = true
is_exited killed = false
is_exited (not_waited rc) = false

abbrev pub is_killed : Waited → Bool
is_killed exited = false
is_killed killed = true
is_killed (not_waited rc) = false

pub exit_status-exited : (w : Waited) (n : ℕ) → is_exited w ≡ true → exit_status w n ≡ n
unfolding exit_status
exit_status-exited exited n h = refl
exit_status-exited killed n h = absurd (cc)
exit_status-exited (not_waited rc) n h = absurd (cc)

pub exit_status-killed : (w : Waited) (n : ℕ) → is_killed w ≡ true → exit_status w n ≡ 0
unfolding exit_status
exit_status-killed exited n h = absurd (cc)
exit_status-killed killed n h = refl
exit_status-killed (not_waited rc) n h = absurd (cc)

-- The number of an exit status.
abbrev number : ℤ → ℕ
number (pos n) = n
number (negsuc n) = 0

-- All that has to go well beside the initializer.
abbrev pub in_order : Forks → Bool
in_order y = (y.fork1 && (y.pipe && y.fork2)) && (is_readable y.polled && (y.reads && y.sends))

-- What the parent learns, where `x` is what the initializer comes to.
pub record Agreed {T : Type 0} (y : Forks) (x : Outcome (ℤ × T)) (r : ℤ × Second T) : Type 0 where
  pub zero_then :
      is_exited y.waited ≡ true
      → r.0 ≡ pos 0
      → (in_order y ≡ true) × Initialized x × (r.1.acted ≡ true)
  pub then_zero : is_exited y.waited ≡ true → in_order y ≡ true → Initialized x → r.0 ≡ pos 0
  pub then_acts : in_order y ≡ true → Initialized x → r.1.acted ≡ true
  pub minus_then : r.0 ≡ minus_one → y.fork1 ≡ false
  pub then_minus : y.fork1 ≡ false → r.0 ≡ minus_one
  pub killed_then : is_killed y.waited ≡ true → y.fork1 ≡ true → r.0 ≡ pos 0
  pub acts : r.1.acted ≡ true → Initialized x

module _ {T : Type 0} (y : Forks) (act : T → Outcome (ℤ × T)) where
  -- The second child says that all is well exactly where it goes on to the action.
  says-acts :
      (x : Outcome (ℤ × T))
      → received y.reads (second y act x).sent ≡ true
      → (y.reads ≡ true) × (y.sends ≡ true) × Initialized x × ((second y act x).acted ≡ true)
  unfolding received second send_sig
  says-acts (ok (rc, t)) h = ground arith
  says-acts abort h = absurd (cc)
  says-acts hang h = absurd (cc)

  acts-says :
      (x : Outcome (ℤ × T))
      → y.reads ≡ true
      → y.sends ≡ true
      → Initialized x
      → received y.reads (second y act x).sent ≡ true
  unfolding received second send_sig
  acts-says (ok (rc, t)) r s i = ground arith
  acts-says abort r s i = absurd i
  acts-says hang r s i = absurd i

  acts_lem : (x : Outcome (ℤ × T)) → y.sends ≡ true → Initialized x → (second y act x).acted ≡ true
  unfolding second
  acts_lem (ok (rc, t)) s i = ground arith
  acts_lem abort s i = absurd i
  acts_lem hang s i = absurd i

  acted_lem : (x : Outcome (ℤ × T)) → (second y act x).acted ≡ true → Initialized x
  unfolding second
  acted_lem (ok (rc, t)) h = ground arith
  acted_lem abort h = absurd (cc)
  acted_lem hang h = absurd (cc)

  -- Where waitpid returns and the first child has exited, the parent of `fork_and_run` returns 0 exactly where all
  -- calls succeed in time and the initializer has returned anything but -1, and then the second child has
  -- gone on to the action, as it does where all is well, however waitpid answers. Where a signal has ended the first child, it returns 0 whatever has become of
  -- the second. It returns -1 exactly where the first fork fails. The second child goes on to the action
  -- only after such an initializer.
  pub fork_and_run-Agreed :
      (init : T → Outcome (ℤ × T)) (t : T) → Agreed y (init t) (fork_and_run y act init t)
  unfolding fork_and_run
  fork_and_run-Agreed init t =
      let c = second y act (init t) in
      let w = wait_lem y.polled y.reads c.sent in
      let e1 = exit_status-exited y.waited 1 in
      let k1 = exit_status-killed y.waited 1 in
      let e2 = exit_status-exited y.waited (if wait_sig y.polled y.reads c.sent then 0 else 1) in
      let k2 = exit_status-killed y.waited (if wait_sig y.polled y.reads c.sent then 0 else 1) in
      record {
        zero_then = λ h e. ground (arith, ap number e, e1 h, e2 h, w, says-acts (init t));
        then_zero = λ h e i. ground (arith, e1 h, e2 h, w, acts-says (init t));
        then_acts = λ h i. ground (arith, acts_lem (init t) (ground arith) i);
        minus_then = λ e. ground arith;
        then_minus = λ e. ground arith;
        killed_then = λ h e. ground (arith, k1 h, k2 h);
        acts = λ e. ground (arith, acted_lem (init t));
      }
