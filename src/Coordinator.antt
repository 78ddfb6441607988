-- ===== src/Coordinator.antt =====
-- src/bin/tesd.c and the coordinator's half of tesd_tasks.c: what happens when packets arrive. The
-- coordinator sees of a task whether it is active and busy, and its heads.
pub mod Safety
pub mod Arrivals
use tes_0mq.Base.{
  ℕ, zero, suc, ◌+◌, ◌-◌, ◌%◌, ◌^◌, Bool, true, false, ◌&&◌, not, ◌==◌, if◌then◌else◌, Outcome, ok,
  abort, hang, ◌>>=◌, ◌>>◌, check, List, [], ◌∷◌, Option, none, some,
}
use tes_0mq.Packet.{fseq}
use tes_0mq.Ring.{Ring, earlier_id, preceding_buf, goto_buf, done, release_done_buf}
use tes_0mq.Task.{num_rings}

pub record View : Type 0 where
  pub active : Bool
  pub busy : Bool
  pub heads : ℕ → ℕ

module _ (rings : ℕ → Ring) where
  -- The heads so far, if an active task has been met, and one more task.
  abbrev pub slowest : Option (ℕ → ℕ) → View → Option (ℕ → ℕ)
  slowest none v = if v.active then some v.heads else none
  slowest (some hs) v =
      if v.active then some (λ r. earlier_id (rings r) (hs r) (v.heads r)) else some hs

  pub heads_from : Option (ℕ → ℕ) → List View → Option (ℕ → ℕ)
  heads_from acc [] = acc
  heads_from acc (v ∷ vs) = heads_from (slowest acc v) vs

  -- `tasks_get_heads`: `none` for NULL.
  pub get_heads : List View → Option (ℕ → ℕ)
  unfolding heads_from
  get_heads vs = heads_from none vs

-- `tasks_wakeup`: the tasks signalled, by index from `i` on, and whether all signals went out.
-- `signal_ok` is what `zsock_signal` says for each task; the first failure ends the loop.
pub tasks_wakeup : (ℕ → Bool) → ℕ → List View → Bool × List ℕ
tasks_wakeup signal_ok i [] = (true, [])
tasks_wakeup signal_ok i (v ∷ vs) =
    let rest = tasks_wakeup signal_ok (i + 1) vs in
    if v.active && not v.busy
    then if signal_ok i then (rest.0, i ∷ rest.1) else (false, [])
    else rest

-- `stats.latest`.
pub record Stats : Type 0 where
  pub received : ℕ
  pub missed : ℕ
  pub polled : ℕ
  pub skipped : ℕ

-- (uint16_t)(fseqB - fseqA - num_new + 1), of a 32-bit `num_new`.
abbrev missed_between : ℕ → ℕ → ℕ → ℕ
missed_between a b num_new = (b + 2 ^ 16 + 2 ^ 32 + 1 - a - num_new) % 2 ^ 16

abbrev pub add64 : ℕ → ℕ → ℕ
add64 a b = (a + b) % 2 ^ 64

-- The body for a ring with a new head: the ring and the statistics after it.
pub move_head : Ring → ℕ → Stats → Outcome (Ring × Stats)
move_head g new_head st =
    let moved = goto_buf g new_head in
    let num_new = done moved in
    let freed = release_done_buf moved in
    elim (preceding_buf g new_head) [
      | none ↦ abort
      | some before ↦
          check (moved.cur == new_head)
          >> (check (freed.head == freed.cur)
              >> ok (
                freed,
                record st {
                  received = add64 st.received num_new;
                  missed =
                      add64 st.missed
                        (missed_between (fseq (g.buf g.cur)) (fseq (g.buf before)) num_new);
                },
              ))
    ]

abbrev pub new_head_of : Option (ℕ → ℕ) → ℕ → Ring → ℕ
new_head_of none r g = g.tail
new_head_of (some hs) r g = hs r

-- One round of the loop over the rings; the Boolean is `skipped`.
pub per_ring : Option (ℕ → ℕ) → ℕ → Ring → Bool × Stats → Outcome (Ring × Bool × Stats)
unfolding move_head
per_ring heads r g (skipped, st) =
    if g.tail == g.head
    then ok (g, skipped, st)
    else if new_head_of heads r g == g.head
    then ok (g, skipped, st)
    else move_head g (new_head_of heads r g) st >>= (λ (g', st'). ok (g', false, st'))

abbrev put : (ℕ → Ring) → ℕ → Ring → ℕ → Ring
put rings r g k = if k == r then g else rings k

-- The loop, `n` rounds from ring `r` on.
pub over_rings :
    Option (ℕ → ℕ) → ℕ → ℕ → (ℕ → Ring) → Bool × Stats → Outcome ((ℕ → Ring) × Bool × Stats)
unfolding per_ring
over_rings heads zero r rings acc = ok (rings, acc.0, acc.1)
over_rings heads (suc n) r rings acc =
    per_ring heads r (rings r) acc
    >>= (λ (g, skipped, st). over_rings heads n (r + 1) (put rings r g) (skipped, st))

abbrev poll : Stats → Stats
poll st = record st { polled = add64 st.polled 1 }

abbrev skip : Bool → Stats → Stats
skip skipped st = if skipped then record st { skipped = add64 st.skipped 1 } else st

-- `s_new_pkts_hn`: true for a return of 0, with the tasks that were signalled.
pub new_pkts_hn :
    (ℕ → Bool) → List View → (ℕ → Ring) → Stats → Outcome (Bool × List ℕ × (ℕ → Ring) × Stats)
unfolding get_heads tasks_wakeup over_rings
new_pkts_hn signal_ok vs rings st =
    let w = tasks_wakeup signal_ok 0 vs in
    if w.0
    then over_rings (get_heads rings vs) num_rings 0 rings (true, poll st)
      >>= (λ (rings', skipped, st'). ok (true, w.1, rings', skip skipped st'))
    else ok (false, w.1, rings, st)
