-- ===== src/Task/Scan.antt =====
-- src/bin/tesd_tasks.c: `s_task_next_ring`, which chooses the ring whose packet is looked at next.
pub mod Nearest
pub mod First
use tes_0mq.Base.{
  ℕ, zero, suc, ◌+◌, ◌-◌, ◌%◌, ◌^◌, ◌<◌, ◌≤◌, ◌≡◌, ◌≢◌, refl, ◌⊎◌, inl, inr, Bool, true, false,
  ◌&&◌, ◌||◌, ltb, leb, ◌==◌, if◌then◌else◌, arith, Option, none, some, Bool-cases,
}
use tes_0mq.Packet.{fseq}
use tes_0mq.Ring.{Ring}
use tes_0mq.Task.{Task, num_rings}

-- (uint16_t)(cur_fseq - prev_fseq - 1)
abbrev pub gap : ℕ → ℕ → ℕ
gap cur prev = (cur + 2 ^ 17 - prev - 1) % 2 ^ 16

module _ {ℓ} {D : Type ℓ} (rings : ℕ → Ring) where
  -- Whether the task has a packet to look at in ring `r`, and that packet's frame sequence.
  abbrev pub waiting : Task D → ℕ → Bool
  waiting t r = if (rings r).tail == t.heads r then false else true

  abbrev pub head_fseq : Task D → ℕ → ℕ
  head_fseq t r = fseq ((rings r).buf (t.heads r))

  -- The loop after an activation: `n` rounds from ring `r` on, with `prev_fseq` and the ring chosen
  -- so far. The difference of the two sequences is compared as an `int`.
  pub scan_first : Task D → ℕ → ℕ → ℕ → Option ℕ → ℕ × Option ℕ
  scan_first t zero r prev best = (prev, best)
  scan_first t (suc n) r prev best =
      let c = head_fseq t r in
      let take = waiting t r && (r == 0 || ltb (prev + 32767) c) in
      scan_first t n (r + 1) (if take then (c + 65535) % 2 ^ 16 else prev)
        (if take then some r else best)

  -- The other loop, with the smallest gap so far; it is left at a gap of 0.
  pub scan : Task D → ℕ → ℕ → ℕ → Option ℕ → ℕ × Option ℕ
  scan t zero r missed best = (missed, best)
  scan t (suc n) r missed best =
      let g = gap (head_fseq t r) t.prev_fseq in
      let take = waiting t r && leb g missed in
      let rest = scan t n (r + 1) (if take then g else missed) (if take then some r else best) in
      if take && g == 0 then (g, some r) else rest

  -- The task with `prev_fseq` set, the ring if there is one, and `*missed_p`.
  pub next_ring : Task D → Task D × Option ℕ × ℕ
  next_ring t =
      let a = scan_first t num_rings 0 t.prev_fseq none in
      let b = scan t num_rings 0 65535 none in
      if t.just_activated then (record t { prev_fseq = a.0 }, a.1, 0) else (t, b.1, b.0)
