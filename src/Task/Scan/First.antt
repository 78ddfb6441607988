-- ===== src/Task/Scan/First.antt =====
-- The choice after an activation, where the sequences are compared as an `int` and ring 0 is
-- treated apart.
use tes_0mq.Base.{ℕ, suc, ◌+◌, ◌<◌, ◌≤◌, ◌≡◌, ◌⊎◌, true, false, arith, Option, none, some, ap}
use tes_0mq.Packet.{fseq-lt}
use tes_0mq.Ring.{Ring}
use tes_0mq.Task.{Task}
use tes_0mq.Task.Scan.{waiting, head_fseq, scan_first, next_ring}

module _ {ℓ} {D : Type ℓ} (rings : ℕ → Ring) (t : Task D) where
  -- `cur_fseq - prev_fseq > thres_gap` fails.
  abbrev pub NotAhead : ℕ → ℕ → Type 0
  NotAhead prev r = (waiting rings t r ≡ false) ⊎ (head_fseq rings t r ≤ prev + 32767)

  abbrev pub Behind : ℕ → Type 0
  Behind prev = NotAhead prev 1 × NotAhead prev 2 × NotAhead prev 3

  keep_best :
      (r n prev : ℕ) (best : Option ℕ)
      → 0 < r
      → NotAhead prev r
      → scan_first rings t (suc n) r prev best ≡ scan_first rings t n (r + 1) prev best
  unfolding scan_first
  keep_best r n prev best p h = ground arith

  keep_all :
      (prev : ℕ) (best : Option ℕ) → Behind prev → scan_first rings t 3 1 prev best ≡ (prev, best)
  unfolding scan_first
  keep_all prev best (a, b, c) = ground arith

  -- Right after an activation, while ring 0 is empty, a packet that waits in another ring with a
  -- sequence number at most 32767 above the last one seen is passed over: no ring is found and
  -- nothing changes, so the task does not move until ring 0 receives something.
  pub next_ring_stalls :
      t.just_activated ≡ true
      → waiting rings t 0 ≡ false
      → Behind t.prev_fseq
      → ((next_ring rings t).1 ≡ none) × ((next_ring rings t).0 ≡ t)
  unfolding next_ring scan_first
  next_ring_stalls a w b = ground (arith, keep_all t.prev_fseq none)

  take_zero :
      (c prev : ℕ)
      → head_fseq rings t 0 ≡ suc c
      → waiting rings t 0 ≡ true
      → scan_first rings t 4 0 prev none ≡ scan_first rings t 3 1 c (some 0)
  unfolding scan_first
  take_zero c prev e w =
      rw (w, e)
        (ap (λ k. scan_first rings t 3 1 k (some 0))
          (omega (arith, fseq-lt ((rings 0).buf (t.heads 0)))))

  -- Right after an activation, a packet that waits in ring 0 is chosen before the packets of the
  -- other rings, as long as none of them is more than 32766 above it in sequence; so also before
  -- those that come earlier. Its sequence number is not 0.
  pub next_ring_prefers_zero :
      t.just_activated ≡ true
      → waiting rings t 0 ≡ true
      → (c : ℕ) → head_fseq rings t 0 ≡ suc c
      → Behind c
      → (next_ring rings t).1 ≡ some 0
  unfolding next_ring
  next_ring_prefers_zero a w c e b =
      ground (arith, take_zero c t.prev_fseq e w, keep_all c (some 0) b)
