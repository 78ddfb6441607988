-- ===== src/Task/Dispatch.antt =====
-- src/bin/tesd_tasks.c: `s_task_dispatch`, which hands the packets of a ring to the task's handler.
pub mod Ends
use tes_0mq.Base.{
  ℕ, zero, suc, ◌+◌, ◌-◌, ◌%◌, ◌^◌, Bool, true, false, ltb, leb, ◌==◌, if◌then◌else◌, Outcome, ok,
  abort, hang, ◌>>=◌, ◌>>◌, check, not, arith, ◌≡◌, ◌≢◌, ◌<◌, ◌≤◌, ne→==,
}
use tes_0mq.Packet.{Packet, flen, fseq, pseq, is_mca, is_trace_long, mtu}
use tes_0mq.Packet.Valid.{Errs, is_valid, any}
use tes_0mq.Ring.{Ring, following}
use tes_0mq.Task.{Task, Handlers, Rc, fine, sleep, error}
use tes_0mq.Task.Scan.{gap}

-- A frame longer than its slot is cut to the slot, and marked.
abbrev pub clip_errs : Packet → ℕ → Errs
clip_errs p len = if ltb len (flen p) then record (is_valid p) { eth_len = true } else is_valid p

abbrev pub clip_len : Packet → ℕ → ℕ
clip_len p len = if ltb len (flen p) then len else flen p

module _ {ℓ} {D : Type ℓ} where
  -- The sequences of the frame just handled.
  abbrev pub saw : Packet → Task D → Task D
  saw p t = record t {
    prev_fseq = fseq p;
    prev_pseq_mca = if is_mca p then pseq p else t.prev_pseq_mca;
    prev_pseq_tr =
        if is_mca p then t.prev_pseq_tr else if is_trace_long p then pseq p else t.prev_pseq_tr;
  }

  abbrev pub seen : Packet → Rc × Task D → Outcome (Rc × Task D)
  seen p (rc, t) = ok (rc, saw p t)

  abbrev pub set_head : ℕ → ℕ → Task D → Task D
  set_head r i t = record t { heads = λ k. if k == r then i else t.heads k }

-- The two kinds of return of the handler: 0, and the rest.
abbrev pub is_fine : Rc → Bool
is_fine fine = true
is_fine _ = false

module _ {ℓ} {D : Type ℓ} (h : Handlers D) (rings : ℕ → Ring) where
  -- One frame, from its check to the bookkeeping after the handler.
  pub handle : Packet → ℕ → Task D → Outcome (Rc × Task D)
  handle p len t =
      check (leb (clip_len p len) mtu)
      >> (h.pkt_handler p (clip_len p len) (gap (fseq p) t.prev_fseq) (clip_errs p len) t
          >>= seen p)

  -- The packet at the task's head in ring `r`.
  pub handle_head : ℕ → Task D → Outcome (Rc × Task D)
  unfolding handle
  handle_head r t = handle ((rings r).buf (t.heads r)) ((rings r).len (t.heads r)) t

  -- The head moves on only when the handler returns 0 and the loop goes round.
  pub loop : ℕ → ℕ → Task D → Outcome (Rc × Task D)
  loop zero r t = if (rings r).tail == t.heads r then ok (fine, t) else hang
  loop (suc fuel) r t =
      let again = λ (t' : Task D). loop fuel r (set_head r (following (rings r) (t'.heads r)) t') in
      if (rings r).tail == t.heads r
      then ok (fine, t)
      else handle_head r t >>= λ (x : Rc × Task D). if is_fine x.0 then again x.1 else ok x

  -- A ring has fewer packets waiting than it has slots: that many rounds are enough.
  pub dispatch : ℕ → Task D → Outcome (Rc × Task D)
  unfolding loop
  dispatch r t = check (not ((rings r).tail == t.heads r)) >> loop (rings r).num_slots r t

-- A frame that reaches a handler without an error flag is valid, and as long as it says, within its
-- slot.
pub clean_frame :
    (p : Packet) (len : ℕ)
    → any (clip_errs p len) ≡ false
    → (any (is_valid p) ≡ false) × (clip_len p len ≡ flen p) × (flen p ≤ len)
clean_frame p len e = ground arith

module _ {ℓ} {D : Type ℓ} (h : Handlers D) (rings : ℕ → Ring) where
  -- A frame whose length field and whose slot are both above the MTU ends the process, whatever the
  -- handler: the assertion on the length does not look at the error that the check has found.
  pub dispatch_oversize :
      (r : ℕ) (t : Task D)
      → (rings r).tail ≢ t.heads r
      → 0 < (rings r).num_slots
      → mtu < flen ((rings r).buf (t.heads r))
      → mtu < (rings r).len (t.heads r)
      → dispatch h rings r t ≡ abort
  unfolding dispatch handle_head
  dispatch_oversize r t ne some_slot long long_slot =
      rw (ne→== (rings r).tail (t.heads r) ne) (oversize (rings r).num_slots some_slot)
    where
      oversize : (n : ℕ) → 0 < n → loop h rings n r t ≡ abort
      oversize zero p = absurd (omega arith)
      oversize (suc n) p = rw (ne→== (rings r).tail (t.heads r) ne) (ground arith)
