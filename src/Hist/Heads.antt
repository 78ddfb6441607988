-- ===== src/Hist/Heads.antt =====
-- The histogram task under the signal handler of src/bin/tesd_tasks.c.
use tes_0mq.Base.{
  arith, ℕ, ◌+◌, ◌%◌, ◌^◌, ◌<◌, ◌≡◌, refl, Bool, true, false, not, ltb, ok, Ends, Ends-bind,
  Ends-check, Ends-if, List,
}
use tes_0mq.Packet.{Packet, mca_nbins, mca_nbins_tot, mca_size}
use tes_0mq.Packet.Valid.{Errs}
use tes_0mq.Ring.{Ring}
use tes_0mq.Task.{Task, Rc, fine, num_rings}
use tes_0mq.Task.Dispatch.Ends.{LeavesHeads}
use tes_0mq.Task.Signal.{wakeup, sig_hn}
use tes_0mq.Task.Signal.Settles.{Settled, sig_hn-Settled}
use tes_0mq.Hist.{
  Hist, publish, append, accumulate, header, continuation, step, pkt_hn, handlers, reset,
}

abbrev Any : Rc × Hist → Type 0
Any x = Unit

module _ (accepts : List (List ℕ) → List ℕ → Bool) where
  append-Ends : (p : Packet) (fl : ℕ) (d : Hist) → Ends Any (append accepts p fl d)
  unfolding append publish
  append-Ends p fl d = ground arith

  accumulate-Ends : (p : Packet) (fl : ℕ) (d : Hist) → Ends Any (accumulate accepts p fl d)
  unfolding accumulate
  accumulate-Ends p fl d = Ends-check Any (not d.discard) _ (
      Ends-if Any (ltb d.nbins ((d.cur_nbins + mca_nbins p) % 2 ^ 16))
        (ok (fine, record d { cur_nbins = (d.cur_nbins + mca_nbins p) % 2 ^ 16; discard = true }))
        (append accepts p fl (record d { cur_nbins = (d.cur_nbins + mca_nbins p) % 2 ^ 16 }))
        (λ _. tt)
        (λ _. append-Ends p fl (record d { cur_nbins = (d.cur_nbins + mca_nbins p) % 2 ^ 16 })))

  header-Ends : (p : Packet) (fl : ℕ) (d : Hist) → Ends Any (header accepts p fl d)
  unfolding header
  header-Ends p fl d = ground (
    arith,
    accumulate-Ends p fl (record (reset d) { nbins = mca_nbins_tot p; size = mca_size p }),
  )

  step-Ends :
      (prev : ℕ) (p : Packet) (fl : ℕ) (err : Errs) (d : Hist)
      → Ends Any (step accepts prev p fl err d)
  unfolding step continuation
  step-Ends prev p fl err d = ground (arith, header-Ends p fl d, accumulate-Ends p fl d)

  handlers-LeavesHeads : LeavesHeads (handlers accepts)
  unfolding handlers pkt_hn
  handlers-LeavesHeads p len missed e t =
      Ends-bind Any (λ x. (k : ℕ) → x.1.heads k ≡ t.heads k)
        (step accepts t.prev_pseq_mca p len e t.dat) _ (step-Ends t.prev_pseq_mca p len e t.dat)
        (λ x u k. refl)

-- The histogram task, active and past its first packet, ends its work on SIG_WAKEUP or fails an
-- assertion: its publishing has failed, or it sleeps, or it was to and a reader could not be registered,
-- or no ring has a packet left that it has not looked at. This holds where the tails and heads are slots.
pub hist_wakeup-Settled :
    (accepts : List (List ℕ) → List ℕ → Bool) (reader_ok : ℕ → Bool) (rings : ℕ → Ring)
    (t : Task Hist)
    → ((k : ℕ)
        → k < num_rings
        → ((rings k).num_slots < 2 ^ 32) × ((rings k).tail < (rings k).num_slots))
    → ((k : ℕ) → k < num_rings → t.heads k < (rings k).num_slots)
    → t.active ≡ true
    → t.just_activated ≡ false
    → Ends
        (λ x. Settled (handlers accepts) reader_ok rings x.1 × (x.1.busy ≡ false))
        (sig_hn (handlers accepts) reader_ok rings wakeup t)
unfolding handlers
hist_wakeup-Settled accepts reader_ok rings t sound slots a j =
    sig_hn-Settled (handlers accepts) reader_ok rings (handlers-LeavesHeads accepts) (λ d. tt) sound
      t slots a j
