-- ===== src/Task/Signal/Settles.antt =====
-- A wake-up ends, and when it does no packet is left that the task should have looked at.
use tes_0mq.Base.{
  ℕ, zero, suc, ◌+◌, ◌^◌, ◌<◌, ◌≤◌, ◌≡◌, ◌≢◌, refl, ◌⊎◌, inl, inr, Bool, true, false, ◌==◌,
  if◌then◌else◌, arith, Outcome, ok, ◌>>=◌, not, Ends, Ends-bind, Ends-check, Ends-if, none, some,
  List, [], ◌∷◌, sym, ap, subst, ◌∙◌, abort, hang,
}
use native.Mathlib.Decide.{ℕ_discrete}
use tes_0mq.Ring.{Ring}
use tes_0mq.Task.{
  Task, Handlers, Rc, fine, sleep, error, num_rings, run_hook, unmuted, slept, deactivate, unmute,
  Frontend,
}
use tes_0mq.Task.Scan.{waiting, next_ring}
use tes_0mq.Task.Scan.Nearest.{next_ring-Nearest}
use tes_0mq.Task.Dispatch.{dispatch}
use tes_0mq.Task.Dispatch.Ends.{LeavesHeads, Moved, dispatch-Moved}
use tes_0mq.Task.Signal.{wakeup, after, rounds, sig_hn, not_first}

unmute-Ends :
    (reader_ok : ℕ → Bool) (i : ℕ) (fs : List Frontend) → Ends (λ x. Unit) (unmute reader_ok i fs)
unfolding unmute
unmute-Ends reader_ok i [] = tt
unmute-Ends reader_ok i (f ∷ fs) =
    let rest = unmute-Ends reader_ok (i + 1) fs in
    Ends-if (λ x. Unit) f.automute _ _
      (λ a.
        Ends-check (λ x. Unit) f.handler _
          (Ends-if (λ x. Unit) (reader_ok i) _ _
            (λ b.
              Ends-bind (λ x. Unit) (λ x. Unit) (unmute reader_ok (i + 1) fs) _ rest (λ x e. tt))
            (λ b. tt)))
      (λ a. Ends-bind (λ x. Unit) (λ x. Unit) (unmute reader_ok (i + 1) fs) _ rest (λ x e. tt))

module _ {ℓ} {D : Type ℓ} (h : Handlers D) (reader_ok : ℕ → Bool) where
  -- It sets the task asleep, or fails.
  abbrev Halted : Rc × Task D → Type 0
  Halted x = (x.1.active ≡ false) ⊎ (x.0 ≡ error)

  unmuted-Halted : (t : Task D) (x : Bool × List Frontend) → Ends Halted (unmuted h reader_ok t x)
  unmuted-Halted t (true, fs) = inl refl
  unmuted-Halted t (false, fs) = inr refl

  slept-Halted : (t : Task D) (x : Bool × D) → Ends Halted (slept h reader_ok t x)
  slept-Halted t (true, d) =
      Ends-bind (λ x. Unit) Halted (unmute reader_ok 0 t.frontends) _
        (unmute-Ends reader_ok 0 t.frontends) (λ x e. unmuted-Halted (record t { dat = d }) x)
  slept-Halted t (false, d) = inr refl

  pub deactivate-Halted :
      (t : Task D)
      → ((d : D) → Ends (λ x. Unit) (run_hook h.data_sleep d))
      → Ends Halted (deactivate h reader_ok t)
  unfolding deactivate
  deactivate-Halted t ends =
      Ends-bind (λ x. Unit) Halted (run_hook h.data_sleep t.dat) _ (ends t.dat)
        (λ x e. slept-Halted t x)

abbrev one : Bool → ℕ
one b = if b then 1 else 0

-- How many of the first four say yes.
abbrev count : (ℕ → Bool) → ℕ
count w = one (w 0) + one (w 1) + one (w 2) + one (w 3)

count_drops :
    (v w : ℕ → Bool) (r : ℕ)
    → r < num_rings
    → v r ≡ true
    → w r ≡ false
    → ((k : ℕ) → k ≢ r → w k ≡ v k)
    → count w < count v
count_drops v w zero lt a b same =
    ground (arith, same 1 (omega arith), same 2 (omega arith), same 3 (omega arith))
count_drops v w (suc zero) lt a b same =
    ground (arith, same 0 (omega arith), same 2 (omega arith), same 3 (omega arith))
count_drops v w (suc (suc zero)) lt a b same =
    ground (arith, same 0 (omega arith), same 1 (omega arith), same 3 (omega arith))
count_drops v w (suc (suc (suc zero))) lt a b same =
    ground (arith, same 0 (omega arith), same 1 (omega arith), same 2 (omega arith))
count_drops v w (suc (suc (suc (suc r)))) lt a b same = absurd (omega arith)

count-le : (w : ℕ → Bool) → count w ≤ num_rings
count-le w = ground arith

module _ {D : Type 0} (h : Handlers D) (reader_ok : ℕ → Bool) (rings : ℕ → Ring) where
  -- `task_deactivate` has failed, and the task is left as it was then.
  abbrev pub Unhalted : Task D → Type 0
  Unhalted t =
      (u : Task D) × (v : Task D) × (deactivate h reader_ok u ≡ ok (error, v))
      × (t ≡ record v { busy = t.busy })

  -- The task sleeps, or has failed, or could not be put to sleep, or has looked at every packet.
  abbrev pub Settled : Task D → Type 0
  Settled t =
      (t.active ≡ false)
      ⊎ ((t.failed ≡ true) ⊎ (Unhalted t ⊎ ((k : ℕ) → k < num_rings → waiting rings t k ≡ false)))

module _ {D : Type 0} (h : Handlers D) (reader_ok : ℕ → Bool) (rings : ℕ → Ring)
    (leaves : LeavesHeads h) (hook_ends : (d : D) → Ends (λ x. Unit) (run_hook h.data_sleep d))
    (sound : (k : ℕ)
      → k < num_rings
      → ((rings k).num_slots < 2 ^ 32) × ((rings k).tail < (rings k).num_slots)) where
  abbrev pub Slots : Task D → Type 0
  Slots t = (k : ℕ) → k < num_rings → t.heads k < (rings k).num_slots

  round_none :
      (f : ℕ) (t : Task D)
      → (next_ring rings t).1 ≡ none
      → rounds h reader_ok rings (suc f) t ≡ ok (next_ring rings t).0
  unfolding rounds
  round_none f t e = rw (e, rounds)

  round_some :
      (f r : ℕ) (t : Task D)
      → (next_ring rings t).1 ≡ some r
      → rounds h reader_ok rings (suc f) t ≡ (
          dispatch h rings r (next_ring rings t).0
          >>= after (λ u. rounds h reader_ok rings f u) (deactivate h reader_ok))
  unfolding rounds
  round_some f r t e = rw (e, rounds)

  Slots-Moved : (t : Task D) (r : ℕ) (x : Rc × Task D) → Slots t → Moved rings r t x → Slots x.1
  Slots-Moved t r x s m k lt = elim (ℕ_discrete k r) [
    | yes e ↦ subst (λ j. x.1.heads j < (rings j).num_slots) (sym e) m.slot
    | no ne ↦ rw (m.others k ne) (s k lt)
  ]

  count-Moved :
      (t : Task D) (r : ℕ) (x : Rc × Task D)
      → r < num_rings
      → waiting rings t r ≡ true
      → x.1.heads r ≡ (rings r).tail
      → Moved rings r t x
      → count (waiting rings x.1) < count (waiting rings t)
  count-Moved t r x lt w e m =
      count_drops (waiting rings t) (waiting rings x.1) r lt w (ground arith)
        (λ k ne. ap (λ i. if (rings k).tail == i then false else true) (m.others k ne))

  halted-Settled :
      (u : Task D)
      → Ends (Settled h reader_ok rings) (deactivate h reader_ok u >>= λ (x : Rc × Task D). ok x.1)
  halted-Settled u =
      by_outcome (deactivate h reader_ok u) refl (deactivate-Halted h reader_ok u hook_ends)
    where
      by_outcome :
          (m : Outcome (Rc × Task D))
          → deactivate h reader_ok u ≡ m
          → Ends (Halted h reader_ok) m
          → Ends (Settled h reader_ok rings) (m >>= λ (x : Rc × Task D). ok x.1)
      by_outcome (ok (rc, v)) e (inl a) = inl a
      by_outcome (ok (rc, v)) e (inr a) = inr (inr (inl (u, v, e ∙ ap (λ q. ok (q, v)) a, refl)))
      by_outcome abort e k = tt
      by_outcome hang e k = absurd k

  -- After the dispatch of ring `r`, given that the further rounds settle.
  after-Settled :
      (t : Task D) (r : ℕ) (again : Task D → Outcome (Task D)) (x : Rc × Task D)
      → r < num_rings
      → waiting rings t r ≡ true
      → Slots t
      → Moved rings r t x
      → ((u : Task D)
          → Slots u
          → count (waiting rings u) < count (waiting rings t)
          → u.just_activated ≡ false
          → Ends (Settled h reader_ok rings) (again u))
      → Ends (Settled h reader_ok rings) (after again (deactivate h reader_ok) x)
  after-Settled t r again (fine, u) lt w s m go =
      go (not_first u) (Slots-Moved t r (fine, u) s m) (count-Moved t r (fine, u) lt w here m) refl
    where
      here : u.heads r ≡ (rings r).tail
      here = elim (m.drained) [ inl e ↦ cc | inr e ↦ e ]
  after-Settled t r again (sleep, u) lt w s m go = halted-Settled (not_first u)
  after-Settled t r again (error, u) lt w s m go = inr (inl refl)

  rounds-Settled :
      (fuel : ℕ) (t : Task D)
      → Slots t
      → count (waiting rings t) < fuel
      → t.just_activated ≡ false
      → Ends (Settled h reader_ok rings) (rounds h reader_ok rings fuel t)
  rounds-Settled zero t s c j = absurd (omega arith)
  rounds-Settled (suc fuel) t s c j =
      let n = next_ring-Nearest rings t j in
      elim n.1 [
        | inl (e, idle) ↦ rw (round_none fuel t e, n.0) (inr (inr (inr idle)))
        | inr (r, e, lt, w, g, near) ↦
            rw (round_some fuel r t e, n.0)
              (Ends-bind (Moved rings r t) (Settled h reader_ok rings) _ _
                (dispatch-Moved h rings r leaves (sound r lt).0 (sound r lt).1 t (s r lt))
                (λ x m.
                  after-Settled t r (λ u. rounds h reader_ok rings fuel u) x lt w s m
                    (λ u su cu ju. rounds-Settled fuel u su (omega (arith, c, cu)) ju)))
      ]

  unbusied :
      (u : Task D)
      → (Settled h reader_ok rings) u
      → (Settled h reader_ok rings) (record u { busy = false })
  unbusied u (inl a) = inl a
  unbusied u (inr (inl a)) = inr (inl a)
  unbusied u (inr (inr (inl (x, v, e, q)))) =
      inr (inr (inl (x, v, e, ap (λ (z : Task D). record z { busy = false }) q)))
  unbusied u (inr (inr (inr a))) = inr (inr (inr a))

  -- On SIG_WAKEUP an active task that is past its first packet ends its work within the rounds, or
  -- fails an assertion: it is put to sleep, or its handler has failed, or it was to be put to sleep
  -- and `task_deactivate` has failed, or no ring has a packet left that it has not looked at. This
  -- holds for a handler and a hook that end, of which the handler leaves the heads alone, where the
  -- tails and heads are slots.
  pub sig_hn-Settled :
      (t : Task D)
      → Slots t
      → t.active ≡ true
      → t.just_activated ≡ false
      → Ends
          (λ x. (Settled h reader_ok rings) x.1 × (x.1.busy ≡ false))
          (sig_hn h reader_ok rings wakeup t)
  unfolding sig_hn
  sig_hn-Settled t s a j =
      Ends-check (λ x. (Settled h reader_ok rings) x.1 × (x.1.busy ≡ false)) (not t.busy) _
        (Ends-if (λ x. (Settled h reader_ok rings) x.1 × (x.1.busy ≡ false)) t.active _ _
          (λ _.
            Ends-bind (Settled h reader_ok rings)
              (λ x. (Settled h reader_ok rings) x.1 × (x.1.busy ≡ false)) _ _
              (rounds-Settled 5 (record t { busy = true }) s
                (omega (arith, count-le (waiting rings t))) j)
              (λ u e. (unbusied u e, refl)))
          (λ na. cc))
