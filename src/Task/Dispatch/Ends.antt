-- ===== src/Task/Dispatch/Ends.antt =====
-- A dispatch ends, and leaves the task's head of the ring at the tail unless the handler stops it.
use tes_0mq.Base.{
  ℕ, zero, suc, ◌+◌, ◌-◌, ◌^◌, ◌<◌, ◌≤◌, ◌≡◌, ◌≢◌, refl, ◌⊎◌, inl, inr, false, leb, if◌then◌else◌,
  arith, Ends, Ends-bind, Ends-mono, Ends-check, Bool-cases, ne→==, eq→==, ==-refl, ap, sym, ◌∙◌,
}
use native.Mathlib.Decide.{ℕ_discrete}
use tes_0mq.Packet.{Packet}
use tes_0mq.Packet.Valid.{Errs}
use tes_0mq.Ring.{Ring, following}
use tes_0mq.Task.{Task, Handlers, Rc, fine}
use tes_0mq.Task.Dispatch.{handle_head, loop, dispatch, set_head, is_fine}

-- The steps from a slot forward to the tail.
abbrev pub ahead : Ring → ℕ → ℕ
ahead g i = if leb i g.tail then g.tail - i else g.num_slots + g.tail - i

ahead-following :
    (g : Ring) (i : ℕ)
    → g.num_slots < 2 ^ 32
    → g.tail < g.num_slots
    → i < g.num_slots
    → g.tail ≢ i
    → (following g i < g.num_slots) × (ahead g (following g i) + 1 ≡ ahead g i)
unfolding following
ahead-following g i big tail_in lt ne = (ground arith, ground arith)

ahead-le : (g : Ring) (i : ℕ) → g.tail < g.num_slots → i < g.num_slots → ahead g i ≤ g.num_slots
ahead-le g i a b = ground arith

-- A handler that ends and leaves the task's heads alone, as those of the tasks do.
abbrev pub LeavesHeads {ℓ} : {D : Type ℓ} → Handlers D → Type ℓ
LeavesHeads {D = D} h =
    (p : Packet) (len missed : ℕ) (e : Errs) (t : Task D)
    → Ends (λ x. (k : ℕ) → x.1.heads k ≡ t.heads k) (h.pkt_handler p len missed e t)

module _ {ℓ} {D : Type ℓ} (rings : ℕ → Ring) (r : ℕ) where
  pub record Moved (t : Task D) (x : Rc × Task D) : Type 0 where
    pub slot : x.1.heads r < (rings r).num_slots
    pub forward : ahead (rings r) (x.1.heads r) ≤ ahead (rings r) (t.heads r)
    pub drained : (is_fine x.0 ≡ false) ⊎ (x.1.heads r ≡ (rings r).tail)
    pub others : (k : ℕ) → k ≢ r → x.1.heads k ≡ t.heads k

module _ {ℓ} {D : Type ℓ} (h : Handlers D) (rings : ℕ → Ring) (r : ℕ) (leaves : LeavesHeads h)
    (big : (rings r).num_slots < 2 ^ 32) (tail_in : (rings r).tail < (rings r).num_slots) where
  abbrev SameHeads : Task D → Rc × Task D → Type 0
  SameHeads t x = (k : ℕ) → x.1.heads k ≡ t.heads k

  handle_head-leaves : (t : Task D) → Ends (SameHeads t) (handle_head h rings r t)
  unfolding handle_head
  handle_head-leaves t =
      Ends-check (SameHeads t) _ _
        (Ends-bind (SameHeads t) (SameHeads t) _ _ (leaves _ _ _ _ t) (λ x e. e))

  at_tail : (t : Task D) → (rings r).tail ≡ t.heads r → Moved rings r t (fine, t)
  at_tail t e = record {
    slot = omega arith;
    forward = omega arith;
    drained = inr (sym e);
    others = λ k ne. refl;
  }

  -- The head after the round is one step nearer to the tail.
  abbrev stepped : Task D → Task D
  stepped t = set_head r (following (rings r) (t.heads r)) t

  heads-stepped : (t : Task D) → (stepped t).heads r ≡ following (rings r) (t.heads r)
  heads-stepped t = rw (==-refl r)

  Moved-trans :
      (t u : Task D) (x : Rc × Task D)
      → ahead (rings r) (u.heads r) ≤ ahead (rings r) (t.heads r)
      → ((k : ℕ) → k ≢ r → u.heads k ≡ t.heads k)
      → Moved rings r u x
      → Moved rings r t x
  Moved-trans t u x le same m = record {
    slot = m.slot;
    forward = omega (arith, m.forward);
    drained = m.drained;
    others = λ k ne. m.others k ne ∙ same k ne;
  }

  heads-stepped_ne : (t : Task D) (k : ℕ) → k ≢ r → (stepped t).heads k ≡ t.heads k
  heads-stepped_ne t k ne = rw (ne→== k r ne)

  stopped :
      (t : Task D) (x : Rc × Task D)
      → t.heads r < (rings r).num_slots
      → ((k : ℕ) → x.1.heads k ≡ t.heads k)
      → is_fine x.0 ≡ false
      → Moved rings r t x
  stopped t x lt e nf = record {
    slot = rw (e r) lt;
    forward = rw (e r) (omega arith);
    drained = inl nf;
    others = λ k ne. e k;
  }

  loop-Moved :
      (fuel : ℕ) (t : Task D)
      → t.heads r < (rings r).num_slots
      → ahead (rings r) (t.heads r) ≤ fuel
      → Ends (Moved rings r t) (loop h rings fuel r t)
  unfolding loop
  loop-Moved zero t lt le =
      let e : (rings r).tail ≡ t.heads r = ground arith in
      rw (eq→== (rings r).tail (t.heads r) e) (at_tail t e)
  loop-Moved (suc fuel) t lt le = elim (ℕ_discrete (rings r).tail (t.heads r)) [
    | yes e ↦ rw (eq→== (rings r).tail (t.heads r) e) (at_tail t e)
    | no ne ↦ rw (ne→== (rings r).tail (t.heads r) ne) (
        Ends-bind (SameHeads t) (Moved rings r t) _ _ (handle_head-leaves t) (λ x e.
          elim (Bool-cases (is_fine x.0)) [
            | inl f ↦ rw f (go_on x.1 e ne (loop-Moved fuel (stepped x.1)))
            | inr nf ↦ rw nf (stopped t x lt e nf)
          ]))
  ]
    where
      go_on :
          (u : Task D)
          → ((k : ℕ) → u.heads k ≡ t.heads k)
          → (rings r).tail ≢ t.heads r
          → ((stepped u).heads r < (rings r).num_slots
              → ahead (rings r) ((stepped u).heads r) ≤ fuel
              → Ends (Moved rings r (stepped u)) (loop h rings fuel r (stepped u)))
          → Ends (Moved rings r t) (loop h rings fuel r (stepped u))
      go_on u e ne ih =
          let f = ahead-following (rings r) (t.heads r) big tail_in lt ne in
          let hs = heads-stepped u in
          let to : (stepped u).heads r ≡ following (rings r) (t.heads r) =
            hs ∙ ap (following (rings r)) (e r) in
          Ends-mono (Moved rings r (stepped u)) (Moved rings r t) _
            (ih (rw to f.0) (rw to (omega (arith, f.1))))
            (λ x m.
              Moved-trans t (stepped u) x (rw to (omega (arith, f.1)))
                (λ k nk. heads-stepped_ne u k nk ∙ e k) m)

  pub dispatch-Moved :
      (t : Task D) → t.heads r < (rings r).num_slots → Ends (Moved rings r t) (dispatch h rings r t)
  unfolding dispatch
  dispatch-Moved t lt =
      Ends-check (Moved rings r t) _ _
        (loop-Moved (rings r).num_slots t lt (ahead-le (rings r) (t.heads r) tail_in lt))
