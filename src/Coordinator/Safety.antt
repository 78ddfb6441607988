-- ===== src/Coordinator/Safety.antt =====
-- The coordinator frees no slot that an active task has yet to read.
use tes_0mq.Base.{
  ℕ, ◌≤◌, ◌≡◌, ◌≢◌, refl, ◌⊎◌, inl, inr, Bool, true, false, ◌==◌, arith, Returns, All, List, [],
  ◌∷◌, Option, none, some, Bool-cases, ne→==, eq→==, ==-refl, Returns-bind,
}
use native.Mathlib.Decide.{ℕ_discrete}
use tes_0mq.Ring.{Ring, earlier_id, preceding, preceding_buf, goto_buf, release_done_buf}
use tes_0mq.Ring.Order.{distance, IsSlot, ids_order}
use tes_0mq.Ring.Window.{InWindow}
use tes_0mq.Coordinator.{
  View, Stats, slowest, heads_from, get_heads, new_head_of, move_head, per_ring,
}

-- The task's head lies between the head of the ring and its tail.
abbrev pub Within : Ring → ℕ → Type 0
Within g i = IsSlot g i × (distance g i ≤ distance g g.tail)

-- Inactive tasks do not count.
abbrev pub Reads : Ring → ℕ → View → Type 0
Reads g r v = (v.active ≡ false) ⊎ Within g (v.heads r)

abbrev pub NotPassed : Ring → ℕ → ℕ → View → Type 0
NotPassed g r i v = (v.active ≡ false) ⊎ (distance g i ≤ distance g (v.heads r))

abbrev reverse_onto : List View → List View → List View
reverse_onto [] acc = acc
reverse_onto (v ∷ vs) acc = reverse_onto vs (v ∷ acc)

-- A predicate on all views holds of them in any order.
All-reverse_onto :
    (P : View → Type 0) (vs acc : List View) → All P (reverse_onto vs acc) → All P vs × All P acc
All-reverse_onto P [] acc a = (tt, a)
All-reverse_onto P (v ∷ vs) acc a =
    let r = All-reverse_onto P vs (v ∷ acc) a in ((r.1.0, r.0), r.1.1)

module _ (rings : ℕ → Ring) (r : ℕ) (ok_ring : InWindow (rings r)) where
  abbrev g : Ring
  g = rings r

  earlier-Within :
      (i j : ℕ)
      → Within g i
      → Within g j
      → Within g (earlier_id g i j)
        × (distance g (earlier_id g i j) ≤ distance g i)
        × (distance g (earlier_id g i j) ≤ distance g j)
  earlier-Within i j a b =
      let o =
        ids_order g i j (record { slots_32 = ok_ring.slots_32; head_in = ok_ring.head_in }) a.0
          b.0 in
      rw (o.1) (ground arith)

  -- What is kept of the heads found so far.
  abbrev Slowest : List View → Option (ℕ → ℕ) → Type 0
  Slowest vs none = All (λ v. v.active ≡ false) vs
  Slowest vs (some hs) = Within g (hs r) × All (NotPassed g r (hs r)) vs

  closer-NotPassed :
      (i j : ℕ) (vs : List View)
      → distance g j ≤ distance g i
      → All (NotPassed g r i) vs
      → All (NotPassed g r j) vs
  closer-NotPassed i j [] le a = tt
  closer-NotPassed i j (v ∷ vs) le a = (ground arith, closer-NotPassed i j vs le a.1)

  inactive-NotPassed :
      (i : ℕ) (vs : List View) → All (λ v. v.active ≡ false) vs → All (NotPassed g r i) vs
  inactive-NotPassed i [] a = tt
  inactive-NotPassed i (v ∷ vs) a = (inl a.0, inactive-NotPassed i vs a.1)

  reading : (v : View) → v.active ≡ true → Reads g r v → Within g (v.heads r)
  reading v act (inl idle) = cc
  reading v act (inr w) = w

  slowest-Slowest :
      (v : View) (seen : List View) (acc : Option (ℕ → ℕ))
      → Reads g r v
      → Slowest seen acc
      → Slowest (v ∷ seen) (slowest rings acc v)
  slowest-Slowest v seen none rd s = elim (Bool-cases v.active) [
    | inr idle ↦ simp idle (refl, s)
    | inl act ↦
        simp act (reading v act rd, (inr (omega arith), inactive-NotPassed (v.heads r) seen s))
  ]
  slowest-Slowest v seen (some hs) rd s = elim (Bool-cases v.active) [
    | inr idle ↦ simp idle (s.0, (inl refl, s.1))
    | inl act ↦
        let e = earlier-Within (hs r) (v.heads r) s.0 (reading v act rd) in
        simp act (e.0, (inr e.2, closer-NotPassed (hs r) _ seen e.1 s.1))
  ]

  -- The views in the order in which the loop has met them, last first.
  heads_from-Slowest :
      (vs seen : List View) (acc : Option (ℕ → ℕ))
      → All (Reads g r) vs
      → Slowest seen acc
      → Slowest (reverse_onto vs seen) (heads_from rings acc vs)
  unfolding heads_from
  heads_from-Slowest [] seen acc rd s = s
  heads_from-Slowest (v ∷ vs) seen acc rd s =
      heads_from-Slowest vs (v ∷ seen) (slowest rings acc v) rd.1
        (slowest-Slowest v seen acc rd.0 s)

-- A ring whose head and cursor are moved to a slot.
abbrev freed_to : Ring → ℕ → Ring
freed_to g i = record g { head = i; cur = i }

-- The ring after the round: still in order, the tail where it was, and every active task's head
-- still between the head and the tail.
pub record Freed (r : ℕ) (vs : List View) (g g' : Ring) : Type 0 where
  pub window : InWindow g'
  pub tail_same : g'.tail ≡ g.tail
  pub forward : distance g g'.head ≤ distance g g.tail
  pub kept : All (Reads g' r) vs

freed_to-Reads :
    (g : Ring) (r i : ℕ) (vs : List View)
    → InWindow g
    → Within g i
    → All (Reads g r) vs
    → All (NotPassed g r i) vs
    → All (Reads (freed_to g i) r) vs
freed_to-Reads g r i [] ok_ring w a b = tt
freed_to-Reads g r i (v ∷ vs) ok_ring w a b =
    (ground arith, freed_to-Reads g r i vs ok_ring w a.1 b.1)

preceding_buf-some : (g : Ring) (i : ℕ) → i ≢ g.head → preceding_buf g i ≡ some (preceding g i)
unfolding preceding_buf
preceding_buf-some g i ne = rw (ne→== i g.head ne)

move_head-Freed :
    (g : Ring) (r i : ℕ) (vs : List View) (st : Stats)
    → InWindow g
    → Within g i
    → i ≢ g.head
    → All (Reads g r) vs
    → All (NotPassed g r i) vs
    → Returns (λ x. Freed r vs g x.0) (move_head g i st)
unfolding move_head goto_buf release_done_buf
move_head-Freed g r i vs st ok_ring w ne a b =
    rw (preceding_buf-some g i ne, move_head, ==-refl i)
      (record {
        window = ground arith;
        tail_same = refl;
        forward = w.1;
        kept = freed_to-Reads g r i vs ok_ring w a b;
      })

pub same-Freed :
    (g : Ring) (r : ℕ) (vs : List View) → InWindow g → All (Reads g r) vs → Freed r vs g g
same-Freed g r vs ok_ring a = record {
  window = ok_ring;
  tail_same = refl;
  forward = ground arith;
  kept = a;
}

pub per_ring-Freed :
    (rings : ℕ → Ring) (r : ℕ) (vs : List View) (heads : Option (ℕ → ℕ)) (acc : Bool × Stats)
    → InWindow (rings r)
    → All (Reads (rings r) r) vs
    → Within (rings r) (new_head_of heads r (rings r))
    → All (NotPassed (rings r) r (new_head_of heads r (rings r))) vs
    → Returns (λ x. Freed r vs (rings r) x.0) (per_ring heads r (rings r) acc)
unfolding per_ring
per_ring-Freed rings r vs heads acc ok_ring a w b =
    elim (Bool-cases ((rings r).tail == (rings r).head)) [
      | inl e ↦ rw e (same-Freed (rings r) r vs ok_ring a)
      | inr e ↦ rw e (elim (ℕ_discrete (new_head_of heads r (rings r)) (rings r).head) [
        | yes n ↦ rw (eq→== _ _ n) (same-Freed (rings r) r vs ok_ring a)
        | no n ↦ rw (ne→== _ _ n) (
            Returns-bind (λ x. Freed r vs (rings r) x.0) (λ x. Freed r vs (rings r) x.0) _ _
              (move_head-Freed (rings r) r (new_head_of heads r (rings r)) vs acc.1 ok_ring w n a b)
              (λ x f. f))
      ])
    ]

-- The head chosen for a ring, in both cases of `tasks_get_heads`.
pub new_head-Within :
    (rings : ℕ → Ring) (r : ℕ) (vs : List View)
    → InWindow (rings r)
    → All (Reads (rings r) r) vs
    → Within (rings r) (new_head_of (get_heads rings vs) r (rings r))
      × All (NotPassed (rings r) r (new_head_of (get_heads rings vs) r (rings r))) vs
unfolding get_heads
new_head-Within rings r vs ok_ring a =
    go (heads_from rings none vs) (heads_from-Slowest rings r ok_ring vs [] none a tt)
  where
    go :
        (hs : Option (ℕ → ℕ))
        → Slowest rings r ok_ring (reverse_onto vs []) hs
        → Within (rings r) (new_head_of hs r (rings r))
          × All (NotPassed (rings r) r (new_head_of hs r (rings r))) vs
    go none s = (
      (ok_ring.tail_in, omega arith),
      inactive-NotPassed rings r ok_ring (rings r).tail vs
          (All-reverse_onto (λ v. v.active ≡ false) vs [] s).0,
    )
    go (some hs) s = (s.0, (All-reverse_onto (NotPassed (rings r) r (hs r)) vs [] s.1).0)
