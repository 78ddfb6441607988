-- ===== src/Coordinator/Arrivals.antt =====
-- `s_new_pkts_hn` as a whole: every ring in turn.
use native.Mathlib.Decide.{ℕ_discrete}
use tes_0mq.Base.{
  ℕ, zero, suc, ◌+◌, ◌<◌, ◌≤◌, ◌≡◌, refl, sym, subst, Bool, true, arith, Outcome, Returns,
  Returns-bind, Returns-mono, All, List, Option, Bool-cases, inl, inr, ne→==, ==-refl,
}
use tes_0mq.Ring.{Ring}
use tes_0mq.Ring.Window.{InWindow}
use tes_0mq.Task.{num_rings}
use tes_0mq.Coordinator.{
  View, Stats, get_heads, new_head_of, per_ring, over_rings, new_pkts_hn, tasks_wakeup, put, poll,
}
use tes_0mq.Coordinator.Safety.{
  Within, Reads, NotPassed, Freed, same-Freed, per_ring-Freed, new_head-Within,
}

module _ (vs : List View) (heads : Option (ℕ → ℕ)) (rings : ℕ → Ring) where
  -- What the loop may assume of a ring.
  pub record Ready (k : ℕ) : Type 0 where
    pub window : InWindow (rings k)
    pub reads : All (Reads (rings k) k) vs
    pub target : Within (rings k) (new_head_of heads k (rings k))
    pub ahead : All (NotPassed (rings k) k (new_head_of heads k (rings k))) vs

  round-Freed :
      (r : ℕ) (g : Ring) (acc : Bool × Stats)
      → g ≡ rings r
      → Ready r
      → Returns (λ x. Freed r vs (rings r) x.0) (per_ring heads r g acc)
  round-Freed r g acc e rd =
      subst (λ c. Returns (λ x. Freed r vs (rings r) x.0) (per_ring heads r c acc)) (sym e)
        (per_ring-Freed rings r vs heads acc rd.window rd.reads rd.target rd.ahead)

  put-Freed :
      (r : ℕ) (g : Ring) (now : ℕ → Ring)
      → Freed r vs (rings r) g
      → ((k : ℕ) → k < r → Freed k vs (rings k) (now k))
      → (k : ℕ) → k < r + 1
      → Freed k vs (rings k) (put now r g k)
  put-Freed r g now f before k lt = elim (ℕ_discrete k r) [
    | yes e ↦ subst (λ j. Freed j vs (rings j) (put now r g j)) (sym e) (rw (==-refl r) f)
    | no ne ↦ rw (ne→== k r ne) (before k (omega arith))
  ]

  over_rings-Freed :
      (n r : ℕ) (now : ℕ → Ring) (acc : Bool × Stats)
      → ((k : ℕ) → k < r + n → Ready k)
      → ((k : ℕ) → r ≤ k → now k ≡ rings k)
      → ((k : ℕ) → k < r → Freed k vs (rings k) (now k))
      → Returns
          (λ x. (k : ℕ) → k < r + n → Freed k vs (rings k) (x.0 k))
          (over_rings heads n r now acc)
  unfolding over_rings
  over_rings-Freed zero r now acc rd later before = λ k lt. before k (omega arith)
  over_rings-Freed (suc n) r now acc rd later before =
      Returns-bind (λ x. Freed r vs (rings r) x.0)
        (λ x. (k : ℕ) → k < r + suc n → Freed k vs (rings k) (x.0 k)) _ _
        (round-Freed r (now r) acc (later r (omega arith)) (rd r (omega arith)))
        (λ x f. widen _ (
          over_rings-Freed n (r + 1) (put now r x.0) (x.1, x.2) (λ k lt. rd k (omega arith))
            (λ k le. rw (ne→== k r (omega arith)) (later k (omega arith)))
            (put-Freed r x.0 now f before)))
    where
      widen :
          (m : Outcome ((ℕ → Ring) × Bool × Stats))
          → Returns (λ x. (k : ℕ) → k < r + 1 + n → Freed k vs (rings k) (x.0 k)) m
          → Returns (λ x. (k : ℕ) → k < r + suc n → Freed k vs (rings k) (x.0 k)) m
      widen m h =
          Returns-mono (λ x. (k : ℕ) → k < r + 1 + n → Freed k vs (rings k) (x.0 k))
            (λ x. (k : ℕ) → k < r + suc n → Freed k vs (rings k) (x.0 k)) m h
            (λ x f k lt. f k (omega arith))

-- When packets arrive, and every ring is in order with the heads of all active tasks between its
-- head and its tail, then `s_new_pkts_hn` fails no assertion; every ring stays in order and keeps
-- its tail, and each active task's head is still between the head and the tail: no slot is given
-- back to the kernel that an active task has yet to read.
pub new_pkts_hn-Freed :
    (signal_ok : ℕ → Bool) (vs : List View) (rings : ℕ → Ring) (st : Stats)
    → ((k : ℕ) → k < num_rings → InWindow (rings k))
    → ((k : ℕ) → k < num_rings → All (Reads (rings k) k) vs)
    → Returns
        (λ x. (k : ℕ) → k < num_rings → Freed k vs (rings k) (x.2 k))
        (new_pkts_hn signal_ok vs rings st)
unfolding new_pkts_hn
new_pkts_hn-Freed signal_ok vs rings st ok_rings reads =
    elim (Bool-cases ((tasks_wakeup signal_ok 0 vs).0)) [
      | inr unsent ↦ rw unsent (λ k lt. same-Freed (rings k) k vs (ok_rings k lt) (reads k lt))
      | inl sent ↦ rw sent (
          Returns-bind (λ x. (k : ℕ) → k < num_rings → Freed k vs (rings k) (x.0 k))
            (λ x. (k : ℕ) → k < num_rings → Freed k vs (rings k) (x.2 k)) _ _
            (over_rings-Freed vs (get_heads rings vs) rings 4 0 rings (true, poll st)
              (λ k lt. ready k (omega arith)) (λ k le. refl) (λ k lt. absurd (omega arith)))
            (λ x f. f))
    ]
  where
    ready : (k : ℕ) → k < num_rings → Ready vs (get_heads rings vs) rings k
    ready k lt =
        let w = new_head-Within rings k vs (ok_rings k lt) (reads k lt) in
        record { window = ok_rings k lt; reads = reads k lt; target = w.0; ahead = w.1 }
