-- ===== src/Task/Scan/Nearest.antt =====
-- Between activations the ring chosen is the one whose packet is nearest in sequence.
use tes_0mq.Base.{
  ℕ, zero, suc, ◌+◌, ◌<◌, ◌≤◌, ◌≡◌, refl, ◌⊎◌, inl, inr, Bool, true, false, ◌&&◌, leb, ◌==◌,
  if◌then◌else◌, arith, Option, none, some, Bool-cases, subst, sym,
}
use native.Mathlib.Decide.{ℕ_discrete}
use tes_0mq.Ring.{Ring}
use tes_0mq.Task.{Task, num_rings}
use tes_0mq.Task.Scan.{gap, waiting, head_fseq, scan, next_ring}

module _ {ℓ} {D : Type ℓ} (rings : ℕ → Ring) (t : Task D) where
  abbrev pub gap_of : ℕ → ℕ
  gap_of r = gap (head_fseq rings t r) t.prev_fseq

  -- Among the rings from `r` to `r + n`: no waiting one is nearer than `m`.
  abbrev pub NoNearer : ℕ → ℕ → ℕ → Type 0
  NoNearer m r n = (k : ℕ) → r ≤ k → k < r + n → waiting rings t k ≡ true → m ≤ gap_of k

  abbrev pub Found : ℕ → ℕ → ℕ → Option ℕ → Type 0
  Found m r n b =
      (k : ℕ) × (b ≡ some k) × (r ≤ k) × (k < r + n) × (waiting rings t k ≡ true) × (m ≡ gap_of k)

  abbrev Kept : ℕ → ℕ → Option ℕ → ℕ → ℕ → Option ℕ → Type 0
  Kept r n best missed m b =
      (b ≡ best)
      × (m ≡ missed)
      × ((k : ℕ) → r ≤ k → k < r + n → waiting rings t k ≡ true → missed < gap_of k)

  record Scanned (r n missed : ℕ) (best : Option ℕ) (out : ℕ × Option ℕ) : Type 0 where
    le : out.0 ≤ missed
    near : NoNearer out.0 r n
    which : Kept r n best missed out.0 out.1 ⊎ Found out.0 r n out.1

  -- A range is its first ring and the rest.
  range_split {κ} :
      (P : ℕ → Type κ) (r n : ℕ)
      → P r
      → ((k : ℕ) → r + 1 ≤ k → k < r + 1 + n → P k)
      → (k : ℕ) → r ≤ k
      → k < r + suc n
      → P k
  range_split P r n first rest k lo hi = elim (ℕ_discrete k r) [
    | yes e ↦ subst P (sym e) first
    | no ne ↦ rest k (omega arith) (omega arith)
  ]

  take_it : ℕ → ℕ → Bool
  take_it r missed = waiting rings t r && leb (gap_of r) missed

  far_of_skip :
      (r missed : ℕ) → take_it r missed ≡ false → waiting rings t r ≡ true → missed < gap_of r
  unfolding take_it
  far_of_skip r missed e w = ground arith

  near_of_take :
      (r missed : ℕ) → take_it r missed ≡ true → (waiting rings t r ≡ true) × (gap_of r ≤ missed)
  unfolding take_it
  near_of_take r missed e = ground arith

  widen : (m r n : ℕ) (b : Option ℕ) → Found m (r + 1) n b → Found m r (suc n) b
  widen m r n b (k, e, lo, hi, w, g) = (k, e, omega arith, omega arith, w, g)

  Scanned-skip :
      (r n missed : ℕ) (best : Option ℕ) (out : ℕ × Option ℕ)
      → take_it r missed ≡ false
      → Scanned (r + 1) n missed best out
      → Scanned r (suc n) missed best out
  Scanned-skip r n missed best out skip s = record {
    le = s.le;
    near =
        range_split (λ k. waiting rings t k ≡ true → out.0 ≤ gap_of k) r n
          (λ w. omega (arith, far_of_skip r missed skip w, s.le)) s.near;
    which = elim s.which [
      | inl (e, m, far) ↦ inl (
        e,
        m,
        range_split (λ k. waiting rings t k ≡ true → missed < gap_of k) r n
            (far_of_skip r missed skip) far,
      )
      | inr f ↦ inr (widen out.0 r n out.1 f)
    ];
  }

  Scanned-take :
      (r n missed : ℕ) (best : Option ℕ) (out : ℕ × Option ℕ)
      → take_it r missed ≡ true
      → Scanned (r + 1) n (gap_of r) (some r) out
      → Scanned r (suc n) missed best out
  Scanned-take r n missed best out took s =
      let nt = near_of_take r missed took in
      record {
        le = omega (arith, nt.1, s.le);
        near =
            range_split (λ k. waiting rings t k ≡ true → out.0 ≤ gap_of k) r n (λ w. s.le) s.near;
        which = elim s.which [
          | inl (e, m, far) ↦ inr (r, e, omega arith, omega arith, nt.0, m)
          | inr f ↦ inr (widen out.0 r n out.1 f)
        ];
      }

  -- A gap of 0 ends the loop: nothing is nearer.
  Scanned-stop :
      (r n missed : ℕ) (best : Option ℕ)
      → take_it r missed ≡ true
      → gap_of r ≡ 0
      → Scanned r (suc n) missed best (gap_of r, some r)
  Scanned-stop r n missed best took z =
      let nt = near_of_take r missed took in
      record {
        le = nt.1;
        near = λ k lo hi w. omega (arith, z);
        which = inr (r, refl, omega arith, omega arith, nt.0, refl);
      }

  scan-skip :
      (n r missed : ℕ) (best : Option ℕ)
      → take_it r missed ≡ false
      → scan rings t (suc n) r missed best ≡ scan rings t n (r + 1) missed best
  unfolding scan take_it
  scan-skip n r missed best e = rw e

  scan-take :
      (n r missed : ℕ) (best : Option ℕ)
      → take_it r missed ≡ true
      → scan rings t (suc n) r missed best
        ≡ (if gap_of r == 0 then (gap_of r, some r) else scan rings t n (r + 1) (gap_of r) (some r))
  unfolding scan take_it
  scan-take n r missed best e = rw e

  scan-Scanned :
      (n r missed : ℕ) (best : Option ℕ) → Scanned r n missed best (scan rings t n r missed best)
  unfolding scan
  scan-Scanned zero r missed best = record {
    le = omega arith;
    near = λ k lo hi. absurd (omega arith);
    which = inl (refl, refl, λ k lo hi. absurd (omega arith));
  }
  scan-Scanned (suc n) r missed best = elim (Bool-cases (take_it r missed)) [
    | inl took ↦ rw (scan-take n r missed best took) (elim (Bool-cases (gap_of r == 0)) [
      | inl z ↦ rw z (Scanned-stop r n missed best took (ground arith))
      | inr nz ↦
          rw nz (Scanned-take r n missed best _ took (scan-Scanned n (r + 1) (gap_of r) (some r)))
    ])
    | inr skip ↦
        rw (scan-skip n r missed best skip)
          (Scanned-skip r n missed best _ skip (scan-Scanned n (r + 1) missed best))
  ]

  -- What the choice must be: none if no ring has a packet waiting, and otherwise a waiting ring
  -- whose packet follows the last one seen by the smallest gap, which is the count of missed frames.
  abbrev pub Nearest : Option ℕ → ℕ → Type 0
  Nearest b missed =
      ((b ≡ none) × ((k : ℕ) → k < num_rings → waiting rings t k ≡ false))
      ⊎ ((k : ℕ) × (b ≡ some k)
          × (k < num_rings)
          × (waiting rings t k ≡ true)
          × (missed ≡ gap_of k)
          × NoNearer missed 0 num_rings)

  none_waiting : (k : ℕ) → (waiting rings t k ≡ true → 65535 < gap_of k) → waiting rings t k ≡ false
  none_waiting k far = elim (Bool-cases (waiting rings t k)) [
    | inl w ↦ absurd (omega (arith, far w))
    | inr nw ↦ nw
  ]

  Scanned-Nearest : (out : ℕ × Option ℕ) → Scanned 0 num_rings 65535 none out → Nearest out.1 out.0
  Scanned-Nearest out s = elim s.which [
    | inl (e, m, far) ↦ inl (e, λ k lt. none_waiting k (far k (omega arith) (omega arith)))
    | inr (k, e, lo, hi, w, g) ↦ inr (k, e, omega arith, w, g, s.near)
  ]

  -- Between activations `s_task_next_ring` leaves the task as it is and chooses the ring whose
  -- waiting packet has the smallest gap in frame sequence after the last one seen, modulo 2 ^ 16;
  -- it reports that gap as the frames missed. It finds no ring only if none has a packet waiting.
  pub next_ring-Nearest :
      t.just_activated ≡ false
      → ((next_ring rings t).0 ≡ t) × Nearest (next_ring rings t).1 (next_ring rings t).2
  unfolding next_ring
  next_ring-Nearest e = simp e (refl, Scanned-Nearest _ (scan-Scanned num_rings 0 65535 none))
