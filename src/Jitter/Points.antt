-- ===== src/Jitter/Points.antt =====
-- The points between two events of the reference channel.
use tes_0mq.Base.{
  ℕ, zero, suc, ◌+◌, ◌-◌, ◌<◌, ◌≡◌, refl, sym, ap, ◌∙◌, inl, inr, Bool, true, false, false≢true,
  not, ltb, ◌==◌, if◌then◌else◌, arith, ok, ◌>>◌, check, Returns, Returns-bind, Returns-check, none,
  some, Bool-cases, ==-refl,
}
use tes_0mq.Jitter.{
  max_points, nbins, Point, Jitter, put_point, add_to_first, bin_of, save_in, save_first,
  save_points, new_point, add_delays, after_delay,
}

-- All points but the last are of the histogram, and the last is of none.
pub record Tracked (d : Jitter) : Type 0 where
  pub few : d.npts < max_points
  pub last : 0 < d.npts → (d.points (d.npts - 1)).hid ≡ none
  pub others : (k : ℕ) → k + 1 < d.npts → (d.points k).hid ≡ some 0

-- The settings stay.
pub record SameConf (d d' : Jitter) : Type 0 where
  pub cur : d'.cur_conf ≡ d.cur_conf
  pub conf : d'.conf ≡ d.conf
  pub ticks : d'.ticks ≡ d.ticks
  pub publishing : d'.publishing ≡ d.publishing
  pub sent : d'.sent ≡ d.sent

pub bin_of-lt : (v : Point) → bin_of v < nbins
unfolding bin_of
bin_of-lt v = ground arith

hid-add_to_first :
    (n delay k : ℕ) (points : ℕ → Point) → (add_to_first n delay points k).hid ≡ (points k).hid
unfolding add_to_first
hid-add_to_first zero delay k points = refl
hid-add_to_first (suc n) delay k points = elim (Bool-cases (k == n)) [
  | inl e ↦
      let same : n ≡ k = ground arith in
      rw e (hid-add_to_first n delay n points ∙ ap (λ m. (points m).hid) same)
  | inr e ↦ rw e (hid-add_to_first n delay k points)
]

hid-add_delays :
    (r : Bool) (delay k : ℕ) (d : Jitter) → ((add_delays r delay d).points k).hid ≡ (d.points k).hid
hid-add_delays true delay k d = hid-add_to_first (d.npts - 1) delay k d.points
hid-add_delays false delay k d =
    let before = hid-add_to_first (d.npts - 1) delay in
    elim (Bool-cases (k == d.npts - 1)) [
      | inl e ↦
          let same : d.npts - 1 ≡ k = ground arith in
          rw e (before (d.npts - 1) d.points ∙ ap (λ m. (d.points m).hid) same)
      | inr e ↦ rw e (before k d.points)
    ]

pub add_delays-Tracked :
    (r : Bool) (delay : ℕ) (d : Jitter) → Tracked d → Tracked (add_delays r delay d)
add_delays-Tracked r delay d t = record {
  few = t.few;
  last = λ h. hid-add_delays r delay (d.npts - 1) d ∙ t.last h;
  others = λ k h. hid-add_delays r delay k d ∙ t.others k h;
}

save_first-Returns :
    (n : ℕ) (points : ℕ → Point) (bins : ℕ → ℕ → ℕ)
    → ((k : ℕ) → k < n → (points k).hid ≡ some 0)
    → Returns (λ _. Unit {0}) (save_first n points bins)
unfolding save_first save_in
save_first-Returns zero points bins h = tt
save_first-Returns (suc n) points bins h =
    Returns-bind (λ _. Unit {0}) (λ _. Unit {0}) (save_first n points bins) _
      (save_first-Returns n points bins (λ k l. h k (omega arith)))
      (λ before _. rw (h n (omega arith)) tt)

save_points-Tracked :
    (d : Jitter)
    → Tracked d
    → Returns (λ d'. Tracked d' × SameConf d d' × (d'.npts ≡ 1)) (save_points d)
unfolding save_points
save_points-Tracked d t =
    Returns-bind (λ _. Unit {0}) _ (save_first (d.npts - 1) d.points d.hist.bins) _
      (save_first-Returns (d.npts - 1) d.points d.hist.bins (λ k l. t.others k (omega arith)))
      (λ counted _. (
        record { few = omega arith; last = λ _. refl; others = λ k l. absurd (omega arith) },
        record { cur = refl; conf = refl; ticks = refl; publishing = refl; sent = refl },
        refl,
      ))

-- Of two channels, one is the reference.
other_channel :
    (ch ref : ℕ) → ch < 2 → ref < 2 → (ch == ref) ≡ false → (if ltb ref ch then ch - 1 else ch) ≡ 0
other_channel ch ref c r ne = ground arith

module _ (ch : ℕ) (d : Jitter) (t : Tracked d) (pos : 0 < d.npts) (c : ch < 2)
    (r : d.cur_conf.ref_ch < 2) where
  named : Point
  named =
      let entry = d.points (d.npts - 1) in
      record entry { hid = some (if ltb d.cur_conf.ref_ch ch then ch - 1 else ch) }

  others-new :
      (ch == d.cur_conf.ref_ch) ≡ false
      → (v : Point) (k : ℕ) → k + 1 < d.npts + 1
      → (put_point d.npts v (put_point (d.npts - 1) named d.points) k).hid ≡ some 0
  unfolding named
  others-new ne v k h =
      let a : (k == d.npts) ≡ false = ground arith in
      elim (Bool-cases (k == d.npts - 1)) [
        | inl e ↦ rw (a, e) (ap some (other_channel ch d.cur_conf.ref_ch c r ne))
        | inr e ↦ let lt : k + 1 < d.npts = ground arith in rw (a, e) (t.others k lt)
      ]

  pub new_point-Tracked :
      (ch == d.cur_conf.ref_ch) ≡ false
      → Tracked (new_point ch d) × SameConf d (new_point ch d) × (0 < (new_point ch d).npts)
  unfolding new_point named
  new_point-Tracked ne = elim (Bool-cases (ltb d.npts (max_points - 1))) [
    | inl e ↦
        let back : d.npts + 1 - 1 ≡ d.npts = omega arith in
        rw e (
          record {
            few = ground arith;
            last = λ h. rw (back, ==-refl d.npts) refl;
            others = λ k h. others-new ne _ k h;
          },
          record { cur = refl; conf = refl; ticks = refl; publishing = refl; sent = refl },
          omega arith,
        )
    | inr e ↦
        rw e
          (t, record { cur = refl; conf = refl; ticks = refl; publishing = refl; sent = refl }, pos)
  ]

-- What an event leaves.
pub record Stepped (d d' : Jitter) : Type 0 where
  pub tracked : Tracked d'
  pub same : SameConf d d'
  pub some_points : 0 < d'.npts

-- One event after the delay is added.
module _ (ch : ℕ) (d : Jitter) (t : Tracked d) (c : ch < 2) (r : d.cur_conf.ref_ch < 2) where
  made :
      (new : Bool)
      → 0 < d.npts
      → (new ≡ true → (ch == d.cur_conf.ref_ch) ≡ false)
      → Returns
          (Stepped d)
          (if new then check (not (ch == d.cur_conf.ref_ch)) >> ok (new_point ch d) else ok d)
  made true pos ne =
      let (t', s, p) = new_point-Tracked ch d t pos c r (ne refl) in
      rw (ne refl) (record { tracked = t'; same = s; some_points = p })
  made false pos ne = record {
    tracked = t;
    same = record { cur = refl; conf = refl; ticks = refl; publishing = refl; sent = refl };
    some_points = pos;
  }

  pub after_delay-Stepped :
      (is_ref new : Bool)
      → (is_ref ≡ false → 0 < d.npts)
      → (new ≡ true → is_ref ≡ false)
      → (new ≡ true → (ch == d.cur_conf.ref_ch) ≡ false)
      → Returns (Stepped d) (after_delay is_ref new ch d)
  unfolding after_delay
  after_delay-Stepped true true pos apart ne = absurd (false≢true (sym (apart refl)))
  after_delay-Stepped true false pos apart ne =
      Returns-bind (λ d'. Tracked d' × SameConf d d' × (d'.npts ≡ 1)) (Stepped d) (save_points d) _
        (save_points-Tracked d t)
        (λ d' (t', s, e).
          Returns-check (Stepped d) (ltb 0 d'.npts) _ (ground arith)
            (record { tracked = t'; same = s; some_points = omega arith }))
  after_delay-Stepped false new pos apart ne =
      Returns-check (Stepped d) (ltb 0 d.npts) _ (ground (arith, pos refl)) (made new (pos refl) ne)
