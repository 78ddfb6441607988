-- ===== src/Hist/Assembly.antt =====
-- A whole histogram through the task of src/bin/tesd_task_hist.c: the header frame and the frames
-- that continue it.
use native.Mathlib.Nat.{zero-add}
use tes_0mq.Base.{
  Bool-cases, inl, inr, subst, append_assoc, append-nil, ℕ, ◌+◌, ◌-◌, ◌*◌, ◌%◌, ◌^◌, ◌<◌, ◌≤◌, ◌≡◌,
  ◌≢◌, refl, Bool, true, false, ltb, if◌then◌else◌, arith, Outcome, ok, ◌>>=◌, Returns,
  Returns-bind, List, [], ◌∷◌, ◌++◌, sym, length,
}
use tes_0mq.Packet.{
  Packet, flen, pseq, is_mca, is_header, mca_nbins, mca_nbins_tot, mca_size, hdr_len, bytes,
  length-bytes, payload, payloads,
}
use tes_0mq.Packet.Valid.{no_errs, is_valid}
use tes_0mq.Memory.{copy, read, read-copy}
use tes_0mq.Task.{Rc, fine}
use tes_0mq.Task.Dispatch.{is_fine}
use tes_0mq.Hist.{Hist, paylen, clear, publish, append, accumulate, continuation, step}
use tes_0mq.Hist.Assertions.{
  McaFrame, mca_frame, max_bins, Idle, Building, IsReady, fresh, header-fresh, bins_of_continuation,
  bins_of_header,
}

-- The state with `n` of the `tot` bins and the bytes `got` received, or after the last one, with `s` sent
-- before.
abbrev Taken : List (List ℕ) → ℕ → ℕ → List ℕ → Rc × Hist → Type 0
Taken s n tot got x =
    (x.0 ≡ fine)
    × ((n < tot
          → Building x.1
            × (x.1.nbins ≡ tot)
            × (x.1.cur_nbins ≡ n)
            × (x.1.sent ≡ s)
            × (read x.1.buf 0 x.1.cur_size ≡ got))
        × (n ≡ tot → Idle x.1 × (x.1.sent ≡ got ∷ s)))

-- The frames after a header, in sequence, with `left` bins in all.
unfoldable pub Continues : ℕ → ℕ → List Packet → Type 0
Continues prev left [] = left ≡ 0
Continues prev left (p ∷ ps) =
    (is_valid p ≡ no_errs)
    × (is_mca p ≡ true)
    × (is_header p ≡ false)
    × ((pseq p + 2 ^ 16 - prev) % 2 ^ 16 ≡ 1)
    × (mca_nbins p ≤ left)
    × Continues (pseq p) (left - mca_nbins p) ps

abbrev pub Sent : List (List ℕ) → List ℕ → Rc × Hist → Type 0
Sent s got x = (x.0 ≡ fine) × Idle x.1 × (x.1.sent ≡ got ∷ s)

module _ (accepts : List (List ℕ) → List ℕ → Bool) where
  received :
      (p : Packet) (d : Hist)
      → hdr_len ≤ flen p
      → flen p < 2 ^ 16
      → d.cur_size + (flen p - hdr_len) < 2 ^ 32
      → read
          (copy d.buf d.cur_size (bytes p hdr_len (paylen (flen p))))
          0
          ((d.cur_size + paylen (flen p)) % 2 ^ 32)
        ≡ read d.buf 0 d.cur_size ++ payload p
  unfolding payload
  received p d h k l =
      let e : paylen (flen p) ≡ flen p - hdr_len = omega arith in
      let f : (d.cur_size + (flen p - hdr_len)) % 2 ^ 32
          ≡ d.cur_size + length (bytes p hdr_len (flen p - hdr_len)) =
        rw (length-bytes) (omega arith) in
      rw (e, f, read-copy)

  accumulate-Taken :
      (p : Packet) (d : Hist)
      → McaFrame p
      → d.discard ≡ false
      → d.nbins ≤ max_bins
      → 0 < d.cur_nbins + mca_nbins p
      → d.cur_nbins + mca_nbins p ≤ d.nbins
      → d.size ≡ 40 + 4 * d.nbins
      → d.cur_size + (flen p - hdr_len) ≡ 40 + 4 * (d.cur_nbins + mca_nbins p)
      → (d.cur_nbins + mca_nbins p ≡ d.nbins
          → accepts d.sent (read d.buf 0 d.cur_size ++ payload p) ≡ true)
      → Returns
          (Taken d.sent (d.cur_nbins + mca_nbins p) d.nbins (read d.buf 0 d.cur_size ++ payload p))
          (accumulate accepts p (flen p) d)
  unfolding accumulate append publish clear
  accumulate-Taken p d f nd small pos le sz cs acc =
      let r = received p d (ground (arith, f.above)) (ground (arith, f.below)) (ground arith) in
      ground (arith, f.above, f.below, r)

  -- The task's handler on frame after frame, each of the full length and without an error, while it
  -- returns 0; `prev` is the protocol sequence number of the MCA frame before.
  pub run : ℕ → List Packet → Hist → Outcome (Rc × Hist)
  run prev [] d = ok (fine, d)
  run prev (p ∷ ps) d =
      step accepts prev p (flen p) no_errs d
      >>= (λ x. if is_fine x.0 then run (pseq p) ps x.1 else ok x)

  step-Taken :
      (prev : ℕ) (p : Packet) (d : Hist)
      → Building d
      → is_valid p ≡ no_errs
      → is_mca p ≡ true
      → is_header p ≡ false
      → (pseq p + 2 ^ 16 - prev) % 2 ^ 16 ≡ 1
      → mca_nbins p ≤ d.nbins - d.cur_nbins
      → (d.cur_nbins + mca_nbins p ≡ d.nbins
          → accepts d.sent (read d.buf 0 d.cur_size ++ payload p) ≡ true)
      → Returns
          (Taken d.sent (d.cur_nbins + mca_nbins p) d.nbins (read d.buf 0 d.cur_size ++ payload p))
          (step accepts prev p (flen p) no_errs d)
  unfolding step continuation
  step-Taken prev p d b v m nh seq le acc =
      let f = mca_frame p v m in
      let bins = bins_of_continuation accepts p f nh in
      simp (m, nh, seq, b.5)
        (accumulate-Taken p d f b.5 b.2 (ground (arith, b)) (ground (arith, b)) b.4
          (ground (arith, b, bins)) acc)

  -- Nothing follows the last bin.
  Continues-zero : (prev left : ℕ) (ps : List Packet) → left ≡ 0 → Continues prev left ps → ps ≡ []
  unfolding Continues
  Continues-zero prev left [] e c = refl
  Continues-zero prev left (p ∷ ps) e (v, m, nh, seq, le, c) =
      ground (arith, bins_of_continuation accepts p (mca_frame p v m) nh)

  -- From `d`, which has received `got`, the frames make up the rest of the histogram.
  abbrev Finishes : ℕ → List Packet → Hist → List ℕ → Type 0
  Finishes prev ps d got =
      Building d
      → read d.buf 0 d.cur_size ≡ got
      → Continues prev (d.nbins - d.cur_nbins) ps
      → accepts d.sent (got ++ payloads ps) ≡ true
      → Returns (Sent d.sent (got ++ payloads ps)) (run prev ps d)

  -- What follows a frame that was taken.
  Taken-Sent :
      (prev : ℕ) (ps : List Packet) (s : List (List ℕ)) (n tot : ℕ) (got : List ℕ) (x : Rc × Hist)
      → Finishes prev ps x.1 got
      → Taken s n tot got x
      → n ≤ tot
      → Continues prev (tot - n) ps
      → accepts s (got ++ payloads ps) ≡ true
      → Returns (Sent s (got ++ payloads ps)) (if is_fine x.0 then run prev ps x.1 else ok x)
  unfolding run payloads
  Taken-Sent prev ps s n tot got x next (e, (more, done)) le c acc = elim (Bool-cases (ltb n tot)) [
    | inl lt ↦
        let (b, en, ec, es, er) = more (ground arith) in
        rw e (
          subst (λ q. Returns (Sent q (got ++ payloads ps)) (run prev ps x.1)) es
            (next b er (rw (en, ec) c) (rw es acc)))
    | inr ge ↦
        let (i, es) = done (ground arith) in
        rw (Continues-zero prev (tot - n) ps (ground arith) c, append-nil, e) (refl, i, es)
  ]

  run-Sent : (prev : ℕ) (ps : List Packet) (d : Hist) (got : List ℕ) → Finishes prev ps d got
  unfolding run Continues payloads
  run-Sent prev [] d got b r c acc = ground (arith, b, c)
  run-Sent prev (p ∷ ps) d got b r (v, m, nh, seq, le, c) acc =
      let assoc : got ++ (payload p ++ payloads ps) ≡ (got ++ payload p) ++ payloads ps =
        sym (append_assoc got (payload p) (payloads ps)) in
      let last : d.cur_nbins + mca_nbins p ≡ d.nbins
          → accepts d.sent (read d.buf 0 d.cur_size ++ payload p) ≡ true =
        λ e.
          subst
            (λ qs.
              accepts d.sent (got ++ (payload p ++ payloads qs)) ≡ true
              → accepts d.sent (read d.buf 0 d.cur_size ++ payload p) ≡ true)
            (sym (Continues-zero (pseq p) (d.nbins - d.cur_nbins - mca_nbins p) ps (omega arith) c))
            (λ a.
              subst (λ g. accepts d.sent (g ++ payload p) ≡ true) (sym r)
                (subst (λ q. accepts d.sent (got ++ q) ≡ true) (append-nil (payload p)) a))
            acc in
      let left : d.nbins - d.cur_nbins - mca_nbins p ≡ d.nbins - (d.cur_nbins + mca_nbins p) =
        omega arith in
      Returns-bind (Taken d.sent (d.cur_nbins + mca_nbins p) d.nbins (got ++ payload p))
        (Sent d.sent (got ++ (payload p ++ payloads ps))) (step accepts prev p (flen p) no_errs d) _
        (subst
          (λ g.
            Returns (Taken d.sent (d.cur_nbins + mca_nbins p) d.nbins (g ++ payload p))
              (step accepts prev p (flen p) no_errs d))
          r (step-Taken prev p d b v m nh seq le last))
        (λ x t. rw assoc (
          Taken-Sent (pseq p) ps d.sent (d.cur_nbins + mca_nbins p) d.nbins (got ++ payload p) x
            (run-Sent (pseq p) ps x.1 (got ++ payload p)) t (ground (arith, b))
            (subst (λ k. Continues (pseq p) k ps) left c) (rw (sym assoc) acc)))

  header-Taken :
      (prev : ℕ) (p : Packet) (d : Hist)
      → IsReady d
      → is_valid p ≡ no_errs
      → is_mca p ≡ true
      → is_header p ≡ true
      → flen p ≢ 64
      → mca_nbins_tot p ≤ max_bins
      → mca_nbins p ≤ mca_nbins_tot p
      → (mca_nbins p ≡ mca_nbins_tot p → accepts d.sent (payload p) ≡ true)
      → Returns
          (Taken d.sent (mca_nbins p) (mca_nbins_tot p) (payload p))
          (step accepts prev p (flen p) no_errs d)
  unfolding step clear mca_size read
  header-Taken prev p d r v m ih ne small le acc =
      let f = mca_frame p v m in
      let bins = bins_of_header accepts p f ih ne in
      simp (m, ih)
        (rw (header-fresh accepts p d r) (
          subst
            (λ n.
              Returns (Taken d.sent n (mca_nbins_tot p) (payload p))
                (accumulate accepts p (flen p) (fresh p d)))
            (zero-add (mca_nbins p))
            (accumulate-Taken p (fresh p d) f refl small (ground (arith, bins)) (omega arith)
              (omega arith) (ground (arith, bins)) (λ e. acc (omega arith)))))

-- A histogram that arrives whole is published whole. The task, ready for it, is given a valid MCA
-- header frame that announces at most 16384 bins and brings one at least, then valid MCA frames with
-- consecutive protocol sequence numbers that bring the rest of the bins, neither more nor fewer. It
-- returns 0 on each, and sends one message: what the frames carry after their 24-byte headers, in
-- order, if the socket accepts that message. It is then empty, and waits for the next header.
pub run_publishes :
    (accepts : List (List ℕ) → List ℕ → Bool) (prev : ℕ) (p : Packet) (ps : List Packet) (d : Hist)
    → IsReady d
    → is_valid p ≡ no_errs
    → is_mca p ≡ true
    → is_header p ≡ true
    → flen p ≢ 64
    → mca_nbins_tot p ≤ max_bins
    → mca_nbins p ≤ mca_nbins_tot p
    → Continues (pseq p) (mca_nbins_tot p - mca_nbins p) ps
    → accepts d.sent (payloads (p ∷ ps)) ≡ true
    → Returns (Sent d.sent (payloads (p ∷ ps))) (run accepts prev (p ∷ ps) d)
unfolding run payloads
run_publishes accepts prev p ps d r v m ih ne small le c acc =
    let last : mca_nbins p ≡ mca_nbins_tot p → accepts d.sent (payload p) ≡ true = λ e.
      subst
        (λ qs. accepts d.sent (payload p ++ payloads qs) ≡ true → accepts d.sent (payload p) ≡ true)
        (sym (Continues-zero accepts (pseq p) (mca_nbins_tot p - mca_nbins p) ps (omega arith) c))
        (λ a. subst (λ q. accepts d.sent q ≡ true) (append-nil (payload p)) a) acc in
    Returns-bind (Taken d.sent (mca_nbins p) (mca_nbins_tot p) (payload p))
      (Sent d.sent (payload p ++ payloads ps)) (step accepts prev p (flen p) no_errs d) _
      (header-Taken accepts prev p d r v m ih ne small le last)
      (λ x t.
        Taken-Sent accepts (pseq p) ps d.sent (mca_nbins p) (mca_nbins_tot p) (payload p) x
          (run-Sent accepts (pseq p) ps x.1 (payload p)) t le c acc)
