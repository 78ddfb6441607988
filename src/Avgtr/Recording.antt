-- ===== src/Avgtr/Recording.antt =====
-- A whole average trace through the task of src/bin/tesd_task_avgtr.c.
use native.Mathlib.Nat.{zero-add}
use tes_0mq.Base.{
  ℕ, ◌+◌, ◌-◌, ◌%◌, ◌^◌, ◌<◌, ◌≤◌, ◌≡◌, refl, true, false, ltb, if◌then◌else◌, arith, Outcome, ok,
  ◌>>=◌, Returns, Returns-bind, List, [], ◌∷◌, ◌++◌, subst, append_assoc, append-nil, Bool-cases,
  inl, inr, length,
}
use tes_0mq.Packet.{
  Packet, flen, pseq, is_trace_avg, is_header, trace_size, hdr_len, mtu, bytes, length-bytes,
  payload, payloads,
}
use tes_0mq.Packet.Valid.{no_errs, is_valid}
use tes_0mq.Packet.Valid.Spec.{is_valid_iff}
use tes_0mq.Memory.{copy, read, read-copy}
use tes_0mq.Task.{Rc, fine, sleep}
use tes_0mq.Task.Dispatch.{is_fine}
use tes_0mq.Avgtr.{Avgtr, Reply, trace, avgtr_maxsize, paylen, start, finish, append, receive, step}

-- A recording with `got` received.
abbrev Going : List Reply → ℕ → ℕ → List ℕ → Avgtr → Type 0
Going s n tot got d =
    (d.recording ≡ true)
    × (0 < d.cur_size)
    × (d.cur_size ≡ n)
    × (d.size ≡ tot)
    × (d.replies ≡ s)
    × (read d.buf 0 d.cur_size ≡ got)

-- The trace went to the client, and the task is to sleep.
abbrev pub Replied : List Reply → List ℕ → Rc × Avgtr → Type 0
Replied s got x = (x.0 ≡ sleep) × (x.1.recording ≡ false) × (x.1.replies ≡ trace got ∷ s)

abbrev Taken : List Reply → ℕ → ℕ → List ℕ → Rc × Avgtr → Type 0
Taken s n tot got x = (n < tot → (x.0 ≡ fine) × Going s n tot got x.1) × (n ≡ tot → Replied s got x)

received :
    (p : Packet) (d : Avgtr)
    → hdr_len ≤ flen p
    → d.cur_size + (flen p - hdr_len) < 2 ^ 16
    → read
        (copy d.buf d.cur_size (bytes p hdr_len (paylen (flen p))))
        0
        ((d.cur_size + paylen (flen p)) % 2 ^ 16)
      ≡ read d.buf 0 d.cur_size ++ payload p
unfolding payload
received p d h l =
    let e : paylen (flen p) ≡ flen p - hdr_len = omega arith in
    let f : (d.cur_size + (flen p - hdr_len)) % 2 ^ 16
        ≡ d.cur_size + length (bytes p hdr_len (flen p - hdr_len)) =
      rw (length-bytes) (omega arith) in
    rw (e, f, read-copy)

append-Taken :
    (p : Packet) (d : Avgtr)
    → hdr_len < flen p
    → flen p ≤ mtu
    → d.recording ≡ true
    → d.size ≤ avgtr_maxsize
    → d.cur_size + (flen p - hdr_len) ≤ d.size
    → Returns
        (Taken d.replies
          (d.cur_size + (flen p - hdr_len))
          d.size
          (read d.buf 0 d.cur_size ++ payload p))
        (append p (flen p) d)
unfolding append finish
append-Taken p d lo hi rec small le =
    let r = received p d (omega arith) (omega arith) in ground (arith, r)

-- The task's handler on frame after frame, each of the full length and without an error, while it
-- returns 0; `prev` is the protocol sequence number of the trace frame before.
pub run : ℕ → List Packet → Avgtr → Outcome (Rc × Avgtr)
run prev [] d = ok (fine, d)
run prev (p ∷ ps) d =
    step prev p (flen p) no_errs d >>= (λ x. if is_fine x.0 then run (pseq p) ps x.1 else ok x)

-- Frames of an average trace, in sequence, that carry `left` bytes in all.
unfoldable pub Continues : ℕ → ℕ → List Packet → Type 0
Continues prev left [] = left ≡ 0
Continues prev left (p ∷ ps) =
    (is_valid p ≡ no_errs)
    × (is_trace_avg p ≡ true)
    × ((pseq p + 2 ^ 16 - prev) % 2 ^ 16 ≡ 1)
    × (flen p - hdr_len ≤ left)
    × Continues (pseq p) (left - (flen p - hdr_len)) ps

lengths : (p : Packet) → is_valid p ≡ no_errs → (hdr_len < flen p) × (flen p ≤ mtu)
lengths p v = let w = (is_valid_iff p).0 v in (w.1, w.2)

-- Nothing follows the last byte.
Continues-zero : (prev left : ℕ) (ps : List Packet) → left ≡ 0 → Continues prev left ps → ps ≡ []
unfolding Continues
Continues-zero prev left [] e c = refl
Continues-zero prev left (p ∷ ps) e (v, a, seq, le, c) = ground (arith, lengths p v)

step-Taken :
    (prev : ℕ) (p : Packet) (d : Avgtr)
    → is_valid p ≡ no_errs
    → is_trace_avg p ≡ true
    → (pseq p + 2 ^ 16 - prev) % 2 ^ 16 ≡ 1
    → d.recording ≡ true
    → d.size ≤ avgtr_maxsize
    → d.cur_size + (flen p - hdr_len) ≤ d.size
    → Returns
        (Taken d.replies
          (d.cur_size + (flen p - hdr_len))
          d.size
          (read d.buf 0 d.cur_size ++ payload p))
        (step prev p (flen p) no_errs d)
unfolding step start receive
step-Taken prev p d v a seq rec small le =
    let l = lengths p v in ground (arith, append-Taken p d l.0 l.1 rec small le)

header-Taken :
    (prev : ℕ) (p : Packet) (d : Avgtr)
    → is_valid p ≡ no_errs
    → is_trace_avg p ≡ true
    → is_header p ≡ true
    → d.recording ≡ false
    → d.cur_size ≡ 0
    → trace_size p ≤ avgtr_maxsize
    → flen p - hdr_len ≤ trace_size p
    → Returns
        (Taken d.replies (flen p - hdr_len) (trace_size p) (payload p))
        (step prev p (flen p) no_errs d)
unfolding step start receive read
header-Taken prev p d v a h rec empty small le =
    let d1 = record d { recording = true; size = trace_size p } in
    let l = lengths p v in
    let t = append-Taken p d1 l.0 l.1 refl small (rw (empty, zero-add) le) in
    let t0 : Returns (Taken d.replies (0 + (flen p - hdr_len)) (trace_size p) (payload p))
        (append p (flen p) d1) =
      subst
        (λ n.
          Returns
            (Taken d.replies (n + (flen p - hdr_len)) (trace_size p) (read d.buf 0 n ++ payload p))
            (append p (flen p) d1))
        empty t in
    let t1 : Returns (Taken d.replies (flen p - hdr_len) (trace_size p) (payload p))
        (append p (flen p) d1) =
      subst (λ n. Returns (Taken d.replies n (trace_size p) (payload p)) (append p (flen p) d1))
        (zero-add (flen p - hdr_len)) t0 in
    let none_yet : ltb 0 d.cur_size ≡ false = rw empty refl in simp (a, h, rec, none_yet) t1

-- From `d`, with `n` of the `tot` bytes received, the frames make up the rest of the trace.
abbrev Finishes : List Reply → ℕ → ℕ → List ℕ → ℕ → List Packet → Avgtr → Type 0
Finishes s n tot got prev ps d =
    Going s n tot got d
    → n < tot
    → tot ≤ avgtr_maxsize
    → Continues prev (tot - n) ps
    → Returns (Replied s (got ++ payloads ps)) (run prev ps d)

Taken-Replied :
    (prev : ℕ) (ps : List Packet) (s : List Reply) (n tot : ℕ) (got : List ℕ) (x : Rc × Avgtr)
    → Finishes s n tot got prev ps x.1
    → Taken s n tot got x
    → n ≤ tot
    → tot ≤ avgtr_maxsize
    → Continues prev (tot - n) ps
    → Returns (Replied s (got ++ payloads ps)) (if is_fine x.0 then run prev ps x.1 else ok x)
unfolding payloads
Taken-Replied prev ps s n tot got x next (more, all) le small c = elim (Bool-cases (ltb n tot)) [
  | inl lt ↦ let m = more (ground arith) in rw (m.0) (next m.1 (ground arith) small c)
  | inr ge ↦
      let a = all (ground arith) in
      rw (Continues-zero prev (tot - n) ps (ground arith) c, append-nil, a.0) (refl, a.1, a.2)
]

run-Replied :
    (s : List Reply) (n tot : ℕ) (got : List ℕ) (prev : ℕ) (ps : List Packet) (d : Avgtr)
    → Finishes s n tot got prev ps d
unfolding run Continues payloads
run-Replied s n tot got prev [] d g lt small c = ground (arith, c)
run-Replied s n tot got prev (p ∷ ps) d (rec, pos, en, et, es, eg) lt small (v, a, seq, le, c) =
    let t : Returns (Taken s (n + (flen p - hdr_len)) tot (got ++ payload p))
        (step prev p (flen p) no_errs d) =
      rw⁻¹ (eg, en, et, es) (step-Taken prev p d v a seq rec (rw et small) (omega arith)) in
    let left : tot - n - (flen p - hdr_len) ≡ tot - (n + (flen p - hdr_len)) = omega arith in
    rw⁻¹ (append_assoc got (payload p) (payloads ps)) (
      Returns-bind (Taken s (n + (flen p - hdr_len)) tot (got ++ payload p))
        (Replied s ((got ++ payload p) ++ payloads ps)) (step prev p (flen p) no_errs d) _ t
        (λ x k.
          Taken-Replied (pseq p) ps s (n + (flen p - hdr_len)) tot (got ++ payload p) x
            (run-Replied s (n + (flen p - hdr_len)) tot (got ++ payload p) (pseq p) ps x.1) k
            (omega arith) small (subst (λ m. Continues (pseq p) m ps) left c)))

-- An average trace that arrives whole reaches the client whole. The task, with nothing recorded, is
-- given a valid header frame of an average trace, with a size up to 65528 bytes and no less than the
-- frame brings, then valid frames of an average trace with consecutive protocol sequence numbers
-- that bring the rest, neither more nor less. It then asks to sleep, after one reply: what the
-- frames carry after their 24-byte headers, in order.
pub run_replies :
    (prev : ℕ) (p : Packet) (ps : List Packet) (d : Avgtr)
    → d.recording ≡ false
    → d.cur_size ≡ 0
    → is_valid p ≡ no_errs
    → is_trace_avg p ≡ true
    → is_header p ≡ true
    → trace_size p ≤ avgtr_maxsize
    → flen p - hdr_len ≤ trace_size p
    → Continues (pseq p) (trace_size p - (flen p - hdr_len)) ps
    → Returns (Replied d.replies (payloads (p ∷ ps))) (run prev (p ∷ ps) d)
unfolding run payloads
run_replies prev p ps d rec empty v a h small le c =
    Returns-bind (Taken d.replies (flen p - hdr_len) (trace_size p) (payload p))
      (Replied d.replies (payload p ++ payloads ps)) (step prev p (flen p) no_errs d) _
      (header-Taken prev p d v a h rec empty small le)
      (λ x t.
        Taken-Replied (pseq p) ps d.replies (flen p - hdr_len) (trace_size p) (payload p) x
          (run-Replied d.replies (flen p - hdr_len) (trace_size p) (payload p) (pseq p) ps x.1) t le
          small c)
