-- ===== src/Capture/Buffer/Failing.antt =====
-- A write that fails while the buffer has no room for another frame.
use tes_0mq.Base.{
  ℕ, zero, suc, ◌+◌, ◌-◌, ◌<◌, ◌≡◌, refl, Bool, true, false, not, ◌&&◌, ltb, leb, arith, Outcome,
  ok, abort, ◌>>◌, check, List, length, ne→==,
}
use tes_0mq.Packet.{mtu}
use tes_0mq.Capture.Buffer.{
  bufsize, minsize, broken, Answers, Job, failed, Buf, settle, queue_job, queue, has_room,
  force_room, fill, entry_ok, pass_on, try_queue,
}

-- A round that cannot go on.
stuck :
    (fuel : ℕ) (answers : ℕ → Answers) (k : ℕ) (b : Buf)
    → force_room fuel answers k (failed, b) ≡ ok (failed, b)
unfolding force_room
stuck zero answers k b = ground arith
stuck (suc fuel) answers k b = ground arith

queue-fails :
    (a : Answers) (force : Bool) (b : Buf)
    → a.status ≡ broken
    → 0 < b.enqueued
    → queue a force b ≡ ok (failed, b)
unfolding queue queue_job settle
queue-fails a force b e pos = simp (ne→== b.enqueued 0 (omega arith), e) refl

left-fill :
    (bs : List ℕ) (b : Buf)
    → ((fill bs b).enqueued ≡ b.enqueued) × ((fill bs b).waiting ≡ b.waiting + length bs)
unfolding fill
left-fill bs b = ground arith

check_fails : (c : Bool) (m : Outcome (Job × Buf)) → m ≡ abort → (check c >> m) ≡ abort
check_fails true m e = e
check_fails false m e = refl

pass_on-fails :
    (fuel : ℕ) (answers : ℕ → Answers) (wrapped : Bool) (c : Buf)
    → (answers 0).status ≡ broken
    → 0 < c.enqueued
    → bufsize < c.enqueued + c.waiting + mtu
    → pass_on fuel answers wrapped c ≡ abort
unfolding pass_on
pass_on-fails fuel answers wrapped c e pos full =
    let r : has_room c ≡ false = ground arith in
    let q = queue-fails (answers 0) false c e pos in
    let w : (ltb c.waiting minsize && (not wrapped && has_room c)) ≡ false = ground arith in
    rw w (simp (q, stuck fuel answers 1 c, r) refl)

-- A write that is reported as failed ends the process in an assertion, where a batch is enqueued and the
-- frame leaves no room for another: the error is logged, and then the last assertion of
-- `s_try_queue_aiobuf` wants room. The end of the job that the handler has for an error is not reached.
pub try_queue-fails :
    (fuel : ℕ) (answers : ℕ → Answers) (b : Buf) (bs : List ℕ)
    → (answers 0).status ≡ broken
    → 0 < b.enqueued
    → bufsize < b.enqueued + b.waiting + length bs + mtu
    → try_queue fuel answers bs b ≡ abort
unfolding try_queue
try_queue-fails fuel answers b bs e pos full =
    let (le, lw) = left-fill bs b in
    check_fails (ltb 0 (length bs)) _ (
      check_fails (entry_ok b) _ (
        pass_on-fails fuel answers (leb (bufsize - b.cur) (length bs)) (fill bs b) e (omega arith)
          (omega arith)))
