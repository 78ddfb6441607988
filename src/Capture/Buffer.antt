-- ===== src/Capture/Buffer.antt =====
-- src/bin/tesd_task_cap.c: the buffer between the packet handler and the asynchronous writes of a file,
-- `s_try_queue_aiobuf`, `s_queue_aiobuf` and `s_flush`. Addresses are offsets from `base`. What the
-- system answers to the aio_* calls is a parameter, one `Answers` for each run of `s_queue_aiobuf`.
pub mod Cyclic
pub mod Fill
pub mod Order
pub mod Queue
pub mod Rounds
pub mod Append
pub mod Flush
pub mod Failing
use tes_0mq.Base.{
  ℕ, zero, suc, ◌+◌, ◌-◌, Bool, true, false, not, ◌&&◌, ◌||◌, ltb, leb, ◌==◌, if◌then◌else◌,
  Outcome, ok, abort, hang, ◌>>=◌, ◌>>◌, check, List, [], ◌∷◌, ◌++◌, length, take, drop,
}
use tes_0mq.Packet.{mtu}
use tes_0mq.Memory.{Memory, copy, read}

abbrev pub bufsize : ℕ
bufsize = 10485760

abbrev pub minsize : ℕ
minsize = 512000

-- `aio_error`: EINPROGRESS, 0, another error, ECANCELED.
pub data Status : Type 0 where
  pending complete broken cancelled : Status

-- `aio_return`: the bytes written, or -1 with EAGAIN or another error.
pub data Returned : Type 0 where
  wrote : ℕ → Returned
  again refused : Returned

-- `status` is the first `aio_error`, `suspended` whether `aio_suspend` succeeds, `after` the
-- `aio_error` that follows it. `returned` is `aio_return`, by the bytes asked for, and `accepted`
-- whether `aio_write` succeeds once it does not ask to be called again.
pub record Answers : Type 0 where
  pub status : Status
  pub suspended : Bool
  pub after : Status
  pub returned : ℕ → Returned
  pub accepted : Bool

-- EINPROGRESS, 0, -1 and -2.
pub data Job : Type 0 where
  in_progress nothing failed short : Job

-- `struct s_aiobuf_t`, without its names, with the memory of its buffer. `written` is the content of
-- the file, by the writes that were reported complete: each goes to the offset that it was asked for.
pub record Buf : Type 0 where
  pub mem : Memory
  pub cur : ℕ
  pub tail : ℕ
  pub waiting : ℕ
  pub enqueued : ℕ
  pub size : ℕ
  pub aio_offset : ℕ
  pub aio_buf : ℕ
  pub aio_nbytes : ℕ
  pub written : List ℕ

-- What a file holds after a write of `bs` at offset `o`, where a gap past its end is filled with zeros.
abbrev pub zeros : ℕ → List ℕ
zeros zero = []
zeros (suc n) = 0 ∷ zeros n

unfoldable pub put_at : ℕ → List ℕ → List ℕ → List ℕ
put_at o bs file = take o file ++ (zeros (o - length file) ++ (bs ++ drop (o + length bs) file))

-- From the label `queue_as_is`.
pub submit : Answers → Buf → Outcome (Job × Buf)
submit a b =
    check (not (b.tail == bufsize))
    >> (if b.enqueued == 0
        then check (b.waiting == 0) >> ok (nothing, b)
        else ok (
          if a.accepted then in_progress else failed,
          record b { aio_offset = b.size; aio_buf = b.tail; aio_nbytes = b.enqueued },
        ))

-- The tail after the bytes enqueued, and the bytes to enqueue next.
abbrev pub next_tail : Buf → ℕ
next_tail b = if b.tail + b.enqueued == bufsize then 0 else b.tail + b.enqueued

abbrev pub next_batch : Buf → ℕ
next_batch b = if ltb b.cur (next_tail b) then bufsize - next_tail b else b.cur - next_tail b

abbrev pub released : Buf → Buf
released b = record b {
  size = b.size + b.enqueued;
  tail = next_tail b;
  enqueued = next_batch b;
  waiting = b.waiting - next_batch b;
}

-- From the label `prepare_next`.
pub prepare : Answers → Buf → Outcome (Job × Buf)
prepare a b =
    check (ltb (next_tail b) bufsize)
    >> (check (leb (next_batch b) b.waiting)
        >> (check (b.waiting - next_batch b == 0 || next_tail b + next_batch b == bufsize)
            >> submit a (released b)))

-- By what `aio_return` says of the job before.
pub credit : Returned → Answers → Buf → Outcome (Job × Buf)
credit (wrote n) a b =
    if n == b.enqueued
    then prepare a
        (record b { written = put_at b.aio_offset (read b.mem b.aio_buf b.aio_nbytes) b.written })
    else check (ltb 0 b.enqueued) >> ok (short, b)
credit again a b = submit a b
credit refused a b = ok (failed, b)

-- When the job before is no longer in progress.
pub settle : Status → Answers → Buf → Outcome (Job × Buf)
settle complete a b = credit (a.returned b.aio_nbytes) a b
settle broken a b = ok (failed, b)
settle cancelled a b = abort
settle pending a b = abort

-- `s_queue_aiobuf`.
pub queue_job : Status → Answers → Bool → Buf → Outcome (Job × Buf)
queue_job pending a force b =
    if force
    then if a.suspended then settle a.after a b else ok (failed, b)
    else ok (in_progress, b)
queue_job complete a force b = settle complete a b
queue_job broken a force b = settle broken a b
queue_job cancelled a force b = settle cancelled a b

pub queue : Answers → Bool → Buf → Outcome (Job × Buf)
queue a force b = if b.enqueued == 0 then prepare a b else queue_job a.status a force b

-- Whether a full frame fits beside the bytes that are not written yet.
abbrev pub has_room : Buf → Bool
has_room b = leb (b.enqueued + b.waiting) (bufsize - mtu)

abbrev pub going : Job → Bool
going in_progress = true
going _ = false

-- `while (enqueued + waiting > BUFSIZE - TESPKT_MTU && jobrc == EINPROGRESS)`, on fuel, with the answers
-- from the `k`-th on.
pub force_room : ℕ → (ℕ → Answers) → ℕ → Job × Buf → Outcome (Job × Buf)
force_room zero answers k (j, b) = if not (has_room b) && going j then hang else ok (j, b)
force_room (suc fuel) answers k (j, b) =
    if not (has_room b) && going j
    then queue (answers k) true b >>= (λ x. force_room fuel answers (k + 1) x)
    else ok (j, b)

-- `memcpy` at the cursor, around the end of the buffer.
pub fill : List ℕ → Buf → Buf
fill bs b =
    let room = bufsize - b.cur in
    if ltb (length bs) room
    then record b {
      mem = copy b.mem b.cur bs;
      cur = b.cur + length bs;
      waiting = b.waiting + length bs;
    }
    else record b {
      mem = copy (copy b.mem b.cur (take room bs)) 0 (drop room bs);
      cur = length bs - room;
      waiting = b.waiting + length bs;
    }

-- The assertions on entry.
abbrev pub entry_ok : Buf → Bool
entry_ok b =
    has_room b
    && (ltb b.cur bufsize
        && (leb (b.tail + b.enqueued) bufsize
            && ((ltb b.cur b.tail || leb (b.tail + b.enqueued) b.cur)
                && (if ltb b.cur b.tail
                    then b.cur + bufsize == b.tail + b.enqueued + b.waiting
                    else b.cur == b.tail + b.enqueued + b.waiting))))

-- What follows the copy; `wrapped` is `reserve >= 0`.
pub pass_on : ℕ → (ℕ → Answers) → Bool → Buf → Outcome (Job × Buf)
pass_on fuel answers wrapped b =
    if ltb b.waiting minsize && (not wrapped && has_room b)
    then ok (nothing, b)
    else queue (answers 0) false b
      >>= (λ x. force_room fuel answers 1 x >>= (λ (j, b'). check (has_room b') >> ok (j, b')))

-- `s_try_queue_aiobuf`.
pub try_queue : ℕ → (ℕ → Answers) → List ℕ → Buf → Outcome (Job × Buf)
try_queue fuel answers bs b =
    check (ltb 0 (length bs))
    >> (check (entry_ok b) >> pass_on fuel answers (leb (bufsize - b.cur) (length bs)) (fill bs b))

-- The loop of `s_flush` for one file, on fuel.
pub flush : ℕ → (ℕ → Answers) → ℕ → Buf → Outcome (Job × Buf)
flush zero answers k b = hang
flush (suc fuel) answers k b =
    queue (answers k) true b
    >>= (λ (j, b'). if going j then flush fuel answers (k + 1) b' else ok (j, b'))
