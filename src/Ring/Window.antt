-- ===== src/Ring/Window.antt =====
-- The reader's window of a ring: the head, then the cursor, then the tail, going forward. The calls
-- of the wrapper, each where its caller may make it, and the kernel's deliveries keep it so.
use tes_0mq.Base.{ℕ, ◌+◌, ◌^◌, ◌<◌, ◌≤◌, ◌≡◌, ◌≢◌, arith}
use tes_0mq.Ring.{
  Ring, rewind_buf, previous_buf, next_buf, goto_buf, goto_last_buf, release_one_buf,
  release_to_buf, release_done_buf, release_all, pending, done, total,
}
use tes_0mq.Ring.Order.{distance, IsSlot}

pub record InWindow (r : Ring) : Type 0 where
  pub slots_32 : r.num_slots < 2 ^ 32
  pub head_in : r.head < r.num_slots
  pub cur_in : r.cur < r.num_slots
  pub tail_in : r.tail < r.num_slots
  pub order : distance r r.cur ≤ distance r r.tail

-- The three counts are distances: `tes_ifring_total` from the head to the tail, `tes_ifring_done`
-- from the head to the cursor, `tes_ifring_pending` from the cursor to the tail; so the slots done
-- and the slots pending make up the total, and all are below the size of the ring.
pub done-pending :
    (r : Ring)
    → InWindow r
    → (total r ≡ distance r r.tail)
      × (done r ≡ distance r r.cur)
      × (done r + pending r ≡ total r)
      × (total r < r.num_slots)
unfolding pending done total
done-pending r v = (ground arith, ground arith, ground arith, ground arith)

-- What may happen to a ring. The first is the kernel's: it moves the tail by no more than there is
-- room for, and writes the slots that it hands over. The conditions of the others are those that the caller has
-- to keep; `tes_ifring_wait_for_more` is none of them, as it puts the cursor past the tail on purpose.
pub data Step (r : Ring) : Ring → Type 0 where
  receive :
      (t : ℕ) {s : Ring}
      → IsSlot r t
      → distance r r.tail ≤ distance r t
      → (s.num_slots ≡ r.num_slots) × (s.head ≡ r.head) × (s.cur ≡ r.cur) × (s.tail ≡ t)
      → Step r s
  rewinds : Step r (rewind_buf r).0
  steps_back : Step r (previous_buf r).0
  steps_on : r.cur ≢ r.tail → Step r (next_buf r).0
  goes_to : (i : ℕ) → IsSlot r i → distance r i ≤ distance r r.tail → Step r (goto_buf r i)
  goes_last : r.head ≢ r.tail → Step r (goto_last_buf r).0
  releases_one : r.head ≢ r.cur → Step r (release_one_buf r).0
  releases_to : (i : ℕ) → IsSlot r i → distance r i ≤ distance r r.cur → Step r (release_to_buf r i)
  releases_done : Step r (release_done_buf r)
  releases_all : Step r (release_all r)

-- A delivery of the kernel, or a call of the wrapper where its caller may make it, keeps the head, the
-- cursor and the tail in order and within the ring.
pub Step-InWindow : {r s : Ring} → InWindow r → Step r s → InWindow s
unfolding rewind_buf previous_buf next_buf goto_buf goto_last_buf release_one_buf release_to_buf
    release_done_buf release_all
Step-InWindow v (receive t ht hd e) = ground arith
Step-InWindow v rewinds = ground arith
Step-InWindow v steps_back = ground arith
Step-InWindow v (steps_on ne) = ground arith
Step-InWindow v (goes_to i hi hd) = ground arith
Step-InWindow v (goes_last ne) = ground arith
Step-InWindow v (releases_one ne) = ground arith
Step-InWindow v (releases_to i hi hd) = ground arith
Step-InWindow v releases_done = ground arith
Step-InWindow v releases_all = ground arith

pub data Reach (r : Ring) : Ring → Type 0 where
  here : Reach r r
  next : {s t : Ring} → Reach r s → Step s t → Reach r t

Reach-keeps : {r s : Ring} → InWindow r → Reach r s → InWindow s
Reach-keeps v here = v
Reach-keeps v (next w st) = Step-InWindow (Reach-keeps v w) st

-- From a ring in order on, over any sequence of deliveries of the kernel and of calls of the wrapper but
-- `tes_ifring_wait_for_more`, the ring stays in order and the slots done and pending make up the total, where
-- each call is made as its caller has to make it, which the wrapper does not check: the cursor goes on only
-- before the tail and is sent no farther than the tail, the last buffer is gone to only if there is one,
-- and no slot is released that the cursor has not passed.
pub Reach-InWindow :
    {r s : Ring} → InWindow r → Reach r s → InWindow s × (done s + pending s ≡ total s)
Reach-InWindow {s = s} v w = let k = Reach-keeps v w in (k, (done-pending s k).2)
