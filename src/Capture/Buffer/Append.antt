-- ===== src/Capture/Buffer/Append.antt =====
-- `s_try_queue_aiobuf` where every write succeeds: a frame that is given to the buffer is added, and
-- there is room for the next.

use tes_0mq.Base.{
  ℕ, ◌<◌, ◌≤◌, ◌≡◌, refl, ◌∙◌, ◌⊎◌, inl, Bool, true, false, not, ◌&&◌, ltb, arith, ok, ◌>>=◌, ◌>>◌,
  check, Returns, Returns-check, Returns-if, Returns-mono, Returns-bind, List, ◌++◌, length,
}
use tes_0mq.Packet.{mtu}
use tes_0mq.Capture.Buffer.{
  minsize, Answers, Job, in_progress, nothing, Buf, queue, has_room, force_room, fill, entry_ok,
  pass_on, try_queue,
}
use tes_0mq.Capture.Buffer.Order.{Inv, Brief, Kept, given}
use tes_0mq.Capture.Buffer.Fill.{given-fill, fill-Inv}
use tes_0mq.Capture.Buffer.Rounds.{Works, Fine, queue-tried, Ready, force_room-Ready}

-- What `s_try_queue_aiobuf` leaves of a frame.
pub record Added (b : Buf) (bs : List ℕ) (x : Job × Buf) : Type 0 where
  pub inv : Inv x.1
  pub brief : Brief x.1
  pub room : has_room x.1 ≡ true
  pub same : given x.1 ≡ given b ++ bs
  pub no_error : (x.0 ≡ nothing) ⊎ (x.0 ≡ in_progress)

module _ (answers : ℕ → Answers) (w : (k : ℕ) → Works (answers k)) where
  queue-Ready :
      (fuel : ℕ) (b : Buf)
      → 3 ≤ fuel
      → Inv b
      → Returns (Ready b) (
          queue (answers 0) false b
          >>= (λ x. force_room fuel answers 1 x >>= (λ (j, b'). check (has_room b') >> ok (j, b'))))
  queue-Ready fuel b h v =
      Returns-bind (λ x. Kept b x × Fine x) (Ready b) _
        (λ x. force_room fuel answers 1 x >>= (λ (j, b'). check (has_room b') >> ok (j, b')))
        (queue-tried (answers 0) (w 0) b v)
        (λ x (k, f).
          Returns-bind (Ready b) (Ready b) _ (λ (j, b'). check (has_room b') >> ok (j, b'))
            (force_room-Ready answers w b fuel 1 3 x h tt k f)
            (λ (j, b') r. Returns-check (Ready b) (has_room b') (ok (j, b')) r.room r))

  module _ (b : Buf) (bs : List ℕ) (v : Inv b) (br : Brief b) (r : has_room b ≡ true)
      (le : length bs ≤ mtu) where
    fill_in : Inv (fill bs b)
    fill_in = fill-Inv b bs v.placed (ground arith) v.asked v.sized br le

    fill_same : given (fill bs b) ≡ given b ++ bs
    fill_same = given-fill b bs v.placed (ground arith)

    pass_on-Added :
        (fuel : ℕ) (wrapped : Bool)
        → 3 ≤ fuel
        → Returns (Added b bs) (pass_on fuel answers wrapped (fill bs b))
    unfolding pass_on
    pass_on-Added fuel wrapped h =
        let c = fill bs b in
        Returns-if (Added b bs) (ltb c.waiting minsize && (not wrapped && has_room c)) _ _
          (λ t. record {
            inv = fill_in;
            brief = ground arith;
            room = ground arith;
            same = fill_same;
            no_error = inl refl;
          })
          (λ _. Returns-mono (Ready c) (Added b bs) _ (queue-Ready fuel c h fill_in) (λ x q.
            record {
              inv = q.kept.inv;
              brief = q.kept.brief;
              room = q.room;
              same = q.kept.same ∙ fill_same;
              no_error = ground (arith, q.fine.answer);
            }))

    entered : entry_ok b ≡ true
    entered = ground (arith, v.placed)

-- A frame that is given to `s_try_queue_aiobuf` is added to the bytes that were given before, around the
-- end of the buffer where it has to be, and nothing else changes in them; no assertion fails, three rounds
-- that wait are enough, and after them there is room for a whole frame again. It is taken for granted that
-- the buffer is in order and has room for a whole frame, that the frame is not empty and no longer than
-- the longest frame, and that the system writes what it is asked to.
pub try_queue-Added :
    (fuel : ℕ) (answers : ℕ → Answers) (b : Buf) (bs : List ℕ)
    → 3 ≤ fuel
    → ((k : ℕ) → Works (answers k))
    → Inv b
    → Brief b
    → has_room b ≡ true
    → 0 < length bs
    → length bs ≤ mtu
    → Returns (Added b bs) (try_queue fuel answers bs b)
unfolding try_queue
try_queue-Added fuel answers b bs h w v br r pos le =
    Returns-check (Added b bs) (ltb 0 (length bs)) _ (ground arith) (
      Returns-check (Added b bs) (entry_ok b) _ (entered answers w b bs v br r le)
        (pass_on-Added answers w b bs v br r le fuel _ h))
