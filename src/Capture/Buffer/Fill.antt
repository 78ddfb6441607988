-- ===== src/Capture/Buffer/Fill.antt =====
-- A copy into the buffer adds the bytes at the end of those that are there, and touches none of them.
use tes_0mq.Base.{
  ℕ, ◌+◌, ◌-◌, ◌<◌, ◌≤◌, ◌≡◌, sym, ap, ap₂, ◌∙◌, subst, inl, inr, ltb, arith, List, ◌++◌, length,
  take, drop, length-take_le, length-drop, take-append-drop, append_assoc, Bool-cases,
}
use tes_0mq.Packet.{mtu}
use tes_0mq.Memory.{Memory, copy, read, read-copy, read-copy_end, read-copy_self, read-copy_after}
use tes_0mq.Capture.Buffer.{bufsize, Buf, fill}
use tes_0mq.Capture.Buffer.Cyclic.{around, around-straight, around-wrapped}
use tes_0mq.Capture.Buffer.Order.{Placed, Inv, Asked, Brief, unwritten, given}

-- `n` bytes from `t` on, and `bs` copied where they end.
module _ (m : Memory) (t n : ℕ) (bs : List ℕ) where
  -- There is room before the end of the buffer.
  around-copy_straight :
      (c : ℕ)
      → t + n ≡ c
      → c + length bs ≤ bufsize
      → around (copy m c bs) t (n + length bs) ≡ around m t n ++ bs
  around-copy_straight c e h =
      around-straight (copy m c bs) t (n + length bs) (omega arith)
      ∙ (subst (λ k. read (copy m k bs) t (n + length bs) ≡ read m t n ++ bs) e
            (read-copy_end m t n bs)
          ∙ ap (λ l. l ++ bs) (sym (around-straight m t n (omega arith))))

  -- The bytes go on at the start of the buffer.
  around-copy_behind :
      (c : ℕ)
      → t + n ≡ bufsize + c
      → t < bufsize
      → c + length bs ≤ t
      → around (copy m c bs) t (n + length bs) ≡ around m t n ++ bs
  around-copy_behind c e i h =
      around-wrapped (copy m c bs) t (n + length bs) (c + length bs) (omega arith) (omega arith)
      ∙ (ap₂ ◌++◌ (read-copy_after m c t (bufsize - t) bs h) (read-copy m c bs)
          ∙ (sym (append_assoc (read m t (bufsize - t)) (read m 0 c) bs)
              ∙ ap (λ l. l ++ bs) (sym (around-wrapped m t n c e (omega arith)))))

  -- The bytes reach the end, and the rest goes to the start.
  around-copy_over :
      (c : ℕ)
      → t + n ≡ c
      → c ≤ bufsize
      → bufsize ≤ c + length bs
      → n + length bs ≤ bufsize
      → around (copy (copy m c (take (bufsize - c) bs)) 0 (drop (bufsize - c) bs)) t (n + length bs)
        ≡ around m t n ++ bs
  around-copy_over c e i h k =
      let room = bufsize - c in
      let la : length (take room bs) ≡ room = length-take_le room bs (omega arith) in
      let lc : length (drop room bs) ≡ length bs - room = length-drop room bs in
      let m1 = copy m c (take room bs) in
      let width : bufsize - t ≡ n + length (take room bs) = omega arith in
      let first : read m1 t (bufsize - t) ≡ read m t n ++ take room bs =
        ap (read m1 t) width
        ∙ subst
            (λ k.
              read (copy m k (take room bs)) t (n + length (take room bs))
              ≡ read m t n ++ take room bs)
            e (read-copy_end m t n (take room bs)) in
      around-wrapped (copy m1 0 (drop room bs)) t (n + length bs) (length (drop room bs))
        (omega arith) (omega arith)
      ∙ (ap₂ ◌++◌ (read-copy_after m1 0 t (bufsize - t) (drop room bs) (omega arith) ∙ first)
            (read-copy_self m1 0 (drop room bs))
          ∙ (append_assoc (read m t n) (take room bs) (drop room bs)
              ∙ ap₂ ◌++◌ (sym (around-straight m t n (omega arith))) (take-append-drop room bs)))

-- `fill`, on a buffer in order with room for a frame.
module _ (b : Buf) (bs : List ℕ) (v : Placed b)
    (room : b.enqueued + b.waiting + length bs ≤ bufsize) where
  -- What the copy leaves in the buffer.
  unwritten-fill : unwritten (fill bs b) ≡ unwritten b ++ bs
  unfolding fill
  unwritten-fill =
      let assoc : b.enqueued + (b.waiting + length bs) ≡ b.enqueued + b.waiting + length bs =
        omega arith in
      elim (Bool-cases (ltb (length bs) (bufsize - b.cur))) [
        | inl s ↦
            simp (s, assoc)
              (elim v.place [
                | inl e ↦
                    around-copy_straight b.mem b.tail (b.enqueued + b.waiting) bs b.cur
                      (omega arith) (ground arith)
                | inr e ↦
                    around-copy_behind b.mem b.tail (b.enqueued + b.waiting) bs b.cur (omega arith)
                      v.tail_in (omega arith)
              ])
        | inr s ↦
            simp (s, assoc)
              (elim v.place [
                | inl e ↦
                    around-copy_over b.mem b.tail (b.enqueued + b.waiting) bs b.cur (omega arith)
                      (omega (arith, v.cur_in)) (ground arith) room
                | inr e ↦ absurd (ground (arith, v.tail_in, v.end_in))
              ])
      ]

  written-fill : (fill bs b).written ≡ b.written
  unfolding fill
  written-fill = ground arith

  pub given-fill : given (fill bs b) ≡ given b ++ bs
  given-fill = ap₂ ◌++◌ written-fill unwritten-fill ∙ sym (append_assoc b.written (unwritten b) bs)

  pub fill-Placed : Brief b → length bs ≤ mtu → Placed (fill bs b)
  unfolding fill
  fill-Placed br le = ground (arith, v)

  fill-asked : Asked b → Asked (fill bs b)
  unfolding fill
  fill-asked a = ground (arith, a)

  fill-sized : b.size ≡ length b.written → (fill bs b).size ≡ length (fill bs b).written
  unfolding fill
  fill-sized s = ground arith

  pub left-fill :
      ((fill bs b).enqueued ≡ b.enqueued) × ((fill bs b).waiting ≡ b.waiting + length bs)
  unfolding fill
  left-fill = ground arith

  pub fill-Inv : Asked b → b.size ≡ length b.written → Brief b → length bs ≤ mtu → Inv (fill bs b)
  fill-Inv a s br le = record {
    placed = fill-Placed br le;
    asked = fill-asked a;
    sized = fill-sized s;
  }
