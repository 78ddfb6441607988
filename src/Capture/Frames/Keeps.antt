-- ===== src/Capture/Frames/Keeps.antt =====
-- `task_cap_pkt_hn` writes a payload and its entry to the end of their files, where no write fails.
use tes_0mq.Base.{
  ℕ, ◌+◌, ◌*◌, ◌%◌, ◌^◌, ◌<◌, ◌≤◌, ◌≡◌, sym, ap, ◌∙◌, Bool, true, false, ◌==◌, arith, Returns,
  Returns-bind, Returns-check, List, ◌++◌, length, length-append, eq→==,
}
use tes_0mq.Packet.{Packet, hdr_len, mtu, bytes, length-bytes}
use tes_0mq.Capture.{Dset, fidx, dset_no, Files, Added, Faithful, Cap}
use tes_0mq.Capture.Index.{Entry, fidx_bytes, length-fidx_bytes}
use tes_0mq.Capture.Frames.{choose, stream_ok, write_frame}
use tes_0mq.Capture.Frames.Aside.{stream_file, is_aside}

pub grown : (l : List ℕ) (e : Entry) → length (l ++ fidx_bytes e) ≡ length l + 16
grown l e = omega (arith, length-append l (fidx_bytes e), length-fidx_bytes e)

module _ {S : Type 0} (F : Files S) (L : Faithful F) where
  -- What stays true of the state and the files from frame to frame.
  pub record Inv (d : Cap) (s : S) : Type 0 where
    pub good : L.Good s
    pub well : stream_ok d.stream ≡ true
    pub at :
        0 < d.stream.size
        → d.stream.start + d.stream.cur_size ≡ length (L.content (stream_file d.stream) s)
    pub entries : d.st.frames * 16 % 2 ^ 64 ≡ length (L.content fidx s) % 2 ^ 64

  -- The payload and the entry are at the end of their files.
  pub record Written (p : Packet) (n : ℕ) (k : Dset) (e : Entry) (s : S) (x : Bool × S)
      : Type 0 where
    pub no_error : x.0 ≡ false
    pub good : L.Good x.1
    pub payload : L.content k x.1 ≡ L.content k s ++ bytes p hdr_len n
    pub entry : L.content fidx x.1 ≡ L.content fidx s ++ fidx_bytes e
    pub others :
        (j : Dset)
        → (dset_no j == 0) ≡ false
        → (dset_no j == dset_no k) ≡ false
        → L.content j x.1 ≡ L.content j s

  pub choose_apart :
      (bad : Bool) (p : Packet)
      → (is_aside (choose bad p) ≡ false) × ((dset_no (choose bad p) == 0) ≡ false)
  unfolding choose
  choose_apart bad p = ground arith

  pub write_frame-Written :
      (p : Packet) (n : ℕ) (k : Dset) (e : Entry) (d : Cap) (s : S)
      → L.Good s
      → 0 < n
      → n ≤ mtu
      → (dset_no k == 0) ≡ false
      → d.st.frames * 16 % 2 ^ 64 ≡ (length (L.content fidx s) + 16) % 2 ^ 64
      → Returns (Written p n k e s) (write_frame F p n k e d s)
  unfolding write_frame
  write_frame-Written p n k e d s g pos le z fr =
      let lb = length-bytes p hdr_len n in
      let lf = length-fidx_bytes e in
      Returns-bind (λ (f, s'). (f ≡ false) × L.Good s' × Added L.content k (bytes p hdr_len n) s s')
        (Written p n k e s) (F.put k (bytes p hdr_len n) s) _
        (L.put-Added k (bytes p hdr_len n) s g (omega (arith, lb)) (omega (arith, lb)))
        (λ (f1, s1) (z1, g1, a1).
          Returns-bind
            (λ (f, s'). (f ≡ false) × L.Good s' × Added L.content fidx (fidx_bytes e) s1 s')
            (Written p n k e s) (F.put fidx (fidx_bytes e) s1) _
            (L.put-Added fidx (fidx_bytes e) s1 g1 (omega (arith, lf)) (omega (arith, lf)))
            (λ (f2, s2) (z2, g2, a2).
              let idx : L.content fidx s2 ≡ L.content fidx s ++ fidx_bytes e =
                a2.here ∙ ap (λ l. l ++ fidx_bytes e) (a1.elsewhere fidx (ground (arith, z))) in
              Returns-check (Written p n k e s)
                (d.st.frames * 16 % 2 ^ 64 == F.offset fidx s2 % 2 ^ 64) _
                (eq→== _ _ (
                  fr
                  ∙ ap (λ m. m % 2 ^ 64)
                      (sym (
                        L.offset-length fidx s2 g2
                        ∙ (ap length idx ∙ grown (L.content fidx s) e)))))
                (record {
                  no_error = rw (z1, z2);
                  good = g2;
                  payload = a2.elsewhere k z ∙ a1.here;
                  entry = idx;
                  others = λ j h i. a2.elsewhere j h ∙ a1.elsewhere j i;
                })))
