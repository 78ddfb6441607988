-- ===== src/Capture/Frames/Captured.antt =====
-- One frame of a capture, where no write fails: what is added to the files, and what stays true.
use tes_0mq.Base.{
  ℕ, ◌+◌, ◌*◌, ◌%◌, ◌^◌, ◌<◌, ◌≤◌, ◌≡◌, refl, sym, ap, ◌∙◌, subst, ◌⊎◌, inl, inr, Bool, true, false,
  not, ◌&&◌, ◌||◌, ltb, leb, ◌==◌, if◌then◌else◌, arith, ok, Returns, Returns-bind, List, [], ◌++◌,
  length, length-append, append-nil, Bool-cases,
}
use tes_0mq.Packet.{Packet, hdr_len, mtu, is_tick, is_trace_long, bytes, length-bytes}
use tes_0mq.Capture.{Dset, fidx, midx, ridx, dset_no, Files, Faithful, Stats, Stream, Cap, count}
use tes_0mq.Capture.Index.{Entry, fidx_bytes, sidx_bytes}
use tes_0mq.Capture.Frames.{
  choose, count_frame, starts, stream_ok, index_tick, update_stream, write_frame, new_entry,
  capture_frame,
}
use tes_0mq.Capture.Frames.Turned.{Turned, turned}
use tes_0mq.Capture.Frames.Keeps.{grown, Inv, Written, choose_apart, write_frame-Written}
use tes_0mq.Capture.Frames.Aside.{
  stream_file, SameJob, is_aside, Ticked, index_tick-Ticked, dset_no-injective,
}
use tes_0mq.Capture.Frames.Streaming.{makes_whole, whole_size, with_tick, Countable}

besides : (k : Dset) → is_aside k ≡ false → (dset_no k == 2) ≡ false
besides k h = ground arith

-- The statistics with one frame more, which is a tick, and `missed` lost before it.
abbrev pub tallied : ℕ → Stats → Stats
tallied missed st = record st {
  ticks = count st.ticks 1;
  frames = count st.frames 1;
  frames_lost = count st.frames_lost missed;
}

module _ {S : Type 0} (F : Files S) (L : Faithful F) where
  -- Where the frame makes no stream whole, the indices of the histograms and of the traces stay. Where it does, one
  -- of them gets an entry for a stream of `size` bytes, which are the last bytes of the file of the payload.
  abbrev pub Indexed : Packet → Bool → ℕ → Dset → S → S → Type 0
  Indexed p whole size k s s' =
      ((whole ≡ false)
        × (L.content midx s' ≡ L.content midx s)
        × (L.content ridx s' ≡ L.content ridx s))
      ⊎ ((c : Stream) × (whole ≡ true)
          × (c.span ≡ size)
          × (L.content (if is_trace_long p then ridx else midx) s'
              ≡ L.content (if is_trace_long p then ridx else midx) s ++ sidx_bytes c)
          × (c.start + c.span ≡ length (L.content k s')))

  -- What `capture_frame` leaves of a frame. `over` is whether the job is done.
  pub record Captured (p : Packet) (n missed : ℕ) (bad : Bool) (d : Cap) (s : S)
      (x : Bool × Cap × S) : Type 0 where
    pub inv : Inv F L x.1 x.2
    pub payload : L.content (choose bad p) x.2 ≡ L.content (choose bad p) s ++ bytes p hdr_len n
    pub entry : Entry
    pub entered : L.content fidx x.2 ≡ L.content fidx s ++ fidx_bytes entry
    pub start : entry.start ≡ length (L.content (choose bad p) s)
    pub span : entry.span ≡ n
    pub others :
        (j : Dset)
        → is_aside j ≡ false
        → (dset_no j == 0) ≡ false
        → (dset_no j == dset_no (choose bad p)) ≡ false
        → L.content j x.2 ≡ L.content j s
    pub indexed :
        Indexed p
          (not bad && makes_whole p n missed d.stream)
          (whole_size p d.stream)
          (choose bad p)
          s
          x.2
    pub job : SameJob d x.1
    pub counted : bad ≡ false → is_tick p ≡ true → x.1.st ≡ tallied missed d.st
    pub over : x.0 ≡ (
        not bad
        && (is_tick p && (ltb d.min_ticks (count d.st.ticks 1) && leb d.min_events d.st.events)))

  module _ (p : Packet) (n missed : ℕ) (pos : 0 < n) (le : n ≤ mtu) where
    -- How long a file is after the payload and the entry.
    length_after :
        (k j : Dset) (e : Entry) (s s' : S) (f : Bool)
        → Written F L p n k e s (f, s')
        → (dset_no j == 0) ≡ false
        → length (L.content j s')
          ≡ length (L.content j s) + (if dset_no j == dset_no k then n else 0)
    length_after k j e s s' f w z = elim (Bool-cases (dset_no j == dset_no k)) [
      | inl t ↦
          let same = dset_no-injective j k t in
          rw t (
            rw same (
              ap length w.payload
              ∙ omega (
                arith,
                length-append (L.content k s) (bytes p hdr_len n),
                length-bytes p hdr_len n,
              )))
      | inr t ↦ rw t (omega (arith, ap length (w.others j z t)))
    ]

    file_of_stream :
        (c : Stream) → (is_aside (stream_file c) ≡ false) × ((dset_no (stream_file c) == 0) ≡ false)
    file_of_stream c = ground arith

    placed :
        (d d1 : Cap) (s s1 : S) (e1 : Bool)
        → Inv F L d s
        → Ticked F L (count_frame missed d) s (e1, d1, s1)
        → 0 < d1.stream.size
        → d1.stream.start + d1.stream.cur_size ≡ length (L.content (stream_file d1.stream) s1)
    placed d d1 s s1 e1 v t h =
        ap (λ (c : Stream). c.start + c.cur_size) t.stream
        ∙ (v.at (subst (λ (c : Stream). 0 < c.size) t.stream h)
            ∙ (ap (λ c. length (L.content (stream_file c) s)) (sym t.stream)
                ∙ ap length (
                    sym (
                      t.elsewhere (stream_file d1.stream)
                        (besides (stream_file d1.stream) (file_of_stream d1.stream).0)))))

    counted :
        (bad : Bool) (d d1 d2 : Cap) (s s1 s2 : S) (e1 e2 : Bool)
        → Inv F L d s
        → Ticked F L (count_frame missed d) s (e1, d1, s1)
        → Turned F L p n missed pos bad d1 s1 (e2, d2, s2)
        → d2.st.frames * 16 % 2 ^ 64 ≡ (length (L.content fidx s2) + 16) % 2 ^ 64
    counted bad d d1 d2 s s1 s2 e1 e2 v t u = omega (
      arith,
      v.entries,
      u.frames,
      ap (λ (st : Stats). st.frames) t.stats,
      ap length (u.beside fidx refl),
      ap length (t.elsewhere fidx refl),
    )

    -- A file of an index that the frame does not write to.
    outside :
        (bad : Bool) (d d1 : Cap) (k : Dset) (s s1 s2 s3 : S) (e : Entry) (e1 e3 : Bool)
        → Ticked F L (count_frame missed d) s (e1, d1, s1)
        → Written F L p n (choose bad p) e s2 (e3, s3)
        → is_aside k ≡ true
        → (dset_no k == 2) ≡ false
        → (l : List ℕ) → L.content k s2 ≡ L.content k s1 ++ l
        → L.content k s3 ≡ L.content k s ++ l
    unfolding choose
    outside bad d d1 k s s1 s2 s3 e e1 e3 t w a z l h =
        w.others k (ground arith) (ground arith) ∙ (h ∙ ap (λ m. m ++ l) (t.elsewhere k z))

    index_of :
        (k : Bool)
        → (is_aside (if k then ridx else midx) ≡ true)
          × ((dset_no (if k then ridx else midx) == 2) ≡ false)
    index_of k = ground arith

    captured_index :
        (bad : Bool) (d d1 d2 : Cap) (s s1 s2 s3 : S) (e : Entry) (e1 e2 e3 : Bool)
        → Ticked F L (count_frame missed d) s (e1, d1, s1)
        → Turned F L p n missed pos bad d1 s1 (e2, d2, s2)
        → Written F L p n (choose bad p) e s2 (e3, s3)
        → Indexed p
            (not bad && makes_whole p n missed d.stream)
            (whole_size p d.stream)
            (choose bad p)
            s
            s3
    captured_index bad d d1 d2 s s1 s2 s3 e e1 e2 e3 t u w =
        let stay =
          λ (k : Dset) (a : is_aside k ≡ true) (z : (dset_no k == 2) ≡ false)
              (h : L.content k s2 ≡ L.content k s1).
            outside bad d d1 k s s1 s2 s3 e e1 e3 t w a z [] (h ∙ sym (append-nil (L.content k s1)))
            ∙ append-nil (L.content k s) in
        let move : (not bad && makes_whole p n missed d.stream)
            ≡ (not bad && makes_whole p n missed d1.stream) =
          ap (λ c. not bad && makes_whole p n missed c) (sym t.stream) in
        elim u.indexed [
          | inl h ↦ inl (move ∙ h.0, stay midx refl refl h.1, stay ridx refl refl h.2)
          | inr (c, made, size, h, same) ↦
              let k = if is_trace_long p then ridx else midx in
              let i = index_of (is_trace_long p) in
              let ka = choose_apart F L bad p in
              inr (
                c,
                move ∙ made,
                size ∙ ap (whole_size p) t.stream,
                outside bad d d1 k s s1 s2 s3 e e1 e3 t w i.0 i.1 (sidx_bytes c) h.entry,
                h.ends
                    ∙ (ap (λ f. length (L.content f s1) + n) same
                        ∙ omega (
                          arith,
                          ap length w.payload,
                          ap length (u.beside (choose bad p) ka.0),
                          length-append (L.content (choose bad p) s2) (bytes p hdr_len n),
                          length-bytes p hdr_len n,
                        )),
              )
        ]

    captured :
        (bad : Bool) (d d1 d2 : Cap) (s s1 s2 s3 : S) (e : Entry) (e1 e2 e3 : Bool)
        → Inv F L d s
        → Ticked F L (count_frame missed d) s (e1, d1, s1)
        → Turned F L p n missed pos bad d1 s1 (e2, d2, s2)
        → Written F L p n (choose bad p) e s2 (e3, s3)
        → d2.st.frames * 16 % 2 ^ 64 ≡ (length (L.content fidx s2) + 16) % 2 ^ 64
        → e.start ≡ length (L.content (choose bad p) s1)
        → e.span ≡ n
        → Captured p n missed bad d s (e1 || (e2 || e3), d2, s3)
    captured bad d d1 d2 s s1 s2 s3 e e1 e2 e3 v t u w fr st sp =
        let k = choose bad p in
        let ka = choose_apart F L bad p in
        let f = file_of_stream d2.stream in
        record {
          inv = record {
            good = w.good;
            well = u.well;
            at = λ h.
                u.ends h
                ∙ (ap
                      (λ l.
                        length l + (if dset_no (stream_file d2.stream) == dset_no k then n else 0))
                      (sym (u.beside (stream_file d2.stream) f.0))
                    ∙ sym (length_after k (stream_file d2.stream) e s2 s3 e3 w f.1));
            entries =
                fr ∙ ap (λ m. m % 2 ^ 64) (sym (ap length w.entry ∙ grown (L.content fidx s2) e));
          };
          payload =
              w.payload
              ∙ ap (λ l. l ++ bytes p hdr_len n) (u.beside k ka.0 ∙ t.elsewhere k (besides k ka.0));
          entry = e;
          entered =
              w.entry ∙ ap (λ l. l ++ fidx_bytes e) (u.beside fidx refl ∙ t.elsewhere fidx refl);
          start = st ∙ ap length (t.elsewhere k (besides k ka.0));
          span = sp;
          indexed = captured_index bad d d1 d2 s s1 s2 s3 e e1 e2 e3 t u w;
          others = λ j a z i. w.others j z i ∙ (u.beside j a ∙ t.elsewhere j (besides j a));
          job = record {
            ticks = u.job.ticks ∙ t.job.ticks;
            events = u.job.events ∙ t.job.events;
            noconvert = u.job.noconvert ∙ t.job.noconvert;
            replies = u.job.replies ∙ t.job.replies;
          };
          counted = λ b k. u.counted b k ∙ ap with_tick t.stats;
          over = ground (
            arith,
            t.no_error,
            w.no_error,
            u.over,
            t.job.ticks,
            t.job.events,
            ap (λ (st : Stats). st.ticks) t.stats,
            ap (λ (st : Stats). st.events) t.stats,
          );
        }

    -- One frame of a capture, where no write fails, adds its payload to the file where it goes, and an entry that says
    -- where in that file the payload starts and how long it is; the other files of payloads stay. An index
    -- of the histograms or of the traces gets an entry exactly where the frame makes one whole, for all its
    -- bytes, which are then the last of their file. The statistics of a tick are those before with the
    -- frame, the tick and the frames lost counted. No assertion fails and the state stays in order. It is
    -- taken for granted that the state and the files were in order, that the files keep their promise, that
    -- the frame is not empty and no longer than the longest, and that its events, where they have to be
    -- counted, can be.
    pub capture_frame-Captured :
        (stack : ℕ) (bad : Bool) (d : Cap) (s : S)
        → Inv F L d s
        → (bad ≡ false → Countable F L p)
        → Returns (Captured p n missed bad d s) (capture_frame F stack p n missed bad d s)
    unfolding capture_frame new_entry
    capture_frame-Captured stack bad d s v ev =
        let d0 = count_frame missed d in
        Returns-bind (Ticked F L d0 s) (Captured p n missed bad d s) (index_tick F bad p d0 s) _
          (index_tick-Ticked F L bad p d0 s v.good)
          (λ (e1, d1, s1) t.
            Returns-bind (Turned F L p n missed pos bad d1 s1) (Captured p n missed bad d s)
              (if bad then ok (false, d1, s1) else update_stream F p n missed d1 s1) _
              (turned F L p n missed pos bad d1 s1 t.good (ap stream_ok t.stream ∙ v.well)
                (placed d d1 s s1 e1 v t) ev)
              (λ (e2, d2, s2) u.
                let e = record (new_entry F stack p n missed bad d0 s1) {
                  hdr = not bad && starts p d1.stream;
                } in
                let fr = counted bad d d1 d2 s s1 s2 e1 e2 v t u in
                Returns-bind (Written F L p n (choose bad p) e s2) (Captured p n missed bad d s)
                  (write_frame F p n (choose bad p) e d2 s2) _
                  (write_frame-Written F L p n (choose bad p) e d2 s2 u.good pos le
                    (choose_apart F L bad p).1 fr)
                  (λ (e3, s3) w.
                    captured bad d d1 d2 s s1 s2 s3 e e1 e2 e3 v t u w fr
                      (L.offset-length (choose bad p) s1 t.good) refl)))
