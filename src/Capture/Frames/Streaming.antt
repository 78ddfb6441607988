-- ===== src/Capture/Frames/Streaming.antt =====
-- The stream that is being received, over one frame, where no write fails.
use tes_0mq.Base.{
  ℕ, ◌+◌, ◌<◌, ◌≡◌, refl, sym, ap, ◌∙◌, ◌⊎◌, inl, inr, Bool, true, false, false≢true, ◌&&◌, ◌||◌,
  ltb, leb, ◌==◌, if◌then◌else◌, arith, Outcome, ok, Returns, Returns-bind, Returns-if,
  Returns-mono, ◌++◌, length,
}
use tes_0mq.Packet.{
  Packet, is_mca, is_tick, is_header, is_trace_long, trace_size, mca_size, event_nums,
}
use tes_0mq.Capture.{midx, ridx, Files, Added, Faithful, Stats, Stream, Cap, count}
use tes_0mq.Capture.Index.{sidx_bytes, length-sidx_bytes}
use tes_0mq.Capture.Frames.{choose, dropped, stream_ok, complete_stream, extend_stream, plain_frame}
use tes_0mq.Capture.Frames.Aside.{stream_file, SameJob, Beside, Beside-put}

-- The size of the stream that a header announces.
abbrev pub announced : Packet → ℕ
announced p = if is_trace_long p then trace_size p else mca_size p

-- Whether a frame without errors brings the last bytes of its trace or histogram: it is the header of one that
-- it holds whole, while no other is being received, or the frame after the last one of the same kind, and
-- what has been received is then what was announced. And the size of that trace or histogram.
abbrev pub makes_whole : Packet → ℕ → ℕ → Stream → Bool
makes_whole p n missed c =
    (is_trace_long p || is_mca p)
    && (if is_header p
        then c.size == 0 && n == announced p
        else (missed == 0 && (if c.is_event then is_trace_long p else is_mca p))
          && (ltb 0 c.size && c.cur_size + n == c.size))

abbrev pub whole_size : Packet → Stream → ℕ
whole_size p c = if is_header p then announced p else c.size

-- A tick more.
abbrev pub with_tick : Stats → Stats
with_tick st = record st { ticks = count st.ticks 1 }

module _ {S : Type 0} (F : Files S) (L : Faithful F) where
  -- A stream that goes on ends where the frame of `n` bytes after the bytes of `k` ends.
  pub record Reaches (p : Packet) (n : ℕ) (s : S) (c : Stream) : Type 0 where
    pub well : stream_ok c ≡ true
    pub ends : 0 < c.size → c.start + c.cur_size ≡ length (L.content (choose false p) s) + n
    pub file : 0 < c.size → stream_file c ≡ choose false p

  -- An entry for a stream that is complete: it is the last bytes of the file, with the frame.
  pub record Complete (p : Packet) (n : ℕ) (s s' : S) (c : Stream) : Type 0 where
    pub entry :
        L.content (if is_trace_long p then ridx else midx) s'
        ≡ L.content (if is_trace_long p then ridx else midx) s ++ sidx_bytes c
    pub ends : c.start + c.span ≡ length (L.content (choose false p) s) + n

  -- `w` is whether the frame makes a stream whole, and `sp` its size.
  pub record Streamed (p : Packet) (n : ℕ) (w : Bool) (sp : ℕ) (d : Cap) (s : S)
      (x : Bool × Cap × S) : Type 0 where
    pub good : L.Good x.2
    pub beside : Beside F L s x.2
    pub frames : x.1.st.frames ≡ d.st.frames
    pub job : SameJob d x.1
    pub counted : is_tick p ≡ true → x.1.st ≡ with_tick d.st
    pub indexed :
        ((w ≡ false)
          × (L.content midx x.2 ≡ L.content midx s)
          × (L.content ridx x.2 ≡ L.content ridx s))
        ⊎ ((c : Stream) × (w ≡ true) × (c.span ≡ sp) × Complete p n s x.2 c)
    pub reaches : Reaches p n s x.1.stream
    pub over :
        x.0 ≡ (is_tick p && (ltb d.min_ticks (count d.st.ticks 1) && leb d.min_events d.st.events))

  -- Nothing there depends on the stream before.
  pub restream :
      (p : Packet) (n : ℕ) (w : Bool) (sp : ℕ) (d : Cap) (c : Stream) (s : S)
      (m : Outcome (Bool × Cap × S))
      → Returns (Streamed p n w sp (record d { stream = c }) s) m
      → Returns (Streamed p n w sp d s) m
  restream p n w sp d c s m r =
      Returns-mono (Streamed p n w sp (record d { stream = c }) s) (Streamed p n w sp d s) m r
        (λ x t. record {
          good = t.good;
          beside = t.beside;
          frames = t.frames;
          job = record {
            ticks = t.job.ticks;
            events = t.job.events;
            noconvert = t.job.noconvert;
            replies = t.job.replies;
          };
          counted = t.counted;
          indexed = t.indexed;
          reaches = t.reaches;
          over = t.over;
        })

  module _ (p : Packet) (n : ℕ) (kind : (is_trace_long p || is_mca p) ≡ true)
      (tick : is_tick p ≡ false) (w : Bool) (sp : ℕ) where
    complete-Streamed :
        (d : Cap) (s : S)
        → L.Good s
        → d.stream.start + d.stream.size ≡ length (L.content (choose false p) s) + n
        → w ≡ true
        → d.stream.size ≡ sp
        → Returns (Streamed p n w sp d s) (complete_stream F p d s)
    unfolding complete_stream
    complete-Streamed d s g at ew es =
        let st = d.st in
        let c = d.stream in
        let done = record c { span = c.size; size = 0; cur_size = 0 } in
        let k = if is_trace_long p then ridx else midx in
        Returns-bind (λ (e, s'). (e ≡ false) × L.Good s' × Added L.content k (sidx_bytes done) s s')
          (Streamed p n w sp d s) (F.put k (sidx_bytes done) s) _
          (L.put-Added k (sidx_bytes done) s g (omega (arith, length-sidx_bytes done))
            (omega (arith, length-sidx_bytes done)))
          (λ (e, s') (f, g', a). record {
            good = g';
            beside = Beside-put F L k (sidx_bytes done) s s' (ground arith) a;
            frames = ground arith;
            job = record { ticks = refl; events = refl; noconvert = refl; replies = refl };
            counted = λ t. absurd (false≢true (sym tick ∙ t));
            indexed = inr (done, ew, es, record { entry = a.here; ends = at });
            reaches = record {
              well = refl;
              ends = λ z. absurd (omega arith);
              file = λ z. absurd (omega arith);
            };
            over = ground arith;
          })

    -- A stream that goes on, or is dropped, in files that stay as they are.
    pub quiet :
        (d d' : Cap) (s : S)
        → L.Good s
        → d'.st ≡ d.st
        → SameJob d d'
        → Reaches p n s d'.stream
        → w ≡ false
        → Streamed p n w sp d s (false, d', s)
    quiet d d' s g e1 j r ew = record {
      good = g;
      beside = λ k h. refl;
      frames = ap (λ (st : Stats). st.frames) e1;
      job = j;
      counted = λ t. absurd (false≢true (sym tick ∙ t));
      indexed = inl (ew, refl, refl);
      reaches = r;
      over = ground arith;
    }

    pub extend-Streamed :
        (d : Cap) (s : S)
        → L.Good s
        → 0 < n
        → (d.stream.discard) ≡ false
        → d.stream.start + d.stream.cur_size ≡ length (L.content (choose false p) s)
        → stream_file d.stream ≡ choose false p
        → w ≡ (d.stream.cur_size + n == d.stream.size)
        → d.stream.size ≡ sp
        → Returns (Streamed p n w sp d s) (extend_stream F p n d s)
    unfolding extend_stream
    extend-Streamed d s g pos nd at fi ew es =
        let c = d.stream in
        let total = c.cur_size + n in
        Returns-if (Streamed p n w sp d s) (ltb c.size total) _ _
          (λ t.
            quiet d (record d { stream = dropped c }) s g refl
              (record { ticks = refl; events = refl; noconvert = refl; replies = refl })
              (record {
                well = refl;
                ends = λ z. absurd (omega arith);
                file = λ z. absurd (omega arith);
              })
              (ground arith))
          (λ t.
            Returns-if (Streamed p n w sp d s) (total == c.size) _ _
              (λ e.
                restream p n w sp d (record c { cur_size = total }) s _
                  (complete-Streamed (record d { stream = record c { cur_size = total } }) s g
                    (ground arith) (ground arith) es))
              (λ e.
                quiet d (record d { stream = record c { cur_size = total } }) s g refl
                  (record { ticks = refl; events = refl; noconvert = refl; replies = refl })
                  (record { well = ground arith; ends = λ z. omega arith; file = λ z. fi })
                  (ground arith)))

  -- What is known of the numbers of events of a frame that is neither of a stream nor a tick.
  abbrev pub Countable : Packet → Type 0
  Countable p =
      is_mca p ≡ false
      → is_tick p ≡ false
      → is_trace_long p ≡ false
      → (m : ℕ) × (event_nums p ≡ ok m)

  module _ (p : Packet) (n : ℕ) (w : Bool) (sp : ℕ) (d : Cap) (s : S) (g : L.Good s) where
    -- No stream goes on.
    pub idle : (c : Stream) → c.size ≡ 0 → c.cur_size ≡ 0 → Reaches p n s c
    idle c z e = record {
      well = ground arith;
      ends = λ h. absurd (omega arith);
      file = λ h. absurd (omega arith);
    }

    pub plain-Streamed :
        Reaches p n s d.stream
        → w ≡ false
        → (is_tick p ≡ false → (m : ℕ) × (event_nums p ≡ ok m))
        → Returns (Streamed p n w sp d s) (plain_frame F p d s)
    unfolding plain_frame
    plain-Streamed r ew ev =
        let st = d.st in
        Returns-if (Streamed p n w sp d s) (is_tick p) _ _
          (λ t. record {
            good = g;
            beside = λ k h. refl;
            frames = refl;
            job = record { ticks = refl; events = refl; noconvert = refl; replies = refl };
            counted = λ _. refl;
            indexed = inl (ew, refl, refl);
            reaches = r;
            over = rw t;
          })
          (λ t.
            let (m, e) = ev t in
            rw e (record {
              good = g;
              beside = λ k h. refl;
              frames = refl;
              job = record { ticks = refl; events = refl; noconvert = refl; replies = refl };
              counted = λ k. absurd (false≢true (sym t ∙ k));
              indexed = inl (ew, refl, refl);
              reaches = r;
              over = rw t;
            }))
