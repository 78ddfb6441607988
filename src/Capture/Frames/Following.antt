-- ===== src/Capture/Frames/Following.antt =====
-- The stream that is being received, over one frame, where no write fails: the frame as a whole.
use tes_0mq.Base.{
  ℕ, ◌+◌, ◌<◌, ◌≡◌, refl, ap, ◌∙◌, inl, inr, true, false, not, ◌&&◌, ◌||◌, ◌==◌, arith, Returns,
  Returns-check, Returns-if, length, Bool-cases,
}
use tes_0mq.Packet.{Packet, is_header, is_mca, is_trace_long}
use tes_0mq.Capture.{Files, Faithful, Cap}
use tes_0mq.Capture.Frames.{
  choose, continues, starts, interrupts, dropped, started, stream_ok, may_interrupt, follow_stream,
  update_stream,
}
use tes_0mq.Capture.Frames.Aside.{stream_file}
use tes_0mq.Capture.Frames.Streaming.{
  makes_whole, whole_size, Streamed, Countable, restream, quiet, extend-Streamed, idle,
  plain-Streamed,
}
use tes_0mq.Capture.Frames.Turns.{
  interrupted, not_tick, starting, started-file, continuing, continuing-file, left_alone, no_header,
  interrupting,
}

module _ {S : Type 0} (F : Files S) (L : Faithful F) where
  module _ (p : Packet) (n : ℕ) (d : Cap) (s : S) (g : L.Good s) where
    -- The stream before, in the files before.
    pub record Before : Type 0 where
      pub well : stream_ok d.stream ≡ true
      pub at :
          0 < d.stream.size
          → d.stream.start + d.stream.cur_size ≡ length (L.content (stream_file d.stream) s)

    module _ (missed : ℕ) (pos : 0 < n) (b : Before) (ev : Countable F L p) where
      empty : d.stream.size ≡ 0 → d.stream.cur_size ≡ 0
      empty z = ground (arith, b.well)

      cut_unmade : interrupts p missed d.stream ≡ true → makes_whole p n missed d.stream ≡ false
      unfolding interrupts continues
      cut_unmade i = ground arith

      alone_unmade :
          starts p d.stream ≡ false
          → continues p missed d.stream ≡ false
          → interrupts p missed d.stream ≡ false
          → makes_whole p n missed d.stream ≡ false
      unfolding starts continues interrupts
      alone_unmade st co i = ground arith

      -- The frame interrupts the stream.
      cut :
          interrupts p missed d.stream ≡ true
          → Returns
              (Streamed F L p n (makes_whole p n missed d.stream) (whole_size p d.stream) d s)
              (follow_stream F p n missed d.stream (record d { stream = dropped d.stream }) s)
      unfolding follow_stream
      cut i =
          let d' = record d { stream = dropped d.stream } in
          let (st, co) = interrupted p missed d.stream i in
          let unmade = cut_unmade i in
          let r =
            idle F L p n (makes_whole p n missed d.stream) (whole_size p d.stream) d s g
              (dropped d.stream) refl refl in
          rw (st, co)
            (Returns-if
              (Streamed F L p n (makes_whole p n missed d.stream) (whole_size p d.stream) d s)
              (is_mca p || is_trace_long p) _ _
              (λ k. rw i (
                quiet F L p n (ground arith) (not_tick p k) (makes_whole p n missed d.stream)
                  (whole_size p d.stream) d d' s g refl
                  (record { ticks = refl; events = refl; noconvert = refl; replies = refl }) r
                  unmade))
              (λ k.
                restream F L p n (makes_whole p n missed d.stream) (whole_size p d.stream) d
                  (dropped d.stream) s _
                  (plain-Streamed F L p n (makes_whole p n missed d.stream) (whole_size p d.stream)
                    d' s g r unmade (λ t. ev (ground arith) t (ground arith)))))

      first :
          starts p d.stream ≡ true
          → Returns
              (Streamed F L p n (makes_whole p n missed d.stream) (whole_size p d.stream) d s)
              (follow_stream F p n missed d.stream d s)
      unfolding follow_stream started starts
      first i =
          let at = F.offset (choose false p) s in
          let (k, z) = starting p d.stream i in
          rw i (
            restream F L p n (makes_whole p n missed d.stream) (whole_size p d.stream) d
              (started p at d.stream) s _
              (extend-Streamed F L p n k (not_tick p (ground arith))
                (makes_whole p n missed d.stream) (whole_size p d.stream)
                (record d { stream = started p at d.stream }) s g pos refl
                (omega (arith, empty z, L.offset-length (choose false p) s g))
                (started-file p at d.stream k) (ground (arith, empty z)) (ground arith)))

      next :
          continues p missed d.stream ≡ true
          → Returns
              (Streamed F L p n (makes_whole p n missed d.stream) (whole_size p d.stream) d s)
              (follow_stream F p n missed d.stream d s)
      unfolding follow_stream continues
      next i =
          let (st, k, lt, m) = continuing p missed d.stream i in
          let fi = continuing-file p missed d.stream i in
          rw (st, i)
            (Returns-check
              (Streamed F L p n (makes_whole p n missed d.stream) (whole_size p d.stream) d s)
              (not d.stream.discard && missed == 0) _ (ground (arith, b.well))
              (extend-Streamed F L p n k (not_tick p (ground arith))
                (makes_whole p n missed d.stream) (whole_size p d.stream) d s g pos
                (ground (arith, b.well)) (b.at lt ∙ ap (λ f. length (L.content f s)) fi) fi
                (ground arith) (ground arith)))

      alone :
          starts p d.stream ≡ false
          → continues p missed d.stream ≡ false
          → interrupts p missed d.stream ≡ false
          → Returns
              (Streamed F L p n (makes_whole p n missed d.stream) (whole_size p d.stream) d s)
              (follow_stream F p n missed d.stream d s)
      unfolding follow_stream
      alone st co i =
          let z = left_alone p missed d.stream co i in
          let c = d.stream in
          let c' = record c { discard = true } in
          let e = empty z in
          let unmade = alone_unmade st co i in
          rw (st, co, i)
            (Returns-if
              (Streamed F L p n (makes_whole p n missed d.stream) (whole_size p d.stream) d s)
              (is_mca p || is_trace_long p) _ _
              (λ k.
                Returns-check
                  (Streamed F L p n (makes_whole p n missed d.stream) (whole_size p d.stream) d s)
                  (not (is_header p) && c.size == 0) _ (no_header p c st (ground arith) z)
                  (quiet F L p n (ground arith) (not_tick p k) (makes_whole p n missed d.stream)
                    (whole_size p d.stream) d (record d { stream = c' }) s g refl
                    (record { ticks = refl; events = refl; noconvert = refl; replies = refl })
                    (idle F L p n (makes_whole p n missed d.stream) (whole_size p d.stream) d s g c'
                      z e)
                    unmade))
              (λ k.
                plain-Streamed F L p n (makes_whole p n missed d.stream) (whole_size p d.stream) d s
                  g
                  (idle F L p n (makes_whole p n missed d.stream) (whole_size p d.stream) d s g c z
                    e)
                  unmade (λ t. ev (ground arith) t (ground arith))))

      pub update-Streamed :
          Returns
            (Streamed F L p n (makes_whole p n missed d.stream) (whole_size p d.stream) d s)
            (update_stream F p n missed d s)
      unfolding update_stream
      update-Streamed =
          Returns-check
            (Streamed F L p n (makes_whole p n missed d.stream) (whole_size p d.stream) d s)
            (stream_ok d.stream) _ b.well
            (Returns-if
              (Streamed F L p n (makes_whole p n missed d.stream) (whole_size p d.stream) d s)
              (interrupts p missed d.stream) _ _
              (λ i.
                Returns-check
                  (Streamed F L p n (makes_whole p n missed d.stream) (whole_size p d.stream) d s)
                  (may_interrupt p missed d.stream) _ (interrupting p missed d.stream i) (cut i))
              (λ i. elim (Bool-cases (starts p d.stream)) [
                | inl st ↦ first st
                | inr st ↦ elim (Bool-cases (continues p missed d.stream)) [
                  | inl co ↦ next co
                  | inr co ↦ alone st co i
                ]
              ]))
