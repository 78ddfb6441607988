-- ===== src/Capture/Frames/Turned.antt =====
-- What a frame of `task_cap_pkt_hn` makes of the stream, bad or not, where no write fails.
use tes_0mq.Base.{
  ℕ, ◌+◌, ◌<◌, ◌≡◌, refl, sym, ap, ◌∙◌, ◌⊎◌, inl, inr, Bool, true, false, false≢true, not, ◌&&◌,
  ltb, leb, ◌==◌, if◌then◌else◌, arith, ok, Returns, Returns-mono, length, ==-refl,
}
use tes_0mq.Packet.{Packet, is_tick}
use tes_0mq.Capture.{midx, ridx, dset_no, Files, Faithful, Stream, Cap, count}
use tes_0mq.Capture.Frames.{choose, stream_ok, update_stream}
use tes_0mq.Capture.Frames.Aside.{stream_file, SameJob, Beside}
use tes_0mq.Capture.Frames.Streaming.{
  makes_whole, whole_size, with_tick, Complete, Streamed, Countable,
}
use tes_0mq.Capture.Frames.Following.{update-Streamed}

-- A bad frame goes to a file of its own.
apart_bad : (c : Stream) → (dset_no (stream_file c) == 4) ≡ false
apart_bad c = ground arith

module _ {S : Type 0} (F : Files S) (L : Faithful F) where
  module _ (p : Packet) (n missed : ℕ) (pos : 0 < n) where
    -- What the stream is after the frame, before the frame is written.
    pub record Turned (bad : Bool) (d : Cap) (s : S) (x : Bool × Cap × S) : Type 0 where
      pub good : L.Good x.2
      pub beside : Beside F L s x.2
      pub frames : x.1.st.frames ≡ d.st.frames
      pub well : stream_ok x.1.stream ≡ true
      pub ends :
          0 < x.1.stream.size
          → x.1.stream.start + x.1.stream.cur_size
            ≡ length (L.content (stream_file x.1.stream) s)
              + (if dset_no (stream_file x.1.stream) == dset_no (choose bad p) then n else 0)
      pub indexed :
          (((not bad && makes_whole p n missed d.stream) ≡ false)
            × (L.content midx x.2 ≡ L.content midx s)
            × (L.content ridx x.2 ≡ L.content ridx s))
          ⊎ ((c : Stream) × ((not bad && makes_whole p n missed d.stream) ≡ true)
              × (c.span ≡ whole_size p d.stream)
              × Complete F L p n s x.2 c
              × (choose false p ≡ choose bad p))
      pub job : SameJob d x.1
      pub counted : bad ≡ false → is_tick p ≡ true → x.1.st ≡ with_tick d.st
      pub over : x.0 ≡ (
          not bad
          && (is_tick p && (ltb d.min_ticks (count d.st.ticks 1) && leb d.min_events d.st.events)))

    pub turned :
        (bad : Bool) (d : Cap) (s : S)
        → L.Good s
        → stream_ok d.stream ≡ true
        → (0 < d.stream.size
            → d.stream.start + d.stream.cur_size ≡ length (L.content (stream_file d.stream) s))
        → (bad ≡ false → Countable F L p)
        → Returns
            (Turned bad d s)
            (if bad then ok (false, d, s) else update_stream F p n missed d s)
    unfolding choose
    turned true d s g w at ev = record {
      good = g;
      beside = λ k h. refl;
      frames = refl;
      well = w;
      ends = λ h. rw (apart_bad d.stream) (omega (arith, at h));
      indexed = inl (refl, refl, refl);
      job = record { ticks = refl; events = refl; noconvert = refl; replies = refl };
      counted = λ b. absurd (false≢true (sym b));
      over = refl;
    }
    turned false d s g w at ev =
        Returns-mono
          (Streamed F L p n (makes_whole p n missed d.stream) (whole_size p d.stream) d s)
          (Turned false d s) (update_stream F p n missed d s)
          (update-Streamed F L p n d s g missed pos (record { well = w; at = at }) (ev refl))
          (λ x t. record {
            good = t.good;
            beside = t.beside;
            frames = t.frames;
            well = t.reaches.well;
            ends = λ h.
                let f = t.reaches.file h in
                let e : (dset_no (stream_file x.1.stream) == dset_no (choose false p)) ≡ true =
                  rw f (==-refl (dset_no (choose false p))) in
                t.reaches.ends h ∙ rw (e) (ap (λ k. length (L.content k s) + n) (sym f));
            indexed = elim t.indexed [ inl e ↦ inl e | inr c ↦ inr (c.0, c.1, c.2, c.3, refl) ];
            job = t.job;
            counted = λ _. t.counted;
            over = t.over;
          })
