-- ===== src/Capture/Frames/Aside.antt =====
-- The files of `task_cap_pkt_hn` by what they are for, and the index of the ticks, where no write fails.
use tes_0mq.Base.{
  ℕ, ◌≡◌, refl, sym, ap, ◌∙◌, Bool, true, false, ◌&&◌, ◌||◌, ltb, ◌==◌, if◌then◌else◌, arith, ok,
  Returns, Returns-bind, Returns-if, List,
}
use tes_0mq.Packet.{Packet, is_mca, is_tick, is_event, is_trace, is_trace_long}
use tes_0mq.Capture.{
  Dset, fidx, midx, tidx, ridx, bdat, mdat, tdat, edat, dset_no, Files, Added, Faithful, Stream,
  Cap,
}
use tes_0mq.Capture.Index.{tidx_bytes, length-tidx_bytes}
use tes_0mq.Capture.Frames.{choose, index_tick, note_event, new_tick}

-- The file of the payloads of a stream.
abbrev pub stream_file : Stream → Dset
stream_file c = if c.is_event then edat else mdat

-- The indices of the ticks and of the streams.
abbrev pub is_aside : Dset → Bool
is_aside d = ltb 0 (dset_no d) && ltb (dset_no d) 4

pub trace-not_mca : (p : Packet) → is_trace_long p ≡ true → is_mca p ≡ false
unfolding is_trace_long is_trace is_event is_mca
trace-not_mca p h = ground arith

pub choose-trace : (p : Packet) → is_trace_long p ≡ true → choose false p ≡ edat
unfolding choose is_trace_long is_trace is_event is_mca is_tick
choose-trace p h = ground arith

pub choose-mca : (p : Packet) → is_mca p ≡ true → choose false p ≡ mdat
unfolding choose
choose-mca p h = rw h

abbrev of_no : ℕ → Dset
of_no n =
    if n == 0
    then fidx
    else if n == 1
    then midx
    else if n == 2
    then tidx
    else if n == 3
    then ridx
    else if n == 4
    then bdat
    else if n == 5
    then mdat
    else if n == 6
    then tdat
    else edat

of_no-dset_no : (d : Dset) → of_no (dset_no d) ≡ d
of_no-dset_no fidx = refl
of_no-dset_no midx = refl
of_no-dset_no tidx = refl
of_no-dset_no ridx = refl
of_no-dset_no bdat = refl
of_no-dset_no mdat = refl
of_no-dset_no tdat = refl
of_no-dset_no edat = refl

-- The number tells the files apart.
pub dset_no-injective : (j k : Dset) → (dset_no j == dset_no k) ≡ true → j ≡ k
dset_no-injective j k h =
    let e : dset_no j ≡ dset_no k = ground arith in
    sym (of_no-dset_no j) ∙ (ap of_no e ∙ of_no-dset_no k)

apart : (j k : Dset) → is_aside j ≡ false → is_aside k ≡ true → (dset_no j == dset_no k) ≡ false
apart j k h a = ground arith

-- What the client asked for, and what was answered before, stay.
pub record SameJob (d d' : Cap) : Type 0 where
  pub ticks : d'.min_ticks ≡ d.min_ticks
  pub events : d'.min_events ≡ d.min_events
  pub noconvert : d'.noconvert ≡ d.noconvert
  pub replies : d'.replies ≡ d.replies

module _ {S : Type 0} (F : Files S) (L : Faithful F) where
  abbrev pub Beside : S → S → Type 0
  Beside s s' = (k : Dset) → is_aside k ≡ false → L.content k s' ≡ L.content k s

  -- What the index of the ticks leaves.
  pub record Ticked (d : Cap) (s : S) (x : Bool × Cap × S) : Type 0 where
    pub no_error : x.0 ≡ false
    pub good : L.Good x.2
    pub elsewhere : (k : Dset) → (dset_no k == 2) ≡ false → L.content k x.2 ≡ L.content k s
    pub stats : x.1.st ≡ d.st
    pub stream : x.1.stream ≡ d.stream
    pub job : SameJob d x.1

  pub Beside-put :
      (k : Dset) (bs : List ℕ) (s s' : S)
      → is_aside k ≡ true
      → Added L.content k bs s s'
      → Beside s s'
  Beside-put k bs s s' a h j b = h.elsewhere j (apart j k b a)

  -- Nothing is written.
  unput :
      (d d' : Cap) (s : S)
      → L.Good s
      → d'.st ≡ d.st
      → d'.stream ≡ d.stream
      → SameJob d d'
      → Ticked d s (false, d', s)
  unput d d' s g e1 e2 j = record {
    no_error = refl;
    good = g;
    elsewhere = λ k h. refl;
    stats = e1;
    stream = e2;
    job = j;
  }

  pub index_tick-Ticked :
      (bad : Bool) (p : Packet) (d : Cap) (s : S)
      → L.Good s
      → Returns (Ticked d s) (index_tick F bad p d s)
  unfolding index_tick note_event
  index_tick-Ticked bad p d s g =
      Returns-if (Ticked d s) (bad || is_mca p) _ _
        (λ _.
          unput d d s g refl refl
            (record { ticks = refl; events = refl; noconvert = refl; replies = refl }))
        (λ _.
          Returns-if (Ticked d s) (is_tick p) _ _
            (λ _.
              Returns-if (Ticked d s) (ltb 0 d.st.ticks) _ _
                (λ _.
                  Returns-bind
                    (λ (e, s').
                      (e ≡ false) × L.Good s' × Added L.content tidx (tidx_bytes d.tick) s s')
                    (Ticked d s) (F.put tidx (tidx_bytes d.tick) s)
                    (λ (e, s'). ok (e, new_tick d, s'))
                    (L.put-Added tidx (tidx_bytes d.tick) s g
                      (omega (arith, length-tidx_bytes d.tick))
                      (omega (arith, length-tidx_bytes d.tick)))
                    (λ (e, s') (f, g', a). record {
                      no_error = f;
                      good = g';
                      elsewhere = a.elsewhere;
                      stats = refl;
                      stream = refl;
                      job = record {
                        ticks = refl;
                        events = refl;
                        noconvert = refl;
                        replies = refl;
                      };
                    }))
                (λ _.
                  unput d (new_tick d) s g refl refl
                    (record { ticks = refl; events = refl; noconvert = refl; replies = refl })))
            (λ _.
              unput d (note_event p d) s g refl refl
                (record { ticks = refl; events = refl; noconvert = refl; replies = refl })))
