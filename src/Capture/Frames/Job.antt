-- ===== src/Capture/Frames/Job.antt =====
-- A run of frames of one capture, where no write fails.
use tes_0mq.Base.{
  ℕ, ◌+◌, ◌*◌, ◌<◌, ◌≤◌, ◌≡◌, sym, ap, ◌∙◌, inl, inr, Bool, false, not, ◌&&◌, ◌==◌, if◌then◌else◌,
  arith, Outcome, ok, ◌>>=◌, Returns, Returns-bind, Returns-mono, List, [], ◌∷◌, ◌++◌, length,
  length-append, All, append-nil, append_assoc, Bool-cases,
}
use tes_0mq.Packet.{Packet, hdr_len, mtu, is_mca, is_tick, bytes}
use tes_0mq.Capture.{
  Dset, fidx, midx, tidx, ridx, bdat, mdat, tdat, edat, dset_no, Files, Faithful, Cap,
}
use tes_0mq.Capture.Index.{fidx_bytes, length-fidx_bytes}
use tes_0mq.Capture.Frames.{choose, capture_frame}
use tes_0mq.Capture.Frames.Aside.{is_aside, dset_no-injective}
use tes_0mq.Capture.Frames.Streaming.{Countable}
use tes_0mq.Capture.Frames.Keeps.{Inv}
use tes_0mq.Capture.Frames.Captured.{Captured, capture_frame-Captured}

-- A frame as `task_cap_pkt_hn` gets it, with the length of its payload.
pub record Arrival : Type 0 where
  pub packet : Packet
  pub size : ℕ
  pub missed : ℕ
  pub bad : Bool
  pub stack : ℕ

-- The frames whose payloads belong in a file: those with errors in one of their own, then the histograms, the
-- ticks, and the other events. The indices get none.
abbrev pub belongs : Dset → Bool → Packet → Bool
belongs fidx bad p = false
belongs midx bad p = false
belongs tidx bad p = false
belongs ridx bad p = false
belongs bdat bad p = bad
belongs mdat bad p = not bad && is_mca p
belongs tdat bad p = not bad && (not (is_mca p) && is_tick p)
belongs edat bad p = not bad && (not (is_mca p) && not (is_tick p))

belongs-choose :
    (k : Dset) (bad : Bool) (p : Packet)
    → is_aside k ≡ false
    → (dset_no k == 0) ≡ false
    → (dset_no k == dset_no (choose bad p)) ≡ belongs k bad p
unfolding choose
belongs-choose fidx bad p a z = absurd (cc)
belongs-choose midx bad p a z = absurd (cc)
belongs-choose tidx bad p a z = absurd (cc)
belongs-choose ridx bad p a z = absurd (cc)
belongs-choose bdat bad p a z = ground arith
belongs-choose mdat bad p a z = ground arith
belongs-choose tdat bad p a z = ground arith
belongs-choose edat bad p a z = ground arith

-- The payloads of a file, in the order of the frames.
abbrev pub sent_to : Dset → List Arrival → List ℕ
sent_to k [] = []
sent_to k (a ∷ as') =
    (if belongs k a.bad a.packet then bytes a.packet hdr_len a.size else []) ++ sent_to k as'

module _ {S : Type 0} (F : Files S) where
  -- The frames of a capture, each in turn.
  pub capture_all : List Arrival → Cap → S → Outcome (Cap × S)
  capture_all [] d s = ok (d, s)
  capture_all (a ∷ as') d s =
      capture_frame F a.stack a.packet a.size a.missed a.bad d s
      >>= (λ (over, d', s'). capture_all as' d' s')

  module _ (L : Faithful F) where
    -- What the handler takes for granted of a frame.
    abbrev pub Sound : Arrival → Type 0
    Sound a = (0 < a.size) × (a.size ≤ mtu) × (a.bad ≡ false → Countable F L a.packet)

    pub record Recorded (as' : List Arrival) (d : Cap) (s : S) (x : Cap × S) : Type 0 where
      pub inv : Inv F L x.0 x.1
      pub payloads :
          (k : Dset)
          → is_aside k ≡ false
          → (dset_no k == 0) ≡ false
          → L.content k x.1 ≡ L.content k s ++ sent_to k as'
      pub entries : length (L.content fidx x.1) ≡ length (L.content fidx s) + 16 * length as'

    one_frame :
        (p : Packet) (n missed : ℕ) (bad : Bool) (d : Cap) (s : S) (x : Bool × Cap × S)
        → Captured F L p n missed bad d s x
        → (k : Dset) → is_aside k ≡ false
        → (dset_no k == 0) ≡ false
        → L.content k x.2 ≡ L.content k s ++ (if belongs k bad p then bytes p hdr_len n else [])
    one_frame p n missed bad d s x c k a z =
        rw⁻¹ (belongs-choose k bad p a z) (elim (Bool-cases (dset_no k == dset_no (choose bad p))) [
          | inl t ↦ rw t (rw (dset_no-injective k (choose bad p) t) c.payload)
          | inr t ↦ rw t (c.others k a z t ∙ sym (append-nil (L.content k s)))
        ])

    -- Over any run of frames, each file of payloads gets exactly the payloads of the frames that `belongs` says go
    -- there (those with errors, or else the histograms, the ticks and the other events), in the order of the frames, and the file of the frames gets one entry of 16 bytes for each
    -- frame; no assertion fails, and the state stays in order. It is taken for granted that the files keep
    -- their promise, and that no frame is empty or longer than the longest frame or, where it has no
    -- errors and its events have to be counted, uncountable.
    pub capture_all-Recorded :
        (as' : List Arrival) (d : Cap) (s : S)
        → Inv F L d s
        → All Sound as'
        → Returns (Recorded as' d s) (capture_all as' d s)
    unfolding capture_all
    capture_all-Recorded [] d s v w = record {
      inv = v;
      payloads = λ k a z. sym (append-nil (L.content k s));
      entries = omega arith;
    }
    capture_all-Recorded (a ∷ as') d s v w =
        Returns-bind (Captured F L a.packet a.size a.missed a.bad d s) (Recorded (a ∷ as') d s)
          (capture_frame F a.stack a.packet a.size a.missed a.bad d s)
          (λ (over, d', s'). capture_all as' d' s')
          (capture_frame-Captured F L a.packet a.size a.missed w.0.0 w.0.1 a.stack a.bad d s v
            w.0.2)
          (λ (over, d', s') c.
            Returns-mono (Recorded as' d' s') (Recorded (a ∷ as') d s) _
              (capture_all-Recorded as' d' s' c.inv w.1)
              (λ x r. record {
                inv = r.inv;
                payloads = λ k b z.
                    r.payloads k b z
                    ∙ (ap (λ l. l ++ sent_to k as')
                          (one_frame a.packet a.size a.missed a.bad d s (over, d', s') c k b z)
                        ∙ append_assoc (L.content k s) _ (sent_to k as'));
                entries = omega (
                  arith,
                  r.entries,
                  ap length c.entered,
                  length-append (L.content fidx s) (fidx_bytes c.entry),
                  length-fidx_bytes c.entry,
                );
              }))
