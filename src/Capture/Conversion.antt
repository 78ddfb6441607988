-- ===== src/Capture/Conversion.antt =====
-- `s_conv_data` of src/bin/tesd_task_cap.c: the files of a job are handed to `hdf5_conv`.
use tes_0mq.Base.{
  ℕ, ◌<◌, ◌≡◌, refl, ap, true, false, arith, Outcome, Returns, Returns-mono, none, some, List, [],
  ◌∷◌, length, All,
}
use tes_0mq.Base.Int.{pos, negsuc}
use tes_0mq.Capture.{Dset, fidx, midx, tidx, ridx, bdat, mdat, tdat, edat, req_ok, req_einv}
use tes_0mq.Capture.Request.{Req, is_req_valid}
use tes_0mq.Convert.{Desc, Request}
use tes_0mq.Convert.Calls.{Name, Calls, View, Lawful}
use tes_0mq.Convert.Main.{desc_ok, descs_ok, request_ok, hdf5_conv}
use tes_0mq.Convert.Main.Converts.{NotEmpty, Holds, Converted, hdf5_conv-Converted}

-- `s_dsets`, the names of the datasets.
unfoldable pub dataset : Dset → Name
dataset fidx = b'f' ∷ b'i' ∷ b'd' ∷ b'x' ∷ []
dataset midx = b'm' ∷ b'i' ∷ b'd' ∷ b'x' ∷ []
dataset tidx = b't' ∷ b'i' ∷ b'd' ∷ b'x' ∷ []
dataset ridx = b'r' ∷ b'i' ∷ b'd' ∷ b'x' ∷ []
dataset bdat = b'b' ∷ b'a' ∷ b'd' ∷ []
dataset mdat = b'm' ∷ b'c' ∷ b'a' ∷ []
dataset tdat = b't' ∷ b'i' ∷ b'c' ∷ b'k' ∷ b's' ∷ []
dataset edat = b'e' ∷ b'v' ∷ b'e' ∷ b'n' ∷ b't' ∷ b's' ∷ []

-- The names and modes of a job.
pub record Names : Type 0 where
  pub hdf5filename : Name
  pub measurement : Name
  pub datafile : Dset → Name
  pub ovrwtmode : ℕ

-- The whole of one file of the job.
unfoldable pub whole : Names → Dset → Desc
whole j k = record {
  dsetname = dataset k;
  offset = pos 0;
  len = negsuc 0;
  filename = some (j.datafile k);
  buffer = none;
}

unfoldable pub conv_request : Names → Request
conv_request j = record {
  filename = j.hdf5filename;
  group = j.measurement;
  dsets =
      whole j fidx
      ∷ whole j midx
      ∷ whole j tidx
      ∷ whole j ridx
      ∷ whole j bdat
      ∷ whole j mdat
      ∷ whole j tdat
      ∷ whole j edat
      ∷ [];
  ovrwtmode = j.ovrwtmode;
  async = false;
}

module _ {S : Type 0} (C : Calls S) where
  -- `s_conv_data` of a job without `async`.
  unfoldable pub conv_data : Names → S → Outcome (ℕ × List Desc × S)
  conv_data j s = hdf5_conv C (some (conv_request j)) s

  -- A job without a measurement, which `s_is_req_valid` accepts and gives an empty one, also one that is to
  -- be converted, is refused by the conversion as malformed.
  pub no_measurement_no_conversion :
      (r : Req) (j : Names) (s : S)
      → r.basefname ≡ true
      → r.ovrwtmode < 3
      → r.capmode ≡ 0
      → (r.min_ticks ≡ 0 → 0 < r.min_events)
      → j.measurement ≡ []
      → ((is_req_valid true r).status ≡ req_ok)
        × ((is_req_valid true r).noconvert ≡ false)
        × Returns (λ x. x.0 ≡ req_einv) (conv_data j s)
  unfolding is_req_valid conv_data hdf5_conv request_ok conv_request
  no_measurement_no_conversion r j s b o c m e =
      let q : request_ok (conv_request j) ≡ false = ground (arith, ap (length {0}) e) in
      (ground arith, ground arith, rw q refl)

whole-ok : (j : Names) (k : Dset) → desc_ok (whole j k) ≡ true
unfolding desc_ok whole dataset
whole-ok j fidx = refl
whole-ok j midx = refl
whole-ok j tidx = refl
whole-ok j ridx = refl
whole-ok j bdat = refl
whole-ok j mdat = refl
whole-ok j tdat = refl
whole-ok j edat = refl

conv_request-ok :
    (j : Names)
    → 0 < length j.hdf5filename
    → 0 < length j.measurement
    → j.ovrwtmode < 3
    → request_ok (conv_request j) ≡ true
unfolding request_ok descs_ok conv_request
conv_request-ok j h m o =
    rw
      (
        whole-ok j fidx,
        whole-ok j midx,
        whole-ok j tidx,
        whole-ok j ridx,
        whole-ok j bdat,
        whole-ok j mdat,
        whole-ok j tdat,
        whole-ok j edat,
      )
      (ground arith)

not_empty : (j : Names) → All NotEmpty (conv_request j).dsets
unfolding conv_request whole
not_empty j =
    let f : (k : Dset) → NotEmpty (whole j k) = λ k e. refl in
    (f fidx, (f midx, (f tidx, (f ridx, (f bdat, (f mdat, (f tdat, (f edat, tt))))))))

module _ {S : Type 0} (C : Calls S) (V : View S) (L : Lawful C V) where
  -- The files of the job are in the datasets of one group.
  abbrev pub AllFiles : Names → S → ℕ → Type 0
  AllFiles j s o = (k : Dset) → V.stored s o (dataset k) ≡ some (V.content (j.datafile k))

  all_files :
      (j : Names) (s : S) (o : ℕ) → All (Holds V s o) (conv_request j).dsets → AllFiles j s o
  unfolding conv_request whole
  all_files j s o (a, (b, (c, (d, (e, (f, (g, (h, _)))))))) fidx = a
  all_files j s o (a, (b, (c, (d, (e, (f, (g, (h, _)))))))) midx = b
  all_files j s o (a, (b, (c, (d, (e, (f, (g, (h, _)))))))) tidx = c
  all_files j s o (a, (b, (c, (d, (e, (f, (g, (h, _)))))))) ridx = d
  all_files j s o (a, (b, (c, (d, (e, (f, (g, (h, _)))))))) bdat = e
  all_files j s o (a, (b, (c, (d, (e, (f, (g, (h, _)))))))) mdat = f
  all_files j s o (a, (b, (c, (d, (e, (f, (g, (h, _)))))))) tdat = g
  all_files j s o (a, (b, (c, (d, (e, (f, (g, (h, _)))))))) edat = h

  -- `s_conv_data` of a job with a name for the HDF5 file and a measurement, without `async`, fails no
  -- assertion and gives back all ids, descriptors of files and mappings. Where it succeeds and no call for
  -- a dataset has reported an error, each of the eight datasets, in one group, is the whole of its file.
  pub conv_data-AllFiles :
      (j : Names) (s : S)
      → 0 < length j.hdf5filename
      → 0 < length j.measurement
      → j.ovrwtmode < 3
      → Returns
          (λ x.
            (V.ids x.2 ≡ V.ids s)
            × (V.fds x.2 ≡ V.fds s)
            × (V.maps x.2 ≡ V.maps s)
            × (x.0 ≡ req_ok → V.errors x.2 ≡ V.errors s → (o : ℕ) × AllFiles j x.2 o))
          (conv_data C j s)
  unfolding conv_data
  conv_data-AllFiles j s h m o =
      Returns-mono (Converted V (conv_request j) s) _ (hdf5_conv C (some (conv_request j)) s)
        (hdf5_conv-Converted C V L (conv_request j) s (conv_request-ok j h m o) (not_empty j))
        (λ x c. (
          c.ids,
          c.fds,
          c.maps,
          λ e same. let (g, a) = c.stored e same in (g, all_files j x.2 g a),
        ))
