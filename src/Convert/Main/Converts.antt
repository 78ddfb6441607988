-- ===== src/Convert/Main/Converts.antt =====
-- What `hdf5_conv` stores, and that it gives back what it takes.
use tes_0mq.Base.{
  ℕ, ◌+◌, ◌<◌, ◌≤◌, ◌≡◌, refl, sym, ap, subst, ◌∙◌, ◌⊎◌, inl, inr, true, false, arith, ok, Returns,
  Returns-bind, Option, none, some, List, [], ◌∷◌, All,
}
use tes_0mq.Base.Int.{ℤ, pos, negsuc, is_neg, is_zero, to_ℕ}
use tes_0mq.Convert.Mapping.Maps.{Usable}
use tes_0mq.Memory.{Memory}
use tes_0mq.Capture.{req_ok}
use tes_0mq.Capture.Request.{req_efail}
use tes_0mq.Convert.{Desc, Request, req_eabort}
use tes_0mq.Convert.Calls.{Calls, View, SameFiles, Lawful}
use tes_0mq.Convert.Datasets.{hdf5_write}
use tes_0mq.Convert.Datasets.Creates.{Stored}
use tes_0mq.Convert.Datasets.Stores.{Ready, WrittenAll, hdf5_write-WrittenAll}
use tes_0mq.Convert.Init.{Started, failed, started, hdf5_init}
use tes_0mq.Convert.Init.Maps.{asked, mapped_one, mapped_of, FreshOf, Fresh, FilledAll}
use tes_0mq.Convert.Init.Clients.{Running, Begins}
use tes_0mq.Convert.Init.Starts.{hdf5_init-Begins}
use tes_0mq.Convert.Main.{desc_ok, descs_ok, request_ok, unmap_one, unmap_all, convert, hdf5_conv}

module _ {S : Type 0} (V : View S) where
  -- A dataset of the group `o` holds what the descriptor asks for.
  abbrev pub Holds : S → ℕ → Desc → Type 0
  Holds s o d = V.stored s o d.dsetname ≡ some (asked V d)

  pub record Converted (r : Request) (s : S) (x : ℕ × List Desc × S) : Type 0 where
    pub ids : V.ids x.2 ≡ V.ids s
    pub fds : V.fds x.2 ≡ V.fds s
    pub maps : V.maps x.2 ≡ V.maps s
    pub errors : V.errors s ≤ V.errors x.2
    pub status : (x.0 ≡ req_ok) ⊎ ((x.0 ≡ req_efail) ⊎ (x.0 ≡ req_eabort))
    pub stored : x.0 ≡ req_ok → V.errors x.2 ≡ V.errors s → (o : ℕ) × All (Holds x.2 o) r.dsets

-- The filled descriptors are ready, and their datasets hold what was asked for.
filled-Ready : {S : Type 0} (V : View S) (ds ds' : List Desc) → FilledAll V ds ds' → All Ready ds'
filled-Ready V [] [] h = tt
filled-Ready V [] (d ∷ ds) h = absurd h
filled-Ready V (d ∷ ds) [] h = absurd h
filled-Ready V (d ∷ ds) (d' ∷ ds') (f, h) = (f.ready, filled-Ready V ds ds' h)

Holds-all :
    {S : Type 0} (V : View S) (s : S) (g : ℕ) (ds ds' : List Desc)
    → FilledAll V ds ds'
    → All (Stored V s g) ds'
    → All (Holds V s (V.group g)) ds
Holds-all V s g [] [] h a = tt
Holds-all V s g [] (d ∷ ds) h a = absurd h
Holds-all V s g (d ∷ ds) [] h a = absurd h
Holds-all V s g (d ∷ ds) (d' ∷ ds') (f, h) (b, a) = (
  ap (V.stored s (V.group g)) (sym f.dsetname) ∙ (b ∙ ap some f.bytes),
  Holds-all V s g ds ds' h a,
)

Holds-same :
    {S : Type 0} (V : View S) (s s' : S) (o : ℕ) (ds : List Desc)
    → V.stored s' ≡ V.stored s
    → All (Holds V s o) ds
    → All (Holds V s' o) ds
Holds-same V s s' o [] e a = tt
Holds-same V s s' o (d ∷ ds) e (b, a) = (ap (λ f. f o d.dsetname) e ∙ b, Holds-same V s s' o ds e a)

-- The tests leave of the descriptors those of files that are not mapped, and those of buffers.
Fresh-of :
    (d : Desc) (n : Option (List ℕ)) (b : Option Memory)
    → d.filename ≡ n
    → d.buffer ≡ b
    → desc_ok d ≡ true
    → (n ≡ none → is_zero d.len ≡ false)
    → FreshOf n d
unfolding desc_ok
Fresh-of d none none e q t z = absurd (ground (arith, e, q))
Fresh-of d none (some m) e q t z =
    subst (λ y. Usable y d.offset d.len) (sym q)
      (long d.len (z refl) (ground (arith, e, q)), ground (arith, e, q), ground (arith, e, q))
  where
    long : (l : ℤ) → is_zero l ≡ false → is_neg l ≡ false → 0 < to_ℕ l
    long (pos a) h k = ground arith
    long (negsuc a) h k = absurd (cc)
Fresh-of d (some n) none e q t z = q
Fresh-of d (some n) (some m) e q t z = absurd (ground (arith, e, q))

-- No buffer is of length 0.
abbrev pub NotEmpty : Desc → Type 0
NotEmpty d = d.filename ≡ none → is_zero d.len ≡ false

descs-Fresh : (ds : List Desc) → descs_ok ds ≡ true → All NotEmpty ds → All Fresh ds
unfolding descs_ok
descs-Fresh [] t z = tt
descs-Fresh (d ∷ ds) t (z, r) =
    (Fresh-of d d.filename d.buffer refl refl (ground arith) z, descs-Fresh ds (ground arith) r)

request-descs : (r : Request) → request_ok r ≡ true → descs_ok r.dsets ≡ true
unfolding request_ok
request-descs r t = ground arith

module _ {S : Type 0} (C : Calls S) (V : View S) (L : Lawful C V) where
  pub record Unmaps (n : ℕ) (s s' : S) : Type 0 where
    pub maps : n ≤ V.maps s → V.maps s' + n ≡ V.maps s
    pub ids : V.ids s' ≡ V.ids s
    pub fds : V.fds s' ≡ V.fds s
    pub errors : V.errors s' ≡ V.errors s
    pub same : SameFiles V s s'

  unmap_one-Unmaps :
      (d : Desc) (n : Option (List ℕ)) (b : Option Memory) (s : S)
      → Unmaps (mapped_one n b) s (unmap_one C d n b s).1
  unfolding unmap_one
  unmap_one-Unmaps d none b s = record {
    maps = λ h. omega arith;
    ids = refl;
    fds = refl;
    errors = refl;
    same = record { link = refl; stored = refl };
  }
  unmap_one-Unmaps d (some n) none s = record {
    maps = λ h. omega arith;
    ids = refl;
    fds = refl;
    errors = refl;
    same = record { link = refl; stored = refl };
  }
  unmap_one-Unmaps d (some n) (some m) s =
      let k = to_ℕ d.offset + to_ℕ d.len in
      let (same, ids, fds, errors) = L.unmap_rest k s in
      record {
        maps = λ h. L.unmap_maps k s (omega arith);
        ids = ids;
        fds = fds;
        errors = errors;
        same = same;
      }

  unmap_all-Unmaps : (ds : List Desc) (s : S) → Unmaps (mapped_of ds) s (unmap_all C ds s).1
  unfolding unmap_all
  unmap_all-Unmaps [] s = record {
    maps = λ h. omega arith;
    ids = refl;
    fds = refl;
    errors = refl;
    same = record { link = refl; stored = refl };
  }
  unmap_all-Unmaps (d ∷ ds) s =
      let s1 = (unmap_one C d d.filename d.buffer s).1 in
      let a = unmap_one-Unmaps d d.filename d.buffer s in
      let b = unmap_all-Unmaps ds s1 in
      record {
        maps =
            λ h. omega (arith, a.maps (omega arith), b.maps (omega (arith, a.maps (omega arith))));
        ids = b.ids ∙ a.ids;
        fds = b.fds ∙ a.fds;
        errors = b.errors ∙ a.errors;
        same = record { link = b.same.link ∙ a.same.link; stored = b.same.stored ∙ a.same.stored };
      }

  convert-Converted :
      (r : Request) (s : S) (x : Started S)
      → Begins V r s x
      → Returns (Converted V r s) (convert C x)
  unfolding convert
  convert-Converted r s (failed rc ds s1) b =
      let u = unmap_all-Unmaps ds s1 in
      record {
        ids = u.ids ∙ b.ids;
        fds = u.fds ∙ b.fds;
        maps = omega (arith, u.maps (omega (arith, b.maps)), b.maps);
        errors = omega (arith, u.errors, b.errors);
        status = inr b.status;
        stored = λ e. elim b.status [
          | inl z ↦ absurd (omega (arith, z))
          | inr z ↦ absurd (omega (arith, z))
        ];
      }
  convert-Converted r s (started fid g ds s1) b =
      Returns-bind (WrittenAll C V L g ds s1) (Converted V r s) (hdf5_write C ds g fid s1) _
        (hdf5_write-WrittenAll C V L g ds fid s1 (filled-Ready V r.dsets ds b.filled)
          (omega (arith, b.ids)))
        (λ (rc, s2) w.
          let u = unmap_all-Unmaps ds s2 in
          record {
            ids = omega (arith, u.ids, w.ids, b.ids);
            fds = u.fds ∙ (w.fds ∙ b.fds);
            maps = omega (arith, u.maps (omega (arith, w.maps, b.maps)), w.maps, b.maps);
            errors = omega (arith, u.errors, w.errors, b.errors);
            status = inl w.status;
            stored = λ e same. (
              V.group g,
              Holds-same V s2 (unmap_all C ds s2).1 (V.group g) r.dsets u.same.stored (
                  Holds-all V s2 g r.dsets ds b.filled
                    (w.stored (omega (arith, u.errors, w.errors, b.errors)))),
            );
          })

  -- `hdf5_conv` of a request that passes its tests, without `async`, fails no assertion, and all ids,
  -- descriptors of files and mappings that it takes are given back, whatever fails. Where it succeeds and
  -- no call for a dataset has reported an error, there is a group in which the dataset of each
  -- descriptor holds exactly the bytes that the descriptor asks for: those of its buffer, or the part of its
  -- file. It is taken for granted that no buffer of the request is of length 0.
  pub hdf5_conv-Converted :
      (r : Request) (s : S)
      → request_ok r ≡ true
      → All NotEmpty r.dsets
      → Returns (Converted V r s) (hdf5_conv C (some r) s)
  unfolding hdf5_conv
  hdf5_conv-Converted r s e z =
      let f = descs-Fresh r.dsets (request-descs r e) z in
      rw e (
        Returns-bind (Begins V r s) (Converted V r s) (hdf5_init C r s) (convert C)
          (hdf5_init-Begins C V L r f s) (λ x b. convert-Converted r s x b))

  -- Once `s_hdf5_init` has succeeded, the status of `hdf5_conv` without `async` is success, whatever the calls
  -- for the datasets report, for a valid request in which no buffer is of length 0.
  pub hdf5_conv_write_hides :
      (r : Request) (s s1 : S) (fid g : ℕ) (ds : List Desc)
      → request_ok r ≡ true
      → All NotEmpty r.dsets
      → hdf5_init C r s ≡ ok (started fid g ds s1)
      → Returns (λ x. x.0 ≡ req_ok) (hdf5_conv C (some r) s)
  unfolding hdf5_conv convert
  hdf5_conv_write_hides r s s1 fid g ds e z i =
      let f = descs-Fresh r.dsets (request-descs r e) z in
      let b : Running V r s ds s1 =
        subst (λ y. Returns (Begins V r s) y) i (hdf5_init-Begins C V L r f s) in
      rw (e, i)
        (Returns-bind (WrittenAll C V L g ds s1) (λ x. x.0 ≡ req_ok) (hdf5_write C ds g fid s1) _
          (hdf5_write-WrittenAll C V L g ds fid s1 (filled-Ready V r.dsets ds b.filled)
            (omega (arith, b.ids)))
          (λ x w. w.status))
