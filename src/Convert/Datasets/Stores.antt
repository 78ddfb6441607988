-- ===== src/Convert/Datasets/Stores.antt =====
-- What `s_hdf5_write` stores.
use tes_0mq.Base.{
  ℕ, ◌+◌, ◌<◌, ◌≤◌, ◌≡◌, refl, ◌∙◌, ap, ◌==◌, arith, Returns, Returns-if, Returns-mono,
  Returns-bind, List, [], ◌∷◌, All,
}
use tes_0mq.Capture.{req_ok}
use tes_0mq.Convert.{Desc}
use tes_0mq.Convert.Calls.{Calls, View, Lawful}
use tes_0mq.Convert.Mapping.Maps.{Usable}
use tes_0mq.Convert.Datasets.{create_dset, write_all, hdf5_write}
use tes_0mq.Convert.Datasets.Creates.{Stored, Later, Wrote, create_dset-Wrote}

-- A descriptor that `s_create_dset` takes.
abbrev pub Ready : Desc → Type 0
Ready d = Usable d.buffer d.offset d.len

module _ {S : Type 0} (C : Calls S) (V : View S) (L : Lawful C V) (gid : ℕ) where
  Later-then : (s s' s'' : S) → Later V s s' → Later V s' s'' → Later V s s''
  Later-then s s' s'' a b = record {
    ids = b.ids ∙ a.ids;
    fds = b.fds ∙ a.fds;
    maps = b.maps ∙ a.maps;
    errors = omega (arith, a.errors, b.errors);
    stored = λ k m bs e h.
        b.stored k m bs (omega (arith, a.errors, b.errors))
          (a.stored k m bs (omega (arith, a.errors, b.errors)) h);
  }

  -- What the loop leaves: without an error, every dataset.
  pub record WroteAll (ds : List Desc) (s : S) (x : ℕ × S) : Type 0 where
    pub later : Later V s x.1
    pub stored : V.errors x.1 ≡ V.errors s → All (Stored V x.1 gid) ds

  write_all-WroteAll :
      (ds : List Desc) (s : S) → All Ready ds → Returns (WroteAll ds s) (write_all C ds gid s)
  unfolding write_all
  write_all-WroteAll [] s r = record {
    later = record {
      ids = refl;
      fds = refl;
      maps = refl;
      errors = omega arith;
      stored = λ k m bs e h. h;
    };
    stored = λ e. tt;
  }
  write_all-WroteAll (d ∷ ds) s (u, r) =
      Returns-bind (Wrote V gid d s) (WroteAll (d ∷ ds) s) (create_dset C d gid s) _
        (create_dset-Wrote C V L gid d u s)
        (λ (rc, s1) w.
          Returns-if (WroteAll (d ∷ ds) s) (rc == req_ok) _ _
            (λ good.
              Returns-mono (WroteAll ds s1) (WroteAll (d ∷ ds) s) (write_all C ds gid s1)
                (write_all-WroteAll ds s1 r)
                (λ x v. record {
                  later = Later-then s s1 x.1 w.later v.later;
                  stored = λ e.
                      let here : V.errors x.1 ≡ V.errors s1 =
                        omega (arith, w.later.errors, v.later.errors) in
                      (
                        v.later.stored (V.group gid) d.dsetname _ here (w.good (ground arith)),
                        v.stored here,
                      );
                }))
            (λ bad.
              let e : V.errors s < V.errors s1 = w.bad (λ q. absurd (ground arith)) in
              record { later = w.later; stored = λ q. absurd (omega arith) }))

  -- What `s_hdf5_write` leaves: the group and the file are closed.
  pub record WrittenAll (ds : List Desc) (s : S) (x : ℕ × S) : Type 0 where
    pub ids : V.ids x.1 + 2 ≡ V.ids s
    pub fds : V.fds x.1 ≡ V.fds s
    pub maps : V.maps x.1 ≡ V.maps s
    pub errors : V.errors s ≤ V.errors x.1
    pub stored : V.errors x.1 ≡ V.errors s → All (Stored V x.1 gid) ds
    pub status : x.0 ≡ req_ok

  All-same :
      (ds : List Desc) (s s' : S)
      → V.stored s' ≡ V.stored s
      → All (Stored V s gid) ds
      → All (Stored V s' gid) ds
  All-same [] s s' e h = tt
  All-same (d ∷ ds) s s' e (h, r) =
      (ap (λ f. f (V.group gid) d.dsetname) e ∙ h, All-same ds s s' e r)

  pub hdf5_write-WrittenAll :
      (ds : List Desc) (fid : ℕ) (s : S)
      → All Ready ds
      → 2 ≤ V.ids s
      → Returns (WrittenAll ds s) (hdf5_write C ds gid fid s)
  unfolding hdf5_write
  hdf5_write-WrittenAll ds fid s r two =
      Returns-bind (WroteAll ds s) (WrittenAll ds s) (write_all C ds gid s) _
        (write_all-WroteAll ds s r)
        (λ (rc, s1) w.
          let a = L.gclose gid s1 in
          let b = L.fclose fid (C.gclose gid s1) in
          record {
            ids = omega (
              arith,
              w.later.ids,
              a.ids (omega (arith, w.later.ids)),
              b.ids (omega (arith, w.later.ids, a.ids (omega (arith, w.later.ids)))),
            );
            fds = b.fds ∙ (a.fds ∙ w.later.fds);
            maps = b.maps ∙ (a.maps ∙ w.later.maps);
            errors = omega (arith, w.later.errors, a.errors, b.errors);
            stored = λ e.
                All-same ds s1 (C.fclose fid (C.gclose gid s1)) (b.same.stored ∙ a.same.stored)
                  (w.stored (omega (arith, a.errors, b.errors)));
            status = refl;
          })
