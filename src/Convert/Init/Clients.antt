-- ===== src/Convert/Init/Clients.antt =====
-- What `s_hdf5_init` leaves open and mapped, once the file and the root group are open.
use tes_0mq.Base.{
  ℕ, ◌+◌, ◌<◌, ◌≤◌, ◌≡◌, refl, ◌∙◌, ◌⊎◌, inl, inr, true, ltb, ◌==◌, if◌then◌else◌, arith, Returns,
  Returns-bind, Returns-if, Option, none, some, List, All, Bool-cases,
}
use tes_0mq.Capture.{req_ok}
use tes_0mq.Capture.Request.{req_efail}
use tes_0mq.Convert.{Desc, Request, req_eabort}
use tes_0mq.Convert.Calls.{Name, Hid, Calls, View, More, Lawful}
use tes_0mq.Convert.Balance.{More-still, More-Closed}
use tes_0mq.Convert.Groups.{crt_grp}
use tes_0mq.Convert.Init.{
  Started, failed, started, map_all, init_maps, init_client, close_ovrwt, init_group,
}
use tes_0mq.Convert.Init.Groups.{Backup, AtMostOne, crt_grp-AtMostOne}
use tes_0mq.Convert.Init.Maps.{
  mapped_of, Fresh, FilledAll, MappedAll, mapped-Fresh, map_all-MappedAll,
}

module _ {S : Type 0} (V : View S) where
  -- Where it fails, all ids are closed; what has been mapped is in the descriptors.
  pub record Stopped (s : S) (rc : ℕ) (ds : List Desc) (s' : S) : Type 0 where
    pub status : (rc ≡ req_efail) ⊎ (rc ≡ req_eabort)
    pub ids : V.ids s' ≡ V.ids s
    pub fds : V.fds s' ≡ V.fds s
    pub errors : V.errors s' ≡ V.errors s
    pub maps : V.maps s' ≡ V.maps s + mapped_of ds

  -- Where it succeeds, the file and the group are open, and the descriptors stand for what they ask for.
  pub record Running (r : Request) (s : S) (ds : List Desc) (s' : S) : Type 0 where
    pub ids : V.ids s' ≡ V.ids s + 2
    pub fds : V.fds s' ≡ V.fds s
    pub errors : V.errors s' ≡ V.errors s
    pub maps : V.maps s' ≡ V.maps s + mapped_of ds
    pub filled : FilledAll V r.dsets ds

  abbrev pub Begins : Request → S → Started S → Type 0
  Begins r s (failed rc ds s') = Stopped s rc ds s'
  Begins r s (started fid g ds s') = Running r s ds s'

module _ {S : Type 0} (C : Calls S) (V : View S) (L : Lawful C V) (r : Request)
    (f : All Fresh r.dsets) where
  pub stopped :
      (s s' : S) (rc : ℕ)
      → (rc ≡ req_efail) ⊎ (rc ≡ req_eabort)
      → More V 0 s s'
      → Begins V r s (failed rc r.dsets s')
  stopped s s' rc e m = record {
    status = e;
    ids = omega (arith, m.ids);
    fds = m.fds;
    errors = m.errors;
    maps = omega (arith, m.maps, mapped-Fresh r.dsets f);
  }

  mapped_then :
      (fid g : ℕ) (s s1 : S) (rc : ℕ) (ds : List Desc) (s2 : S)
      → More V 2 s s1
      → MappedAll V r.dsets s1 (rc, ds, s2)
      → Begins V r s (
          if rc == req_ok then started fid g ds s2 else failed rc ds (C.fclose fid (C.gclose g s2)))
  mapped_then fid g s s1 rc ds s2 m v = elim (Bool-cases (rc == req_ok)) [
    | inl e ↦ rw e (record {
      ids = omega (arith, m.ids, v.ids);
      fds = v.fds ∙ m.fds;
      errors = v.errors ∙ m.errors;
      maps = omega (arith, v.maps, m.maps);
      filled = v.filled (ground arith);
    })
    | inr e ↦
        let a = L.gclose g s2 in
        let b = L.fclose fid (C.gclose g s2) in
        rw e (record {
          status = inl (elim v.status [ inl z ↦ absurd (ground arith) | inr z ↦ z ]);
          ids = omega (
            arith,
            m.ids,
            v.ids,
            a.ids (omega (arith, m.ids, v.ids)),
            b.ids (omega (arith, m.ids, v.ids, a.ids (omega (arith, m.ids, v.ids)))),
          );
          fds = b.fds ∙ (a.fds ∙ (v.fds ∙ m.fds));
          errors = b.errors ∙ (a.errors ∙ (v.errors ∙ m.errors));
          maps = omega (arith, a.maps, b.maps, v.maps, m.maps);
        })
  ]

  init_maps-Begins :
      (fid g : ℕ) (s s1 : S) → More V 2 s s1 → Returns (Begins V r s) (init_maps C r fid g s1)
  unfolding init_maps
  init_maps-Begins fid g s s1 m =
      Returns-bind (MappedAll V r.dsets s1) (Begins V r s) (map_all C r.dsets s1) _
        (map_all-MappedAll C V L r.dsets s1 f)
        (λ (rc, ds, s2) v. mapped_then fid g s s1 rc ds s2 m v)

  -- One id is open, that of the file, beside that of the group.
  abbrev Client : S → Hid × S → Type 0
  Client s (none, s') = More V 1 s s'
  Client s (some h, s') = ((h ≡ 0) × More V 1 s s') ⊎ ((0 < h) × More V 2 s s')

  init_client-Begins :
      (fid : ℕ) (s : S) (x : Hid × S) → Client s x → Returns (Begins V r s) (init_client C r fid x)
  unfolding init_client
  init_client-Begins fid s (none, s1) m =
      stopped s (C.fclose fid s1) req_efail (inl refl)
        (More-Closed V s s1 (C.fclose fid s1) m (L.fclose fid s1))
  init_client-Begins fid s (some g, s1) m =
      Returns-if (Begins V r s) (ltb 0 g) _ _
        (λ p. elim m [ inl z ↦ absurd (ground arith) | inr q ↦ init_maps-Begins fid g s s1 q.1 ])
        (λ p. elim m [
          | inl z ↦
              stopped s (C.fclose fid s1) req_eabort (inr refl)
                (More-Closed V s s1 (C.fclose fid s1) z.1 (L.fclose fid s1))
          | inr q ↦ absurd (ground arith)
        ])

  -- The file and the root group are open, and the group for what is overwritten where it is used.
  abbrev pub Groups : S → Option (Hid × Name) × S → Type 0
  Groups s (none, s') = More V 0 s s'
  Groups s (some (none, n), s') = More V 2 s s'
  Groups s (some (some b, n), s') = More V 3 s s' × Backup (some b) n

  -- So many ids are closed.
  pub record Fewer (n : ℕ) (s s' : S) : Type 0 where
    pub ids : n ≤ V.ids s → V.ids s' + n ≡ V.ids s
    pub fds : V.fds s' ≡ V.fds s
    pub maps : V.maps s' ≡ V.maps s
    pub errors : V.errors s' ≡ V.errors s

  fewer : (n a k : ℕ) (s s1 s2 : S) → More V (n + a) s s1 → Fewer n s1 s2 → k ≡ a → More V k s s2
  fewer n a k s s1 s2 m c e = record {
    ids = omega (arith, m.ids, c.ids (omega (arith, m.ids)));
    fds = c.fds ∙ m.fds;
    maps = c.maps ∙ m.maps;
    errors = c.errors ∙ m.errors;
  }

  client_of :
      (n : ℕ) (s s1 : S) (x : Hid × S) (s' : S)
      → More V (n + 1) s s1
      → AtMostOne C V L s1 x
      → Fewer n x.1 s'
      → Client s (x.0, s')
  client_of n s s1 (none, s2) s' m a c = fewer n 1 1 s s2 s' (More-still V s s1 s2 m a) c refl
  client_of n s s1 (some h, s2) s' m (inl (z, a)) c =
      inl (z, fewer n 1 1 s s2 s' (More-still V s s1 s2 m a) c refl)
  client_of n s s1 (some h, s2) s' m (inr (z, a)) c = inr (
    z,
    fewer n (1 + 1) 2 s s2 s'
        (record {
          ids = omega (arith, m.ids, a.ids);
          fds = a.fds ∙ m.fds;
          maps = a.maps ∙ m.maps;
          errors = a.errors ∙ m.errors;
        })
        c (omega arith),
  )

  closes_root : (root : ℕ) (s : S) → Fewer 1 s (C.gclose root s)
  closes_root root s =
      let a = L.gclose root s in
      record { ids = λ h. a.ids (omega arith); fds = a.fds; maps = a.maps; errors = a.errors }

  closes_both : (root b : ℕ) (s : S) → Fewer 2 s (C.gclose b (C.gclose root s))
  closes_both root b s =
      let a = L.gclose root s in
      let c = L.gclose b (C.gclose root s) in
      record {
        ids = λ h. omega (arith, a.ids (omega arith), c.ids (omega (arith, a.ids (omega arith))));
        fds = c.fds ∙ a.fds;
        maps = c.maps ∙ a.maps;
        errors = c.errors ∙ a.errors;
      }

  pub init_group-Begins :
      (fid root : ℕ) (s : S) (x : Option (Hid × Name) × S)
      → 0 < root
      → Groups s x
      → Returns (Begins V r s) (init_group C r fid root x)
  unfolding init_group close_ovrwt
  init_group-Begins fid root s (none, s1) p g = stopped s s1 req_efail (inl refl) g
  init_group-Begins fid root s (some (none, n), s1) p g =
      Returns-bind (AtMostOne C V L s1) (Begins V r s) (crt_grp C root r.group none n s1) _
        (crt_grp-AtMostOne C V L root r.group none n s1 p tt)
        (λ (h, s2) a.
          init_client-Begins fid s (h, C.gclose root s2)
            (client_of 1 s s1 (h, s2) (C.gclose root s2)
              (record { ids = omega (arith, g.ids); fds = g.fds; maps = g.maps; errors = g.errors })
              a (closes_root root s2)))
  init_group-Begins fid root s (some (some b, n), s1) p (g, q) =
      Returns-bind (AtMostOne C V L s1) (Begins V r s) (crt_grp C root r.group (some b) n s1) _
        (crt_grp-AtMostOne C V L root r.group (some b) n s1 p q)
        (λ (h, s2) a.
          let e : ltb 0 b ≡ true = ground (arith, q.0) in
          rw e (
            init_client-Begins fid s (h, C.gclose b (C.gclose root s2))
              (client_of 2 s s1 (h, s2) (C.gclose b (C.gclose root s2))
                (record {
                  ids = omega (arith, g.ids);
                  fds = g.fds;
                  maps = g.maps;
                  errors = g.errors;
                })
                a (closes_both root b s2))))
