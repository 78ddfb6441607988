-- ===== src/Convert/Init/Starts.antt =====
-- What `s_hdf5_init` leaves open and mapped.
use tes_0mq.Base.{
  ℕ, ◌<◌, ◌≡◌, refl, inl, inr, Bool, true, false, ltb, leb, ◌==◌, if◌then◌else◌, arith, Returns,
  Returns-bind, Returns-check, Returns-if, Option, none, some, length, All, Bool-cases,
}
use tes_0mq.Capture.Request.{req_efail, ovrwt_relink, ovrwt_file}
use tes_0mq.Convert.{Request}
use tes_0mq.Convert.Calls.{Name, Hid, Calls, View, More, FileOpened, Lawful}
use tes_0mq.Convert.Balance.{More-then, More-still, More-Closed}
use tes_0mq.Convert.Groups.{get_grp}
use tes_0mq.Convert.Init.{
  path_max, root_group, ovrwt_group, open_file, fitting, backup_name, named, opened_ovrwt,
  overwriting, init_root, init_file, hdf5_init,
}
use tes_0mq.Convert.Init.Groups.{OneMore, get_grp-OneMore}
use tes_0mq.Convert.Init.Maps.{Fresh}
use tes_0mq.Convert.Init.Clients.{Begins, stopped, Groups, init_group-Begins}

module _ {S : Type 0} (C : Calls S) (V : View S) (L : Lawful C V) (r : Request)
    (f : All Fresh r.dsets) where
  -- The name for the group that is replaced is not empty.
  abbrev Named : Option Name → Type 0
  Named none = Unit
  Named (some n) = 0 < length n

  fitting-Named : (x : Option Name) → ((k : Name) → x ≡ some k → 0 < length k) → Named (fitting C x)
  unfolding fitting
  fitting-Named none h = tt
  fitting-Named (some k) h = elim (Bool-cases (leb path_max (length k))) [
    | inl q ↦ rw q tt
    | inr q ↦ rw q (h k refl)
  ]

  backup_name-Named : (x : Option ℕ) → Named (backup_name C r.group x)
  unfolding backup_name
  backup_name-Named none = tt
  backup_name-Named (some t) = fitting-Named (C.stamp r.group t) (λ k e. L.stamp_some r.group k t e)

  named-Groups :
      (fid root g : ℕ) (s s1 : S) (x : Option Name)
      → More V 3 s s1
      → 0 < g
      → Named x
      → Groups C V L r f s (named C fid root g x s1)
  unfolding named
  named-Groups fid root g s s1 none m p n =
      let a = C.gclose root s1 in
      let b = C.gclose g a in
      More-Closed V s b (C.fclose fid b)
        (More-Closed V s a b (More-Closed V s s1 a m (L.gclose root s1)) (L.gclose g a))
        (L.fclose fid b)
  named-Groups fid root g s s1 (some k) m p n = (m, (p, n))

  opened-Groups :
      (fid root : ℕ) (s s1 : S) (x : Hid × S)
      → More V 2 s s1
      → OneMore C V L s1 x
      → Returns (Groups C V L r f s) (opened_ovrwt C r fid root x)
  unfolding opened_ovrwt
  opened-Groups fid root s s1 (none, s2) m o =
      let a = C.gclose root s2 in
      More-Closed V s a (C.fclose fid a)
        (More-Closed V s s2 a (More-still V s s1 s2 m o) (L.gclose root s2)) (L.fclose fid a)
  opened-Groups fid root s s1 (some g, s2) m (o, p) =
      Returns-check (Groups C V L r f s) (ltb 0 g) _ (ground arith) (
        named-Groups fid root g s s2 (backup_name C r.group (C.time s2)) (More-then V s s1 s2 m o) p
          (backup_name-Named (C.time s2)))

  overwriting-Groups :
      (fid root : ℕ) (s s1 : S)
      → 0 < fid
      → More V 2 s s1
      → Returns (Groups C V L r f s) (overwriting C r fid root s1)
  unfolding overwriting
  overwriting-Groups fid root s s1 p m =
      Returns-if (Groups C V L r f s) (r.ovrwtmode == ovrwt_relink) _ _
        (λ _.
          Returns-bind (OneMore C V L s1) (Groups C V L r f s) (get_grp C fid ovrwt_group true s1) _
            (get_grp-OneMore C V L fid ovrwt_group s1 p) (λ x o. opened-Groups fid root s s1 x m o))
        (λ _. m)

  init_root-Begins :
      (fid : ℕ) (s s1 : S) (x : Hid × S)
      → 0 < fid
      → More V 1 s s1
      → OneMore C V L s1 x
      → Returns (Begins V r s) (init_root C r fid x)
  unfolding init_root
  init_root-Begins fid s s1 (none, s2) p m o =
      stopped C V L r f s (C.fclose fid s2) req_efail (inl refl)
        (More-Closed V s s2 (C.fclose fid s2) (More-still V s s1 s2 m o) (L.fclose fid s2))
  init_root-Begins fid s s1 (some root, s2) p m (o, q) =
      Returns-check (Begins V r s) (ltb 0 root) _ (ground arith) (
        Returns-bind (Groups C V L r f s) (Begins V r s) (overwriting C r fid root s2) _
          (overwriting-Groups fid root s s2 p (More-then V s s1 s2 m o))
          (λ x g. init_group-Begins C V L r f fid root s x q g))

  init_file-Begins :
      (s : S) (x : Hid × S) → FileOpened V s x → Returns (Begins V r s) (init_file C r x)
  unfolding init_file
  init_file-Begins s (none, s1) o = stopped C V L r f s s1 req_efail (inl refl) o
  init_file-Begins s (some fid, s1) (o, p) =
      Returns-bind (OneMore C V L s1) (Begins V r s) (get_grp C fid root_group true s1) _
        (get_grp-OneMore C V L fid root_group s1 p) (λ x g. init_root-Begins fid s s1 x p o g)

  created_after :
      (s : S) (x : Bool × S)
      → More V 0 s x.1
      → FileOpened V s (if x.0 then C.fcreate r.filename x.1 else (none, x.1))
  created_after s (false, s1) m = m
  created_after s (true, s1) m = from_there (C.fcreate r.filename s1) (L.fcreate r.filename s1)
    where
      from_there : (x : Hid × S) → FileOpened V s1 x → FileOpened V s x
      from_there (none, s2) o = More-still V s s1 s2 m o
      from_there (some h, s2) (o, p) = (More-then V s s1 s2 m o, p)

  open_file-Opened : (s : S) → FileOpened V s (open_file C r s)
  unfolding open_file
  open_file-Opened s = elim (Bool-cases (C.access r.filename s)) [
    | inl e ↦ elim (Bool-cases (r.ovrwtmode == ovrwt_file)) [
      | inl q ↦ rw (e, q) (created_after s (C.unlink r.filename s) (L.unlink r.filename s))
      | inr q ↦ rw (e, q) (L.fopen r.filename s)
    ]
    | inr e ↦ rw e (L.fcreate r.filename s)
  ]

  pub hdf5_init-Begins : (s : S) → Returns (Begins V r s) (hdf5_init C r s)
  unfolding hdf5_init
  hdf5_init-Begins s = init_file-Begins s (open_file C r s) (open_file-Opened s)
