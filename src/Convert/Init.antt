-- ===== src/Convert/Init.antt =====
-- `s_hdf5_init` of src/lib/hdf5conv.c.
pub mod Groups
pub mod Maps
pub mod Clients
pub mod Starts
use tes_0mq.Base.{
  ℕ, Bool, true, false, not, ◌&&◌, ltb, leb, ◌==◌, if◌then◌else◌, Outcome, ok, ◌>>=◌, ◌>>◌, check,
  Option, none, some, List, [], ◌∷◌, length,
}
use tes_0mq.Capture.{req_ok}
use tes_0mq.Capture.Request.{req_efail, ovrwt_relink, ovrwt_file}
use tes_0mq.Convert.{Desc, Request, req_eabort}
use tes_0mq.Convert.Calls.{Name, Hid, Calls}
use tes_0mq.Convert.Groups.{get_grp, crt_grp, is_open}
use tes_0mq.Convert.Mapping.{map_file}

-- ROOT_GROUP and OVRWT_GROUP.
abbrev pub root_group : Name
root_group = b'c' ∷ b'a' ∷ b'p' ∷ b't' ∷ b'u' ∷ b'r' ∷ b'e' ∷ []

abbrev pub ovrwt_group : Name
ovrwt_group = b'o' ∷ b'v' ∷ b'e' ∷ b'r' ∷ b'w' ∷ b'r' ∷ b'i' ∷ b't' ∷ b't' ∷ b'e' ∷ b'n' ∷ []

abbrev pub path_max : ℕ
path_max = 4096

-- What `s_hdf5_init` comes to: a status other than `req_ok`, or the group and the file; with the descriptors.
pub data Started (S : Type 0) : Type 0 where
  failed : ℕ → List Desc → S → Started S
  started : ℕ → ℕ → List Desc → S → Started S

module _ {S : Type 0} (C : Calls S) where
  -- The file is opened, or made anew.
  unfoldable pub open_file : Request → S → Hid × S
  open_file r s =
      let fok = C.access r.filename s in
      let ovrwt = r.ovrwtmode == ovrwt_file in
      if fok && not ovrwt
      then C.fopen r.filename s
      else if fok
      then (let (gone, s') = C.unlink r.filename s in
          if gone then C.fcreate r.filename s' else (none, s'))
      else C.fcreate r.filename s

  -- A text that fits the buffer.
  pub fitting : Option Name → Option Name
  fitting none = none
  fitting (some n) = if leb path_max (length n) then none else some n

  -- The name for the group that is replaced. `none` where it cannot be made.
  pub backup_name : Name → Option ℕ → Option Name
  backup_name g none = none
  backup_name g (some t) = fitting (C.stamp g t)

  -- The group for what is overwritten, once its name is known or not.
  pub named : ℕ → ℕ → ℕ → Option Name → S → Option (Hid × Name) × S
  named fid root g none s = (none, C.fclose fid (C.gclose g (C.gclose root s)))
  named fid root g (some n) s = (some (some g, n), s)

  pub opened_ovrwt : Request → ℕ → ℕ → Hid × S → Outcome (Option (Hid × Name) × S)
  opened_ovrwt r fid root (none, s) = ok (none, C.fclose fid (C.gclose root s))
  opened_ovrwt r fid root (some g, s) =
      check (ltb 0 g) >> ok (named fid root g (backup_name r.group (C.time s)) s)

  -- Where the groups that are overwritten go. `none` where that fails, and all is closed.
  unfoldable pub overwriting : Request → ℕ → ℕ → S → Outcome (Option (Hid × Name) × S)
  overwriting r fid root s =
      if r.ovrwtmode == ovrwt_relink
      then get_grp C fid ovrwt_group true s >>= opened_ovrwt r fid root
      else ok (some (none, []), s)

  unfoldable pub map_one : Desc → Option Name → S → Outcome (ℕ × Desc × S)
  map_one d none s = ok (req_ok, d, s)
  map_one d (some n) s = map_file C n d s

  -- The loop over the files.
  unfoldable pub map_all : List Desc → S → Outcome (ℕ × List Desc × S)
  map_all [] s = ok (req_ok, [], s)
  map_all (d ∷ ds) s = map_one d d.filename s >>= (λ (rc, d', s1).
      let rest = map_all ds s1 >>= (λ (rc', ds', s2). ok (rc', d' ∷ ds', s2)) in
      if rc == req_ok then rest else ok (rc, d' ∷ ds, s1))

  unfoldable pub init_maps : Request → ℕ → ℕ → S → Outcome (Started S)
  init_maps r fid g s = map_all r.dsets s >>= (λ (rc, ds, s').
      ok
        (if rc == req_ok then started fid g ds s' else failed rc ds (C.fclose fid (C.gclose g s'))))

  unfoldable pub init_client : Request → ℕ → Hid × S → Outcome (Started S)
  init_client r fid (none, s) = ok (failed req_efail r.dsets (C.fclose fid s))
  init_client r fid (some g, s) =
      if ltb 0 g then init_maps r fid g s else ok (failed req_eabort r.dsets (C.fclose fid s))

  unfoldable pub close_ovrwt : Hid → S → S
  close_ovrwt none s = s
  close_ovrwt (some g) s = if ltb 0 g then C.gclose g s else s

  unfoldable pub init_group : Request → ℕ → ℕ → Option (Hid × Name) × S → Outcome (Started S)
  init_group r fid root (none, s) = ok (failed req_efail r.dsets s)
  init_group r fid root (some (ovrwt, n), s) =
      crt_grp C root r.group ovrwt n s
      >>= (λ (g, s'). init_client r fid (g, close_ovrwt ovrwt (C.gclose root s')))

  unfoldable pub init_root : Request → ℕ → Hid × S → Outcome (Started S)
  init_root r fid (none, s) = ok (failed req_efail r.dsets (C.fclose fid s))
  init_root r fid (some root, s) =
      check (ltb 0 root) >> (overwriting r fid root s >>= init_group r fid root)

  unfoldable pub init_file : Request → Hid × S → Outcome (Started S)
  init_file r (none, s) = ok (failed req_efail r.dsets s)
  init_file r (some fid, s) = get_grp C fid root_group true s >>= init_root r fid

  -- `s_hdf5_init`.
  unfoldable pub hdf5_init : Request → S → Outcome (Started S)
  hdf5_init r s = init_file r (open_file r s)
