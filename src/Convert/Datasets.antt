-- ===== src/Convert/Datasets.antt =====
-- `s_create_dset` and `s_hdf5_write` of src/lib/hdf5conv.c.
pub mod Creates
pub mod Stores
use tes_0mq.Base.{
  ℕ, Bool, true, false, not, ◌||◌, ltb, ◌==◌, if◌then◌else◌, Outcome, ok, ◌>>=◌, ◌>>◌, check,
  Option, none, some, List, [], ◌∷◌,
}
use tes_0mq.Base.Int.{ℤ, is_neg, is_zero, to_ℕ}
use tes_0mq.Memory.{Memory, read}
use tes_0mq.Capture.{req_ok}
use tes_0mq.Convert.{Desc, req_econv}
use tes_0mq.Convert.Calls.{Hid, Calls}

-- The assertion on the length.
abbrev pub may_create : Option Memory → ℤ → Bool
may_create none l = is_zero l
may_create (some m) l = not (is_neg l || is_zero l)

module _ {S : Type 0} (C : Calls S) where
  -- What H5Dwrite has answered.
  pub wrote : ℕ → ℕ → Bool × S → Outcome (ℕ × S)
  wrote space dset (good, s) =
      ok (if good then req_ok else req_econv, C.sclose space (C.dclose dset s))

  pub write_data : ℕ → ℕ → Option Memory → Desc → S → Outcome (ℕ × S)
  write_data space dset none d s = check false >> ok (req_ok, s)
  write_data space dset (some m) d s =
      check (not (is_neg d.offset))
      >> wrote space dset (C.dwrite dset (read m (to_ℕ d.offset) (to_ℕ d.len)) s)

  pub made : Desc → ℕ → Hid × S → Outcome (ℕ × S)
  made d space (none, s) = ok (req_econv, C.sclose space s)
  made d space (some dset, s) =
      if is_zero d.len
      then ok (req_ok, C.sclose space (C.dclose dset s))
      else write_data space dset d.buffer d s

  pub spaced : Desc → ℕ → Hid × S → Outcome (ℕ × S)
  spaced d gid (none, s) = ok (req_econv, s)
  spaced d gid (some space, s) = made d space (C.dcreate gid d.dsetname (to_ℕ d.len) s)

  -- `s_create_dset`.
  unfoldable pub create_dset : Desc → ℕ → S → Outcome (ℕ × S)
  create_dset d gid s = check (may_create d.buffer d.len) >> spaced d gid (C.screate (to_ℕ d.len) s)

  -- The loop of `s_hdf5_write`, with the `rc` that it sets.
  pub write_all : List Desc → ℕ → S → Outcome (ℕ × S)
  write_all [] gid s = ok (req_ok, s)
  write_all (d ∷ ds) gid s =
      create_dset d gid s
      >>= (λ (rc, s'). let rest = write_all ds gid s' in if rc == req_ok then rest else ok (rc, s'))

  -- `s_hdf5_write`. The `rc` that it returns is not the one of the loop.
  unfoldable pub hdf5_write : List Desc → ℕ → ℕ → S → Outcome (ℕ × S)
  hdf5_write ds gid fid s =
      write_all ds gid s >>= (λ (_, s'). ok (0, C.fclose fid (C.gclose gid s')))
