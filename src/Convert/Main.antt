-- ===== src/Convert/Main.antt =====
-- `hdf5_conv` of src/lib/hdf5conv.c, without `async`; with it, src/lib/daemon_ng.c runs the parts in a
-- process of their own.
pub mod Converts
use tes_0mq.Base.{
  ℕ, Bool, true, false, not, ◌&&◌, ◌||◌, ltb, ◌==◌, if◌then◌else◌, Outcome, ok, ◌>>=◌, Option, none,
  some, List, [], ◌∷◌, ◌+◌, length,
}
use tes_0mq.Base.Int.{is_neg, to_ℕ}
use tes_0mq.Memory.{Memory}
use tes_0mq.Capture.{req_ok, req_einv}
use tes_0mq.Convert.{Desc, Request}
use tes_0mq.Convert.Calls.{Name, Calls}
use tes_0mq.Convert.Mapping.{is_null}
use tes_0mq.Convert.Datasets.{hdf5_write}
use tes_0mq.Convert.Init.{Started, failed, started, hdf5_init}

abbrev pub is_named : Option Name → Bool
is_named none = false
is_named (some n) = true

-- The test of a descriptor.
unfoldable pub desc_ok : Desc → Bool
desc_ok d = not (
    length d.dsetname == 0
    || ((is_named d.filename && not (is_null d.buffer))
        || ((not (is_named d.filename) && is_null d.buffer)
            || (not (is_null d.buffer) && (is_neg d.offset || is_neg d.len)))))

unfoldable pub descs_ok : List Desc → Bool
descs_ok [] = true
descs_ok (d ∷ ds) = desc_ok d && descs_ok ds

-- The tests of a request. `none` is a NULL pointer.
unfoldable pub request_ok : Request → Bool
request_ok r =
    not (
      length r.filename == 0 || (length r.group == 0 || (ltb 2 r.ovrwtmode || length r.dsets == 0)))
    && descs_ok r.dsets

module _ {S : Type 0} (C : Calls S) where
  -- What was mapped is unmapped.
  pub unmap_one : Desc → Option Name → Option Memory → S → Desc × S
  unmap_one d none b s = (d, s)
  unmap_one d (some n) none s = (d, s)
  unmap_one d (some n) (some m) s =
      (record d { buffer = none }, C.unmap (to_ℕ d.offset + to_ℕ d.len) s)

  pub unmap_all : List Desc → S → List Desc × S
  unmap_all [] s = ([], s)
  unmap_all (d ∷ ds) s =
      let (d', s1) = unmap_one d d.filename d.buffer s in
      let (ds', s2) = unmap_all ds s1 in (d' ∷ ds', s2)

  unfoldable pub convert : Started S → Outcome (ℕ × List Desc × S)
  convert (failed rc ds s) = let (ds', s') = unmap_all ds s in ok (rc, ds', s')
  convert (started fid g ds s) =
      hdf5_write C ds g fid s >>= (λ (rc, s1). let (ds', s2) = unmap_all ds s1 in ok (rc, ds', s2))

  -- `hdf5_conv` of a request without `async`: the status, and the descriptors as they are left.
  unfoldable pub hdf5_conv : Option Request → S → Outcome (ℕ × List Desc × S)
  hdf5_conv none s = ok (req_einv, [], s)
  hdf5_conv (some r) s =
      if request_ok r then hdf5_init C r s >>= convert else ok (req_einv, r.dsets, s)
