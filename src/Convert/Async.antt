-- ===== src/Convert/Async.antt =====
-- `hdf5_conv` of src/lib/hdf5conv.c with `async`: `s_hdf5_init` and `s_hdf5_write` run in a process of their
-- own. The parent has mapped nothing, so it has nothing to unmap.
pub mod Hides
use tes_0mq.Base.{
  ℕ, ◌≡◌, refl, Bool, true, false, ◌&&◌, not, ◌==◌, if◌then◌else◌, arith, Outcome, ok, ◌>>=◌, ◌>>◌,
  check, Option, none, some, List, [], ◌∷◌,
}
use tes_0mq.Base.Int.{ℤ, pos, to_ℕ}
use tes_0mq.Capture.{req_ok, req_einv}
use tes_0mq.Capture.Request.{req_efail}
use tes_0mq.Convert.{Desc, Request}
use tes_0mq.Convert.Calls.{Hid, Calls}
use tes_0mq.Convert.Datasets.{may_create, hdf5_write}
use tes_0mq.Convert.Init.{Started, failed, started, hdf5_init}
use tes_0mq.Convert.Main.{request_ok}
use tes_0mq.Daemon.{is_minus_one, Forks, Second, ok_msg, fork_and_run}

module _ {S : Type 0} (C : Calls S) where
  -- What `s_hdf5_init` returns.
  pub init_status : Started S → ℕ
  init_status (failed rc ds s) = rc
  init_status (started fid g ds s) = req_ok

  pub state_of : Started S → S
  state_of (failed rc ds s) = s
  state_of (started fid g ds s) = s

  -- The initializer. Its argument holds the ids, which are -1 before.
  pub initializer : Request → Started S → Outcome (ℤ × Started S)
  initializer r t = hdf5_init C r (state_of t) >>= (λ x. ok (pos (init_status x), x))

  -- The dataspace, which is closed again since no dataset can be made in the group -1.
  space_lost : Hid × S → S
  space_lost (none, s) = s
  space_lost (some space, s) = C.sclose space s

  -- `s_hdf5_write` with the ids at -1.
  write_lost : List Desc → S → Outcome S
  write_lost [] s = ok s
  write_lost (d ∷ ds) s =
      check (may_create d.buffer d.len) >> ok (space_lost (C.screate (to_ℕ d.len) s))

  pub action : Started S → Outcome (ℤ × Started S)
  action (failed rc ds s) = write_lost ds s >>= (λ s'. ok (pos 0, failed req_ok ds s'))
  action (started fid g ds s) =
      hdf5_write C ds g fid s >>= (λ (rc, s'). ok (pos rc, failed req_ok ds s'))

  -- `hdf5_conv` of a request with `async`: the status, and the second child.
  pub hdf5_conv_async : Forks → Request → S → ℕ × Option (Second (Started S))
  hdf5_conv_async y r s =
      let (rc, c) = fork_and_run y action (initializer r) (failed req_ok r.dsets s) in
      if request_ok r
      then ((if is_minus_one rc then req_efail else req_ok), some c)
      else (req_einv, none)
