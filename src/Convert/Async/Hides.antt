-- ===== src/Convert/Async/Hides.antt =====
-- What a client of an asynchronous conversion is not told.
use tes_0mq.Base.{ℕ, ◌≡◌, refl, true, false, arith, ok, Returns, abort, none, some, List, ◌∷◌}
use tes_0mq.Base.Int.{pos, is_neg}
use tes_0mq.Memory.{Memory}
use tes_0mq.Capture.{req_ok}
use tes_0mq.Convert.{Desc, Request}
use tes_0mq.Convert.Calls.{Name, Calls}
use tes_0mq.Convert.Datasets.{create_dset}
use tes_0mq.Convert.Init.{Started, failed, hdf5_init}
use tes_0mq.Convert.Main.{desc_ok, request_ok, convert, hdf5_conv}
use tes_0mq.Convert.Async.{state_of, init_status, initializer, action, hdf5_conv_async}
use tes_0mq.Daemon.{Forks, is_minus_one, Second, fork_and_run}
use tes_0mq.Daemon.Agreement.{in_order, Initialized, fork_and_run-Agreed}

module _ {S : Type 0} (C : Calls S) where
  -- Not -1 is what the parent of `fork_and_run` gets, once the first fork has succeeded.
  not_minus :
      (y : Forks) (r : Request) (t : Started S)
      → y.fork1 ≡ true
      → is_minus_one (fork_and_run y (action C) (initializer C r) t).0 ≡ false
  unfolding fork_and_run
  not_minus y r t e = ground (arith, e)

  -- A valid request whose `s_hdf5_init` fails with some status gets that status from `hdf5_conv` without
  -- `async`. With it, `hdf5_conv` reports success once the first fork has succeeded, and where all calls of
  -- the system succeed the process in the background goes on to write, with no file and no group.
  pub hdf5_conv_async_hides :
      (y : Forks) (r : Request) (s : S) (rc : ℕ) (ds : List Desc) (s' : S)
      → y.fork1 ≡ true
      → request_ok r ≡ true
      → hdf5_init C r s ≡ ok (failed rc ds s')
      → Returns (λ x. x.0 ≡ rc) (hdf5_conv C (some r) s)
        × ((hdf5_conv_async C y r s).0 ≡ req_ok)
        × (in_order y ≡ true
            → (c : Second (Started S)) × ((hdf5_conv_async C y r s).1 ≡ some c) × (c.acted ≡ true))
  unfolding hdf5_conv convert hdf5_conv_async initializer state_of init_status
  hdf5_conv_async_hides y r s rc ds s' f v e =
      let t : Started S = failed req_ok r.dsets s in
      let a = fork_and_run-Agreed y (action C) (initializer C r) t in
      let x : Initialized (initializer C r t) = rw e refl in
      (
        rw (v, e) refl,
        rw (v, not_minus y r t f) refl,
        λ o. ((fork_and_run y (action C) (initializer C r) t).1, rw v refl, a.then_acts o x),
      )

  -- A descriptor of a buffer of length 0 passes the tests of `hdf5_conv`, and ends the process in
  -- `s_create_dset` by an assertion.
  pub empty_buffer_aborts :
      (d : Desc) (m : Memory)
      → d.filename ≡ none
      → d.buffer ≡ some m
      → (b : ℕ) (n : Name) → d.dsetname ≡ b ∷ n
      → is_neg d.offset ≡ false
      → d.len ≡ pos 0
      → (desc_ok d ≡ true) × ((g : ℕ) (s : S) → create_dset C d g s ≡ abort)
  unfolding desc_ok create_dset
  empty_buffer_aborts d m f e b n na o l =
      (rw (f, e, na, l, o) (ground arith), λ g s. rw (e, l) refl)
