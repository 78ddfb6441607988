-- ===== src/Tests/Convert.antt =====
-- The theorems on src/lib/hdf5conv.c at a concrete disk and concrete requests.
use tes_0mq.Base.{ℕ, ◌≡◌, refl, true, false, none, some, arith, ok, abort, Returns, [], ◌∷◌}
use tes_0mq.Base.Int.{pos, negsuc}
use tes_0mq.Capture.{req_ok, req_einv}
use tes_0mq.Capture.Request.{Req, is_req_valid}
use tes_0mq.Capture.Conversion.{
  Names, conv_data, AllFiles, conv_data-AllFiles, no_measurement_no_conversion,
}
use tes_0mq.Convert.{Desc, Request}
use tes_0mq.Convert.Calls.{Name, Calls}
use tes_0mq.Convert.Groups.{get_known, get_grp, crt_known, crt_grp}
use tes_0mq.Convert.Groups.Relinks.{Relinked, crt_grp-Relinked}
use tes_0mq.Convert.Mapping.{map_file}
use tes_0mq.Convert.Mapping.Maps.{Mapped, map_file-Mapped}
use tes_0mq.Convert.Datasets.{create_dset}
use tes_0mq.Convert.Init.{
  Started, failed, started, root_group, open_file, overwriting, map_one, map_all, init_maps,
  init_client, close_ovrwt, init_group, init_root, init_file, hdf5_init,
}
use tes_0mq.Convert.Main.{desc_ok, descs_ok, request_ok, hdf5_conv}
use tes_0mq.Convert.Main.Converts.{Converted, hdf5_conv-Converted, hdf5_conv_write_hides}
use tes_0mq.Convert.Async.{hdf5_conv_async}
use tes_0mq.Convert.Async.Hides.{hdf5_conv_async_hides, empty_buffer_aborts}
use tes_0mq.Daemon.{Forks, exited, readable, Second}
use tes_0mq.Daemon.Agreement.{in_order}
use tes_0mq.Tests.Disk.{Disk, disk_calls, disk_view, disk-Lawful, held, memory, is_some, make_group}

abbrev run1 : Name
run1 = b'r' ∷ b'1' ∷ []

abbrev run1_old : Name
run1_old = b'r' ∷ b'1' ∷ b'_' ∷ b'5' ∷ []

-- The group 1 holds the group 2 under the name of the run.
abbrev disk : Disk
disk = record {
  links = (1, run1, some 2) ∷ [];
  data_of = [];
  ids = 2;
  fds = 0;
  maps = 0;
  errors = 0;
  dset = (0, []);
  file = [];
}

apart : ◌≡◌ {A = ℕ} 3 1 → run1_old ≡ run1 → ⊥
apart e f = omega (arith, e)

crt_grp-Relinked_example :
    Returns
      (Relinked disk_calls disk_view disk-Lawful 1 run1 3 run1_old 2
        (omega arith)
        (omega arith)
        apart
        disk)
      (crt_grp disk_calls 1 run1 (some 3) run1_old disk)
crt_grp-Relinked_example =
    crt_grp-Relinked disk_calls disk_view disk-Lawful 1 run1 3 run1_old 2 (omega arith)
      (omega arith) apart disk (omega arith) refl

-- The last three bytes of a file but no more than two, and two bytes of a buffer.
abbrev of_file : Desc
of_file = record {
  dsetname = b'f' ∷ [];
  offset = negsuc 2;
  len = pos 2;
  filename = some (b'd' ∷ []);
  buffer = none;
}

abbrev of_buffer : Desc
of_buffer = record {
  dsetname = b'b' ∷ [];
  offset = pos 1;
  len = pos 2;
  filename = none;
  buffer = some (memory held);
}

map_file-Mapped_example :
    Returns
      (Mapped disk_view (b'd' ∷ []) of_file disk)
      (map_file disk_calls (b'd' ∷ []) of_file disk)
map_file-Mapped_example =
    map_file-Mapped disk_calls disk_view disk-Lawful (b'd' ∷ []) of_file disk refl

abbrev request : Request
request = record {
  filename = b'h' ∷ [];
  group = run1;
  dsets = of_file ∷ of_buffer ∷ [];
  ovrwtmode = 1;
  async = false;
}

request-ok : request_ok request ≡ true
unfolding request_ok descs_ok desc_ok
request-ok = refl

hdf5_conv-Converted_example :
    Returns (Converted disk_view request disk) (hdf5_conv disk_calls (some request) disk)
hdf5_conv-Converted_example =
    hdf5_conv-Converted disk_calls disk_view disk-Lawful request disk request-ok
      ((λ e. refl), ((λ e. refl), tt))

-- A disk on which no HDF5 file can be made.
abbrev full_disk : Calls Disk
full_disk = record disk_calls { fcreate = λ n s. (none, s) }

abbrev forks : Forks
forks = record {
  fork1 = true;
  pipe = true;
  fork2 = true;
  polled = readable;
  reads = true;
  sends = true;
  waited = exited;
}

init-fails : hdf5_init full_disk request disk ≡ ok (failed 4 (of_file ∷ of_buffer ∷ []) disk)
unfolding hdf5_init init_file open_file
init-fails = refl

hdf5_conv_async_hides_example :
    Returns (λ x. x.0 ≡ 4) (hdf5_conv full_disk (some request) disk)
    × ((hdf5_conv_async full_disk forks request disk).0 ≡ req_ok)
    × (in_order forks ≡ true
        → (c : Second (Started Disk)) × ((hdf5_conv_async full_disk forks request disk).1 ≡ some c)
          × (c.acted ≡ true))
hdf5_conv_async_hides_example =
    hdf5_conv_async_hides full_disk forks request disk 4 (of_file ∷ of_buffer ∷ []) disk refl
      request-ok init-fails

-- One dataset, on an empty disk.
abbrev short_request : Request
short_request = record {
  filename = b'h' ∷ [];
  group = run1;
  dsets = of_buffer ∷ [];
  ovrwtmode = 0;
  async = false;
}

abbrev empty_disk : Disk
empty_disk = record disk { links = []; ids = 0 }

abbrev begun : Disk
begun = record disk { links = (2, run1, some 4) ∷ (1, root_group, some 2) ∷ [] }

init-starts :
    hdf5_init disk_calls short_request empty_disk ≡ ok (started 1 4 (of_buffer ∷ []) begun)
unfolding hdf5_init open_file init_file get_grp get_known is_some make_group init_root overwriting
    init_group crt_grp crt_known close_ovrwt init_client init_maps map_all map_one
init-starts = refl

short-ok : request_ok short_request ≡ true
unfolding request_ok descs_ok desc_ok
short-ok = refl

hdf5_conv_write_hides_example :
    Returns (λ x. x.0 ≡ req_ok) (hdf5_conv disk_calls (some short_request) empty_disk)
hdf5_conv_write_hides_example =
    hdf5_conv_write_hides disk_calls disk_view disk-Lawful short_request empty_disk begun 1 4
      (of_buffer ∷ []) short-ok ((λ e. refl), tt) init-starts

-- Nothing of a buffer.
abbrev of_nothing : Desc
of_nothing = record of_buffer { len = pos 0 }

empty_buffer_aborts_example :
    (desc_ok of_nothing ≡ true)
    × ((g : ℕ) (s : Disk) → create_dset disk_calls of_nothing g s ≡ abort)
empty_buffer_aborts_example =
    empty_buffer_aborts disk_calls of_nothing (memory held) refl refl b'b' [] refl refl refl

abbrev job : Names
job = record {
  hdf5filename = b'h' ∷ [];
  measurement = run1;
  datafile = λ k. b'd' ∷ [];
  ovrwtmode = 1;
}

conv_data-AllFiles_example :
    Returns
      (λ x.
        (disk_view.ids x.2 ≡ 2)
        × (disk_view.fds x.2 ≡ 0)
        × (disk_view.maps x.2 ≡ 0)
        × (x.0 ≡ req_ok
            → disk_view.errors x.2 ≡ 0
            → (o : ℕ) × AllFiles disk_calls disk_view disk-Lawful job x.2 o))
      (conv_data disk_calls job disk)
conv_data-AllFiles_example =
    conv_data-AllFiles disk_calls disk_view disk-Lawful job disk (omega arith) (omega arith)
      (omega arith)

-- A capture of one tick, without a measurement.
abbrev one_tick : Req
one_tick = record {
  basefname = true;
  measurement = false;
  min_ticks = 1;
  min_events = 0;
  ovrwtmode = 0;
  capmode = 0;
}

abbrev unnamed : Names
unnamed = record job { measurement = [] }

no_measurement_no_conversion_example :
    ((is_req_valid true one_tick).status ≡ req_ok)
    × ((is_req_valid true one_tick).noconvert ≡ false)
    × Returns (λ x. x.0 ≡ req_einv) (conv_data disk_calls unnamed disk)
no_measurement_no_conversion_example =
    no_measurement_no_conversion disk_calls one_tick unnamed disk refl (omega arith) refl
      (λ e. omega (arith, e)) refl
