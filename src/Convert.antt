-- ===== src/Convert.antt =====
-- src/lib/hdf5conv.c: the conversion of data files to datasets of an HDF5 file. Calls of HDF5 and of the
-- system stand behind the interface `Calls`. Offsets and lengths are unbounded integers.
pub mod Calls
pub mod Balance
pub mod Groups
pub mod Mapping
pub mod Datasets
pub mod Init
pub mod Main
pub mod Async
use tes_0mq.Base.{ℕ, Bool, Option, List}
use tes_0mq.Base.Int.{ℤ}
use tes_0mq.Memory.{Memory}
use tes_0mq.Convert.Calls.{Name}

-- `struct hdf5_dset_desc_t`. `len` is its `length`.
pub record Desc : Type 0 where
  pub dsetname : Name
  pub offset : ℤ
  pub len : ℤ
  pub filename : Option Name
  pub buffer : Option Memory

-- `struct hdf5_conv_req_t`. No descriptor for a NULL array of them.
pub record Request : Type 0 where
  pub filename : Name
  pub group : Name
  pub dsets : List Desc
  pub ovrwtmode : ℕ
  pub async : Bool

abbrev pub req_econv : ℕ
req_econv = 6

abbrev pub req_eabort : ℕ
req_eabort = 2
