-- ===== src/Capture/Paths.antt =====
-- `s_canonicalize_path` and `s_task_construct_filenames` of src/bin/tesd_task_cap.c. A text is the bytes before
-- its NUL. What realpath and mkdir answer is a parameter, with a state for what they make.
pub mod Confined
pub mod Naming
pub mod Outside
use tes_0mq.Base.{
  ℕ, zero, suc, ◌+◌, ◌-◌, Bool, true, false, not, ◌&&◌, ◌||◌, ltb, leb, ◌==◌, if◌then◌else◌,
  Outcome, ok, abort, hang, ◌>>=◌, ◌>>◌, check, Option, none, some, List, [], ◌∷◌, ◌++◌, length,
  take,
}
use tes_0mq.Capture.{Dset, fidx, midx, tidx, ridx, bdat, mdat, tdat, edat, req_ok}
use tes_0mq.Capture.Request.{req_efail}

abbrev pub Text : Type 0
Text = List ℕ

-- DATAROOT, which ends with a slash.
abbrev pub data_root : Text
data_root =
    b'/' ∷ b'm' ∷ b'e' ∷ b'd' ∷ b'i' ∷ b'a' ∷ b'/' ∷ b'd' ∷ b'a' ∷ b't' ∷ b'a' ∷ b'/' ∷ b'c' ∷ b'a'
    ∷ b'p' ∷ b't' ∷ b'u' ∷ b'r' ∷ b'e' ∷ b's' ∷ b'/' ∷ []

abbrev pub path_max : ℕ
path_max = 4096

abbrev pub slash : ℕ
slash = b'/'

-- TES_CAP_REQ_EABORT and TES_CAP_REQ_EPERM.
abbrev pub req_eabort : ℕ
req_eabort = 2

abbrev pub req_eperm : ℕ
req_eperm = 3

-- What realpath answers: a path, ENOENT, or another error.
pub data Resolved : Type 0 where
  found : Text → Resolved
  missing : Resolved
  refused : Resolved

-- `mkdir` is whether the directory is there afterwards, by a return of 0 or by EEXIST.
pub record Tree (S : Type 0) : Type 0 where
  pub realpath : Text → S → Resolved
  pub mkdir : Text → S → Bool × S

-- The comparison with DATAROOT.
abbrev pub starts_with : Text → Text → Bool
starts_with [] m = true
starts_with (a ∷ n) [] = false
starts_with (a ∷ n) (b ∷ m) = a == b && starts_with n m

-- `strchr (s, '/')`: what is before the slash, and what is after it.
abbrev pub prepend : ℕ → Option (Text × Text) → Option (Text × Text)
prepend c none = none
prepend c (some (a, b)) = some (c ∷ a, b)

unfoldable pub strchr : Text → Option (Text × Text)
strchr [] = none
strchr (c ∷ cs) = if c == slash then some ([], cs) else prepend c (strchr cs)

unfoldable pub ends_with_slash : Text → Bool
ends_with_slash [] = false
ends_with_slash (c ∷ []) = c == slash
ends_with_slash (c ∷ d ∷ cs) = ends_with_slash (d ∷ cs)

-- What `snprintf` writes to a buffer of PATH_MAX bytes.
abbrev pub printed : Text → Text
printed n = take (path_max - 1) n

abbrev pub is_empty : Text → Bool
is_empty [] = true
is_empty (c ∷ cs) = false

module _ {S : Type 0} (T : Tree S) where
  -- One round of the loop over the directories of `cur`, after those of `buf`: the directory part and the last
  -- segment. `again` is the next round.
  unfoldable pub next_segment :
      (Text → Text → S → Outcome (Option (Text × Text) × S))
      → Text
      → Text
      → Option (Text × Text)
      → S
      → Outcome (Option (Text × Text) × S)
  next_segment again buf cur none s = ok (some (buf, cur), s)
  next_segment again buf cur (some (a, rest)) s =
      let buf' = buf ++ (a ++ slash ∷ []) in
      let (there, s') = T.mkdir buf' s in
      if is_empty a
      then again buf rest s
      else check (ltb (length buf) path_max)
        >> (if leb path_max (length buf + (length a + 1))
            then ok (none, s)
            else if there
            then again buf' rest s'
            else ok (none, s'))

  unfoldable pub make_dirs : ℕ → Text → Text → S → Outcome (Option (Text × Text) × S)
  make_dirs zero buf cur s = hang
  make_dirs (suc fuel) buf cur s = next_segment (make_dirs fuel) buf cur (strchr cur) s

  -- The basename is added to the directory.
  unfoldable pub add_base : Text → Text → Option Text
  add_base dir base =
      if leb path_max (length base + length dir)
      then none
      else let p = printed (dir ++ slash ∷ base) in if starts_with data_root p then some p else none

  unfoldable pub add_to : Text → Resolved → S → Outcome (Option Text × S)
  add_to base (found dir) s = check (ltb 0 (length base)) >> ok (add_base dir base, s)
  add_to base missing s = abort
  add_to base refused s = abort

  unfoldable pub in_dir : Option (Text × Text) → S → Outcome (Option Text × S)
  in_dir none s = ok (none, s)
  in_dir (some (buf, base)) s = add_to base (T.realpath buf s) s

  -- What realpath has answered for the whole path.
  unfoldable pub by_path : Text → Bool → Resolved → S → Outcome (Option Text × S)
  by_path n mustexist (found p) s = ok ((if starts_with data_root p then some p else none), s)
  by_path n mustexist missing s =
      if mustexist
      then ok (none, s)
      else make_dirs (length n + 1) data_root n s >>= (λ (parts, s'). in_dir parts s')
  by_path n mustexist refused s = ok (none, s)

  -- `s_canonicalize_path`.
  unfoldable pub canonicalize : Text → Bool → S → Outcome (Option Text × S)
  canonicalize n mustexist s =
      if length n == 0 || ends_with_slash n
      then ok (none, s)
      else by_path n mustexist (T.realpath (printed (data_root ++ n)) s) s

-- The extension of a file of the job.
unfoldable pub extension : Dset → Text
extension fidx = b'f' ∷ b'i' ∷ b'd' ∷ b'x' ∷ []
extension midx = b'm' ∷ b'i' ∷ b'd' ∷ b'x' ∷ []
extension tidx = b't' ∷ b'i' ∷ b'd' ∷ b'x' ∷ []
extension ridx = b'r' ∷ b'i' ∷ b'd' ∷ b'x' ∷ []
extension bdat = b'b' ∷ b'd' ∷ b'a' ∷ b't' ∷ []
extension mdat = b'm' ∷ b'd' ∷ b'a' ∷ b't' ∷ []
extension tdat = b't' ∷ b'd' ∷ b'a' ∷ b't' ∷ []
extension edat = b'e' ∷ b'd' ∷ b'a' ∷ b't' ∷ []

-- What is sent, and whether a capture is not asked for.
pub record Asked : Type 0 where
  pub basefname : Text
  pub measurement : Text
  pub nocapture : Bool

pub record Filenames : Type 0 where
  pub statfilename : Text
  pub hdf5filename : Text
  pub datafile : Dset → Text

abbrev pub has_slash : Option (Text × Text) → Bool
has_slash none = false
has_slash (some x) = true

-- The name of the statistics file, before it is looked up.
unfoldable pub stat_name : Asked → Text
stat_name a = a.basefname ++ ((if is_empty a.measurement then [] else b'-' ∷ []) ++ a.measurement)

unfoldable pub data_name : Text → Dset → Text
data_name stat k = stat ++ (b'.' ∷ extension k)

module _ {S : Type 0} (T : Tree S) where
  -- The names of the data files. They are of one length, so the first that is too long is the first.
  unfoldable pub data_files : Text → Text → S → ℕ × Option Filenames × S
  data_files stat hdf5 s =
      if leb path_max (length (data_name stat fidx)) then (req_efail, none, s) else (
        req_ok,
        some (record { statfilename = stat; hdf5filename = hdf5; datafile = data_name stat }),
        s,
      )

  unfoldable pub with_hdf5 : Text → Option Text × S → ℕ × Option Filenames × S
  with_hdf5 stat (none, s) = (req_eperm, none, s)
  with_hdf5 stat (some hdf5, s) = data_files stat hdf5 s

  unfoldable pub with_stat : Asked → Option Text × S → Outcome (ℕ × Option Filenames × S)
  with_stat a (none, s) = ok ((if a.nocapture then req_eabort else req_eperm), none, s)
  with_stat a (some stat, s) =
      if has_slash (strchr a.measurement)
      then ok (req_eperm, none, s)
      else canonicalize T (printed (a.basefname ++ (b'.' ∷ b'h' ∷ b'd' ∷ b'f' ∷ b'5' ∷ []))) false s
        >>= (λ x. ok (with_hdf5 stat x))

  -- `s_task_construct_filenames`.
  unfoldable pub construct_filenames : Asked → S → Outcome (ℕ × Option Filenames × S)
  construct_filenames a s =
      if leb path_max (length (stat_name a))
      then ok (req_efail, none, s)
      else canonicalize T (stat_name a) a.nocapture s >>= with_stat a
