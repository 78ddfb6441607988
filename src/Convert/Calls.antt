-- ===== src/Convert/Calls.antt =====
-- What src/lib/hdf5conv.c uses of the HDF5 library and of the system, behind an interface, with what the
-- documentation of HDF5 says that the calls do. An id of HDF5 is `none` where it is negative and `some 0`
-- where a helper found nothing to do.
use tes_0mq.Base.{
  ℕ, ◌+◌, ◌<◌, ◌≤◌, ◌≡◌, ◌≢◌, Bool, true, false, Option, none, some, List, length, take,
}
use tes_0mq.Memory.{Memory, read}

-- A text, as its bytes; no byte for a NULL pointer too, where the code does not tell the two apart.
abbrev pub Name : Type 0
Name = List ℕ

abbrev pub Hid : Type 0
Hid = Option ℕ

-- `lexists` is H5Lexists, and so on. `open_data` gives a file descriptor, `seek_end` the size, and `map` the
-- memory of a file from its first byte on. `stamp` is the text that the name of a group and the time are
-- printed to.
pub record Calls (S : Type 0) : Type 0 where
  pub lexists : ℕ → Name → S → Option Bool × S
  pub gopen : ℕ → Name → S → Hid × S
  pub gcreate : ℕ → Name → S → Hid × S
  pub gclose : ℕ → S → S
  pub lcopy : ℕ → Name → ℕ → Name → S → Bool × S
  pub ldelete : ℕ → Name → S → Bool × S
  pub fopen : Name → S → Hid × S
  pub fcreate : Name → S → Hid × S
  pub fclose : ℕ → S → S
  pub screate : ℕ → S → Hid × S
  pub sclose : ℕ → S → S
  pub dcreate : ℕ → Name → ℕ → S → Hid × S
  pub dwrite : ℕ → List ℕ → S → Bool × S
  pub dclose : ℕ → S → S
  pub access : Name → S → Bool
  pub unlink : Name → S → Bool × S
  pub time : S → Option ℕ
  pub stamp : Name → ℕ → Option Name
  pub open_data : Name → S → Option ℕ × S
  pub seek_end : ℕ → S → Option ℕ
  pub close : ℕ → S → S
  pub map : ℕ → ℕ → S → Option Memory × S
  pub unmap : ℕ → S → S

-- What one sees of it all: where a link of a group leads to, what a dataset holds, how many ids, file
-- descriptors and mappings are held, and how many calls for a dataset have reported an error; which group
-- and which dataset an id is of; and what the data files hold, which nobody writes to meanwhile.
pub record View (S : Type 0) : Type 0 where
  pub link : S → ℕ → Name → Option ℕ
  pub stored : S → ℕ → Name → Option (List ℕ)
  pub ids : S → ℕ
  pub fds : S → ℕ
  pub maps : S → ℕ
  pub errors : S → ℕ
  pub group : ℕ → ℕ
  pub dset : S → ℕ → ℕ × Name
  pub file : S → ℕ → Name
  pub content : Name → List ℕ

module _ {S : Type 0} (V : View S) where
  -- So many ids more, and all else that is held as before.
  pub record More (n : ℕ) (s s' : S) : Type 0 where
    pub ids : V.ids s' ≡ V.ids s + n
    pub fds : V.fds s' ≡ V.fds s
    pub maps : V.maps s' ≡ V.maps s
    pub errors : V.errors s' ≡ V.errors s

  pub record SameFiles (s s' : S) : Type 0 where
    pub link : V.link s' ≡ V.link s
    pub stored : V.stored s' ≡ V.stored s

  -- A call that only looks.
  pub record Looks (s s' : S) : Type 0 where
    pub more : More 0 s s'
    pub same : SameFiles s s'

  -- Nothing is changed but what the name `n` in the group `o` stands for.
  pub record Beside (o : ℕ) (n : Name) (s s' : S) : Type 0 where
    pub link : (k : ℕ) (m : Name) → (k ≡ o → m ≡ n → ⊥) → V.link s' k m ≡ V.link s k m
    pub stored : (k : ℕ) (m : Name) → (k ≡ o → m ≡ n → ⊥) → V.stored s' k m ≡ V.stored s k m

  -- A group that is opened, and one that is made.
  abbrev pub Opened : ℕ → Name → S → Hid × S → Type 0
  Opened lid n s (none, s') = Looks s s'
  Opened lid n s (some h, s') =
      More 1 s s' × SameFiles s s' × (0 < h) × (V.link s (V.group lid) n ≡ some (V.group h))

  abbrev pub Created : ℕ → Name → S → Hid × S → Type 0
  Created lid n s (none, s') = Looks s s'
  Created lid n s (some h, s') =
      More 1 s s'
      × Beside (V.group lid) n s s'
      × (0 < h)
      × (V.link s (V.group lid) n ≡ none)
      × (V.link s' (V.group lid) n ≡ some (V.group h))
      × ((m : Name) → V.link s' (V.group h) m ≡ none)

  abbrev pub Copied : ℕ → Name → ℕ → Name → S → Bool × S → Type 0
  Copied lid n lid' n' s (false, s') = Looks s s'
  Copied lid n lid' n' s (true, s') =
      More 0 s s'
      × Beside (V.group lid') n' s s'
      × (V.link s' (V.group lid') n' ≡ V.link s (V.group lid) n)

  abbrev pub Deleted : ℕ → Name → S → Bool × S → Type 0
  Deleted lid n s (false, s') = Looks s s'
  Deleted lid n s (true, s') =
      More 0 s s' × Beside (V.group lid) n s s' × (V.link s' (V.group lid) n ≡ none)

  -- An id of a dataset. Where it cannot be made, an error has been reported.
  pub record Refused (s s' : S) : Type 0 where
    pub ids : V.ids s' ≡ V.ids s
    pub fds : V.fds s' ≡ V.fds s
    pub maps : V.maps s' ≡ V.maps s
    pub errors : V.errors s < V.errors s'

  abbrev pub Spaced : S → Hid × S → Type 0
  Spaced s (none, s') = Refused s s'
  Spaced s (some h, s') = More 1 s s' × SameFiles s s'

  abbrev pub DataMade : ℕ → Name → ℕ → S → Hid × S → Type 0
  DataMade gid n len s (none, s') = Refused s s'
  DataMade gid n len s (some d, s') =
      More 1 s s'
      × Beside (V.group gid) n s s'
      × (V.dset s' d ≡ (V.group gid, n))
      × (V.stored s (V.group gid) n ≡ none)
      × ((c : List ℕ) × (V.stored s' (V.group gid) n ≡ some c) × (length c ≡ len))

  abbrev pub DataWritten : ℕ → List ℕ → S → Bool × S → Type 0
  DataWritten d bs s (false, s') = Refused s s'
  DataWritten d bs s (true, s') =
      More 0 s s'
      × Beside (V.dset s d).0 (V.dset s d).1 s s'
      × (V.stored s' (V.dset s d).0 (V.dset s d).1 ≡ some bs)

  -- An id that is closed.
  pub record Closed (s s' : S) : Type 0 where
    pub ids : 0 < V.ids s → V.ids s' + 1 ≡ V.ids s
    pub fds : V.fds s' ≡ V.fds s
    pub maps : V.maps s' ≡ V.maps s
    pub errors : V.errors s' ≡ V.errors s
    pub same : SameFiles s s'

  -- A whole file of HDF5, which may be a new one.
  abbrev pub FileOpened : S → Hid × S → Type 0
  FileOpened s (none, s') = More 0 s s'
  FileOpened s (some h, s') = More 1 s s' × (0 < h)

  abbrev pub DataOpened : Name → S → Option ℕ × S → Type 0
  DataOpened n s (none, s') = Looks s s'
  DataOpened n s (some d, s') =
      (V.ids s' ≡ V.ids s)
      × (V.fds s' ≡ V.fds s + 1)
      × (V.maps s' ≡ V.maps s)
      × (V.errors s' ≡ V.errors s)
      × SameFiles s s'
      × (V.file s' d ≡ n)

  abbrev pub DataMapped : ℕ → ℕ → S → Option Memory × S → Type 0
  DataMapped n d s (none, s') = Looks s s'
  DataMapped n d s (some m, s') =
      (V.ids s' ≡ V.ids s)
      × (V.fds s' ≡ V.fds s)
      × (V.maps s' ≡ V.maps s + 1)
      × (V.errors s' ≡ V.errors s)
      × SameFiles s s'
      × (n ≤ length (V.content (V.file s d)) → read m 0 n ≡ take n (V.content (V.file s d)))

-- What the documentation says of the calls.
pub record Lawful {S : Type 0} (C : Calls S) (V : View S) : Type 0 where
  pub lexists_looks : (lid : ℕ) (n : Name) (s : S) → Looks V s (C.lexists lid n s).1
  pub lexists_true :
      (lid : ℕ) (n : Name) (s : S)
      → (C.lexists lid n s).0 ≡ some true
      → V.link s (V.group lid) n ≢ none
  pub lexists_false :
      (lid : ℕ) (n : Name) (s : S)
      → (C.lexists lid n s).0 ≡ some false
      → V.link s (V.group lid) n ≡ none
  pub gopen : (lid : ℕ) (n : Name) (s : S) → Opened V lid n s (C.gopen lid n s)
  pub gcreate : (lid : ℕ) (n : Name) (s : S) → Created V lid n s (C.gcreate lid n s)
  pub gclose : (h : ℕ) (s : S) → Closed V s (C.gclose h s)
  pub lcopy :
      (lid : ℕ) (n : Name) (lid' : ℕ) (n' : Name) (s : S)
      → Copied V lid n lid' n' s (C.lcopy lid n lid' n' s)
  pub ldelete : (lid : ℕ) (n : Name) (s : S) → Deleted V lid n s (C.ldelete lid n s)
  pub fopen : (n : Name) (s : S) → FileOpened V s (C.fopen n s)
  pub fcreate : (n : Name) (s : S) → FileOpened V s (C.fcreate n s)
  pub fclose : (h : ℕ) (s : S) → Closed V s (C.fclose h s)
  pub screate : (len : ℕ) (s : S) → Spaced V s (C.screate len s)
  pub sclose : (h : ℕ) (s : S) → Closed V s (C.sclose h s)
  pub dcreate :
      (gid : ℕ) (n : Name) (len : ℕ) (s : S) → DataMade V gid n len s (C.dcreate gid n len s)
  pub dwrite : (d : ℕ) (bs : List ℕ) (s : S) → DataWritten V d bs s (C.dwrite d bs s)
  pub dclose : (h : ℕ) (s : S) → Closed V s (C.dclose h s)
  pub unlink : (n : Name) (s : S) → More V 0 s (C.unlink n s).1
  pub stamp_some : (g n : Name) (t : ℕ) → C.stamp g t ≡ some n → 0 < length n
  pub open_data : (n : Name) (s : S) → DataOpened V n s (C.open_data n s)
  pub seek_end : (d n : ℕ) (s : S) → C.seek_end d s ≡ some n → n ≡ length (V.content (V.file s d))
  pub close_fds : (d : ℕ) (s : S) → 0 < V.fds s → V.fds (C.close d s) + 1 ≡ V.fds s
  pub close_rest :
      (d : ℕ) (s : S)
      → SameFiles V s (C.close d s)
        × (V.ids (C.close d s) ≡ V.ids s)
        × (V.maps (C.close d s) ≡ V.maps s)
        × (V.errors (C.close d s) ≡ V.errors s)
  pub map : (n d : ℕ) (s : S) → DataMapped V n d s (C.map n d s)
  pub unmap_maps : (n : ℕ) (s : S) → 0 < V.maps s → V.maps (C.unmap n s) + 1 ≡ V.maps s
  pub unmap_rest :
      (n : ℕ) (s : S)
      → SameFiles V s (C.unmap n s)
        × (V.ids (C.unmap n s) ≡ V.ids s)
        × (V.fds (C.unmap n s) ≡ V.fds s)
        × (V.errors (C.unmap n s) ≡ V.errors s)
