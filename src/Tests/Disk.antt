-- ===== src/Tests/Disk.antt =====
-- A small HDF5 file and a small disk that keep to what `Lawful` says of HDF5 and of the system.
use tes_0mq.Base.{
  ℕ, zero, suc, ◌+◌, ◌-◌, ◌<◌, ◌≤◌, ◌≡◌, ◌≢◌, refl, sym, ap, ap₂, ◌∙◌, inl, inr, Bool, true, false,
  ◌&&◌, ltb, ◌==◌, if◌then◌else◌, arith, Option, none, some, List, [], ◌∷◌, length, take, get_or,
  Bool-cases,
}
use tes_0mq.Memory.{Memory, read}
use tes_0mq.Convert.Calls.{
  Name, Hid, Calls, View, Looks, Opened, Created, Copied, Closed, DataMade, Lawful,
}

abbrev pub same : Name → Name → Bool
same [] [] = true
same [] (b ∷ m) = false
same (a ∷ n) [] = false
same (a ∷ n) (b ∷ m) = a == b && same n m

same→eq : (n m : Name) → same n m ≡ true → n ≡ m
same→eq [] [] h = refl
same→eq [] (b ∷ m) h = absurd (cc)
same→eq (a ∷ n) [] h = absurd (cc)
same→eq (a ∷ n) (b ∷ m) h = ap₂ ◌∷◌ (ground arith) (same→eq n m (ground arith))

same_refl : (n : Name) → same n n ≡ true
same_refl [] = refl
same_refl (a ∷ n) = ground (arith, same_refl n)

-- What names of groups stand for, the last change first.
abbrev Table : Type 0 → Type 0
Table A = List (ℕ × Name × Option A)

abbrev find : {A : Type 0} → Table A → ℕ → Name → Option A
find [] k m = none
find ((o, n, v) ∷ l) k m = if k == o && same m n then v else find l k m

-- No group of a table has this number.
abbrev bound : {A : Type 0} → Table A → ℕ
bound [] = 0
bound ((o, n, v) ∷ l) = o + bound l

find_above : {A : Type 0} (l : Table A) (k : ℕ) (m : Name) → bound l < k → find l k m ≡ none
find_above [] k m h = refl
find_above ((o, n, v) ∷ l) k m h =
    let e : (k == o) ≡ false = ground arith in rw e (find_above l k m (omega arith))

find_here :
    {A : Type 0} (l : Table A) (o : ℕ) (n : Name) (v : Option A) → find ((o, n, v) ∷ l) o n ≡ v
find_here l o n v = let e : (o == o) ≡ true = ground arith in rw (e, same_refl n)

find_beside :
    {A : Type 0} (l : Table A) (o : ℕ) (n : Name) (v : Option A) (k : ℕ) (m : Name)
    → (k ≡ o → m ≡ n → ⊥)
    → find ((o, n, v) ∷ l) k m ≡ find l k m
find_beside l o n v k m h = elim (Bool-cases (k == o && same m n)) [
  | inl e ↦ absurd (h (ground arith) (same→eq m n (ground arith)))
  | inr e ↦ rw e
]

pub record Disk : Type 0 where
  pub links : Table ℕ
  pub data_of : Table (List ℕ)
  pub ids : ℕ
  pub fds : ℕ
  pub maps : ℕ
  pub errors : ℕ
  pub dset : ℕ × Name
  pub file : Name

-- What every data file holds.
abbrev pub held : List ℕ
held = 10 ∷ 11 ∷ 12 ∷ 13 ∷ []

abbrev seen : Name → List ℕ
seen n = held

abbrev pub memory : List ℕ → Memory
memory l i = get_or l i 0

unfoldable pub is_some : {A : Type 0} → Option A → Bool
is_some none = false
is_some (some a) = true

pub zeros : ℕ → List ℕ
zeros zero = []
zeros (suc n) = 0 ∷ zeros n

length-zeros : (n : ℕ) → length (zeros n) ≡ n
unfolding zeros
length-zeros zero = refl
length-zeros (suc n) = ap suc (length-zeros n)

unfoldable pub open_group : Option ℕ → Disk → Hid × Disk
open_group none s = (none, s)
open_group (some o) s = if ltb 0 o then (some o, record s { ids = s.ids + 1 }) else (none, s)

unfoldable pub make_group : Option ℕ → ℕ → Name → Disk → Hid × Disk
make_group (some o) lid n s = (none, s)
make_group none lid n s =
    let h = suc (lid + bound s.links) in
    (some h, record s { links = (lid, n, some h) ∷ s.links; ids = s.ids + 1 })

unfoldable pub copy_link : Option ℕ → ℕ → Name → Disk → Bool × Disk
copy_link none lid n s = (false, s)
copy_link (some o) lid n s = (true, record s { links = (lid, n, some o) ∷ s.links })

unfoldable pub make_data : Option (List ℕ) → ℕ → Name → ℕ → Disk → Hid × Disk
make_data (some c) gid n len s = (none, record s { errors = s.errors + 1 })
make_data none gid n len s = (
  some 1,
  record s { data_of = (gid, n, some (zeros len)) ∷ s.data_of; ids = s.ids + 1; dset = (gid, n) },
)

-- Any group, dataset or file can be made; no HDF5 file is there before.
abbrev pub disk_calls : Calls Disk
disk_calls = record {
  lexists = λ lid n s. (some (is_some (find s.links lid n)), s);
  gopen = λ lid n s. open_group (find s.links lid n) s;
  gcreate = λ lid n s. make_group (find s.links lid n) lid n s;
  gclose = λ h s. record s { ids = s.ids - 1 };
  lcopy = λ lid n lid' n' s. copy_link (find s.links lid n) lid' n' s;
  ldelete = λ lid n s. (true, record s { links = (lid, n, none) ∷ s.links });
  fopen = λ n s. (some 1, record s { ids = s.ids + 1 });
  fcreate = λ n s. (some 1, record s { ids = s.ids + 1 });
  fclose = λ h s. record s { ids = s.ids - 1 };
  screate = λ len s. (some 1, record s { ids = s.ids + 1 });
  sclose = λ h s. record s { ids = s.ids - 1 };
  dcreate = λ gid n len s. make_data (find s.data_of gid n) gid n len s;
  dwrite = λ d bs s. (true, record s { data_of = (s.dset.0, s.dset.1, some bs) ∷ s.data_of });
  dclose = λ h s. record s { ids = s.ids - 1 };
  access = λ n s. false;
  unlink = λ n s. (true, s);
  time = λ s. some 5;
  stamp = λ g t. some (t ∷ g);
  open_data = λ n s. (some 0, record s { fds = s.fds + 1; file = n });
  seek_end = λ d s. some (length held);
  close = λ d s. record s { fds = s.fds - 1 };
  map = λ n d s. (some (memory held), record s { maps = s.maps + 1 });
  unmap = λ n s. record s { maps = s.maps - 1 };
}

abbrev pub disk_view : View Disk
disk_view = record {
  link = λ s k m. find s.links k m;
  stored = λ s k m. find s.data_of k m;
  ids = λ s. s.ids;
  fds = λ s. s.fds;
  maps = λ s. s.maps;
  errors = λ s. s.errors;
  group = λ h. h;
  dset = λ s d. s.dset;
  file = λ s d. s.file;
  content = seen;
}

looks : (s : Disk) → Looks disk_view s s
looks s = record {
  more = record { ids = omega arith; fds = refl; maps = refl; errors = refl };
  same = record { link = refl; stored = refl };
}

closed : (s : Disk) → Closed disk_view s (record s { ids = s.ids - 1 })
closed s = record {
  ids = λ h. omega arith;
  fds = refl;
  maps = refl;
  errors = refl;
  same = record { link = refl; stored = refl };
}

opens :
    (lid : ℕ) (n : Name) (s : Disk) (x : Option ℕ)
    → find s.links lid n ≡ x
    → Opened disk_view lid n s (open_group x s)
unfolding open_group
opens lid n s none e = looks s
opens lid n s (some zero) e = looks s
opens lid n s (some (suc o)) e =
    let p : ltb 0 (suc o) ≡ true = ground arith in
    rw p (
      record { ids = refl; fds = refl; maps = refl; errors = refl },
      record { link = refl; stored = refl },
      omega arith,
      e,
    )

makes :
    (lid : ℕ) (n : Name) (s : Disk) (x : Option ℕ)
    → find s.links lid n ≡ x
    → Created disk_view lid n s (make_group x lid n s)
unfolding make_group
makes lid n s (some o) e = looks s
makes lid n s none e =
    let h = suc (lid + bound s.links) in
    (
      record { ids = refl; fds = refl; maps = refl; errors = refl },
      record { link = find_beside s.links lid n (some h); stored = λ k m p. refl },
      omega arith,
      e,
      find_here s.links lid n (some h),
      λ m.
          find_beside s.links lid n (some h) h m (λ p q. absurd (omega arith))
          ∙ find_above s.links h m (omega arith),
    )

copies :
    (lid : ℕ) (n : Name) (lid' : ℕ) (n' : Name) (s : Disk) (x : Option ℕ)
    → find s.links lid n ≡ x
    → Copied disk_view lid n lid' n' s (copy_link x lid' n' s)
unfolding copy_link
copies lid n lid' n' s none e = looks s
copies lid n lid' n' s (some o) e = (
  record { ids = omega arith; fds = refl; maps = refl; errors = refl },
  record { link = find_beside s.links lid' n' (some o); stored = λ k m p. refl },
  find_here s.links lid' n' (some o) ∙ sym e,
)

makes_data :
    (gid : ℕ) (n : Name) (len : ℕ) (s : Disk) (x : Option (List ℕ))
    → find s.data_of gid n ≡ x
    → DataMade disk_view gid n len s (make_data x gid n len s)
unfolding make_data
makes_data gid n len s (some c) e = record {
  ids = refl;
  fds = refl;
  maps = refl;
  errors = omega arith;
}
makes_data gid n len s none e = (
  record { ids = refl; fds = refl; maps = refl; errors = refl },
  record { link = λ k m p. refl; stored = find_beside s.data_of gid n (some (zeros len)) },
  refl,
  e,
  (zeros len, find_here s.data_of gid n (some (zeros len)), length-zeros len),
)

take-read :
    (m : Memory) (l : List ℕ) (i n : ℕ)
    → n ≤ length l
    → ((k : ℕ) → m (i + k) ≡ get_or l k 0)
    → read m i n ≡ take n l
unfolding read
take-read m l i zero h f = refl
take-read m [] i (suc n) h f = absurd (omega arith)
take-read m (b ∷ l) i (suc n) h f =
    ap₂ ◌∷◌ (ap m (omega arith) ∙ f 0)
      (take-read m l (i + 1) n (omega arith) (λ k. ap m (omega arith) ∙ f (suc k)))

lexists_some : (x : Option ℕ) → (is_some x ≡ true → x ≢ none) × (is_some x ≡ false → x ≡ none)
unfolding is_some
lexists_some none = (λ h. absurd (cc), λ h. refl)
lexists_some (some o) = (λ h e. absurd (cc), λ h. absurd (cc))

pub disk-Lawful : Lawful disk_calls disk_view
disk-Lawful = record {
  lexists_looks = λ lid n s. looks s;
  lexists_true = λ lid n s h. (lexists_some (find s.links lid n)).0 (ground (arith, h));
  lexists_false = λ lid n s h. (lexists_some (find s.links lid n)).1 (ground (arith, h));
  gopen = λ lid n s. opens lid n s (find s.links lid n) refl;
  gcreate = λ lid n s. makes lid n s (find s.links lid n) refl;
  gclose = λ h s. closed s;
  lcopy = λ lid n lid' n' s. copies lid n lid' n' s (find s.links lid n) refl;
  ldelete = λ lid n s. (
    record { ids = omega arith; fds = refl; maps = refl; errors = refl },
    record { link = find_beside s.links lid n none; stored = λ k m p. refl },
    find_here s.links lid n none,
  );
  fopen = λ n s. (record { ids = refl; fds = refl; maps = refl; errors = refl }, omega arith);
  fcreate = λ n s. (record { ids = refl; fds = refl; maps = refl; errors = refl }, omega arith);
  fclose = λ h s. closed s;
  screate = λ len s. (
    record { ids = refl; fds = refl; maps = refl; errors = refl },
    record { link = refl; stored = refl },
  );
  sclose = λ h s. closed s;
  dcreate = λ gid n len s. makes_data gid n len s (find s.data_of gid n) refl;
  dwrite = λ d bs s. (
    record { ids = omega arith; fds = refl; maps = refl; errors = refl },
    record { link = λ k m p. refl; stored = find_beside s.data_of s.dset.0 s.dset.1 (some bs) },
    find_here s.data_of s.dset.0 s.dset.1 (some bs),
  );
  dclose = λ h s. closed s;
  unlink = λ n s. record { ids = omega arith; fds = refl; maps = refl; errors = refl };
  stamp_some = λ g n t e. ground (arith, e);
  open_data = λ n s. (refl, refl, refl, refl, record { link = refl; stored = refl }, refl);
  seek_end = λ d n s e. ground (arith, e);
  close_fds = λ d s h. omega arith;
  close_rest = λ d s. (record { link = refl; stored = refl }, refl, refl, refl);
  map = λ n d s. (
    refl,
    refl,
    refl,
    refl,
    record { link = refl; stored = refl },
    λ h. take-read (memory held) held 0 n h (λ k. ap (memory held) (omega arith)),
  );
  unmap_maps = λ n s h. omega arith;
  unmap_rest = λ n s. (record { link = refl; stored = refl }, refl, refl, refl);
}
