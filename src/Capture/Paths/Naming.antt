-- ===== src/Capture/Paths/Naming.antt =====
-- The names that `s_task_construct_filenames` makes.
use tes_0mq.Base.{
  ℕ, ◌+◌, ◌<◌, ◌≡◌, refl, ◌∙◌, ap, sym, ◌⊎◌, inl, inr, true, false, leb, ◌==◌, if◌then◌else◌, arith,
  Settles, Settles-bind, Settles-if, Option, none, some, [], ◌∷◌, ◌++◌, length, length-append, drop,
  Bool-cases,
}
use tes_0mq.Capture.{Dset, fidx, midx, tidx, ridx, bdat, mdat, tdat, edat, dset_no, req_ok}
use tes_0mq.Capture.Request.{req_efail}
use tes_0mq.Capture.Paths.{
  Text, data_root, path_max, Tree, starts_with, strchr, canonicalize, req_eabort, req_eperm,
  extension, Asked, Filenames, has_slash, stat_name, data_name, data_files, with_hdf5, with_stat,
  construct_filenames,
}
use tes_0mq.Capture.Paths.Confined.{Sound, Broken, Confined, ConfinedIf, canonicalize-Confined}
use tes_0mq.Capture.Frames.Aside.{dset_no-injective}

-- All names lie below the root, the measurement is one segment, and no two data files are the same.
pub record Good (a : Asked) (f : Filenames) : Type 0 where
  pub stat : Confined f.statfilename
  pub hdf5 : Confined f.hdf5filename
  pub data_files : (k : Dset) → Confined (f.datafile k)
  pub apart : (j k : Dset) → f.datafile j ≡ f.datafile k → j ≡ k
  pub plain : has_slash (strchr a.measurement) ≡ false

-- The statuses, and what they say.
abbrev Answered : Asked → ℕ → Option Filenames → Type 0
Answered a st none =
    (st ≡ req_efail) ⊎ ((st ≡ req_eperm) ⊎ ((st ≡ req_eabort) × (a.nocapture ≡ true)))
Answered a st (some f) = (st ≡ req_ok) × Good a f

abbrev pub Constructed : {S : Type 0} → Asked → ℕ × Option Filenames × S → Type 0
Constructed a x = Answered a x.0 x.1

drop-append : (xs ys : Text) → drop (length xs) (xs ++ ys) ≡ ys
drop-append [] ys = refl
drop-append (x ∷ xs) ys = drop-append xs ys

starts_with-append : (r n m : Text) → starts_with r n ≡ true → starts_with r (n ++ m) ≡ true
starts_with-append [] n m h = refl
starts_with-append (a ∷ r) [] m h = absurd (cc)
starts_with-append (a ∷ r) (b ∷ n) m h = ground (arith, starts_with-append r n m)

-- An extension tells its file.
abbrev of_extension : Text → ℕ
of_extension [] = 8
of_extension (a ∷ []) = 8
of_extension (a ∷ b ∷ n) =
    if b == b'i'
    then (if a == b'f' then 0 else if a == b'm' then 1 else if a == b't' then 2 else 3)
    else if a == b'b'
    then 4
    else if a == b'm'
    then 5
    else if a == b't'
    then 6
    else 7

of_extension-extension : (k : Dset) → of_extension (extension k) ≡ dset_no k
unfolding extension
of_extension-extension fidx = refl
of_extension-extension midx = refl
of_extension-extension tidx = refl
of_extension-extension ridx = refl
of_extension-extension bdat = refl
of_extension-extension mdat = refl
of_extension-extension tdat = refl
of_extension-extension edat = refl

length-extension : (k : Dset) → length (extension k) ≡ 4
unfolding extension
length-extension fidx = refl
length-extension midx = refl
length-extension tidx = refl
length-extension ridx = refl
length-extension bdat = refl
length-extension mdat = refl
length-extension tdat = refl
length-extension edat = refl

data_name-injective : (stat : Text) (j k : Dset) → data_name stat j ≡ data_name stat k → j ≡ k
unfolding data_name
data_name-injective stat j k h =
    let e : b'.' ∷ extension j ≡ b'.' ∷ extension k =
      sym (drop-append stat (b'.' ∷ extension j))
      ∙ (ap (drop (length stat)) h ∙ drop-append stat (b'.' ∷ extension k)) in
    let q : dset_no j ≡ dset_no k =
      sym (of_extension-extension j)
      ∙ (ap (λ n. of_extension (drop 1 n)) e ∙ of_extension-extension k) in
    dset_no-injective j k (ground arith)

length-data_name : (stat : Text) (k : Dset) → length (data_name stat k) ≡ length stat + 5
unfolding data_name
length-data_name stat k = omega (arith, length-append stat (b'.' ∷ extension k), length-extension k)

data_name-Confined :
    (stat : Text) (k : Dset)
    → Confined stat
    → length (data_name stat fidx) < path_max
    → Confined (data_name stat k)
unfolding data_name
data_name-Confined stat k c l = record {
  below = starts_with-append data_root stat (b'.' ∷ extension k) c.below;
  short = omega (arith, length-data_name stat k, length-data_name stat fidx);
}

module _ {S : Type 0} (T : Tree S) (L : Sound T) (a : Asked) where
  data_files-Constructed :
      (stat hdf5 : Text) (s : S)
      → Confined stat
      → Confined hdf5
      → has_slash (strchr a.measurement) ≡ false
      → Constructed a (data_files T stat hdf5 s)
  unfolding data_files
  data_files-Constructed stat hdf5 s c d p =
      elim (Bool-cases (leb path_max (length (data_name stat fidx)))) [
        | inl e ↦ rw e (inl refl)
        | inr e ↦ rw e (
          refl,
          record {
            stat = c;
            hdf5 = d;
            data_files = λ k. data_name-Confined stat k c (ground arith);
            apart = data_name-injective stat;
            plain = p;
          },
        )
      ]

  with_hdf5-Constructed :
      (stat : Text) (x : Option Text × S)
      → Confined stat
      → ConfinedIf x.0
      → has_slash (strchr a.measurement) ≡ false
      → Constructed a (with_hdf5 T stat x)
  unfolding with_hdf5
  with_hdf5-Constructed stat (none, s) c d p = inr (inl refl)
  with_hdf5-Constructed stat (some hdf5, s) c d p = data_files-Constructed stat hdf5 s c d p

  with_stat-Constructed :
      (x : Option Text × S)
      → ConfinedIf x.0
      → Settles (Broken T) (λ (y : ℕ × Option Filenames × S). Constructed a y) (with_stat T a x)
  unfolding with_stat
  with_stat-Constructed (none, s) c = elim (Bool-cases a.nocapture) [
    | inl e ↦ rw e (inr (inr (refl, refl)))
    | inr e ↦ rw e (inr (inl refl))
  ]
  with_stat-Constructed (some stat, s) c =
      Settles-if (Broken T) (λ (y : ℕ × Option Filenames × S). Constructed a y)
        (has_slash (strchr a.measurement)) _ _ (λ _. inr (inl refl))
        (λ p.
          Settles-bind (Broken T) (λ (y : Option Text × S). ConfinedIf y.0)
            (λ (y : ℕ × Option Filenames × S). Constructed a y) (canonicalize T _ false s) _
            (canonicalize-Confined T L _ false s) (λ x d. with_hdf5-Constructed stat x c d p))

  -- `s_task_construct_filenames` ends, and fails an assertion only where realpath does not find a directory that mkdir
  -- has made or has said to be there. Where it succeeds, the names of the statistics file, of the HDF5
  -- file and of the eight data files all begin with DATAROOT and fit their buffers, no two data files have
  -- the same name, and the measurement has no slash. Otherwise it returns one of three errors, that the job
  -- is not found only where no capture is asked for. It is taken for granted that the root is a directory
  -- and that realpath gives no path longer than a buffer.
  pub construct_filenames-Constructed :
      (s : S)
      → Settles
          (Broken T)
          (λ (y : ℕ × Option Filenames × S). Constructed a y)
          (construct_filenames T a s)
  unfolding construct_filenames
  construct_filenames-Constructed s =
      Settles-if (Broken T) (λ (y : ℕ × Option Filenames × S). Constructed a y)
        (leb path_max (length (stat_name a))) _ _ (λ _. inl refl)
        (λ _.
          Settles-bind (Broken T) (λ (y : Option Text × S). ConfinedIf y.0)
            (λ (y : ℕ × Option Filenames × S). Constructed a y)
            (canonicalize T (stat_name a) a.nocapture s) (with_stat T a)
            (canonicalize-Confined T L (stat_name a) a.nocapture s)
            (λ x c. with_stat-Constructed x c))
