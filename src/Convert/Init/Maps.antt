-- ===== src/Convert/Init/Maps.antt =====
-- What the loop of `s_hdf5_init` over the files maps.
use tes_0mq.Base.{
  ℕ, ◌+◌, ◌≡◌, refl, sym, ap, ◌∙◌, ◌⊎◌, inl, inr, ◌==◌, if◌then◌else◌, arith, Returns, Returns-bind,
  Returns-if, Returns-mono, Option, none, some, List, [], ◌∷◌, All,
}
use tes_0mq.Memory.{Memory}
use tes_0mq.Capture.{req_ok}
use tes_0mq.Capture.Request.{req_efail}
use tes_0mq.Convert.{Desc}
use tes_0mq.Convert.Calls.{Name, Calls, View, SameFiles, Lawful}
use tes_0mq.Convert.Mapping.{is_null, map_file}
use tes_0mq.Convert.Mapping.Slices.{slice}
use tes_0mq.Convert.Mapping.Maps.{bytes_of, Mapped, map_file-Mapped}
use tes_0mq.Convert.Datasets.Stores.{Ready}
use tes_0mq.Convert.Init.{map_one, map_all}

-- The bytes that a descriptor asks for: a part of a file, or of the buffer.
abbrev asked_of : {S : Type 0} → View S → Option Name → Desc → List ℕ
asked_of V none d = bytes_of d.buffer d.offset d.len
asked_of V (some n) d = slice d.offset d.len (V.content n)

abbrev pub asked : {S : Type 0} → View S → Desc → List ℕ
asked V d = asked_of V d.filename d

-- How many files are mapped.
abbrev pub mapped_one : Option Name → Option Memory → ℕ
mapped_one none b = 0
mapped_one (some n) none = 0
mapped_one (some n) (some m) = 1

abbrev pub mapped_of : List Desc → ℕ
mapped_of [] = 0
mapped_of (d ∷ ds) = mapped_one d.filename d.buffer + mapped_of ds

-- A descriptor of a file that is not mapped, or of a buffer that is not empty.
abbrev pub FreshOf : Option Name → Desc → Type 0
FreshOf none d = Ready d
FreshOf (some n) d = d.buffer ≡ none

abbrev pub Fresh : Desc → Type 0
Fresh d = FreshOf d.filename d

module _ {S : Type 0} (V : View S) where
  -- A descriptor stands for what it asked for, and fits `s_create_dset`.
  pub record Filled (d d' : Desc) : Type 0 where
    pub dsetname : d'.dsetname ≡ d.dsetname
    pub filename : d'.filename ≡ d.filename
    pub ready : Ready d'
    pub bytes : bytes_of d'.buffer d'.offset d'.len ≡ asked V d

  abbrev pub FilledAll : List Desc → List Desc → Type 0
  FilledAll [] [] = Unit
  FilledAll [] (d' ∷ ds') = ⊥
  FilledAll (d ∷ ds) [] = ⊥
  FilledAll (d ∷ ds) (d' ∷ ds') = Filled d d' × FilledAll ds ds'

  -- What the loop leaves.
  pub record MappedAll (ds : List Desc) (s : S) (x : ℕ × List Desc × S) : Type 0 where
    pub ids : V.ids x.2 ≡ V.ids s
    pub fds : V.fds x.2 ≡ V.fds s
    pub errors : V.errors x.2 ≡ V.errors s
    pub same : SameFiles V s x.2
    pub maps : V.maps x.2 ≡ V.maps s + mapped_of x.1
    pub status : (x.0 ≡ req_ok) ⊎ (x.0 ≡ req_efail)
    pub filled : x.0 ≡ req_ok → FilledAll ds x.1

  -- One descriptor.
  pub record MappedOne (d : Desc) (s : S) (x : ℕ × Desc × S) : Type 0 where
    pub ids : V.ids x.2 ≡ V.ids s
    pub fds : V.fds x.2 ≡ V.fds s
    pub errors : V.errors x.2 ≡ V.errors s
    pub same : SameFiles V s x.2
    pub maps : V.maps x.2 ≡ V.maps s + mapped_one x.1.filename x.1.buffer
    pub status : (x.0 ≡ req_ok) ⊎ (x.0 ≡ req_efail)
    pub filled : x.0 ≡ req_ok → Filled d x.1

-- Nothing is mapped of what has not been reached.
none_mapped : (n : Option Name) (d : Desc) → FreshOf n d → mapped_one n d.buffer ≡ 0
none_mapped none d f = refl
none_mapped (some n) d f = rw f

pub mapped-Fresh : (ds : List Desc) → All Fresh ds → mapped_of ds ≡ 0
mapped-Fresh [] f = refl
mapped-Fresh (d ∷ ds) (f, r) = omega (arith, none_mapped d.filename d f, mapped-Fresh ds r)

counted : (n : Name) (b : Option Memory) → mapped_one (some n) b ≡ (if is_null b then 0 else 1)
counted n none = refl
counted n (some m) = refl

module _ {S : Type 0} (C : Calls S) (V : View S) (L : Lawful C V) where
  map_one-MappedOne :
      (d : Desc) (n : Option Name) (s : S)
      → d.filename ≡ n
      → FreshOf n d
      → Returns (MappedOne V d s) (map_one C d n s)
  unfolding map_one
  map_one-MappedOne d none s e f = record {
    ids = refl;
    fds = refl;
    errors = refl;
    same = record { link = refl; stored = refl };
    maps = rw e (omega arith);
    status = inl refl;
    filled = λ _. record { dsetname = refl; filename = refl; ready = f; bytes = rw e };
  }
  map_one-MappedOne d (some n) s e f =
      Returns-mono (Mapped V n d s) (MappedOne V d s) (map_file C n d s)
        (map_file-Mapped C V L n d s f)
        (λ x m. record {
          ids = m.ids;
          fds = m.fds;
          errors = m.errors;
          same = m.same;
          maps =
              m.maps
              ∙ ap (λ k. V.maps s + k)
                  (sym (counted n x.1.buffer)
                    ∙ ap (λ y. mapped_one y x.1.buffer) (sym (m.filename ∙ e)));
          status = elim m.status [ inl g ↦ inl g | inr g ↦ inr g.0 ];
          filled = λ g. record {
            dsetname = m.dsetname;
            filename = m.filename;
            ready = m.usable g;
            bytes = m.bytes g ∙ ap (λ y. asked_of V y d) (sym e);
          };
        })

  pub map_all-MappedAll :
      (ds : List Desc) (s : S) → All Fresh ds → Returns (MappedAll V ds s) (map_all C ds s)
  unfolding map_all
  map_all-MappedAll [] s f = record {
    ids = refl;
    fds = refl;
    errors = refl;
    same = record { link = refl; stored = refl };
    maps = omega arith;
    status = inl refl;
    filled = λ _. tt;
  }
  map_all-MappedAll (d ∷ ds) s (f, r) =
      Returns-bind (MappedOne V d s) (MappedAll V (d ∷ ds) s) (map_one C d d.filename s) _
        (map_one-MappedOne d d.filename s refl f)
        (λ (rc, d', s1) m.
          Returns-if (MappedAll V (d ∷ ds) s) (rc == req_ok) _ _
            (λ good.
              Returns-bind (MappedAll V ds s1) (MappedAll V (d ∷ ds) s) (map_all C ds s1) _
                (map_all-MappedAll ds s1 r)
                (λ (rc', ds', s2) v. record {
                  ids = v.ids ∙ m.ids;
                  fds = v.fds ∙ m.fds;
                  errors = v.errors ∙ m.errors;
                  same = record {
                    link = v.same.link ∙ m.same.link;
                    stored = v.same.stored ∙ m.same.stored;
                  };
                  maps = omega (arith, v.maps, m.maps);
                  status = v.status;
                  filled = λ g. (m.filled (ground arith), v.filled g);
                }))
            (λ bad. record {
              ids = m.ids;
              fds = m.fds;
              errors = m.errors;
              same = m.same;
              maps = omega (arith, m.maps, mapped-Fresh ds r);
              status = m.status;
              filled = λ g. absurd (ground arith);
            }))
