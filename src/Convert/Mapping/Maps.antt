-- ===== src/Convert/Mapping/Maps.antt =====
-- What `s_map_file` maps.
use tes_0mq.Base.{
  ℕ, ◌+◌, ◌-◌, ◌<◌, ◌≤◌, ◌≡◌, refl, sym, ap, subst, ◌∙◌, ◌⊎◌, inl, inr, true, false, not, ltb,
  if◌then◌else◌, arith, Returns, Returns-check, Returns-if, Option, none, some, List, [], length,
  take, drop,
}
use tes_0mq.Base.Int.{ℤ, pos, negsuc, is_neg, is_zero, to_ℕ}
use tes_0mq.Memory.{Memory, read}
use tes_0mq.Capture.{req_ok}
use tes_0mq.Capture.Request.{req_efail}
use tes_0mq.Convert.{Desc}
use tes_0mq.Convert.Calls.{Name, Calls, View, SameFiles, DataOpened, DataMapped, Lawful}
use tes_0mq.Convert.Mapping.{is_null, from_start, clipped, mapped, sized, opened, map_file}
use tes_0mq.Convert.Mapping.Slices.{slice, is_past, slice_of, slice-zero, slice-past, slice-within}

-- The bytes that a descriptor stands for.
abbrev pub bytes_of : Option Memory → ℤ → ℤ → List ℕ
bytes_of none o l = []
bytes_of (some m) o l = read m (to_ℕ o) (to_ℕ l)

-- A descriptor that `s_create_dset` takes.
abbrev pub Usable : Option Memory → ℤ → ℤ → Type 0
Usable none o l = l ≡ pos 0
Usable (some m) o l = (0 < to_ℕ l) × (is_neg l ≡ false) × (is_neg o ≡ false)

nonneg : (o : ℤ) → is_neg o ≡ false → o ≡ pos (to_ℕ o)
nonneg (pos a) h = refl
nonneg (negsuc a) h = absurd (cc)

zero_of : (l : ℤ) → is_zero l ≡ true → l ≡ pos 0
zero_of (pos a) h = ap pos (ground arith)
zero_of (negsuc a) h = absurd (cc)

clipped_lt : (l : ℤ) (most : ℕ) → is_zero l ≡ false → 0 < most → 0 < clipped l most
unfolding clipped
clipped_lt (pos a) most h p = ground arith
clipped_lt (negsuc a) most h p = p

clipped_le : (l : ℤ) (most : ℕ) → clipped l most ≤ most
unfolding clipped
clipped_le (pos a) most = ground arith
clipped_le (negsuc a) most = omega arith

clipped_pos : (l : ℤ) (most : ℕ) → is_zero l ≡ false → 0 < most → ltb 0 (clipped l most) ≡ true
clipped_pos l most h p = ground (arith, clipped_lt l most h p)

module _ {S : Type 0} (V : View S) (n : Name) where
  -- What `s_map_file` leaves: no descriptor of a file is left open, and nothing is changed in the files.
  pub record Mapped (d : Desc) (s : S) (x : ℕ × Desc × S) : Type 0 where
    pub dsetname : x.1.dsetname ≡ d.dsetname
    pub filename : x.1.filename ≡ d.filename
    pub ids : V.ids x.2 ≡ V.ids s
    pub fds : V.fds x.2 ≡ V.fds s
    pub errors : V.errors x.2 ≡ V.errors s
    pub same : SameFiles V s x.2
    pub maps : V.maps x.2 ≡ V.maps s + (if is_null x.1.buffer then 0 else 1)
    pub status : (x.0 ≡ req_ok) ⊎ ((x.0 ≡ req_efail) × (x.1.buffer ≡ none))
    pub usable : x.0 ≡ req_ok → Usable x.1.buffer x.1.offset x.1.len
    pub bytes :
        x.0 ≡ req_ok → bytes_of x.1.buffer x.1.offset x.1.len ≡ slice d.offset d.len (V.content n)

module _ {S : Type 0} (C : Calls S) (V : View S) (L : Lawful C V) (n : Name) where
  -- The file is open.
  pub record Holds (fd : ℕ) (s s' : S) : Type 0 where
    pub ids : V.ids s' ≡ V.ids s
    pub fds : V.fds s' ≡ V.fds s + 1
    pub maps : V.maps s' ≡ V.maps s
    pub errors : V.errors s' ≡ V.errors s
    pub same : SameFiles V s s'

  -- It is closed again, and nothing is mapped.
  ended :
      (fd rc : ℕ) (d d' : Desc) (s s1 : S)
      → Holds fd s s1
      → d'.dsetname ≡ d.dsetname
      → d'.filename ≡ d.filename
      → d'.buffer ≡ none
      → (rc ≡ req_ok) ⊎ (rc ≡ req_efail)
      → (rc ≡ req_ok → d'.len ≡ pos 0)
      → (rc ≡ req_ok → slice d.offset d.len (V.content n) ≡ [])
      → Mapped V n d s (rc, d', C.close fd s1)
  ended fd rc d d' s s1 h na fi bu st le em =
      let (same, ids, maps, errors) = L.close_rest fd s1 in
      record {
        dsetname = na;
        filename = fi;
        ids = ids ∙ h.ids;
        fds = omega (arith, L.close_fds fd s1 (omega (arith, h.fds)), h.fds);
        errors = errors ∙ h.errors;
        same = record { link = same.link ∙ h.same.link; stored = same.stored ∙ h.same.stored };
        maps = rw bu (omega (arith, maps, h.maps));
        status = elim st [ inl e ↦ inl e | inr e ↦ inr (e, bu) ];
        usable = λ e. rw bu (le e);
        bytes = λ e. rw bu (sym (em e));
      }

  mapped_at :
      (fd a k : ℕ) (d : Desc) (s s1 : S) (x : Option Memory × S)
      → Holds fd s s1
      → V.file s1 fd ≡ n
      → d.buffer ≡ none
      → 0 < k
      → a + k ≤ length (V.content n)
      → slice d.offset d.len (V.content n) ≡ take k (drop a (V.content n))
      → DataMapped V (a + k) fd s1 x
      → Returns (Mapped V n d s) (mapped C fd (record d { offset = pos a; len = pos k }) x)
  unfolding mapped
  mapped_at fd a k d s s1 (none, s2) h file bu p le sl m =
      ended fd req_efail d (record d { offset = pos a; len = pos k }) s s2
        (record {
          ids = omega (arith, m.more.ids, h.ids);
          fds = m.more.fds ∙ h.fds;
          maps = m.more.maps ∙ h.maps;
          errors = m.more.errors ∙ h.errors;
          same = record {
            link = m.same.link ∙ h.same.link;
            stored = m.same.stored ∙ h.same.stored;
          };
        })
        refl refl bu (inr refl) (λ e. absurd (omega arith)) (λ e. absurd (omega arith))
  mapped_at fd a k d s s1 (some m, s2) h file bu p le sl (ids, fds, maps, errors, same, bytes) =
      let (same', ids', maps', errors') = L.close_rest fd s2 in
      record {
        dsetname = refl;
        filename = refl;
        ids = ids' ∙ (ids ∙ h.ids);
        fds = omega (arith, L.close_fds fd s2 (omega (arith, h.fds, fds)), h.fds, fds);
        errors = errors' ∙ (errors ∙ h.errors);
        same = record {
          link = same'.link ∙ (same.link ∙ h.same.link);
          stored = same'.stored ∙ (same.stored ∙ h.same.stored);
        };
        maps = omega (arith, maps', maps, h.maps);
        status = inl refl;
        usable = λ e. (p, refl, refl);
        bytes = λ e.
            slice_of m (V.content n) a k (
              bytes (subst (λ f. a + k ≤ length (V.content f)) (sym file) le)
              ∙ ap (λ f. take (a + k) (V.content f)) file)
            ∙ sym sl;
      }

  sized_at :
      (fd : ℕ) (d : Desc) (s s1 : S) (x : Option ℕ)
      → Holds fd s s1
      → V.file s1 fd ≡ n
      → d.buffer ≡ none
      → is_zero d.len ≡ false
      → ((k : ℕ) → x ≡ some k → k ≡ length (V.content (V.file s1 fd)))
      → Returns (Mapped V n d s) (sized C fd d x s1)
  unfolding sized
  sized_at fd d s s1 none h file bu nz sz =
      ended fd req_efail d d s s1 h refl refl bu (inr refl) (λ e. absurd (omega arith))
        (λ e. absurd (omega arith))
  sized_at fd d s s1 (some size) h file bu nz sz =
      let whole : size ≡ length (V.content n) =
        sz size refl ∙ ap (λ f. length (V.content f)) file in
      let o = from_start d.offset size in
      let k = clipped d.len (size - to_ℕ o) in
      Returns-if (Mapped V n d s) (is_past o size) _ _
        (λ t.
          ended fd req_ok d (record d { offset = o; len = pos 0 }) s s1 h refl refl bu (inl refl)
            (λ _. refl)
            (λ _.
              slice-past d.offset d.len (V.content n)
                (subst (λ z. is_past (from_start d.offset z) z ≡ true) whole t)))
        (λ t. Returns-check (Mapped V n d s) (not (is_neg o)) _ (ground arith) (
          Returns-check (Mapped V n d s) (ltb 0 (size - to_ℕ o)) _ (ground arith) (
            Returns-check (Mapped V n d s) (ltb 0 k) _
              (clipped_pos d.len (size - to_ℕ o) nz (ground arith))
              (subst
                (λ z.
                  Returns (Mapped V n d s)
                    (mapped C fd (record d { offset = z; len = pos k }) (C.map (to_ℕ o + k) fd s1)))
                (sym (nonneg o (ground arith)))
                (mapped_at fd (to_ℕ o) k d s s1 (C.map (to_ℕ o + k) fd s1) h file bu
                  (clipped_lt d.len (size - to_ℕ o) nz (ground arith))
                  (ground (arith, clipped_le d.len (size - to_ℕ o), whole))
                  (slice-within d.offset d.len (V.content n)
                      (subst (λ z. is_past (from_start d.offset z) z ≡ false) whole t)
                    ∙ ap
                        (λ z.
                          take (clipped d.len (z - to_ℕ (from_start d.offset z)))
                            (drop (to_ℕ (from_start d.offset z)) (V.content n)))
                        (sym whole))
                  (L.map (to_ℕ o + k) fd s1))))))

  opened_at :
      (d : Desc) (s : S) (x : Option ℕ × S)
      → d.buffer ≡ none
      → is_zero d.len ≡ false
      → DataOpened V n s x
      → Returns (Mapped V n d s) (opened C d x)
  unfolding opened
  opened_at d s (none, s1) bu nz o = record {
    dsetname = refl;
    filename = refl;
    ids = omega (arith, o.more.ids);
    fds = o.more.fds;
    errors = o.more.errors;
    same = o.same;
    maps = rw bu (omega (arith, o.more.maps));
    status = inr (refl, bu);
    usable = λ e. absurd (omega arith);
    bytes = λ e. absurd (omega arith);
  }
  opened_at d s (some fd, s1) bu nz (ids, fds, maps, errors, same, file) =
      sized_at fd d s s1 (C.seek_end fd s1)
        (record { ids = ids; fds = fds; maps = maps; errors = errors; same = same }) file bu nz
        (λ k e. L.seek_end fd k s1 e)

  -- `s_map_file` of a file that is not mapped yet fails no assertion. Where it succeeds, what the descriptor
  -- stands for is the part of the file that it asked for, as include/hdf5conv.h describes it, for any sign
  -- and size of its offset and length, and fits `s_create_dset`; otherwise nothing is mapped. Either way no
  -- descriptor of a file stays open.
  pub map_file-Mapped :
      (d : Desc) (s : S) → d.buffer ≡ none → Returns (Mapped V n d s) (map_file C n d s)
  unfolding map_file
  map_file-Mapped d s bu = Returns-check (Mapped V n d s) (is_null d.buffer) _ (rw bu) (
      Returns-if (Mapped V n d s) (is_zero d.len) _ _
        (λ z. record {
          dsetname = refl;
          filename = refl;
          ids = refl;
          fds = refl;
          errors = refl;
          same = record { link = refl; stored = refl };
          maps = rw bu (omega arith);
          status = inl refl;
          usable = λ _. rw bu (zero_of d.len z);
          bytes = λ _. rw bu (sym (slice-zero d.offset d.len (V.content n) z));
        })
        (λ z. opened_at d s (C.open_data n s) bu z (L.open_data n s)))
