-- ===== src/Capture/Paths/Outside.antt =====
-- What `s_canonicalize_path` makes outside of DATAROOT.
use tes_0mq.Base.{
  ℕ, suc, ◌+◌, ◌-◌, ◌<◌, ◌≡◌, refl, ◌∙◌, ap, sym, true, false, ◌||◌, ltb, leb, ◌==◌, if◌then◌else◌,
  arith, Outcome, ok, ◌>>=◌, ◌>>◌, check, Option, none, some, [], ◌∷◌, ◌++◌, length, length-append,
  inl, inr, Bool-cases,
}
use tes_0mq.Capture.Paths.{
  Text, data_root, path_max, slash, found, missing, Tree, starts_with, prepend, strchr,
  ends_with_slash, printed, is_empty, next_segment, make_dirs, add_base, add_to, in_dir, by_path,
  canonicalize,
}

prepend-none : (c : ℕ) (x : Option (Text × Text)) → prepend c x ≡ none → x ≡ none
prepend-none c none h = refl
prepend-none c (some (a, b)) h = absurd (cc)

-- A segment without a slash is what stands before the first slash.
strchr-append : (a rest : Text) → strchr a ≡ none → strchr (a ++ slash ∷ rest) ≡ some (a, rest)
unfolding strchr
strchr-append [] rest h = refl
strchr-append (c ∷ a) rest h = elim (Bool-cases (c == slash)) [
  | inl e ↦ absurd (ground (arith, e, h))
  | inr e ↦
      let q : strchr a ≡ none = prepend-none c (strchr a) (sym (first e) ∙ h) in
      rw e (ap (prepend c) (strchr-append a rest q))
]
  where
    first : (c == slash) ≡ false → strchr (c ∷ a) ≡ prepend c (strchr a)
    first e = rw e

module _ {S : Type 0} (T : Tree S) where
  -- A segment whose directory can be made.
  segment_lem :
      (again : Text → Text → S → Outcome (Option (Text × Text) × S)) (buf cur a rest : Text) (s : S)
      → is_empty a ≡ false
      → length buf + (length a + 1) < path_max
      → (T.mkdir (buf ++ (a ++ slash ∷ [])) s).0 ≡ true
      → next_segment T again buf cur (some (a, rest)) s
        ≡ again (buf ++ (a ++ slash ∷ [])) rest (T.mkdir (buf ++ (a ++ slash ∷ [])) s).1
  unfolding next_segment
  segment_lem again buf cur a rest s e l m =
      let p : ltb (length buf) path_max ≡ true = ground arith in
      let q : leb path_max (length buf + (length a + 1)) ≡ false = ground arith in
      rw (e, p, q, m) refl

  refused_base :
      (dir c : Text)
      → starts_with data_root (printed (dir ++ slash ∷ c)) ≡ false
      → add_base T dir c ≡ none
  unfolding add_base
  refused_base dir c out = elim (Bool-cases (leb path_max (length c + length dir))) [
    | inl e ↦ rw e refl
    | inr e ↦ rw (e, out) refl
  ]

  -- A name of two directories `a` and `b` and a last segment `c` is refused where the directory is outside of
  -- DATAROOT, but by then both directories have been made, outside too where `a` is `..`. It is taken for
  -- granted that the segments are not empty and have no slash, that the name is not that of a file, and that
  -- its directories are short enough and can be made.
  pub canonicalize_makes_outside :
      (a b c dir : Text) (s : S)
      → strchr a ≡ none
      → strchr b ≡ none
      → strchr c ≡ none
      → is_empty a ≡ false
      → is_empty b ≡ false
      → 0 < length c
      → ends_with_slash (a ++ slash ∷ (b ++ slash ∷ c)) ≡ false
      → 23 + length a + length b < path_max
      → T.realpath (printed (data_root ++ (a ++ slash ∷ (b ++ slash ∷ c)))) s ≡ missing
      → (T.mkdir (data_root ++ (a ++ slash ∷ [])) s).0 ≡ true
      → (T.mkdir
          ((data_root ++ (a ++ slash ∷ [])) ++ (b ++ slash ∷ []))
          (T.mkdir (data_root ++ (a ++ slash ∷ [])) s).1).0
        ≡ true
      → T.realpath
          ((data_root ++ (a ++ slash ∷ [])) ++ (b ++ slash ∷ []))
          (T.mkdir
            ((data_root ++ (a ++ slash ∷ [])) ++ (b ++ slash ∷ []))
            (T.mkdir (data_root ++ (a ++ slash ∷ [])) s).1).1
        ≡ found dir
      → starts_with data_root (printed (dir ++ slash ∷ c)) ≡ false
      → canonicalize T (a ++ slash ∷ (b ++ slash ∷ c)) false s
        ≡ ok (
          none,
          (T.mkdir
              ((data_root ++ (a ++ slash ∷ [])) ++ (b ++ slash ∷ []))
              (T.mkdir (data_root ++ (a ++ slash ∷ [])) s).1).1,
        )
  unfolding canonicalize by_path make_dirs next_segment in_dir add_to add_base
  canonicalize_makes_outside a b c dir s na nb nc ea eb pc end short whole ma mb dr out =
      let n = a ++ slash ∷ (b ++ slash ∷ c) in
      let long : length n ≡ length a + length b + length c + 2 =
        omega (arith, length-append a (slash ∷ (b ++ slash ∷ c)), length-append b (slash ∷ c)) in
      let z : (length n == 0) ≡ false = ground (arith, long) in
      let f : length n + 1 ≡ suc (suc (suc (length n - 2))) = omega (arith, long) in
      let buf = data_root ++ (a ++ slash ∷ []) in
      let buf' = buf ++ (b ++ slash ∷ []) in
      let s1 = (T.mkdir buf s).1 in
      let s2 = (T.mkdir buf' s1).1 in
      let fuel = length n - 2 in
      let l1 : length buf ≡ 22 + length a =
        omega (arith, length-append data_root (a ++ slash ∷ []), length-append a (slash ∷ [])) in
      let loop : make_dirs T (suc (suc (suc fuel))) data_root n s ≡ ok (some (buf', c), s2) =
        ap (λ x. next_segment T (make_dirs T (suc (suc fuel))) data_root n x s)
          (strchr-append a (b ++ slash ∷ c) na)
        ∙ (segment_lem (make_dirs T (suc (suc fuel))) data_root n a (b ++ slash ∷ c) s ea
              (omega arith) ma
            ∙ (ap (λ x. next_segment T (make_dirs T (suc fuel)) buf (b ++ slash ∷ c) x s1)
                  (strchr-append b c nb)
                ∙ (segment_lem (make_dirs T (suc fuel)) buf (b ++ slash ∷ c) b c s1 eb
                      (omega (arith, l1)) mb
                    ∙ ap (λ x. next_segment T (make_dirs T fuel) buf' c x s2) nc))) in
      let pos : ltb 0 (length c) ≡ true = ground arith in
      let none_base : add_base T dir c ≡ none = refused_base dir c out in
      let last : in_dir T (some (buf', c)) s2 ≡ ok (none, s2) =
        ap (λ x. add_to T c x s2) dr
        ∙ (ap (λ x. check x >> ok (add_base T dir c, s2)) pos ∙ ap (λ x. ok (x, s2)) none_base) in
      ap
        (λ x.
          if x || ends_with_slash n
          then ok (none, s)
          else by_path T n false (T.realpath (printed (data_root ++ n)) s) s)
        z
      ∙ (ap
            (λ x.
              if x
              then ok (none, s)
              else by_path T n false (T.realpath (printed (data_root ++ n)) s) s)
            end
          ∙ (ap (λ x. by_path T n false x s) whole
              ∙ (ap (λ x. make_dirs T x data_root n s >>= (λ (parts, s'). in_dir T parts s')) f
                  ∙ (ap (λ x. x >>= (λ (parts, s'). in_dir T parts s')) loop ∙ last))))
