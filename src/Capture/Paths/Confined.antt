-- ===== src/Capture/Paths/Confined.antt =====
-- What `s_canonicalize_path` returns lies below DATAROOT.
use tes_0mq.Base.{
  ◌⊎◌, ◌∙◌, ℕ, zero, suc, ◌+◌, ◌-◌, ◌<◌, ◌≤◌, ◌≡◌, ◌≢◌, refl, sym, inl, inr, Bool, true, false,
  ◌||◌, ltb, leb, ◌==◌, if◌then◌else◌, arith, Outcome, ok, Settles, Settles-bind, Settles-check,
  Settles-if, Option, none, some, [], ◌∷◌, ◌++◌, length, length-append, take, Bool-cases,
}
use tes_0mq.Capture.Paths.{
  Text, data_root, path_max, slash, Resolved, found, missing, refused, Tree, starts_with, prepend,
  strchr, ends_with_slash, printed, is_empty, next_segment, make_dirs, add_base, add_to, in_dir,
  by_path, canonicalize,
}

-- The root is a directory, and a path fits a buffer.
pub record Sound {S : Type 0} (T : Tree S) : Type 0 where
  pub root : (s : S) → (p : Text) × (T.realpath data_root s ≡ found p)
  pub short : (n p : Text) (s : S) → T.realpath n s ≡ found p → length p < path_max

-- A directory that mkdir has made, or has said to be there, which realpath does not find then: a link to nowhere, or
-- one that has been taken away meanwhile.
abbrev pub Broken : {S : Type 0} → Tree S → Type 0
Broken {S} T =
    (n : Text) × (s : S) × ((T.mkdir n s).0 ≡ true)
    × ((p : Text) → T.realpath n (T.mkdir n s).1 ≢ found p)

-- A path below the root, which fits a buffer.
pub record Confined (p : Text) : Type 0 where
  pub below : starts_with data_root p ≡ true
  pub short : length p < path_max

abbrev pub ConfinedIf : Option Text → Type 0
ConfinedIf none = Unit
ConfinedIf (some p) = Confined p

-- The rest after a slash is shorter, and ends as the whole does.
abbrev Shorter : Text → Option (Text × Text) → Type 0
Shorter n none = Unit
Shorter n (some (a, rest)) =
    (length rest < length n)
    × (ends_with_slash n ≡ false → (ends_with_slash rest ≡ false) × (0 < length rest))

prepend-Shorter :
    (c d : ℕ) (n : Text) (x : Option (Text × Text))
    → Shorter (d ∷ n) x
    → Shorter (c ∷ d ∷ n) (prepend c x)
unfolding ends_with_slash
prepend-Shorter c d n none h = tt
prepend-Shorter c d n (some (a, rest)) (lt, h) = (omega arith, h)

strchr-Shorter : (n : Text) → Shorter n (strchr n)
unfolding strchr ends_with_slash
strchr-Shorter [] = tt
strchr-Shorter (c ∷ []) = elim (Bool-cases (c == slash)) [
  | inl e ↦ rw e (omega arith, λ q. absurd (cc))
  | inr e ↦ rw e tt
]
strchr-Shorter (c ∷ d ∷ n) = elim (Bool-cases (c == slash)) [
  | inl e ↦ rw e (omega arith, λ q. (q, omega arith))
  | inr e ↦ rw e (prepend-Shorter c d n (strchr (d ∷ n)) (strchr-Shorter (d ∷ n)))
]

length-take-le : (k : ℕ) (n : Text) → length (take k n) ≤ k
length-take-le zero n = omega arith
length-take-le (suc k) [] = omega arith
length-take-le (suc k) (c ∷ n) = omega (arith, length-take-le k n)

module _ {S : Type 0} (T : Tree S) (L : Sound T) where
  -- A directory has a path, unless one is broken.
  abbrev Known : Text → S → Type 0
  Known n s = ((p : Text) × (T.realpath n s ≡ found p)) ⊎ Broken T

  made-Known : (n : Text) (s : S) → (T.mkdir n s).0 ≡ true → Known n (T.mkdir n s).1
  made-Known n s h = by_answer (T.realpath n (T.mkdir n s).1) refl
    where
      by_answer : (x : Resolved) → T.realpath n (T.mkdir n s).1 ≡ x → Known n (T.mkdir n s).1
      by_answer (found p) e = inl (p, e)
      by_answer missing e = inr (n, s, h, λ p q. let z = sym e ∙ q in cc)
      by_answer refused e = inr (n, s, h, λ p q. let z = sym e ∙ q in cc)

  -- The directory part is known, and there is a last segment.
  abbrev Parts : Option (Text × Text) × S → Type 0
  Parts (none, s) = Unit
  Parts (some (buf, base), s) = Known buf s × (0 < length base)

  made-Parts :
      (again : S → Outcome (Option (Text × Text) × S)) (x : Bool × S) (n : Text)
      → (x.0 ≡ true → Known n x.1)
      → (Known n x.1 → Settles (Broken T) Parts (again x.1))
      → Settles (Broken T) Parts (if x.0 then again x.1 else ok (none, x.1))
  made-Parts again (true, s1) n h k = k (h refl)
  made-Parts again (false, s1) n h k = tt

  segment-Parts :
      (again : Text → Text → S → Outcome (Option (Text × Text) × S)) (buf cur : Text)
      (x : Option (Text × Text)) (s : S)
      → Known buf s
      → length buf < path_max
      → 0 < length cur
      → ends_with_slash cur ≡ false
      → Shorter cur x
      → ((b rest : Text) (t : S)
          → Known b t
          → length rest < length cur
          → length b < path_max
          → 0 < length rest
          → ends_with_slash rest ≡ false
          → Settles (Broken T) Parts (again b rest t))
      → Settles (Broken T) Parts (next_segment T again buf cur x s)
  unfolding next_segment
  segment-Parts again buf cur none s r b c e h k = (r, c)
  segment-Parts again buf cur (some (a, rest)) s r b c e (lt, h) k =
      let (e', c') = h e in
      let buf' = buf ++ (a ++ slash ∷ []) in
      Settles-if (Broken T) Parts (is_empty a) _ _ (λ _. k buf rest s r lt b c' e')
        (λ _. Settles-check (Broken T) Parts (ltb (length buf) path_max) _ (ground arith) (
          Settles-if (Broken T) Parts (leb path_max (length buf + (length a + 1))) _ _ (λ _. tt)
            (λ fits. made-Parts (again buf' rest) (T.mkdir buf' s) buf' (made-Known buf' s) (λ z.
              k buf' rest (T.mkdir buf' s).1 z lt
                (ground (arith, length-append buf (a ++ slash ∷ []), length-append a (slash ∷ [])))
                c' e'))))

  -- There is fuel for each byte of the rest, and one more.
  make_dirs-Parts :
      (fuel : ℕ) (buf cur : Text) (s : S)
      → Known buf s
      → length cur < fuel
      → length buf < path_max
      → 0 < length cur
      → ends_with_slash cur ≡ false
      → Settles (Broken T) Parts (make_dirs T fuel buf cur s)
  unfolding make_dirs
  make_dirs-Parts zero buf cur s r f b c e = absurd (omega arith)
  make_dirs-Parts (suc fuel) buf cur s r f b c e =
      segment-Parts (make_dirs T fuel) buf cur (strchr cur) s r b c e (strchr-Shorter cur)
        (λ b' rest t z lt w c' e'. make_dirs-Parts fuel b' rest t z (omega (arith, lt)) w c' e')

  short_printed : (n : Text) → length (printed n) < path_max
  short_printed n = omega (arith, length-take-le (path_max - 1) n)

  add_base-Confined : (dir base : Text) → ConfinedIf (add_base T dir base)
  unfolding add_base
  add_base-Confined dir base = elim (Bool-cases (leb path_max (length base + length dir))) [
    | inl e ↦ rw e tt
    | inr e ↦
        let q = printed (dir ++ slash ∷ base) in
        elim (Bool-cases (starts_with data_root q)) [
          | inl r ↦ rw (e, r) (record { below = r; short = short_printed (dir ++ slash ∷ base) })
          | inr r ↦ rw (e, r) tt
        ]
  ]

  in_dir-Confined :
      (x : Option (Text × Text) × S)
      → Parts x
      → Settles (Broken T) (λ (y : Option Text × S). ConfinedIf y.0) (in_dir T x.0 x.1)
  unfolding in_dir add_to
  in_dir-Confined (none, s) h = tt
  in_dir-Confined (some (buf, base), s) (k, b) = by_answer (T.realpath buf s) refl
    where
      lost : (x : Resolved) → T.realpath buf s ≡ x → ((p : Text) → x ≢ found p) → Broken T
      lost x e f = elim k [ inl (p, q) ↦ absurd (f p (sym e ∙ q)) | inr d ↦ d ]

      by_answer :
          (x : Resolved)
          → T.realpath buf s ≡ x
          → Settles (Broken T) (λ (y : Option Text × S). ConfinedIf y.0) (add_to T base x s)
      by_answer (found p) e =
          Settles-check (Broken T) (λ (y : Option Text × S). ConfinedIf y.0) (ltb 0 (length base)) _
            (ground arith) (add_base-Confined p base)
      by_answer missing e = lost missing e (λ p q. cc)
      by_answer refused e = lost refused e (λ p q. cc)

  found-Confined :
      (n p : Text) (s : S)
      → T.realpath n s ≡ found p
      → ConfinedIf (if starts_with data_root p then some p else none)
  found-Confined n p s r = elim (Bool-cases (starts_with data_root p)) [
    | inl e ↦ rw e (record { below = e; short = L.short n p s r })
    | inr e ↦ rw e tt
  ]

  by_path-Confined :
      (n : Text) (must : Bool) (x : Resolved) (s : S)
      → T.realpath (printed (data_root ++ n)) s ≡ x
      → 0 < length n
      → ends_with_slash n ≡ false
      → Settles (Broken T) (λ (y : Option Text × S). ConfinedIf y.0) (by_path T n must x s)
  unfolding by_path
  by_path-Confined n must (found p) s r c e = found-Confined (printed (data_root ++ n)) p s r
  by_path-Confined n must missing s r c e =
      Settles-if (Broken T) (λ (y : Option Text × S). ConfinedIf y.0) must _ _ (λ _. tt)
        (λ _.
          let (p, q) = L.root s in
          Settles-bind (Broken T) Parts (λ (y : Option Text × S). ConfinedIf y.0)
            (make_dirs T (length n + 1) data_root n s) _
            (make_dirs-Parts (length n + 1) data_root n s (inl (p, q)) (omega arith) (omega arith) c
              e)
            (λ x h. in_dir-Confined x h))
  by_path-Confined n must refused s r c e = tt

  -- `s_canonicalize_path` ends, with fuel for each byte of the name, and fails an assertion only where realpath does
  -- not find a directory that mkdir has made or has said to be there; a path that it returns begins with
  -- DATAROOT and fits a buffer of PATH_MAX bytes. It is taken for granted that the root is a directory and
  -- that realpath gives no path longer than such a buffer.
  pub canonicalize-Confined :
      (n : Text) (must : Bool) (s : S)
      → Settles (Broken T) (λ (y : Option Text × S). ConfinedIf y.0) (canonicalize T n must s)
  unfolding canonicalize
  canonicalize-Confined n must s =
      Settles-if (Broken T) (λ (y : Option Text × S). ConfinedIf y.0)
        (length n == 0 || ends_with_slash n) _ _ (λ _. tt)
        (λ e.
          by_path-Confined n must (T.realpath (printed (data_root ++ n)) s) s refl (ground arith)
            (ground arith))
