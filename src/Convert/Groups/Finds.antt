-- ===== src/Convert/Groups/Finds.antt =====
-- `s_get_grp` where it makes nothing: what it finds, and how many ids it leaves open.
use tes_0mq.Base.{
  ℕ, ◌<◌, ◌≡◌, refl, sym, ap, ◌∙◌, ◌⊎◌, inl, inr, Bool, true, false, ltb, arith, Returns,
  Returns-bind, Returns-check, Option, none, some,
}
use tes_0mq.Convert.Calls.{Name, Hid, Calls, View, More, SameFiles, Looks, Opened, Closed, Lawful}
use tes_0mq.Convert.Groups.{get_known, get_grp, looked, absent}

module _ {S : Type 0} (C : Calls S) (V : View S) (L : Lawful C V) where
  pub Looks-then : (s s' s'' : S) → Looks V s s' → Looks V s' s'' → Looks V s s''
  Looks-then s s' s'' a b = record {
    more = record {
      ids = omega (arith, a.more.ids, b.more.ids);
      fds = b.more.fds ∙ a.more.fds;
      maps = b.more.maps ∙ a.more.maps;
      errors = b.more.errors ∙ a.more.errors;
    };
    same = record { link = b.same.link ∙ a.same.link; stored = b.same.stored ∙ a.same.stored };
  }

  pub Looks-refl : (s : S) → Looks V s s
  Looks-refl s = record {
    more = record { ids = omega arith; fds = refl; maps = refl; errors = refl };
    same = record { link = refl; stored = refl };
  }

  -- A group that is opened and closed again.
  pub Opened-Closed :
      (s s' s'' : S) → More V 1 s s' → SameFiles V s s' → Closed V s' s'' → Looks V s s''
  Opened-Closed s s' s'' m f c = record {
    more = record {
      ids = omega (arith, m.ids, c.ids (omega (arith, m.ids)));
      fds = c.fds ∙ m.fds;
      maps = c.maps ∙ m.maps;
      errors = c.errors ∙ m.errors;
    };
    same = record { link = c.same.link ∙ f.link; stored = c.same.stored ∙ f.stored };
  }

  -- What `s_get_grp` finds where it makes nothing.
  abbrev pub Got : ℕ → Name → S → Hid × S → Type 0
  Got lid n s (none, s') = Looks V s s'
  Got lid n s (some h, s') =
      (Looks V s s' × (h ≡ 0) × (V.link s (V.group lid) n ≡ none))
      ⊎ (More V 1 s s' × SameFiles V s s' × (0 < h) × (V.link s (V.group lid) n ≡ some (V.group h)))

  Got-open :
      (lid : ℕ) (n : Name) (s s1 : S) (x : Hid × S)
      → Looks V s s1
      → Opened V lid n s1 x
      → Got lid n s x
  Got-open lid n s s1 (none, s') a b = Looks-then s s1 s' a b
  Got-open lid n s s1 (some h, s') a (m, f, p, l) = inr (
    record {
      ids = omega (arith, a.more.ids, m.ids);
      fds = m.fds ∙ a.more.fds;
      maps = m.maps ∙ a.more.maps;
      errors = m.errors ∙ a.more.errors;
    },
    record { link = f.link ∙ a.same.link; stored = f.stored ∙ a.same.stored },
    p,
    ap (λ f. f (V.group lid) n) (sym a.same.link) ∙ l,
  )

  Got-known :
      (lid : ℕ) (n : Name) (s : S) (x : Option Bool × S)
      → Looks V s x.1
      → (x.0 ≡ some false → V.link s (V.group lid) n ≡ none)
      → Got lid n s (get_known C lid n false x)
  unfolding get_known
  Got-known lid n s (none, s1) a f = a
  Got-known lid n s (some true, s1) a f =
      Got-open lid n s s1 (C.gopen lid n s1) a (L.gopen lid n s1)
  Got-known lid n s (some false, s1) a f = inl (a, refl, f refl)

  pub get_grp-Got :
      (lid : ℕ) (n : Name) (s : S) → 0 < lid → Returns (Got lid n s) (get_grp C lid n false s)
  unfolding get_grp
  get_grp-Got lid n s h =
      Returns-check (Got lid n s) (ltb 0 lid) _ (ground arith)
        (Got-known lid n s (C.lexists lid n s) (L.lexists_looks lid n s) (L.lexists_false lid n s))

  pub looked-Looks :
      (lid : ℕ) (n : Name) (s : S) (x : Hid × S) → Got lid n s x → Looks V s (looked C x).1
  unfolding looked
  looked-Looks lid n s (none, s') g = g
  looked-Looks lid n s (some h, s') (inl (l, e, _)) = rw e l
  looked-Looks lid n s (some h, s') (inr (m, f, p, l)) =
      let e : ltb 0 h ≡ true = ground arith in
      rw e (Opened-Closed s s' (C.gclose h s') m f (L.gclose h s'))

  pub absent-Looks :
      (lid : ℕ) (n : Name) (s : S) → 0 < lid → Returns (λ x. Looks V s x.1) (absent C lid n s)
  unfolding absent
  absent-Looks lid n s h =
      Returns-bind (Got lid n s) (λ x. Looks V s x.1) (get_grp C lid n false s) _
        (get_grp-Got lid n s h) (λ x g. looked-Looks lid n s x g)
