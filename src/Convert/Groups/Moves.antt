-- ===== src/Convert/Groups/Moves.antt =====
-- The renaming in `s_crt_grp`: copy the link, delete it, and look whether it is gone.
use tes_0mq.Base.{
  ℕ, ◌<◌, ◌≡◌, refl, ap, ◌∙◌, ◌⊎◌, inl, inr, Bool, true, false, ◌&&◌, if◌then◌else◌, arith, Returns,
  Returns-bind, none, some, false≢true,
}
use tes_0mq.Convert.Calls.{Name, Calls, View, More, SameFiles, Looks, Copied, Deleted, Lawful}
use tes_0mq.Convert.Groups.{absent, relink}
use tes_0mq.Convert.Groups.Finds.{Looks-then, Looks-refl, absent-Looks}

module _ {S : Type 0} (C : Calls S) (V : View S) (L : Lawful C V) where
  -- The places of the group and of its copy, where `old` is the group.
  module _ (lid : ℕ) (n : Name) (bkp : ℕ) (n' : Name) (old : ℕ) (pos : 0 < lid) (pos' : 0 < bkp)
      (apart : V.group bkp ≡ V.group lid → n' ≡ n → ⊥) where
    -- Nothing is changed but these two.
    pub record Elsewhere (s s' : S) : Type 0 where
      pub link :
          (k : ℕ) (m : Name)
          → (k ≡ V.group lid → m ≡ n → ⊥)
          → (k ≡ V.group bkp → m ≡ n' → ⊥)
          → V.link s' k m ≡ V.link s k m
      pub stored :
          (k : ℕ) (m : Name)
          → (k ≡ V.group lid → m ≡ n → ⊥)
          → (k ≡ V.group bkp → m ≡ n' → ⊥)
          → V.stored s' k m ≡ V.stored s k m

    pub Elsewhere-then : (s s' s'' : S) → Elsewhere s s' → Elsewhere s' s'' → Elsewhere s s''
    Elsewhere-then s s' s'' a b = record {
      link = λ k m p q. b.link k m p q ∙ a.link k m p q;
      stored = λ k m p q. b.stored k m p q ∙ a.stored k m p q;
    }

    pub same-Elsewhere : (s s' : S) → SameFiles V s s' → Elsewhere s s'
    same-Elsewhere s s' f = record {
      link = λ k m p q. ap (λ g. g k m) f.link;
      stored = λ k m p q. ap (λ g. g k m) f.stored;
    }

    -- Where the group is after a part of the renaming, which has been done if `b`.
    pub record Safe (s : S) (x : Bool × S) : Type 0 where
      pub more : More V 0 s x.1
      pub here : (V.link x.1 (V.group lid) n ≡ some old) ⊎ (x.0 ≡ true)
      pub there : x.0 ≡ true → V.link x.1 (V.group bkp) n' ≡ some old
      pub elsewhere : Elsewhere s x.1

    -- The renaming: the old name is free then.
    pub record Moved (s : S) (x : Bool × S) : Type 0 where
      pub more : More V 0 s x.1
      pub kept : (V.link x.1 (V.group lid) n ≡ some old) ⊎ (V.link x.1 (V.group bkp) n' ≡ some old)
      pub moved :
          x.0 ≡ true
          → (V.link x.1 (V.group bkp) n' ≡ some old) × (V.link x.1 (V.group lid) n ≡ none)
      pub elsewhere : Elsewhere s x.1

    pub More-zero : (s s' s'' : S) → More V 0 s s' → More V 0 s' s'' → More V 0 s s''
    More-zero s s' s'' a b = record {
      ids = omega (arith, a.ids, b.ids);
      fds = b.fds ∙ a.fds;
      maps = b.maps ∙ a.maps;
      errors = b.errors ∙ a.errors;
    }

    Looks-on : (s s' : S) → V.link s (V.group lid) n ≡ some old → Looks V s s' → Safe s (false, s')
    Looks-on s s' e l = record {
      more = l.more;
      here = inl (ap (λ g. g (V.group lid) n) l.same.link ∙ e);
      there = λ b. absurd (false≢true b);
      elsewhere = same-Elsewhere s s' l.same;
    }

    copied :
        (s s1 : S) (x : Bool × S)
        → V.link s (V.group lid) n ≡ some old
        → Looks V s s1
        → Copied V lid n bkp n' s1 x
        → Safe s x
    copied s s1 (false, s2) e l c = Looks-on s s2 e (Looks-then C V L s s1 s2 l c)
    copied s s1 (true, s2) e l (m, b, c) = record {
      more = More-zero s s1 s2 l.more m;
      here = inr refl;
      there = λ _. c ∙ (ap (λ g. g (V.group lid) n) l.same.link ∙ e);
      elsewhere =
          Elsewhere-then s s1 s2 (same-Elsewhere s s1 l.same)
            (record { link = λ k i p q. b.link k i q; stored = λ k i p q. b.stored k i q });
    }

    kept_by :
        (s : S) (b : Bool) (s2 s3 : S)
        → Safe s (b, s2)
        → Looks V s2 s3
        → (V.link s3 (V.group lid) n ≡ some old) ⊎ (V.link s3 (V.group bkp) n' ≡ some old)
    kept_by s b s2 s3 f l = elim f.here [
      | inl h ↦ inl (ap (λ g. g (V.group lid) n) l.same.link ∙ h)
      | inr h ↦ inr (ap (λ g. g (V.group bkp) n') l.same.link ∙ f.there h)
    ]

    stays : (s : S) (b : Bool) (s2 s3 : S) → Safe s (b, s2) → Looks V s2 s3 → Moved s (false, s3)
    stays s b s2 s3 f l = record {
      more = More-zero s s2 s3 f.more l.more;
      kept = kept_by s b s2 s3 f l;
      moved = λ q. absurd (false≢true q);
      elsewhere = Elsewhere-then s s2 s3 f.elsewhere (same-Elsewhere s2 s3 l.same);
    }

    deleted : (s s2 : S) (x : Bool × S) → Safe s (true, s2) → Deleted V lid n s2 x → Moved s x
    deleted s s2 (false, s3) f d = stays s true s2 s3 f d
    deleted s s2 (true, s3) f (m, b, e) =
        let there = b.link (V.group bkp) n' apart ∙ f.there refl in
        record {
          more = More-zero s s2 s3 f.more m;
          kept = inr there;
          moved = λ _. (there, e);
          elsewhere =
              Elsewhere-then s s2 s3 f.elsewhere
                (record { link = λ k i p q. b.link k i p; stored = λ k i p q. b.stored k i p });
        }

    looked_after :
        (s : S) (b g : Bool) (s3 s4 : S) → Moved s (b, s3) → Looks V s3 s4 → Moved s (b && g, s4)
    looked_after s b g s3 s4 v l =
        let at = λ (k : ℕ) (i : Name). ap (λ f. f k i) l.same.link in
        record {
          more = More-zero s s3 s4 v.more l.more;
          kept = elim v.kept [
            | inl h ↦ inl (at (V.group lid) n ∙ h)
            | inr h ↦ inr (at (V.group bkp) n' ∙ h)
          ];
          moved = λ q.
              let (x, y) = v.moved (ground arith) in
              (at (V.group bkp) n' ∙ x, at (V.group lid) n ∙ y);
          elsewhere = Elsewhere-then s s3 s4 v.elsewhere (same-Elsewhere s3 s4 l.same);
        }

    if_copied :
        (s s1 : S) (fresh : Bool)
        → V.link s (V.group lid) n ≡ some old
        → Looks V s s1
        → Safe s (if fresh then C.lcopy lid n bkp n' s1 else (false, s1))
    if_copied s s1 true e l = copied s s1 (C.lcopy lid n bkp n' s1) e l (L.lcopy lid n bkp n' s1)
    if_copied s s1 false e l = Looks-on s s1 e l

    if_deleted :
        (s s2 : S) (b : Bool)
        → Safe s (b, s2)
        → Moved s (if b then C.ldelete lid n s2 else (false, s2))
    if_deleted s s2 true f = deleted s s2 (C.ldelete lid n s2) f (L.ldelete lid n s2)
    if_deleted s s2 false f = stays s false s2 s2 f (Looks-refl C V L s2)

    pub relink-Moved :
        (s : S) → V.link s (V.group lid) n ≡ some old → Returns (Moved s) (relink C lid n bkp n' s)
    unfolding relink
    relink-Moved s e =
        Returns-bind (λ x. Looks V s x.1) (Moved s) (absent C bkp n' s) _
          (absent-Looks C V L bkp n' s pos')
          (λ (fresh, s1) l.
            let (c, s2) = if fresh then C.lcopy lid n bkp n' s1 else (false, s1) in
            let x = if c then C.ldelete lid n s2 else (false, s2) in
            Returns-bind (λ y. Looks V x.1 y.1) (Moved s) (absent C lid n x.1) _
              (absent-Looks C V L lid n x.1 pos)
              (λ (g, s4) l'.
                looked_after s x.0 g x.1 s4 (if_deleted s s2 c (if_copied s s1 fresh e l)) l'))
