-- ===== src/Convert/Groups/Relinks.antt =====
-- What `s_crt_grp` does to the group that was there before.
use tes_0mq.Base.{
  ℕ, ◌<◌, ◌≡◌, ◌≢◌, refl, ap, ◌∙◌, ◌⊎◌, inl, inr, Bool, true, false, ltb, if◌then◌else◌, arith,
  Returns, Returns-bind, Returns-check, Returns-mono, Returns-if, none, some, length,
}
use tes_0mq.Convert.Calls.{Name, Hid, Calls, View, More, Looks, Created, Lawful}
use tes_0mq.Convert.Groups.{get_grp, relink, replace, crt_known, crt_grp}
use tes_0mq.Convert.Groups.Finds.{Got, get_grp-Got, Opened-Closed}
use tes_0mq.Convert.Groups.Moves.{
  Elsewhere, Elsewhere-then, same-Elsewhere, More-zero, Moved, relink-Moved,
}

module _ {S : Type 0} (C : Calls S) (V : View S) (L : Lawful C V) where
  -- The places of the group and of its copy, where `old` is the group.
  module _ (lid : ℕ) (n : Name) (bkp : ℕ) (n' : Name) (old : ℕ) (pos : 0 < lid) (pos' : 0 < bkp)
      (apart : V.group bkp ≡ V.group lid → n' ≡ n → ⊥) where
    -- What becomes of the group and of the ids.
    pub record Relinked (s : S) (x : Hid × S) : Type 0 where
      pub some_id : x.0 ≢ some 0
      pub kept : (V.link x.1 (V.group lid) n ≡ some old) ⊎ (V.link x.1 (V.group bkp) n' ≡ some old)
      pub new :
          (h : ℕ)
          → x.0 ≡ some h
          → (V.link x.1 (V.group bkp) n' ≡ some old)
            × (V.link x.1 (V.group lid) n ≡ some (V.group h))
            × ((m : Name) → V.link x.1 (V.group h) m ≡ none)
            × More V 1 s x.1
      pub none_new : x.0 ≡ none → More V 0 s x.1
      pub elsewhere : Elsewhere C V L lid n bkp n' old pos pos' apart s x.1

    refused :
        (s s' : S) (b : Bool)
        → Moved C V L lid n bkp n' old pos pos' apart s (b, s')
        → Relinked s (none, s')
    refused s s' b v = record {
      some_id = λ e. absurd (cc);
      kept = v.kept;
      new = λ h e. absurd (cc);
      none_new = λ _. v.more;
      elsewhere = v.elsewhere;
    }

    created :
        (s s1 : S) (x : Hid × S)
        → Moved C V L lid n bkp n' old pos pos' apart s (true, s1)
        → Created V lid n s1 x
        → Relinked s x
    created s s1 (none, s2) v c =
        let at = λ (k : ℕ) (i : Name). ap (λ f. f k i) c.same.link in
        record {
          some_id = λ e. absurd (cc);
          kept = inr (at (V.group bkp) n' ∙ (v.moved refl).0);
          new = λ h e. absurd (cc);
          none_new = λ _. More-zero C V L lid n bkp n' old pos pos' apart s s1 s2 v.more c.more;
          elsewhere =
              Elsewhere-then C V L lid n bkp n' old pos pos' apart s s1 s2 v.elsewhere
                (same-Elsewhere C V L lid n bkp n' old pos pos' apart s1 s2 c.same);
        }
    created s s1 (some h, s2) v (m, b, p, _, l, f) =
        let there = b.link (V.group bkp) n' apart ∙ (v.moved refl).0 in
        record {
          some_id = λ e. absurd (ground arith);
          kept = inr there;
          new = λ k e.
              let q : k ≡ h = cc in
              rw q (
                there,
                l,
                f,
                record {
                  ids = omega (arith, v.more.ids, m.ids);
                  fds = m.fds ∙ v.more.fds;
                  maps = m.maps ∙ v.more.maps;
                  errors = m.errors ∙ v.more.errors;
                },
              );
          none_new = λ e. absurd (cc);
          elsewhere =
              Elsewhere-then C V L lid n bkp n' old pos pos' apart s s1 s2 v.elsewhere
                (record { link = λ k i p q. b.link k i p; stored = λ k i p q. b.stored k i p });
        }

    created_if :
        (s s1 : S) (b : Bool)
        → Moved C V L lid n bkp n' old pos pos' apart s (b, s1)
        → Relinked s (if b then C.gcreate lid n s1 else (none, s1))
    created_if s s1 true v = created s s1 (C.gcreate lid n s1) v (L.gcreate lid n s1)
    created_if s s1 false v = refused s s1 false v

    refused_at :
        (s s' : S) → V.link s (V.group lid) n ≡ some old → Looks V s s' → Relinked s (none, s')
    refused_at s s' e l = record {
      some_id = λ q. absurd (cc);
      kept = inl (ap (λ g. g (V.group lid) n) l.same.link ∙ e);
      new = λ h q. absurd (cc);
      none_new = λ _. l.more;
      elsewhere = same-Elsewhere C V L lid n bkp n' old pos pos' apart s s' l.same;
    }

    looked_before : (s s1 : S) (x : Hid × S) → Looks V s s1 → Relinked s1 x → Relinked s x
    looked_before s s1 x l r = record {
      some_id = r.some_id;
      kept = r.kept;
      new = λ h e.
          let (a, b, c, m) = r.new h e in
          (
            a,
            b,
            c,
            record {
              ids = omega (arith, l.more.ids, m.ids);
              fds = m.fds ∙ l.more.fds;
              maps = m.maps ∙ l.more.maps;
              errors = m.errors ∙ l.more.errors;
            },
          );
      none_new =
          λ e. More-zero C V L lid n bkp n' old pos pos' apart s s1 x.1 l.more (r.none_new e);
      elsewhere =
          Elsewhere-then C V L lid n bkp n' old pos pos' apart s s1 x.1
            (same-Elsewhere C V L lid n bkp n' old pos pos' apart s s1 l.same) r.elsewhere;
    }

    replace-Relinked :
        (s : S)
        → 0 < length n'
        → V.link s (V.group lid) n ≡ some old
        → Returns (Relinked s) (replace C lid n (some bkp) n' s)
    unfolding replace
    replace-Relinked s named e =
        Returns-if (Relinked s) (ltb 0 bkp) _ _
          (λ _. Returns-check (Relinked s) (ltb 0 (length n')) _ (ground arith) (
            Returns-bind (Moved C V L lid n bkp n' old pos pos' apart s) (Relinked s)
              (relink C lid n bkp n' s) _ (relink-Moved C V L lid n bkp n' old pos pos' apart s e)
              (λ (b, s1) v. created_if s s1 b v)))
          (λ q. absurd (ground arith))

    known-Relinked :
        (s : S) (x : Hid × S)
        → 0 < length n'
        → V.link s (V.group lid) n ≡ some old
        → Got C V L lid n s x
        → Returns (Relinked s) (crt_known C lid n (some bkp) n' x)
    unfolding crt_known
    known-Relinked s (none, s1) named e g = refused_at s s1 e g
    known-Relinked s (some h, s1) named e (inl (l, z, q)) = absurd (cc)
    known-Relinked s (some h, s1) named e (inr (m, f, p, q)) =
        let s2 = C.gclose h s1 in
        let l = Opened-Closed C V L s s1 s2 m f (L.gclose h s1) in
        Returns-if (Relinked s) (ltb 0 h) _ _
          (λ _.
            Returns-mono (Relinked s2) (Relinked s) (replace C lid n (some bkp) n' s2)
              (replace-Relinked s2 named (ap (λ g. g (V.group lid) n) l.same.link ∙ e))
              (λ x r. looked_before s s2 x l r))
          (λ q. absurd (ground arith))

    -- Where the group exists and a place for it is given, `s_crt_grp` fails no assertion and loses no data
    -- whatever fails: the group is under its old name or under the new one after it, and no other link and
    -- no dataset outside of these two changes. Where it returns an id, the group is under the new name, and
    -- the id, the only one that stays open, is of an empty group under the old one. It never returns 0.
    pub crt_grp-Relinked :
        (s : S)
        → 0 < length n'
        → V.link s (V.group lid) n ≡ some old
        → Returns (Relinked s) (crt_grp C lid n (some bkp) n' s)
    unfolding crt_grp
    crt_grp-Relinked s named e = Returns-check (Relinked s) (ltb 0 lid) _ (ground arith) (
        Returns-bind (Got C V L lid n s) (Relinked s) (get_grp C lid n false s) _
          (get_grp-Got C V L lid n s pos) (λ x g. known-Relinked s x named e g))
