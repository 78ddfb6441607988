-- ===== src/Convert/Init/Groups.antt =====
-- How many ids `s_get_grp` and `s_crt_grp` leave open.
use tes_0mq.Base.{
  ℕ, ◌<◌, ◌≡◌, refl, ◌⊎◌, inl, inr, Bool, true, false, ltb, if◌then◌else◌, arith, Returns,
  Returns-bind, Returns-check, Returns-if, Returns-mono, Option, none, some, length,
}
use tes_0mq.Convert.Calls.{
  Name, Hid, Calls, View, More, Looks, Opened, Created, Copied, Deleted, Lawful,
}
use tes_0mq.Convert.Balance.{More-refl, More-then, More-still, More-Closed}
use tes_0mq.Convert.Groups.{get_known, get_grp, absent, relink, replace, crt_known, crt_grp}
use tes_0mq.Convert.Groups.Finds.{Got, get_grp-Got, absent-Looks}

-- A backup that may be given to `s_crt_grp`.
abbrev pub Backup : Hid → Name → Type 0
Backup none n = Unit
Backup (some b) n = (0 < b) × (0 < length n)

module _ {S : Type 0} (C : Calls S) (V : View S) (L : Lawful C V) where
  -- An id that is opened, or nothing.
  abbrev pub OneMore : S → Hid × S → Type 0
  OneMore s (none, s') = More V 0 s s'
  OneMore s (some h, s') = More V 1 s s' × (0 < h)

  abbrev pub AtMostOne : S → Hid × S → Type 0
  AtMostOne s (none, s') = More V 0 s s'
  AtMostOne s (some h, s') = ((h ≡ 0) × More V 0 s s') ⊎ ((0 < h) × More V 1 s s')

  Opened-one :
      (lid : ℕ) (n : Name) (s s1 : S) (x : Hid × S)
      → Looks V s s1
      → Opened V lid n s1 x
      → OneMore s x
  Opened-one lid n s s1 (none, s2) a o = More-still V s s1 s2 a.more o.more
  Opened-one lid n s s1 (some h, s2) a (m, _, p, _) = (More-then V s s1 s2 a.more m, p)

  Created-one :
      (lid : ℕ) (n : Name) (s s1 : S) (x : Hid × S)
      → More V 0 s s1
      → Created V lid n s1 x
      → OneMore s x
  Created-one lid n s s1 (none, s2) a o = More-still V s s1 s2 a o.more
  Created-one lid n s s1 (some h, s2) a (m, _, p, _, _, _) = (More-then V s s1 s2 a m, p)

  known_one :
      (lid : ℕ) (n : Name) (s : S) (x : Option Bool × S)
      → Looks V s x.1
      → OneMore s (get_known C lid n true x)
  unfolding get_known
  known_one lid n s (none, s1) a = a.more
  known_one lid n s (some true, s1) a =
      Opened-one lid n s s1 (C.gopen lid n s1) a (L.gopen lid n s1)
  known_one lid n s (some false, s1) a =
      Created-one lid n s s1 (C.gcreate lid n s1) a.more (L.gcreate lid n s1)

  pub get_grp-OneMore :
      (lid : ℕ) (n : Name) (s : S) → 0 < lid → Returns (OneMore s) (get_grp C lid n true s)
  unfolding get_grp
  get_grp-OneMore lid n s h =
      Returns-check (OneMore s) (ltb 0 lid) _ (ground arith)
        (known_one lid n s (C.lexists lid n s) (L.lexists_looks lid n s))

  one_at_most : (s : S) (x : Hid × S) → OneMore s x → AtMostOne s x
  one_at_most s (none, s') m = m
  one_at_most s (some h, s') (m, p) = inr (p, m)

  copied-More :
      (lid : ℕ) (n : Name) (b : ℕ) (n' : Name) (s s1 : S) (fresh : Bool)
      → More V 0 s s1
      → More V 0 s (if fresh then C.lcopy lid n b n' s1 else (false, s1)).1
  copied-More lid n b n' s s1 true m = by_copy (C.lcopy lid n b n' s1) (L.lcopy lid n b n' s1)
    where
      by_copy : (x : Bool × S) → Copied V lid n b n' s1 x → More V 0 s x.1
      by_copy (false, s2) c = More-still V s s1 s2 m c.more
      by_copy (true, s2) (c, _, _) = More-still V s s1 s2 m c
  copied-More lid n b n' s s1 false m = m

  deleted-More :
      (lid : ℕ) (n : Name) (s s1 : S) (b : Bool)
      → More V 0 s s1
      → More V 0 s (if b then C.ldelete lid n s1 else (false, s1)).1
  deleted-More lid n s s1 true m = by_delete (C.ldelete lid n s1) (L.ldelete lid n s1)
    where
      by_delete : (x : Bool × S) → Deleted V lid n s1 x → More V 0 s x.1
      by_delete (false, s2) c = More-still V s s1 s2 m c.more
      by_delete (true, s2) (c, _, _) = More-still V s s1 s2 m c
  deleted-More lid n s s1 false m = m

  relink-More :
      (lid : ℕ) (n : Name) (b : ℕ) (n' : Name) (s : S)
      → 0 < lid
      → 0 < b
      → Returns (λ x. More V 0 s x.1) (relink C lid n b n' s)
  unfolding relink
  relink-More lid n b n' s p p' =
      Returns-bind (λ x. Looks V s x.1) (λ x. More V 0 s x.1) (absent C b n' s) _
        (absent-Looks C V L b n' s p')
        (λ (fresh, s1) l.
          let (c, s2) = if fresh then C.lcopy lid n b n' s1 else (false, s1) in
          let x = if c then C.ldelete lid n s2 else (false, s2) in
          Returns-bind (λ y. Looks V x.1 y.1) (λ y. More V 0 s y.1) (absent C lid n x.1) _
            (absent-Looks C V L lid n x.1 p)
            (λ (g, s4) l'.
              More-still V s x.1 s4
                (deleted-More lid n s s2 c (copied-More lid n b n' s s1 fresh l.more)) l'.more))

  moved_one :
      (lid : ℕ) (n : Name) (s s1 : S) (b : Bool)
      → More V 0 s s1
      → AtMostOne s (if b then C.gcreate lid n s1 else (none, s1))
  moved_one lid n s s1 true m =
      one_at_most s (C.gcreate lid n s1)
        (Created-one lid n s s1 (C.gcreate lid n s1) m (L.gcreate lid n s1))
  moved_one lid n s s1 false m = m

  AtMost-still : (s s1 : S) (x : Hid × S) → More V 0 s s1 → AtMostOne s1 x → AtMostOne s x
  AtMost-still s s1 (none, s2) m a = More-still V s s1 s2 m a
  AtMost-still s s1 (some h, s2) m (inl (z, a)) = inl (z, More-still V s s1 s2 m a)
  AtMost-still s s1 (some h, s2) m (inr (p, a)) = inr (p, More-then V s s1 s2 m a)

  replace-AtMostOne :
      (lid : ℕ) (n : Name) (b : Hid) (n' : Name) (s : S)
      → 0 < lid
      → Backup b n'
      → Returns (AtMostOne s) (replace C lid n b n' s)
  unfolding replace
  replace-AtMostOne lid n none n' s p k = inl (refl, More-refl V s)
  replace-AtMostOne lid n (some b) n' s p (q, k) =
      Returns-if (AtMostOne s) (ltb 0 b) _ _
        (λ _. Returns-check (AtMostOne s) (ltb 0 (length n')) _ (ground arith) (
          Returns-bind (λ x. More V 0 s x.1) (AtMostOne s) (relink C lid n b n' s) _
            (relink-More lid n b n' s p q) (λ (moved, s1) m. moved_one lid n s s1 moved m)))
        (λ _. inl (refl, More-refl V s))

  known-AtMostOne :
      (lid : ℕ) (n : Name) (b : Hid) (n' : Name) (s : S) (x : Hid × S)
      → 0 < lid
      → Backup b n'
      → Got C V L lid n s x
      → Returns (AtMostOne s) (crt_known C lid n b n' x)
  unfolding crt_known
  known-AtMostOne lid n b n' s (none, s1) p k g = g.more
  known-AtMostOne lid n b n' s (some h, s1) p k (inl (l, z, q)) =
      let e : ltb 0 h ≡ false = ground arith in rw e (moved_one lid n s s1 true l.more)
  known-AtMostOne lid n b n' s (some h, s1) p k (inr (m, f, q, _)) =
      let e : ltb 0 h ≡ true = ground arith in
      let s2 = C.gclose h s1 in
      rw e (
        Returns-mono (AtMostOne s2) (AtMostOne s) (replace C lid n b n' s2)
          (replace-AtMostOne lid n b n' s2 p k)
          (λ x a. AtMost-still s s2 x (More-Closed V s s1 s2 m (L.gclose h s1)) a))

  pub crt_grp-AtMostOne :
      (lid : ℕ) (n : Name) (b : Hid) (n' : Name) (s : S)
      → 0 < lid
      → Backup b n'
      → Returns (AtMostOne s) (crt_grp C lid n b n' s)
  unfolding crt_grp
  crt_grp-AtMostOne lid n b n' s p k = Returns-check (AtMostOne s) (ltb 0 lid) _ (ground arith) (
      Returns-bind (Got C V L lid n s) (AtMostOne s) (get_grp C lid n false s) _
        (get_grp-Got C V L lid n s p) (λ x g. known-AtMostOne lid n b n' s x p k g))
