-- ===== src/Convert/Datasets/Creates.antt =====
-- What `s_create_dset` stores.
use tes_0mq.Base.{
  ℕ, ◌+◌, ◌<◌, ◌≤◌, ◌≡◌, refl, sym, ap, ap₂, subst, ◌∙◌, Bool, true, false, not, arith, Returns,
  Returns-check, Returns-if, Option, none, some, List, [], ◌∷◌, length,
}
use tes_0mq.Base.Int.{ℤ, pos, negsuc, is_neg, is_zero, to_ℕ}
use tes_0mq.Memory.{Memory, read}
use tes_0mq.Capture.{req_ok}
use tes_0mq.Convert.{Desc, req_econv}
use tes_0mq.Convert.Calls.{
  Name, Hid, Calls, View, More, SameFiles, Spaced, DataMade, DataWritten, Lawful,
}
use tes_0mq.Convert.Mapping.Maps.{bytes_of, Usable}
use tes_0mq.Convert.Datasets.{may_create, wrote, write_data, made, spaced, create_dset}

module _ {S : Type 0} (V : View S) where
  -- The dataset of this name in this group holds the bytes of the descriptor.
  abbrev pub Stored : S → ℕ → Desc → Type 0
  Stored s gid d = V.stored s (V.group gid) d.dsetname ≡ some (bytes_of d.buffer d.offset d.len)

  -- A state after writing: as many ids as before, and what was stored is still there.
  pub record Later (s s' : S) : Type 0 where
    pub ids : V.ids s' ≡ V.ids s
    pub fds : V.fds s' ≡ V.fds s
    pub maps : V.maps s' ≡ V.maps s
    pub errors : V.errors s ≤ V.errors s'
    pub stored :
        (k : ℕ) (m : Name) (bs : List ℕ)
        → V.errors s' ≡ V.errors s
        → V.stored s k m ≡ some bs
        → V.stored s' k m ≡ some bs

  -- What `s_create_dset` leaves.
  pub record Wrote (gid : ℕ) (d : Desc) (s : S) (x : ℕ × S) : Type 0 where
    pub later : Later s x.1
    pub good : x.0 ≡ req_ok → Stored x.1 gid d
    pub bad : (x.0 ≡ req_ok → ⊥) → V.errors s < V.errors x.1

Usable-may_create : (b : Option Memory) (o l : ℤ) → Usable b o l → may_create b l ≡ true
Usable-may_create none o l u = rw u
Usable-may_create (some m) o l u = ground arith

empty_of : (b : Option Memory) (o l : ℤ) → Usable b o l → is_zero l ≡ true → bytes_of b o l ≡ []
empty_of none o l u z = refl
empty_of (some m) o (pos a) u z = absurd (ground arith)
empty_of (some m) o (negsuc a) u z = absurd (cc)

no_bytes : (c : List ℕ) (l : ℤ) → length c ≡ to_ℕ l → is_zero l ≡ true → c ≡ []
no_bytes [] l h z = refl
no_bytes (x ∷ c) (pos a) h z = absurd (ground arith)
no_bytes (x ∷ c) (negsuc a) h z = absurd (cc)

module _ {S : Type 0} (C : Calls S) (V : View S) (L : Lawful C V) (gid : ℕ) (d : Desc)
    (u : Usable d.buffer d.offset d.len) where
  -- An error has been reported, and the ids that are left are closed.
  failed :
      (s s' : S)
      → V.ids s' ≡ V.ids s
      → V.fds s' ≡ V.fds s
      → V.maps s' ≡ V.maps s
      → V.errors s < V.errors s'
      → Wrote V gid d s (req_econv, s')
  failed s s' i f m e = record {
    later = record {
      ids = i;
      fds = f;
      maps = m;
      errors = omega arith;
      stored = λ k n bs q h. absurd (omega arith);
    };
    good = λ q. absurd (omega arith);
    bad = λ _. e;
  }

  -- The dataset has been made, with two ids open.
  pub record Begun (s s' : S) : Type 0 where
    pub ids : V.ids s' ≡ V.ids s + 2
    pub fds : V.fds s' ≡ V.fds s
    pub maps : V.maps s' ≡ V.maps s
    pub errors : V.errors s' ≡ V.errors s
    pub old :
        (k : ℕ) (m : Name) (bs : List ℕ) → V.stored s k m ≡ some bs → V.stored s' k m ≡ some bs
    pub fresh : V.stored s (V.group gid) d.dsetname ≡ none

  -- Both ids are closed.
  finished :
      (space dset : ℕ) (s s' : S)
      → Begun s s'
      → Stored V s' gid d
      → Wrote V gid d s (req_ok, C.sclose space (C.dclose dset s'))
  finished space dset s s' b st =
      let a = L.dclose dset s' in
      let c = L.sclose space (C.dclose dset s') in
      let at =
        λ (k : ℕ) (m : Name). ap (λ f. f k m) c.same.stored ∙ ap (λ f. f k m) a.same.stored in
      record {
        later = record {
          ids = omega (
            arith,
            b.ids,
            a.ids (omega (arith, b.ids)),
            c.ids (omega (arith, b.ids, a.ids (omega (arith, b.ids)))),
          );
          fds = c.fds ∙ (a.fds ∙ b.fds);
          maps = c.maps ∙ (a.maps ∙ b.maps);
          errors = omega (arith, c.errors, a.errors, b.errors);
          stored = λ k m bs q h. at k m ∙ b.old k m bs h;
        };
        good = λ _. at (V.group gid) d.dsetname ∙ st;
        bad = λ q. absurd (q refl);
      }

  wrote-Wrote :
      (space dset : ℕ) (bs : List ℕ) (s s' : S) (x : Bool × S)
      → Begun s s'
      → V.dset s' dset ≡ (V.group gid, d.dsetname)
      → bytes_of d.buffer d.offset d.len ≡ bs
      → DataWritten V dset bs s' x
      → Returns (Wrote V gid d s) (wrote C space dset x)
  unfolding wrote
  wrote-Wrote space dset bs s s' (false, s2) b at e w =
      let a = L.dclose dset s2 in
      let c = L.sclose space (C.dclose dset s2) in
      failed s (C.sclose space (C.dclose dset s2))
        (omega (
          arith,
          b.ids,
          w.ids,
          a.ids (omega (arith, b.ids, w.ids)),
          c.ids (omega (arith, b.ids, w.ids, a.ids (omega (arith, b.ids, w.ids)))),
        ))
        (c.fds ∙ (a.fds ∙ (w.fds ∙ b.fds))) (c.maps ∙ (a.maps ∙ (w.maps ∙ b.maps)))
        (omega (arith, c.errors, a.errors, w.errors, b.errors))
  wrote-Wrote space dset bs s s' (true, s2) b at e (m, be, st) =
      let place = V.group gid in
      finished space dset s s2
        (record {
          ids = omega (arith, m.ids, b.ids);
          fds = m.fds ∙ b.fds;
          maps = m.maps ∙ b.maps;
          errors = m.errors ∙ b.errors;
          old = λ k n cs h.
              be.stored k n (λ p q.
                let p' : k ≡ V.group gid = p ∙ ap (λ z. z.0) at in
                let q' : n ≡ d.dsetname = q ∙ ap (λ z. z.1) at in
                let r : V.stored s (V.group gid) d.dsetname ≡ some cs =
                  ap₂ (V.stored s) (sym p') (sym q') ∙ h in
                let z = b.fresh in absurd (cc))
              ∙ b.old k n cs h;
          fresh = b.fresh;
        })
        (ap₂ (V.stored s2) (ap (λ z. z.0) (sym at)) (ap (λ z. z.1) (sym at))
          ∙ (st ∙ ap some (sym e)))

  write_data-Wrote :
      (space dset : ℕ) (s s' : S) (b : Option Memory)
      → d.buffer ≡ b
      → is_zero d.len ≡ false
      → Begun s s'
      → V.dset s' dset ≡ (V.group gid, d.dsetname)
      → Returns (Wrote V gid d s) (write_data C space dset b d s')
  unfolding write_data
  write_data-Wrote space dset s s' none e nz b at =
      let z : d.len ≡ pos 0 = subst (λ y. Usable y d.offset d.len) e u in absurd (ground (arith, z))
  write_data-Wrote space dset s s' (some m) e nz b at =
      let v : Usable (some m) d.offset d.len = subst (λ y. Usable y d.offset d.len) e u in
      let bs = read m (to_ℕ d.offset) (to_ℕ d.len) in
      Returns-check (Wrote V gid d s) (not (is_neg d.offset)) _ (ground (arith, v.2)) (
        wrote-Wrote space dset bs s s' (C.dwrite dset bs s') b at
          (ap (λ y. bytes_of y d.offset d.len) e) (L.dwrite dset bs s'))

  made-Wrote :
      (space : ℕ) (s s1 : S) (x : Hid × S)
      → More V 1 s s1
      → SameFiles V s s1
      → DataMade V gid d.dsetname (to_ℕ d.len) s1 x
      → Returns (Wrote V gid d s) (made C d space x)
  unfolding made
  made-Wrote space s s1 (none, s2) m f r =
      let c = L.sclose space s2 in
      failed s (C.sclose space s2)
        (omega (arith, m.ids, r.ids, c.ids (omega (arith, m.ids, r.ids)))) (c.fds ∙ (r.fds ∙ m.fds))
        (c.maps ∙ (r.maps ∙ m.maps)) (omega (arith, c.errors, r.errors, m.errors))
  made-Wrote space s s1 (some dset, s2) m f (m', be, at, fr, (c, st, len)) =
      let before = λ (k : ℕ) (n : Name). ap (λ g. g k n) f.stored in
      let b : Begun s s2 = record {
        ids = omega (arith, m'.ids, m.ids);
        fds = m'.fds ∙ m.fds;
        maps = m'.maps ∙ m.maps;
        errors = m'.errors ∙ m.errors;
        old = λ k n cs h.
            be.stored k n (λ p q.
              let r : V.stored s1 (V.group gid) d.dsetname ≡ some cs =
                ap₂ (V.stored s1) (sym p) (sym q) ∙ (before k n ∙ h) in
              absurd (cc))
            ∙ (before k n ∙ h);
        fresh = sym (before (V.group gid) d.dsetname) ∙ fr;
      } in
      Returns-if (Wrote V gid d s) (is_zero d.len) _ _
        (λ z.
          finished space dset s s2 b
            (st ∙ ap some (no_bytes c d.len len z ∙ sym (empty_of d.buffer d.offset d.len u z))))
        (λ z. write_data-Wrote space dset s s2 d.buffer refl z b at)

  spaced-Wrote : (s : S) (x : Hid × S) → Spaced V s x → Returns (Wrote V gid d s) (spaced C d gid x)
  unfolding spaced
  spaced-Wrote s (none, s1) r = failed s s1 r.ids r.fds r.maps r.errors
  spaced-Wrote s (some space, s1) (m, f) =
      made-Wrote space s s1 (C.dcreate gid d.dsetname (to_ℕ d.len) s1) m f
        (L.dcreate gid d.dsetname (to_ℕ d.len) s1)

  pub create_dset-Wrote : (s : S) → Returns (Wrote V gid d s) (create_dset C d gid s)
  unfolding create_dset
  create_dset-Wrote s =
      Returns-check (Wrote V gid d s) (may_create d.buffer d.len) _
        (Usable-may_create d.buffer d.offset d.len u)
        (spaced-Wrote s (C.screate (to_ℕ d.len) s) (L.screate (to_ℕ d.len) s))
