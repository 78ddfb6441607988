-- ===== src/Capture/StatFile/Kept.antt =====
-- What `s_stats_write` keeps in the file and `s_stats_read` reads from it.
use tes_0mq.Base.{
  take-all, ℕ, ◌+◌, ◌≡◌, ◌≢◌, refl, ◌∙◌, ap, sym, Bool, true, false, ◌==◌, if◌then◌else◌, arith,
  Returns, Returns-check, Returns-mono, Option, none, some, List, [], ◌++◌, length, take, drop,
}
use tes_0mq.Capture.{req_ok}
use tes_0mq.Capture.Request.{req_efail}
use tes_0mq.Capture.Paths.{Text}
use tes_0mq.Capture.StatFile.{
  req_efin, stat_len, Disk, StatJob, stats_bytes, overwritten, is_closed, read_open, stats_read,
  write_open, stats_write,
}
use tes_0mq.Capture.StatFile.Bytes.{IsWords, length-stats_bytes, overwritten-stats_bytes}

-- What is documented of the calls: a descriptor has a file and an offset; O_EXCL opens no file that is there and
-- makes an empty one; a read of all that is asked for gives the bytes at the offset; a write at the end adds
-- what it says it has written; and nothing else changes.
pub record Lawful {S : Type 0} (D : Disk S) : Type 0 where
  pub contents : Text → S → Option (List ℕ)
  pub place : ℕ → S → Option (Text × ℕ)
  pub fds : S → ℕ
  pub reading :
      (n : Text) (s : S) (fd : ℕ)
      → (D.open_read n s).0 ≡ some fd
      → (place fd (D.open_read n s).1 ≡ some (n, 0)) × (fds (D.open_read n s).1 ≡ fds s + 1)
  pub not_reading :
      (n : Text) (s : S) → (D.open_read n s).0 ≡ none → fds (D.open_read n s).1 ≡ fds s
  pub reading_same : (n m : Text) (s : S) → contents m (D.open_read n s).1 ≡ contents m s
  pub making :
      (n : Text) (s : S) (fd : ℕ)
      → (D.open_new n s).0 ≡ some fd
      → ((place fd (D.open_new n s).1 ≡ some (n, 0)) × (fds (D.open_new n s).1 ≡ fds s + 1))
        × ((contents n s ≡ none) × (contents n (D.open_new n s).1 ≡ some []))
  pub not_making :
      (n : Text) (s : S)
      → (D.open_new n s).0 ≡ none
      → (fds (D.open_new n s).1 ≡ fds s) × (contents n (D.open_new n s).1 ≡ contents n s)
  pub making_same : (n m : Text) (s : S) → m ≢ n → contents m (D.open_new n s).1 ≡ contents m s
  pub read_at :
      (fd k o : ℕ) (n : Text) (bs : List ℕ) (s : S)
      → place fd s ≡ some (n, o)
      → contents n s ≡ some bs
      → length (D.read fd k s).0 ≡ k
      → (D.read fd k s).0 ≡ take k (drop o bs)
  pub read_fds : (fd k : ℕ) (s : S) → fds (D.read fd k s).1 ≡ fds s
  pub read_same : (fd k : ℕ) (m : Text) (s : S) → contents m (D.read fd k s).1 ≡ contents m s
  pub read_place :
      (fd k o : ℕ) (n : Text) (s : S)
      → place fd s ≡ some (n, o)
      → place fd (D.read fd k s).1 ≡ some (n, o + length (D.read fd k s).0)
  pub write_end :
      (fd : ℕ) (xs bs : List ℕ) (n : Text) (s : S)
      → place fd s ≡ some (n, length bs)
      → contents n s ≡ some bs
      → contents n (D.write fd xs s).1 ≡ some (bs ++ take (D.write fd xs s).0 xs)
  pub write_fds : (fd : ℕ) (xs : List ℕ) (s : S) → fds (D.write fd xs s).1 ≡ fds s
  pub write_same :
      (fd o : ℕ) (xs : List ℕ) (n m : Text) (s : S)
      → place fd s ≡ some (n, o)
      → m ≢ n
      → contents m (D.write fd xs s).1 ≡ contents m s
  pub write_place :
      (fd o : ℕ) (xs : List ℕ) (n : Text) (s : S)
      → place fd s ≡ some (n, o)
      → place fd (D.write fd xs s).1 ≡ some (n, o + (D.write fd xs s).0)
  pub closing :
      (fd o : ℕ) (n : Text) (s : S) → place fd s ≡ some (n, o) → fds (D.close fd s) + 1 ≡ fds s
  pub closing_same : (fd : ℕ) (m : Text) (s : S) → contents m (D.close fd s) ≡ contents m s

module _ {S : Type 0} (D : Disk S) (L : Lawful D) where
  -- Whether all of the file is written or read.
  abbrev pub writes_whole : List ℕ → Option ℕ × S → Bool
  writes_whole bs (none, s) = false
  writes_whole bs (some fd, s) = (D.write fd bs s).0 == stat_len

  abbrev pub reads_whole : Option ℕ × S → Bool
  reads_whole (none, s) = false
  reads_whole (some fd, s) = length (D.read fd stat_len s).0 == stat_len

  -- After `s_stats_write` the counters and the other files are as before, no descriptor is left open, a file that was
  -- there is kept, and the counters are in the file where all is written.
  pub record Written (n : Text) (x : StatJob) (s : S) (y : ℕ × StatJob × S) : Type 0 where
    pub status : y.0 ≡ (if writes_whole (stats_bytes x) (D.open_new n s) then req_ok else req_efin)
    pub job : y.1 ≡ x
    pub fds : L.fds y.2 ≡ L.fds s
    pub others : (m : Text) → m ≢ n → L.contents m y.2 ≡ L.contents m s
    pub kept :
        (bs : List ℕ) → L.contents n s ≡ some bs → (y.0 ≡ req_efin) × (L.contents n y.2 ≡ some bs)
    pub stored : y.0 ≡ req_ok → L.contents n y.2 ≡ some (stats_bytes x)

  -- After `s_stats_read` the files are as before, no descriptor is left open, and what is read whole is what
  -- the file holds.
  pub record Read (n : Text) (s : S) (y : ℕ × StatJob × S) : Type 0 where
    pub status : y.0 ≡ (if reads_whole (D.open_read n s) then req_ok else req_efail)
    pub closed : is_closed y.1.statfd ≡ true
    pub fds : L.fds y.2 ≡ L.fds s
    pub files : (m : Text) → L.contents m y.2 ≡ L.contents m s
    pub same :
        (x : StatJob)
        → IsWords x
        → L.contents n s ≡ some (stats_bytes x)
        → y.0 ≡ req_ok
        → (y.1.st ≡ x.st) × (y.1.errors ≡ x.errors)

  write_open-Written :
      (n : Text) (x : StatJob) (s : S) (y : Option ℕ × S)
      → D.open_new n s ≡ y
      → Written n x s (write_open D x y)
  unfolding write_open
  write_open-Written n x s (none, s1) e =
      let z : (D.open_new n s).0 ≡ none = ap (λ (p : Option ℕ × S). p.0) e in
      let q : (D.open_new n s).1 ≡ s1 = ap (λ (p : Option ℕ × S). p.1) e in
      let same = L.not_making n s z in
      record {
        status = sym (ap (λ p. if writes_whole (stats_bytes x) p then req_ok else req_efin) e);
        job = refl;
        fds = sym (ap L.fds q) ∙ same.0;
        others = λ m d. sym (ap (L.contents m) q) ∙ L.making_same n m s d;
        kept = λ bs h. (refl, sym (ap (L.contents n) q) ∙ (same.1 ∙ h));
        stored = λ h. absurd (omega (arith, h));
      }
  write_open-Written n x s (some fd, s1) e =
      let z : (D.open_new n s).0 ≡ some fd = ap (λ (p : Option ℕ × S). p.0) e in
      let q : (D.open_new n s).1 ≡ s1 = ap (λ (p : Option ℕ × S). p.1) e in
      let new = L.making n s fd z in
      let at : L.place fd s1 ≡ some (n, 0) = sym (ap (L.place fd) q) ∙ new.0.0 in
      let more : L.fds s1 ≡ L.fds s + 1 = sym (ap L.fds q) ∙ new.0.1 in
      let fresh : L.contents n s1 ≡ some [] = sym (ap (L.contents n) q) ∙ new.1.1 in
      let w = D.write fd (stats_bytes x) s1 in
      record {
        status = sym (ap (λ p. if writes_whole (stats_bytes x) p then req_ok else req_efin) e);
        job = refl;
        fds = omega (
          arith,
          more,
          L.write_fds fd (stats_bytes x) s1,
          L.closing fd (0 + w.0) n w.1 (L.write_place fd 0 (stats_bytes x) n s1 at),
        );
        others = λ m d.
            L.closing_same fd m w.1
            ∙ (L.write_same fd 0 (stats_bytes x) n m s1 at d
                ∙ (sym (ap (L.contents m) q) ∙ L.making_same n m s d));
        kept = λ bs h. (let c : some bs ≡ none = sym h ∙ new.1.0 in absurd (cc));
        stored = λ h.
            let k : w.0 ≡ stat_len = ground (arith, h) in
            L.closing_same fd n w.1
            ∙ (L.write_end fd (stats_bytes x) [] n s1 at fresh
                ∙ ap some (take-all w.0 (stats_bytes x) (omega (arith, k, length-stats_bytes x))));
      }

  read_open-Read :
      (n : Text) (x : StatJob) (s : S) (y : Option ℕ × S)
      → is_closed x.statfd ≡ true
      → D.open_read n s ≡ y
      → Read n s (read_open D x y)
  unfolding read_open overwritten
  read_open-Read n x s (none, s1) c e =
      let z : (D.open_read n s).0 ≡ none = ap (λ (p : Option ℕ × S). p.0) e in
      let q : (D.open_read n s).1 ≡ s1 = ap (λ (p : Option ℕ × S). p.1) e in
      record {
        status = sym (ap (λ p. if reads_whole p then req_ok else req_efail) e);
        closed = c;
        fds = sym (ap L.fds q) ∙ L.not_reading n s z;
        files = λ m. sym (ap (L.contents m) q) ∙ L.reading_same n m s;
        same = λ x' w h k. absurd (omega (arith, k));
      }
  read_open-Read n x s (some fd, s1) c e =
      let z : (D.open_read n s).0 ≡ some fd = ap (λ (p : Option ℕ × S). p.0) e in
      let q : (D.open_read n s).1 ≡ s1 = ap (λ (p : Option ℕ × S). p.1) e in
      let new = L.reading n s fd z in
      let at : L.place fd s1 ≡ some (n, 0) = sym (ap (L.place fd) q) ∙ new.0 in
      let more : L.fds s1 ≡ L.fds s + 1 = sym (ap L.fds q) ∙ new.1 in
      let r = D.read fd stat_len s1 in
      record {
        status = sym (ap (λ p. if reads_whole p then req_ok else req_efail) e);
        closed = refl;
        fds = omega (
          arith,
          more,
          L.read_fds fd stat_len s1,
          L.closing fd (0 + length r.0) n r.1 (L.read_place fd stat_len 0 n s1 at),
        );
        files = λ m.
            L.closing_same fd m r.1
            ∙ (L.read_same fd stat_len m s1 ∙ (sym (ap (L.contents m) q) ∙ L.reading_same n m s));
        same = λ x' w h k.
            let long : length r.0 ≡ stat_len = ground (arith, k) in
            let there : L.contents n s1 ≡ some (stats_bytes x') =
              sym (ap (L.contents n) q) ∙ (L.reading_same n n s ∙ h) in
            overwritten-stats_bytes x' x r.0 w (
              L.read_at fd stat_len 0 n (stats_bytes x') s1 at there long
              ∙ take-all stat_len (stats_bytes x') (omega (arith, length-stats_bytes x')));
      }

  stats_read-Read :
      (n : Text) (x : StatJob) (s : S)
      → is_closed x.statfd ≡ true
      → Returns (Read n s) (stats_read D n x s)
  unfolding stats_read
  stats_read-Read n x s c =
      Returns-check (Read n s) (is_closed x.statfd) _ c
        (read_open-Read n x s (D.open_read n s) c refl)

  -- `s_stats_write` fails no assertion, succeeds exactly where the file could be made and all was written, and
  -- leaves the counters, the other files, and a file that was there as they were. `s_stats_read`, at any later
  -- time when the file holds the same, fails no assertion, changes no file, succeeds exactly where all was
  -- read, and then gives back the counters that were written, if that write has succeeded. Neither leaves a
  -- descriptor open. It is taken for granted that no descriptor was open in the two jobs, that the counters
  -- have 64 bits, and what `Lawful` says of the calls.
  pub stats_read-stats_write :
      (n : Text) (x y : StatJob) (s : S)
      → is_closed x.statfd ≡ true
      → is_closed y.statfd ≡ true
      → IsWords x
      → Returns
          (λ (z : ℕ × StatJob × S).
            Written n x s z
            × ((s2 : S)
                → L.contents n s2 ≡ L.contents n z.2
                → Returns
                    (λ (r : ℕ × StatJob × S).
                      Read n s2 r
                      × (z.0 ≡ req_ok → r.0 ≡ req_ok → (r.1.st ≡ x.st) × (r.1.errors ≡ x.errors)))
                    (stats_read D n y s2)))
          (stats_write D n x s)
  unfolding stats_write
  stats_read-stats_write n x y s cx cy w = Returns-check _ (is_closed x.statfd) _ cx (
      let v = write_open-Written n x s (D.open_new n s) refl in
      (
        v,
        λ s2 same.
            Returns-mono (Read n s2) _ _ (stats_read-Read n y s2 cy)
              (λ r h. (h, λ k. h.same x w (same ∙ v.stored k))),
      ))
