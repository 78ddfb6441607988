-- ===== src/Tests/StatFile.antt =====
-- The theorems on the statistics file of src/bin/tesd_task_cap.c on a small disk.
use tes_0mq.Base.{
  take-all, ℕ, zero, suc, ◌+◌, ◌-◌, ◌≡◌, ◌≢◌, refl, ◌∙◌, ap, sym, arith, Returns, Option, none,
  some, List, [], ◌∷◌, ◌++◌, length, take, drop,
}
use tes_0mq.Capture.{req_ok}
use tes_0mq.Capture.Paths.{Text}
use tes_0mq.Capture.StatFile.{Disk, StatJob, stats_read, stats_write}
use tes_0mq.Capture.StatFile.Bytes.{IsWords}
use tes_0mq.Capture.StatFile.Kept.{Lawful, Written, Read, stats_read-stats_write}

-- A disk that can have one file, whose name is the empty text, with the descriptors that are open.
record Small : Type 0 where
  file : Option (List ℕ)
  offset : ℕ
  fds : ℕ

abbrev create : Option (List ℕ) → Small → Option ℕ × Small
create none s = (some 3, record { file = some []; offset = 0; fds = suc s.fds })
create (some bs) s = (none, s)

abbrev look_up : Option (List ℕ) → Small → Option ℕ × Small
look_up none s = (none, s)
look_up (some bs) s = (some 3, record { file = s.file; offset = 0; fds = suc s.fds })

abbrev open_new : Text → Small → Option ℕ × Small
open_new [] s = create s.file s
open_new (c ∷ n) s = (none, s)

abbrev open_read : Text → Small → Option ℕ × Small
open_read [] s = look_up s.file s
open_read (c ∷ n) s = (none, s)

abbrev bytes_at : ℕ → ℕ → Option (List ℕ) → List ℕ
bytes_at k o none = []
bytes_at k o (some bs) = take k (drop o bs)

abbrev added : List ℕ → Option (List ℕ) → Option (List ℕ)
added xs none = none
added xs (some bs) = some (bs ++ xs)

abbrev small_disk : Disk Small
small_disk = record {
  open_read = open_read;
  open_new = open_new;
  read = λ fd k s.
      let bs = bytes_at k s.offset s.file in
      (bs, record { file = s.file; offset = s.offset + length bs; fds = s.fds });
  write = λ fd xs s.
      (length xs, record { file = added xs s.file; offset = s.offset + length xs; fds = s.fds });
  close = λ fd s. record { file = s.file; offset = s.offset; fds = s.fds - 1 };
}

abbrev contents : Text → Small → Option (List ℕ)
contents [] s = s.file
contents (c ∷ n) s = none

abbrev at : ℕ → ℕ → Option (Text × ℕ)
at zero o = none
at (suc k) o = some ([], o)

abbrev moved : ℕ → Option (Text × ℕ) → Option (Text × ℕ)
moved l none = none
moved l (some (n, o)) = some (n, o + l)

at-moved : (k o l : ℕ) → at k (o + l) ≡ moved l (at k o)
at-moved zero o l = refl
at-moved (suc k) o l = refl

abbrev place_of : Option (Text × ℕ) → Text × ℕ
place_of none = ([], 0)
place_of (some p) = p

at_lem : (k o o' : ℕ) (n : Text) → at k o ≡ some (n, o') → ([] ≡ n) × ((o ≡ o') × (k - 1 + 1 ≡ k))
at_lem zero o o' n h = absurd (cc)
at_lem (suc k) o o' n h = (ap (λ p. (place_of p).0) h, (ap (λ p. (place_of p).1) h, omega arith))

create_lem :
    (f : Option (List ℕ)) (s : Small) (fd : ℕ)
    → (create f s).0 ≡ some fd
    → ((at (create f s).1.fds (create f s).1.offset ≡ some ([], 0))
        × ((create f s).1.fds ≡ s.fds + 1))
      × ((f ≡ none) × ((create f s).1.file ≡ some []))
create_lem none s fd h = ((refl, omega arith), (refl, refl))
create_lem (some bs) s fd h = absurd (cc)

create-none : (f : Option (List ℕ)) (s : Small) → (create f s).0 ≡ none → (create f s).1 ≡ s
create-none none s h = absurd (cc)
create-none (some bs) s h = refl

look_up_lem :
    (f : Option (List ℕ)) (s : Small) (fd : ℕ)
    → (look_up f s).0 ≡ some fd
    → (at (look_up f s).1.fds (look_up f s).1.offset ≡ some ([], 0))
      × ((look_up f s).1.fds ≡ s.fds + 1)
look_up_lem none s fd h = absurd (cc)
look_up_lem (some bs) s fd h = (refl, omega arith)

look_up-none : (f : Option (List ℕ)) (s : Small) → (look_up f s).0 ≡ none → (look_up f s).1 ≡ s
look_up-none none s h = refl
look_up-none (some bs) s h = absurd (cc)

look_up-file : (f : Option (List ℕ)) (s : Small) → (look_up f s).1.file ≡ s.file
look_up-file none s = refl
look_up-file (some bs) s = refl

open_new_lem :
    (n : Text) (s : Small) (fd : ℕ)
    → (open_new n s).0 ≡ some fd
    → ((at (open_new n s).1.fds (open_new n s).1.offset ≡ some (n, 0))
        × ((open_new n s).1.fds ≡ s.fds + 1))
      × ((contents n s ≡ none) × (contents n (open_new n s).1 ≡ some []))
open_new_lem [] s fd h = create_lem s.file s fd h
open_new_lem (c ∷ n) s fd h = absurd (cc)

open_new-none : (n : Text) (s : Small) → (open_new n s).0 ≡ none → (open_new n s).1 ≡ s
open_new-none [] s h = create-none s.file s h
open_new-none (c ∷ n) s h = refl

open_new-same : (n m : Text) (s : Small) → m ≢ n → contents m (open_new n s).1 ≡ contents m s
open_new-same [] [] s h = absurd (h refl)
open_new-same [] (c ∷ m) s h = refl
open_new-same (c ∷ n) m s h = refl

open_read_lem :
    (n : Text) (s : Small) (fd : ℕ)
    → (open_read n s).0 ≡ some fd
    → (at (open_read n s).1.fds (open_read n s).1.offset ≡ some (n, 0))
      × ((open_read n s).1.fds ≡ s.fds + 1)
open_read_lem [] s fd h = look_up_lem s.file s fd h
open_read_lem (c ∷ n) s fd h = absurd (cc)

open_read-none : (n : Text) (s : Small) → (open_read n s).0 ≡ none → (open_read n s).1 ≡ s
open_read-none [] s h = look_up-none s.file s h
open_read-none (c ∷ n) s h = refl

open_read-same : (n m : Text) (s : Small) → contents m (open_read n s).1 ≡ contents m s
open_read-same [] [] s = look_up-file s.file s
open_read-same [] (c ∷ m) s = refl
open_read-same (c ∷ n) m s = refl

same_file : (m : Text) (s t : Small) → t.file ≡ s.file → contents m t ≡ contents m s
same_file [] s t h = h
same_file (c ∷ m) s t h = refl

read_lem :
    (n : Text) (s : Small) (k o : ℕ) (bs : List ℕ)
    → at s.fds s.offset ≡ some (n, o)
    → contents n s ≡ some bs
    → bytes_at k s.offset s.file ≡ take k (drop o bs)
read_lem [] s k o bs p h =
    ap (bytes_at k s.offset) h ∙ ap (λ x. take k (drop x bs)) (at_lem s.fds s.offset o [] p).1.0
read_lem (c ∷ n) s k o bs p h = absurd (cc)

write_lem :
    (n : Text) (s t : Small) (xs bs : List ℕ)
    → t.file ≡ added xs s.file
    → contents n s ≡ some bs
    → contents n t ≡ some (bs ++ take (length xs) xs)
write_lem [] s t xs bs e h =
    e ∙ (ap (added xs) h ∙ ap (λ x. some (bs ++ x)) (sym (take-all (length xs) xs (omega arith))))
write_lem (c ∷ n) s t xs bs e h = absurd (cc)

write-same : (n m : Text) (s t : Small) → [] ≡ n → m ≢ n → contents m t ≡ contents m s
write-same n [] s t e h = absurd (h e)
write-same n (c ∷ m) s t e h = refl

small_disk-Lawful : Lawful small_disk
small_disk-Lawful = record {
  contents = contents;
  place = λ fd s. at s.fds s.offset;
  fds = λ s. s.fds;
  reading = open_read_lem;
  not_reading = λ n s h. ap (λ (t : Small). t.fds) (open_read-none n s h);
  reading_same = open_read-same;
  making = open_new_lem;
  not_making = λ n s h.
      (ap (λ (t : Small). t.fds) (open_new-none n s h), ap (contents n) (open_new-none n s h));
  making_same = open_new-same;
  read_at = λ fd k o n bs s p h l. read_lem n s k o bs p h;
  read_fds = λ fd k s. refl;
  read_same = λ fd k m s. same_file m s (small_disk.read fd k s).1 refl;
  read_place = λ fd k o n s p.
      at-moved s.fds s.offset (length (bytes_at k s.offset s.file))
      ∙ ap (moved (length (bytes_at k s.offset s.file))) p;
  write_end = λ fd xs bs n s p h. write_lem n s (small_disk.write fd xs s).1 xs bs refl h;
  write_fds = λ fd xs s. refl;
  write_same = λ fd o xs n m s p h.
      write-same n m s (small_disk.write fd xs s).1 (at_lem s.fds s.offset o n p).0 h;
  write_place = λ fd o xs n s p. at-moved s.fds s.offset (length xs) ∙ ap (moved (length xs)) p;
  closing = λ fd o n s p. (at_lem s.fds s.offset o n p).1.1;
  closing_same = λ fd m s. same_file m s (small_disk.close fd s) refl;
}

abbrev counted : StatJob
counted = record {
  st = record {
    ticks = 3;
    events = 1000;
    traces = 2;
    hists = 70000;
    frames = 71005;
    frames_lost = 0;
    frames_dropped = 1;
  };
  errors = 0;
  statfd = none;
}

counted-IsWords : IsWords counted
counted-IsWords = record {
  ticks = omega arith;
  events = omega arith;
  traces = omega arith;
  hists = omega arith;
  frames = omega arith;
  frames_lost = omega arith;
  frames_dropped = omega arith;
  errors = omega arith;
}

abbrev blank : Small
blank = record { file = none; offset = 0; fds = 0 }

stats_read-stats_write_example :
    Returns
      (λ (z : ℕ × StatJob × Small).
        Written small_disk small_disk-Lawful [] counted blank z
        × ((s2 : Small)
            → small_disk-Lawful.contents [] s2 ≡ small_disk-Lawful.contents [] z.2
            → Returns
                (λ (r : ℕ × StatJob × Small).
                  Read small_disk small_disk-Lawful [] s2 r
                  × (z.0 ≡ req_ok
                      → r.0 ≡ req_ok
                      → (r.1.st ≡ counted.st) × (r.1.errors ≡ counted.errors)))
                (stats_read small_disk [] counted s2)))
      (stats_write small_disk [] counted blank)
stats_read-stats_write_example =
    stats_read-stats_write small_disk small_disk-Lawful [] counted counted blank refl refl
      counted-IsWords
