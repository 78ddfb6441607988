-- ===== src/Tests/Paths.antt =====
-- The theorems on the paths of src/bin/tesd_task_cap.c in two small file systems.
use tes_0mq.Base.{
  ℕ, ◌<◌, ◌≡◌, refl, subst, inl, inr, true, false, if◌then◌else◌, arith, ok, Settles, Option, none,
  List, [], ◌∷◌, ◌++◌, length, Bool-cases,
}
use tes_0mq.Capture.Paths.{
  Text, data_root, path_max, slash, Resolved, found, missing, refused, Tree, strchr,
  ends_with_slash, canonicalize, Asked, Filenames, construct_filenames,
}
use tes_0mq.Capture.Paths.Confined.{Sound, Broken}
use tes_0mq.Capture.Paths.Naming.{Constructed, construct_filenames-Constructed}
use tes_0mq.Capture.Paths.Outside.{canonicalize_makes_outside}

-- Each directory is a link to the one given, and there are no files.
abbrev answer : Text → Text → Resolved
answer dir n = if ends_with_slash n then found dir else missing

-- /media/data/captures
abbrev root_dir : Text
root_dir =
    b'/' ∷ b'm' ∷ b'e' ∷ b'd' ∷ b'i' ∷ b'a' ∷ b'/' ∷ b'd' ∷ b'a' ∷ b't' ∷ b'a' ∷ b'/' ∷ b'c' ∷ b'a'
    ∷ b'p' ∷ b't' ∷ b'u' ∷ b'r' ∷ b'e' ∷ b's' ∷ []

abbrev path_of : Resolved → Text
path_of (found p) = p
path_of missing = []
path_of refused = []

-- The state is the directories made.
abbrev flat : Tree (List Text)
flat = record { realpath = λ n s. answer root_dir n; mkdir = λ n s. (ends_with_slash n, n ∷ s) }

answer-short : (n : Text) → length (path_of (answer root_dir n)) < path_max
answer-short n = elim (Bool-cases (ends_with_slash n)) [
  | inl e ↦ rw e (omega arith)
  | inr e ↦ rw e (omega arith)
]

flat-Sound : Sound flat
unfolding ends_with_slash
flat-Sound = record {
  root = λ s. (root_dir, refl);
  short = λ n p s h. subst (λ x. length (path_of x) < path_max) h (answer-short n);
}

abbrev asked : Asked
asked = record { basefname = b'a' ∷ b'/' ∷ b'b' ∷ []; measurement = b'm' ∷ []; nocapture = false }

construct_filenames-Constructed_example :
    Settles
      (Broken flat)
      (λ (y : ℕ × Option Filenames × List Text). Constructed asked y)
      (construct_filenames flat asked [])
construct_filenames-Constructed_example = construct_filenames-Constructed flat flat-Sound asked []

-- /media/data/d
abbrev outer_dir : Text
outer_dir =
    b'/' ∷ b'm' ∷ b'e' ∷ b'd' ∷ b'i' ∷ b'a' ∷ b'/' ∷ b'd' ∷ b'a' ∷ b't' ∷ b'a' ∷ b'/' ∷ b'd' ∷ []

abbrev outer : Tree (List Text)
outer = record { realpath = λ n s. answer outer_dir n; mkdir = λ n s. (true, n ∷ s) }

abbrev up : Text
up = b'.' ∷ b'.' ∷ []

abbrev first_made : Text
first_made = data_root ++ (up ++ slash ∷ [])

abbrev second_made : Text
second_made = first_made ++ (b'd' ∷ slash ∷ [])

canonicalize_makes_outside_example :
    canonicalize outer (up ++ slash ∷ (b'd' ∷ slash ∷ b'f' ∷ [])) false []
    ≡ ok (none, second_made ∷ first_made ∷ [])
unfolding strchr ends_with_slash
canonicalize_makes_outside_example =
    canonicalize_makes_outside outer up (b'd' ∷ []) (b'f' ∷ []) outer_dir [] refl refl refl refl
      refl (omega arith) refl (omega arith) refl refl refl refl refl
