-- ===== src/Daemon/Fds.antt =====
-- The closing of file descriptors in src/lib/daemon_ng.c.
use tes_0mq.Base.{
  ℕ, zero, suc, ◌+◌, ◌<◌, ◌≤◌, ◌≡◌, refl, Bool, true, false, not, ◌&&◌, ◌||◌, ltb, leb, ◌==◌,
  if◌then◌else◌, arith, Option, none, some, List, [], ◌∷◌,
}

-- STDIN_FILENO, STDOUT_FILENO and STDERR_FILENO.
abbrev pub is_std : ℕ → Bool
is_std n = n == 0 || (n == 1 || n == 2)

-- `s_close_open_fds` over the numbers that a directory lists, where `.` and `..` have the number 0: what
-- is closed.
pub close_open_fds : ℕ → ℕ → List ℕ → List ℕ
close_open_fds most dir [] = []
close_open_fds most dir (n ∷ ns) =
    let rest = close_open_fds most dir ns in
    if n == dir || is_std n then rest else if leb most n then [] else n ∷ rest

-- The loop that tries all numbers from `n` on, `k` of them.
close_from : ℕ → ℕ → List ℕ
close_from n zero = []
close_from n (suc k) = let rest = close_from (n + 1) k in if is_std n then rest else n ∷ rest

-- `s_close_nonstd_fds`, by what is listed, if the directory can be read.
pub close_nonstd_fds : ℕ → ℕ → Option (List ℕ) → List ℕ
close_nonstd_fds limit dir listed =
    let most = if limit == 0 then 4096 else limit in
    elim listed [ none ↦ close_from 0 most | some ns ↦ close_open_fds most dir ns ]

abbrev pub contains : List ℕ → ℕ → Bool
contains [] a = false
contains (x ∷ xs) a = a == x || contains xs a

-- No number of the list is below `n`, and they do not go down.
abbrev Above : ℕ → List ℕ → Type 0
Above n [] = Unit
Above n (x ∷ xs) = (n ≤ x) × Above x xs

abbrev pub Ascending : List ℕ → Type 0
Ascending [] = Unit
Ascending (x ∷ xs) = Above x xs

not-Above : (n a : ℕ) (xs : List ℕ) → Above n xs → a < n → contains xs a ≡ false
not-Above n a [] h le = refl
not-Above n a (x ∷ xs) (h, r) le = ground (arith, not-Above x a xs r)

Above-up : (x : ℕ) (xs : List ℕ) → Above x xs → Ascending xs
Above-up x [] h = tt
Above-up x (y ∷ ys) (h, r) = r

-- What is closed of a list that goes up.
closes_listed :
    (most dir a : ℕ) (ns : List ℕ)
    → Ascending ns
    → contains (close_open_fds most dir ns) a
      ≡ (contains ns a && (not (a == dir || is_std a) && ltb a most))
unfolding close_open_fds
closes_listed most dir a [] up = refl
closes_listed most dir a (n ∷ ns) up =
    ground (arith, not-Above n a ns up, closes_listed most dir a ns (Above-up n ns up))

closes_from :
    (n k a : ℕ) → contains (close_from n k) a ≡ ((leb n a && ltb a (n + k)) && not (is_std a))
unfolding close_from
closes_from n zero a = ground arith
closes_from n (suc k) a = ground (arith, closes_from (n + 1) k a)

-- `s_close_nonstd_fds` closes exactly the descriptors that are listed, or all where the list cannot be read, that
-- are below the limit, the descriptor of the directory and the standard three apart, where the
-- directory lists its numbers in ascending order, with `.` and `..` first or among the zeros. A limit of 0 stands for 4096.
pub closes : ℕ → ℕ → Option (List ℕ) → ℕ → Bool
closes limit dir listed a =
    let most = if limit == 0 then 4096 else limit in
    (not (is_std a) && ltb a most)
    && elim listed [ none ↦ true | some ns ↦ contains ns a && not (a == dir) ]

abbrev pub Listed : Option (List ℕ) → Type 0
Listed none = Unit
Listed (some ns) = Ascending ns

pub close_nonstd_fds-closes :
    (limit dir a : ℕ) (listed : Option (List ℕ))
    → Listed listed
    → contains (close_nonstd_fds limit dir listed) a ≡ closes limit dir listed a
unfolding close_nonstd_fds closes
close_nonstd_fds-closes limit dir a none h =
    let most = if limit == 0 then 4096 else limit in ground (arith, closes_from 0 most a)
close_nonstd_fds-closes limit dir a (some ns) h =
    let most = if limit == 0 then 4096 else limit in ground (arith, closes_listed most dir a ns h)
