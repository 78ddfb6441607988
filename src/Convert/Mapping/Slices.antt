-- ===== src/Convert/Mapping/Slices.antt =====
-- The part of a file that a descriptor asks for.
use tes_0mq.Base.{
  ℕ, zero, suc, ◌+◌, ◌-◌, ◌≤◌, ◌≡◌, refl, sym, ap, ◌∙◌, inl, inr, Bool, true, false, ◌||◌, ltb, leb,
  ◌==◌, if◌then◌else◌, arith, Option, none, some, List, [], ◌∷◌, length, take, drop, length-drop,
  Bool-cases,
}
use tes_0mq.Base.Int.{ℤ, pos, negsuc, is_neg, is_zero, to_ℕ}
use tes_0mq.Memory.{Memory, read}
use tes_0mq.Convert.Mapping.{from_start, clipped}

-- Where the part of a file of `size` bytes begins, with its offset from the end if it is negative; `none` if
-- that is before the beginning.
abbrev start : ℤ → ℕ → Option ℕ
start (pos a) size = some a
start (negsuc a) size = if leb (suc a) size then some (size - suc a) else none

-- At most so many bytes, or all.
abbrev first : ℤ → List ℕ → List ℕ
first (pos n) bs = take n bs
first (negsuc n) bs = bs

abbrev from : Option ℕ → ℤ → List ℕ → List ℕ
from none l bs = []
from (some a) l bs = first l (drop a bs)

-- The part of a file that a descriptor asks for, as include/hdf5conv.h describes it.
abbrev pub slice : ℤ → ℤ → List ℕ → List ℕ
slice o l bs = from (start o (length bs)) l bs

take-nil : (n : ℕ) → take {A = ℕ} n [] ≡ []
take-nil zero = refl
take-nil (suc n) = refl

drop-take : (a n : ℕ) (bs : List ℕ) → drop a (take (a + n) bs) ≡ take n (drop a bs)
drop-take zero n bs = ap (λ k. take k bs) (omega arith)
drop-take (suc a) n [] = let e : suc a + n ≡ suc (a + n) = omega arith in rw (e, take-nil n)
drop-take (suc a) n (b ∷ bs) =
    let e : suc a + n ≡ suc (a + n) = omega arith in rw e (drop-take a n bs)

drop-read : (m : Memory) (i a n : ℕ) → drop a (read m i (a + n)) ≡ read m (i + a) n
unfolding read
drop-read m i zero n =
    let e : zero + n ≡ n = omega arith in let f : i + zero ≡ i = omega arith in rw (e, f)
drop-read m i (suc a) n =
    let e : suc a + n ≡ suc (a + n) = omega arith in
    let f : i + suc a ≡ i + 1 + a = omega arith in rw (e, f, drop-read m (i + 1) a n)

take-all : (n : ℕ) (bs : List ℕ) → length bs ≤ n → take n bs ≡ bs
take-all zero [] h = refl
take-all zero (b ∷ bs) h = absurd (omega arith)
take-all (suc n) [] h = refl
take-all (suc n) (b ∷ bs) h = ap (λ l. b ∷ l) (take-all n bs (omega arith))

drop-none : (n : ℕ) (bs : List ℕ) → length bs ≤ n → drop n bs ≡ []
drop-none zero [] h = refl
drop-none zero (b ∷ bs) h = absurd (omega arith)
drop-none (suc n) [] h = refl
drop-none (suc n) (b ∷ bs) h = drop-none n bs (omega arith)

-- The bytes that are mapped, as the code counts them.
pub slice_of :
    (m : Memory) (bs : List ℕ) (a n : ℕ)
    → read m 0 (a + n) ≡ take (a + n) bs
    → read m a n ≡ take n (drop a bs)
slice_of m bs a n h =
    let e : 0 + a ≡ a = omega arith in
    ap (λ k. read m k n) (sym e) ∙ (sym (drop-read m 0 a n) ∙ (ap (drop a) h ∙ drop-take a n bs))

-- The part is empty.
from-zero : (x : Option ℕ) (bs : List ℕ) → from x (pos 0) bs ≡ []
from-zero none bs = refl
from-zero (some a) bs = refl

pub slice-zero : (o l : ℤ) (bs : List ℕ) → is_zero l ≡ true → slice o l bs ≡ []
slice-zero o (pos a) bs h =
    let e : a ≡ 0 = ground arith in rw e (from-zero (start o (length bs)) bs)
slice-zero o (negsuc a) bs h = absurd (cc)

first-nil : (l : ℤ) → first l [] ≡ []
first-nil (pos a) = take-nil a
first-nil (negsuc a) = refl

-- The offset is not within the file.
abbrev pub is_past : ℤ → ℕ → Bool
is_past o size = size == 0 || (is_neg o || leb size (to_ℕ o))

pub slice-past :
    (o l : ℤ) (bs : List ℕ)
    → is_past (from_start o (length bs)) (length bs) ≡ true
    → slice o l bs ≡ []
unfolding from_start
slice-past (pos a) l bs h = rw (drop-none a bs (ground arith)) (first-nil l)
slice-past (negsuc a) l bs h = elim (Bool-cases (leb (suc a) (length bs))) [
  | inl e ↦ absurd (ground arith)
  | inr e ↦ rw e
]

first-clipped : (l : ℤ) (bs : List ℕ) → first l bs ≡ take (clipped l (length bs)) bs
unfolding clipped
first-clipped (pos a) bs = elim (Bool-cases (ltb (length bs) a)) [
  | inl e ↦ rw e (take-all a bs (ground arith) ∙ sym (take-all (length bs) bs (omega arith)))
  | inr e ↦ rw e
]
first-clipped (negsuc a) bs = sym (take-all (length bs) bs (omega arith))

first-drop :
    (l : ℤ) (a : ℕ) (bs : List ℕ)
    → first l (drop a bs) ≡ take (clipped l (length bs - a)) (drop a bs)
first-drop l a bs =
    first-clipped l (drop a bs) ∙ ap (λ k. take (clipped l k) (drop a bs)) (length-drop a bs)

pub slice-within :
    (o l : ℤ) (bs : List ℕ)
    → is_past (from_start o (length bs)) (length bs) ≡ false
    → slice o l bs
      ≡ take
          (clipped l (length bs - to_ℕ (from_start o (length bs))))
          (drop (to_ℕ (from_start o (length bs))) bs)
unfolding from_start
slice-within (pos a) l bs h = first-drop l a bs
slice-within (negsuc a) l bs h = elim (Bool-cases (leb (suc a) (length bs))) [
  | inl e ↦ rw e (first-drop l (length bs - suc a) bs)
  | inr e ↦ absurd (ground arith)
]
