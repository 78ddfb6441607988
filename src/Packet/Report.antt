-- ===== src/Packet/Report.antt =====
-- tespkt.h: `tespkt_perror`, `tespkt_error` and `tespkt_serror`, which walk the error mask from its
-- lowest bit. A message is its index in `_tespkt_errors`. The mask is the number that the record of
-- flags stands for.
use tes_0mq.Base.{
  ℕ, zero, suc, ◌+◌, ◌*◌, ◌/◌, ◌%◌, ◌<◌, ◌≡◌, ◌≢◌, refl, Bool, true, false, ◌==◌, if◌then◌else◌,
  arith, List, [], ◌∷◌, Option, none, some, ◌^◌, Bool-cases, inl, inr,
}
use native.Mathlib.Nat.{pow-suc}
use tes_0mq.Packet.Valid.{Errs, any}

abbrev bit : Bool → ℕ → ℕ
bit b w = if b then w else 0

-- The int that `tespkt_is_valid` returns: TES_EETHTYPE is 1, TES_EETHLEN 2, ..., TES_EMCABINS 64.
pub code : Errs → ℕ
code e =
    bit e.eth_type 1
    + bit e.eth_len 2
    + bit e.evt_type 4
    + bit e.evt_size 8
    + bit e.tr_size 16
    + bit e.mca_bytes 32
    + bit e.mca_bins 64

-- `for (int e = 0; err != 0; err >>= 1, e++)`, on fuel, with the messages that it prints.
pub perror_from : ℕ → ℕ → ℕ → List ℕ
perror_from zero e err = []
perror_from (suc fuel) e err =
    let rest = perror_from fuel (e + 1) (err / 2) in
    if err == 0 then [] else if err % 2 == 1 then e ∷ rest else rest

-- The mask is below 128, so seven rounds reach its end.
pub perror : ℕ → List ℕ
unfolding perror_from
perror err = perror_from 8 0 err

-- The message, and the mask as it stands when the loop is left.
pub lowest_from : ℕ → ℕ → ℕ → Option (ℕ × ℕ)
lowest_from zero e err = none
lowest_from (suc fuel) e err =
    let rest = lowest_from fuel (e + 1) (err / 2) in
    if err == 0 then none else if err % 2 == 1 then some (e, err) else rest

pub error : ℕ → Option ℕ
unfolding lowest_from
error err = elim (lowest_from 8 0 err) [ none ↦ none | some (e, m) ↦ some e ]

-- The message put in `buf`, if any, and the value returned.
pub serror : ℕ → Option ℕ × ℕ
unfolding lowest_from
serror err = elim (lowest_from 8 0 err) [ none ↦ (none, 0) | some (e, m) ↦ (some e, m) ]

abbrev shown : Bool → ℕ → List ℕ → List ℕ
shown b i rest = if b then i ∷ rest else rest

-- The indices of the flags that are set, lowest first.
abbrev flags_set : Errs → List ℕ
flags_set e = shown e.eth_type 0 (
    shown e.eth_len 1 (
      shown e.evt_type 2
        (shown e.evt_size 3 (shown e.tr_size 4 (shown e.mca_bytes 5 (shown e.mca_bins 6 []))))))

perror_from-zero : (f e : ℕ) → perror_from f e 0 ≡ []
unfolding perror_from
perror_from-zero zero e = refl
perror_from-zero (suc f) e = refl

-- One round takes the lowest flag off a mask.
perror_round :
    (b : Bool) (f e m : ℕ)
    → perror_from (suc f) e (bit b 1 + 2 * m) ≡ shown b e (perror_from f (e + 1) m)
unfolding perror_from
perror_round true f e m = ground (arith, halves)
  where
    halves : (1 + 2 * m) / 2 ≡ m
    halves = omega arith
perror_round false f e m = ground (arith, halves, perror_from-zero f (e + 1))
  where
    halves : (0 + 2 * m) / 2 ≡ m
    halves = omega arith

nested : Errs → ℕ
nested e =
    bit e.eth_type 1
    + 2
      * (bit e.eth_len 1
          + 2
            * (bit e.evt_type 1
                + 2
                  * (bit e.evt_size 1
                      + 2
                        * (bit e.tr_size 1
                            + 2 * (bit e.mca_bytes 1 + 2 * (bit e.mca_bins 1 + 2 * 0))))))

code-nested : (e : Errs) → code e ≡ nested e
unfolding code nested
code-nested e = ground arith

code_zero : (e : Errs) → (code e == 0) ≡ (if any e then false else true)
unfolding code
code_zero e = ground arith

-- `tespkt_perror` prints the message of every flag that is set, in order, and no other; the mask is
-- zero exactly when no flag is set.
pub perror-code :
    (e : Errs) → (perror (code e) ≡ flags_set e) × ((code e == 0) ≡ (if any e then false else true))
unfolding perror nested
perror-code e = (
  rw (
    code-nested e,
    perror_round e.eth_type 7 0 _,
    perror_round e.eth_len 6 1 _,
    perror_round e.evt_type 5 2 _,
    perror_round e.evt_size 4 3 _,
    perror_round e.tr_size 3 4 _,
    perror_round e.mca_bytes 2 5 _,
    perror_round e.mca_bins 1 6 _,
    perror_from-zero 1 7,
  ),
  code_zero e,
)

-- The walk stops at a set bit, if the fuel covers the mask.
lowest_odd :
    (f e err : ℕ)
    → err ≢ 0
    → err < 2 ^ f
    → (k : ℕ) × (m : ℕ) × (lowest_from f e err ≡ some (k, m)) × (m % 2 ≡ 1)
unfolding lowest_from
lowest_odd zero e err h b = absurd (omega arith)
lowest_odd (suc f) e err h b = elim (Bool-cases (err % 2 == 1)) [
  | inl odd ↦ (e, err, ground arith, ground arith)
  | inr even ↦
      let r = lowest_odd f (e + 1) (err / 2) (ground arith) (omega (arith, pow-suc 2 f)) in
      (r.0, r.1, ground (arith, r.2), r.3)
]

serror_odd : (m : ℕ) → m % 2 ≡ 1 → serror m ≡ (some 0, m)
unfolding serror
serror_odd m h = ground arith

serror_of_lowest : (err k m : ℕ) → lowest_from 8 0 err ≡ some (k, m) → (serror err).1 ≡ m
unfolding serror
serror_of_lowest err k m e = rw (e, serror)

-- `tespkt_serror` returns the mask shifted down to its lowest set bit, which it does not clear: on
-- every non-zero mask below 128 the value is odd, and handed back to the function it gives the
-- first message and itself again, so a loop that calls it until it returns 0 does not end.
pub serror_sticks :
    (err : ℕ)
    → err ≢ 0
    → err < 128
    → ((serror err).1 % 2 ≡ 1) × (serror (serror err).1 ≡ (some 0, (serror err).1))
serror_sticks err h b =
    let r = lowest_odd 8 0 err h (omega arith) in
    rw (serror_of_lowest err r.0 r.1 r.2) (r.3, serror_odd r.1 r.3)
