-- ===== src/Capture/StatFile/Bytes.antt =====
-- The counters of a job as bytes, and what is found in them.
use tes_0mq.Base.{
  drop-all, ℕ, zero, suc, ◌/◌, ◌^◌, ◌<◌, ◌≡◌, refl, ◌∙◌, ap, arith, List, [], ◌++◌, length,
  append-nil, drop,
}
use tes_0mq.Capture.Index.{le_bytes, from_le}
use tes_0mq.Capture.StatFile.{stat_len, StatJob, stats_bytes, word, stats_of, overwritten}

from_le-le_bytes : (k n : ℕ) → n < 256 ^ k → from_le (le_bytes k n) ≡ n
unfolding le_bytes from_le
from_le-le_bytes zero n h = omega (arith, h)
from_le-le_bytes (suc k) n h =
    let l : n / 256 < 256 ^ k = omega (arith, h) in
    let e : from_le (le_bytes k (n / 256)) ≡ n / 256 = from_le-le_bytes k (n / 256) l in
    omega (arith, e)

-- Each counter has 64 bits.
pub record IsWords (x : StatJob) : Type 0 where
  pub ticks : x.st.ticks < 2 ^ 64
  pub events : x.st.events < 2 ^ 64
  pub traces : x.st.traces < 2 ^ 64
  pub hists : x.st.hists < 2 ^ 64
  pub frames : x.st.frames < 2 ^ 64
  pub frames_lost : x.st.frames_lost < 2 ^ 64
  pub frames_dropped : x.st.frames_dropped < 2 ^ 64
  pub errors : x.errors < 2 ^ 64

word_lem : (n : ℕ) → n < 2 ^ 64 → from_le (le_bytes 8 n) ≡ n
word_lem n h = from_le-le_bytes 8 n (omega (arith, h))

stats_of-stats_bytes : (x : StatJob) → IsWords x → stats_of (stats_bytes x) ≡ x.st
unfolding stats_bytes stats_of le_bytes
stats_of-stats_bytes x w = λ i. record {
  ticks = word_lem x.st.ticks w.ticks i;
  events = word_lem x.st.events w.events i;
  traces = word_lem x.st.traces w.traces i;
  hists = word_lem x.st.hists w.hists i;
  frames = word_lem x.st.frames w.frames i;
  frames_lost = word_lem x.st.frames_lost w.frames_lost i;
  frames_dropped = word_lem x.st.frames_dropped w.frames_dropped i;
}

word-stats_bytes : (x : StatJob) → IsWords x → word 56 (stats_bytes x) ≡ x.errors
unfolding stats_bytes le_bytes
word-stats_bytes x w = word_lem x.errors w.errors

pub length-stats_bytes : (x : StatJob) → length (stats_bytes x) ≡ stat_len
unfolding stats_bytes le_bytes
length-stats_bytes x = refl

-- All that is read are the bytes of `x`.
pub overwritten-stats_bytes :
    (x y : StatJob) (bs : List ℕ)
    → IsWords x
    → bs ≡ stats_bytes x
    → ((overwritten y bs).st ≡ x.st) × ((overwritten y bs).errors ≡ x.errors)
unfolding overwritten
overwritten-stats_bytes x y bs w e =
    let none_left : drop (length bs) (stats_bytes y) ≡ [] =
      drop-all (length bs) (stats_bytes y)
        (omega (arith, ap length e, length-stats_bytes x, length-stats_bytes y)) in
    let all : bs ++ drop (length bs) (stats_bytes y) ≡ stats_bytes x =
      ap (λ k. bs ++ k) none_left ∙ (append-nil bs ∙ e) in
    (ap stats_of all ∙ stats_of-stats_bytes x w, ap (word 56) all ∙ word-stats_bytes x w)
