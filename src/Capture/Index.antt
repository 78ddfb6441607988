-- ===== src/Capture/Index.antt =====
-- The index entries of src/bin/tesd_task_cap.c, as the bytes that are copied to the files on a machine
-- with the least byte first, and what is read back from them.
use tes_0mq.Base.{
  ℕ, zero, suc, ◌+◌, ◌*◌, ◌/◌, ◌%◌, ◌≡◌, refl, ap, Bool, if◌then◌else◌, List, [], ◌∷◌, ◌++◌, length,
}
use tes_0mq.Capture.{Stream, Tick}

-- The `k` bytes of a number.
unfoldable pub le_bytes : ℕ → ℕ → List ℕ
le_bytes zero n = []
le_bytes (suc k) n = n % 256 ∷ le_bytes k (n / 256)

unfoldable pub from_le : List ℕ → ℕ
from_le [] = 0
from_le (b ∷ bs) = b + 256 * from_le bs

-- `struct s_fidx_t`. `stack` is what the reserved bits and HDR of `ftype` held before, and `hdr` whether
-- HDR is set: the code never clears it.
pub record Entry : Type 0 where
  pub start : ℕ
  pub span : ℕ
  pub esize : ℕ
  pub changed : Bool
  pub pt : ℕ
  pub hdr : Bool
  pub seq : Bool
  pub stack : ℕ

-- `struct s_ftype_t`: PT in the low four bits, HDR in bit 6 and SEQ in bit 7.
abbrev pub ftype : Entry → ℕ
ftype e =
    e.pt % 16
    + 16 * (e.stack % 4)
    + 64 * (if e.hdr then 1 else e.stack / 4 % 2)
    + 128 * (if e.seq then 1 else 0)

pub fidx_bytes : Entry → List ℕ
fidx_bytes e =
    le_bytes 8 e.start
    ++ (le_bytes 4 e.span ++ (le_bytes 2 e.esize ++ ((if e.changed then 1 else 0) ∷ ftype e ∷ [])))

pub tidx_bytes : Tick → List ℕ
tidx_bytes t = le_bytes 4 t.start_frame ++ le_bytes 4 t.stop_frame

pub sidx_bytes : Stream → List ℕ
sidx_bytes s = le_bytes 8 s.start ++ le_bytes 8 s.span

pub length-le_bytes : (k n : ℕ) → length (le_bytes k n) ≡ k
unfolding le_bytes
length-le_bytes zero n = refl
length-le_bytes (suc k) n = ap suc (length-le_bytes k (n / 256))

pub length-fidx_bytes : (e : Entry) → length (fidx_bytes e) ≡ 16
unfolding fidx_bytes le_bytes
length-fidx_bytes e = refl

pub length-tidx_bytes : (t : Tick) → length (tidx_bytes t) ≡ 8
unfolding tidx_bytes le_bytes
length-tidx_bytes t = refl

pub length-sidx_bytes : (s : Stream) → length (sidx_bytes s) ≡ 16
unfolding sidx_bytes le_bytes
length-sidx_bytes s = refl
