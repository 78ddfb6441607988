-- ===== src/Packet.antt =====
-- include/net/tespkt.h: the layout of a frame and its accessors (`tespkt_flen` is `flen` here, and so
-- on), for a little-endian host, where `ftohs` and `ftohl` are empty. A frame is the memory of its
-- ring buffer: the byte at each offset, the stale bytes past the frame's end included.
pub mod Kinds
pub mod Valid
pub mod Events
pub mod Gen
pub mod Report
use tes_0mq.Base.{
  ℕ, ◌+◌, ◌-◌, ◌*◌, ◌/◌, ◌%◌, ◌^◌, Bool, not, ◌&&◌, ◌||◌, ltb, leb, ◌==◌, if◌then◌else◌, Outcome,
  ok, abort, ◌<◌, arith, List, [], ◌∷◌, zero, suc, length, ◌++◌, ◌≡◌, refl, ap,
}

abbrev pub Packet : Type 0
Packet = ℕ → ℕ

abbrev pub ethertype_event : ℕ
ethertype_event = 0x88B5

abbrev pub ethertype_mca : ℕ
ethertype_mca = 0x88B6

abbrev pub hdr_len : ℕ
hdr_len = 24

abbrev pub mca_hdr_len : ℕ
mca_hdr_len = 40

abbrev pub tick_hdr_len : ℕ
tick_hdr_len = 24

abbrev pub pulse_hdr_len : ℕ
pulse_hdr_len = 16

abbrev pub peak_len : ℕ
peak_len = 8

abbrev pub mca_bin_len : ℕ
mca_bin_len = 4

abbrev pub mtu : ℕ
mtu = 1496

-- Loads of little-endian fields.
abbrev pub u8 : Packet → ℕ → ℕ
u8 p i = p i % 256

abbrev pub u16 : Packet → ℕ → ℕ
u16 p i = u8 p i + 256 * u8 p (i + 1)

abbrev pub u32 : Packet → ℕ → ℕ
u32 p i = u16 p i + 2 ^ 16 * u16 p (i + 2)

abbrev pub u64 : Packet → ℕ → ℕ
u64 p i = u32 p i + 2 ^ 32 * u32 p (i + 4)

-- `ntohs` and `htons` of a little-endian host.
abbrev pub ntohs : ℕ → ℕ
ntohs x = x % 256 * 256 + x / 256 % 256

-- (uint16_t)((a - b) / d) in `int`, which truncates towards zero.
abbrev pub div_u16 : ℕ → ℕ → ℕ → ℕ
div_u16 a b d = if leb b a then (a - b) / d % 2 ^ 16 else (2 ^ 16 - (b - a) / d % 2 ^ 16) % 2 ^ 16

unfoldable pub flen : Packet → ℕ
flen p = u16 p 14

unfoldable pub fseq : Packet → ℕ
fseq p = u16 p 16

unfoldable pub pseq : Packet → ℕ
pseq p = u16 p 18

unfoldable pub esize : Packet → ℕ
esize p = u16 p 20

unfoldable pub true_esize : Packet → ℕ
true_esize p = esize p * 8 % 2 ^ 16

pub fseq-lt : (p : Packet) → fseq p < 2 ^ 16
unfolding fseq
fseq-lt p = omega arith

pub pseq-lt : (p : Packet) → pseq p < 2 ^ 16
unfolding pseq
pseq-lt p = omega arith

pub flen-lt : (p : Packet) → flen p < 2 ^ 16
unfolding flen
flen-lt p = omega arith

-- `struct tespkt_event_type`, a bit field of the bytes 22 and 23.
unfoldable pub etype_tr : Packet → ℕ
etype_tr p = u8 p 22 % 4

unfoldable pub etype_t : Packet → ℕ
etype_t p = u8 p 23 / 2 % 2

unfoldable pub etype_pkt : Packet → ℕ
etype_pkt p = u8 p 23 / 4 % 4

unfoldable pub is_header : Packet → Bool
is_header p = u16 p 18 == 0

unfoldable pub is_mca : Packet → Bool
is_mca p = u16 p 12 == ntohs ethertype_mca

unfoldable pub is_event : Packet → Bool
is_event p = u16 p 12 == ntohs ethertype_event

unfoldable pub is_tick : Packet → Bool
is_tick p = is_event p && etype_t p == 1

unfoldable pub is_peak : Packet → Bool
is_peak p = is_event p && (etype_pkt p == 0 && etype_t p == 0)

unfoldable pub is_area : Packet → Bool
is_area p = is_event p && (etype_pkt p == 1 && etype_t p == 0)

pub is_pulse : Packet → Bool
is_pulse p = is_event p && (etype_pkt p == 2 && etype_t p == 0)

unfoldable pub is_trace : Packet → Bool
is_trace p = is_event p && (etype_pkt p == 3 && etype_t p == 0)

pub is_trace_sgl : Packet → Bool
is_trace_sgl p = is_event p && (etype_pkt p == 3 && (etype_t p == 0 && etype_tr p == 0))

unfoldable pub is_trace_avg : Packet → Bool
is_trace_avg p = is_event p && (etype_pkt p == 3 && (etype_t p == 0 && etype_tr p == 1))

unfoldable pub is_trace_dp : Packet → Bool
is_trace_dp p = is_event p && (etype_pkt p == 3 && (etype_t p == 0 && etype_tr p == 2))

pub is_trace_dptr : Packet → Bool
is_trace_dptr p = is_event p && (etype_pkt p == 3 && (etype_t p == 0 && etype_tr p == 3))

unfoldable pub is_trace_long : Packet → Bool
is_trace_long p = is_trace p && not (is_trace_dp p)

pub is_multipeak : Packet → Bool
is_multipeak p = is_pulse p || (is_trace p && not (is_trace_avg p))

-- MCA frames.
unfoldable pub mca_nbins : Packet → ℕ
mca_nbins p =
    if is_header p
    then div_u16 (flen p) (hdr_len + mca_hdr_len) mca_bin_len
    else div_u16 (flen p) hdr_len mca_bin_len

unfoldable pub mca_nbins_tot : Packet → ℕ
mca_nbins_tot p = (u16 p 26 + 1) % 2 ^ 16

-- With TES_MCASIZE_BUG defined, as it is.
unfoldable pub mca_size : Packet → ℕ
mca_size p = mca_nbins_tot p * mca_bin_len + mca_hdr_len

unfoldable pub mca_mfreq : Packet → ℕ
mca_mfreq p = u16 p 34

-- Event frames. The quotient by a zero event size traps: `abort`.
unfoldable pub event_nums : Packet → Outcome ℕ
event_nums p =
    if is_trace p
    then ok (if is_header p || is_trace_dp p then 1 else 0)
    else if true_esize p == 0
    then abort
    else ok (div_u16 (flen p) hdr_len (true_esize p))

-- The offset of the header of event `e`.
unfoldable pub ehdr : Packet → ℕ → ℕ
ehdr p e = hdr_len + e * true_esize p

pub event_toff : Packet → ℕ → ℕ
event_toff p e = u16 p (ehdr p e + 6)

-- The channel in the flags of event `e`.
unfoldable pub evt_ch : Packet → ℕ → ℕ
evt_ch p e = u8 p (ehdr p e + 4) % 8

unfoldable pub trace_size : Packet → ℕ
trace_size p = u16 p 24

-- The bytes that a `memcpy` of `n` bytes from offset `i` takes.
pub bytes : Packet → ℕ → ℕ → List ℕ
bytes p i zero = []
bytes p i (suc n) = u8 p i ∷ bytes p (i + 1) n

pub length-bytes : (p : Packet) (i n : ℕ) → length (bytes p i n) ≡ n
unfolding bytes
length-bytes p i zero = refl
length-bytes p i (suc n) = ap suc (length-bytes p (i + 1) n)

-- What a frame carries after its 24-byte Ethernet and TES header.
unfoldable pub payload : Packet → List ℕ
payload p = bytes p hdr_len (flen p - hdr_len)

unfoldable pub payloads : List Packet → List ℕ
payloads [] = []
payloads (p ∷ ps) = payload p ++ payloads ps
