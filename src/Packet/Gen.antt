-- ===== src/Packet/Gen.antt =====
-- include/net/tespkt_gen.h: the setters of a generated frame. A store changes the byte at an offset;
-- a bit field keeps the other bits of its byte.
use tes_0mq.Base.{ℕ, ◌+◌, ◌*◌, ◌/◌, ◌%◌, ◌^◌, ◌≡◌, ◌==◌, if◌then◌else◌, arith}
use tes_0mq.Packet.{
  Packet, u8, ntohs, ethertype_mca, ethertype_event, flen, fseq, pseq, esize, is_event, is_mca,
  etype_t, etype_pkt, etype_tr,
}
use tes_0mq.Packet.Kinds.{tick, mca, trace, event_kind, trace_kind, kind}

abbrev store8 : Packet → ℕ → ℕ → Packet
store8 p i v j = if j == i then v % 256 else p j

abbrev store16 : Packet → ℕ → ℕ → Packet
store16 p i v = store8 (store8 p i v) (i + 1) (v / 256)

pub set_type_mca : Packet → Packet
set_type_mca p = store16 p 12 (ntohs ethertype_mca)

pub set_type_evt : Packet → Packet
set_type_evt p = store16 p 12 (ntohs ethertype_event)

-- The sum is an `int`; the store keeps its low 16 bits.
pub inc_fseq : Packet → ℕ → Packet
inc_fseq p seq = store16 p 16 (fseq p + seq)

pub inc_pseq : Packet → ℕ → Packet
inc_pseq p seq = store16 p 18 (pseq p + seq)

pub inc_len : Packet → ℕ → Packet
inc_len p len = store16 p 14 (flen p + len)

pub set_esize : Packet → ℕ → Packet
set_esize p size = store16 p 20 size

abbrev set_t : Packet → ℕ → Packet
set_t p v = store8 p 23 (u8 p 23 % 2 + v % 2 * 2 + u8 p 23 / 4 * 4)

abbrev set_pkt : Packet → ℕ → Packet
set_pkt p v = store8 p 23 (u8 p 23 % 4 + v % 4 * 4 + u8 p 23 / 16 * 16)

abbrev set_tr : Packet → ℕ → Packet
set_tr p v = store8 p 22 (v % 4 + u8 p 22 / 4 * 4)

pub set_etype_tick : Packet → Packet
unfolding set_esize
set_etype_tick p = set_tr (set_pkt (set_t (set_esize p 3) 1) 0) 0

pub set_etype_nontrace : Packet → ℕ → Packet
set_etype_nontrace p pkt_type = set_tr (set_pkt (set_t p 0) pkt_type) 0

pub set_etype_trace : Packet → ℕ → Packet
unfolding set_esize
set_etype_trace p tr_type = set_tr (set_pkt (set_t (set_esize p 1) 0) 3) tr_type

-- The counters of a generated frame advance modulo 2 ^ 16, each without touching the other, the
-- length or the event size: `tespkt_inc_fseq`, `tespkt_inc_pseq` and `tespkt_inc_len` read back.
pub inc-reads_back :
    (p : Packet) (n : ℕ)
    → ((fseq (inc_fseq p n) ≡ (fseq p + n) % 2 ^ 16)
        × (pseq (inc_fseq p n) ≡ pseq p)
        × (flen (inc_fseq p n) ≡ flen p)
        × (esize (inc_fseq p n) ≡ esize p))
      × ((pseq (inc_pseq p n) ≡ (pseq p + n) % 2 ^ 16)
          × (fseq (inc_pseq p n) ≡ fseq p)
          × (flen (inc_pseq p n) ≡ flen p)
          × (esize (inc_pseq p n) ≡ esize p))
      × ((flen (inc_len p n) ≡ (flen p + n) % 2 ^ 16)
          × (fseq (inc_len p n) ≡ fseq p)
          × (pseq (inc_len p n) ≡ pseq p)
          × (esize (inc_len p n) ≡ esize p))
unfolding fseq pseq flen esize inc_fseq inc_pseq inc_len
inc-reads_back p n = omega arith

-- The frames that the setters make are of the kind asked for: a tick of event size 3, a peak, area
-- or pulse by the type number 0 to 2, a trace of event size 1 by the trace type, and an MCA frame.
pub kind-set :
    (p : Packet) (n : ℕ)
    → ((kind (set_etype_tick (set_type_evt p)) ≡ tick)
        × (esize (set_etype_tick (set_type_evt p)) ≡ 3))
      × (kind (set_etype_nontrace (set_type_evt p) n) ≡ event_kind 0 (n % 4) 0)
      × ((kind (set_etype_trace (set_type_evt p) n) ≡ trace (trace_kind (n % 4)))
          × (esize (set_etype_trace (set_type_evt p) n) ≡ 1))
      × (kind (set_type_mca p) ≡ mca)
unfolding esize is_event is_mca etype_t etype_pkt etype_tr kind set_type_evt set_type_mca
    set_etype_tick set_etype_nontrace set_etype_trace
kind-set p n =
    ((ground arith, ground arith), ground arith, (ground arith, ground arith), ground arith)
