-- ===== src/Tests/Frames.antt =====
-- The frames that the examples use: the bytes of each from the ether type on.
use tes_0mq.Base.{ℕ, zero, suc, List, [], ◌∷◌, ◌-◌, ltb, if◌then◌else◌}
use tes_0mq.Packet.{Packet}

abbrev listed : List ℕ → Packet
listed [] i = 0
listed (b ∷ bs) zero = b
listed (b ∷ bs) (suc i) = listed bs i

-- The Ethernet addresses are zero.
abbrev from_type : List ℕ → Packet
from_type bs i = if ltb i 12 then 0 else listed bs (i - 12)

-- A tick of 48 bytes, with frame sequence 7.
abbrev pub tick_frame : Packet
tick_frame = from_type (0x88 ∷ 0xB5 ∷ 48 ∷ 0 ∷ 7 ∷ 0 ∷ 1 ∷ 0 ∷ 3 ∷ 0 ∷ 0 ∷ 2 ∷ [])

-- Two peaks of 8 bytes.
abbrev pub peak_frame : Packet
peak_frame = from_type (0x88 ∷ 0xB5 ∷ 40 ∷ 0 ∷ 8 ∷ 0 ∷ 2 ∷ 0 ∷ 1 ∷ 0 ∷ 0 ∷ 0 ∷ [])

-- A frame whose length field is 2000.
abbrev pub long_frame : Packet
long_frame = from_type (0x88 ∷ 0xB5 ∷ 208 ∷ 7 ∷ 8 ∷ 0 ∷ 2 ∷ 0 ∷ 1 ∷ 0 ∷ 0 ∷ 0 ∷ [])

-- An MCA header of 72 bytes: two bins of the four of its histogram.
abbrev pub mca_header : Packet
mca_header = from_type (0x88 ∷ 0xB6 ∷ 72 ∷ 0 ∷ 9 ∷ 0 ∷ 0 ∷ 0 ∷ 0 ∷ 0 ∷ 0 ∷ 0 ∷ 0 ∷ 0 ∷ 3 ∷ 0 ∷ [])

-- The other two bins, 5 and 6.
abbrev pub mca_rest : Packet
mca_rest =
    from_type (0x88 ∷ 0xB6 ∷ 32 ∷ 0 ∷ 10 ∷ 0 ∷ 1 ∷ 0 ∷ 0 ∷ 0 ∷ 0 ∷ 0 ∷ 5 ∷ 0 ∷ 0 ∷ 0 ∷ 6 ∷ [])

-- An MCA header without bins, of a histogram of four.
abbrev pub mca_empty : Packet
mca_empty = from_type (0x88 ∷ 0xB6 ∷ 64 ∷ 0 ∷ 9 ∷ 0 ∷ 0 ∷ 0 ∷ 0 ∷ 0 ∷ 0 ∷ 0 ∷ 0 ∷ 0 ∷ 3 ∷ 0 ∷ [])

-- A header frame of an average trace of 24 bytes, of which it brings 16, and the frame after it.
abbrev pub avg_header : Packet
avg_header = from_type (0x88 ∷ 0xB5 ∷ 40 ∷ 0 ∷ 9 ∷ 0 ∷ 0 ∷ 0 ∷ 1 ∷ 0 ∷ 1 ∷ 12 ∷ 24 ∷ 0 ∷ [])

abbrev pub avg_rest : Packet
avg_rest = from_type (0x88 ∷ 0xB5 ∷ 32 ∷ 0 ∷ 10 ∷ 0 ∷ 1 ∷ 0 ∷ 1 ∷ 0 ∷ 1 ∷ 12 ∷ 7 ∷ 0 ∷ [])
