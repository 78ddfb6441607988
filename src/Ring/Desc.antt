-- ===== src/Ring/Desc.antt =====
-- src/lib/tesif.c: which receive ring of an interface an index names. The transmit rings have
-- functions of the same text over their own fields.
use tes_0mq.Base.{
  ℕ, ◌+◌, ◌-◌, ◌%◌, ◌^◌, ◌<◌, ◌≤◌, ◌≡◌, ◌||◌, ◌&&◌, leb, ltb, ◌==◌, if◌then◌else◌, arith, Option,
  none, some,
}

-- The part of `struct nm_desc` that says which rings are bound.
pub record Desc : Type 0 where
  pub first_rx : ℕ
  pub last_rx : ℕ
  pub cur_rx : ℕ

-- The result is the number of the ring that NETMAP_RXRING is asked for, and `none` for NULL.
abbrev shifted : Desc → ℕ → ℕ
shifted d idx = (idx + d.first_rx) % 2 ^ 16

unfoldable pub rxrings : Desc → ℕ
rxrings d = (d.last_rx + 2 ^ 16 - d.first_rx + 1) % 2 ^ 16

pub rxring : Desc → ℕ → Option ℕ
rxring d idx =
    if ltb (shifted d idx) d.first_rx || ltb d.last_rx (shifted d idx)
    then none
    else some (shifted d idx)

pub preceding_rxring : Desc → ℕ → Option ℕ
preceding_rxring d idx =
    if leb (shifted d idx) d.first_rx || ltb (d.last_rx + 1) (shifted d idx)
    then none
    else some (shifted d idx - 1)

pub following_rxring : Desc → ℕ → Option ℕ
following_rxring d idx =
    if ltb (shifted d idx + 1) d.first_rx || leb d.last_rx (shifted d idx)
    then none
    else some (shifted d idx + 1)

pub rewind_rxring : Desc → Desc × ℕ
rewind_rxring d = (record d { cur_rx = d.first_rx }, d.first_rx)

pub goto_rxring : Desc → ℕ → Desc × Option ℕ
goto_rxring d idx =
    if ltb d.last_rx (shifted d idx)
    then (d, none)
    else (record d { cur_rx = shifted d idx }, some (shifted d idx))

pub previous_rxring : Desc → Desc × Option ℕ
previous_rxring d =
    if d.cur_rx == d.first_rx
    then (d, none)
    else (record d { cur_rx = (d.cur_rx + 65535) % 2 ^ 16 }, some ((d.cur_rx + 65535) % 2 ^ 16))

pub next_rxring : Desc → Desc × Option ℕ
next_rxring d =
    if d.cur_rx == d.last_rx
    then (d, none)
    else (record d { cur_rx = (d.cur_rx + 1) % 2 ^ 16 }, some ((d.cur_rx + 1) % 2 ^ 16))

pub record IsDesc (d : Desc) : Type 0 where
  pub ordered : d.first_rx ≤ d.last_rx
  pub last_16 : d.last_rx < 2 ^ 16 - 1
  pub cur_low : d.first_rx ≤ d.cur_rx
  pub cur_high : d.cur_rx ≤ d.last_rx

-- `tes_if_rxring` gives ring `first + idx` exactly for the indices below `tes_if_rxrings`; the
-- preceding and the following ring exist exactly where the neighbour index is one of those, for
-- every 16-bit index but 65535.
pub rxring_range :
    (d : Desc) (idx : ℕ)
    → IsDesc d
    → idx < 2 ^ 16 - 1
    → (rxring d idx ≡ (if ltb idx (rxrings d) then some (d.first_rx + idx) else none))
      × (preceding_rxring d idx
          ≡ (if ltb 0 idx && leb idx (rxrings d) then some (d.first_rx + idx - 1) else none))
      × (following_rxring d idx
          ≡ (if ltb (idx + 1) (rxrings d) then some (d.first_rx + idx + 1) else none))
unfolding rxring rxrings preceding_rxring following_rxring
rxring_range d idx v h = (ground arith, ground arith, ground arith)

-- Moving the current ring keeps it among the bound ones: by `tes_if_rewind_rxring`,
-- `tes_if_previous_rxring`, `tes_if_next_rxring`, and by `tes_if_goto_rxring` where the sum of
-- the index and the first ring fits 16 bits.
pub move-IsDesc :
    (d : Desc) (idx : ℕ)
    → IsDesc d
    → idx + d.first_rx < 2 ^ 16
    → IsDesc (rewind_rxring d).0
      × IsDesc (previous_rxring d).0
      × IsDesc (next_rxring d).0
      × IsDesc (goto_rxring d idx).0
unfolding rewind_rxring previous_rxring next_rxring goto_rxring
move-IsDesc d idx v h = (ground arith, ground arith, ground arith, ground arith)
