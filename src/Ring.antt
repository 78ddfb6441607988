-- ===== src/Ring.antt =====
-- src/lib/tesif.c and include/net/tesif_reader.h, tesif_manager.h: the receive rings. A ring is the
-- part of `struct netmap_ring` that the wrapper reads and sets; `buf` is the memory of each slot's
-- buffer (`s_buf`) and `len` the slot's length. Functions that return a buffer return its slot.
pub mod Order
pub mod Window
pub mod Desc
use tes_0mq.Base.{
  ℕ, zero, suc, ◌+◌, ◌-◌, ◌^◌, ◌%◌, Bool, ◌&&◌, ◌||◌, ltb, leb, ◌==◌, if◌then◌else◌, Option, none,
  some,
}
use tes_0mq.Packet.{Packet}

pub record Ring : Type 0 where
  pub num_slots : ℕ
  pub head : ℕ
  pub cur : ℕ
  pub tail : ℕ
  pub buf : ℕ → Packet
  pub len : ℕ → ℕ

pub preceding : Ring → ℕ → ℕ
preceding r idx = if idx == 0 then r.num_slots - 1 else idx - 1

unfoldable pub following : Ring → ℕ → ℕ
following r idx = if (idx + 1) % 2 ^ 32 == r.num_slots then 0 else (idx + 1) % 2 ^ 32

pub rewind_buf : Ring → Ring × ℕ
rewind_buf r = (record r { cur = r.head }, r.head)

pub previous_buf : Ring → Ring × Option ℕ
unfolding preceding
previous_buf r =
    if r.cur == r.head
    then (r, none)
    else (record r { cur = preceding r r.cur }, some (preceding r r.cur))

-- The cursor moves also when it reaches the tail.
pub next_buf : Ring → Ring × Option ℕ
unfolding following
next_buf r = (
  record r { cur = following r r.cur },
  if following r r.cur == r.tail then none else some (following r r.cur),
)

unfoldable pub goto_buf : Ring → ℕ → Ring
goto_buf r idx = record r { cur = idx }

pub goto_last_buf : Ring → Ring × ℕ
unfolding preceding
goto_last_buf r = (record r { cur = preceding r r.tail }, preceding r r.tail)

pub release_one_buf : Ring → Ring × ℕ
unfolding following
release_one_buf r = (record r { head = following r r.head }, following r r.head)

pub release_to_buf : Ring → ℕ → Ring
release_to_buf r idx = record r { head = idx }

unfoldable pub release_done_buf : Ring → Ring
release_done_buf r = record r { head = r.cur }

-- `while (cur >= num_slots) cur -= num_slots;` on fuel. It does not end for an empty ring.
pub wrap_cur : ℕ → ℕ → ℕ → Option ℕ
wrap_cur zero slots cur = none
wrap_cur (suc fuel) slots cur =
    let rest = wrap_cur fuel slots (cur - slots) in if leb slots cur then rest else some cur

-- Each round takes at least 1 off the cursor, so as many rounds as its value are enough.
pub wait_for_more : Ring → ℕ → Option Ring
wait_for_more r num =
    let c = (r.tail + num) % 2 ^ 32 in
    elim (wrap_cur (c + 1) r.num_slots c) [ none ↦ none | some c' ↦ some (record r { cur = c' }) ]

pub release_all : Ring → Ring
release_all r = record r { head = r.tail; cur = r.tail }

abbrev same_region : Ring → ℕ → ℕ → Bool
same_region r a b = leb r.head a && leb r.head b || ltb a r.head && ltb b r.head

pub data Comparison : Type 0 where
  closer equal farther : Comparison

-- -1, 0 and 1.
pub compare_ids : Ring → ℕ → ℕ → Comparison
compare_ids r a b =
    if a == b
    then equal
    else if same_region r a b
    then if ltb a b then closer else farther
    else if ltb a b
    then farther
    else closer

pub earlier_id : Ring → ℕ → ℕ → ℕ
earlier_id r a b =
    if a == b
    then a
    else if same_region r a b
    then if ltb a b then a else b
    else if ltb a b
    then b
    else a

pub later_id : Ring → ℕ → ℕ → ℕ
later_id r a b =
    if a == b
    then a
    else if same_region r a b
    then if ltb a b then b else a
    else if ltb a b
    then a
    else b

-- The buffers next to a slot, and none before the head or at the tail.
unfoldable pub preceding_buf : Ring → ℕ → Option ℕ
unfolding preceding
preceding_buf r idx = if idx == r.head then none else some (preceding r idx)

unfoldable pub following_buf : Ring → ℕ → Option ℕ
unfolding following
following_buf r idx = if following r idx == r.tail then none else some (following r idx)

abbrev mod32 : ℕ → ℕ → ℕ → ℕ
mod32 slots a b = (slots + a + 2 ^ 32 - b) % 2 ^ 32

pub pending : Ring → ℕ
pending r = if leb r.cur r.tail then r.tail - r.cur else mod32 r.num_slots r.tail r.cur

pub done : Ring → ℕ
done r = if leb r.head r.cur then r.cur - r.head else mod32 r.num_slots r.cur r.head

pub total : Ring → ℕ
total r = if leb r.head r.tail then r.tail - r.head else mod32 r.num_slots r.tail r.head
