-- ===== src/Ring/Order.antt =====
-- The order of the slots of a ring: by the number of steps forward from the head.
use tes_0mq.Base.{
  ℕ, zero, suc, ◌+◌, ◌-◌, ◌%◌, ◌^◌, ◌<◌, ◌≡◌, leb, ltb, if◌then◌else◌, arith, some, Bool-cases, inl,
  inr,
}
use native.Mathlib.Nat.{mod-eq_of_lt, mod-eq-sub-mod}
use tes_0mq.Ring.{
  Ring, preceding, following, compare_ids, Comparison, closer, equal, farther, earlier_id, later_id,
  wrap_cur, wait_for_more,
}

-- The steps forward from the head to a slot.
abbrev pub distance : Ring → ℕ → ℕ
distance r i = if leb r.head i then i - r.head else r.num_slots + i - r.head

abbrev pub IsSlot : Ring → ℕ → Type 0
IsSlot r i = i < r.num_slots

-- What netmap guarantees of a ring: a 32-bit number of slots, and the head among them.
pub record IsRing (r : Ring) : Type 0 where
  pub slots_32 : r.num_slots < 2 ^ 32
  pub head_in : r.head < r.num_slots

abbrev pub compare_distance : ℕ → ℕ → Comparison
compare_distance a b = if ltb a b then closer else if ltb b a then farther else equal

-- `tes_ifring_compare_ids` compares the distances from the head, `tes_ifring_earlier_id` returns
-- the slot at the smaller distance and `tes_ifring_later_id` the one at the larger, of two slots
-- of the ring.
pub ids_order :
    (r : Ring) (a b : ℕ)
    → IsRing r
    → IsSlot r a
    → IsSlot r b
    → (compare_ids r a b ≡ compare_distance (distance r a) (distance r b))
      × (earlier_id r a b ≡ (if leb (distance r a) (distance r b) then a else b))
      × (later_id r a b ≡ (if leb (distance r a) (distance r b) then b else a))
unfolding compare_ids earlier_id later_id
ids_order r a b v ha hb = (ground arith, ground arith, ground arith)

-- `tes_ifring_following` steps one further from the head, back to it after the last slot, and
-- `tes_ifring_preceding` undoes it, both ways, within the ring.
pub following-preceding :
    (r : Ring) (i : ℕ)
    → IsRing r
    → IsSlot r i
    → IsSlot r (following r i)
      × IsSlot r (preceding r i)
      × (preceding r (following r i) ≡ i)
      × (following r (preceding r i) ≡ i)
      × (distance r (following r i)
          ≡ (if ltb (distance r i + 1) r.num_slots then distance r i + 1 else 0))
unfolding following preceding
following-preceding r i v h = (ground arith, ground arith, ground arith, ground arith, ground arith)

wrap_cur_total :
    (fuel slots c : ℕ) → 0 < slots → c < fuel → wrap_cur fuel slots c ≡ some (c % slots)
unfolding wrap_cur
wrap_cur_total zero slots c p h = absurd (omega arith)
wrap_cur_total (suc fuel) slots c p h = elim (Bool-cases (leb slots c)) [
  | inl big ↦ rw big (
      ground (
        arith,
        wrap_cur_total fuel slots (c - slots),
        mod-eq-sub-mod {n = c} {m = slots} (ground arith),
      ))
  | inr small ↦ rw small (ground (arith, mod-eq_of_lt {n = c} {m = slots} (ground arith)))
]

-- `tes_ifring_wait_for_more` ends on a ring with a slot, and leaves the cursor `num` slots past
-- the tail modulo the size of the ring, if the sum fits 32 bits; the rest of the ring stays.
pub wait_for_more_lem :
    (r : Ring) (num : ℕ)
    → 0 < r.num_slots
    → r.tail + num < 2 ^ 32
    → wait_for_more r num ≡ some (record r { cur = (r.tail + num) % r.num_slots })
unfolding wait_for_more
wait_for_more_lem r num p h = rw (
  wait_for_more,
  mod-eq_of_lt h,
  wrap_cur_total (r.tail + num + 1) r.num_slots (r.tail + num) p (omega arith),
)
