-- ===== src/Convert/Mapping.antt =====
-- `s_map_file` of src/lib/hdf5conv.c.
pub mod Slices
pub mod Maps
use tes_0mq.Base.{
  ℕ, ◌+◌, ◌-◌, Bool, true, false, not, ◌||◌, ltb, leb, ◌==◌, if◌then◌else◌, Outcome, ok, ◌>>=◌,
  ◌>>◌, check, Option, none, some,
}
use tes_0mq.Base.Int.{ℤ, pos, negsuc, add_ℕ, is_neg, is_zero, to_ℕ}
use tes_0mq.Memory.{Memory}
use tes_0mq.Capture.{req_ok}
use tes_0mq.Capture.Request.{req_efail}
use tes_0mq.Convert.{Desc}
use tes_0mq.Convert.Calls.{Name, Calls}

abbrev pub is_null : Option Memory → Bool
is_null none = true
is_null (some m) = false

-- The offset from the beginning of the file.
pub from_start : ℤ → ℕ → ℤ
from_start o size = if is_neg o then add_ℕ o size else o

-- `length`, where `most` is left.
pub clipped : ℤ → ℕ → ℕ
clipped l most = if is_neg l || ltb most (to_ℕ l) then most else to_ℕ l

module _ {S : Type 0} (C : Calls S) where
  -- What mmap has answered.
  pub mapped : ℕ → Desc → Option Memory × S → Outcome (ℕ × Desc × S)
  mapped fd d (none, s) = ok (req_efail, d, C.close fd s)
  mapped fd d (some m, s) = ok (req_ok, record d { buffer = some m }, C.close fd s)

  -- The size is known.
  pub sized : ℕ → Desc → Option ℕ → S → Outcome (ℕ × Desc × S)
  sized fd d none s = ok (req_efail, d, C.close fd s)
  sized fd d (some size) s =
      let o = from_start d.offset size in
      if size == 0 || (is_neg o || leb size (to_ℕ o))
      then ok (req_ok, record d { offset = o; len = pos 0 }, C.close fd s)
      else check (not (is_neg o))
        >> (check (ltb 0 (size - to_ℕ o))
            >> (let n = clipped d.len (size - to_ℕ o) in
                check (ltb 0 n)
                >> mapped fd (record d { offset = o; len = pos n }) (C.map (to_ℕ o + n) fd s)))

  pub opened : Desc → Option ℕ × S → Outcome (ℕ × Desc × S)
  opened d (none, s) = ok (req_efail, d, s)
  opened d (some fd, s) = sized fd d (C.seek_end fd s) s

  -- `s_map_file`, for a descriptor with this file name.
  pub map_file : Name → Desc → S → Outcome (ℕ × Desc × S)
  map_file n d s =
      check (is_null d.buffer)
      >> (if is_zero d.len then ok (req_ok, d, s) else opened d (C.open_data n s))
