-- ===== src/Convert/Groups.antt =====
-- `s_get_grp` and `s_crt_grp` of src/lib/hdf5conv.c.
pub mod Finds
pub mod Moves
pub mod Relinks
use tes_0mq.Base.{
  ℕ, ◌<◌, ◌≡◌, Bool, true, false, not, ◌&&◌, ltb, ◌==◌, if◌then◌else◌, Outcome, ok, ◌>>=◌, ◌>>◌,
  check, Option, none, some, List, [], ◌∷◌, length,
}
use tes_0mq.Convert.Calls.{Name, Hid, Calls}

-- `gid > 0`.
abbrev pub is_open : Hid → Bool
is_open none = false
is_open (some h) = ltb 0 h

module _ {S : Type 0} (C : Calls S) where
  -- `s_get_grp`, once H5Lexists has answered.
  unfoldable pub get_known : ℕ → Name → Bool → Option Bool × S → Hid × S
  get_known lid n create (none, s) = (none, s)
  get_known lid n create (some true, s) = C.gopen lid n s
  get_known lid n create (some false, s) = if create then C.gcreate lid n s else (some 0, s)

  -- `s_get_grp`.
  unfoldable pub get_grp : ℕ → Name → Bool → S → Outcome (Hid × S)
  get_grp lid n create s = check (ltb 0 lid) >> ok (get_known lid n create (C.lexists lid n s))

  -- Whether there is a group of this name, by `s_get_grp`. One that is opened is closed again.
  unfoldable pub looked : Hid × S → Bool × S
  looked (none, s) = (false, s)
  looked (some h, s) = if ltb 0 h then (true, C.gclose h s) else (false, s)

  -- Whether there is none of this name, or an error.
  unfoldable pub absent : ℕ → Name → S → Outcome (Bool × S)
  absent lid n s = get_grp lid n false s >>= (λ x. let (found, s') = looked x in ok (not found, s'))

  -- The renaming: whether `err` is 0 in the end.
  unfoldable pub relink : ℕ → Name → ℕ → Name → S → Outcome (Bool × S)
  relink lid n bkp n' s = absent bkp n' s >>= (λ (fresh, s1).
      ok (if fresh then C.lcopy lid n bkp n' s1 else (false, s1)) >>= (λ (copied, s2).
        ok (if copied then C.ldelete lid n s2 else (false, s2))
        >>= (λ (deleted, s3). absent lid n s3 >>= (λ (gone, s4). ok (deleted && gone, s4)))))

  -- `s_crt_grp`, where the group exists, and where it does not.
  unfoldable pub replace : ℕ → Name → Hid → Name → S → Outcome (Hid × S)
  replace lid n none n' s = ok (some 0, s)
  replace lid n (some bkp) n' s =
      if ltb 0 bkp
      then check (ltb 0 (length n'))
        >> (relink lid n bkp n' s
            >>= (λ (moved, s'). ok (if moved then C.gcreate lid n s' else (none, s'))))
      else ok (some 0, s)

  unfoldable pub crt_known : ℕ → Name → Hid → Name → Hid × S → Outcome (Hid × S)
  crt_known lid n bkp n' (none, s) = ok (none, s)
  crt_known lid n bkp n' (some h, s) =
      if ltb 0 h then replace lid n bkp n' (C.gclose h s) else ok (C.gcreate lid n s)

  -- `s_crt_grp`.
  unfoldable pub crt_grp : ℕ → Name → Hid → Name → S → Outcome (Hid × S)
  crt_grp lid n bkp n' s = check (ltb 0 lid) >> (get_grp lid n false s >>= crt_known lid n bkp n')
