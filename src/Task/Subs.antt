-- ===== src/Task/Subs.antt =====
-- src/bin/tesd_tasks.c: `s_sub_hn`, which wakes a publishing task for its first subscriber and puts
-- it to sleep after its last one. The message is its list of frames; `i` is the index of the
-- frontend whose socket it came from.
use tes_0mq.Base.{
  ℕ, zero, suc, ◌+◌, ◌-◌, ◌%◌, ◌^◌, ◌<◌, ◌≡◌, refl, Bool, true, ◌==◌, ltb, if◌then◌else◌, arith,
  Outcome, ok, abort, ◌>>=◌, ◌>>◌, check, List, [], ◌∷◌, ne→==,
}
use tes_0mq.Ring.{Ring}
use tes_0mq.Task.{Task, Handlers, Rc, Frontend, activate, deactivate}

abbrev pub nsubs_of : List Frontend → ℕ → ℕ
nsubs_of [] i = 0
nsubs_of (f ∷ fs) zero = f.nsubs
nsubs_of (f ∷ fs) (suc i) = nsubs_of fs i

abbrev pub set_nsubs : List Frontend → ℕ → ℕ → List Frontend
set_nsubs [] i n = []
set_nsubs (f ∷ fs) zero n = record f { nsubs = n } ∷ fs
set_nsubs (f ∷ fs) (suc i) n = f ∷ set_nsubs fs i n

-- `msgstr[0]`: the terminator, if the frame is empty.
abbrev pub first_byte : List ℕ → ℕ
first_byte [] = 0
first_byte (b ∷ bs) = b

-- The calls of `task_activate` and `task_deactivate` drop the status.
abbrev pub drop_rc {ℓ} : {D : Type ℓ} → Outcome (Rc × Task D) → Outcome (Task D)
drop_rc m = m >>= λ x. ok x.1

module _ {ℓ} {D : Type ℓ} (h : Handlers D) (reader_ok : ℕ → Bool) (rings : ℕ → Ring) where
  abbrev pub counted : ℕ → ℕ → Task D → Task D
  counted i n t = record t { frontends = set_nsubs t.frontends i n }

  -- The tail of the handler, with the number of subscribers as it is now.
  abbrev pub react : ℕ → Task D → Outcome (Task D)
  react n t =
      if n == 1
      then drop_rc (activate h rings t)
      else if n == 0
      then drop_rc (deactivate h reader_ok t)
      else ok t

  pub sub_hn : ℕ → List (List ℕ) → Task D → Outcome (Task D)
  sub_hn i [] t = ok t
  sub_hn i (frame ∷ []) t =
      let n = nsubs_of t.frontends i in
      let more = (n + 1) % 2 ^ 32 in
      if first_byte frame == 0
      then check (ltb 0 n) >> react (n - 1) (counted i (n - 1) t)
      else if first_byte frame == 1
      then react more (counted i more t)
      else ok t
  sub_hn i (frame ∷ other ∷ frames) t = ok t

  -- By the number of subscribers before the message.
  abbrev pub on_subscribe : ℕ → ℕ → Task D → Outcome (Task D)
  on_subscribe i zero t = drop_rc (activate h rings (counted i 1 t))
  on_subscribe i (suc n) t = ok (counted i (suc (suc n)) t)

  abbrev pub on_unsubscribe : ℕ → ℕ → Task D → Outcome (Task D)
  on_unsubscribe i zero t = abort
  on_unsubscribe i (suc zero) t = drop_rc (deactivate h reader_ok (counted i 0 t))
  on_unsubscribe i (suc (suc zero)) t = drop_rc (activate h rings (counted i 1 t))
  on_unsubscribe i (suc (suc (suc n))) t = ok (counted i (suc (suc n)) t)

  react-many : (n : ℕ) (t : Task D) → react (suc (suc n)) t ≡ ok t
  react-many n t = rw (ne→== (suc (suc n)) 1 (omega arith), ne→== (suc (suc n)) 0 (omega arith))

  react-more :
      (i n : ℕ) (t : Task D)
      → n + 1 < 2 ^ 32
      → react ((n + 1) % 2 ^ 32) (counted i ((n + 1) % 2 ^ 32) t) ≡ on_subscribe i n t
  react-more i zero t lt = refl
  react-more i (suc n) t lt = rw wraps (react-many n (counted i (suc (suc n)) t))
    where
      wraps : (suc n + 1) % 2 ^ 32 ≡ suc (suc n)
      wraps = omega arith

  react-less :
      (i n : ℕ) (t : Task D)
      → (check (ltb 0 n) >> react (n - 1) (counted i (n - 1) t)) ≡ on_unsubscribe i n t
  react-less i zero t = refl
  react-less i (suc zero) t = refl
  react-less i (suc (suc zero)) t = refl
  react-less i (suc (suc (suc n))) t =
      rw (below, positive) (react-many n (counted i (suc (suc n)) t))
    where
      below : suc (suc (suc n)) - 1 ≡ suc (suc n)
      below = omega arith

      positive : ltb 0 (suc (suc (suc n))) ≡ true
      positive = ground arith

  -- The first subscription activates the task, and one more with subscribers there, short of 2 ^ 32,
  -- only counts. The last unsubscription puts the task to sleep; with nobody left to unsubscribe the
  -- assertion fails. But the unsubscription that leaves one subscriber activates the task again, as
  -- the first subscription does; any other only counts. Messages of another form change nothing.
  pub sub_hn_cases :
      (i : ℕ) (bs : List ℕ) (t : Task D)
      → nsubs_of t.frontends i + 1 < 2 ^ 32
      → (sub_hn i ((1 ∷ bs) ∷ []) t ≡ on_subscribe i (nsubs_of t.frontends i) t)
        × (sub_hn i ((0 ∷ bs) ∷ []) t ≡ on_unsubscribe i (nsubs_of t.frontends i) t)
        × ((b : ℕ) → sub_hn i ((suc (suc b) ∷ bs) ∷ []) t ≡ ok t)
        × ((f g : List ℕ) (fs : List (List ℕ)) → sub_hn i (f ∷ g ∷ fs) t ≡ ok t)
  unfolding sub_hn
  sub_hn_cases i bs t lt = (
    react-more i (nsubs_of t.frontends i) t lt,
    react-less i (nsubs_of t.frontends i) t,
    λ b. rw (ne→== (suc (suc b)) 0 (omega arith), ne→== (suc (suc b)) 1 (omega arith)),
    λ f g fs. refl,
  )
