-- ===== src/Hist/Stream.antt =====
-- The histogram task from a wake-up on, over any sequence of frames.
use tes_0mq.Base.{ℕ, Bool, if◌then◌else◌, Outcome, ok, ◌>>=◌, List, [], ◌∷◌}
use tes_0mq.Packet.{Packet}
use tes_0mq.Packet.Valid.{Errs}
use tes_0mq.Task.{Rc, fine}
use tes_0mq.Task.Dispatch.{is_fine}
use tes_0mq.Hist.{Hist, step}

-- A frame as it reaches the handler, with the protocol sequence of the MCA frame before it.
pub record Arrival : Type 0 where
  pub prev : ℕ
  pub frame : Packet
  pub len : ℕ
  pub err : Errs

module _ (accepts : List (List ℕ) → List ℕ → Bool) where
  -- The handler on frame after frame, while it returns 0.
  pub stream : List Arrival → Hist → Outcome (Rc × Hist)
  stream [] d = ok (fine, d)
  stream (a ∷ frames) d =
      step accepts a.prev a.frame a.len a.err d
      >>= (λ x. if is_fine x.0 then stream frames x.1 else ok x)
