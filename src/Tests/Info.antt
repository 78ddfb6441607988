-- ===== src/Tests/Info.antt =====
-- The theorems on the info task at concrete frames.
use tes_0mq.Base.{◌≡◌, refl, true, false, abort, [], ◌∷◌}
use tes_0mq.Packet.{esize, is_mca, is_header}
use tes_0mq.Packet.Valid.{no_errs}
use tes_0mq.Info.{no_info, step, Client}
use tes_0mq.Task.{Task, Frontend}
use tes_0mq.Info.Counts.{mca_continuation_traps}
use tes_0mq.Tests.Frames.{mca_rest}

mca_continuation_traps_example : step mca_rest 0 no_errs no_info ≡ abort
unfolding is_mca is_header esize
mca_continuation_traps_example = mca_continuation_traps mca_rest 0 no_info refl refl refl

abbrev frontend : Frontend
frontend = record { handler = true; automute = true; nsubs = 0; reading = false }

-- A task that has counted three ticks.
abbrev task : Task Client
task = record {
  dat = record { info = record no_info { received = 3; ticks = 3 }; replies = [] };
  frontends = frontend ∷ [];
  heads = λ k. 0;
  prev_fseq = 8;
  prev_pseq_mca = 0;
  prev_pseq_tr = 0;
  just_activated = false;
  failed = false;
  busy = false;
  active = true;
}
