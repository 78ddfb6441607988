-- ===== src/Tests/Jitter.antt =====
-- The theorems on the jitter task at a concrete frame.
use tes_0mq.Base.{true, []}
use tes_0mq.Jitter.{Conf, no_point, Jitter}

abbrev conf : Conf
conf = record { ticks = 5; ref_ch = 0 }

-- One tick has been seen since the task woke up, and no reference.
abbrev waiting : Jitter
waiting = record {
  cur_conf = conf;
  conf = record conf { ticks = 7 };
  hist = record { ref = 0; chs = λ h. 1; bins = λ h b. 0 };
  ticks = 1;
  points = λ k. no_point;
  npts = 0;
  publishing = true;
  sent = [];
}
