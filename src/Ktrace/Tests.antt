-- ===== src/Ktrace/Tests.antt =====
-- The trace at a concrete crash.
use curls.Prelude.{◌+◌, ◌≡◌, true, some, List, [], ◌∷◌, arith}
use curls.Prelude.Tests.{◌==◌, if◌then◌else◌}
use curls.Prelude.Lists.{length}
use curls.Ktrace.{Ktrace, ktrace_init, ktrace_replay, clipped}
use curls.Ktrace.Replay.{
  Call, entry_for, blank, history, recent, panic_call, crashed, ktrace_replay-crashed,
}

abbrev garbage : Ktrace
garbage = record {
  magic = 17;
  version = 0;
  size = 0;
  mask = 0;
  head = 5;
  entries = λ i. record { ts = 7; cpu = 7; event_id = 7; flags = 7; args = [] };
  flag = true;
  cpu = 0;
  tsc = 0;
  head_snapshot = 0;
  msg = [];
}

abbrev two_calls : List Call
two_calls =
    record { tick = 10; id = 1; args = 3 ∷ 0 ∷ 0 ∷ 0 ∷ [] }
    ∷ record { tick = 11; id = 2; args = 3 ∷ 0 ∷ 0 ∷ 0 ∷ [] }
    ∷ []

ktrace_replay-crashed_example :
    (ktrace_replay 2 (ktrace_init (crashed garbage two_calls 12 (some (72 ∷ []))))).0
    ≡ recent (clipped 2 (length two_calls + 1)) (length two_calls + 1) (λ s.
      if s == length two_calls
      then entry_for (panic_call 12)
      else history (λ i. blank) 0 two_calls s)
ktrace_replay-crashed_example =
    ktrace_replay-crashed garbage two_calls 12 2 (some (72 ∷ [])) (omega arith)
