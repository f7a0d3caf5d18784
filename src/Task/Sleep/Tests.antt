-- ===== src/Task/Sleep/Tests.antt =====
-- The sleep queue at concrete inputs: the tasks 5 and 7 sleep, 9 is awake.
use curls.Prelude.{ℕ, ◌≡◌, false, some, [], ◌∷◌, arith}
use curls.Prelude.Store.{update}
use curls.Task.{Task, waiting}
use curls.Task.Sleep
use curls.Task.Sleep.{Sleepers}
use curls.Task.Sleep.Chain.{Queued}
use curls.Task.Sleep.Insert.{Inserted, insert-Inserted}
use curls.Task.Sleep.Remove.{Removed, remove-Removed}
use curls.Task.Sleep.Wake.{Woke, wake-Woke}

abbrev sleeper : ℕ → ℕ → Task
sleeper until next = record {
  id = 3;
  parent = 0;
  state = waiting;
  next = 0;
  pending_signals = 0;
  sigterm_handler = 0;
  saved_eip = 0;
  saved_esp = 0;
  in_signal = false;
  sleep_until = until;
  sleep_next = next;
  exit_code = 0;
}

abbrev two : Sleepers
unfolding update
two = record {
  head = 5;
  tasks = update (update (λ _. sleeper 0 0) 5 (sleeper 20 7)) 7 (sleeper 30 0);
}

two-Queued : Queued two.head two.tasks (5 ∷ 7 ∷ [])
unfolding two
two-Queued = ground arith

insert-Inserted_example :
    (s' : Sleepers) × (Sleep.insert 9 9 30 two ≡ some s') × Inserted two 9 30 (5 ∷ 7 ∷ []) s'
insert-Inserted_example =
    insert-Inserted 9 9 30 two (5 ∷ 7 ∷ []) (omega arith) (omega arith) (omega arith) two-Queued

remove-Removed_example :
    (s' : Sleepers) × (Sleep.remove 9 7 two ≡ some s') × Removed two 7 (5 ∷ 7 ∷ []) s'
unfolding two
remove-Removed_example =
    remove-Removed 9 7 two (5 ∷ 7 ∷ []) (omega arith) (omega arith) (omega arith) two-Queued

wake-Woke_example : (s' : Sleepers) × (Sleep.wake 9 25 two ≡ some s') × Woke 25 two (5 ∷ 7 ∷ []) s'
wake-Woke_example = wake-Woke 9 25 two (5 ∷ 7 ∷ []) (omega arith) two-Queued
