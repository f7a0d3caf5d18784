-- ===== src/Task/Sched/Tests.antt =====
-- The scheduler at concrete inputs: a ring of the tasks 5, 6 and 7, where 5 is current.
use curls.Prelude.{ℕ, ◌≡◌, refl, false, some, [], ◌∷◌, arith}
use curls.Prelude.Store.{update}
use curls.Task.{Task, Tasks, TaskState, ready, running, waiting, zombie}
use curls.Task.Sched.{switch}
use curls.Task.Sched.Switch.{Switched, switch-Switched}

abbrev in_ring : TaskState → ℕ → Task
in_ring state next = record {
  id = 3;
  parent = 0;
  state = state;
  next = next;
  pending_signals = 0;
  sigterm_handler = 0;
  saved_eip = 0;
  saved_esp = 0;
  in_signal = false;
  sleep_until = 0;
  sleep_next = 0;
  exit_code = 0;
}

abbrev three : TaskState → TaskState → Tasks
unfolding update
three first last =
    update (update (update (λ _. in_ring zombie 0) 5 (in_ring first 6)) 6 (in_ring waiting 7)) 7
      (in_ring last 5)

switch-Switched_example :
    (next : ℕ) × (us : Tasks) × (switch false 4 5 5 (three running ready) ≡ some (next, us))
    × Switched (three running ready) 5 (6 ∷ 7 ∷ []) next us
unfolding three update
switch-Switched_example =
    switch-Switched false 4 5 5 (three running ready) (6 ∷ 7 ∷ []) (omega arith) refl (omega arith)
      (ground arith) (λ a. ground arith)
