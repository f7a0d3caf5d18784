-- ===== src/Task/Signal/Tests.antt =====
-- Signals at concrete inputs: the tasks 5 and 7 are ready in a ring, 5 runs and is the parent of 7.
use curls.Prelude.{ℕ, ◌≡◌, refl, true, false, [], ◌∷◌, arith}
use curls.Prelude.Store.{update}
use curls.Task.{Task, ready}
use curls.Task.Signal.{Kernel, returned, deliver, sent, lock, unlock, send}
use curls.Task.Signal.Ring.{first_with}
use curls.Task.Signal.Deliver.{Terminated, is_fatal, deliver-Terminated}
use curls.Task.Signal.Send.{send-Terminated}

abbrev member : ℕ → ℕ → ℕ → ℕ → Task
member id parent next handler = record {
  id = id;
  parent = parent;
  state = ready;
  next = next;
  pending_signals = 0;
  sigterm_handler = handler;
  saved_eip = 0;
  saved_esp = 0;
  in_signal = false;
  sleep_until = 0;
  sleep_next = 0;
  exit_code = 0;
}

abbrev pair : Kernel
unfolding update
pair = record {
  tasks = update (update (λ _. member 0 0 0 0) 5 (member 3 0 7 0)) 7 (member 4 5 5 0);
  sleep_queue = 0;
  ready_queue = 5;
  current = 5;
  rq_locked = false;
}

abbrev handled : Kernel
unfolding update
handled = record pair { tasks = update pair.tasks 7 (member 4 5 5 4096) }

deliver-Terminated_example :
    (k' : Kernel) × (deliver 3 7 9 pair ≡ returned k') × Terminated pair 7 [] k'
unfolding pair is_fatal first_with
deliver-Terminated_example =
    deliver-Terminated 3 7 9 pair [] (omega arith) (omega arith) refl refl (λ _. tt) (ground arith)

send-Terminated_example :
    (k' : Kernel) × (send 3 4 15 pair ≡ sent (unlock k'))
    × (k'.rq_locked ≡ true)
    × Terminated (lock pair) 7 [] k'
unfolding pair is_fatal first_with
send-Terminated_example =
    send-Terminated 3 4 15 7 pair (7 ∷ []) [] (omega arith) (omega arith) (omega arith)
      (ground arith) refl (omega arith) refl refl (λ _. tt) (ground arith)
