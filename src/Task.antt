-- ===== src/Task.antt =====
-- kernel/core/task.h: the process control block and the store of tasks.
-- A task is reached by its address, a number; 0 is NULL. The fields that only the context switch
-- of the processor reads (stacks, page directory, descriptor tables) are left out.
pub mod Sleep
pub mod Signal
pub mod Trampoline
pub mod Sched
use curls.Prelude.{ℕ, Bool, true, false}

pub data TaskState : Type 0 where
  ready running waiting zombie : TaskState

abbrev pub is_ready : TaskState → Bool
is_ready ready = true
is_ready _ = false

abbrev pub is_running : TaskState → Bool
is_running running = true
is_running _ = false

abbrev pub is_waiting : TaskState → Bool
is_waiting waiting = true
is_waiting _ = false

abbrev pub is_zombie : TaskState → Bool
is_zombie zombie = true
is_zombie _ = false

pub record Task : Type 0 where
  pub id : ℕ
  pub parent : ℕ
  pub state : TaskState
  pub next : ℕ
  pub pending_signals : ℕ
  pub sigterm_handler : ℕ
  pub saved_eip : ℕ
  pub saved_esp : ℕ
  pub in_signal : Bool
  pub sleep_until : ℕ
  pub sleep_next : ℕ
  pub exit_code : ℕ

abbrev pub Tasks : Type 0
Tasks = ℕ → Task

abbrev pub null : ℕ
null = 0
