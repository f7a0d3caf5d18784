-- ===== src/Task/Signal.antt =====
-- Signal delivery of kernel/core/task.c: `task_deliver_signal`, `task_send_signal`,
-- `task_send_sigint_foreground`, `kill` and `kill_all_children`.
-- The ready queue is the ring of tasks through `next`; walks round it run on fuel.
pub mod Ring
pub mod Deliver
pub mod Send
mod Tests
use curls.Prelude.{ℕ, zero, suc, Bool, true, false, ◌&&◌, ◌||◌, Option, none, some}
use curls.Prelude.Tests.{not, ltb, ◌==◌, if◌then◌else◌}
use curls.Prelude.Bits.{set_bit}
use curls.Prelude.Store.{update}
use curls.Task.{TaskState, Task, Tasks, ready, zombie, is_waiting, is_zombie, null}
use curls.Task.Sleep
use curls.Task.Sleep.{Sleepers}

abbrev pub sigint : ℕ
sigint = 2

abbrev pub sigkill : ℕ
sigkill = 9

abbrev pub sigterm : ℕ
sigterm = 15

abbrev pub sigchld : ℕ
sigchld = 17

-- The globals `sleep_queue`, `ready_queue`, `current_task` and whether `rq_lock` is held.
pub record Kernel : Type 0 where
  pub tasks : Tasks
  pub sleep_queue : ℕ
  pub ready_queue : ℕ
  pub current : ℕ
  pub rq_locked : Bool

-- A delivery returns, or it has killed the running task and spins in `sti; hlt` for ever.
-- `out_of_fuel` is no behaviour of the code.
pub data Outcome : Type 0 where
  returned : Kernel → Outcome
  parked : Kernel → Outcome
  out_of_fuel : Outcome

-- `t->pending_signals |= SIG_BIT(sig);`
pub raise : ℕ → ℕ → Tasks → Tasks
raise t sig ts =
    update ts t (record (ts t) { pending_signals = set_bit (ts t).pending_signals sig })

-- `t->parent->pending_signals |= SIG_BIT(SIGCHLD);`, and the parent is woken if it waits.
pub notify_parent : ℕ → Tasks → Tasks
unfolding raise
notify_parent p ts =
    let told = raise p sigchld ts in
    if p == null
    then ts
    else if is_waiting (told p).state
    then update told p (record (told p) { state = ready })
    else told

pub bury : ℕ → Tasks → Tasks
bury t ts = update ts t (record (ts t) { state = zombie })

-- What `do_terminate` does once the task is off the sleep queue.
pub finish : ℕ → Kernel → Outcome
unfolding notify_parent bury
finish t k =
    let dead = record k { tasks = notify_parent (k.tasks t).parent (bury t k.tasks) } in
    if t == k.current then parked dead else returned dead

pub after_sleep : ℕ → Kernel → Option Sleepers → Outcome
unfolding finish
after_sleep t k none = out_of_fuel
after_sleep t k (some s) = finish t (record k { tasks = s.tasks; sleep_queue = s.head })

-- The label `do_terminate`.
pub terminate : ℕ → ℕ → Kernel → Outcome
unfolding after_sleep
terminate fuel t k =
    if is_zombie (k.tasks t).state
    then returned k
    else after_sleep t k (Sleep.remove fuel t (record { head = k.sleep_queue; tasks = k.tasks }))

-- `task_deliver_signal`
pub deliver : ℕ → ℕ → ℕ → Kernel → Outcome
unfolding raise
deliver fuel t sig k =
    if t == null
    then returned k
    else if sig == sigkill
    then terminate fuel t k
    else if (sig == sigterm) || (sig == sigint)
    then (if (k.tasks t).sigterm_handler == 0
        then terminate fuel t k
        else returned (record k { tasks = raise t sig k.tasks }))
    else if sig == sigchld
    then (if (k.tasks t).parent == null
        then returned k
        else returned (record k { tasks = raise (k.tasks t).parent sigchld k.tasks }))
    else returned k

pub data Found : Type 0 where
  found : ℕ → Found
  missing : Found
  lost : Found

-- `do { … task = task->next; } while (task != start && task != 0);` with a return at the pid.
-- `lost` means that the fuel ran out.
pub find : ℕ → ℕ → ℕ → ℕ → Tasks → Found
find zero pid task start ts = lost
find (suc fuel) pid task start ts =
    let next = (ts task).next in
    let rest = find fuel pid next start ts in
    if (ts task).id == pid
    then found task
    else if not (next == start) && not (next == null)
    then rest
    else missing

-- What `task_send_signal` returns: 0, or -1; or it does not return.
pub data Sent : Type 0 where
  sent : Kernel → Sent
  failed : Kernel → Sent
  never : Kernel → Sent
  no_fuel : Sent

abbrev pub lock : Kernel → Kernel
lock k = record k { rq_locked = true }

abbrev pub unlock : Kernel → Kernel
unlock k = record k { rq_locked = false }

pub after_delivery : Outcome → Sent
after_delivery (returned k) = sent (unlock k)
after_delivery (parked k) = never k
after_delivery out_of_fuel = no_fuel

pub send_to : ℕ → ℕ → Kernel → Found → Sent
unfolding after_delivery
send_to fuel sig k (found t) = after_delivery (deliver fuel t sig (lock k))
send_to fuel sig k missing = failed (unlock (lock k))
send_to fuel sig k lost = no_fuel

-- `task_send_signal`
pub send : ℕ → ℕ → ℕ → Kernel → Sent
unfolding send_to
send fuel pid sig k =
    if pid == 2
    then failed k
    else if k.ready_queue == null
    then failed (unlock (lock k))
    else send_to fuel sig k (find fuel pid k.ready_queue k.ready_queue k.tasks)

-- The walk of `task_send_sigint_foreground` and of `kill_all_children`: the signal goes to every
-- task with an id above 2.
pub signal_all : ℕ → ℕ → ℕ → ℕ → Kernel → Outcome
signal_all zero sig task start k = out_of_fuel
signal_all (suc fuel) sig task start k =
    let go = λ (k' : Kernel).
      let next = (k'.tasks task).next in
      let rest = signal_all fuel sig next start k' in
      if not (next == start) && not (next == null) then rest else returned k' in
    if ltb 2 (k.tasks task).id
    then elim (deliver fuel task sig k) [
      | returned k' ↦ go k'
      | parked k' ↦ parked k'
      | out_of_fuel ↦ out_of_fuel
    ]
    else go k

pub release : Outcome → Outcome
release (returned k) = returned (unlock k)
release (parked k) = parked k
release out_of_fuel = out_of_fuel

-- `task_send_sigint_foreground`
pub send_sigint_foreground : ℕ → Kernel → Outcome
unfolding release
send_sigint_foreground fuel k =
    if k.ready_queue == null
    then returned (unlock (lock k))
    else release (signal_all fuel sigint k.ready_queue k.ready_queue (lock k))

-- `kill_all_children`, which takes no lock.
pub kill_all_children : ℕ → Kernel → Outcome
kill_all_children fuel k =
    if k.ready_queue == null
    then returned k
    else signal_all fuel sigkill k.ready_queue k.ready_queue k

pub kill_found : ℕ → Kernel → Found → Outcome
kill_found fuel k (found t) = deliver fuel t sigkill k
kill_found fuel k missing = returned k
kill_found fuel k lost = out_of_fuel

-- `kill`, which takes no lock.
pub kill : ℕ → ℕ → Kernel → Outcome
unfolding kill_found
kill fuel pid k =
    if k.ready_queue == null
    then returned k
    else if pid == 2
    then returned k
    else kill_found fuel k (find fuel pid k.ready_queue k.ready_queue k.tasks)
