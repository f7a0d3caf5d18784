-- ===== src/Task/Sleep.antt =====
-- The sleep queue of kernel/core/task.c (`sleepq_insert`, `sleepq_remove`) and the loop of
-- kernel/cpu/timer.c that wakes its head: a singly linked list through `sleep_next`.
pub mod Chain
pub mod Erase
pub mod Behind
pub mod Link
pub mod Insert
pub mod Remove
pub mod Unlink
pub mod Wake
mod Tests
use curls.Prelude.{ℕ, zero, suc, ◌+◌, Bool, true, false, ◌&&◌, ◌||◌, Option, none, some}
use curls.Prelude.Tests.{not, ltb, leb, ◌==◌, if◌then◌else◌}
use curls.Prelude.Store.{update}
use curls.Task.{Task, Tasks, ready, is_waiting, null}

-- The global `sleep_queue` and the tasks.
pub record Sleepers : Type 0 where
  pub head : ℕ
  pub tasks : Tasks

-- `t->sleep_next = prev->sleep_next; prev->sleep_next = t;`
pub link_after : ℕ → ℕ → Tasks → Tasks
link_after t prev ts =
    let linked = update ts t (record (ts t) { sleep_next = (ts prev).sleep_next }) in
    update linked prev (record (linked prev) { sleep_next = t })

-- `while (prev->sleep_next && prev->sleep_next->sleep_until <= wake_tick) …` and the two writes
-- behind it, on fuel; `none` means that the fuel ran out.
pub insert_loop : ℕ → ℕ → ℕ → ℕ → Tasks → Option Tasks
insert_loop zero t wake_tick prev ts = none
insert_loop (suc fuel) t wake_tick prev ts =
    let next = (ts prev).sleep_next in
    let rest = insert_loop fuel t wake_tick next ts in
    if not (next == null) && leb (ts next).sleep_until wake_tick
    then rest
    else some (link_after t prev ts)

pub with_tasks : ℕ → Option Tasks → Option Sleepers
with_tasks head none = none
with_tasks head (some ts) = some (record { head = head; tasks = ts })

-- `t->sleep_until = wake_tick; t->sleep_next = NULL;`
pub prepare : ℕ → ℕ → Tasks → Tasks
prepare t wake_tick ts = update ts t (record (ts t) { sleep_until = wake_tick; sleep_next = null })

-- `t->sleep_next = sleep_queue;`
pub push : ℕ → ℕ → Tasks → Tasks
push t head ts = update ts t (record (ts t) { sleep_next = head })

-- `sleepq_insert`
pub insert : ℕ → ℕ → ℕ → Sleepers → Option Sleepers
unfolding with_tasks
insert fuel t wake_tick s =
    let ts = prepare t wake_tick s.tasks in
    if (s.head == null) || leb wake_tick (ts s.head).sleep_until
    then some (record { head = t; tasks = push t s.head ts })
    else with_tasks s.head (insert_loop fuel t wake_tick s.head ts)

-- `t->sleep_next = NULL;`
pub detach : ℕ → Tasks → Tasks
detach t ts = update ts t (record (ts t) { sleep_next = null })

-- `prev->sleep_next = t->sleep_next; t->sleep_next = NULL;`
pub unlink : ℕ → ℕ → Tasks → Tasks
unfolding detach
unlink t prev ts = detach t (update ts prev (record (ts prev) { sleep_next = (ts t).sleep_next }))

-- `while (prev && prev->sleep_next != t) prev = prev->sleep_next;` and the unlinking behind it.
pub remove_loop : ℕ → ℕ → ℕ → Tasks → Option Tasks
remove_loop zero t prev ts = none
remove_loop (suc fuel) t prev ts =
    let rest = remove_loop fuel t (ts prev).sleep_next ts in
    if prev == null
    then some (detach t ts)
    else if (ts prev).sleep_next == t
    then some (unlink t prev ts)
    else rest

-- `t->sleep_until = 0;`
pub unset : ℕ → Tasks → Tasks
unset t ts = update ts t (record (ts t) { sleep_until = 0 })

-- `sleepq_remove`
pub remove : ℕ → ℕ → Sleepers → Option Sleepers
unfolding with_tasks
remove fuel t s =
    let ts = unset t s.tasks in
    if (s.tasks t).sleep_until == 0
    then some s
    else if s.head == t
    then some (record { head = (ts t).sleep_next; tasks = detach t ts })
    else with_tasks s.head (remove_loop fuel t s.head ts)

-- What `timer_callback` does with the task at the head of the queue.
pub wake_one : ℕ → Tasks → Tasks
wake_one t ts = update ts t (record (ts t) {
  sleep_next = null;
  sleep_until = 0;
  state = if is_waiting (ts t).state then ready else (ts t).state;
})

-- `while (sleep_queue && cur_tick >= sleep_queue->sleep_until)` of `timer_callback`.
pub wake : ℕ → ℕ → Sleepers → Option Sleepers
wake zero cur_tick s = none
wake (suc fuel) cur_tick s =
    let rest =
      wake fuel cur_tick
        (record { head = (s.tasks s.head).sleep_next; tasks = wake_one s.head s.tasks }) in
    if not (s.head == null) && leb (s.tasks s.head).sleep_until cur_tick then rest else some s
