-- ===== src/Task/Sched.antt =====
-- The choice of the next task: `round_robin_pick_next` of kernel/modules/sched_rr and the second and
-- third phase of `task_switch` in kernel/core/task.c, on one CPU; and the count of
-- children in `wait_for_children`. Walks round the ready queue run on fuel.
pub mod RoundRobin
pub mod Switch
mod Tests
use curls.Prelude.{
  ℕ, zero, suc, ◌+◌, Bool, true, false, ◌&&◌, ◌||◌, Option, none, some, List, [], ◌∷◌,
}
use curls.Prelude.Tests.{not, ◌==◌, if◌then◌else◌}
use curls.Prelude.Store.{update}
use curls.Task.{Task, Tasks, TaskState, ready, running, is_ready, is_running, is_zombie, null}

-- `while (next_task && next_task->state != TASK_READY && next_task != current_task) …`
pub pick_loop : ℕ → ℕ → ℕ → ℕ → Tasks → Option ℕ
pick_loop zero t queue current ts = none
pick_loop (suc fuel) t queue current ts =
    let next = if (ts t).next == null then queue else (ts t).next in
    let rest = pick_loop fuel next queue current ts in
    if not (t == null) && (not (is_ready (ts t).state) && not (t == current)) then rest else some t

-- The task to run: the current one where the walk ends at NULL.
pub or_current : ℕ → Option ℕ → Option ℕ
or_current current none = none
or_current current (some t) = if t == null then some current else some t

-- `round_robin_pick_next`; `none` means that the fuel ran out.
pub pick_next : ℕ → ℕ → ℕ → Tasks → Option ℕ
unfolding pick_loop or_current
pick_next fuel queue current ts =
    let first =
      if current == null
      then queue
      else if (ts current).next == null
      then queue
      else (ts current).next in
    if queue == null
    then some current
    else or_current current (pick_loop fuel first queue current ts)

-- The walk of `task_switch` without a registered scheduler, with the rounds that are left.
pub walk_ready : ℕ → ℕ → ℕ → Tasks → ℕ
walk_ready zero t prev ts = prev
walk_ready (suc k) t prev ts =
    let rest = walk_ready k (ts t).next prev ts in
    if (t == null) || (t == prev) then prev else if is_ready (ts t).state then t else rest

-- The choice in `task_switch`: by the scheduler if one is registered. The walk is left as soon as it has made
-- more than MAX_TASKS + 2 rounds.
pub choose : Bool → ℕ → ℕ → ℕ → Tasks → Option ℕ
unfolding pick_next walk_ready
choose true fuel queue prev ts = pick_next fuel queue prev ts
choose false fuel queue prev ts = some (walk_ready 131 (ts prev).next prev ts)

pub set_state : ℕ → TaskState → Tasks → Tasks
set_state t st ts = update ts t (record (ts t) { state = st })

-- `if (prev_task->state == TASK_RUNNING) prev_task->state = TASK_READY;`
pub preempt : ℕ → Tasks → Tasks
unfolding set_state
preempt prev ts = if is_running (ts prev).state then set_state prev ready ts else ts

pub switch_to : Tasks → Option ℕ → Option (ℕ × Tasks)
unfolding set_state
switch_to ts none = none
switch_to ts (some next) = some (next, set_state next running ts)

-- From `spin_lock(&rq_lock)` to the unlock: the new current task and the states. Both branches of
-- the code, the same task again and another one, set the state of the chosen one.
pub switch : Bool → ℕ → ℕ → ℕ → Tasks → Option (ℕ × Tasks)
unfolding preempt switch_to choose
switch registered fuel queue prev ts =
    switch_to (preempt prev ts) (choose registered fuel queue prev (preempt prev ts))

-- What the walk of `wait_for_children` counts.
pub record Children : Type 0 where
  pub active : ℕ
  pub zombies : ℕ
  pub status : ℕ

pub count_child : ℕ → ℕ → Tasks → Children → Children
count_child self t ts n =
    if not ((ts t).parent == self)
    then n
    else if is_zombie (ts t).state
    then record n { zombies = n.zombies + 1; status = (ts t).exit_code }
    else record n { active = n.active + 1 }

pub count_children : ℕ → ℕ → ℕ → ℕ → Tasks → Children → Option Children
unfolding count_child
count_children zero self t start ts n = none
count_children (suc fuel) self t start ts n =
    let next = (ts t).next in
    let rest = count_children fuel self next start ts (count_child self t ts n) in
    if not (next == start) && not (next == null) then rest else some (count_child self t ts n)
