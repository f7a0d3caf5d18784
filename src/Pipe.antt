-- ===== src/Pipe.antt =====
-- kernel/core/pipe.c: a byte ring with reader and writer counts and one waiting task.
pub mod Queue
pub mod Inv
pub mod Refine
pub mod Block
pub mod Refs
mod Tests
use curls.Prelude.{
  ℕ, zero, suc, ◌+◌, ◌-◌, ◌%◌, ◌^◌, Bool, true, false, ◌&&◌, ◌||◌, Option, none, some, List, [],
  ◌∷◌,
}
use curls.Prelude.Tests.{ltb, ◌==◌, if◌then◌else◌}
use curls.Prelude.Lists.{get_or, set, replicate}
use curls.Prelude.Store.{update}
use Queue.{Written, wrote, broken, panicked}
use curls.Task.{TaskState, Task, Tasks, ready, waiting, is_waiting, null}

-- `pipe_t`. Bytes are only moved, so a byte is any number. `waiting_task` is an address or 0.
pub record Pipe : Type 0 where
  pub buffer : List ℕ
  pub head : ℕ
  pub tail : ℕ
  pub len : ℕ
  pub size : ℕ
  pub readers : ℕ
  pub writers : ℕ
  pub waiting_task : ℕ

abbrev pub pipe_size : ℕ
pipe_size = 4096

-- `uint32_t` increment
abbrev pub inc32 : ℕ → ℕ
inc32 a = (a + 1) % 2 ^ 32

-- `int` decrement, on its bit pattern
abbrev pub dec32 : ℕ → ℕ
dec32 a = (a + 2 ^ 32 - 1) % 2 ^ 32

-- A pipe, the tasks it may wake, and the global `debug_pipe_count` (an `int` that counts pipes).
pub record World : Type 0 where
  pub pipe : Pipe
  pub tasks : Tasks
  pub count : ℕ

abbrev pub fresh : List ℕ → ℕ → Pipe
fresh storage size = record {
  buffer = storage;
  head = 0;
  tail = 0;
  len = 0;
  size = size;
  readers = 0;
  writers = 0;
  waiting_task = null;
}

-- `pipe_create`, with whether `kmalloc` has room for the `pipe_t`, what it gives for the buffer,
-- the size and `debug_pipe_count`; NULL is `none`.
pub create : Bool → Option (List ℕ) → ℕ → ℕ → Option Pipe × ℕ
create false storage size count = (none, count)
create true none size count = (none, count)
create true (some storage) size count = (some (fresh storage size), inc32 count)

-- One round of the copying loop of `pipe_read`.
pub take_byte : Pipe → Pipe
take_byte p = record p { tail = inc32 p.tail % p.size; len = p.len - 1 }

-- `while (read_bytes < size && p->len > 0)`, with the rounds that `size` leaves.
pub drain : ℕ → Pipe → List ℕ × Pipe
drain zero p = ([], p)
drain (suc k) p =
    let rest = drain k (take_byte p) in
    if p.len == 0 then ([], p) else (get_or p.buffer p.tail 0 ∷ rest.0, rest.1)

-- One round of the copying loop of `pipe_write`.
pub put_byte : Pipe → ℕ → Pipe
put_byte p b = record p {
  buffer = set p.buffer p.head b;
  head = inc32 p.head % p.size;
  len = inc32 p.len;
}

-- `while (written_bytes < size && p->len < p->size)` over the bytes that are left.
pub fill : List ℕ → Pipe → ℕ × Pipe
fill [] p = (0, p)
fill (b ∷ bs) p =
    let rest = fill bs (put_byte p b) in if ltb p.len p.size then (rest.0 + 1, rest.1) else (0, p)

-- `if (t->state == TASK_WAITING) t->state = TASK_READY;`
pub make_ready : ℕ → Tasks → Tasks
make_ready t tasks =
    if is_waiting (tasks t).state
    then update tasks t (record (tasks t) { state = ready })
    else tasks

-- `if (p->waiting_task) …` of `pipe_write` and `pipe_remove_writer`
pub wake_reader : Pipe → Tasks → Tasks
unfolding make_ready
wake_reader p tasks = if p.waiting_task == null then tasks else make_ready p.waiting_task tasks

pub write : List ℕ → World → Written × World
write bytes w =
    if w.pipe.readers == 0 then (broken, w) else if w.pipe.size == 0 then (panicked, w) else (
      wrote (fill bytes w.pipe).0,
      record w { pipe = (fill bytes w.pipe).1; tasks = wake_reader (fill bytes w.pipe).1 w.tasks },
    )

-- The test of the blocking loop of `pipe_read`.
pub must_wait : Pipe → Bool
must_wait p = (p.len == 0) && ltb 0 p.writers

-- What the loop does before `hlt`: the current task registers and stops being ready.
pub block : ℕ → World → World
block me w = record w {
  pipe = record (w.pipe) { waiting_task = me };
  tasks = update w.tasks me (record (w.tasks me) { state = waiting });
}

-- What it does when it runs again.
pub unblock : World → World
unblock w = record w { pipe = record (w.pipe) { waiting_task = null } }

-- What `pipe_read` does once it need not wait.
pub read_now : ℕ → World → List ℕ × World
read_now size w =
    if (w.pipe.len == 0) && (w.pipe.writers == 0)
    then ([], w)
    else ((drain size w.pipe).0, record w { pipe = (drain size w.pipe).1 })

-- `pipe_read` by task `me`. The list is what happens to the world in each halt, in turn:
-- interrupts, other tasks, the scheduler. `none` means that it still waits when the list ends.
pub read : ℕ → ℕ → List (World → World) → World → Option (List ℕ × World)
read me size [] w = if must_wait w.pipe then none else some (read_now size w)
read me size (env ∷ envs) w =
    let again = read me size envs (unblock (env (block me w))) in
    if must_wait w.pipe then again else some (read_now size w)

unfoldable pub add_reader : World → World
add_reader w = record w { pipe = record (w.pipe) { readers = inc32 w.pipe.readers } }

unfoldable pub add_writer : World → World
add_writer w = record w { pipe = record (w.pipe) { writers = inc32 w.pipe.writers } }

-- `if (p->readers == 0 && p->writers == 0) debug_pipe_count--;`
unfoldable pub drop_count : World → World
drop_count w =
    if (w.pipe.readers == 0) && (w.pipe.writers == 0) then record w { count = dec32 w.count } else w

-- `if (p->readers > 0) p->readers--` is subtraction that stops at 0.
unfoldable pub remove_reader : World → World
unfolding drop_count
remove_reader w = drop_count (record w { pipe = record (w.pipe) { readers = w.pipe.readers - 1 } })

unfoldable pub remove_writer : World → World
unfolding drop_count
remove_writer w =
    let p = record (w.pipe) { writers = w.pipe.writers - 1 } in
    drop_count
      (record w { pipe = p; tasks = if p.writers == 0 then wake_reader p w.tasks else w.tasks })
