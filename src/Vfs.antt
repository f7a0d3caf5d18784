-- ===== src/Vfs.antt =====
-- The descriptor half of kernel/core/vfs_core.c, the inheritance of descriptors in
-- kernel/core/task.c and `pipe` of kernel/core/pipe.c: open files with a count of references,
-- the descriptor table of the running task, and the slots of all other tasks.
pub mod Counts
pub mod Refs
pub mod Attach
pub mod Detach
pub mod Close
pub mod Dup
pub mod Fork
pub mod Open
pub mod Offset
pub mod Pipes
pub mod Steps
mod Tests
use curls.Prelude.{
  ℕ, zero, suc, ◌+◌, ◌-◌, ◌%◌, ◌^◌, Bool, true, false, ◌&&◌, ◌||◌, Option, none, some, List, [],
  ◌∷◌, ◌++◌,
}
use curls.Prelude.Tests.{not, ltb, leb, ◌==◌, if◌then◌else◌}
use curls.Prelude.Int.{ℤ, pos, negsuc, minus_one}
use curls.Prelude.Lists.{get_or, set}
use curls.Prelude.Bits.{test_bit}
use curls.Prelude.Store.{update}
use curls.Task.{Tasks, null}
use curls.Pipe
use curls.Pipe.{Pipe, World, inc32, dec32}

abbrev pub max_fd : ℕ
max_fd = 32

abbrev pub first_user_fd : ℕ
first_user_fd = 3

-- `file_t`
pub record File : Type 0 where
  pub node : ℕ
  pub offset : ℕ
  pub flags : ℕ
  pub refcount : ℕ

-- What the descriptors read of `fs_node_t`; `has_close` is whether `close` is set.
pub record Node : Type 0 where
  pub flags : ℕ
  pub length : ℕ
  pub impl : ℕ
  pub has_close : Bool

-- Calls to the allocator and to the node, in the order they are made.
pub data Event : Type 0 where
  freed_file freed_node freed_pipe freed_buffer freed_impl : ℕ → Event
  closed : ℕ → Event
  zeroed : ℕ → Event

-- The objects by address; the table of one task; the slots of the others, in no special order.
pub record Vfs : Type 0 where
  pub files : ℕ → File
  pub nodes : ℕ → Node
  pub pipes : ℕ → Pipe
  pub table : List ℕ
  pub others : List ℕ
  pub tasks : Tasks
  pub pipe_count : ℕ
  pub events : List Event

abbrev pub is_pipe : Node → Bool
is_pipe n = test_bit n.flags 12

abbrev pub is_persistent : Node → Bool
is_persistent n = test_bit n.flags 13

abbrev pub is_transient : Node → Bool
is_transient n = test_bit n.flags 4

abbrev pub owns_impl : Node → Bool
owns_impl n = test_bit n.flags 5

-- `f->flags & O_WRONLY`
abbrev pub is_wronly : File → Bool
is_wronly f = test_bit f.flags 0

-- `file_create` for an object at the address that `kmalloc` gives.
pub file_create : ℕ → ℕ → ℕ → Vfs → Vfs
file_create a node flags v = record v {
  files = update v.files a (record { node = node; offset = 0; flags = flags; refcount = 1 });
}

-- A call of pipe.c at the pipe at an address; it does nothing at NULL.
pub at_pipe : (World → World) → ℕ → Vfs → Vfs
at_pipe op p v =
    let w = op (record { pipe = v.pipes p; tasks = v.tasks; count = v.pipe_count }) in
    if p == null
    then v
    else record v { pipes = update v.pipes p w.pipe; tasks = w.tasks; pipe_count = w.count }

-- `if (f->node->flags & FS_PIPE) …` with `pipe_remove_writer` or `pipe_remove_reader`
pub remove_end : File → Vfs → Vfs
unfolding at_pipe
remove_end f v =
    let n = v.nodes f.node in
    if not (is_pipe n)
    then v
    else if is_wronly f
    then at_pipe Pipe.remove_writer n.impl v
    else at_pipe Pipe.remove_reader n.impl v

pub add_end : File → Vfs → Vfs
unfolding at_pipe
add_end f v =
    let n = v.nodes f.node in
    if not (is_pipe n)
    then v
    else if is_wronly f
    then at_pipe Pipe.add_writer n.impl v
    else at_pipe Pipe.add_reader n.impl v

-- What happens to the node of a file without references. The buffer of a pipe is never NULL.
unfoldable pub node_events : ℕ → Vfs → List Event
node_events node v =
    let n = v.nodes node in
    let p = v.pipes n.impl in
    if is_persistent n
    then []
    else if is_pipe n
    then (if (p.readers == 0) && (p.writers == 0)
        then freed_buffer n.impl ∷ freed_pipe n.impl ∷ freed_node node ∷ []
        else [])
    else (if n.has_close then closed node ∷ [] else [])
      ++ (if not (is_transient n)
          then []
          else (if owns_impl n && not (n.impl == 0) then freed_impl n.impl ∷ [] else [])
            ++ freed_node node ∷ [])

unfoldable pub teardown : ℕ → Vfs → Vfs
unfolding node_events
teardown f v = record v {
  events = v.events ++ (node_events (v.files f).node v ++ freed_file f ∷ []);
}

pub set_refcount : ℕ → ℕ → Vfs → Vfs
set_refcount f n v = record v { files = update v.files f (record (v.files f) { refcount = n }) }

-- From `f->refcount--` to the end of `close`, which `vfs_close_all_fds` repeats.
unfoldable pub drop_ref : ℕ → Vfs → Vfs
unfolding teardown remove_end set_refcount
drop_ref f v =
    let count = dec32 (v.files f).refcount in
    let left = remove_end (v.files f) (set_refcount f count v) in
    if count == 0 then teardown f left else left

-- `f->refcount++;` and `pipe_add_writer` or `pipe_add_reader`
pub add_ref : ℕ → Vfs → Vfs
unfolding add_end set_refcount
add_ref f v = add_end (v.files f) (set_refcount f (inc32 (v.files f).refcount) v)

pub put_slot : ℕ → ℕ → Vfs → Vfs
put_slot fd f v = record v { table = set v.table fd f }

abbrev pub slot : ℕ → Vfs → ℕ
slot fd v = get_or v.table fd null

-- `current_task->fd_table[fd]`, and NULL where the code's tests refuse the number.
abbrev pub lookup : ℤ → Vfs → ℕ
lookup (negsuc n) v = null
lookup (pos n) v = if ltb n max_fd then slot n v else null

abbrev pub index : ℤ → ℕ
index (negsuc n) = 0
index (pos n) = n

pub close_slot : ℕ → Vfs → Vfs
unfolding drop_ref put_slot
close_slot fd v = drop_ref (slot fd v) (put_slot fd null v)

-- `close`
pub close : ℤ → Vfs → ℤ × Vfs
unfolding close_slot
close fd v = if lookup fd v == null then (minus_one, v) else (pos 0, close_slot (index fd) v)

-- `for (int i = …; i < MAX_FD; i++)` of `vfs_close_all_fds`, with the rounds that are left.
pub close_from : ℕ → ℕ → Vfs → Vfs
unfolding close_slot
close_from zero i v = v
close_from (suc k) i v =
    let here = if slot i v == null then v else close_slot i v in close_from k (i + 1) here

-- `vfs_close_all_fds`, for the task whose table `table` is.
pub close_all_fds : Vfs → Vfs
unfolding close_from
close_all_fds v = close_from max_fd 0 v

-- The search for a free descriptor, with the rounds that are left.
unfoldable pub first_free : ℕ → ℕ → List ℕ → Option ℕ
first_free zero i table = none
first_free (suc k) i table =
    let rest = first_free k (i + 1) table in if get_or table i null == null then some i else rest

abbrev pub free_fd : Vfs → Option ℕ
free_fd v = first_free (max_fd - first_user_fd) first_user_fd v.table

pub dup_to : ℕ → Option ℕ → Vfs → ℤ × Vfs
unfolding add_ref put_slot
dup_to f none v = (minus_one, v)
dup_to f (some fd) v = (pos fd, add_ref f (put_slot fd f v))

-- `dup`
unfoldable pub dup : ℤ → Vfs → ℤ × Vfs
unfolding dup_to
dup oldfd v = let f = lookup oldfd v in if f == null then (minus_one, v) else dup_to f (free_fd v) v

abbrev pub in_range : ℤ → Bool
in_range (negsuc n) = false
in_range (pos n) = ltb n max_fd

-- `dup2`
pub dup2 : ℤ → ℤ → Vfs → ℤ × Vfs
unfolding close add_ref put_slot
dup2 oldfd newfd v =
    let f = lookup oldfd v in
    let emptied = if slot (index newfd) v == null then v else (close newfd v).1 in
    if not (in_range newfd)
    then (minus_one, v)
    else if f == null
    then (minus_one, v)
    else if index oldfd == index newfd
    then (newfd, v)
    else (newfd, add_ref f (put_slot (index newfd) f emptied))

-- `if ((flags & O_TRUNC) && (flags & O_WRONLY || flags & O_RDWR))`
pub truncate : ℕ → ℕ → Vfs → Vfs
truncate node flags v =
    let n = v.nodes node in
    if test_bit flags 9 && (test_bit flags 0 || test_bit flags 1)
    then record v {
      nodes = update v.nodes node (record n { length = 0 });
      events = v.events ++ (if n.impl == 0 then [] else zeroed n.impl ∷ []);
    }
    else v

pub open_at : ℕ → ℕ → ℕ → Option ℕ → Vfs → ℤ × Vfs
unfolding file_create put_slot
open_at a node flags none v = (minus_one, v)
open_at a node flags (some fd) v = (pos fd, put_slot fd a (file_create a node flags v))

-- `open` from the point where the node is found; the file goes to the address `a`.
pub open_node : ℕ → ℕ → ℕ → Vfs → ℤ × Vfs
unfolding truncate open_at
open_node a node flags v = open_at a node flags (free_fd v) (truncate node flags v)

-- One descriptor that a child inherits: `child->fd_table[i] = current_task->fd_table[i]`.
pub inherit : ℕ → Vfs → Vfs
unfolding add_ref
inherit f v =
    if f == null
    then record v { others = v.others ++ null ∷ [] }
    else add_ref f (record v { others = v.others ++ f ∷ [] })

-- The loop over the descriptors in `task_fork`.
pub inherit_all : List ℕ → Vfs → Vfs
unfolding inherit
inherit_all [] v = v
inherit_all (f ∷ fs) v = inherit_all fs (inherit f v)

pub fork_table : Vfs → Vfs
unfolding inherit_all
fork_table v = inherit_all v.table v
