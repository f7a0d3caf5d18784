-- ===== src/Vfs/Pipes.antt =====
-- `pipe` of kernel/core/pipe.c: a pipe with two open files on one node, in two free descriptors.
pub mod Search
pub mod Made
use curls.Prelude.{
  ℕ, zero, suc, ◌+◌, ◌-◌, ◌<◌, ◌≤◌, ◌≡◌, refl, sym, subst, ap, ◌∙◌, ◌≢◌, inl, inr, Bool, true,
  false, ◌&&◌, ◌||◌, Option, none, some, List, [], ◌∷◌, ◌++◌, ◌^◌, arith,
}
use curls.Prelude.Tests.{ltb, leb, not, ◌==◌, if◌then◌else◌, Bool-cases, if_elim}
use curls.Prelude.Lists.{
  length, get_or, set, length-set, length-append, get_or-set_self, get_or-set_ne,
}
use curls.Prelude.Store.{update, at_or_else}
use curls.Prelude.Bits.{test_bit}
use curls.Task.{null}
use curls.Pipe.{fresh, inc32, pipe_size}
use curls.Vfs.{Vfs, slot, put_slot, file_create, max_fd, first_user_fd}
use curls.Vfs.Counts.{tally, is, one_if, tally-append, tally-set, tally-where, tally-never}
use curls.Vfs.Refs.{slots, Counted, is_reader, is_writer}

-- `for (int i = FIRST_USER_FD; …)` of `pipe`, with the rounds that are left and `rfd` if it is set.
unfoldable pub two_free : ℕ → ℕ → List ℕ → Option ℕ → Option (ℕ × ℕ)
two_free zero i table first = none
two_free (suc k) i table none =
    let found = two_free k (i + 1) table (some i) in
    let rest = two_free k (i + 1) table none in if get_or table i null == null then found else rest
two_free (suc k) i table (some rfd) =
    let rest = two_free k (i + 1) table (some rfd) in
    if get_or table i null == null then some (rfd, i) else rest

-- What `kmalloc` gives: the pipe and its buffer, the node, the reading file and the writing file.
pub record NewPipe : Type 0 where
  pub pipe : ℕ
  pub buffer : List ℕ
  pub node : ℕ
  pub reader : ℕ
  pub writer : ℕ

-- `pipe_create_node`
pub pipe_create_node : ℕ → ℕ → Vfs → Vfs
pipe_create_node a p v = record v {
  nodes = update v.nodes a (record { flags = 4112; length = 0; impl = p; has_close = false });
}

-- The objects of `pipe`.
pub make_pipe : NewPipe → Vfs → Vfs
unfolding file_create pipe_create_node
make_pipe m v = file_create m.writer m.node 1 (
    file_create m.reader m.node 0 (
      pipe_create_node m.node m.pipe (record v {
        pipes =
            update v.pipes m.pipe (record (fresh m.buffer pipe_size) { readers = 1; writers = 1 });
        pipe_count = inc32 v.pipe_count;
      })))

pub pipe_at : NewPipe → Option (ℕ × ℕ) → Vfs → Option (ℕ × ℕ) × Vfs
unfolding put_slot
pipe_at m none v = (none, v)
pipe_at m (some (rfd, wfd)) v = (some (rfd, wfd), put_slot wfd m.writer (put_slot rfd m.reader v))

-- `pipe`: the two descriptors, or none for -1.
unfoldable pub pipe : NewPipe → Vfs → Option (ℕ × ℕ) × Vfs
unfolding make_pipe pipe_at
pipe m v = pipe_at m (two_free (max_fd - first_user_fd) first_user_fd v.table none) (make_pipe m v)
