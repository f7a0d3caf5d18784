-- ===== src/Vfs/Tests.antt =====
-- Descriptors at concrete inputs: the file at 5 is open as 3, and as 4 in another task.
use curls.Prelude.{
  ℕ, ◌+◌, ◌<◌, ◌≡◌, ◌≢◌, ◌⊎◌, refl, false, Option, some, List, [], ◌∷◌, ◌++◌, arith,
}
use curls.Prelude.Int.{pos, negsuc, minus_one}
use curls.Prelude.Lists.{replicate}
use curls.Prelude.Store.{update}
use curls.Task.{Task, null, ready}
use curls.Pipe.{Pipe}
use curls.Vfs.{
  Vfs, slot, lookup, index, close, close_all_fds, dup, open_node, fork_table, first_free,
}
use curls.Prelude.Bits.{test_bit}
use curls.Vfs.Refs.{Counted, is_reader, is_writer}
use curls.Vfs.Close.{Closed, close-Closed, close_all_fds-Emptied}
use curls.Vfs.Dup.{Lowest, AllUsed, Attached, dup-Attached}
use curls.Vfs.Fork.{fork_table-Counted}
use curls.Vfs.Open.{Opened, Truncated, open_node-Opened}
use curls.Vfs.Pipes.{NewPipe, pipe}
use curls.Vfs.Pipes.Made.{IsNew, PipeResult, pipe-PipeResult}
use curls.Vfs.Steps.{here, next, closes, duplicates, exits, Reach-Counted}
use curls.Vfs.Offset.{base, seek, sought, plus, seek-sought, dup_shares, GoesOn, bytes_at, read}

abbrev idle : Task
idle = record {
  id = 0;
  parent = 0;
  state = ready;
  next = 0;
  pending_signals = 0;
  sigterm_handler = 0;
  saved_eip = 0;
  saved_esp = 0;
  in_signal = false;
  sleep_until = 0;
  sleep_next = 0;
  exit_code = 0;
}

abbrev no_pipe : Pipe
no_pipe = record {
  buffer = [];
  head = 0;
  tail = 0;
  len = 0;
  size = 0;
  readers = 0;
  writers = 0;
  waiting_task = 0;
}

abbrev shared : Vfs
unfolding update
shared = record {
  files =
      update (λ _. record { node = 0; offset = 0; flags = 0; refcount = 0 }) 5
        (record { node = 9; offset = 100; flags = 2; refcount = 2 });
  nodes = λ _. record { flags = 1; length = 400; impl = 0; has_close = false };
  pipes = λ _. no_pipe;
  table = 0 ∷ 0 ∷ 0 ∷ 5 ∷ replicate 28 0;
  others = 5 ∷ [];
  tasks = λ _. idle;
  pipe_count = 0;
  events = [];
}

shared-Counted : Counted shared
unfolding shared is_reader is_writer test_bit update
shared-Counted = record {
  refs = λ f. ground arith;
  readers = λ p. ground arith;
  writers = λ p. ground arith;
  size = refl;
  room = omega arith;
}

close-Closed_example :
    ((lookup (pos 3) shared ≡ null) × (close (pos 3) shared ≡ (minus_one, shared)))
    ⊎ ((lookup (pos 3) shared ≢ null)
        × (v' : Vfs) × (close (pos 3) shared ≡ (pos 0, v'))
        × Closed shared (index (pos 3)) v')
close-Closed_example = close-Closed shared (pos 3) shared-Counted

close_all_fds-Emptied_example :
    Counted (close_all_fds shared)
    × ((close_all_fds shared).others ≡ shared.others)
    × ((fd : ℕ) → slot fd (close_all_fds shared) ≡ null)
close_all_fds-Emptied_example = close_all_fds-Emptied shared shared-Counted

dup-Attached_example :
    ((dup (pos 3) shared ≡ (minus_one, shared))
      × ((lookup (pos 3) shared ≡ null) ⊎ AllUsed 3 32 shared.table))
    ⊎ ((fd : ℕ) × (v' : Vfs) × (dup (pos 3) shared ≡ (pos fd, v'))
        × (fd < 32)
        × (lookup (pos 3) shared ≢ null)
        × Lowest 3 shared.table fd
        × Attached shared fd (lookup (pos 3) shared) v')
dup-Attached_example = dup-Attached shared (pos 3) shared-Counted

fork_table-Counted_example :
    Counted (fork_table shared)
    × ((fork_table shared).table ≡ shared.table)
    × ((fork_table shared).others ≡ shared.others ++ shared.table)
unfolding shared
fork_table-Counted_example = fork_table-Counted shared shared-Counted (omega arith)

open_node-Opened_example :
    ((v' : Vfs) × (open_node 6 9 514 shared ≡ (minus_one, v'))
      × AllUsed 3 32 shared.table
      × Counted v'
      × Truncated shared 9 514 v')
    ⊎ ((fd : ℕ) × (v' : Vfs) × (open_node 6 9 514 shared ≡ (pos fd, v'))
        × (fd < 32)
        × Lowest 3 shared.table fd
        × Opened shared 6 9 514 fd v')
unfolding shared test_bit
open_node-Opened_example = open_node-Opened 6 9 514 shared shared-Counted (omega arith) refl refl

seek-sought_example :
    seek (pos 3) (negsuc 29) 1 shared ≡ sought (lookup (pos 3) shared) shared (plus 100 (negsuc 29))
unfolding shared update base
seek-sought_example =
    seek-sought (pos 3) (negsuc 29) 1 100 shared (omega arith) refl (omega arith) refl

-- A medium that is a number, and a node whose functions move up to one byte.
abbrev one_byte_read : ℕ → Option (ℕ → ℕ → ℕ → ℕ × List ℕ × ℕ)
one_byte_read n = some (λ offset size m. (1, m ∷ [], m))

abbrev one_byte_write : ℕ → Option (ℕ → ℕ → List ℕ → ℕ → ℕ × ℕ)
one_byte_write n = some (λ offset size bytes m. (1, m + 1))

abbrev doubled : Vfs
doubled = (dup (pos 3) shared).1

dup_shares_example :
    GoesOn ℕ one_byte_read one_byte_write
      (lookup (pos 3) doubled)
      (pos 6)
      doubled
      (bytes_at ℕ one_byte_read one_byte_write
        (doubled.files (lookup (pos 3) doubled))
        (pos 8)
        (doubled.files (lookup (pos 3) doubled)).offset
        2).0
      (bytes_at ℕ one_byte_read one_byte_write
        (doubled.files (lookup (pos 3) doubled))
        (pos 8)
        (doubled.files (lookup (pos 3) doubled)).offset
        2).2
      (read ℕ one_byte_read one_byte_write
        (pos 4)
        (pos 6)
        (read ℕ one_byte_read one_byte_write (pos 3) (pos 8) doubled 2).2
        (read ℕ one_byte_read one_byte_write (pos 3) (pos 8) doubled 2).3)
unfolding shared dup first_free update test_bit
dup_shares_example =
    dup_shares ℕ one_byte_read one_byte_write shared doubled (pos 3) 4 (pos 8) (pos 6) 2
      shared-Counted refl (omega arith) (omega arith)

abbrev made : NewPipe
made = record { pipe = 20; buffer = []; node = 21; reader = 22; writer = 23 }

made-IsNew : IsNew made shared
unfolding shared is_reader is_writer test_bit update
made-IsNew = record {
  unused = refl;
  reader = omega arith;
  writer = omega arith;
  pipe = omega arith;
  apart = omega arith;
}

pipe-PipeResult_example : PipeResult made shared (pipe made shared)
pipe-PipeResult_example = pipe-PipeResult made shared shared-Counted made-IsNew

Reach-Counted_example :
    Counted (close_all_fds (dup (pos 3) (close (pos 4) (dup (pos 3) shared).1).1).1)
Reach-Counted_example =
    Reach-Counted
      (next
        (next (next (next here (duplicates shared (pos 3))) (closes _ (pos 4)))
          (duplicates _ (pos 3)))
        (exits _))
      shared-Counted
