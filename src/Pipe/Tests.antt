-- ===== src/Pipe/Tests.antt =====
-- The pipe at concrete inputs.
use curls.Prelude.{◌≡◌, refl, false, some, [], ◌∷◌, arith}
use curls.Task.{Task, null, ready, running, waiting}
use curls.Pipe
use curls.Pipe.{Pipe, World, fresh, block, unblock, read_now, remove_writer}
use curls.Pipe.Queue
use curls.Pipe.Inv.{IsValid}
use curls.Pipe.Refine.{contents, read_refines, write_refines}
use curls.Pipe.Block.{block_twice_loses_first, read_blocked_write, read_blocked_close}
use curls.Pipe.Refs.{reading, writing, close_ends, close_ends-count}

abbrev idle : Task
idle = record {
  id = 3;
  parent = 0;
  state = running;
  next = 0;
  pending_signals = 0;
  sigterm_handler = 0;
  saved_eip = 0;
  saved_esp = 0;
  in_signal = false;
  sleep_until = 0;
  sleep_next = 0;
  exit_code = 0;
}

-- Four slots; the bytes 7, 8 lie round the end.
abbrev wrapped : World
wrapped = record {
  pipe = record {
    buffer = 8 ∷ 1 ∷ 2 ∷ 7 ∷ [];
    head = 1;
    tail = 3;
    len = 2;
    size = 4;
    readers = 1;
    writers = 1;
    waiting_task = 0;
  };
  tasks = λ _. idle;
  count = 1;
}

abbrev empty : World
empty = record wrapped { pipe = record (fresh (0 ∷ 0 ∷ 0 ∷ 0 ∷ []) 4) { readers = 1; writers = 1 } }

contents-wrapped : contents wrapped.pipe ≡ 7 ∷ 8 ∷ []
contents-wrapped = refl

write_wraps : contents (Pipe.write (4 ∷ 5 ∷ 6 ∷ []) wrapped).1.pipe ≡ 7 ∷ 8 ∷ 4 ∷ 5 ∷ []
unfolding Pipe.write Pipe.fill Pipe.put_byte
write_wraps = refl

wrapped-IsValid : IsValid wrapped.pipe
wrapped-IsValid = ground arith

empty-IsValid : IsValid empty.pipe
empty-IsValid = ground arith

read_refines_example :
    ((read_now 1 wrapped).0, contents (read_now 1 wrapped).1.pipe) ≡ Queue.read 1 (7 ∷ 8 ∷ [])
read_refines_example = read_refines 1 wrapped wrapped-IsValid

write_refines_example :
    ((Pipe.write (4 ∷ []) wrapped).0, contents (Pipe.write (4 ∷ []) wrapped).1.pipe)
    ≡ Queue.write 4 1 (4 ∷ []) (7 ∷ 8 ∷ [])
write_refines_example = write_refines (4 ∷ []) wrapped wrapped-IsValid

block_twice_loses_first_example :
    (((Pipe.write (4 ∷ []) (block 9 (block 8 empty))).1.tasks 8).state ≡ waiting)
    × (((remove_writer (block 9 (block 8 empty))).tasks 8).state ≡ waiting)
block_twice_loses_first_example = block_twice_loses_first 8 9 (4 ∷ []) empty (omega arith)

read_blocked_write_example :
    (((Pipe.write (4 ∷ 5 ∷ []) (block 9 empty)).1.tasks 9).state ≡ ready)
    × (w' : World) × (Pipe.read 9 3 ((λ u. (Pipe.write (4 ∷ 5 ∷ []) u).1) ∷ []) empty
        ≡ some (4 ∷ 5 ∷ [], w'))
read_blocked_write_example =
    read_blocked_write 9 3 (4 ∷ 5 ∷ []) empty (omega arith) empty-IsValid refl (omega arith)
      (omega arith) (λ e. ground arith)

read_blocked_close_example :
    (((remove_writer (block 9 empty)).tasks 9).state ≡ ready)
    × (w' : World) × (Pipe.read 9 3 (remove_writer ∷ []) empty ≡ some ([], w'))
    × (w'.pipe.writers ≡ 0)
    × (w'.pipe.waiting_task ≡ null)
read_blocked_close_example = read_blocked_close 9 3 empty (omega arith) refl refl

close_ends-count_example :
    ((close_ends (writing ∷ reading ∷ []) wrapped).pipe.readers ≡ 0)
    × ((close_ends (writing ∷ reading ∷ []) wrapped).pipe.writers ≡ 0)
    × ((close_ends (writing ∷ reading ∷ []) wrapped).count ≡ Pipe.dec32 1)
close_ends-count_example =
    close_ends-count (writing ∷ reading ∷ []) wrapped refl refl (λ e. ground arith)
