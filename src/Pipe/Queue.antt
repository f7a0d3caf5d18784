-- ===== src/Pipe/Queue.antt =====
-- What a pipe promises: a queue of at most `cap` bytes, oldest first.
use curls.Prelude.{ℕ, ◌-◌, List, ◌++◌, min}
use curls.Prelude.Tests.{◌==◌, if◌then◌else◌}
use curls.Prelude.Lists.{length, take, drop}

abbrev pub Queue : Type 0
Queue = List ℕ

-- What `pipe_write` returns: a count, `(uint32_t)-1` without a reader, or a panic.
pub data Written : Type 0 where
  wrote : ℕ → Written
  broken : Written
  panicked : Written

-- A read of `size` bytes gives the oldest, as many as there are.
unfoldable pub read : ℕ → Queue → List ℕ × Queue
read size q = (take size q, drop size q)

-- A write fails without a reader. Else it appends as many bytes as there is room for.
unfoldable pub write : ℕ → ℕ → List ℕ → Queue → Written × Queue
write cap readers bytes q =
    if readers == 0
    then (broken, q)
    else (wrote (min (length bytes) (cap - length q)), q ++ take (cap - length q) bytes)
