-- ===== src/Pipe/Block.antt =====
-- The blocking loop of `pipe_read`: when it waits, who wakes it, and what it then returns.
use curls.Prelude.{
  ℕ, zero, suc, ◌-◌, ◌≡◌, refl, sym, ap, ap₂, ◌∙◌, ◌≢◌, Bool, true, false, ◌&&◌, some, List, [],
  ◌∷◌, ◌++◌, arith,
}
use curls.Prelude.Tests.{ltb, ◌==◌, if◌then◌else◌}
use curls.Prelude.Lists.{length, take}
use curls.Prelude.Store.{update}
use curls.Task.{ready, waiting, null}
use curls.Pipe
use curls.Pipe.{
  Pipe, World, make_ready, wake_reader, fill, write, must_wait, block, unblock, read_now, read,
  remove_writer, drop_count,
}
use curls.Pipe.Inv.{IsValid, block-IsValid, unblock-IsValid, write-IsValid}
use curls.Pipe.Refine.{held, contents, length-contents, write_refines, read_refines}
use curls.Pipe.Queue
use curls.Pipe.Queue.{wrote}

waiting_task-fill : (bs : List ℕ) (p : Pipe) → (fill bs p).1.waiting_task ≡ p.waiting_task
unfolding fill Pipe.put_byte
waiting_task-fill [] p = refl
waiting_task-fill (b ∷ bs) p = ground (arith, waiting_task-fill bs (Pipe.put_byte p b))

-- A task that blocked on a pipe is made ready by every write, unless that finds no reader, and by
-- the removal of a writer exactly if no other writer is left.
pub block-wakes :
    (me : ℕ) (bytes : List ℕ) (w : World)
    → me ≢ null
    → IsValid w.pipe
    → (((write bytes (block me w)).1.tasks me).state
        ≡ (if w.pipe.readers == 0 then waiting else ready))
      × (((remove_writer (block me w)).tasks me).state
          ≡ (if ltb 1 w.pipe.writers then waiting else ready))
unfolding write remove_writer wake_reader block update
block-wakes me bytes w nn v =
    (ground (arith, waiting_task-fill bytes (block me w).pipe), ground arith)

-- Only one reader is remembered: of two different tasks that block on one pipe, the first stays
-- in TASK_WAITING whatever is written, and also when the last writer leaves.
pub block_twice_loses_first :
    (a b : ℕ) (bytes : List ℕ) (w : World)
    → a ≢ b
    → ((write bytes (block b (block a w))).1.tasks a).state ≡ waiting
      × (((remove_writer (block b (block a w))).tasks a).state ≡ waiting)
unfolding write remove_writer wake_reader block update
block_twice_loses_first a b bytes w ne =
    (ground (arith, waiting_task-fill bytes (block b (block a w)).pipe), ground arith)

-- What a write has put into an empty pipe at which a reader is blocked.
contents-write_blocked :
    (me : ℕ) (bytes : List ℕ) (w : World)
    → IsValid w.pipe
    → w.pipe.len ≡ 0
    → w.pipe.readers ≢ 0
    → contents (unblock (write bytes (block me w)).1).pipe ≡ take w.pipe.size bytes
unfolding block unblock Queue.write
contents-write_blocked me bytes w v empty rd =
    let w' = block me w in
    let nothing : contents w.pipe ≡ [] = ap (held w.pipe.buffer w.pipe.size w.pipe.tail) empty in
    let room : w.pipe.size - length (contents w.pipe) ≡ w.pipe.size =
      omega (arith, length-contents w.pipe, empty) in
    let open_end : (w'.pipe.readers == 0) ≡ false = ground arith in
    let done : ((write bytes w').0, contents (write bytes w').1.pipe)
        ≡ (wrote _, contents w.pipe ++ take (w.pipe.size - length (contents w.pipe)) bytes) =
      rw open_end at (write_refines bytes w' (block-IsValid me w v)) in
    ap (λ r. r.1) done ∙ ap₂ ◌++◌ nothing (ap (λ n. take n bytes) room)

not_empty : (n : ℕ) (bytes : List ℕ) → n ≢ 0 → bytes ≢ [] → length (take n bytes) ≢ 0
not_empty n [] h e = absurd (e refl)
not_empty zero (b ∷ bs) h e = absurd (h refl)
not_empty (suc n) (b ∷ bs) h e = omega arith

-- A reader `me` that blocks on a well-formed empty pipe with a writer and a reader, and is halted
-- while one write of at least one byte happens: the write makes its task ready, and once it runs
-- `pipe_read` returns the first `size` of the bytes that the write took.
pub read_blocked_write :
    (me size : ℕ) (bytes : List ℕ) (w : World)
    → me ≢ null
    → IsValid w.pipe
    → w.pipe.len ≡ 0
    → w.pipe.writers ≢ 0
    → w.pipe.readers ≢ 0
    → bytes ≢ []
    → (((write bytes (block me w)).1.tasks me).state ≡ ready)
      × (w' : World) × (read me size ((λ u. (write bytes u).1) ∷ []) w
          ≡ some (take size (take w.pipe.size bytes), w'))
unfolding read must_wait Queue.read
read_blocked_write me size bytes w nn v empty wr rd ne =
    let u = unblock (write bytes (block me w)).1 in
    let now : contents u.pipe ≡ take w.pipe.size bytes =
      contents-write_blocked me bytes w v empty rd in
    let valid : IsValid u.pipe =
      unblock-IsValid _ (write-IsValid bytes (block me w) (block-IsValid me w v)) in
    let some_bytes : u.pipe.len ≢ 0 = λ z.
      not_empty w.pipe.size bytes (omega arith) ne
        (ap length (sym now) ∙ length-contents u.pipe ∙ z) in
    let waits : must_wait w.pipe ≡ true = ground arith in
    let goes : must_wait u.pipe ≡ false = ground arith in
    let reading : (w.pipe.readers == 0) ≡ false = ground arith in
    (
      (block-wakes me bytes w nn v).0 ∙ ap (λ (b : Bool). if b then waiting else ready) reading,
      (read_now size u).1,
      rw (waits, goes)
          (ap (λ l. some (l, (read_now size u).1))
            (ap (λ r. r.0) (read_refines size u valid) ∙ ap (take size) now)),
    )

-- A reader `me` that blocks on an empty pipe with one writer, and is halted while that writer leaves: it is
-- made ready, and once it runs `pipe_read` returns no bytes, the end of the file.
pub read_blocked_close :
    (me size : ℕ) (w : World)
    → me ≢ null
    → w.pipe.len ≡ 0
    → w.pipe.writers ≡ 1
    → (((remove_writer (block me w)).tasks me).state ≡ ready)
      × (w' : World) × (read me size (remove_writer ∷ []) w ≡ some ([], w'))
      × (w'.pipe.writers ≡ 0)
      × (w'.pipe.waiting_task ≡ null)
unfolding read read_now must_wait remove_writer drop_count wake_reader block unblock update
read_blocked_close me size w nn empty one =
    let u = unblock (remove_writer (block me w)) in
    let waits : must_wait w.pipe ≡ true = ground arith in
    let goes : must_wait u.pipe ≡ false = ground arith in
    let ended : ((u.pipe.len == 0) && (u.pipe.writers == 0)) ≡ true = ground arith in
    (ground arith, u, rw (waits, goes, ended) refl, ground arith, ground arith)
