-- ===== src/Vfs/Steps.antt =====
-- The descriptors of all tasks over any sequence of calls: each step is one call by the running task, or
-- the choice of another task to run. A `pipe` that fails adds its two files, which no descriptor holds, to the
-- slots of the others.
use curls.Prelude.{
  ℕ, ◌+◌, ◌<◌, ◌≡◌, ◌%◌, ◌^◌, sym, ap, ◌∙◌, subst, ◌≢◌, inl, inr, Bool, false, Option, none, some,
  List, ◌++◌, arith,
}
use curls.Prelude.Tests.{◌==◌, if_elim, leb}
use curls.Prelude.Int.{ℤ, minus_one, to_int, to_u64}
use curls.Prelude.Lists.{length, length-append}
use curls.Prelude.Store.{update}
use curls.Task.{null}
use curls.Vfs.{Vfs, is_pipe, lookup, close, close_all_fds, dup, dup2, open_node, fork_table}
use curls.Vfs.Counts.{tally, tally-append, tally-ext, is}
use curls.Vfs.Refs.{slots, Counted, is_reader, is_writer}
use curls.Vfs.Close.{close-Closed, close_all_fds-Emptied}
use curls.Vfs.Dup.{dup-Attached, dup2-Moved}
use curls.Vfs.Fork.{fork_table-Counted}
use curls.Vfs.Open.{open_node-Opened}
use curls.Vfs.Offset.{seek, seek_from, seek_to, set_offset, base}
use curls.Vfs.Pipes.{NewPipe, pipe}
use curls.Vfs.Pipes.Made.{IsNew, Piped, PipeResult, pipe-PipeResult, leaked, pipe_leaked-Counted}

-- Another task runs: its table is among the slots of the others, and the tables change places.
abbrev pub switched : List ℕ → List ℕ → List ℕ → Vfs → Vfs
switched xs t ys v = record v { table = t; others = xs ++ (v.table ++ ys) }

pub data Step : Vfs → Vfs → Type 0 where
  closes : (v : Vfs) (fd : ℤ) → Step v (close fd v).1
  duplicates : (v : Vfs) (fd : ℤ) → Step v (dup fd v).1
  moves : (v : Vfs) (oldfd newfd : ℤ) → Step v (dup2 oldfd newfd v).1
  seeks : (v : Vfs) (fd offset : ℤ) (whence : ℕ) → Step v (seek fd offset whence v).1
  opens :
      (v : Vfs) (a node flags : ℕ)
      → a ≢ null
      → tally (is a) (slots v) ≡ 0
      → is_pipe (v.nodes node) ≡ false
      → Step v (open_node a node flags v).1
  pipes : (v u : Vfs) (m : NewPipe) (r w : ℕ) → IsNew m v → pipe m v ≡ (some (r, w), u) → Step v u
  leaks :
      (v u : Vfs) (m : NewPipe)
      → IsNew m v
      → length (slots v) + 2 < 2 ^ 32
      → pipe m v ≡ (none, u)
      → Step v (leaked m u)
  forks : (v : Vfs) → length (slots v) + 32 < 2 ^ 32 → Step v (fork_table v)
  exits : (v : Vfs) → Step v (close_all_fds v)
  switches :
      (v : Vfs) (xs t ys : List ℕ)
      → length t ≡ 32
      → v.others ≡ xs ++ (t ++ ys)
      → Step v (switched xs t ys v)

pub data Reach (v : Vfs) : Vfs → Type 0 where
  here : Reach v v
  next : {t u : Vfs} → Reach v t → Step t u → Reach v u

close-Counted : (v : Vfs) (fd : ℤ) → Counted v → Counted (close fd v).1
close-Counted v fd c = elim (close-Closed v fd c) [
  | inl (n, e) ↦ subst (λ r. Counted r.1) (sym e) c
  | inr (n, v', e, d) ↦ subst (λ r. Counted r.1) (sym e) d.counted
]

dup-Counted : (v : Vfs) (fd : ℤ) → Counted v → Counted (dup fd v).1
dup-Counted v fd c = elim (dup-Attached v fd c) [
  | inl (e, n) ↦ subst (λ r. Counted r.1) (sym e) c
  | inr (n, v', e, h, o, l, d) ↦ subst (λ r. Counted r.1) (sym e) d.counted
]

dup2-Counted : (v : Vfs) (oldfd newfd : ℤ) → Counted v → Counted (dup2 oldfd newfd v).1
dup2-Counted v oldfd newfd c = elim (dup2-Moved v oldfd newfd c) [
  | inl (e, n) ↦ subst (λ r. Counted r.1) (sym e) c
  | inr (inl (s, e)) ↦ subst (λ r. Counted r.1) (sym e) c
  | inr (inr (n, v', e, d)) ↦ subst (λ r. Counted r.1) (sym e) d.counted
]

open_node-Counted :
    (v : Vfs) (a node flags : ℕ)
    → Counted v
    → a ≢ null
    → tally (is a) (slots v) ≡ 0
    → is_pipe (v.nodes node) ≡ false
    → Counted (open_node a node flags v).1
open_node-Counted v a node flags c n f p = elim (open_node-Opened a node flags v c n f p) [
  | inl (v', e, u, d, t) ↦ subst (λ r. Counted r.1) (sym e) d
  | inr (fd, v', e, h, l, d) ↦ subst (λ r. Counted r.1) (sym e) d.counted
]

set_offset-Counted : (v : Vfs) (f o : ℕ) → Counted v → Counted (set_offset f o v)
unfolding set_offset update is_reader is_writer
set_offset-Counted v f o c = record {
  refs = λ g. ground (arith, c.refs g);
  readers = λ p.
      c.readers p
      ∙ tally-ext (is_reader v p) (is_reader (set_offset f o v) p) (slots v) (λ s. ground arith);
  writers = λ p.
      c.writers p
      ∙ tally-ext (is_writer v p) (is_writer (set_offset f o v) p) (slots v) (λ s. ground arith);
  size = c.size;
  room = c.room;
}

seek_from-Counted :
    (v : Vfs) (f : ℕ) (offset : ℤ) (b : Option ℕ) → Counted v → Counted (seek_from f offset b v).1
unfolding seek_from seek_to
seek_from-Counted v f offset none c = c
seek_from-Counted v f offset (some b) c =
    let new : ℕ = (b + to_u64 offset) % 2 ^ 64 in
    if_elim {A = ℤ × Vfs} (λ r. Counted r.1) (leb (2 ^ 63) new) (minus_one, v)
      (to_int new, set_offset f new v) (λ e. c) (λ e. set_offset-Counted v f new c)

seek-Counted :
    (v : Vfs) (fd offset : ℤ) (whence : ℕ) → Counted v → Counted (seek fd offset whence v).1
unfolding seek
seek-Counted v fd offset whence c =
    if_elim {A = ℤ × Vfs} (λ r. Counted r.1) (lookup fd v == null) (minus_one, v)
      (seek_from (lookup fd v) offset (base (lookup fd v) whence v) v) (λ e. c)
      (λ e. seek_from-Counted v (lookup fd v) offset (base (lookup fd v) whence v) c)

pipe-Counted :
    (v u : Vfs) (m : NewPipe) (r w : ℕ)
    → Counted v
    → IsNew m v
    → pipe m v ≡ (some (r, w), u)
    → Counted u
pipe-Counted v u m r w c f e =
    let p : Piped v m r w u = subst (PipeResult m v) e (pipe-PipeResult m v c f) in p.counted

-- The same slots in another order.
switched-tally :
    (q : ℕ → Bool) (v : Vfs) (xs t ys : List ℕ)
    → v.others ≡ xs ++ (t ++ ys)
    → tally q (slots v) ≡ tally q (slots (switched xs t ys v))
switched-tally q v xs t ys e = omega (
  arith,
  ap (tally q) e,
  tally-append q v.table v.others,
  tally-append q xs (t ++ ys),
  tally-append q t ys,
  tally-append q t (xs ++ (v.table ++ ys)),
  tally-append q xs (v.table ++ ys),
  tally-append q v.table ys,
)

switched-Counted :
    (v : Vfs) (xs t ys : List ℕ)
    → Counted v
    → length t ≡ 32
    → v.others ≡ xs ++ (t ++ ys)
    → Counted (switched xs t ys v)
unfolding is_reader is_writer
switched-Counted v xs t ys c h e = record {
  refs = λ f. c.refs f ∙ switched-tally (is f) v xs t ys e;
  readers = λ p. c.readers p ∙ switched-tally (is_reader v p) v xs t ys e;
  writers = λ p. c.writers p ∙ switched-tally (is_writer v p) v xs t ys e;
  size = h;
  room = omega (
    arith,
    c.room,
    c.size,
    h,
    ap length e,
    length-append v.table v.others,
    length-append xs (t ++ ys),
    length-append t ys,
    length-append t (xs ++ (v.table ++ ys)),
    length-append xs (v.table ++ ys),
    length-append v.table ys,
  );
}

Step-Counted : {v u : Vfs} → Step v u → Counted v → Counted u
Step-Counted (closes v fd) c = close-Counted v fd c
Step-Counted (duplicates v fd) c = dup-Counted v fd c
Step-Counted (moves v oldfd newfd) c = dup2-Counted v oldfd newfd c
Step-Counted (seeks v fd offset whence) c = seek-Counted v fd offset whence c
Step-Counted (opens v a node flags n f p) c = open_node-Counted v a node flags c n f p
Step-Counted (pipes v u m r w f e) c = pipe-Counted v u m r w c f e
Step-Counted (leaks v u m f room e) c = pipe_leaked-Counted m v u c f room e
Step-Counted (forks v room) c = (fork_table-Counted v c room).0
Step-Counted (exits v) c = (close_all_fds-Emptied v c).0
Step-Counted (switches v xs t ys h e) c = switched-Counted v xs t ys c h e

-- Over any sequence of `close`, `dup`, `dup2`, `seek`, `open` of a found node, `pipe`, fork, closing of all
-- descriptors at exit, and switches to other tasks, all counts stay exact: each open file counts the
-- descriptors of all tasks that hold it, and each pipe its reading and its writing ends. A `pipe` that finds
-- no two free descriptors leaves two files that are open for ever: they count as two more slots.
-- Objects are new when they are made, and there are fewer than 2 ^ 32 slots.
pub Reach-Counted : {v u : Vfs} → Reach v u → Counted v → Counted u
Reach-Counted here c = c
Reach-Counted (next r s) c = Step-Counted s (Reach-Counted r c)
