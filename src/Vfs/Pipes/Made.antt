-- ===== src/Vfs/Pipes/Made.antt =====
-- The objects that `pipe` makes, and the counts of their ends.
use curls.Prelude.{
  ℕ, ◌+◌, ◌<◌, ◌≡◌, refl, sym, subst, ap, ◌∙◌, ◌≢◌, inl, inr, Bool, false, ◌&&◌, ◌||◌, Option, none,
  some, List, [], ◌∷◌, ◌++◌, ◌^◌, arith,
}
use curls.Prelude.Tests.{not, ◌==◌, if◌then◌else◌, Bool-cases}
use curls.Prelude.Lists.{
  length, get_or, set, length-set, length-append, get_or-set_self, get_or-set_ne,
}
use curls.Prelude.Store.{update, at_or_else}
use curls.Prelude.Bits.{test_bit}
use curls.Task.{null}
use curls.Vfs.{Vfs, slot, put_slot, file_create}
use curls.Vfs.Counts.{tally, is, one_if, tally-append, tally-set, tally-where, tally-never}
use curls.Vfs.Refs.{slots, Counted, is_reader, is_writer}
use curls.Vfs.Pipes.{two_free, NewPipe, pipe_create_node, make_pipe, pipe_at, pipe}
use curls.Vfs.Pipes.Search.{AllUsedBut, TwoFree, Finds, Finds-two_free}

-- The slot holds one of the new objects.
abbrev pub is_new : NewPipe → Vfs → ℕ → Bool
is_new m v s =
    not (s == null)
    && ((s == m.reader)
        || ((s == m.writer)
            || (((v.files s).node == m.node) || (is_reader v m.pipe s || is_writer v m.pipe s))))

-- The addresses are new.
pub record IsNew (m : NewPipe) (v : Vfs) : Type 0 where
  pub unused : tally (is_new m v) (slots v) ≡ 0
  pub reader : m.reader ≢ null
  pub writer : m.writer ≢ null
  pub pipe : m.pipe ≢ null
  pub apart : m.reader ≢ m.writer

-- The state with the objects of `pipe`, for slots that hold the two new files besides what they held.
module _ (m : NewPipe) (v : Vfs) (c : Counted v) (fr : IsNew m v) (table others : List ℕ)
    (more : (q : ℕ → Bool)
      → q null ≡ false
      → tally q (table ++ others) ≡ tally q (slots v) + one_if (q m.reader) + one_if (q m.writer))
    (size : length table ≡ 32) (room : length (table ++ others) < 2 ^ 32) where
  piped : Vfs
  piped = record (make_pipe m v) { table = table; others = others }

  -- A property that only new objects can have.
  none_with :
      (q : ℕ → Bool) → ((s : ℕ) → is_new m v s ≡ false → q s ≡ false) → tally q (slots v) ≡ 0
  none_with q e =
      tally-where (is_new m v) q (λ s. false) (slots v) fr.unused e ∙ tally-never (slots v)

  piped-refs : (f : ℕ) → (piped.files f).refcount ≡ tally (is f) (slots piped)
  unfolding piped make_pipe file_create pipe_create_node update
  piped-refs f =
      let count : tally (is f) (slots piped)
          ≡ tally (is f) (slots v) + one_if (is f m.reader) + one_if (is f m.writer) =
        more (is f) refl in
      let apart : m.reader ≢ m.writer = fr.apart in
      let old : (v.files f).refcount ≡ tally (is f) (slots v) = c.refs f in
      elim (Bool-cases (f == m.reader || f == m.writer)) [
        | inl e ↦
            let zero_there : tally (is f) (slots v) ≡ 0 = none_with (is f) (λ s n. ground arith) in
            ground (arith, fr.reader, fr.writer)
        | inr e ↦ ground arith
      ]

  piped-readers : (p : ℕ) → (piped.pipes p).readers ≡ tally (is_reader piped p) (slots piped)
  unfolding piped make_pipe file_create pipe_create_node update is_reader test_bit
  piped-readers p =
      let count : tally (is_reader piped p) (slots piped)
          ≡ tally (is_reader piped p) (slots v)
            + one_if (is_reader piped p m.reader)
            + one_if (is_reader piped p m.writer) =
        more (is_reader piped p) refl in
      let same : tally (is_reader piped p) (slots v) ≡ tally (is_reader v p) (slots v) =
        tally-where (is_new m v) (is_reader piped p) (is_reader v p) (slots v) fr.unused
          (λ s n. ground arith) in
      let apart : m.reader ≢ m.writer = fr.apart in
      let mine : is_reader piped p m.reader ≡ (p == m.pipe) = ground (arith, fr.reader, fr.pipe) in
      let not_mine : is_reader piped p m.writer ≡ false = ground arith in
      let total : tally (is_reader piped p) (slots piped)
          ≡ tally (is_reader v p) (slots v) + one_if (p == m.pipe) =
        omega (arith, count, same, ap one_if mine, ap one_if not_mine) in
      elim (Bool-cases (p == m.pipe)) [
        | inl e ↦
            let zero_there : tally (is_reader v p) (slots v) ≡ 0 =
              none_with (is_reader v p) (λ s n. ground arith) in
            let now : (piped.pipes p).readers ≡ 1 = ground arith in
            omega (arith, now, total, zero_there, ap one_if e)
        | inr e ↦
            let now : (piped.pipes p).readers ≡ (v.pipes p).readers = ground arith in
            omega (arith, now, total, c.readers p, ap one_if e)
      ]

  piped-writers : (p : ℕ) → (piped.pipes p).writers ≡ tally (is_writer piped p) (slots piped)
  unfolding piped make_pipe file_create pipe_create_node update is_writer test_bit
  piped-writers p =
      let count : tally (is_writer piped p) (slots piped)
          ≡ tally (is_writer piped p) (slots v)
            + one_if (is_writer piped p m.reader)
            + one_if (is_writer piped p m.writer) =
        more (is_writer piped p) refl in
      let same : tally (is_writer piped p) (slots v) ≡ tally (is_writer v p) (slots v) =
        tally-where (is_new m v) (is_writer piped p) (is_writer v p) (slots v) fr.unused
          (λ s n. ground arith) in
      let apart : m.reader ≢ m.writer = fr.apart in
      let mine : is_writer piped p m.writer ≡ (p == m.pipe) = ground (arith, fr.writer, fr.pipe) in
      let not_mine : is_writer piped p m.reader ≡ false = ground arith in
      let total : tally (is_writer piped p) (slots piped)
          ≡ tally (is_writer v p) (slots v) + one_if (p == m.pipe) =
        omega (arith, count, same, ap one_if mine, ap one_if not_mine) in
      elim (Bool-cases (p == m.pipe)) [
        | inl e ↦
            let zero_there : tally (is_writer v p) (slots v) ≡ 0 =
              none_with (is_writer v p) (λ s n. ground arith) in
            let now : (piped.pipes p).writers ≡ 1 = ground arith in
            omega (arith, now, total, zero_there, ap one_if e)
        | inr e ↦
            let now : (piped.pipes p).writers ≡ (v.pipes p).writers = ground arith in
            omega (arith, now, total, c.writers p, ap one_if e)
      ]

  piped-Counted : Counted piped
  unfolding piped make_pipe file_create pipe_create_node
  piped-Counted = record {
    refs = piped-refs;
    readers = piped-readers;
    writers = piped-writers;
    size = size;
    room = room;
  }

module _ (m : NewPipe) (v : Vfs) (c : Counted v) (fr : IsNew m v) (r w : ℕ)
    (t : TwoFree 3 32 v.table r w) where
  new_table : List ℕ
  new_table = set (set v.table r m.reader) w m.writer

  new_table-tally :
      (q : ℕ → Bool)
      → q null ≡ false
      → tally q (new_table ++ v.others)
        ≡ tally q (slots v) + one_if (q m.reader) + one_if (q m.writer)
  unfolding new_table
  new_table-tally q z =
      let one = tally-set q v.table r m.reader (omega (arith, c.size, t.order, t.to)) in
      let two =
        tally-set q (set v.table r m.reader) w m.writer
          (omega (arith, c.size, t.to, length-set v.table r m.reader)) in
      let there : get_or (set v.table r m.reader) w null ≡ null =
        get_or-set_ne v.table r w m.reader null (λ z. omega (arith, t.order, z)) ∙ t.free_writer in
      let none_one : one_if (q (get_or v.table r null)) ≡ 0 =
        ap (λ s. one_if (q s)) t.free_reader ∙ ap one_if z in
      let none_two : one_if (q (get_or (set v.table r m.reader) w null)) ≡ 0 =
        ap (λ s. one_if (q s)) there ∙ ap one_if z in
      omega (
        arith,
        one,
        two,
        none_one,
        none_two,
        tally-append q (set (set v.table r m.reader) w m.writer) v.others,
        tally-append q v.table v.others,
      )

  length-new_table : length new_table ≡ 32
  unfolding new_table
  length-new_table =
      length-set (set v.table r m.reader) w m.writer ∙ length-set v.table r m.reader ∙ c.size

  installed-Counted : Counted (put_slot w m.writer (put_slot r m.reader (make_pipe m v)))
  unfolding piped new_table put_slot make_pipe file_create pipe_create_node
  installed-Counted = piped-Counted m v c fr new_table v.others new_table-tally length-new_table (
      omega (
        arith,
        c.room,
        c.size,
        length-new_table,
        length-append new_table v.others,
        length-append v.table v.others,
      ))

-- The state of a `pipe` that found no descriptors, where its two files, which nobody can close any more,
-- are written among the slots of the others.
abbrev pub leaked : NewPipe → Vfs → Vfs
leaked m v = record v { others = v.others ++ m.reader ∷ m.writer ∷ [] }

leaked-Counted :
    (m : NewPipe) (v : Vfs)
    → Counted v
    → IsNew m v
    → length (slots v) + 2 < 2 ^ 32
    → Counted (leaked m (make_pipe m v))
unfolding piped make_pipe file_create pipe_create_node
leaked-Counted m v c fr room =
    piped-Counted m v c fr v.table (v.others ++ m.reader ∷ m.writer ∷ [])
      (λ q z. omega (
        arith,
        tally-append q v.table (v.others ++ m.reader ∷ m.writer ∷ []),
        tally-append q v.others (m.reader ∷ m.writer ∷ []),
        tally-append q v.table v.others,
      ))
      c.size
      (omega (
        arith,
        room,
        length-append v.table (v.others ++ m.reader ∷ m.writer ∷ []),
        length-append v.others (m.reader ∷ m.writer ∷ []),
        length-append v.table v.others,
      ))

-- Where `pipe` gives none, it leaves its objects and nothing else.
pipe_at-none : (m : NewPipe) (v u : Vfs) (o : Option (ℕ × ℕ)) → pipe_at m o v ≡ (none, u) → v ≡ u
unfolding pipe_at
pipe_at-none m v u none e = ap (λ (r : Option (ℕ × ℕ) × Vfs). r.1) e
pipe_at-none m v u (some (r, w)) e =
    let bad : some (r, w) ≡ none = ap (λ (r : Option (ℕ × ℕ) × Vfs). r.0) e in absurd (ground arith)

pub pipe_leaked-Counted :
    (m : NewPipe) (v u : Vfs)
    → Counted v
    → IsNew m v
    → length (slots v) + 2 < 2 ^ 32
    → pipe m v ≡ (none, u)
    → Counted (leaked m u)
unfolding pipe
pipe_leaked-Counted m v u c fr room e =
    subst (λ x. Counted (leaked m x)) (pipe_at-none m (make_pipe m v) u _ e)
      (leaked-Counted m v c fr room)

-- What a successful `pipe` leaves.
pub record Piped (v : Vfs) (m : NewPipe) (r w : ℕ) (v' : Vfs) : Type 0 where
  pub free : TwoFree 3 32 v.table r w
  pub counted : Counted v'
  pub slots_of :
      (j : ℕ) → slot j v' ≡ (if j == w then m.writer else if j == r then m.reader else slot j v)
  pub reader : (v'.files m.reader).flags ≡ 0
  pub writer : (v'.files m.writer).flags ≡ 1
  pub node : ((v'.files m.reader).node ≡ m.node) × ((v'.files m.writer).node ≡ m.node)
  pub pipe_of_node : (v'.nodes m.node).impl ≡ m.pipe
  pub ends : ((v'.pipes m.pipe).readers ≡ 1) × ((v'.pipes m.pipe).writers ≡ 1)

-- What `pipe` gives, in both cases.
abbrev pub PipeResult : NewPipe → Vfs → Option (ℕ × ℕ) × Vfs → Type 0
PipeResult m v (none, v') =
    ((r : ℕ) × AllUsedBut r 3 32 v.table)
    × ((v'.table ≡ v.table) × ((v'.files m.reader).refcount ≡ 1))
PipeResult m v (some (r, w), v') = Piped v m r w v'

pipe_at-PipeResult :
    (m : NewPipe) (v : Vfs) (o : Option (ℕ × ℕ))
    → Counted v
    → IsNew m v
    → Finds 3 32 v.table none o
    → PipeResult m v (pipe_at m o (make_pipe m v))
unfolding pipe_at make_pipe file_create pipe_create_node update put_slot
pipe_at-PipeResult m v none c fr t = (t, (refl, ground (arith, fr.apart)))
pipe_at-PipeResult m v (some (r, w)) c fr t =
    let apart : m.reader ≢ m.writer = fr.apart in
    record {
      free = t;
      counted = installed-Counted m v c fr r w t;
      slots_of = λ j.
          at_or_else w m.writer (λ j. get_or (set (set v.table r m.reader) w m.writer) j null)
            (λ j. get_or (set v.table r m.reader) j null)
            (get_or-set_self (set v.table r m.reader) w m.writer null
              (omega (arith, c.size, t.to, length-set v.table r m.reader)))
            (λ b k. get_or-set_ne (set v.table r m.reader) w b m.writer null (λ z. k (sym z))) j
          ∙ ap (λ s. if j == w then m.writer else s)
              (at_or_else r m.reader (λ j. get_or (set v.table r m.reader) j null) (λ j. slot j v)
                (get_or-set_self v.table r m.reader null (omega (arith, c.size, t.order, t.to)))
                (λ b k. get_or-set_ne v.table r b m.reader null (λ z. k (sym z))) j);
      reader = ground arith;
      writer = ground arith;
      node = (ground arith, ground arith);
      pipe_of_node = ground arith;
      ends = (ground arith, ground arith);
    }

-- `pipe` with new objects gives the two lowest free descriptors r < w from 3 on: r holds a new file for reading and w
-- one for writing, both on a new node of a new pipe with one reader and one writer; no other
-- slot changes, and all counts stay exact. It gives none only if all descriptors from 3 to 31 but
-- at most one are in use; it then leaves the descriptors as they are, and a reading file that counts one
-- reference, which no descriptor holds.
pub pipe-PipeResult : (m : NewPipe) (v : Vfs) → Counted v → IsNew m v → PipeResult m v (pipe m v)
unfolding pipe
pipe-PipeResult m v c fr =
    pipe_at-PipeResult m v (two_free 29 3 v.table none) c fr (Finds-two_free 29 3 v.table none)
