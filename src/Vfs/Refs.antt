-- ===== src/Vfs/Refs.antt =====
-- Reference counts: a file counts the slots that hold it, a pipe the slots that hold its ends.
use curls.Prelude.{ℕ, ◌^◌, ◌<◌, ◌≡◌, refl, Bool, ◌&&◌, List, ◌++◌}
use curls.Prelude.Tests.{not, ◌==◌}
use curls.Prelude.Lists.{length}
use curls.Task.{null}
use curls.Vfs.{Vfs, is_pipe, is_wronly}
use curls.Vfs.Counts.{tally, is}

abbrev pub slots : Vfs → List ℕ
slots v = v.table ++ v.others

-- The slot holds a reading end of the pipe at an address that is not NULL.
unfoldable pub is_reader : Vfs → ℕ → ℕ → Bool
is_reader v p s =
    not (s == null)
    && (not (p == null)
        && (is_pipe (v.nodes (v.files s).node)
            && (((v.nodes (v.files s).node).impl == p) && not (is_wronly (v.files s)))))

unfoldable pub is_writer : Vfs → ℕ → ℕ → Bool
is_writer v p s =
    not (s == null)
    && (not (p == null)
        && (is_pipe (v.nodes (v.files s).node)
            && (((v.nodes (v.files s).node).impl == p) && is_wronly (v.files s))))

-- Every count is exact, there are `MAX_FD` descriptors, and a 32-bit count has room for all slots.
pub record Counted (v : Vfs) : Type 0 where
  pub refs : (f : ℕ) → (v.files f).refcount ≡ tally (is f) (slots v)
  pub readers : (p : ℕ) → (v.pipes p).readers ≡ tally (is_reader v p) (slots v)
  pub writers : (p : ℕ) → (v.pipes p).writers ≡ tally (is_writer v p) (slots v)
  pub size : length v.table ≡ 32
  pub room : length (slots v) < 2 ^ 32

-- What a change of the counts of the file `f`, and of its pipe, leaves alone.
pub record SameObjects (v v' : Vfs) : Type 0 where
  pub node : (s : ℕ) → (v'.files s).node ≡ (v.files s).node
  pub flags : (s : ℕ) → (v'.files s).flags ≡ (v.files s).flags
  pub offset : (s : ℕ) → (v'.files s).offset ≡ (v.files s).offset
  pub nodes : (n : ℕ) → v'.nodes n ≡ v.nodes n

pub is_reader-same : (v v' : Vfs) (p s : ℕ) → SameObjects v v' → is_reader v' p s ≡ is_reader v p s
unfolding is_reader
is_reader-same v v' p s e = rw (e.node s, e.flags s, e.nodes (v.files s).node) refl

pub is_writer-same : (v v' : Vfs) (p s : ℕ) → SameObjects v v' → is_writer v' p s ≡ is_writer v p s
unfolding is_writer
is_writer-same v v' p s e = rw (e.node s, e.flags s, e.nodes (v.files s).node) refl
