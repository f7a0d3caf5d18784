-- ===== src/Pipe/Refs.antt =====
-- The counts of readers and writers, and `debug_pipe_count`.
use curls.Prelude.{ℕ, suc, ◌≡◌, refl, ◌≢◌, List, [], ◌∷◌, arith}
use curls.Pipe.{World, dec32, remove_reader, remove_writer}

-- One end of a pipe that a descriptor gives up.
pub data End : Type 0 where
  reading writing : End

pub remove : End → World → World
remove reading w = remove_reader w
remove writing w = remove_writer w

pub close_ends : List End → World → World
close_ends [] w = w
close_ends (e ∷ es) w = close_ends es (remove e w)

abbrev pub readings : List End → ℕ
readings [] = 0
readings (reading ∷ es) = suc (readings es)
readings (writing ∷ es) = readings es

abbrev pub writings : List End → ℕ
writings [] = 0
writings (reading ∷ es) = writings es
writings (writing ∷ es) = suc (writings es)

-- In whatever order the ends of a pipe are given up, when each count of ends is given up to the
-- last, no reader and no writer is left and `debug_pipe_count` has fallen by exactly one.
pub close_ends-count :
    (es : List End) (w : World)
    → readings es ≡ w.pipe.readers
    → writings es ≡ w.pipe.writers
    → es ≢ []
    → ((close_ends es w).pipe.readers ≡ 0)
      × ((close_ends es w).pipe.writers ≡ 0)
      × ((close_ends es w).count ≡ dec32 w.count)
unfolding close_ends remove remove_reader remove_writer
close_ends-count [] w r t ne = absurd (ne refl)
close_ends-count (reading ∷ []) w r t ne = ground arith
close_ends-count (writing ∷ []) w r t ne = ground arith
close_ends-count (reading ∷ e ∷ es) w r t ne =
    ground (arith, close_ends-count (e ∷ es) (remove_reader w))
close_ends-count (writing ∷ e ∷ es) w r t ne =
    ground (arith, close_ends-count (e ∷ es) (remove_writer w))
