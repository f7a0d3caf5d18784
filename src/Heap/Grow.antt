-- ===== src/Heap/Grow.antt =====
-- `expand` of libc/kheap.c on a row of tiles.
use curls.Prelude.{ℕ, ◌+◌, ◌-◌, ◌≡◌, true, Option, none, some, List, []}
use curls.Prelude.Tests.{ltb, if◌then◌else◌}
use curls.Heap.{Heap, set_footer, set_header}
use curls.Mmu.{Mmu}
use curls.Heap.Tiles.{Tile, Zip}
use curls.Heap.Row.{opened, left_of}

-- The heap with the header and the footer of the new hole.
abbrev grown : ℕ → ℕ → Heap → Heap
grown new_size n h =
    set_footer (h.finish + n - 16) h.finish
      (set_header h.finish true n (record h { finish = h.start + new_size }))

-- The row with a hole at its end, where the tables that the loop leaves are given.
abbrev pub expand_row : {S : Type 0} → Option (Mmu S) → ℕ → Heap → List Tile → Option Zip
expand_row none size h ls = none
expand_row (some m) size h ls =
    if ltb h.top (h.start + size)
    then none
    else left_of (opened ls h.finish (size - (h.finish - h.start)) []) ls

-- The heap, and the tables, of what `expand` gives.
abbrev pub heap_of : {S : Type 0} → Option (Heap × Mmu S) → Option Heap
heap_of none = none
heap_of (some (h, m)) = some h

abbrev pub Tables : {S : Type 0} → Option (Mmu S) → Option (Heap × Mmu S) → Type 0
Tables mapped none = Unit
Tables mapped (some (h, m)) = mapped ≡ some m
