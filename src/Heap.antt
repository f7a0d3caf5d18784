-- ===== src/Heap.antt =====
-- The kernel heap of libc/kheap.c: blocks and holes with a header in front and a footer behind, and
-- an ordered index of the holes. Headers and footers are memories of structs by address; no two of
-- them overlap while the heap is well formed. Addresses are at least 16, and far
-- enough below 2 ^ 64 that sums of them do not wrap. The lock is held from start to end of each operation.
pub mod Index
pub mod Alloc
pub mod Free
pub mod Pages
pub mod Expand
pub mod BestFit
pub mod Tiles
pub mod Row
pub mod Right
pub mod Left
pub mod Merge
pub mod Gap
pub mod Split
pub mod Take
pub mod BestBlock
pub mod Grow
mod Tests
pub mod Stale
use curls.Prelude.{
  ℕ, zero, suc, ◌+◌, ◌-◌, ◌*◌, ◌/◌, ◌%◌, ◌^◌, Bool, true, false, ◌&&◌, ◌||◌, Option, none, some,
  List, [], ◌∷◌,
}
use curls.Prelude.Tests.{not, ltb, leb, ◌==◌, if◌then◌else◌}
use curls.Prelude.Lists.{length, get_or}
use curls.Prelude.Store.{update}
use Index.{insert_item, remove_at, remove_item}

-- `header_t`
pub record Header : Type 0 where
  pub magic : ℕ
  pub is_hole : Bool
  pub size : ℕ

-- `footer_t`
pub record Footer : Type 0 where
  pub magic : ℕ
  pub header : ℕ

-- `heap_t` and the memory that it manages.
pub record Heap : Type 0 where
  pub headers : ℕ → Header
  pub footers : ℕ → Footer
  pub index : List ℕ
  pub start : ℕ
  pub finish : ℕ
  pub top : ℕ

-- HEAP_MAGIC
abbrev pub magic_number : ℕ
magic_number = 305696939

-- `sizeof(header_t)`
abbrev pub header_size : ℕ
header_size = 12

-- `sizeof(footer_t)`
abbrev pub footer_size : ℕ
footer_size = 16

-- HEAP_INDEX_SIZE
abbrev pub index_size : ℕ
index_size = 131072

unfoldable pub set_header : ℕ → Bool → ℕ → Heap → Heap
set_header a is_hole size h = record h {
  headers = update h.headers a (record { magic = magic_number; is_hole = is_hole; size = size });
}

unfoldable pub set_footer : ℕ → ℕ → Heap → Heap
set_footer a header h = record h {
  footers = update h.footers a (record { magic = magic_number; header = header });
}

-- The sizes that the headers hold now.
abbrev pub sizes : Heap → ℕ → ℕ
sizes h a = (h.headers a).size

-- `insert_ordered_array`; none is the panic at a full index.
unfoldable pub insert : ℕ → Heap → Option Heap
insert item h =
    if leb index_size (length h.index)
    then none
    else some (record h { index = insert_item (sizes h) item h.index })

-- `heap_stats_t`
pub record Stats : Type 0 where
  pub total_size : ℕ
  pub used_size : ℕ
  pub free_size : ℕ
  pub max_addr : ℕ

-- The loop of `get_heap_stats`.
pub hole_total : (ℕ → ℕ) → List ℕ → ℕ
hole_total size [] = 0
hole_total size (x ∷ xs) = size x + hole_total size xs

-- `get_heap_stats`
unfoldable pub get_heap_stats : Heap → Stats
unfolding hole_total
get_heap_stats h = record {
  total_size = h.finish - h.start;
  used_size = h.finish - h.start - hole_total (sizes h) h.index;
  free_size = hole_total (sizes h) h.index;
  max_addr = h.top;
}

-- `create_heap`: the index stands at `start`; the one hole has no footer.
unfoldable pub create_heap : ℕ → ℕ → ℕ → (ℕ → Header) → (ℕ → Footer) → Option Heap
unfolding set_header insert
create_heap start end top headers footers =
    let base = (start + 8 * index_size + 4095) / 4096 * 4096 in
    insert base (
      set_header base true ((end - base) % 2 ^ 32) (record {
        headers = headers;
        footers = footers;
        index = [];
        start = base;
        finish = end;
        top = top;
      }))
