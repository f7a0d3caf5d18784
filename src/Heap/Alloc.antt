-- ===== src/Heap/Alloc.antt =====
-- `alloc` of libc/kheap.c: the search, and the split of the hole that it found.
use curls.Prelude.{ℕ, ◌+◌, ◌-◌, ◌*◌, ◌/◌, ◌%◌, ◌^◌, Bool, true, false, ◌&&◌, Option, none, some}
use curls.Prelude.Tests.{not, ltb, leb, ◌==◌, if◌then◌else◌}
use curls.Prelude.Lists.{get_or}
use curls.Heap.{Heap, header_size, footer_size, set_header, set_footer, sizes, insert}
use curls.Heap.Index.{remove_at, find_fit}

-- How far the block of a hole has to move up to be aligned to a page.
abbrev pub hole_offset : ℕ → ℕ
hole_offset a = if (a + header_size) % 4096 == 0 then 0 else 4096 - (a + header_size) % 4096

-- The test of `find_smallest_hole`.
unfoldable pub fits : ℕ → Bool → Heap → ℕ → Bool
fits size page_align h a =
    if page_align
    then not (leb (sizes h a) (hole_offset a)) && leb size (sizes h a - hole_offset a)
    else leb size (sizes h a)

-- `find_smallest_hole`
unfoldable pub find_smallest_hole : ℕ → Bool → Heap → Option ℕ
unfolding fits find_fit
find_smallest_hole size page_align h = find_fit (fits size page_align h) 0 h.index

-- The place that a hole gives to a block, and how large it is.
pub record Place : Type 0 where
  pub pos : ℕ
  pub room : ℕ

-- The hole in front of an aligned block, where there is room for its header and footer.
unfoldable pub prefix_hole : ℕ → ℕ → Heap → Option Heap
unfolding set_header set_footer insert
prefix_hole pos prefix h =
    if leb (header_size + footer_size) prefix
    then insert pos (set_footer (pos + prefix - footer_size) pos (set_header pos true prefix h))
    else some h

-- `if (page_align && (orig_hole_pos + sizeof(header_t)) & 0xFFF)`
abbrev pub must_move : Bool → ℕ → Bool
must_move page_align pos = page_align && not ((pos + header_size) % 4096 == 0)

-- `prefix_size`
abbrev pub prefix_size : ℕ → ℕ
prefix_size pos = ((pos + header_size + 4095) / 4096 * 4096 - header_size - pos) % 2 ^ 32

unfoldable pub with_place : Place → Option Heap → Option (Place × Heap)
with_place p none = none
with_place p (some h) = some (p, h)

-- The alignment in `alloc`.
unfoldable pub align : Bool → ℕ → ℕ → Heap → Option (Place × Heap)
unfolding prefix_hole with_place
align page_align pos size h =
    if must_move page_align pos
    then with_place
        (record {
          pos = (pos + header_size + 4095) / 4096 * 4096 - header_size;
          room = (size + 2 ^ 32 - prefix_size pos) % 2 ^ 32;
        })
        (prefix_hole pos (prefix_size pos) h)
    else some (record { pos = pos; room = size }, h)

-- The header and footer of the block: its data has `size` bytes.
unfoldable pub set_block : ℕ → ℕ → Heap → Heap
unfolding set_header set_footer
set_block pos size h =
    set_footer (pos + header_size + size) pos
      (set_header pos false ((size + header_size + footer_size) % 2 ^ 32) h)

-- The hole that is left behind the block; its footer is written below the end of the heap.
unfoldable pub set_rest : ℕ → ℕ → Heap → Option Heap
unfolding set_header set_footer insert
set_rest a size h =
    let headed = set_header a true (size % 2 ^ 32) h in
    if size == 0
    then some h
    else insert a (
        if ltb (a + size % 2 ^ 32 - footer_size) h.finish
        then set_footer (a + size % 2 ^ 32 - footer_size) a headed
        else headed)

-- `orig_hole_size - new_size` as a `size_t`
abbrev pub rest_of : ℕ → ℕ → ℕ
rest_of room new_size = (room + 2 ^ 64 - new_size) % 2 ^ 64

-- The data size of the block: all of the place if the rest is too small for a hole.
abbrev pub data_size : ℕ → ℕ → ℕ
data_size room size =
    let rest = rest_of room (size + header_size + footer_size) in
    if ltb rest (header_size + footer_size) then size + rest else size

-- From the split to the end of `alloc`.
unfoldable pub split : ℕ → Place × Heap → Option Heap
unfolding set_block set_rest
split size (p, h) =
    let used = data_size p.room size in
    set_rest (p.pos + header_size + used + footer_size)
      (rest_of p.room (used + header_size + footer_size)) (set_block p.pos used h)

-- What `alloc` gives: an address, NULL, or a panic.
pub data Allocated : Type 0 where
  allocated : ℕ → Heap → Allocated
  exhausted : Heap → Allocated
  panicked : Allocated

unfoldable pub at_place : ℕ → Place → Option Heap → Allocated
at_place size p none = panicked
at_place size p (some h) = allocated (p.pos + header_size) h

unfoldable pub after_align : ℕ → Option (Place × Heap) → Allocated
unfolding split at_place
after_align size none = panicked
after_align size (some (p, h)) = at_place size p (split size (p, h))

-- What `alloc` does with the position of a hole in the index.
unfoldable pub take_hole : ℕ → Bool → ℕ → Heap → Allocated
unfolding align after_align
take_hole size page_align i h =
    let pos = get_or h.index i 0 in
    if ltb (h.top - h.start) (sizes h pos)
    then panicked
    else after_align size
        (align page_align pos (sizes h pos) (record h { index = remove_at i h.index }))
