-- ===== src/Heap/Expand.antt =====
-- `expand` and `contract` of libc/kheap.c, and `alloc`, which expands the heap once.
use curls.Prelude.{ℕ, ◌+◌, ◌-◌, ◌*◌, ◌/◌, ◌%◌, ◌^◌, Bool, true, Option, none, some}
use curls.Prelude.Tests.{ltb, leb, ◌==◌, if◌then◌else◌}
use curls.Heap.{Heap, header_size, footer_size, set_header, set_footer}
use curls.Mmu.{Mmu}
use curls.Heap.Pages.{Paging, map_pages}
use curls.Heap.Free.{free_internal}
use curls.Heap.Alloc.{find_smallest_hole, Allocated, exhausted, panicked, take_hole}

-- `new_size` up to a whole number of pages; the mask keeps the low 32 bits only.
abbrev pub round_up : ℕ → ℕ
round_up new_size =
    if new_size % 4096 == 0 then new_size else new_size % 2 ^ 32 / 4096 * 4096 + 4096

-- The hole in the new space, freed; its size is cut to 32 bits.
unfoldable pub new_hole : ℕ → ℕ → Heap → Option Heap
unfolding set_header set_footer free_internal
new_hole old_end new_size h =
    let size = (new_size + 2 ^ 64 - (old_end - h.start)) % 2 ^ 32 in
    free_internal (old_end + header_size) (
      set_footer (old_end + size - footer_size) old_end
        (set_header old_end true size (record h { finish = h.start + new_size })))

-- The rounds of the loop over the new pages: one for each 4096 bytes from the old size on.
abbrev pub rounds : ℕ → ℕ → ℕ
rounds size old_size = (size - old_size + 4095) / 4096

module _ {S : Type 0} where
  -- The heap and the tables, if neither the loop nor the merge of the new hole panics.
  unfoldable pub both : Option (Mmu S) → Option Heap → Option (Heap × Mmu S)
  both none g = none
  both (some m) none = none
  both (some m) (some h) = some (h, m)

  -- `expand`; none is a panic.
  unfoldable pub expand : Paging S → ℕ → Heap → Mmu S → Option (Heap × Mmu S)
  unfolding new_hole both map_pages
  expand k new_size h m =
      let size = round_up new_size in
      let old_size = h.finish - h.start in
      if leb new_size old_size
      then some (h, m)
      else if ltb h.top (h.start + size)
      then none
      else both (map_pages k (rounds size old_size) (h.start + old_size) m)
          (new_hole h.finish size h)

-- HEAP_MIN_SIZE
abbrev pub min_size : ℕ
min_size = 458752

-- `contract`
unfoldable pub contract : ℕ → Heap → ℕ × Heap
contract new_size h =
    let rounded = (new_size + 4095) / 4096 * 4096 in
    let size = if ltb rounded min_size then min_size else rounded in
    let finish = if ltb size (h.finish - h.start) then h.start + size else h.finish in
    (finish - h.start, record h { finish = finish })

-- What `alloc` asks `expand` for.
abbrev pub wanted : ℕ → Heap → ℕ
wanted size h =
    let old_size = h.finish - h.start in
    if ltb (old_size * 2) (old_size + size + header_size + footer_size)
    then old_size + size + header_size + footer_size
    else old_size * 2

-- The second search.
pub search_again : ℕ → Bool → Heap → Option ℕ → Allocated
unfolding take_hole
search_again size page_align h none = exhausted h
search_again size page_align h (some i) = take_hole size page_align i h

module _ {S : Type 0} where
  -- The tables that go with a panic are those from before.
  pub after_expand : ℕ → Bool → Mmu S → Option (Heap × Mmu S) → Allocated × Mmu S
  unfolding search_again find_smallest_hole
  after_expand size page_align m none = (panicked, m)
  after_expand size page_align m (some (h, n)) = (
    search_again size page_align h
        (find_smallest_hole (size + header_size + footer_size) page_align h),
    n,
  )

  unfoldable pub first_search : Paging S → ℕ → Bool → Heap → Mmu S → Option ℕ → Allocated × Mmu S
  unfolding after_expand take_hole expand
  first_search k size page_align h m none =
      after_expand size page_align m (expand k (wanted size h) h m)
  first_search k size page_align h m (some i) = (take_hole size page_align i h, m)

  -- `alloc`
  unfoldable pub alloc : Paging S → ℕ → Bool → Heap → Mmu S → Allocated × Mmu S
  unfolding first_search find_smallest_hole
  alloc k size page_align h m =
      first_search k size page_align h m
        (find_smallest_hole (size + header_size + footer_size) page_align h)
