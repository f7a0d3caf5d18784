-- ===== src/Heap/Free.antt =====
-- `free_internal` of libc/kheap.c: the merge with the hole on each side. none is a panic.
use curls.Prelude.{ℕ, ◌+◌, ◌-◌, ◌%◌, ◌^◌, Bool, true, ◌&&◌, Option, none, some}
use curls.Prelude.Tests.{not, ltb, leb, ◌==◌, if◌then◌else◌}
use curls.Heap.{Heap, magic_number, header_size, footer_size, set_footer, sizes, insert}
use curls.Prelude.Store.{update}
use curls.Heap.Index.{remove_item}

-- The address that `free_internal` guards.
abbrev pub guarded : ℕ
guarded = 18446638520594350080

-- The test of the two diagnostics.
abbrev pub spans : ℕ → Heap → Bool
spans a h = leb a guarded && ltb guarded (a + sizes h a)

-- Where the footer of a header stands.
abbrev pub footer_of : ℕ → Heap → ℕ
footer_of a h = a + sizes h a - footer_size

unfoldable pub has_right : ℕ → Heap → Bool
has_right next h =
    leb h.start next
    && (leb (next + header_size) h.finish
        && (((h.headers next).magic == magic_number) && (h.headers next).is_hole))

-- `header->size +=` in 32 bits.
abbrev pub grow : ℕ → ℕ → Heap → Heap
grow a more h = record h {
  headers = update h.headers a (record (h.headers a) { size = (sizes h a + more) % 2 ^ 32 });
}

-- The guard that ends each merge.
unfoldable pub checked : ℕ → Heap → Option Heap
checked a h = if spans a h then none else some h

-- The larger hole: its size, the index without `next`, and its footer.
unfoldable pub absorb : ℕ → ℕ → Heap → Heap
unfolding set_footer
absorb a next h =
    let grown = grow a (sizes h next) h in
    set_footer (footer_of a grown) a (record grown { index = remove_item next grown.index })

unfoldable pub merge_right : ℕ → Heap → Option Heap
unfolding has_right checked absorb
merge_right a h =
    let next = footer_of a h + footer_size in
    if has_right next h then checked a (absorb a next h) else some h

unfoldable pub has_left : ℕ → Heap → Bool
has_left a h =
    let prev_footer = h.footers (a - footer_size) in
    leb h.start (a - footer_size)
    && (leb (a - footer_size + footer_size) a
        && ((prev_footer.magic == magic_number)
            && (leb h.start prev_footer.header
                && (leb (prev_footer.header + header_size) h.finish
                    && (((h.headers prev_footer.header).magic == magic_number)
                        && (h.headers prev_footer.header).is_hole)))))

-- The footer of the merged hole gets the header; it keeps its magic number.
abbrev pub point : ℕ → ℕ → Heap → Heap
point f header h = record h {
  footers = update h.footers f (record (h.footers f) { header = header });
}

-- The hole at `prev` with the tile at `a`.
unfoldable pub join : ℕ → ℕ → Heap → Heap
join prev a h =
    let grown = point (footer_of a h) prev (grow prev (sizes h a) h) in
    record grown { index = remove_item prev grown.index }

-- `checked`, then to the end of `free_internal`.
unfoldable pub checked_insert : ℕ → Heap → Option Heap
unfolding insert
checked_insert a h = if spans a h then none else insert a h

unfoldable pub merge_left : ℕ → Heap → Option Heap
unfolding has_left join checked_insert insert
merge_left a h =
    let prev = (h.footers (a - footer_size)).header in
    if has_left a h then checked_insert prev (join prev a h) else insert a h

unfoldable pub and_left : ℕ → Option Heap → Option Heap
unfolding merge_left
and_left a none = none
and_left a (some h) = merge_left a h

-- Both magic numbers.
unfoldable pub is_intact : ℕ → Heap → Bool
is_intact a h =
    ((h.headers a).magic == magic_number) && ((h.footers (footer_of a h)).magic == magic_number)

-- `header->is_hole = 1`
abbrev pub mark_hole : ℕ → Heap → Heap
mark_hole a h = record h { headers = update h.headers a (record (h.headers a) { is_hole = true }) }

-- `free_internal`, and `free`, which takes the lock around it.
unfoldable pub free_internal : ℕ → Heap → Option Heap
unfolding is_intact merge_right and_left
free_internal p h =
    let a = p - header_size in
    if p == 0
    then some h
    else if not (is_intact a h)
    then some h
    else and_left a (merge_right a (mark_hole a h))
