-- ===== src/Heap/Stale.antt =====
-- `alloc` of libc/kheap.c with alignment, where the part of the hole in front of the block is too
-- small for a hole of its own.
use curls.Prelude.{
  ℕ, ◌+◌, ◌-◌, ◌%◌, ◌<◌, ◌≤◌, ◌^◌, ◌≡◌, refl, ap, Bool, true, false, Option, none, some, List,
  arith, ◌∙◌,
}
use curls.Prelude.Tests.{ltb, leb, ◌==◌, if◌then◌else◌, if_elim}
use curls.Prelude.Lists.{length, get_or}
use curls.Prelude.Store.{update}
use curls.Heap.{Header, Heap, magic_number, sizes, index_size, set_footer, set_header, insert}
use curls.Heap.Index.{remove_at, insert_item, length-remove_at}
use curls.Heap.Alloc.{
  Place, prefix_hole, must_move, prefix_size, set_block, set_rest, rest_of, data_size, split,
  allocated, at_place, after_align, take_hole,
}
use curls.Heap.Free.{has_right}
use curls.Heap.Tiles.{Tile, IsZip, Right-le, Left-le}
use curls.Heap.Gap.{at_hole}
use curls.Heap.Split.{set_block-room}
use curls.Heap.Take.{align-moved, take_hole-eq}

-- The headers below an address stay, and the borders of the heap.
record Kept (a : ℕ) (h g : Heap) : Type 0 where
  headers : (x : ℕ) → x < a → g.headers x ≡ h.headers x
  start : g.start ≡ h.start
  finish : g.finish ≡ h.finish

abbrev Keeps : ℕ → Heap → Option Heap → Type 0
Keeps a h none = ⊥
Keeps a h (some g) = Kept a h g

insert-Keeps :
    (a : ℕ) (h k : Heap) → length k.index < index_size → Kept a h k → Keeps a h (insert a k)
unfolding insert
insert-Keeps a h k room p =
    if_elim (Keeps a h) (leb index_size (length k.index)) none
      (some (record k { index = insert_item (sizes k) a k.index })) (λ e. absurd (ground arith))
      (λ e. record { headers = p.headers; start = p.start; finish = p.finish })

set_rest-Keeps : (a n : ℕ) (h : Heap) → length h.index < index_size → Keeps a h (set_rest a n h)
unfolding set_rest set_header set_footer update
set_rest-Keeps a n h room =
    let headed : Heap = set_header a true (n % 2 ^ 32) h in
    let footed : Heap = set_footer (a + n % 2 ^ 32 - 16) a headed in
    let inside : Bool = ltb (a + n % 2 ^ 32 - 16) h.finish in
    let kept : Kept a h headed = record {
      headers = λ x l. ground arith;
      start = refl;
      finish = refl;
    } in
    if_elim (Keeps a h) (n == 0) (some h) (insert a (if inside then footed else headed))
      (λ e. record { headers = λ x l. refl; start = refl; finish = refl })
      (λ e.
        if_elim (λ k. Keeps a h (insert a k)) inside footed headed
          (λ f.
            insert-Keeps a h footed room
              (record { headers = kept.headers; start = refl; finish = refl }))
          (λ f. insert-Keeps a h headed room kept))

-- The block at the place, and what stays below it.
record Placed (a : ℕ) (h g : Heap) : Type 0 where
  headers : (x : ℕ) → x < a → g.headers x ≡ h.headers x
  block : (g.headers a).is_hole ≡ false
  start : g.start ≡ h.start
  finish : g.finish ≡ h.finish

set_block-Placed : (h : Heap) (a used : ℕ) → Placed a h (set_block a used h)
unfolding set_block set_header set_footer update
set_block-Placed h a used = record {
  headers = λ x l. ground arith;
  block = ground arith;
  start = refl;
  finish = refl;
}

Placed-Keeps :
    (h k : Heap) (a b : ℕ) (r : Option Heap)
    → a < b
    → Placed a h k
    → Keeps b k r
    → (g : Heap) × ((r ≡ some g) × Placed a h g)
Placed-Keeps h k a b none l q p = elim p [ ]
Placed-Keeps h k a b (some g) l q p = (
  g,
  (
    refl,
    record {
      headers = λ x m. p.headers x (omega arith) ∙ q.headers x m;
      block = ap Header.is_hole (p.headers a l) ∙ q.block;
      start = p.start ∙ q.start;
      finish = p.finish ∙ q.finish;
    },
  ),
)

split-Placed :
    (h : Heap) (a s size : ℕ)
    → length h.index < index_size
    → (g : Heap) × ((split size (record { pos = a; room = s }, h) ≡ some g) × Placed a h g)
unfolding split
split-Placed h a s size room =
    let used : ℕ = data_size s size in
    let k : Heap = set_block a used h in
    let b : ℕ = a + 12 + used + 16 in
    let n : ℕ = rest_of s (used + 12 + 16) in
    Placed-Keeps h k a b (set_rest b n k) (omega arith) (set_block-Placed h a used)
      (set_rest-Keeps b n k (set_block-room a used h room))

-- The block that `alloc` gives lies in a hole that is still in the heap.
pub record IsStale (h g : Heap) (a s q : ℕ) : Type 0 where
  -- The block stands behind the start of the hole, in front of its end.
  block : (g.headers (a + q)).is_hole ≡ false
  inside : q < s
  -- The header of the hole.
  header : g.headers a ≡ h.headers a
  -- It is taken for the hole on the right of a tile that ends there.
  merged : has_right a g ≡ true

-- A page-aligned `alloc` of a hole whose part in front of the aligned block has room for a header but
-- for no hole gives the address of the aligned block, and leaves the header of the old hole,
-- with its magic number, its mark as a hole and its old size, in front of the block:
-- `free_internal` of a block that ends there takes it for a free neighbour of the old size, in which the
-- allocated block lies.
pub take_hole-IsStale :
    (h : Heap) (ls : List Tile) (a s size : ℕ) (rs : List Tile) (i : ℕ)
    → IsZip h (at_hole ls a s rs)
    → h.finish ≤ h.top
    → i < length h.index
    → length h.index ≤ index_size
    → get_or h.index i 0 ≡ a
    → must_move true a ≡ true
    → 12 ≤ prefix_size a
    → prefix_size a < 28
    → prefix_size a + size + 28 ≤ s
    → (g : Heap) × ((take_hole size true i h ≡ allocated (a + prefix_size a + 12) g)
        × IsStale h g a s (prefix_size a))
unfolding after_align at_place prefix_hole has_right
take_hole-IsStale h ls a s size rs i z top inside room e m large small fits =
    let from : h.start ≤ a = Left-le h h.start ls a z.lefts in
    let to : a + s ≤ h.finish = Right-le h (a + s) rs h.finish z.rights in
    let q : ℕ = prefix_size a in
    let k : Heap = record h { index = remove_at i h.index } in
    let p : Place = record { pos = a + q; room = s - q } in
    let fewer : length k.index ≡ length h.index - 1 = length-remove_at i h.index in
    let no_prefix : prefix_hole a q k ≡ some k = ground arith in
    let made = split-Placed k (a + q) (s - q) size (omega arith) in
    let g : Heap = made.0 in
    let here : g.headers a ≡ h.headers a = made.1.1.headers a (omega arith) in
    let magic : (g.headers a).magic ≡ magic_number = ap Header.magic here ∙ z.here.head_magic in
    let hole : (g.headers a).is_hole ≡ true = ap Header.is_hole here ∙ z.here.head_hole in
    let start : g.start ≡ h.start = made.1.1.start in
    let finish : g.finish ≡ h.finish = made.1.1.finish in
    (
      g,
      (
        take_hole-eq h a s size true i e z.here.head_size (omega arith)
            ∙ ap (after_align size)
                (align-moved a s k k m (omega arith) (omega (arith, z.below)) no_prefix)
            ∙ ap (at_place size p) made.1.0,
        record {
          block = made.1.1.block;
          inside = omega arith;
          header = here;
          merged = ground arith;
        },
      ),
    )
