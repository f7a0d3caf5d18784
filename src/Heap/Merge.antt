-- ===== src/Heap/Merge.antt =====
-- `free_internal` of libc/kheap.c on a row of tiles: what it merges, and when it panics.
use curls.Prelude.{
  ℕ, ◌+◌, ◌-◌, ◌<◌, ◌≤◌, ◌≡◌, refl, ap, sym, subst, Bool, true, false, Option, none, some, List, [],
  ◌∷◌, arith, ◌∙◌,
}
use curls.Prelude.Tests.{◌==◌, if◌then◌else◌, if_elim, not}
use curls.Prelude.Lists.{length}
use curls.Prelude.Store.{update}
use curls.Heap.{Heap, sizes, index_size}
use curls.Heap.Free.{merge_right, merge_left, and_left, is_intact, mark_hole, free_internal}
use curls.Heap.Tiles.{Tile, IsTile, Zip, IsZip, Right-frame, Left-frame, IsSorted-frame}
use curls.Heap.Row.{Refines, spans_zip, guard, right_of, left_of, opened, IsOpen}
use curls.Heap.Right.{merge_right-Refines}
use curls.Heap.Left.{merge_left-Refines}

abbrev pub then_left : Option Zip → Option Zip
then_left none = none
then_left (some z) = left_of z z.left

-- The row of tiles without the block in view.
abbrev pub free_row : Zip → Option Zip
free_row z =
    then_left
      (right_of (record z { focus = record { free = true; bytes = z.focus.bytes } }) z.right)

abbrev pub PosIs : ℕ → Option Zip → Type 0
PosIs a none = Unit
PosIs a (some z) = z.pos ≡ a

pub and_left-Refines :
    (a : ℕ) (r : Option Heap) (o : Option Zip)
    → PosIs a o
    → Refines IsOpen r o
    → Refines IsZip (and_left a r) (then_left o)
unfolding and_left
and_left-Refines a none none k f = tt
and_left-Refines a none (some z) k f = elim f [ ]
and_left-Refines a (some h) none k f = elim f [ ]
and_left-Refines a (some h) (some z) k f =
    subst (λ y. Refines IsZip (merge_left y h) (left_of z z.left)) k
      (subst (λ y. Refines IsZip (merge_left y.pos h) (left_of y y.left)) (sym f.shape)
        (merge_left-Refines h z.left z.pos z.focus.bytes z.right
          (subst (λ y. IsOpen h y) f.shape f)))

-- The block in view becomes a hole that the index does not have.
pub mark_hole-IsOpen :
    (h : Heap) (ls : List Tile) (a s : ℕ) (rs : List Tile)
    → IsZip h (record (opened ls a s rs) { focus = record { free = false; bytes = s } })
    → length h.index < index_size
    → IsOpen (mark_hole a h) (opened ls a s rs)
unfolding update
mark_hole-IsOpen h ls a s rs z room =
    let g : Heap = mark_hole a h in
    let mine : 28 ≤ s = z.here.large in
    let i : IsZip g (opened ls a s rs) = record {
      lefts =
          Left-frame h g h.start ls a
            (λ x l. record { same_header = ground arith; same_footer = refl }) z.lefts;
      here = record {
        head_magic = ground (arith, z.here.head_magic);
        head_hole = ground arith;
        head_size = ground (arith, z.here.head_size);
        foot_magic = z.here.foot_magic;
        foot_header = z.here.foot_header;
        large = z.here.large;
      };
      rights =
          Right-frame h g (a + s) rs h.finish
            (λ x l. record { same_header = ground arith; same_footer = refl }) z.rights;
      exact = z.exact;
      sorted = IsSorted-frame (sizes h) (sizes g) h.index (λ x c. ground arith) z.sorted;
      above = z.above;
      below = z.below;
    } in
    record { zip = i; room = room; shape = refl }

pub PosIs-right_of :
    (ls : List Tile) (a s : ℕ) (rs ts : List Tile) → PosIs a (right_of (opened ls a s rs) ts)
PosIs-right_of ls a s rs [] = refl
PosIs-right_of ls a s rs (t ∷ ts) =
    let z : Zip = opened ls a (s + t.bytes) ts in
    if_elim (PosIs a) t.free (guard z) (some (opened ls a s rs))
      (λ e. if_elim (PosIs a) (spans_zip z) none (some z) (λ e. tt) (λ e. refl)) (λ e. refl)

-- The path that `free_internal` takes for an intact block.
pub free_internal-intact :
    (h : Heap) (a s : ℕ) (k : Bool)
    → IsTile h a (record { free = k; bytes = s })
    → free_internal (a + 12) h ≡ and_left a (merge_right a (mark_hole a h))
unfolding free_internal is_intact
free_internal-intact h a s k i =
    let back : a + 12 - 12 ≡ a = omega arith in
    let same : a + (h.headers a).size - 16 ≡ a + s - 16 = omega (arith, i.head_size) in
    let intact : is_intact a h ≡ true =
      ground (arith, i.head_magic, ap (λ f. (h.footers f).magic) same ∙ i.foot_magic) in
    let nonzero : (a + 12 == 0) ≡ false = ground arith in
    ap
      (λ b.
        if b
        then some h
        else if not (is_intact (a + 12 - 12) h)
        then some h
        else and_left (a + 12 - 12) (merge_right (a + 12 - 12) (mark_hole (a + 12 - 12) h)))
      nonzero
    ∙ ap (λ y. if not (is_intact y h) then some h else and_left y (merge_right y (mark_hole y h)))
        back
    ∙ ap (λ b. if not b then some h else and_left a (merge_right a (mark_hole a h))) intact

-- `free_internal` of a tile that is not in the index.
pub free_internal-Refines :
    (h : Heap) (ls : List Tile) (a s : ℕ) (k : Bool) (rs : List Tile)
    → IsTile h a (record { free = k; bytes = s })
    → IsOpen (mark_hole a h) (opened ls a s rs)
    → Refines IsZip (free_internal (a + 12) h) (free_row (opened ls a s rs))
free_internal-Refines h ls a s k rs i o =
    subst (λ r. Refines IsZip r (free_row (opened ls a s rs)))
      (sym (free_internal-intact h a s k i))
      (and_left-Refines a (merge_right a (mark_hole a h)) (right_of (opened ls a s rs) rs)
        (PosIs-right_of ls a s rs rs) (merge_right-Refines (mark_hole a h) ls a s rs o))

-- `free` of a block of a heap that is a row of tiles, with room for one more item in the index, is
-- the removal of the block from the row: the block becomes a hole that takes in a hole on its
-- right, then a hole on its left; the heap is again a row of tiles, its index has each hole of the
-- row once and nothing else, in the order of the sizes; and it panics just if one of these merges
-- makes a hole that spans the guarded address.
pub free_internal-free_row :
    (h : Heap) (ls : List Tile) (a s : ℕ) (rs : List Tile)
    → IsZip h (record (opened ls a s rs) { focus = record { free = false; bytes = s } })
    → length h.index < index_size
    → Refines IsZip (free_internal (a + 12) h) (free_row (opened ls a s rs))
free_internal-free_row h ls a s rs z room =
    free_internal-Refines h ls a s false rs z.here (mark_hole-IsOpen h ls a s rs z room)
