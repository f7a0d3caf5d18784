-- ===== src/Heap/Take.antt =====
-- `alloc` of libc/kheap.c once it has found a hole, on a row of tiles.
use curls.Prelude.{
  ℕ, ◌+◌, ◌-◌, ◌*◌, ◌/◌, ◌%◌, ◌<◌, ◌≤◌, ◌^◌, ◌≡◌, refl, ap, sym, subst, Bool, true, false, some,
  List, ◌∷◌, arith, ◌∙◌,
}
use curls.Prelude.Tests.{ltb, if◌then◌else◌, if_elim}
use curls.Prelude.Lists.{length, get_or}
use curls.Heap.{Heap, index_size}
use curls.Heap.Index.{remove_at, length-remove_at}
use curls.Heap.Alloc.{
  with_place, prefix_hole, must_move, prefix_size, align, Allocated, allocated, exhausted, panicked,
  at_place, after_align, take_hole,
}
use curls.Heap.Tiles.{Tile, Zip, IsZip, Right-le, Left-le}
use curls.Heap.Gap.{IsGap, at_hole, at_block, place_row, remove_at-IsGap, prefix_hole-IsGap}
use curls.Heap.Split.{split-place_row}

-- An address is given out, and the heap is a row with the block of that address in view.
abbrev pub IsAllocated : Allocated → Zip → Type 0
IsAllocated (allocated p h) z = (p ≡ z.pos + 12) × IsZip h z
IsAllocated (exhausted h) z = ⊥
IsAllocated panicked z = ⊥

pub take_hole-eq :
    (h : Heap) (a s size : ℕ) (page_align : Bool) (i : ℕ)
    → get_or h.index i 0 ≡ a
    → (h.headers a).size ≡ s
    → s ≤ h.top - h.start
    → take_hole size page_align i h
      ≡ after_align size (align page_align a s (record h { index = remove_at i h.index }))
unfolding take_hole
take_hole-eq h a s size page_align i e f le =
    let g : Heap = record h { index = remove_at i h.index } in
    let calm : ltb (h.top - h.start) s ≡ false = ground arith in
    ap
      (λ y.
        if ltb (h.top - h.start) (h.headers y).size
        then panicked
        else after_align size (align page_align y (h.headers y).size g))
      e
    ∙ ap
        (λ y.
          if ltb (h.top - h.start) y then panicked else after_align size (align page_align a y g))
        f
    ∙ ap (λ b. if b then panicked else after_align size (align page_align a s g)) calm

pos-place_row :
    (size : ℕ) (ls : List Tile) (a s : ℕ) (rs : List Tile) → (place_row size ls a s rs).pos ≡ a
pos-place_row size ls a s rs =
    if_elim (λ y. y.pos ≡ a) (ltb (s - (size + 28)) 28) (at_block ls a s rs)
      (at_block ls a (size + 28) (record { free = true; bytes = s - (size + 28) } ∷ rs)) (λ e. refl)
      (λ e. refl)

after_align-IsAllocated :
    (h : Heap) (ls : List Tile) (a s size : ℕ) (rs : List Tile)
    → IsGap h ls a s rs
    → size + 28 ≤ s
    → length h.index < index_size
    → IsAllocated
        (after_align size (some (record { pos = a; room = s }, h)))
        (place_row size ls a s rs)
unfolding after_align at_place
after_align-IsAllocated h ls a s size rs z fits room =
    let made = split-place_row h ls a s size rs z fits room in
    subst
      (λ r. IsAllocated (at_place size (record { pos = a; room = s }) r) (place_row size ls a s rs))
      (sym made.1.0) (ap (λ y. y + 12) (sym (pos-place_row size ls a s rs)), made.1.1)

-- `alloc` of a hole that is large enough, without alignment, gives the address behind the header of
-- a block that stands where the hole stood: the heap is again a row of tiles, with the hole cut
-- into a block of the requested size and a hole for what is left of it, or with a block
-- of the size of the hole if less than 28 bytes are left; and the index has each hole of that row once
-- and nothing else, in the order of the sizes.
pub take_hole-place_row :
    (h : Heap) (ls : List Tile) (a s size : ℕ) (rs : List Tile) (i : ℕ)
    → IsZip h (at_hole ls a s rs)
    → h.finish ≤ h.top
    → i < length h.index
    → length h.index ≤ index_size
    → get_or h.index i 0 ≡ a
    → size + 28 ≤ s
    → IsAllocated (take_hole size false i h) (place_row size ls a s rs)
unfolding align
take_hole-place_row h ls a s size rs i z top inside room e fits =
    let from : h.start ≤ a = Left-le h h.start ls a z.lefts in
    let to : a + s ≤ h.finish = Right-le h (a + s) rs h.finish z.rights in
    let g : Heap = record h { index = remove_at i h.index } in
    subst (λ r. IsAllocated r (place_row size ls a s rs))
      (sym (take_hole-eq h a s size false i e z.here.head_size (omega arith)))
      (after_align-IsAllocated g ls a s size rs (remove_at-IsGap h ls a s rs i z inside e) fits
        (omega (arith, length-remove_at i h.index)))

pub align-moved :
    (a s : ℕ) (h g : Heap)
    → must_move true a ≡ true
    → prefix_size a ≤ s
    → s < 2 ^ 32
    → prefix_hole a (prefix_size a) h ≡ some g
    → align true a s h ≡ some (record { pos = a + prefix_size a; room = s - prefix_size a }, g)
unfolding align with_place
align-moved a s h g m le small e =
    let pos : (a + 12 + 4095) / 4096 * 4096 - 12 ≡ a + prefix_size a = ground arith in
    let room : (s + 2 ^ 32 - prefix_size a) % 2 ^ 32 ≡ s - prefix_size a = omega arith in
    ap
      (λ b.
        if b
        then with_place
            (record {
              pos = (a + 12 + 4095) / 4096 * 4096 - 12;
              room = (s + 2 ^ 32 - prefix_size a) % 2 ^ 32;
            })
            (prefix_hole a (prefix_size a) h)
        else some (record { pos = a; room = s }, h))
      m
    ∙ ap
        (with_place (record {
          pos = (a + 12 + 4095) / 4096 * 4096 - 12;
          room = (s + 2 ^ 32 - prefix_size a) % 2 ^ 32;
        }))
        e
    ∙ ap (λ y. some (record { pos = y; room = (s + 2 ^ 32 - prefix_size a) % 2 ^ 32 }, g)) pos
    ∙ ap (λ y. some (record { pos = a + prefix_size a; room = y }, g)) room

-- A page-aligned `alloc` of a hole that is large enough, where the part of the hole in front of the
-- aligned block has room for a header and a footer, gives an address that is a multiple of 4096: the
-- heap is again a row of tiles, with that part as a hole of its own, then the block, then a hole
-- for what is left where 28 bytes or more are; and the index has each hole of that row once and nothing
-- else, in the order of the sizes.
pub take_hole-aligned :
    (h : Heap) (ls : List Tile) (a s size : ℕ) (rs : List Tile) (i : ℕ)
    → IsZip h (at_hole ls a s rs)
    → h.finish ≤ h.top
    → i < length h.index
    → length h.index < index_size
    → get_or h.index i 0 ≡ a
    → must_move true a ≡ true
    → 28 ≤ prefix_size a
    → prefix_size a + size + 28 ≤ s
    → ((a + prefix_size a + 12) % 4096 ≡ 0)
      × IsAllocated (take_hole size true i h) (
          place_row size
            (record { free = true; bytes = prefix_size a } ∷ ls)
            (a + prefix_size a)
            (s - prefix_size a)
            rs)
take_hole-aligned h ls a s size rs i z top inside room e m large fits =
    let from : h.start ≤ a = Left-le h h.start ls a z.lefts in
    let to : a + s ≤ h.finish = Right-le h (a + s) rs h.finish z.rights in
    let p : ℕ = prefix_size a in
    let g : Heap = record h { index = remove_at i h.index } in
    let fewer : length g.index ≡ length h.index - 1 = length-remove_at i h.index in
    let made =
      prefix_hole-IsGap g ls a s p rs (remove_at-IsGap h ls a s rs i z inside e) large (omega arith)
        (omega arith) in
    let k : Heap = made.0 in
    let row : Zip = place_row size (record { free = true; bytes = p } ∷ ls) (a + p) (s - p) rs in
    (
      ground arith,
      subst (λ r. IsAllocated r row)
          (sym (take_hole-eq h a s size true i e z.here.head_size (omega arith)))
          (subst (λ r. IsAllocated (after_align size r) row)
            (sym (align-moved a s g k m (omega arith) (omega (arith, z.below)) made.1.0))
            (after_align-IsAllocated k (record { free = true; bytes = p } ∷ ls) (a + p) (s - p) size
              rs made.1.1.0 (omega arith) (omega (arith, made.1.1.1)))),
    )
