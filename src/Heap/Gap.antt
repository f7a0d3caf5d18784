-- ===== src/Heap/Gap.antt =====
-- `alloc` of libc/kheap.c on a row of tiles: the hole that it takes out of the index, what it cuts
-- off in front to align the block, and what it leaves behind.
use curls.Prelude.{
  ℕ, suc, ◌+◌, ◌-◌, ◌%◌, ◌<◌, ◌≤◌, ◌^◌, ◌≡◌, ◌≢◌, refl, ap, subst, true, false, some, List, ◌∷◌,
  arith,
}
use curls.Prelude.Tests.{ltb, ◌==◌, if◌then◌else◌}
use curls.Prelude.Lists.{length, get_or}
use curls.Prelude.Store.{update}
use curls.Heap.{Heap, sizes, index_size, set_footer, set_header, insert}
use curls.Heap.Index.{
  count, IsSorted, remove_at, insert_item, count-remove_at, count-insert_item, IsSorted-remove_at,
  IsSorted-insert_item, length-insert_item,
}
use curls.Heap.Alloc.{prefix_hole, set_block}
use curls.Heap.Tiles.{
  Tile, IsTile, Right, Left, holes_right, holes_left, Zip, IsZip, Right-le, Left-le, Right-frame,
  Left-frame, holes_right-below, holes_left-above, IsSorted-frame, Left-cons, at,
}

-- A row with a gap of `s` bytes at `a`, which has no header and stands not in the index.
pub record IsGap (h : Heap) (ls : List Tile) (a s : ℕ) (rs : List Tile) : Type 0 where
  pub lefts : Left h h.start ls a
  pub rights : Right h (a + s) rs h.finish
  pub exact : (x : ℕ) → count x h.index ≡ holes_left a ls x + holes_right (a + s) rs x
  pub sorted : IsSorted (sizes h) h.index
  pub above : 16 ≤ h.start
  pub below : h.finish - h.start < 2 ^ 32

-- The row with a hole in view, and with a block.
abbrev pub at_hole : List Tile → ℕ → ℕ → List Tile → Zip
at_hole ls a s rs = at ls a (record { free = true; bytes = s }) rs

abbrev pub at_block : List Tile → ℕ → ℕ → List Tile → Zip
at_block ls a s rs = at ls a (record { free = false; bytes = s }) rs

-- The row once a block of `size` bytes stands in the gap: it gets all of the gap if the rest is too
-- small for a hole.
abbrev pub place_row : ℕ → List Tile → ℕ → ℕ → List Tile → Zip
place_row size ls a s rs =
    if ltb (s - (size + 28)) 28
    then at_block ls a s rs
    else at_block ls a (size + 28) (record { free = true; bytes = s - (size + 28) } ∷ rs)

pub remove_at-IsGap :
    (h : Heap) (ls : List Tile) (a s : ℕ) (rs : List Tile) (i : ℕ)
    → IsZip h (at_hole ls a s rs)
    → i < length h.index
    → get_or h.index i 0 ≡ a
    → IsGap (record h { index = remove_at i h.index }) ls a s rs
remove_at-IsGap h ls a s rs i z l e =
    let g : Heap = record h { index = remove_at i h.index } in
    record {
      lefts =
          Left-frame h g h.start ls a (λ x l. record { same_header = refl; same_footer = refl })
            z.lefts;
      rights =
          Right-frame h g (a + s) rs h.finish
            (λ x l. record { same_header = refl; same_footer = refl }) z.rights;
      exact = λ x.
          let c : count x h.index ≡ (
              if a == x
              then suc (count x (remove_at i h.index))
              else count x (remove_at i h.index)) =
            subst
              (λ y. count x h.index ≡ (
                if y == x
                then suc (count x (remove_at i h.index))
                else count x (remove_at i h.index)))
              e (count-remove_at i x h.index l) in
          ground (arith, c, z.exact x);
      sorted = IsSorted-remove_at (sizes h) i h.index z.sorted;
      above = z.above;
      below = z.below;
    }

-- A block stands in front of what is left of the gap.
pub set_block-IsGap :
    (h : Heap) (ls : List Tile) (a s n : ℕ) (rs : List Tile)
    → IsGap h ls a s rs
    → 28 ≤ n
    → n ≤ s
    → IsGap (set_block a (n - 28) h) (record { free = false; bytes = n } ∷ ls) (a + n) (s - n) rs
unfolding set_block set_header set_footer update
set_block-IsGap h ls a s n rs z large le =
    let from : h.start ≤ a = Left-le h h.start ls a z.lefts in
    let to : a + s ≤ h.finish = Right-le h (a + s) rs h.finish z.rights in
    let total : h.finish - h.start < 2 ^ 32 = z.below in
    let size : (n - 28 + 12 + 16) % 2 ^ 32 ≡ n = omega arith in
    let g : Heap = set_block a (n - 28) h in
    let back : a ≡ a + n - n = omega arith in
    let assoc : a + s ≡ a + n + (s - n) = omega arith in
    let no_left : holes_left a ls a ≡ 0 = holes_left-above h h.start a ls a z.lefts (omega arith) in
    let no_right : holes_right (a + s) rs a ≡ 0 =
      holes_right-below h (a + s) rs h.finish a z.rights (omega arith) in
    let apart : (x : ℕ) → count x h.index ≢ 0 → sizes h x ≡ sizes g x =
      λ x c. ground (arith, z.exact x) in
    let here : IsTile g a (record { free = false; bytes = n }) = record {
      head_magic = ground arith;
      head_hole = ground arith;
      head_size = ground arith;
      foot_magic = ground arith;
      foot_header = ground arith;
      large = large;
    } in
    let below_it : Left g h.start ls a =
      Left-frame h g h.start ls a
        (λ x l. record { same_header = ground arith; same_footer = ground arith }) z.lefts in
    record {
      lefts = Left-cons g h.start (record { free = false; bytes = n }) ls a here below_it;
      rights =
          subst (λ y. Right g y rs h.finish) assoc
            (Right-frame h g (a + s) rs h.finish
              (λ x l. record { same_header = ground arith; same_footer = ground arith }) z.rights);
      exact = λ x.
          ground (
            arith,
            z.exact x,
            ap (λ y. holes_left y ls x) back,
            ap (λ y. holes_right y rs x) assoc,
          );
      sorted = IsSorted-frame (sizes h) (sizes g) h.index apart z.sorted;
      above = z.above;
      below = z.below;
    }

-- A hole stands in front of what is left of the gap.
pub prefix_hole-IsGap :
    (h : Heap) (ls : List Tile) (a s n : ℕ) (rs : List Tile)
    → IsGap h ls a s rs
    → 28 ≤ n
    → n ≤ s
    → length h.index < index_size
    → (g : Heap) × ((prefix_hole a n h ≡ some g)
        × (IsGap g (record { free = true; bytes = n } ∷ ls) (a + n) (s - n) rs
            × (length g.index ≡ suc (length h.index))))
unfolding prefix_hole set_header set_footer insert update
prefix_hole-IsGap h ls a s n rs z large le room =
    let from : h.start ≤ a = Left-le h h.start ls a z.lefts in
    let to : a + s ≤ h.finish = Right-le h (a + s) rs h.finish z.rights in
    let total : h.finish - h.start < 2 ^ 32 = z.below in
    let k : Heap = set_footer (a + n - 16) a (set_header a true n h) in
    let g : Heap = record k { index = insert_item (sizes k) a h.index } in
    let back : a ≡ a + n - n = omega arith in
    let assoc : a + s ≡ a + n + (s - n) = omega arith in
    let no_left : holes_left a ls a ≡ 0 = holes_left-above h h.start a ls a z.lefts (omega arith) in
    let no_right : holes_right (a + s) rs a ≡ 0 =
      holes_right-below h (a + s) rs h.finish a z.rights (omega arith) in
    let apart : (x : ℕ) → count x h.index ≢ 0 → sizes h x ≡ sizes k x =
      λ x c. ground (arith, z.exact x) in
    let here : IsTile g a (record { free = true; bytes = n }) = record {
      head_magic = ground arith;
      head_hole = ground arith;
      head_size = ground arith;
      foot_magic = ground arith;
      foot_header = ground arith;
      large = large;
    } in
    let below_it : Left g h.start ls a =
      Left-frame h g h.start ls a
        (λ x l. record { same_header = ground arith; same_footer = ground arith }) z.lefts in
    let gap : IsGap g (record { free = true; bytes = n } ∷ ls) (a + n) (s - n) rs = record {
      lefts = Left-cons g h.start (record { free = true; bytes = n }) ls a here below_it;
      rights =
          subst (λ y. Right g y rs h.finish) assoc
            (Right-frame h g (a + s) rs h.finish
              (λ x l. record { same_header = ground arith; same_footer = ground arith }) z.rights);
      exact = λ x. ground (
        arith,
        z.exact x,
        count-insert_item (sizes k) a x h.index,
        ap (λ y. holes_left y ls x) back,
        ap (λ y. holes_right y rs x) assoc,
      );
      sorted =
          IsSorted-insert_item (sizes k) a h.index
            (IsSorted-frame (sizes h) (sizes k) h.index apart z.sorted);
      above = z.above;
      below = z.below;
    } in
    (g, (ground arith, (gap, length-insert_item (sizes k) a h.index)))
