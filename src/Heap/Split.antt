-- ===== src/Heap/Split.antt =====
-- The split in `alloc` of libc/kheap.c, on a row of tiles: the block that a gap gets, and the hole
-- behind it.
use curls.Prelude.{
  ℕ, ◌+◌, ◌-◌, ◌%◌, ◌<◌, ◌≤◌, ◌^◌, ◌≡◌, refl, ap, sym, subst, inl, inr, true, false, some, List,
  ◌∷◌, arith, ◌∙◌,
}
use curls.Prelude.Tests.{ltb, leb, ◌==◌, Bool-cases}
use curls.Prelude.Lists.{length}
use curls.Heap.{Heap, index_size, set_footer, set_header}
use curls.Heap.Alloc.{prefix_hole, set_block, set_rest, rest_of, data_size, split}
use curls.Heap.Tiles.{Tile, Right, holes_right, IsZip, Right-le, Left-le, at, move_left-IsZip}
use curls.Heap.Gap.{IsGap, at_hole, at_block, place_row, set_block-IsGap, prefix_hole-IsGap}

-- A gap that is used up.
close-IsZip :
    (h : Heap) (t : Tile) (ls : List Tile) (a : ℕ) (rs : List Tile)
    → IsGap h (t ∷ ls) a 0 rs
    → IsZip h (at ls (a - t.bytes) t rs)
close-IsZip h t ls a rs z =
    let le : t.bytes ≤ a = z.lefts.0 in
    let back : a + 0 ≡ a - t.bytes + t.bytes = omega arith in
    record {
      lefts = z.lefts.1.1;
      here = z.lefts.1.0;
      rights = subst (λ y. Right h y rs h.finish) back z.rights;
      exact = λ x. omega (arith, z.exact x, ap (λ y. holes_right y rs x) back);
      sorted = z.sorted;
      above = z.above;
      below = z.below;
    }

-- The hole behind a block is made the way the one in front of it is.
set_rest-prefix_hole :
    (h : Heap) (ls : List Tile) (a s : ℕ) (rs : List Tile)
    → IsGap h ls a s rs
    → 28 ≤ s
    → set_rest a s h ≡ prefix_hole a s h
unfolding set_rest prefix_hole set_header set_footer
set_rest-prefix_hole h ls a s rs z large =
    let from : h.start ≤ a = Left-le h h.start ls a z.lefts in
    let to : a + s ≤ h.finish = Right-le h (a + s) rs h.finish z.rights in
    let size : s % 2 ^ 32 ≡ s = omega (arith, z.below) in
    let some_left : (s == 0) ≡ false = ground arith in
    let inside : ltb (a + s - 16) h.finish ≡ true = ground arith in
    let enough : leb 28 s ≡ true = ground arith in ground arith

split-eq :
    (h : Heap) (a s n size : ℕ)
    → 28 ≤ n
    → n ≤ s
    → s < 2 ^ 32
    → data_size s size ≡ n - 28
    → split size (record { pos = a; room = s }, h)
      ≡ set_rest (a + n) (s - n) (set_block a (n - 28) h)
unfolding split
split-eq h a s n size large le small e =
    let pos : a + 12 + (n - 28) + 16 ≡ a + n = omega arith in
    let rest : (s + 2 ^ 64 - (n - 28 + 12 + 16)) % 2 ^ 64 ≡ s - n = omega arith in
    ap (λ u. set_rest (a + 12 + u + 16) (rest_of s (u + 12 + 16)) (set_block a u h)) e
    ∙ ap (λ y. set_rest y (rest_of s (n - 28 + 12 + 16)) (set_block a (n - 28) h)) pos
    ∙ ap (λ y. set_rest (a + n) y (set_block a (n - 28) h)) rest

-- A whole gap becomes a hole that the index has.
set_rest-IsZip :
    (h : Heap) (ls : List Tile) (a s : ℕ) (rs : List Tile)
    → IsGap h ls a s rs
    → 28 ≤ s
    → length h.index < index_size
    → (g : Heap) × ((set_rest a s h ≡ some g) × IsZip g (at_hole ls a s rs))
set_rest-IsZip h ls a s rs z large room =
    let made = prefix_hole-IsGap h ls a s s rs z large (omega arith) room in
    let g : Heap = made.0 in
    let none_left : s - s ≡ 0 = omega arith in
    let back : a + s - s ≡ a = omega arith in
    let closed : IsZip g (at_hole ls (a + s - s) s rs) =
      close-IsZip g (record { free = true; bytes = s }) ls (a + s) rs
        (subst (λ y. IsGap g (record { free = true; bytes = s } ∷ ls) (a + s) y rs) none_left
          made.1.1.0) in
    (
      g,
      (
        set_rest-prefix_hole h ls a s rs z large ∙ made.1.0,
        subst (λ y. IsZip g (at_hole ls y s rs)) back closed,
      ),
    )

set_rest-zero : (a s : ℕ) (h : Heap) → s ≡ 0 → set_rest a s h ≡ some h
unfolding set_rest
set_rest-zero a s h e = subst (λ y. set_rest a y h ≡ some h) (sym e) refl

pub set_block-room :
    (a s : ℕ) (h : Heap) → length h.index < index_size → length (set_block a s h).index < index_size
unfolding set_block set_header set_footer
set_block-room a s h l = l

-- The split of a gap.
pub split-place_row :
    (h : Heap) (ls : List Tile) (a s size : ℕ) (rs : List Tile)
    → IsGap h ls a s rs
    → size + 28 ≤ s
    → length h.index < index_size
    → (g : Heap) × ((split size (record { pos = a; room = s }, h) ≡ some g)
        × IsZip g (place_row size ls a s rs))
split-place_row h ls a s size rs z fits room =
    let from : h.start ≤ a = Left-le h h.start ls a z.lefts in
    let to : a + s ≤ h.finish = Right-le h (a + s) rs h.finish z.rights in
    let small : s < 2 ^ 32 = omega (arith, z.below) in
    let rest : rest_of s (size + 12 + 16) ≡ s - (size + 28) = omega arith in
    elim (Bool-cases (ltb (s - (size + 28)) 28)) [
      | inl e ↦
          let used : data_size s size ≡ s - 28 = ground arith in
          let g : Heap = set_block a (s - 28) h in
          let none_left : s - s ≡ 0 = omega arith in
          let back : a + s - s ≡ a = omega arith in
          let gap : IsGap g (record { free = false; bytes = s } ∷ ls) (a + s) (s - s) rs =
            set_block-IsGap h ls a s s rs z (omega arith) (omega arith) in
          let closed : IsZip g (at_block ls (a + s - s) s rs) =
            close-IsZip g (record { free = false; bytes = s }) ls (a + s) rs
              (subst (λ y. IsGap g (record { free = false; bytes = s } ∷ ls) (a + s) y rs) none_left
                gap) in
          (
            g,
            (
              split-eq h a s s size (omega arith) (omega arith) small used
                  ∙ set_rest-zero (a + s) (s - s) g none_left,
              rw e (subst (λ y. IsZip g (at_block ls y s rs)) back closed),
            ),
          )
      | inr e ↦
          let used : data_size s size ≡ size + 28 - 28 = ground arith in
          let n : ℕ = size + 28 in
          let left : Tile = record { free = false; bytes = n } in
          let back : a + n - n ≡ a = omega arith in
          let gap : IsGap (set_block a (n - 28) h) (left ∷ ls) (a + n) (s - n) rs =
            set_block-IsGap h ls a s n rs z (omega arith) fits in
          let made =
            set_rest-IsZip (set_block a (n - 28) h) (left ∷ ls) (a + n) (s - n) rs gap
              (ground arith) (set_block-room a (n - 28) h room) in
          (
            made.0,
            (
              split-eq h a s n size (omega arith) fits small used ∙ made.1.0,
              rw e (
                  subst
                    (λ y.
                      IsZip made.0 (at_block ls y n (record { free = true; bytes = s - n } ∷ rs)))
                    back
                    (move_left-IsZip made.0 left ls (a + n) (record { free = true; bytes = s - n })
                      rs made.1.1)),
            ),
          )
    ]
