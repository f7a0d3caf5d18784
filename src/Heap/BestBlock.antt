-- ===== src/Heap/BestBlock.antt =====
-- `alloc` of libc/kheap.c on a row of tiles with a hole that is large enough: the search and the block.
use curls.Prelude.{
  ℕ, zero, suc, ◌+◌, ◌-◌, ◌<◌, ◌≤◌, ◌≡◌, ◌≢◌, refl, ap, sym, subst, inl, inr, true, false, Option,
  none, some, List, [], ◌∷◌, arith,
}
use curls.Prelude.Tests.{leb, ◌==◌, Bool-cases}
use curls.Prelude.Lists.{length, get_or}
use curls.Heap.{Heap, sizes, index_size}
use curls.Mmu.{Mmu}
use curls.Heap.Pages.{Paging}
use curls.Heap.Index.{count}
use curls.Heap.Alloc.{fits, find_smallest_hole}
use curls.Heap.Expand.{alloc, first_search}
use curls.Heap.BestFit.{FindsBest, IsBest, find_smallest_hole-FindsBest}
use curls.Heap.Tiles.{
  Tile, one_at, holes_right, holes_left, IsZip, at, move_left-IsZip, move_right-IsZip,
}
use curls.Heap.Gap.{at_hole, place_row}
use curls.Heap.Take.{IsAllocated, take_hole-place_row}

-- The row seen from the hole at an address.
pub record HoleView (h : Heap) (x : ℕ) : Type 0 where
  pub left : List Tile
  pub size : ℕ
  pub right : List Tile
  pub zip : IsZip h (at_hole left x size right)

view_here :
    (h : Heap) (ls : List Tile) (a : ℕ) (t : Tile) (rs : List Tile) (x : ℕ)
    → IsZip h (at ls a t rs)
    → one_at t.free a x ≢ 0
    → HoleView h x
view_here h ls a t rs x z n =
    let same : a ≡ x = ground arith in
    let free : t.free ≡ true = ground arith in
    record {
      left = ls;
      size = t.bytes;
      right = rs;
      zip =
          subst (λ y. IsZip h (at_hole ls y t.bytes rs)) same
            (subst (λ b. IsZip h (at ls a (record { free = b; bytes = t.bytes }) rs)) free z);
    }

view_right :
    (h : Heap) (ls : List Tile) (a : ℕ) (t : Tile) (rs : List Tile) (x : ℕ)
    → IsZip h (at ls a t rs)
    → holes_right (a + t.bytes) rs x ≢ 0
    → HoleView h x
view_right h ls a t [] x z n = absurd (n refl)
view_right h ls a t (u ∷ rs) x z n =
    let moved : IsZip h (at (t ∷ ls) (a + t.bytes) u rs) = move_right-IsZip h ls a t u rs z in
    elim (Bool-cases (one_at u.free (a + t.bytes) x == 0)) [
      | inl e ↦ view_right h (t ∷ ls) (a + t.bytes) u rs x moved (λ y.
          n (let here : one_at u.free (a + t.bytes) x ≡ 0 = ground arith in omega (arith, here, y)))
      | inr e ↦ view_here h (t ∷ ls) (a + t.bytes) u rs x moved (λ y. ground arith)
    ]

view_left :
    (h : Heap) (ls : List Tile) (a : ℕ) (t : Tile) (rs : List Tile) (x : ℕ)
    → IsZip h (at ls a t rs)
    → holes_left a ls x ≢ 0
    → HoleView h x
view_left h [] a t rs x z n = absurd (n refl)
view_left h (u ∷ ls) a t rs x z n =
    let moved : IsZip h (at ls (a - u.bytes) u (t ∷ rs)) = move_left-IsZip h u ls a t rs z in
    elim (Bool-cases (one_at u.free (a - u.bytes) x == 0)) [
      | inl e ↦ view_left h ls (a - u.bytes) u (t ∷ rs) x moved (λ y.
          n (let here : one_at u.free (a - u.bytes) x ≡ 0 = ground arith in omega (arith, here, y)))
      | inr e ↦ view_here h ls (a - u.bytes) u (t ∷ rs) x moved (λ y. ground arith)
    ]

-- Each item of the index is a hole of the row.
view :
    (h : Heap) (ls : List Tile) (a : ℕ) (t : Tile) (rs : List Tile) (x : ℕ)
    → IsZip h (at ls a t rs)
    → count x h.index ≢ 0
    → HoleView h x
view h ls a t rs x z n = elim (Bool-cases (one_at t.free a x == 0)) [
  | inr e ↦ view_here h ls a t rs x z (λ y. ground arith)
  | inl e ↦ elim (Bool-cases (holes_left a ls x == 0)) [
    | inr f ↦ view_left h ls a t rs x z (λ y. ground arith)
    | inl f ↦ view_right h ls a t rs x z (λ y. n (
        let here : one_at t.free a x ≡ 0 = ground arith in
        let left : holes_left a ls x ≡ 0 = ground arith in omega (arith, z.exact x, here, left, y)))
  ]
]

count-get_or : (xs : List ℕ) (i : ℕ) → i < length xs → count (get_or xs i 0) xs ≢ 0
count-get_or [] i l = absurd (omega arith)
count-get_or (x ∷ xs) zero l = ground arith
count-get_or (x ∷ xs) (suc i) l = λ e. count-get_or xs i (omega arith) (ground arith)

-- The block that `alloc` takes: the smallest hole with room for it becomes the block.
pub record TakesBest {S : Type 0} (k : Paging S) (m : Mmu S) (size : ℕ) (h : Heap) : Type 0 where
  pub left : List Tile
  pub pos : ℕ
  pub bytes : ℕ
  pub right : List Tile
  pub was_hole : IsZip h (at_hole left pos bytes right)
  pub large : size + 28 ≤ bytes
  pub least : (b : ℕ) → count b h.index ≢ 0 → size + 28 ≤ sizes h b → bytes ≤ sizes h b
  pub taken : IsAllocated (alloc k size false h m).0 (place_row size left pos bytes right)
  pub tables : (alloc k size false h m).1 ≡ m

takes_best :
    {S : Type 0} (k : Paging S) (m : Mmu S) (h : Heap) (ls : List Tile) (a : ℕ) (t : Tile)
    (rs : List Tile) (size i : ℕ)
    → IsZip h (at ls a t rs)
    → h.finish ≤ h.top
    → length h.index ≤ index_size
    → find_smallest_hole (size + 12 + 16) false h ≡ some i
    → IsBest (fits (size + 12 + 16) false h) (sizes h) h.index i
    → TakesBest k m size h
unfolding alloc first_search fits
takes_best k m h ls a t rs size i z top room e b =
    let x : ℕ = get_or h.index i 0 in
    let v : HoleView h x = view h ls a t rs x z (count-get_or h.index i b.inside) in
    let bytes : (h.headers x).size ≡ v.size = v.zip.here.head_size in
    let large : size + 28 ≤ v.size = ground (arith, b.that_fits) in
    record {
      left = v.left;
      pos = x;
      bytes = v.size;
      right = v.right;
      was_hole = v.zip;
      large = large;
      least = λ y c f. omega (arith, bytes, b.least y c (ground arith));
      taken =
          subst
            (λ r.
              IsAllocated (first_search k size false h m r).0
                (place_row size v.left x v.size v.right))
            (sym e)
            (take_hole-place_row h v.left x v.size size v.right i v.zip top b.inside room refl
              large);
      tables = ap (λ r. (first_search k size false h m r).1) e;
    }

-- On a heap that is a row of tiles with a hole that has room for the block, its header and its footer,
-- `alloc` without alignment succeeds: it takes a hole than which no hole that has the room is smaller,
-- and gives the address of a block at the start of that hole, in a heap that is
-- again a row of tiles with an exact and ordered index. The page tables are as before.
pub alloc-TakesBest :
    {S : Type 0} (k : Paging S) (m : Mmu S) (h : Heap) (ls : List Tile) (a : ℕ) (t : Tile)
    (rs : List Tile) (size b : ℕ)
    → IsZip h (at ls a t rs)
    → h.finish ≤ h.top
    → length h.index ≤ index_size
    → count b h.index ≢ 0
    → size + 28 ≤ sizes h b
    → TakesBest k m size h
unfolding fits
alloc-TakesBest k m h ls a t rs size b z top room c large =
    after_find (find_smallest_hole (size + 12 + 16) false h) refl
      (find_smallest_hole-FindsBest (size + 12 + 16) false h z.sorted)
  where
    after_find :
        (r : Option ℕ)
        → find_smallest_hole (size + 12 + 16) false h ≡ r
        → FindsBest (fits (size + 12 + 16) false h) (sizes h) h.index r
        → TakesBest k m size h
    after_find none e f =
        let no : leb (size + 12 + 16) (sizes h b) ≡ false = f b c in absurd (ground arith)
    after_find (some i) e f = takes_best k m h ls a t rs size i z top room e f
