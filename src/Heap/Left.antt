-- ===== src/Heap/Left.antt =====
-- The merge with a hole on the left in `free_internal` of libc/kheap.c.
use curls.Prelude.{
  ℕ, ◌+◌, ◌-◌, ◌%◌, ◌<◌, ◌≤◌, ◌^◌, ◌≡◌, ◌≢◌, refl, ap, sym, subst, true, false, Option, none, some,
  List, [], ◌∷◌, arith, ◌∙◌,
}
use curls.Prelude.Tests.{leb, if◌then◌else◌}
use curls.Prelude.Lists.{length}
use curls.Prelude.Store.{update}
use curls.Heap.{Heap, magic_number, sizes, index_size, insert}
use curls.Heap.Index.{
  count, remove_item, insert_item, count-remove_item, count-insert_item, IsSorted-remove_item,
  IsSorted-insert_item,
}
use curls.Heap.Free.{has_left, checked_insert, join, merge_left}
use curls.Heap.Tiles.{
  Tile, IsTile, Right, Left, holes_right, holes_left, Zip, IsZip, Right-le, Left-le, IsTile-frame,
  Right-frame, Left-frame, holes_right-below, holes_left-above, IsSorted-frame,
}
use curls.Heap.Row.{
  Refines, spans_zip, guard, left_of, opened, IsOpen, Refines-if, spans-IsZip, length-remove_item,
}

-- What stands below a tile, where a footer is looked for.
pub has_left-nil :
    (h : Heap) (a s : ℕ) (rs : List Tile) → IsZip h (opened [] a s rs) → has_left a h ≡ false
unfolding has_left
has_left-nil h a s rs z =
    let at_start : a ≡ h.start = z.lefts in let pos : 16 ≤ h.start = z.above in ground arith

pub prev_header :
    (h : Heap) (a : ℕ) (t : Tile) (ls : List Tile)
    → Left h h.start (t ∷ ls) a
    → (h.footers (a - 16)).header ≡ a - t.bytes
prev_header h a t ls l =
    let same : a - t.bytes + t.bytes - 16 ≡ a - 16 = omega (arith, l.0) in
    sym (ap (λ f. (h.footers f).header) same) ∙ l.1.0.foot_header

pub has_left-tile :
    (h : Heap) (t : Tile) (ls : List Tile) (a s : ℕ) (rs : List Tile)
    → IsZip h (opened (t ∷ ls) a s rs)
    → has_left a h ≡ t.free
unfolding has_left
has_left-tile h t ls a s rs z =
    let i : IsTile h (a - t.bytes) t = z.lefts.1.0 in
    let le : t.bytes ≤ a = z.lefts.0 in
    let large : 28 ≤ t.bytes = i.large in
    let mine : 28 ≤ s = z.here.large in
    let from : h.start ≤ a - t.bytes = Left-le h h.start ls (a - t.bytes) z.lefts.1.1 in
    let to : a + s ≤ h.finish = Right-le h (a + s) rs h.finish z.rights in
    let same : a - t.bytes + t.bytes - 16 ≡ a - 16 = omega arith in
    let fm : (h.footers (a - 16)).magic ≡ magic_number =
      sym (ap (λ f. (h.footers f).magic) same) ∙ i.foot_magic in
    let fh : (h.footers (a - 16)).header ≡ a - t.bytes = prev_header h a t ls z.lefts in
    let m : (h.headers (a - t.bytes)).magic ≡ magic_number = i.head_magic in
    let k : (h.headers (a - t.bytes)).is_hole ≡ t.free = i.head_hole in ground arith

pub join-IsZip :
    (h : Heap) (t : Tile) (ls : List Tile) (a s : ℕ) (rs : List Tile)
    → IsZip h (opened (t ∷ ls) a s rs)
    → t.free ≡ true
    → IsZip (join (a - t.bytes) a h) (opened ls (a - t.bytes) (t.bytes + s) rs)
unfolding join update
join-IsZip h t ls a s rs z f =
    let from : h.start ≤ a - t.bytes = Left-le h h.start ls (a - t.bytes) z.lefts.1.1 in
    let to : a + s ≤ h.finish = Right-le h (a + s) rs h.finish z.rights in
    let i : IsTile h (a - t.bytes) t = z.lefts.1.0 in
    let le : t.bytes ≤ a = z.lefts.0 in
    let large : 28 ≤ t.bytes = i.large in
    let mine : 28 ≤ s = z.here.large in
    let total : h.finish - h.start < 2 ^ 32 = z.below in
    let prev_size : (h.headers (a - t.bytes)).size ≡ t.bytes = i.head_size in
    let size : (h.headers a).size ≡ s = z.here.head_size in
    let sum : ((h.headers (a - t.bytes)).size + (h.headers a).size) % 2 ^ 32 ≡ t.bytes + s =
      omega arith in
    let m : (h.headers (a - t.bytes)).magic ≡ magic_number = i.head_magic in
    let k : (h.headers (a - t.bytes)).is_hole ≡ true = i.head_hole ∙ f in
    let fm : (h.footers (a + s - 16)).magic ≡ magic_number = z.here.foot_magic in
    let g : Heap = join (a - t.bytes) a h in
    let assoc : a + s ≡ a - t.bytes + (t.bytes + s) = omega arith in
    let no_left : holes_left (a - t.bytes) ls (a - t.bytes) ≡ 0 =
      holes_left-above h h.start (a - t.bytes) ls (a - t.bytes) z.lefts.1.1 (omega arith) in
    let no_right : holes_right (a + s) rs (a - t.bytes) ≡ 0 =
      holes_right-below h (a + s) rs h.finish (a - t.bytes) z.rights (omega arith) in
    let apart : (x : ℕ) → count x (remove_item (a - t.bytes) h.index) ≢ 0 → sizes h x ≡ sizes g x =
      λ x c. ground (arith, count-remove_item (a - t.bytes) x h.index, z.exact x) in
    record {
      lefts =
          Left-frame h g h.start ls (a - t.bytes)
            (λ x l. record { same_header = ground arith; same_footer = ground arith }) z.lefts.1.1;
      here = record {
        head_magic = ground arith;
        head_hole = ground arith;
        head_size = ground arith;
        foot_magic = ground arith;
        foot_header = ground arith;
        large = omega arith;
      };
      rights =
          subst (λ y. Right g y rs h.finish) assoc
            (Right-frame h g (a + s) rs h.finish
              (λ x l. record { same_header = ground arith; same_footer = ground arith }) z.rights);
      exact = λ x. ground (
        arith,
        count-remove_item (a - t.bytes) x h.index,
        z.exact x,
        ap (λ y. holes_right y rs x) assoc,
      );
      sorted =
          IsSorted-frame (sizes h) (sizes g) (remove_item (a - t.bytes) h.index) apart
            (IsSorted-remove_item (sizes h) (a - t.bytes) h.index z.sorted);
      above = z.above;
      below = z.below;
    }

pub join-room :
    (p a : ℕ) (h : Heap) → length h.index < index_size → length (join p a h).index < index_size
unfolding join
join-room p a h l = omega (arith, length-remove_item p h.index)

-- The tile in view goes into the index.
pub insert-IsZip :
    (h : Heap) (ls : List Tile) (a s : ℕ) (rs : List Tile)
    → IsOpen h (opened ls a s rs)
    → Refines IsZip (insert a h) (some (record (opened ls a s rs) { listed = true }))
unfolding insert
insert-IsZip h ls a s rs o =
    let i : IsZip h (opened ls a s rs) = o.zip in
    let room : leb index_size (length h.index) ≡ false = ground (arith, o.room) in
    let g : Heap = record h { index = insert_item (sizes h) a h.index } in
    let z : IsZip g (record (opened ls a s rs) { listed = true }) = record {
      lefts =
          Left-frame h g h.start ls a (λ x l. record { same_header = refl; same_footer = refl })
            i.lefts;
      here = IsTile-frame h g a (record { free = true; bytes = s }) refl refl i.here;
      rights =
          Right-frame h g (a + s) rs h.finish
            (λ x l. record { same_header = refl; same_footer = refl }) i.rights;
      exact = λ x. ground (arith, count-insert_item (sizes h) a x h.index, i.exact x);
      sorted = IsSorted-insert_item (sizes h) a h.index i.sorted;
      above = i.above;
      below = i.below;
    } in
    subst
      (λ b.
        Refines IsZip (if b then none else some g)
          (some (record (opened ls a s rs) { listed = true })))
      (sym room) z

pub checked_insert-Refines :
    (h : Heap) (ls : List Tile) (a s : ℕ) (rs : List Tile)
    → IsOpen h (opened ls a s rs)
    → Refines IsZip (checked_insert a h) (guard (record (opened ls a s rs) { listed = true }))
unfolding checked_insert
checked_insert-Refines h ls a s rs o =
    let z : Zip = record (opened ls a s rs) { listed = true } in
    subst (λ b. Refines IsZip (if b then none else insert a h) (guard z))
      (sym (spans-IsZip h (opened ls a s rs) o.zip))
      (Refines-if IsZip (spans_zip z) none (insert a h) none (some z) (λ e. tt)
        (λ e. insert-IsZip h ls a s rs o))

pub merge_left-Refines :
    (h : Heap) (ls : List Tile) (a s : ℕ) (rs : List Tile)
    → IsOpen h (opened ls a s rs)
    → Refines IsZip (merge_left a h) (left_of (opened ls a s rs) ls)
unfolding merge_left
merge_left-Refines h [] a s rs o =
    let prev : ℕ = (h.footers (a - 16)).header in
    subst
      (λ b.
        Refines IsZip (if b then checked_insert prev (join prev a h) else insert a h)
          (left_of (opened [] a s rs) []))
      (sym (has_left-nil h a s rs o.zip)) (insert-IsZip h [] a s rs o)
merge_left-Refines h (t ∷ ls) a s rs o =
    let z : Option Zip = left_of (opened (t ∷ ls) a s rs) (t ∷ ls) in
    let p : ℕ = a - t.bytes in
    subst
      (λ n. Refines IsZip (if has_left a h then checked_insert n (join n a h) else insert a h) z)
      (sym (prev_header h a t ls o.zip.lefts))
      (subst (λ b. Refines IsZip (if b then checked_insert p (join p a h) else insert a h) z)
        (sym (has_left-tile h t ls a s rs o.zip))
        (Refines-if IsZip t.free (checked_insert p (join p a h)) (insert a h)
          (guard (record (opened ls p (t.bytes + s) rs) { listed = true }))
          (some (record (opened (t ∷ ls) a s rs) { listed = true }))
          (λ f. checked_insert-Refines (join p a h) ls p (t.bytes + s) rs (record {
            zip = join-IsZip h t ls a s rs o.zip f;
            room = join-room p a h o.room;
            shape = refl;
          }))
          (λ f. insert-IsZip h (t ∷ ls) a s rs o)))
