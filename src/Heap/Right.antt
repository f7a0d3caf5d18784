-- ===== src/Heap/Right.antt =====
-- The merge with a hole on the right in `free_internal` of libc/kheap.c.
use curls.Prelude.{
  ℕ, ◌+◌, ◌-◌, ◌%◌, ◌<◌, ◌≤◌, ◌^◌, ◌≡◌, ◌≢◌, refl, ap, sym, subst, Bool, true, false, some, List,
  [], ◌∷◌, arith, ◌∙◌,
}
use curls.Prelude.Tests.{if◌then◌else◌}
use curls.Prelude.Lists.{length}
use curls.Prelude.Store.{update}
use curls.Heap.{Heap, magic_number, sizes, index_size, set_footer}
use curls.Heap.Index.{count, remove_item, count-remove_item, IsSorted-remove_item}
use curls.Heap.Free.{footer_of, has_right, checked, absorb, merge_right}
use curls.Heap.Tiles.{
  Tile, IsTile, Right, holes_right, holes_left, IsZip, Right-le, Left-le, Right-frame, Left-frame,
  holes_right-below, holes_left-above, IsSorted-frame,
}
use curls.Heap.Row.{
  Refines, guard, right_of, opened, IsOpen, Refines-if, checked-Refines, length-remove_item,
}

pub has_right-nil :
    (h : Heap) (ls : List Tile) (a s : ℕ) → IsZip h (opened ls a s []) → has_right (a + s) h ≡ false
unfolding has_right
has_right-nil h ls a s z = let at_end : a + s ≡ h.finish = z.rights in ground arith

pub has_right-tile :
    (h : Heap) (ls : List Tile) (a s : ℕ) (t : Tile) (rs : List Tile)
    → IsZip h (opened ls a s (t ∷ rs))
    → has_right (a + s) h ≡ t.free
unfolding has_right
has_right-tile h ls a s t rs z =
    let from : h.start ≤ a = Left-le h h.start ls a z.lefts in
    let to : a + s + t.bytes ≤ h.finish = Right-le h (a + s + t.bytes) rs h.finish z.rights.1 in
    let i : IsTile h (a + s) t = z.rights.0 in
    let large : 28 ≤ t.bytes = i.large in
    let m : (h.headers (a + s)).magic ≡ magic_number = i.head_magic in
    let k : (h.headers (a + s)).is_hole ≡ t.free = i.head_hole in ground arith

-- Where `free_internal` looks for the next header.
pub next_of : (h : Heap) (a : ℕ) (t : Tile) → IsTile h a t → footer_of a h + 16 ≡ a + t.bytes
next_of h a t i = omega (arith, i.head_size, i.large)

pub merge_right-if :
    (h : Heap) (a : ℕ) (t : Tile) (b : Bool)
    → IsTile h a t
    → has_right (a + t.bytes) h ≡ b
    → merge_right a h ≡ (if b then checked a (absorb a (a + t.bytes) h) else some h)
unfolding merge_right
merge_right-if h a t b i e =
    ap (λ n. if has_right n h then checked a (absorb a n h) else some h) (next_of h a t i)
    ∙ ap (λ c. if c then checked a (absorb a (a + t.bytes) h) else some h) e

pub absorb-IsZip :
    (h : Heap) (ls : List Tile) (a s : ℕ) (t : Tile) (rs : List Tile)
    → IsZip h (opened ls a s (t ∷ rs))
    → t.free ≡ true
    → IsZip (absorb a (a + s) h) (opened ls a (s + t.bytes) rs)
unfolding absorb set_footer update
absorb-IsZip h ls a s t rs z f =
    let from : h.start ≤ a = Left-le h h.start ls a z.lefts in
    let to : a + s + t.bytes ≤ h.finish = Right-le h (a + s + t.bytes) rs h.finish z.rights.1 in
    let i : IsTile h (a + s) t = z.rights.0 in
    let large : 28 ≤ t.bytes = i.large in
    let mine : 28 ≤ s = z.here.large in
    let total : h.finish - h.start < 2 ^ 32 = z.below in
    let next_size : (h.headers (a + s)).size ≡ t.bytes = i.head_size in
    let size : (h.headers a).size ≡ s = z.here.head_size in
    let sum : ((h.headers a).size + (h.headers (a + s)).size) % 2 ^ 32 ≡ s + t.bytes =
      omega arith in
    let m : (h.headers a).magic ≡ magic_number = z.here.head_magic in
    let k : (h.headers a).is_hole ≡ true = z.here.head_hole in
    let g : Heap = absorb a (a + s) h in
    let assoc : a + s + t.bytes ≡ a + (s + t.bytes) = omega arith in
    let no_left : holes_left a ls a ≡ 0 = holes_left-above h h.start a ls a z.lefts (omega arith) in
    let no_right : holes_right (a + s) (t ∷ rs) a ≡ 0 =
      holes_right-below h (a + s) (t ∷ rs) h.finish a z.rights (omega arith) in
    let apart : (x : ℕ) → count x (remove_item (a + s) h.index) ≢ 0 → sizes h x ≡ sizes g x =
      λ x c. ground (arith, count-remove_item (a + s) x h.index, z.exact x) in
    record {
      lefts =
          Left-frame h g h.start ls a
            (λ x l. record { same_header = ground arith; same_footer = ground arith }) z.lefts;
      here = record {
        head_magic = ground arith;
        head_hole = ground arith;
        head_size = ground arith;
        foot_magic = ground arith;
        foot_header = ground arith;
        large = omega arith;
      };
      rights =
          Right-frame h g (a + (s + t.bytes)) rs h.finish
            (λ x l. record { same_header = ground arith; same_footer = ground arith })
            (subst (λ y. Right h y rs h.finish) assoc z.rights.1);
      exact = λ x. ground (
        arith,
        count-remove_item (a + s) x h.index,
        z.exact x,
        ap (λ y. holes_right y rs x) assoc,
      );
      sorted =
          IsSorted-frame (sizes h) (sizes g) (remove_item (a + s) h.index) apart
            (IsSorted-remove_item (sizes h) (a + s) h.index z.sorted);
      above = z.above;
      below = z.below;
    }

pub absorb-room :
    (a n : ℕ) (h : Heap) → length h.index < index_size → length (absorb a n h).index < index_size
unfolding absorb set_footer
absorb-room a n h l = omega (arith, length-remove_item n h.index)

-- `merge_right` is the merge with a hole on the right in the row of tiles.
pub merge_right-Refines :
    (h : Heap) (ls : List Tile) (a s : ℕ) (rs : List Tile)
    → IsOpen h (opened ls a s rs)
    → Refines IsOpen (merge_right a h) (right_of (opened ls a s rs) rs)
unfolding checked
merge_right-Refines h ls a s [] o =
    subst (λ r. Refines IsOpen r (some (opened ls a s [])))
      (sym (
        merge_right-if h a (record { free = true; bytes = s }) false o.zip.here
          (has_right-nil h ls a s o.zip)))
      o
merge_right-Refines h ls a s (t ∷ rs) o =
    subst (λ r. Refines IsOpen r (right_of (opened ls a s (t ∷ rs)) (t ∷ rs)))
      (sym (
        merge_right-if h a (record { free = true; bytes = s }) t.free o.zip.here
          (has_right-tile h ls a s t rs o.zip)))
      (Refines-if IsOpen t.free (checked a (absorb a (a + s) h)) (some h)
        (guard (opened ls a (s + t.bytes) rs)) (some (opened ls a s (t ∷ rs)))
        (λ f. checked-Refines (absorb a (a + s) h) (opened ls a (s + t.bytes) rs) (record {
          zip = absorb-IsZip h ls a s t rs o.zip f;
          room = absorb-room a (a + s) h o.room;
          shape = refl;
        }))
        (λ f. o))
