-- ===== src/Heap/Row.antt =====
-- `free_internal` of libc/kheap.c as a change of a row of tiles.
use curls.Prelude.{
  ℕ, ◌+◌, ◌-◌, ◌<◌, ◌≤◌, ◌≡◌, refl, ap, sym, subst, Bool, true, false, ◌&&◌, Option, none, some,
  List, [], ◌∷◌, arith,
}
use curls.Prelude.Tests.{ltb, leb, if◌then◌else◌}
use curls.Prelude.Lists.{length}
use curls.Heap.{Heap, index_size}
use curls.Heap.Index.{remove_item}
use curls.Heap.Free.{guarded, spans, checked}
use curls.Heap.Tiles.{Tile, Zip, IsZip}

-- A result is a panic where the specification says so, and related to its result elsewhere.
abbrev pub Refines : (Heap → Zip → Type 0) → Option Heap → Option Zip → Type 0
Refines R none none = Unit
Refines R (some h) (some z) = R h z
Refines R none (some z) = ⊥
Refines R (some h) none = ⊥

abbrev pub spans_zip : Zip → Bool
spans_zip z = leb z.pos guarded && ltb guarded (z.pos + z.focus.bytes)

abbrev pub guard : Zip → Option Zip
guard z = if spans_zip z then none else some z

-- The hole on the right of a tile becomes part of it.
abbrev pub right_of : Zip → List Tile → Option Zip
right_of z [] = some z
right_of z (t ∷ ts) =
    if t.free
    then guard (record z {
      focus = record { free = z.focus.free; bytes = z.focus.bytes + t.bytes };
      right = ts;
    })
    else some z

-- A tile becomes part of the hole on its left, and an item of the index.
abbrev pub left_of : Zip → List Tile → Option Zip
left_of z [] = some (record z { listed = true })
left_of z (t ∷ ts) =
    if t.free
    then guard (record {
      left = ts;
      pos = z.pos - t.bytes;
      focus = record { free = true; bytes = t.bytes + z.focus.bytes };
      listed = true;
      right = z.right;
    })
    else some (record z { listed = true })

-- The row from its components; the tile in view is a hole that the index does not have.
abbrev pub opened : List Tile → ℕ → ℕ → List Tile → Zip
opened ls a s rs = record {
  left = ls;
  pos = a;
  focus = record { free = true; bytes = s };
  listed = false;
  right = rs;
}

-- Such a hole, with room for it in the index.
pub record IsOpen (h : Heap) (z : Zip) : Type 0 where
  pub zip : IsZip h z
  pub room : length h.index < index_size
  pub shape : z ≡ opened z.left z.pos z.focus.bytes z.right

pub Refines-guard :
    (R : Heap → Zip → Type 0) (b : Bool) (h : Heap) (z : Zip)
    → R h z
    → Refines R (if b then none else some h) (if b then none else some z)
Refines-guard R true h z r = tt
Refines-guard R false h z r = r

pub Refines-if :
    (R : Heap → Zip → Type 0) (b : Bool) (x y : Option Heap) (u v : Option Zip)
    → (b ≡ true → Refines R x u)
    → (b ≡ false → Refines R y v)
    → Refines R (if b then x else y) (if b then u else v)
Refines-if R true x y u v p q = p refl
Refines-if R false x y u v p q = q refl

pub spans-IsZip : (h : Heap) (z : Zip) → IsZip h z → spans z.pos h ≡ spans_zip z
spans-IsZip h z i = ap (λ n. leb z.pos guarded && ltb guarded (z.pos + n)) i.here.head_size

pub checked-Refines : (h : Heap) (z : Zip) → IsOpen h z → Refines IsOpen (checked z.pos h) (guard z)
unfolding checked
checked-Refines h z o =
    subst (λ b. Refines IsOpen (if b then none else some h) (guard z)) (sym (spans-IsZip h z o.zip))
      (Refines-guard IsOpen (spans_zip z) h z o)

pub length-remove_item : (item : ℕ) (xs : List ℕ) → length (remove_item item xs) ≤ length xs
unfolding remove_item
length-remove_item item [] = omega arith
length-remove_item item (x ∷ xs) = ground (arith, length-remove_item item xs)
