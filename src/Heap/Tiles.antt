-- ===== src/Heap/Tiles.antt =====
-- The abstract view of the kernel heap: a row of tiles, blocks and holes, that fills the heap, seen
-- from one of them.
use curls.Prelude.{
  ℕ, ◌+◌, ◌-◌, ◌<◌, ◌≤◌, ◌^◌, ◌≡◌, ◌≢◌, refl, ap, sym, subst, Bool, List, [], ◌∷◌, arith, ◌∙◌,
}
use curls.Prelude.Tests.{◌==◌, if◌then◌else◌}
use curls.Heap.{Header, Footer, Heap, magic_number, sizes}
use curls.Heap.Index.{count, AllFrom, IsSorted}

-- Whether it is a hole, and its size.
pub record Tile : Type 0 where
  pub free : Bool
  pub bytes : ℕ

-- The header and the footer of the tile at an address.
pub record IsTile (h : Heap) (a : ℕ) (t : Tile) : Type 0 where
  pub head_magic : (h.headers a).magic ≡ magic_number
  pub head_hole : (h.headers a).is_hole ≡ t.free
  pub head_size : (h.headers a).size ≡ t.bytes
  pub foot_magic : (h.footers (a + t.bytes - 16)).magic ≡ magic_number
  pub foot_header : (h.footers (a + t.bytes - 16)).header ≡ a
  pub large : 28 ≤ t.bytes

-- The tiles from an address up to the end.
abbrev pub Right : Heap → ℕ → List Tile → ℕ → Type 0
Right h a [] e = a ≡ e
Right h a (t ∷ ts) e = IsTile h a t × Right h (a + t.bytes) ts e

-- The tiles below an address, the nearest first.
abbrev pub Left : Heap → ℕ → List Tile → ℕ → Type 0
Left h b [] a = a ≡ b
Left h b (t ∷ ts) a = (t.bytes ≤ a) × (IsTile h (a - t.bytes) t × Left h b ts (a - t.bytes))

-- 1 for the hole at an address
abbrev pub one_at : Bool → ℕ → ℕ → ℕ
one_at listed a x = if listed then if a == x then 1 else 0 else 0

-- How many of the holes stand at an address.
abbrev pub holes_right : ℕ → List Tile → ℕ → ℕ
holes_right a [] x = 0
holes_right a (t ∷ ts) x = one_at t.free a x + holes_right (a + t.bytes) ts x

abbrev pub holes_left : ℕ → List Tile → ℕ → ℕ
holes_left a [] x = 0
holes_left a (t ∷ ts) x = one_at t.free (a - t.bytes) x + holes_left (a - t.bytes) ts x

-- The row, seen from the tile `focus` at `pos`; `listed` is whether the index has that one.
pub record Zip : Type 0 where
  pub left : List Tile
  pub pos : ℕ
  pub focus : Tile
  pub listed : Bool
  pub right : List Tile

pub record IsZip (h : Heap) (z : Zip) : Type 0 where
  pub lefts : Left h h.start z.left z.pos
  pub here : IsTile h z.pos z.focus
  pub rights : Right h (z.pos + z.focus.bytes) z.right h.finish
  pub exact :
      (x : ℕ)
      → count x h.index
        ≡ holes_left z.pos z.left x
          + one_at z.listed z.pos x
          + holes_right (z.pos + z.focus.bytes) z.right x
  pub sorted : IsSorted (sizes h) h.index
  pub above : 16 ≤ h.start
  pub below : h.finish - h.start < 2 ^ 32

pub Right-le : (h : Heap) (a : ℕ) (ts : List Tile) (e : ℕ) → Right h a ts e → a ≤ e
Right-le h a [] e r = omega arith
Right-le h a (t ∷ ts) e r = omega (arith, Right-le h (a + t.bytes) ts e r.1)

pub Left-le : (h : Heap) (b : ℕ) (ts : List Tile) (a : ℕ) → Left h b ts a → b ≤ a
Left-le h b [] a l = omega arith
Left-le h b (t ∷ ts) a l = omega (arith, Left-le h b ts (a - t.bytes) l.1.1)

-- The two heaps hold the same at an address.
pub record Same (h g : Heap) (x : ℕ) : Type 0 where
  pub same_header : h.headers x ≡ g.headers x
  pub same_footer : h.footers x ≡ g.footers x

pub IsTile-frame :
    (h g : Heap) (a : ℕ) (t : Tile)
    → h.headers a ≡ g.headers a
    → h.footers (a + t.bytes - 16) ≡ g.footers (a + t.bytes - 16)
    → IsTile h a t
    → IsTile g a t
IsTile-frame h g a t p q i = record {
  head_magic = sym (ap Header.magic p) ∙ i.head_magic;
  head_hole = sym (ap Header.is_hole p) ∙ i.head_hole;
  head_size = sym (ap Header.size p) ∙ i.head_size;
  foot_magic = sym (ap Footer.magic q) ∙ i.foot_magic;
  foot_header = sym (ap Footer.header q) ∙ i.foot_header;
  large = i.large;
}

pub Right-frame :
    (h g : Heap) (a : ℕ) (ts : List Tile) (e : ℕ)
    → ((x : ℕ) → a ≤ x → Same h g x)
    → Right h a ts e
    → Right g a ts e
Right-frame h g a [] e s r = r
Right-frame h g a (t ∷ ts) e s r =
    let ge : a ≤ a + t.bytes - 16 = omega (arith, r.0.large) in
    (
      IsTile-frame h g a t ((s a (omega arith)).same_header) ((s (a + t.bytes - 16) ge).same_footer)
          r.0,
      Right-frame h g (a + t.bytes) ts e (λ x k. s x (omega arith)) r.1,
    )

pub Left-frame :
    (h g : Heap) (b : ℕ) (ts : List Tile) (a : ℕ)
    → ((x : ℕ) → x < a → Same h g x)
    → Left h b ts a
    → Left g b ts a
Left-frame h g b [] a s l = l
Left-frame h g b (t ∷ ts) a s l =
    let below_head : a - t.bytes < a = omega (arith, l.0, l.1.0.large) in
    let below_foot : a - t.bytes + t.bytes - 16 < a = omega (arith, l.0, l.1.0.large) in
    (
      l.0,
      (
        IsTile-frame h g (a - t.bytes) t ((s (a - t.bytes) below_head).same_header)
            ((s (a - t.bytes + t.bytes - 16) below_foot).same_footer) l.1.0,
        Left-frame h g b ts (a - t.bytes) (λ x k. s x (omega arith)) l.1.1,
      ),
    )

-- A tile behind the ones on the left.
pub Left-cons :
    (h : Heap) (b : ℕ) (t : Tile) (ts : List Tile) (a : ℕ)
    → IsTile h a t
    → Left h b ts a
    → Left h b (t ∷ ts) (a + t.bytes)
Left-cons h b t ts a i l =
    let back : a ≡ a + t.bytes - t.bytes = omega arith in
    (omega arith, (subst (λ y. IsTile h y t) back i, subst (λ y. Left h b ts y) back l))

pub holes_right-below :
    (h : Heap) (a : ℕ) (ts : List Tile) (e x : ℕ) → Right h a ts e → x < a → holes_right a ts x ≡ 0
holes_right-below h a [] e x r l = refl
holes_right-below h a (t ∷ ts) e x r l =
    ground (arith, holes_right-below h (a + t.bytes) ts e x r.1 (omega arith))

pub holes_left-above :
    (h : Heap) (b a : ℕ) (ts : List Tile) (x : ℕ) → Left h b ts a → a ≤ x → holes_left a ts x ≡ 0
holes_left-above h b a [] x l k = refl
holes_left-above h b a (t ∷ ts) x l k =
    let pos : 28 ≤ t.bytes = l.1.0.large in
    let le : t.bytes ≤ a = l.0 in
    ground (arith, holes_left-above h b (a - t.bytes) ts x l.1.1 (omega arith))

AllFrom-frame :
    (f g : ℕ → ℕ) (n : ℕ) (xs : List ℕ)
    → ((x : ℕ) → count x xs ≢ 0 → f x ≡ g x)
    → AllFrom f n xs
    → AllFrom g n xs
AllFrom-frame f g n [] s a = a
AllFrom-frame f g n (x ∷ xs) s a =
    let here : f x ≡ g x = s x (λ z. ground arith) in
    (omega (arith, here, a.0), AllFrom-frame f g n xs (λ y c. s y (λ z. c (ground arith))) a.1)

-- The order of the index is that of the sizes of its items.
pub IsSorted-frame :
    (f g : ℕ → ℕ) (xs : List ℕ)
    → ((x : ℕ) → count x xs ≢ 0 → f x ≡ g x)
    → IsSorted f xs
    → IsSorted g xs
IsSorted-frame f g [] s a = a
IsSorted-frame f g (x ∷ xs) s a =
    let here : f x ≡ g x = s x (λ z. ground arith) in
    let rest : (y : ℕ) → count y xs ≢ 0 → f y ≡ g y = λ y c. s y (λ z. c (ground arith)) in
    (
      subst (λ n. AllFrom g n xs) here (AllFrom-frame f g (f x) xs rest a.0),
      IsSorted-frame f g xs rest a.1,
    )

-- The row from its parts, where the index has the tile in view just if it is a hole.
abbrev pub at : List Tile → ℕ → Tile → List Tile → Zip
at ls a t rs = record { left = ls; pos = a; focus = t; listed = t.free; right = rs }

-- The same row from the tile on the left.
pub move_left-IsZip :
    (h : Heap) (t : Tile) (ls : List Tile) (a : ℕ) (f : Tile) (rs : List Tile)
    → IsZip h (at (t ∷ ls) a f rs)
    → IsZip h (at ls (a - t.bytes) t (f ∷ rs))
move_left-IsZip h t ls a f rs z =
    let le : t.bytes ≤ a = z.lefts.0 in
    let back : a ≡ a - t.bytes + t.bytes = omega arith in
    record {
      lefts = z.lefts.1.1;
      here = z.lefts.1.0;
      rights = subst (λ y. Right h y (f ∷ rs) h.finish) back (z.here, z.rights);
      exact = λ x. omega (arith, z.exact x, ap (λ y. holes_right y (f ∷ rs) x) back);
      sorted = z.sorted;
      above = z.above;
      below = z.below;
    }

pub move_right-IsZip :
    (h : Heap) (ls : List Tile) (a : ℕ) (f t : Tile) (rs : List Tile)
    → IsZip h (at ls a f (t ∷ rs))
    → IsZip h (at (f ∷ ls) (a + f.bytes) t rs)
move_right-IsZip h ls a f t rs z =
    let back : a ≡ a + f.bytes - f.bytes = omega arith in
    record {
      lefts = Left-cons h h.start f ls a z.here z.lefts;
      here = z.rights.0;
      rights = z.rights.1;
      exact = λ x.
          omega
            (arith, z.exact x, ap (λ y. holes_left y ls x) back, ap (λ y. one_at f.free y x) back);
      sorted = z.sorted;
      above = z.above;
      below = z.below;
    }
