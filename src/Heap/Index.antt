-- ===== src/Heap/Index.antt =====
-- The ordered array of libc/kheap.c: the addresses of the holes, by the size of the hole. `size` is
-- the size that the header at an address holds.
use curls.Prelude.{
  ℕ, zero, suc, ◌+◌, ◌-◌, ◌<◌, ◌≤◌, ◌≡◌, ◌≢◌, refl, subst, inl, inr, Bool, Option, none, some, List,
  [], ◌∷◌, arith,
}
use curls.Prelude.Tests.{ltb, ◌==◌, if◌then◌else◌, Bool-cases, if_elim}
use curls.Prelude.Lists.{length, get_or}

-- `insert_ordered_array` where there is room: before the first item that is not smaller.
unfoldable pub insert_item : (ℕ → ℕ) → ℕ → List ℕ → List ℕ
insert_item size item [] = item ∷ []
insert_item size item (x ∷ xs) =
    let rest = insert_item size item xs in
    if ltb (size x) (size item) then x ∷ rest else item ∷ x ∷ xs

-- `remove_ordered_array`, which takes the last item for a position past it.
unfoldable pub remove_at : ℕ → List ℕ → List ℕ
remove_at i [] = []
remove_at i (x ∷ []) = []
remove_at zero (x ∷ y ∷ ys) = y ∷ ys
remove_at (suc i) (x ∷ y ∷ ys) = x ∷ remove_at i (y ∷ ys)

-- The loop that looks for an item and `remove_ordered_array` where it is found.
unfoldable pub remove_item : ℕ → List ℕ → List ℕ
remove_item item [] = []
remove_item item (x ∷ xs) = if x == item then xs else x ∷ remove_item item xs

-- The position of the first item that fits; none is -1.
unfoldable pub find_fit : (ℕ → Bool) → ℕ → List ℕ → Option ℕ
find_fit fits i [] = none
find_fit fits i (x ∷ xs) = let rest = find_fit fits (i + 1) xs in if fits x then some i else rest

-- How often an item stands in the array.
abbrev pub count : ℕ → List ℕ → ℕ
count a [] = 0
count a (x ∷ xs) = if x == a then suc (count a xs) else count a xs

-- No item is larger than a later one.
abbrev pub AllFrom : (ℕ → ℕ) → ℕ → List ℕ → Type 0
AllFrom size n [] = Unit
AllFrom size n (x ∷ xs) = (n ≤ size x) × AllFrom size n xs

abbrev pub IsSorted : (ℕ → ℕ) → List ℕ → Type 0
IsSorted size [] = Unit
IsSorted size (x ∷ xs) = AllFrom size (size x) xs × IsSorted size xs

pub count-insert_item :
    (size : ℕ → ℕ) (item a : ℕ) (xs : List ℕ)
    → count a (insert_item size item xs) ≡ (if item == a then suc (count a xs) else count a xs)
unfolding insert_item
count-insert_item size item a [] = refl
count-insert_item size item a (x ∷ xs) = ground (arith, count-insert_item size item a xs)

pub count-remove_at :
    (i a : ℕ) (xs : List ℕ)
    → i < length xs
    → count a xs
      ≡ (if get_or xs i 0 == a then suc (count a (remove_at i xs)) else count a (remove_at i xs))
unfolding remove_at
count-remove_at i a [] h = absurd (omega arith)
count-remove_at zero a (x ∷ []) h = refl
count-remove_at (suc i) a (x ∷ []) h = absurd (omega arith)
count-remove_at zero a (x ∷ y ∷ ys) h = refl
count-remove_at (suc i) a (x ∷ y ∷ ys) h =
    ground (arith, count-remove_at i a (y ∷ ys) (omega arith))

pub count-remove_item :
    (item a : ℕ) (xs : List ℕ)
    → count a (remove_item item xs) ≡ (if item == a then count a xs - 1 else count a xs)
unfolding remove_item
count-remove_item item a [] = ground arith
count-remove_item item a (x ∷ xs) = ground (arith, count-remove_item item a xs)

AllFrom-le : (size : ℕ → ℕ) (m n : ℕ) (xs : List ℕ) → m ≤ n → AllFrom size n xs → AllFrom size m xs
AllFrom-le size m n [] h a = a
AllFrom-le size m n (x ∷ xs) h a = (omega (arith, a.0), AllFrom-le size m n xs h a.1)

AllFrom-insert_item :
    (size : ℕ → ℕ) (n item : ℕ) (xs : List ℕ)
    → n ≤ size item
    → AllFrom size n xs
    → AllFrom size n (insert_item size item xs)
unfolding insert_item
AllFrom-insert_item size n item [] h a = (h, a)
AllFrom-insert_item size n item (x ∷ xs) h a =
    if_elim (AllFrom size n) (ltb (size x) (size item)) (x ∷ insert_item size item xs)
      (item ∷ x ∷ xs) (λ e. (a.0, AllFrom-insert_item size n item xs h a.1)) (λ e. (h, a))

pub IsSorted-insert_item :
    (size : ℕ → ℕ) (item : ℕ) (xs : List ℕ)
    → IsSorted size xs
    → IsSorted size (insert_item size item xs)
unfolding insert_item
IsSorted-insert_item size item [] s = ground arith
IsSorted-insert_item size item (x ∷ xs) s =
    if_elim (IsSorted size) (ltb (size x) (size item)) (x ∷ insert_item size item xs)
      (item ∷ x ∷ xs)
      (λ e. (
        AllFrom-insert_item size (size x) item xs (ground arith) s.0,
        IsSorted-insert_item size item xs s.1,
      ))
      (λ e.
        let le : size item ≤ size x = ground arith in
        ((le, AllFrom-le size (size item) (size x) xs le s.0), s))

AllFrom-remove_item :
    (size : ℕ → ℕ) (n item : ℕ) (xs : List ℕ)
    → AllFrom size n xs
    → AllFrom size n (remove_item item xs)
unfolding remove_item
AllFrom-remove_item size n item [] a = a
AllFrom-remove_item size n item (x ∷ xs) a =
    if_elim (AllFrom size n) (x == item) xs (x ∷ remove_item item xs) (λ e. a.1)
      (λ e. (a.0, AllFrom-remove_item size n item xs a.1))

pub IsSorted-remove_item :
    (size : ℕ → ℕ) (item : ℕ) (xs : List ℕ) → IsSorted size xs → IsSorted size (remove_item item xs)
unfolding remove_item
IsSorted-remove_item size item [] s = s
IsSorted-remove_item size item (x ∷ xs) s =
    if_elim (IsSorted size) (x == item) xs (x ∷ remove_item item xs) (λ e. s.1)
      (λ e. (AllFrom-remove_item size (size x) item xs s.0, IsSorted-remove_item size item xs s.1))

-- Members of an array of sorted items.
pub AllFrom-count :
    (size : ℕ → ℕ) (n b : ℕ) (xs : List ℕ) → AllFrom size n xs → count b xs ≢ 0 → n ≤ size b
AllFrom-count size n b [] a c = absurd (c refl)
AllFrom-count size n b (x ∷ xs) a c = elim (Bool-cases (x == b)) [
  | inl e ↦ let same : x ≡ b = ground arith in subst (λ z. n ≤ size z) same a.0
  | inr e ↦ AllFrom-count size n b xs a.1 (λ z.
      c (
        if_elim (λ k. k ≡ 0) (x == b) (suc (count b xs)) (count b xs) (λ y. ground arith) (λ y. z)))
]

AllFrom-remove_at :
    (size : ℕ → ℕ) (n i : ℕ) (xs : List ℕ) → AllFrom size n xs → AllFrom size n (remove_at i xs)
unfolding remove_at
AllFrom-remove_at size n i [] a = a
AllFrom-remove_at size n i (x ∷ []) a = tt
AllFrom-remove_at size n zero (x ∷ y ∷ ys) a = a.1
AllFrom-remove_at size n (suc i) (x ∷ y ∷ ys) a = (a.0, AllFrom-remove_at size n i (y ∷ ys) a.1)

pub IsSorted-remove_at :
    (size : ℕ → ℕ) (i : ℕ) (xs : List ℕ) → IsSorted size xs → IsSorted size (remove_at i xs)
unfolding remove_at
IsSorted-remove_at size i [] s = s
IsSorted-remove_at size i (x ∷ []) s = tt
IsSorted-remove_at size zero (x ∷ y ∷ ys) s = s.1
IsSorted-remove_at size (suc i) (x ∷ y ∷ ys) s =
    (AllFrom-remove_at size (size x) i (y ∷ ys) s.0, IsSorted-remove_at size i (y ∷ ys) s.1)

pub length-remove_at : (i : ℕ) (xs : List ℕ) → length (remove_at i xs) ≡ length xs - 1
unfolding remove_at
length-remove_at i [] = refl
length-remove_at i (x ∷ []) = refl
length-remove_at zero (x ∷ y ∷ ys) = omega arith
length-remove_at (suc i) (x ∷ y ∷ ys) = omega (arith, length-remove_at i (y ∷ ys))

pub length-insert_item :
    (size : ℕ → ℕ) (item : ℕ) (xs : List ℕ) → length (insert_item size item xs) ≡ suc (length xs)
unfolding insert_item
length-insert_item size item [] = refl
length-insert_item size item (x ∷ xs) = ground (arith, length-insert_item size item xs)
