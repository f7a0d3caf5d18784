-- ===== src/Heap/BestFit.antt =====
-- The search of `find_smallest_hole` in libc/kheap.c.
use curls.Prelude.{
  ℕ, suc, ◌+◌, ◌<◌, ◌≤◌, ◌≡◌, ◌≢◌, refl, ap, sym, subst, inl, inr, Bool, true, false, Option, none,
  some, List, [], ◌∷◌, arith, ◌∙◌,
}
use curls.Prelude.Tests.{◌==◌, if◌then◌else◌, Bool-cases, if_elim}
use curls.Prelude.Lists.{length, get_or}
use curls.Heap.{Heap, sizes}
use curls.Heap.Index.{find_fit, count, IsSorted, AllFrom-count}
use curls.Heap.Alloc.{fits, find_smallest_hole}

-- The item at a position of the array fits, and none that fits is smaller.
pub record IsBest (fits : ℕ → Bool) (size : ℕ → ℕ) (xs : List ℕ) (j : ℕ) : Type 0 where
  pub inside : j < length xs
  pub that_fits : fits (get_or xs j 0) ≡ true
  pub least : (b : ℕ) → count b xs ≢ 0 → fits b ≡ true → size (get_or xs j 0) ≤ size b

-- No item of the array fits.
abbrev pub NoneFits : (ℕ → Bool) → List ℕ → Type 0
NoneFits fits xs = (b : ℕ) → count b xs ≢ 0 → fits b ≡ false

abbrev pub FindsBest : (ℕ → Bool) → (ℕ → ℕ) → List ℕ → Option ℕ → Type 0
FindsBest fits size xs none = NoneFits fits xs
FindsBest fits size xs (some j) = IsBest fits size xs j

abbrev up : Option ℕ → Option ℕ
up none = none
up (some j) = some (suc j)

find_fit-suc :
    (fits : ℕ → Bool) (i : ℕ) (xs : List ℕ) → find_fit fits (suc i) xs ≡ up (find_fit fits i xs)
unfolding find_fit
find_fit-suc fits i [] = refl
find_fit-suc fits i (x ∷ xs) =
    if_elim (λ r. (if fits x then some (suc i) else find_fit fits (suc i + 1) xs) ≡ up r) (fits x)
      (some i) (find_fit fits (i + 1) xs) (λ e. rw e refl)
      (λ e.
        let step : suc i + 1 ≡ suc (i + 1) = omega arith in
        rw e (ap (λ k. find_fit fits k xs) step ∙ find_fit-suc fits (i + 1) xs))

-- A member of the array behind an item that is not it.
count_tail : (b x : ℕ) (xs : List ℕ) → x ≢ b → count b (x ∷ xs) ≢ 0 → count b xs ≢ 0
count_tail b x xs n c = ground arith

FindsBest-up :
    (fits : ℕ → Bool) (size : ℕ → ℕ) (x : ℕ) (xs : List ℕ) (r : Option ℕ)
    → fits x ≡ false
    → FindsBest fits size xs r
    → FindsBest fits size (x ∷ xs) (up r)
FindsBest-up fits size x xs none e f = λ b c. elim (Bool-cases (x == b)) [
  | inl s ↦ let same : x ≡ b = ground arith in subst (λ z. fits z ≡ false) same e
  | inr s ↦ f b (count_tail b x xs (λ z. ground arith) c)
]
FindsBest-up fits size x xs (some j) e f = record {
  inside = omega (arith, f.inside);
  that_fits = f.that_fits;
  least = λ b c y. elim (Bool-cases (x == b)) [
    | inl s ↦
        let same : x ≡ b = ground arith in
        let no : fits b ≡ false = subst (λ z. fits z ≡ false) same e in absurd (cc)
    | inr s ↦ f.least b (count_tail b x xs (λ z. ground arith) c) y
  ];
}

FindsBest-find_fit :
    (fits : ℕ → Bool) (size : ℕ → ℕ) (xs : List ℕ)
    → IsSorted size xs
    → FindsBest fits size xs (find_fit fits 0 xs)
unfolding find_fit
FindsBest-find_fit fits size [] s = λ b c. absurd (c refl)
FindsBest-find_fit fits size (x ∷ xs) s =
    if_elim (FindsBest fits size (x ∷ xs)) (fits x) (some 0) (find_fit fits 1 xs)
      (λ e. record {
        inside = omega arith;
        that_fits = e;
        least = λ b c y. elim (Bool-cases (x == b)) [
          | inl q ↦
              let same : x ≡ b = ground arith in subst (λ z. size x ≤ size z) same (omega arith)
          | inr q ↦ AllFrom-count size (size x) b xs s.0 (count_tail b x xs (λ z. ground arith) c)
        ];
      })
      (λ e.
        subst (FindsBest fits size (x ∷ xs)) (sym (find_fit-suc fits 0 xs)) (
          FindsBest-up fits size x xs (find_fit fits 0 xs) e (FindsBest-find_fit fits size xs s.1)))

-- In an index that is sorted by size, `find_smallest_hole` finds the position of a hole that fits the
-- request, and no hole of the index that fits is smaller than it; it finds none only if no hole of the
-- index fits.
pub find_smallest_hole-FindsBest :
    (size : ℕ) (page_align : Bool) (h : Heap)
    → IsSorted (sizes h) h.index
    → FindsBest (fits size page_align h) (sizes h) h.index (find_smallest_hole size page_align h)
unfolding find_smallest_hole
find_smallest_hole-FindsBest size page_align h s =
    FindsBest-find_fit (fits size page_align h) (sizes h) h.index s
