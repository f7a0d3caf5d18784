-- ===== src/Pmm/FirstFree.antt =====
-- `pmm_first_free`: the lowest free frame above the kernel's memory.
use curls.Prelude.{
  ℕ, zero, suc, ◌+◌, ◌-◌, ◌*◌, ◌/◌, ◌%◌, ◌^◌, ◌<◌, ◌≤◌, ◌≡◌, refl, sym, ap, ap₂, ◌∙◌, subst, inl,
  inr, ◌⊎◌, Bool, true, false, ◌&&◌, ◌||◌, Option, none, some, arith,
}
use curls.Prelude.Tests.{not, ltb, leb, ◌==◌, if◌then◌else◌, Bool-cases}
use curls.Prelude.Lists.{length, length-set}
use curls.Prelude.Bits.{test_bit, test_bit-ones}
use curls.Pmm.{Pmm, word, mark, scan_bits, scan_word, scan, or_else, first_free}
use curls.Pmm.Bitmap.{used, used-mark, IsValid}

-- The frames from `a` to `e` have been looked at: each was used or belongs to the kernel, and those
-- of the kernel are marked now.
pub record Scanned (p : Pmm) (a e : ℕ) (p' : Pmm) : Type 0 where
  pub seen : (g : ℕ) → (ltb g a || (leb e g || (used p g || ltb g p.kernel_limit))) ≡ true
  pub marked :
      (g : ℕ) → used p' g ≡ (used p g || (not (ltb g a) && (ltb g e && ltb g p.kernel_limit)))
  pub same_total : p'.total ≡ p.total
  pub same_limit : p'.kernel_limit ≡ p.kernel_limit
  pub same_words : length p'.bitmap ≡ length p.bitmap

Scanned-nil : (p : Pmm) (a : ℕ) → Scanned p a a p
Scanned-nil p a = record {
  seen = λ g. ground arith;
  marked = λ g. ground arith;
  same_total = refl;
  same_limit = refl;
  same_words = refl;
}

Scanned-trans :
    (p q r : Pmm) (a b e : ℕ) → a ≤ b → b ≤ e → Scanned p a b q → Scanned q b e r → Scanned p a e r
Scanned-trans p q r a b e h h' s t = record {
  seen = λ g. ground (arith, s.seen g, t.seen g, s.marked g, s.same_limit);
  marked = λ g. ground (arith, s.marked g, t.marked g, s.same_limit);
  same_total = t.same_total ∙ s.same_total;
  same_limit = t.same_limit ∙ s.same_limit;
  same_words = t.same_words ∙ s.same_words;
}

Scanned-used : (p : Pmm) (a : ℕ) → used p a ≡ true → Scanned p a (a + 1) p
Scanned-used p a u = record {
  seen = λ g. here g (Bool-cases (g == a));
  marked = λ g. there g (Bool-cases (g == a));
  same_total = refl;
  same_limit = refl;
  same_words = refl;
}
  where
    here :
        (g : ℕ)
        → ((g == a) ≡ true) ⊎ ((g == a) ≡ false)
        → (ltb g a || (leb (a + 1) g || (used p g || ltb g p.kernel_limit))) ≡ true
    here g (inl e) =
        let same : g ≡ a = ground arith in
        let ug : used p g ≡ true = ap (used p) same ∙ u in ground arith
    here g (inr e) = ground arith

    there :
        (g : ℕ)
        → ((g == a) ≡ true) ⊎ ((g == a) ≡ false)
        → used p g ≡ (used p g || (not (ltb g a) && (ltb g (a + 1) && ltb g p.kernel_limit)))
    there g (inl e) =
        let same : g ≡ a = ground arith in
        let ug : used p g ≡ true = ap (used p) same ∙ u in ground arith
    there g (inr e) = ground arith

mark-same :
    (p : Pmm) (f : ℕ)
    → ((mark f p).total ≡ p.total)
      × ((mark f p).kernel_limit ≡ p.kernel_limit)
      × (length (mark f p).bitmap ≡ length p.bitmap)
unfolding mark word
mark-same p f = (refl, refl, length-set p.bitmap (f / 32) _)

Scanned-mark :
    (p : Pmm) (a : ℕ)
    → a / 32 < length p.bitmap
    → a < p.kernel_limit
    → Scanned p a (a + 1) (mark a p)
Scanned-mark p a h low = record {
  seen = λ g. ground arith;
  marked = λ g. ground (arith, used-mark p a h g);
  same_total = (mark-same p a).0;
  same_limit = (mark-same p a).1;
  same_words = (mark-same p a).2;
}

-- What a search from `a` to `e` gives.
unfoldable pub Searched : Pmm → ℕ → ℕ → Option ℕ × Pmm → Type 0
Searched p a e (none, p') = Scanned p a e p'
Searched p a e (some f, p') =
    (a ≤ f) × (f < e) × (p.kernel_limit ≤ f) × (used p f ≡ false) × Scanned p a f p'

-- A search that goes on where another part has been looked at.
Searched-after :
    (p q : Pmm) (a b e : ℕ) (r : Option ℕ × Pmm)
    → a ≤ b
    → b ≤ e
    → Scanned p a b q
    → Searched q b e r
    → Searched p a e r
unfolding Searched
Searched-after p q a b e (none, p') h h' s t = Scanned-trans p q p' a b e h h' s t
Searched-after p q a b e (some f, p') h h' s (from, below, above, free, t) = (
  omega arith,
  below,
  omega (arith, s.same_limit),
  ground (arith, s.marked f),
  Scanned-trans p q p' a b f h from s t,
)

used-at : (p : Pmm) (i j : ℕ) → j < 32 → used p (i * 32 + j) ≡ test_bit (word i p) j
unfolding used
used-at p i j h =
    let quot : (i * 32 + j) / 32 ≡ i = omega arith in
    let rem : (i * 32 + j) % 32 ≡ j = omega arith in ap₂ (λ x y. test_bit (word x p) y) quot rem

scan_bits-Searched :
    (k j i : ℕ) (p : Pmm)
    → j + k ≡ 32
    → i < p.total / 32
    → p.total < 2 ^ 32
    → length p.bitmap ≡ p.total / 32 + 1
    → Searched p (i * 32 + j) (i * 32 + 32) (scan_bits k j i p)
unfolding scan_bits Searched
scan_bits-Searched zero j i p h hi small words =
    let end : i * 32 + j ≡ i * 32 + 32 = omega arith in
    subst (λ e. Scanned p (i * 32 + j) e p) end (Scanned-nil p (i * 32 + j))
scan_bits-Searched (suc k) j i p h hi small words =
    let a = i * 32 + j in
    let frame : (i * 32 + j) % 2 ^ 32 ≡ i * 32 + j = omega arith in
    let next : i * 32 + (j + 1) ≡ i * 32 + j + 1 = omega arith in
    let at : used p a ≡ test_bit (word i p) j = used-at p i j (omega arith) in
    elim (Bool-cases (test_bit (word i p) j)) [
      | inl e ↦ rw e (
          Searched-after p p a (i * 32 + (j + 1)) (i * 32 + 32) (scan_bits k (j + 1) i p)
            (omega arith) (omega arith)
            (subst (λ b. Scanned p a b p) (sym next) (Scanned-used p a (at ∙ e)))
            (scan_bits-Searched k (j + 1) i p (omega arith) hi small words))
      | inr e ↦
          let inside : leb p.total a ≡ false = ground arith in
          elim (Bool-cases (ltb a p.kernel_limit)) [
            | inl low ↦
                let same = mark-same p a in
                let rest : Searched (mark a p) (i * 32 + (j + 1)) (i * 32 + 32)
                    (scan_bits k (j + 1) i (mark a p)) =
                  scan_bits-Searched k (j + 1) i (mark a p) (omega arith) (omega (arith, same.0))
                    (omega (arith, same.0)) (omega (arith, same.0, same.2)) in
                rw (e, frame, inside, low)
                  (Searched-after p (mark a p) a (i * 32 + (j + 1)) (i * 32 + 32)
                    (scan_bits k (j + 1) i (mark a p)) (omega arith) (omega arith)
                    (subst (λ b. Scanned p a b (mark a p)) (sym next)
                      (Scanned-mark p a (omega arith) (ground arith)))
                    rest)
            | inr high ↦
                rw (e, frame, inside, high)
                  (omega arith, omega arith, ground arith, at ∙ e, Scanned-nil p a)
          ]
    ]

-- A word with all bits set holds no free frame.
full_word : (p : Pmm) (i : ℕ) → word i p ≡ 2 ^ 32 - 1 → Scanned p (i * 32) (i * 32 + 32) p
unfolding used
full_word p i e = record {
  seen = λ g. ground (arith, full g);
  marked = λ g. ground (arith, full g);
  same_total = refl;
  same_limit = refl;
  same_words = refl;
}
  where
    full : (g : ℕ) → (ltb g (i * 32) || (leb (i * 32 + 32) g || used p g)) ≡ true
    full g = elim (Bool-cases (g / 32 == i)) [
      | inl same ↦
          let here : g / 32 ≡ i = ground arith in
          let bit : test_bit (word (g / 32) p) (g % 32) ≡ true =
            ap (λ x. test_bit x (g % 32)) (ap (λ x. word x p) here ∙ e)
            ∙ test_bit-ones 32 (g % 32) (omega arith) in
          ground (arith, bit)
      | inr other ↦ ground arith
    ]

if-Searched :
    (p : Pmm) (a e : ℕ) (b : Bool) (r s : Option ℕ × Pmm)
    → (b ≡ true → Searched p a e r)
    → (b ≡ false → Searched p a e s)
    → Searched p a e (if b then r else s)
if-Searched p a e true r s x y = x refl
if-Searched p a e false r s x y = y refl

none-Searched : (p q : Pmm) (a e : ℕ) → Scanned p a e q → Searched p a e (none, q)
unfolding Searched
none-Searched p q a e s = s

scan_word-Searched :
    (i : ℕ) (p : Pmm)
    → i < p.total / 32
    → p.total < 2 ^ 32
    → length p.bitmap ≡ p.total / 32 + 1
    → Searched p (i * 32) (i * 32 + 32) (scan_word i p)
unfolding scan_word
scan_word-Searched i p hi small words =
    if-Searched p (i * 32) (i * 32 + 32) (word i p == 2 ^ 32 - 1) (none, p) (scan_bits 32 0 i p)
      (λ e. none-Searched p p (i * 32) (i * 32 + 32) (full_word p i (ground arith)))
      (λ e.
        let start : i * 32 + 0 ≡ i * 32 = omega arith in
        subst (λ a. Searched p a (i * 32 + 32) (scan_bits 32 0 i p)) start
          (scan_bits-Searched 32 0 i p refl hi small words))

or_else-Searched :
    (p : Pmm) (a b e : ℕ) (r s : Option ℕ × Pmm)
    → a ≤ b
    → b ≤ e
    → Searched p a b r
    → Searched r.1 b e s
    → Searched p a e (or_else r s)
unfolding or_else Searched
or_else-Searched p a b e (none, q) s h h' x y = Searched-after p q a b e s h h' x y
or_else-Searched p a b e (some f, q) s h h' (from, below, above, free, t) y =
    (from, omega arith, above, free, t)

Searched-same :
    (p : Pmm) (a e : ℕ) (r : Option ℕ × Pmm)
    → Searched p a e r
    → (r.1.total ≡ p.total) × (length r.1.bitmap ≡ length p.bitmap)
unfolding Searched
Searched-same p a e (none, q) x = (x.same_total, x.same_words)
Searched-same p a e (some f, q) (from, below, above, free, x) = (x.same_total, x.same_words)

scan-Searched :
    (k i : ℕ) (p : Pmm)
    → i + k ≡ p.total / 32
    → p.total < 2 ^ 32
    → length p.bitmap ≡ p.total / 32 + 1
    → Searched p (i * 32) (p.total / 32 * 32) (scan k i p)
unfolding scan Searched
scan-Searched zero i p h small words =
    let end : i * 32 ≡ p.total / 32 * 32 = omega arith in
    subst (λ e. Scanned p (i * 32) e p) end (Scanned-nil p (i * 32))
scan-Searched (suc k) i p h small words =
    let one : Searched p (i * 32) (i * 32 + 32) (scan_word i p) =
      scan_word-Searched i p (omega arith) small words in
    let q = (scan_word i p).1 in
    let (total, len) = Searched-same p (i * 32) (i * 32 + 32) (scan_word i p) one in
    let rest : Searched q ((i + 1) * 32) (q.total / 32 * 32) (scan k (i + 1) q) =
      scan-Searched k (i + 1) q (omega (arith, total)) (omega (arith, total))
        (omega (arith, total, len)) in
    let start : (i + 1) * 32 ≡ i * 32 + 32 = omega arith in
    let end : q.total / 32 * 32 ≡ p.total / 32 * 32 = ap (λ n. n / 32 * 32) total in
    or_else-Searched p (i * 32) (i * 32 + 32) (p.total / 32 * 32) (scan_word i p) (scan k (i + 1) q)
      (omega arith) (omega arith) one
      (subst (λ b. Searched q b (p.total / 32 * 32) (scan k (i + 1) q)) start
        (subst (λ e. Searched q ((i + 1) * 32) e (scan k (i + 1) q)) end rest))

pub first_free_found :
    (p : Pmm)
    → length p.bitmap ≡ p.total / 32 + 1
    → p.total < 2 ^ 32
    → p.is_set_up ≡ true
    → Searched p 0 (p.total / 32 * 32) (first_free p)
unfolding first_free
first_free_found p words small up =
    let start : 0 * 32 ≡ 0 = omega arith in
    if-Searched p 0 (p.total / 32 * 32) (not p.is_set_up) (none, p) (scan (p.total / 32) 0 p)
      (λ e. absurd (ground arith))
      (λ e.
        subst (λ a. Searched p a (p.total / 32 * 32) (scan (p.total / 32) 0 p)) start
          (scan-Searched (p.total / 32) 0 p (omega arith) small words))

-- `pmm_first_free` gives a frame exactly when one below the last multiple of 32 is free and not the
-- kernel's, and then the lowest such frame; on the way it marks the frames of the kernel that it
-- passes, and no other. A frame it gives is below `total_frames` and not marked.
pub first_free-Searched :
    (p : Pmm) → IsValid p → p.is_set_up ≡ true → Searched p 0 (p.total / 32 * 32) (first_free p)
first_free-Searched p v up = first_free_found p v.words v.small up
