-- ===== src/Pmm/Refs.antt =====
-- The counts of references to frames, and the bit of the bitmap that goes with them.
use curls.Prelude.{
  ℕ, ◌+◌, ◌-◌, ◌/◌, ◌%◌, ◌^◌, ◌<◌, ◌≡◌, refl, sym, ap, ap₂, ◌∙◌, inl, inr, Bool, true, false, ◌&&◌,
  ◌||◌, arith,
}
use curls.Prelude.Tests.{not, ◌==◌, if◌then◌else◌, Bool-cases, ==_refl}
use curls.Prelude.Lists.{length, get_or, set, length-set, get_or-set_self, get_or-set_ne}
use curls.Prelude.Store.{at_or_else}
use curls.Pmm.{Pmm, word, mark, unmark, refs, set_refs, add_ref, remove_ref, is_refused}
use curls.Pmm.Bitmap.{used, used-mark, used-unmark, IsValid}

refs-set :
    (p : Pmm) (f n : ℕ)
    → f < length p.ref_count
    → (g : ℕ) → refs g (set_refs f n p) ≡ (if g == f then n else refs g p)
unfolding refs set_refs
refs-set p f n h =
    at_or_else f n (λ g. get_or (set p.ref_count f n) g 0) (λ g. get_or p.ref_count g 0)
      (get_or-set_self p.ref_count f n 0 h)
      (λ a k. get_or-set_ne p.ref_count f a n 0 (λ z. k (sym z)))

-- What the counts and the bitmap are after an operation on the frame `f`.
pub record Counts (p : Pmm) (f n : ℕ) (bit : Bool) (p' : Pmm) : Type 0 where
  pub counts : (g : ℕ) → refs g p' ≡ (if g == f then n else refs g p)
  pub bits : (g : ℕ) → used p' g ≡ (if g == f then bit else used p g)

module _ (p : Pmm) (f : ℕ) (v : IsValid p) (up : p.is_set_up ≡ true) (h : f < p.total) where
  accepted : is_refused f p ≡ false
  accepted = ground arith

  keep_bit : (b : Bool) → b ≡ used p f → (g : ℕ) → used p g ≡ (if g == f then b else used p g)
  keep_bit b e g = elim (Bool-cases (g == f)) [
    | inl s ↦ let same : g ≡ f = ground arith in rw s (ap (used p) same ∙ sym e)
    | inr s ↦ rw s refl
  ]

  -- `frame_add_ref` at a frame in range: the count goes up, modulo 256, and the frame is marked if
  -- it had no reference; no other frame changes.
  pub add_ref-Counts :
      Counts p f ((refs f p + 1) % 2 ^ 8) (used p f || (refs f p == 0)) (add_ref f p)
  unfolding add_ref mark set_refs used word refs
  add_ref-Counts = elim (Bool-cases (refs f p == 0)) [
    | inl e ↦
        rw (accepted, e)
          (record {
            counts = refs-set (mark f p) f ((refs f p + 1) % 2 ^ 8) (omega (arith, v.counts));
            bits = λ g.
                used-mark p f (omega (arith, v.words)) g
                ∙ ap (λ b. if g == f then b else used p g) (ground arith);
          })
    | inr e ↦
        rw (accepted, e)
          (record {
            counts = refs-set p f ((refs f p + 1) % 2 ^ 8) (omega (arith, v.counts));
            bits = keep_bit (used p f || false) (ground arith);
          })
  ]

  -- `frame_remove_ref` at a frame in range: a count that is not 0 goes down, and the frame is free
  -- again exactly when that was its last reference; no other frame changes.
  pub remove_ref-Counts :
      Counts p f (refs f p - 1) (used p f && not (refs f p == 1)) (remove_ref f p)
  unfolding remove_ref unmark set_refs used word refs
  remove_ref-Counts = elim (Bool-cases (refs f p == 0)) [
    | inl e ↦
        let zero : refs f p ≡ 0 = ground arith in
        rw (accepted, e)
          (record {
            counts = λ g. elim (Bool-cases (g == f)) [
              | inl s ↦
                  let same : g ≡ f = ground arith in
                  rw s (ap (λ k. refs k p) same ∙ omega (arith, zero))
              | inr s ↦ rw s refl
            ];
            bits = keep_bit (used p f && not (refs f p == 1)) (ground arith);
          })
    | inr e ↦ elim (Bool-cases (refs f p == 1)) [
      | inl e1 ↦
          let last : (refs f p - 1 == 0) ≡ true = ground arith in
          rw (accepted, e, e1, last)
            (record {
              counts = refs-set p f (refs f p - 1) (omega (arith, v.counts));
              bits = λ g.
                  used-unmark (set_refs f (refs f p - 1) p) f (omega (arith, v.words)) g
                  ∙ ap (λ b. if g == f then b else used p g) (ground arith);
            })
      | inr e1 ↦
          let more : (refs f p - 1 == 0) ≡ false = ground arith in
          rw (accepted, e, e1, more)
            (record {
              counts = refs-set p f (refs f p - 1) (omega (arith, v.counts));
              bits = keep_bit (used p f && true) (ground arith);
            })
    ]
  ]

  add_ref-IsValid :
      IsValid (add_ref f p) × ((add_ref f p).is_set_up ≡ true) × (f < (add_ref f p).total)
  unfolding add_ref mark set_refs
  add_ref-IsValid = elim (Bool-cases (refs f p == 0)) [
    | inl e ↦
        rw (accepted, e)
          (
            record {
              words = length-set p.bitmap (f / 32) _ ∙ v.words;
              counts = length-set p.ref_count f _ ∙ v.counts;
              small = v.small;
            },
            up,
            h,
          )
    | inr e ↦
        rw (accepted, e)
          (
            record {
              words = v.words;
              counts = length-set p.ref_count f _ ∙ v.counts;
              small = v.small;
            },
            up,
            h,
          )
  ]

-- The count and the bit of the frame itself after `frame_add_ref` and then `frame_remove_ref`.
after_both :
    (p : Pmm) (f : ℕ)
    → IsValid p
    → p.is_set_up ≡ true
    → f < p.total
    → Counts p f
        ((refs f p + 1) % 2 ^ 8 - 1)
        ((used p f || (refs f p == 0)) && not ((refs f p + 1) % 2 ^ 8 == 1))
        (remove_ref f (add_ref f p))
after_both p f v up h =
    let (v', up', h') = add_ref-IsValid p f v up h in
    let a = add_ref-Counts p f v up h in
    let r = remove_ref-Counts (add_ref f p) f v' up' h' in
    let count : refs f (add_ref f p) ≡ (refs f p + 1) % 2 ^ 8 = a.counts f ∙ rw (==_refl f) refl in
    let bit : used (add_ref f p) f ≡ (used p f || (refs f p == 0)) =
      a.bits f ∙ rw (==_refl f) refl in
    record {
      counts = λ g.
          r.counts g
          ∙ ap (λ n. if g == f then n - 1 else refs g (add_ref f p)) count
          ∙ ap (λ m. if g == f then (refs f p + 1) % 2 ^ 8 - 1 else m) (a.counts g)
          ∙ ground arith;
      bits = λ g.
          r.bits g
          ∙ ap₂ (λ b n. if g == f then b && not (n == 1) else used (add_ref f p) g) bit count
          ∙ ap
              (λ m.
                if g == f
                then (used p f || (refs f p == 0)) && not ((refs f p + 1) % 2 ^ 8 == 1)
                else m)
              (a.bits g)
          ∙ ground arith;
    }

-- A value at `f` in place of the value at `f`.
back {ℓ} : {A : Type ℓ} (q : ℕ → A) (f g : ℕ) → (if g == f then q f else q g) ≡ q g
back q f g = elim (Bool-cases (g == f)) [
  | inl s ↦ let same : f ≡ g = ground arith in rw s (ap q same)
  | inr s ↦ rw s refl
]

-- Sharing a frame once more and giving that reference up changes no count and no bit, as long as
-- the frame is in range and marked as used, and has from 1 to 254 references.
pub share_unshare :
    (p : Pmm) (f : ℕ)
    → IsValid p
    → p.is_set_up ≡ true
    → f < p.total
    → 0 < refs f p
    → refs f p < 255
    → used p f ≡ true
    → ((g : ℕ) → refs g (remove_ref f (add_ref f p)) ≡ refs g p)
      × ((g : ℕ) → used (remove_ref f (add_ref f p)) g ≡ used p g)
share_unshare p f v up h some few marked =
    let both = after_both p f v up h in
    let n : (refs f p + 1) % 2 ^ 8 - 1 ≡ refs f p = omega arith in
    let b : ((used p f || (refs f p == 0)) && not ((refs f p + 1) % 2 ^ 8 == 1)) ≡ used p f =
      ground arith in
    (
      λ g. both.counts g ∙ ap (λ k. if g == f then k else refs g p) n ∙ back (λ k. refs k p) f g,
      λ g. both.bits g ∙ ap (λ k. if g == f then k else used p g) b ∙ back (used p) f g,
    )

-- With 255 references the 8-bit count is full: one more wraps it to 0, the next one makes it 1, and
-- then giving up a single one of the 257 references marks the frame as free.
pub add_ref_wraps :
    (p : Pmm) (f : ℕ)
    → IsValid p
    → p.is_set_up ≡ true
    → f < p.total
    → refs f p ≡ 255
    → (refs f (add_ref f p) ≡ 0) × (used (remove_ref f (add_ref f (add_ref f p))) f ≡ false)
add_ref_wraps p f v up h full =
    let (v', up', h') = add_ref-IsValid p f v up h in
    let a = add_ref-Counts p f v up h in
    let wrapped : refs f (add_ref f p) ≡ 0 = a.counts f ∙ rw (==_refl f, full) refl in
    let both = after_both (add_ref f p) f v' up' h' in
    (wrapped, both.bits f ∙ rw (==_refl f, wrapped) (ground arith))
