-- ===== src/Pmm/Bitmap.antt =====
-- The bitmap as a set of frames.
use curls.Prelude.{
  ℕ, ◌+◌, ◌/◌, ◌%◌, ◌^◌, ◌<◌, ◌≡◌, ◌≢◌, sym, ap, ◌∙◌, inl, inr, Bool, true, false, arith,
}
use curls.Prelude.Tests.{◌==◌, if◌then◌else◌, Bool-cases}
use curls.Prelude.Lists.{length, get_or, set, get_or-set_self, get_or-set_ne}
use curls.Prelude.Bits.{
  test_bit, set_bit, clear_bit, test_bit-set_self, test_bit-set_ne, test_bit-clear_self,
  test_bit-clear_ne,
}
use curls.Pmm.{Pmm, word, mark, unmark}

-- The frame is marked as used.
unfoldable pub used : Pmm → ℕ → Bool
unfolding word
used p g = test_bit (word (g / 32) p) (g % 32)

-- The bitmap has a word for every frame, and 32-bit frame numbers reach them all.
pub record IsValid (p : Pmm) : Type 0 where
  pub words : length p.bitmap ≡ p.total / 32 + 1
  pub counts : length p.ref_count ≡ p.total
  pub small : p.total < 2 ^ 32

-- What a write of one bit does to a word and a bit number.
module _ (p : Pmm) (f : ℕ) (h : f / 32 < length p.bitmap) where
  pub used-mark : (g : ℕ) → used (mark f p) g ≡ (if g == f then true else used p g)
  unfolding used word mark
  used-mark g = elim (Bool-cases (g / 32 == f / 32)) [
    | inr e ↦
        let other : (g == f) ≡ false = ground arith in
        rw other (
          ap (λ w. test_bit w (g % 32))
            (get_or-set_ne p.bitmap (f / 32) (g / 32) _ 0
              (λ z. let r : (g / 32 == f / 32) ≡ true = ground arith in cc)))
    | inl e ↦
        let here : f / 32 ≡ g / 32 = ground arith in
        let stored : get_or (set p.bitmap (f / 32) (set_bit (get_or p.bitmap (f / 32) 0) (f % 32)))
              (g / 32) 0
            ≡ set_bit (get_or p.bitmap (f / 32) 0) (f % 32) =
          ap
            (λ k.
              get_or (set p.bitmap (f / 32) (set_bit (get_or p.bitmap (f / 32) 0) (f % 32))) k 0)
            (sym here)
          ∙ get_or-set_self p.bitmap (f / 32) _ 0 h in
        ap (λ w. test_bit w (g % 32)) stored ∙ elim (Bool-cases (g == f)) [
          | inl same ↦
              let eq : f ≡ g = ground arith in
              rw same (
                ap (λ k. test_bit (set_bit (get_or p.bitmap (f / 32) 0) (f % 32)) (k % 32)) (sym eq)
                ∙ test_bit-set_self _ (f % 32))
          | inr ne ↦
              let bits : f % 32 ≢ g % 32 = λ z. let r : (g == f) ≡ true = ground arith in cc in
              rw ne (
                test_bit-set_ne _ (f % 32) (g % 32) bits
                ∙ ap (λ k. test_bit (get_or p.bitmap k 0) (g % 32)) here)
        ]
  ]

  pub used-unmark : (g : ℕ) → used (unmark f p) g ≡ (if g == f then false else used p g)
  unfolding used word unmark
  used-unmark g = elim (Bool-cases (g / 32 == f / 32)) [
    | inr e ↦
        let other : (g == f) ≡ false = ground arith in
        rw other (
          ap (λ w. test_bit w (g % 32))
            (get_or-set_ne p.bitmap (f / 32) (g / 32) _ 0
              (λ z. let r : (g / 32 == f / 32) ≡ true = ground arith in cc)))
    | inl e ↦
        let here : f / 32 ≡ g / 32 = ground arith in
        let stored : get_or
              (set p.bitmap (f / 32) (clear_bit (get_or p.bitmap (f / 32) 0) (f % 32))) (g / 32) 0
            ≡ clear_bit (get_or p.bitmap (f / 32) 0) (f % 32) =
          ap
            (λ k.
              get_or (set p.bitmap (f / 32) (clear_bit (get_or p.bitmap (f / 32) 0) (f % 32))) k 0)
            (sym here)
          ∙ get_or-set_self p.bitmap (f / 32) _ 0 h in
        ap (λ w. test_bit w (g % 32)) stored ∙ elim (Bool-cases (g == f)) [
          | inl same ↦
              let eq : f ≡ g = ground arith in
              rw same (
                ap (λ k. test_bit (clear_bit (get_or p.bitmap (f / 32) 0) (f % 32)) (k % 32))
                  (sym eq)
                ∙ test_bit-clear_self _ (f % 32))
          | inr ne ↦
              let bits : f % 32 ≢ g % 32 = λ z. let r : (g == f) ≡ true = ground arith in cc in
              rw ne (
                test_bit-clear_ne _ (f % 32) (g % 32) bits
                ∙ ap (λ k. test_bit (get_or p.bitmap k 0) (g % 32)) here)
        ]
  ]
