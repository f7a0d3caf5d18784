-- ===== src/Prelude/Store.antt =====
-- A memory of records by address, as a function. Address 0 is NULL.
use Prim.Native.Nat.{ℕ}
use mathlib.Core.Path.{◌≡◌, ap, ◌∙◌}
use mathlib.Core.Bool.{true}
use mathlib.Core.Logic.{◌≢◌, inl, inr}
use native.Mathlib.Omega.{arith}
use curls.Prelude.Tests.{◌==◌, if◌then◌else◌, Bool-cases}

unfoldable pub update {ℓ} : {A : Type ℓ} → (ℕ → A) → ℕ → A → ℕ → A
update f p v q = if p == q then v else f q

module _ {ℓ} {A : Type ℓ} where
  pub update_self : (f : ℕ → A) (p : ℕ) (v : A) → update f p v p ≡ v
  unfolding update
  update_self f p v = ground arith

  pub update_ne : (f : ℕ → A) (p q : ℕ) (v : A) → p ≢ q → update f p v q ≡ f q
  unfolding update
  update_ne f p q v h = ground arith

-- A function that is known at one argument, and agrees with another one elsewhere.
pub at_or_else {ℓ} :
    {A : Type ℓ} (t : ℕ) (v : A) (f g : ℕ → A)
    → f t ≡ v
    → ((a : ℕ) → a ≢ t → f a ≡ g a)
    → (a : ℕ) → f a ≡ (if a == t then v else g a)
at_or_else t v f g e h a = elim (Bool-cases (a == t)) [
  | inl same ↦ let there : a ≡ t = ground arith in rw same (ap f there ∙ e)
  | inr other ↦ rw other (h a (λ z. let same : (a == t) ≡ true = ground arith in cc))
]
