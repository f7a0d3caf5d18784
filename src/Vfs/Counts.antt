-- ===== src/Vfs/Counts.antt =====
-- How many slots of a list of descriptor tables have a property.
use curls.Prelude.{
  ℕ, zero, suc, ◌+◌, ◌<◌, ◌≡◌, refl, sym, ap, ap₂, ◌∙◌, ◌≢◌, inl, inr, Bool, true, false, ◌&&◌,
  List, [], ◌∷◌, ◌++◌, arith,
}
use curls.Prelude.Tests.{not, ◌==◌, Bool-cases}
use curls.Prelude.Lists.{length, get_or, set}
use curls.Task.{null}

abbrev pub one_if : Bool → ℕ
one_if true = 1
one_if false = 0

abbrev pub tally : (ℕ → Bool) → List ℕ → ℕ
tally q [] = 0
tally q (x ∷ xs) = one_if (q x) + tally q xs

pub tally-append : (q : ℕ → Bool) (xs ys : List ℕ) → tally q (xs ++ ys) ≡ tally q xs + tally q ys
tally-append q [] ys = omega arith
tally-append q (x ∷ xs) ys = omega (arith, tally-append q xs ys)

-- A write moves the count by what it puts in and what it overwrites.
pub tally-set :
    (q : ℕ → Bool) (xs : List ℕ) (i v : ℕ)
    → i < length xs
    → tally q (set xs i v) + one_if (q (get_or xs i null)) ≡ tally q xs + one_if (q v)
tally-set q [] i v h = absurd (omega arith)
tally-set q (x ∷ xs) zero v h = omega arith
tally-set q (x ∷ xs) (suc i) v h = omega (arith, tally-set q xs i v (omega arith))

pub tally-get :
    (q : ℕ → Bool) (xs : List ℕ) (i : ℕ)
    → i < length xs
    → q (get_or xs i null) ≡ true
    → 0 < tally q xs
tally-get q [] i h e = absurd (omega arith)
tally-get q (x ∷ xs) zero h e = rw e (omega arith)
tally-get q (x ∷ xs) (suc i) h e = omega (arith, tally-get q xs i (omega arith) e)

pub tally-le : (q : ℕ → Bool) (xs : List ℕ) → tally q xs < suc (length xs)
tally-le q [] = omega arith
tally-le q (x ∷ xs) = ground (arith, tally-le q xs)

-- The slot holds the address, which is not NULL.
abbrev pub is : ℕ → ℕ → Bool
is f s = not (s == null) && (s == f)

-- Two properties that agree away from an address that no slot holds.
pub tally-agree :
    (a : ℕ) (q r : ℕ → Bool) (xs : List ℕ)
    → tally (is a) xs ≡ 0
    → q null ≡ r null
    → ((s : ℕ) → s ≢ a → q s ≡ r s)
    → tally q xs ≡ tally r xs
tally-agree a q r [] z n e = refl
tally-agree a q r (x ∷ xs) z n e =
    ap₂ (λ (b : Bool) k. one_if b + k)
      (elim (Bool-cases (x == null)) [
        | inl o ↦ let at_null : x ≡ null = ground arith in ap q at_null ∙ n ∙ ap r (sym at_null)
        | inr o ↦ e x (λ same.
            let bad : is a x ≡ true = ground arith in
            absurd (let one : one_if (is a x) ≡ 1 = rw bad refl in omega arith))
      ])
      (tally-agree a q r xs (omega arith) n e)

pub tally-ext : (q r : ℕ → Bool) (xs : List ℕ) → ((s : ℕ) → q s ≡ r s) → tally q xs ≡ tally r xs
tally-ext q r [] e = refl
tally-ext q r (x ∷ xs) e = ap₂ (λ (b : Bool) k. one_if b + k) (e x) (tally-ext q r xs e)

-- Two properties that agree where a third one fails, which no slot has.
pub tally-where :
    (b q r : ℕ → Bool) (xs : List ℕ)
    → tally b xs ≡ 0
    → ((s : ℕ) → b s ≡ false → q s ≡ r s)
    → tally q xs ≡ tally r xs
tally-where b q r [] z e = refl
tally-where b q r (x ∷ xs) z e =
    let no : b x ≡ false = ground arith in
    ap₂ (λ (c : Bool) k. one_if c + k) (e x no) (tally-where b q r xs (omega arith) e)

pub tally-never : (xs : List ℕ) → tally (λ s. false) xs ≡ 0
tally-never [] = refl
tally-never (x ∷ xs) = omega (arith, tally-never xs)
