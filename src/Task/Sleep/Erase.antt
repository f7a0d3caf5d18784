-- ===== src/Task/Sleep/Erase.antt =====
-- A task taken out of a list of tasks: what `sleepq_remove` means for the queue as a list.
use curls.Prelude.{arith, ℕ, ◌≡◌, refl, ap, inl, inr, true, false, List, [], ◌∷◌, subst}
use curls.Prelude.Tests.{◌==◌, if◌then◌else◌, Bool-cases}
use curls.Task.{Tasks}
use curls.Task.Sleep.Chain.{Fresh, Distinct, AllFrom, IsSorted}

unfoldable pub erase : ℕ → List ℕ → List ℕ
erase t [] = []
erase t (x ∷ xs) = if x == t then xs else x ∷ erase t xs

pub Fresh-erase : (a t : ℕ) (xs : List ℕ) → Fresh a xs → Fresh a (erase t xs)
unfolding erase
Fresh-erase a t [] f = tt
Fresh-erase a t (x ∷ xs) f = elim (Bool-cases (x == t)) [
  | inl e ↦ rw e f.1
  | inr e ↦ rw e (f.0, Fresh-erase a t xs f.1)
]

-- A task that stands once in a list is erased from it.
pub Fresh-erase_self : (t : ℕ) (xs : List ℕ) → Distinct xs → Fresh t (erase t xs)
unfolding erase
Fresh-erase_self t [] d = tt
Fresh-erase_self t (x ∷ xs) d = elim (Bool-cases (x == t)) [
  | inl e ↦ let same : x ≡ t = ground arith in rw e (subst (λ a. Fresh a xs) same d.0)
  | inr e ↦ rw e ((λ z. let r : (x == t) ≡ true = ground arith in cc), Fresh-erase_self t xs d.1)
]

pub Distinct-erase : (t : ℕ) (xs : List ℕ) → Distinct xs → Distinct (erase t xs)
unfolding erase
Distinct-erase t [] d = tt
Distinct-erase t (x ∷ xs) d = elim (Bool-cases (x == t)) [
  | inl e ↦ rw e d.1
  | inr e ↦ rw e (Fresh-erase x t xs d.0, Distinct-erase t xs d.1)
]

pub AllFrom-erase :
    (k t : ℕ) (ts : Tasks) (xs : List ℕ) → AllFrom k ts xs → AllFrom k ts (erase t xs)
unfolding erase
AllFrom-erase k t ts [] a = tt
AllFrom-erase k t ts (x ∷ xs) a = elim (Bool-cases (x == t)) [
  | inl e ↦ rw e a.1
  | inr e ↦ rw e (a.0, AllFrom-erase k t ts xs a.1)
]

pub IsSorted-erase : (t : ℕ) (ts : Tasks) (xs : List ℕ) → IsSorted ts xs → IsSorted ts (erase t xs)
unfolding erase
IsSorted-erase t ts [] s = tt
IsSorted-erase t ts (x ∷ xs) s = elim (Bool-cases (x == t)) [
  | inl e ↦ rw e s.1
  | inr e ↦ rw e (AllFrom-erase _ t ts xs s.0, IsSorted-erase t ts xs s.1)
]

pub erase-Fresh : (t : ℕ) (xs : List ℕ) → Fresh t xs → erase t xs ≡ xs
unfolding erase
erase-Fresh t [] f = refl
erase-Fresh t (x ∷ xs) f =
    let other : (x == t) ≡ false = ground arith in rw other (ap (λ l. x ∷ l) (erase-Fresh t xs f.1))
