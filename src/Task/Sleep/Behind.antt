-- ===== src/Task/Sleep/Behind.antt =====
-- The place of a task among tasks that are sorted by wake tick: behind all that wake no later.
use curls.Prelude.{ℕ, ◌≤◌, ◌≡◌, ◌≢◌, refl, sym, inl, inr, List, [], ◌∷◌, arith}
use curls.Prelude.Tests.{leb, if◌then◌else◌, Bool-cases}
use curls.Task.{Tasks}
use curls.Task.Sleep.Chain.{Fresh, Distinct, AllFrom, IsSorted, SameKeys, AllFrom-le}

-- Behind the tasks that wake no later than `k`.
unfoldable pub behind : Tasks → ℕ → ℕ → List ℕ → List ℕ
behind ts t k [] = t ∷ []
behind ts t k (x ∷ xs) = if leb (ts x).sleep_until k then x ∷ behind ts t k xs else t ∷ x ∷ xs

pub behind-same :
    (ts us : Tasks) (t k : ℕ) (xs : List ℕ)
    → SameKeys ts us xs
    → behind us t k xs ≡ behind ts t k xs
unfolding behind
behind-same ts us t k [] s = refl
behind-same ts us t k (x ∷ xs) s = rw (s.0, behind-same ts us t k xs s.1)

pub Fresh-behind :
    (ts : Tasks) (a t k : ℕ) (xs : List ℕ) → a ≢ t → Fresh a xs → Fresh a (behind ts t k xs)
unfolding behind
Fresh-behind ts a t k [] n f = (n, tt)
Fresh-behind ts a t k (x ∷ xs) n f = elim (Bool-cases (leb (ts x).sleep_until k)) [
  | inl e ↦ rw e (f.0, Fresh-behind ts a t k xs n f.1)
  | inr e ↦ rw e (n, f)
]

pub Distinct-behind :
    (ts : Tasks) (t k : ℕ) (xs : List ℕ) → Fresh t xs → Distinct xs → Distinct (behind ts t k xs)
unfolding behind
Distinct-behind ts t k [] f d = (tt, tt)
Distinct-behind ts t k (x ∷ xs) f d = elim (Bool-cases (leb (ts x).sleep_until k)) [
  | inl e ↦
      rw e (Fresh-behind ts x t k xs (λ q. f.0 (sym q)) d.0, Distinct-behind ts t k xs f.1 d.1)
  | inr e ↦ rw e (f, d)
]

module _ (ts : Tasks) (t k : ℕ) (key : (ts t).sleep_until ≡ k) where
  pub AllFrom-behind :
      (j : ℕ) (xs : List ℕ) → j ≤ k → AllFrom j ts xs → AllFrom j ts (behind ts t k xs)
  unfolding behind
  AllFrom-behind j [] h a = (omega arith, tt)
  AllFrom-behind j (x ∷ xs) h a = elim (Bool-cases (leb (ts x).sleep_until k)) [
    | inl e ↦ rw e (a.0, AllFrom-behind j xs h a.1)
    | inr e ↦ rw e (omega arith, a)
  ]

  pub IsSorted-behind : (xs : List ℕ) → IsSorted ts xs → IsSorted ts (behind ts t k xs)
  unfolding behind
  IsSorted-behind [] s = (tt, tt)
  IsSorted-behind (x ∷ xs) s = elim (Bool-cases (leb (ts x).sleep_until k)) [
    | inl e ↦ rw e (AllFrom-behind _ xs (ground arith) s.0, IsSorted-behind xs s.1)
    | inr e ↦
        let later : (ts t).sleep_until ≤ (ts x).sleep_until = ground arith in
        rw e ((later, AllFrom-le _ _ ts xs later s.0), s)
  ]
