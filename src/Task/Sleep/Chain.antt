-- ===== src/Task/Sleep/Chain.antt =====
-- Lists of tasks linked through `sleep_next`, and their order by `sleep_until`.
use curls.Prelude.{ℕ, ◌≤◌, ◌≡◌, ◌≢◌, refl, sym, ap, List, [], ◌∷◌, subst, arith}
use curls.Prelude.Store.{update, update_ne}
use curls.Task.{Task, Tasks, null}

-- `a` is none of the tasks of the list.
abbrev pub Fresh : ℕ → List ℕ → Type 0
Fresh a [] = Unit
Fresh a (x ∷ xs) = (a ≢ x) × Fresh a xs

abbrev pub Distinct : List ℕ → Type 0
Distinct [] = Unit
Distinct (x ∷ xs) = Fresh x xs × Distinct xs

-- From `p` the pointers lead through the tasks of the list, and then to NULL.
abbrev pub Chain : Tasks → ℕ → List ℕ → Type 0
Chain ts p [] = p ≡ null
Chain ts p (x ∷ xs) = (p ≡ x) × (x ≢ null) × Chain ts (ts x).sleep_next xs

-- Every task of the list wakes at `k` or later.
abbrev pub AllFrom : ℕ → Tasks → List ℕ → Type 0
AllFrom k ts [] = Unit
AllFrom k ts (x ∷ xs) = (k ≤ (ts x).sleep_until) × AllFrom k ts xs

abbrev pub IsSorted : Tasks → List ℕ → Type 0
IsSorted ts [] = Unit
IsSorted ts (x ∷ xs) = AllFrom (ts x).sleep_until ts xs × IsSorted ts xs

-- A chain stays when no `sleep_next` of its tasks changes.
pub Chain-frame :
    (ts us : Tasks) (p : ℕ) (xs : List ℕ)
    → ((a : ℕ) → ¬ Fresh a xs → (us a).sleep_next ≡ (ts a).sleep_next)
    → Chain ts p xs
    → Chain us p xs
Chain-frame ts us p [] same c = c
Chain-frame ts us p (x ∷ xs) same c = (
  c.0,
  c.1,
  subst (λ q. Chain us q xs) (sym (same x (λ f. f.0 refl)))
      (Chain-frame ts us (ts x).sleep_next xs (λ a n. same a (λ f. n f.1)) c.2),
)

pub Chain-update :
    (ts : Tasks) (t : ℕ) (v : Task) (p : ℕ) (xs : List ℕ)
    → Fresh t xs
    → Chain ts p xs
    → Chain (update ts t v) p xs
Chain-update ts t v p [] f c = c
Chain-update ts t v p (x ∷ xs) f c = (
  c.0,
  c.1,
  subst (λ q. Chain (update ts t v) q xs) (sym (ap (λ k. k.sleep_next) (update_ne ts t x v f.0)))
      (Chain-update ts t v (ts x).sleep_next xs f.1 c.2),
)

-- Orders read only the `sleep_until` of the tasks in the list.
abbrev pub SameKeys : Tasks → Tasks → List ℕ → Type 0
SameKeys ts us [] = Unit
SameKeys ts us (x ∷ xs) = ((us x).sleep_until ≡ (ts x).sleep_until) × SameKeys ts us xs

pub AllFrom-same :
    (k : ℕ) (ts us : Tasks) (xs : List ℕ) → SameKeys ts us xs → AllFrom k ts xs → AllFrom k us xs
AllFrom-same k ts us [] s a = tt
AllFrom-same k ts us (x ∷ xs) s a = (omega arith, AllFrom-same k ts us xs s.1 a.1)

pub IsSorted-same :
    (ts us : Tasks) (xs : List ℕ) → SameKeys ts us xs → IsSorted ts xs → IsSorted us xs
IsSorted-same ts us [] s a = tt
IsSorted-same ts us (x ∷ xs) s a = (
  subst (λ k. AllFrom k us xs) (sym s.0) (AllFrom-same _ ts us xs s.1 a.0),
  IsSorted-same ts us xs s.1 a.1,
)

pub AllFrom-le : (j k : ℕ) (ts : Tasks) (xs : List ℕ) → j ≤ k → AllFrom k ts xs → AllFrom j ts xs
AllFrom-le j k ts [] h a = tt
AllFrom-le j k ts (x ∷ xs) h a = (omega arith, AllFrom-le j k ts xs h a.1)

pub SameKeys-update :
    (ts : Tasks) (t : ℕ) (v : Task) (xs : List ℕ) → Fresh t xs → SameKeys ts (update ts t v) xs
SameKeys-update ts t v [] f = tt
SameKeys-update ts t v (x ∷ xs) f =
    (ap (λ k. k.sleep_until) (update_ne ts t x v f.0), SameKeys-update ts t v xs f.1)

pub SameKeys-all :
    (ts us : Tasks) (xs : List ℕ)
    → ((a : ℕ) → (us a).sleep_until ≡ (ts a).sleep_until)
    → SameKeys ts us xs
SameKeys-all ts us [] h = tt
SameKeys-all ts us (x ∷ xs) h = (h x, SameKeys-all ts us xs h)

-- The sleep queue holds the tasks `xs`, each once, in the order of their `sleep_until`.
pub record Queued (head : ℕ) (ts : Tasks) (xs : List ℕ) : Type 0 where
  pub chain : Chain ts head xs
  pub distinct : Distinct xs
  pub sorted : IsSorted ts xs
