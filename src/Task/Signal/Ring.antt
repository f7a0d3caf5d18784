-- ===== src/Task/Signal/Ring.antt =====
-- The ready queue as a ring of distinct tasks, and the search in it.
use curls.Prelude.{ℕ, zero, suc, ◌<◌, ◌≡◌, ◌≢◌, ap, ◌∙◌, true, false, List, [], ◌∷◌, arith}
use curls.Prelude.Tests.{◌==◌, if◌then◌else◌}
use curls.Prelude.Lists.{length}
use curls.Task.{Tasks, null}
use curls.Task.Signal.{Found, found, missing, find}

-- From `p` the `next` pointers lead through the tasks of the list, and then back to `start`.
abbrev pub Arc : Tasks → ℕ → ℕ → List ℕ → Type 0
Arc ts start p [] = p ≡ start
Arc ts start p (x ∷ xs) = (p ≡ x) × (x ≢ null) × (x ≢ start) × Arc ts start (ts x).next xs

-- A ring of `start` and the tasks of the list.
abbrev pub Ring : Tasks → ℕ → List ℕ → Type 0
Ring ts start xs = (start ≢ null) × Arc ts start (ts start).next xs

-- The first task of a list with the id.
unfoldable pub first_with : ℕ → Tasks → List ℕ → Found
first_with pid ts [] = missing
first_with pid ts (x ∷ xs) = if (ts x).id == pid then found x else first_with pid ts xs

find-Arc :
    (fuel pid task start : ℕ) (ts : Tasks) (xs : List ℕ)
    → length xs < fuel
    → Arc ts start (ts task).next xs
    → find fuel pid task start ts ≡ first_with pid ts (task ∷ xs)
unfolding find first_with
find-Arc zero pid task start ts xs f a = absurd (omega arith)
find-Arc (suc fuel) pid task start ts [] f a =
    let stop : ((ts task).next == start) ≡ true = ground arith in rw stop
find-Arc (suc fuel) pid task start ts (x ∷ xs) f a =
    let on : ((ts task).next == start) ≡ false = ground arith in
    let there : ((ts task).next == null) ≡ false = ground arith in
    rw (on, there)
      (ap (λ r. if (ts task).id == pid then found task else r)
        (ap (λ p. find fuel pid p start ts) a.0
          ∙ find-Arc fuel pid x start ts xs (omega arith) a.3))

-- The walk round the ready queue finds the first task with the pid, if there is one.
pub find-first_with :
    (fuel pid : ℕ) (ts : Tasks) (start : ℕ) (xs : List ℕ)
    → length xs < fuel
    → Ring ts start xs
    → find fuel pid start start ts ≡ first_with pid ts (start ∷ xs)
find-first_with fuel pid ts start xs f r = find-Arc fuel pid start start ts xs f r.1
