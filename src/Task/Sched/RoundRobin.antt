-- ===== src/Task/Sched/RoundRobin.antt =====
-- `round_robin_pick_next` on a ring.
use curls.Prelude.{
  ℕ, zero, suc, ◌<◌, ◌≡◌, ◌≢◌, refl, sym, ap, ◌∙◌, inl, inr, Bool, true, false, ◌&&◌, ◌||◌, some,
  List, [], ◌∷◌, arith,
}
use curls.Prelude.Tests.{not, ltb, ◌==◌, if◌then◌else◌, Bool-cases}
use curls.Prelude.Lists.{length}
use curls.Task.{Tasks, is_ready, null}
use curls.Task.Signal.Ring.{Arc, Ring}
use curls.Task.Sched.{walk_ready, choose, pick_loop, or_current, pick_next}

-- The first ready task of a list, or the current one.
unfoldable pub first_ready : ℕ → Tasks → List ℕ → ℕ
first_ready current ts [] = current
first_ready current ts (x ∷ xs) = if is_ready (ts x).state then x else first_ready current ts xs

first_ready-null :
    (current : ℕ) (ts : Tasks) (p : ℕ) (xs : List ℕ)
    → current ≢ null
    → Arc ts current p xs
    → first_ready current ts xs ≢ null
unfolding first_ready
first_ready-null current ts p [] n a = n
first_ready-null current ts p (x ∷ xs) n a = elim (Bool-cases (is_ready (ts x).state)) [
  | inl e ↦ rw e a.1
  | inr e ↦ rw e (first_ready-null current ts (ts x).next xs n a.3)
]

Arc-null :
    (current : ℕ) (ts : Tasks) (p : ℕ) (xs : List ℕ)
    → current ≢ null
    → Arc ts current p xs
    → p ≢ null
Arc-null current ts p [] n a = λ z. n (sym a ∙ z)
Arc-null current ts p (x ∷ xs) n a = λ z. a.1 (sym a.0 ∙ z)

pick_loop-first_ready :
    (fuel p queue current : ℕ) (ts : Tasks) (xs : List ℕ)
    → length xs < fuel
    → current ≢ null
    → Arc ts current p xs
    → pick_loop fuel p queue current ts ≡ some (first_ready current ts xs)
unfolding pick_loop first_ready
pick_loop-first_ready zero p queue current ts xs f n a = absurd (omega arith)
pick_loop-first_ready (suc fuel) p queue current ts [] f n a =
    let here : (p == current) ≡ true = ground arith in
    let stop : (not (p == null) && (not (is_ready (ts p).state) && not (p == current))) ≡ false =
      ground arith in
    rw stop (ap some a)
pick_loop-first_ready (suc fuel) p queue current ts (x ∷ xs) f n a =
    elim (Bool-cases (is_ready (ts x).state)) [
      | inl e ↦
          let stop : (not (p == null) && (not (is_ready (ts p).state) && not (p == current)))
              ≡ false =
            ap (λ k. not (k == null) && (not (is_ready (ts k).state) && not (k == current))) a.0
            ∙ rw e (ground arith) in
          rw (stop, e) (ap some a.0)
      | inr e ↦
          let go : (not (p == null) && (not (is_ready (ts p).state) && not (p == current))) ≡ true =
            ap (λ k. not (k == null) && (not (is_ready (ts k).state) && not (k == current))) a.0
            ∙ rw e (ground (arith, a.1, a.2)) in
          let there : ((ts p).next == null) ≡ false =
            let m : (ts x).next ≢ null = Arc-null current ts (ts x).next xs n a.3 in
            let y : (ts p).next ≡ (ts x).next = ap (λ k. (ts k).next) a.0 in ground arith in
          rw (go, e, there)
            (ap (λ k. pick_loop fuel (ts k).next queue current ts) a.0
              ∙ pick_loop-first_ready fuel (ts x).next queue current ts xs (omega arith) n a.3)
    ]

-- Round robin: on a ring of tasks the one to run is the first ready one after the current task, in
-- the order of the ring, and the current one if no other is ready.
pub pick_next-first_ready :
    (fuel queue current : ℕ) (ts : Tasks) (xs : List ℕ)
    → length xs < fuel
    → queue ≢ null
    → Ring ts current xs
    → pick_next fuel queue current ts ≡ some (first_ready current ts xs)
unfolding pick_next or_current
pick_next-first_ready fuel queue current ts xs f q r =
    let some_queue : (queue == null) ≡ false = ground arith in
    let some_task : (current == null) ≡ false = ground (arith, r.0) in
    let next_there : ((ts current).next == null) ≡ false =
      let m : (ts current).next ≢ null = Arc-null current ts (ts current).next xs r.0 r.1 in
      ground arith in
    let found_there : (first_ready current ts xs == null) ≡ false =
      let m : first_ready current ts xs ≢ null =
        first_ready-null current ts (ts current).next xs r.0 r.1 in
      ground arith in
    rw
      (
        some_queue,
        some_task,
        next_there,
        pick_loop-first_ready fuel (ts current).next queue current ts xs f r.0 r.1,
        found_there,
      )
      refl

walk_ready-first_ready :
    (k p current : ℕ) (ts : Tasks) (xs : List ℕ)
    → length xs < k
    → Arc ts current p xs
    → walk_ready k p current ts ≡ first_ready current ts xs
unfolding walk_ready first_ready
walk_ready-first_ready zero p current ts xs f a = absurd (omega arith)
walk_ready-first_ready (suc k) p current ts [] f a =
    let here : (p == current) ≡ true = ground arith in
    let stop : ((p == null) || (p == current)) ≡ true = ground arith in rw stop refl
walk_ready-first_ready (suc k) p current ts (x ∷ xs) f a =
    let on : ((x == null) || (x == current)) ≡ false = ground (arith, a.1, a.2) in
    ap (λ q. walk_ready (suc k) q current ts) a.0
    ∙ rw (on, walk_ready-first_ready k (ts x).next current ts xs (omega arith) a.3) refl

-- On a ring, which without a registered scheduler has at most 131 tasks, the choice is the first ready
-- task after the current one.
pub choose-first_ready :
    (registered : Bool) (fuel queue current : ℕ) (ts : Tasks) (xs : List ℕ)
    → length xs < fuel
    → (registered || ltb (length xs) 131) ≡ true
    → queue ≢ null
    → Ring ts current xs
    → choose registered fuel queue current ts ≡ some (first_ready current ts xs)
unfolding choose
choose-first_ready true fuel queue current ts xs f few q r =
    pick_next-first_ready fuel queue current ts xs f q r
choose-first_ready false fuel queue current ts xs f few q r =
    ap some (walk_ready-first_ready 131 (ts current).next current ts xs (ground arith) r.1)
