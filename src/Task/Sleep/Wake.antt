-- ===== src/Task/Sleep/Wake.antt =====
-- The timer wakes exactly the sleepers that are due.
use curls.Prelude.{
  ℕ, zero, suc, ◌<◌, ◌≡◌, ◌≢◌, refl, sym, ap, ◌∙◌, inl, inr, Bool, true, false, some, List, [], ◌∷◌,
  subst, arith,
}
use curls.Prelude.Tests.{leb, ◌==◌, if◌then◌else◌, Bool-cases}
use curls.Prelude.Lists.{length}
use curls.Prelude.Store.{update_self, update_ne}
use curls.Task.{Task, Tasks, ready, is_waiting, null}
use curls.Task.Sleep.{Sleepers, wake_one, wake}
use curls.Task.Sleep.Chain.{
  Queued, Fresh, AllFrom, SameKeys, Chain-update, IsSorted-same, SameKeys-update,
}

-- The tasks of the queue that are due at a tick, and those that are not.
pub due : ℕ → Tasks → List ℕ → List ℕ
due tick ts [] = []
due tick ts (x ∷ xs) = if leb (ts x).sleep_until tick then x ∷ due tick ts xs else due tick ts xs

pub not_due : ℕ → Tasks → List ℕ → List ℕ
not_due tick ts [] = []
not_due tick ts (x ∷ xs) =
    if leb (ts x).sleep_until tick then not_due tick ts xs else x ∷ not_due tick ts xs

abbrev pub mem : ℕ → List ℕ → Bool
mem a [] = false
mem a (x ∷ xs) = if a == x then true else mem a xs

-- A task that the timer has taken off the queue: it is ready if it was waiting.
abbrev pub awake : Task → Task
awake r = record r {
  sleep_until = 0;
  sleep_next = null;
  state = if is_waiting r.state then ready else r.state;
}

-- What the loop of the timer leaves.
pub record Woke (tick : ℕ) (s : Sleepers) (xs : List ℕ) (s' : Sleepers) : Type 0 where
  pub queued : Queued s'.head s'.tasks (not_due tick s.tasks xs)
  pub tasks :
      (a : ℕ) → s'.tasks a ≡ (if mem a (due tick s.tasks xs) then awake (s.tasks a) else s.tasks a)

due-same :
    (tick : ℕ) (ts us : Tasks) (xs : List ℕ) → SameKeys ts us xs → due tick us xs ≡ due tick ts xs
unfolding due
due-same tick ts us [] s = refl
due-same tick ts us (x ∷ xs) s = rw (s.0, due-same tick ts us xs s.1)

not_due-same :
    (tick : ℕ) (ts us : Tasks) (xs : List ℕ)
    → SameKeys ts us xs
    → not_due tick us xs ≡ not_due tick ts xs
unfolding not_due
not_due-same tick ts us [] s = refl
not_due-same tick ts us (x ∷ xs) s = rw (s.0, not_due-same tick ts us xs s.1)

-- In a sorted queue nothing behind a task that is not due is due.
none_due :
    (tick k : ℕ) (ts : Tasks) (xs : List ℕ)
    → tick < k
    → AllFrom k ts xs
    → (due tick ts xs ≡ []) × (not_due tick ts xs ≡ xs)
unfolding due not_due
none_due tick k ts [] h a = (refl, refl)
none_due tick k ts (x ∷ xs) h a =
    let late : leb (ts x).sleep_until tick ≡ false = ground arith in
    let (d, n) = none_due tick k ts xs h a.1 in (rw late d, rw late (ap (λ l. x ∷ l) n))

Fresh-due : (tick a : ℕ) (ts : Tasks) (xs : List ℕ) → Fresh a xs → Fresh a (due tick ts xs)
unfolding due
Fresh-due tick a ts [] f = tt
Fresh-due tick a ts (x ∷ xs) f = elim (Bool-cases (leb (ts x).sleep_until tick)) [
  | inl e ↦ rw e (f.0, Fresh-due tick a ts xs f.1)
  | inr e ↦ rw e (Fresh-due tick a ts xs f.1)
]

not-mem_of_Fresh : (a : ℕ) (xs : List ℕ) → Fresh a xs → mem a xs ≡ false
not-mem_of_Fresh a [] f = refl
not-mem_of_Fresh a (x ∷ xs) f =
    let other : (a == x) ≡ false = ground arith in rw other (not-mem_of_Fresh a xs f.1)

module _ (tick x : ℕ) (xs : List ℕ) (s : Sleepers) (q : Queued s.head s.tasks (x ∷ xs)) where
  -- The queue once its head is woken.
  rest : Sleepers
  rest = record { head = (s.tasks x).sleep_next; tasks = wake_one x s.tasks }

  rest-keys : SameKeys s.tasks rest.tasks xs
  unfolding rest wake_one
  rest-keys = SameKeys-update s.tasks x _ xs q.distinct.0

  rest-Queued : Queued rest.head rest.tasks xs
  unfolding rest wake_one
  rest-Queued = record {
    chain = Chain-update s.tasks x _ _ xs q.distinct.0 q.chain.2;
    distinct = q.distinct.1;
    sorted = IsSorted-same s.tasks (wake_one x s.tasks) xs rest-keys q.sorted.1;
  }

  rest-due : due tick rest.tasks xs ≡ due tick s.tasks xs
  rest-due = due-same tick s.tasks rest.tasks xs rest-keys

  rest-others : (a : ℕ) → a ≢ x → rest.tasks a ≡ s.tasks a
  unfolding rest wake_one
  rest-others a n = update_ne s.tasks x a _ (λ e. n (sym e))

  rest_self : rest.tasks x ≡ awake (s.tasks x)
  unfolding rest wake_one
  rest_self = update_self s.tasks x _

  Woke-cons-tasks :
      (s' : Sleepers) (a : ℕ)
      → Woke tick rest xs s'
      → s'.tasks a ≡ (if mem a (x ∷ due tick s.tasks xs) then awake (s.tasks a) else s.tasks a)
  Woke-cons-tasks s' a w =
      let later : s'.tasks a
          ≡ (if mem a (due tick s.tasks xs) then awake (rest.tasks a) else rest.tasks a) =
        subst (λ l. s'.tasks a ≡ (if mem a l then awake (rest.tasks a) else rest.tasks a)) rest-due
          (w.tasks a) in
      elim (Bool-cases (a == x)) [
        | inl e ↦
            let same : x ≡ a = ground arith in
            let gone : mem a (due tick s.tasks xs) ≡ false =
              subst (λ b. mem b (due tick s.tasks xs) ≡ false) same
                (not-mem_of_Fresh x _ (Fresh-due tick x s.tasks xs q.distinct.0)) in
            rw e ((rw gone at later) ∙ subst (λ b. rest.tasks b ≡ awake (s.tasks b)) same rest_self)
        | inr e ↦
            let other : a ≢ x = λ z. let r : (a == x) ≡ true = ground arith in cc in
            rw e (
              subst (λ r. s'.tasks a ≡ (if mem a (due tick s.tasks xs) then awake r else r))
                (rest-others a other) later)
      ]

  Woke-cons :
      (s' : Sleepers)
      → leb (s.tasks x).sleep_until tick ≡ true
      → Woke tick rest xs s'
      → Woke tick s (x ∷ xs) s'
  unfolding due not_due
  Woke-cons s' e w = record {
    queued = rw e (
        subst (Queued s'.head s'.tasks) (not_due-same tick s.tasks rest.tasks xs rest-keys)
          w.queued);
    tasks = λ a. rw e (Woke-cons-tasks s' a w);
  }

  wake-step :
      (fuel : ℕ) (s' : Sleepers)
      → leb (s.tasks x).sleep_until tick ≡ true
      → wake fuel tick rest ≡ some s'
      → wake (suc fuel) tick s ≡ some s'
  unfolding wake rest
  wake-step fuel s' e ran =
      let full : (s.head == null) ≡ false = ground arith in
      let now : leb (s.tasks s.head).sleep_until tick ≡ true =
        subst (λ h. leb (s.tasks h).sleep_until tick ≡ true) (sym q.chain.0) e in
      rw (full, now)
        (subst
          (λ h.
            wake fuel tick (record { head = (s.tasks h).sleep_next; tasks = wake_one h s.tasks })
            ≡ some s')
          (sym q.chain.0) ran)

  wake-stop :
      (fuel : ℕ) → leb (s.tasks x).sleep_until tick ≡ false → wake (suc fuel) tick s ≡ some s
  unfolding wake
  wake-stop fuel e =
      let full : (s.head == null) ≡ false = ground arith in
      let later : leb (s.tasks s.head).sleep_until tick ≡ false =
        subst (λ h. leb (s.tasks h).sleep_until tick ≡ false) (sym q.chain.0) e in
      rw (full, later)

-- At each tick the timer takes exactly the tasks that are due off the queue: each is unlinked, no
-- longer asleep, and ready if it was waiting. The tasks that are not due stay queued in order, and
-- no other task changes. The loop ends within as many rounds as the queue is long.
pub wake-Woke :
    (fuel tick : ℕ) (s : Sleepers) (xs : List ℕ)
    → length xs < fuel
    → Queued s.head s.tasks xs
    → (s' : Sleepers) × (wake fuel tick s ≡ some s') × Woke tick s xs s'
unfolding wake due not_due
wake-Woke zero tick s xs f q = absurd (omega arith)
wake-Woke (suc fuel) tick s [] f q = (s, rw q.chain, record { queued = q; tasks = λ a. refl })
wake-Woke (suc fuel) tick s (x ∷ xs) f q = elim (Bool-cases (leb (s.tasks x).sleep_until tick)) [
  | inl e ↦
      let (s', ran, w) =
        wake-Woke fuel tick (rest tick x xs s q) xs (omega arith) (rest-Queued tick x xs s q) in
      (s', wake-step tick x xs s q fuel s' e ran, Woke-cons tick x xs s q s' e w)
  | inr e ↦
      let none_left = none_due tick (s.tasks x).sleep_until s.tasks xs (ground arith) q.sorted.0 in
      (
        s,
        wake-stop tick x xs s q fuel e,
        record { queued = rw (e, none_left.1) q; tasks = λ a. rw (e, none_left.0) refl },
      )
]
