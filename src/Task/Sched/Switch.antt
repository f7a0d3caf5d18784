-- ===== src/Task/Sched/Switch.antt =====
-- What `task_switch` does to the states.
use curls.Prelude.{
  ℕ, ◌<◌, ◌≡◌, ◌≢◌, refl, sym, ap, subst, Bool, true, false, ◌&&◌, ◌||◌, some, List, [], ◌∷◌, arith,
}
use curls.Prelude.Tests.{not, ltb, ◌==◌, if◌then◌else◌}
use curls.Prelude.Lists.{length}
use curls.Prelude.Store.{update, update_self}
use curls.Task.{Task, Tasks, running, is_running, null}
use curls.Task.Signal.Ring.{Arc, Ring}
use curls.Task.Sched.{set_state, preempt, switch_to, switch}
use curls.Task.Sched.RoundRobin.{first_ready, choose-first_ready}

preempt-next : (prev : ℕ) (ts : Tasks) (a : ℕ) → (preempt prev ts a).next ≡ (ts a).next
unfolding preempt set_state update
preempt-next prev ts a = ground arith

Arc-same :
    (ts us : Tasks) (start p : ℕ) (xs : List ℕ)
    → ((a : ℕ) → (us a).next ≡ (ts a).next)
    → Arc ts start p xs
    → Arc us start p xs
Arc-same ts us start p [] e a = a
Arc-same ts us start p (x ∷ xs) e a = (
  a.0,
  a.1,
  a.2,
  subst (λ q. Arc us start q xs) (sym (e x)) (Arc-same ts us start (ts x).next xs e a.3),
)

Ring-same :
    (ts us : Tasks) (start : ℕ) (xs : List ℕ)
    → ((a : ℕ) → (us a).next ≡ (ts a).next)
    → Ring ts start xs
    → Ring us start xs
Ring-same ts us start xs e r = (
  r.0,
  subst (λ q. Arc us start q xs) (sym (e start)) (Arc-same ts us start (ts start).next xs e r.1),
)

-- What a switch leaves: `next` runs, and nothing else does.
pub record Switched (ts : Tasks) (prev : ℕ) (xs : List ℕ) (next : ℕ) (us : Tasks) : Type 0 where
  pub chosen : next ≡ first_ready prev (preempt prev ts) xs
  pub one_runs : (a : ℕ) → is_running (us a).state ≡ (a == next)
  pub others :
      (a : ℕ) → (if a == prev || a == next then (ts a).state else (us a).state) ≡ (ts a).state
  pub ring : Ring us prev xs

module _ (prev next : ℕ) (ts : Tasks) (a : ℕ) where
  runs :
      (is_running (ts a).state && not (a == prev)) ≡ false
      → is_running (set_state next running (preempt prev ts) a).state ≡ (a == next)
  unfolding set_state preempt update
  runs h = ground arith

  rest :
      (if a == prev || a == next
        then (ts a).state
        else (set_state next running (preempt prev ts) a).state)
      ≡ (ts a).state
  unfolding set_state preempt update
  rest = ground arith

set_state-next : (t : ℕ) (ts : Tasks) (a : ℕ) → (set_state t running ts a).next ≡ (ts a).next
unfolding set_state update
set_state-next t ts a = ground arith

-- If no task but the current one is in the state RUNNING, then `task_switch` on a ring, which
-- without a registered scheduler has at most 131 tasks, chooses the first ready task after the current one, or
-- the current one again, exactly the chosen task is RUNNING afterwards, no state but those two
-- changes, and the queue stays a ring.
pub switch-Switched :
    (registered : Bool) (fuel queue prev : ℕ) (ts : Tasks) (xs : List ℕ)
    → length xs < fuel
    → (registered || ltb (length xs) 131) ≡ true
    → queue ≢ null
    → Ring ts prev xs
    → ((a : ℕ) → (is_running (ts a).state && not (a == prev)) ≡ false)
    → (next : ℕ) × (us : Tasks) × (switch registered fuel queue prev ts ≡ some (next, us))
      × Switched ts prev xs next us
unfolding switch switch_to
switch-Switched registered fuel queue prev ts xs f few q r alone =
    let us = preempt prev ts in
    let r' : Ring us prev xs = Ring-same ts us prev xs (preempt-next prev ts) r in
    let next = first_ready prev us xs in
    (
      next,
      set_state next running us,
      ap (switch_to us) (choose-first_ready registered fuel queue prev us xs f few q r'),
      record {
        chosen = refl;
        one_runs = λ a. runs prev next ts a (alone a);
        others = λ a. rest prev next ts a;
        ring = Ring-same us (set_state next running us) prev xs (set_state-next next us) r';
      },
    )

-- A current task that is not RUNNING any more, because it waits or is a zombie, runs on when no
-- other task of the ring is ready: `task_switch` makes it RUNNING again.
pub switch_resurrects :
    (registered : Bool) (fuel queue prev : ℕ) (ts : Tasks) (xs : List ℕ)
    → length xs < fuel
    → (registered || ltb (length xs) 131) ≡ true
    → queue ≢ null
    → Ring ts prev xs
    → is_running (ts prev).state ≡ false
    → first_ready prev ts xs ≡ prev
    → (us : Tasks) × (switch registered fuel queue prev ts ≡ some (prev, us))
      × ((us prev).state ≡ running)
unfolding switch switch_to preempt set_state
switch_resurrects registered fuel queue prev ts xs f few q r off none_ready = (
  set_state prev running ts,
  rw (off, choose-first_ready registered fuel queue prev ts xs f few q r, none_ready) refl,
  set_running prev ts,
)
  where
    set_running : (t : ℕ) (ts : Tasks) → (set_state t running ts t).state ≡ running
    set_running t ts = ap (λ (r : Task). r.state) (update_self ts t _)
